-- ===== src/Prelude/PyText.antt =====
-- Methods of Python's texts, by characters: strip, split, join, endswith, a list without repeats.
use Prim.Native.Char.{code}
use Prim.Native.Nat.{ℕ, suc, ◌+◌}
use Prim.Native.String.{String, ◌++◌ as ◌<>◌}
use mathlib.Core.Bool.{Bool, true, false, not, ◌&&◌, ◌||◌}
use mathlib.Core.List.{List, [], ◌∷◌, ◌++◌}
use mister_pilot_proxy.Prelude.Tests.{leb, eqb, if◌then◌else◌}
use mister_pilot_proxy.Prelude.Strings.{contains}

abbrev between : ℕ → ℕ → ℕ → Bool
between low high n = leb low n && leb n high

-- `str.isspace` of a code point
unfoldable pub is_space : ℕ → Bool
is_space n =
    between 9 13 n
    || between 28 32 n
    || eqb n 0x85
    || eqb n 0xA0
    || eqb n 0x1680
    || between 0x2000 0x200A n
    || between 0x2028 0x2029 n
    || eqb n 0x202F
    || eqb n 0x205F
    || eqb n 0x3000

abbrev pub is_empty : String → Bool
is_empty String.[] = true
is_empty _ = false

-- `not s.strip()`
unfoldable pub is_blank : String → Bool
unfolding is_space
is_blank String.[] = true
is_blank (String.◌∷◌ c s) = is_space (code c) && is_blank s

unfoldable pub lstrip : String → String
unfolding is_space
lstrip String.[] = ""
lstrip (String.◌∷◌ c s) = if is_space (code c) then lstrip s else String.◌∷◌ c s

unfoldable pub rstrip : String → String
unfolding is_blank
rstrip String.[] = ""
rstrip (String.◌∷◌ c s) =
    let rest = rstrip s in if is_space (code c) && is_blank s then "" else String.◌∷◌ c rest

unfoldable pub strip : String → String
unfolding lstrip rstrip
strip s = rstrip (lstrip s)

-- `len(s.split())`: the characters that start a word.
pub words_from : Bool → String → ℕ
unfolding is_space
words_from inside String.[] = 0
words_from inside (String.◌∷◌ c s) =
    let space = is_space (code c) in
    (if not inside && not space then 1 else 0) + words_from (not space) s

unfoldable pub word_count : String → ℕ
unfolding words_from
word_count s = words_from false s

-- The number of characters.
unfoldable pub text_length : String → ℕ
text_length String.[] = 0
text_length (String.◌∷◌ c s) = suc (text_length s)

-- The last character of the text is `n`.
unfoldable pub ends_in : ℕ → String → Bool
ends_in n String.[] = false
ends_in n (String.◌∷◌ c String.[]) = eqb (code c) n
ends_in n (String.◌∷◌ c s) = ends_in n s

-- `separator.join(parts)`
unfoldable pub join : String → List String → String
join separator [] = ""
join separator (s ∷ []) = s
join separator (s ∷ ss) = s <> (separator <> join separator ss)

-- `list(dict.fromkeys(xs))`
pub distinct_from : List String → List String → List String
distinct_from seen [] = seen
distinct_from seen (x ∷ xs) = distinct_from (if contains seen x then seen else seen ++ x ∷ []) xs

unfoldable pub distinct : List String → List String
unfolding distinct_from
distinct xs = distinct_from [] xs
