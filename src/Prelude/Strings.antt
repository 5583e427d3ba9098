-- ===== src/Prelude/Strings.antt =====
-- Membership in a list of texts, and Python's slices of a text.
use Prim.Native.Nat.{ℕ, ◌+◌, ◌-◌, ◌≤◌}
use Prim.Native.String.{String, ◌++◌ as ◌<>◌}
use mathlib.Core.Path.{◌≡◌, refl, ap, ◌∙◌}
use native.Mathlib.Omega.{arith}
use mathlib.Core.Bool.{Bool, false, ◌||◌}
use mathlib.Core.List.{List, [], ◌∷◌}
use text.Mathlib.TextLemmas.{nil-append, cons-append}
use text.Mathlib.Text.{◌==◌}

-- `s in xs`
abbrev pub contains : List String → String → Bool
contains [] s = false
contains (x ∷ xs) s = x == s || contains xs s

-- The first characters of a text, and the rest: Python's slices, by characters.
unfoldable pub take_text : ℕ → String → String
take_text ℕ.zero s = ""
take_text (ℕ.suc n) String.[] = ""
take_text (ℕ.suc n) (String.◌∷◌ c s) = String.◌∷◌ c (take_text n s)

unfoldable pub drop_text : ℕ → String → String
drop_text ℕ.zero s = s
drop_text (ℕ.suc n) String.[] = ""
drop_text (ℕ.suc n) (String.◌∷◌ c s) = drop_text n s

-- `s[a:b]`, empty where `b` is not past `a`
abbrev pub slice_text : ℕ → ℕ → String → String
slice_text a b s = take_text (b - a) (drop_text a s)

pub take_text-drop_text : (n : ℕ) (s : String) → take_text n s <> drop_text n s ≡ s
unfolding take_text drop_text
take_text-drop_text ℕ.zero s = nil-append s
take_text-drop_text (ℕ.suc n) String.[] = nil-append ""
take_text-drop_text (ℕ.suc n) (String.◌∷◌ c s) =
    cons-append c (take_text n s) (drop_text n s) ∙ ap (String.◌∷◌ c) (take_text-drop_text n s)

drop_text_empty : (n : ℕ) → drop_text n "" ≡ ""
unfolding drop_text
drop_text_empty ℕ.zero = refl
drop_text_empty (ℕ.suc n) = refl

pub drop_text-drop_text : (n m : ℕ) (s : String) → drop_text m (drop_text n s) ≡ drop_text (n + m) s
unfolding drop_text
drop_text-drop_text ℕ.zero m s = let e : m ≡ 0 + m = omega arith in ap (λ k. drop_text k s) e
drop_text-drop_text (ℕ.suc n) m String.[] =
    rw (drop_text_empty m, drop_text_empty (ℕ.suc n + m)) refl
drop_text-drop_text (ℕ.suc n) m (String.◌∷◌ c s) =
    let e : ℕ.suc (n + m) ≡ ℕ.suc n + m = omega arith in
    drop_text-drop_text n m s ∙ ap (λ k. drop_text k (String.◌∷◌ c s)) e

-- A slice, and what follows it.
pub slice_text-drop_text :
    (a b : ℕ) (s : String) → a ≤ b → slice_text a b s <> drop_text b s ≡ drop_text a s
slice_text-drop_text a b s h =
    let e : a + (b - a) ≡ b = omega arith in
    let rest : drop_text (b - a) (drop_text a s) ≡ drop_text b s =
      drop_text-drop_text a (b - a) s ∙ ap (λ k. drop_text k s) e in
    rw (← rest) (take_text-drop_text (b - a) (drop_text a s))

take_text_take : (k n : ℕ) (s : String) → k ≤ n → take_text k (take_text n s) ≡ take_text k s
unfolding take_text
take_text_take ℕ.zero n s h = refl
take_text_take (ℕ.suc k) ℕ.zero s h = absurd (omega arith)
take_text_take (ℕ.suc k) (ℕ.suc n) String.[] h = refl
take_text_take (ℕ.suc k) (ℕ.suc n) (String.◌∷◌ c s) h =
    ap (String.◌∷◌ c) (take_text_take k n s (omega arith))

take_text-drop_text-take_text :
    (a k n : ℕ) (s : String)
    → a + k ≤ n
    → take_text k (drop_text a (take_text n s)) ≡ take_text k (drop_text a s)
unfolding take_text drop_text
take_text-drop_text-take_text ℕ.zero k n s h = take_text_take k n s (omega arith)
take_text-drop_text-take_text (ℕ.suc a) k ℕ.zero s h = absurd (omega arith)
take_text-drop_text-take_text (ℕ.suc a) k (ℕ.suc n) String.[] h = refl
take_text-drop_text-take_text (ℕ.suc a) k (ℕ.suc n) (String.◌∷◌ c s) h =
    take_text-drop_text-take_text a k n s (omega arith)

-- A slice of the text within another is the slice of that, from where it starts.
pub slice_text-slice_text :
    (a b start stop : ℕ) (s : String)
    → start ≤ a
    → a ≤ b
    → b ≤ stop
    → slice_text (a - start) (b - start) (slice_text start stop s) ≡ slice_text a b s
slice_text-slice_text a b start stop s h k l =
    let e : start + (a - start) ≡ a = omega arith in
    let width : (b - start) - (a - start) ≡ b - a = omega arith in
    rw width (
      take_text-drop_text-take_text (a - start) (b - a) (stop - start) (drop_text start s)
        (omega arith)
      ∙ ap (take_text (b - a))
          (drop_text-drop_text start (a - start) s ∙ ap (λ k. drop_text k s) e))

-- A text is what stands before a slice, the slice, and what follows it.
pub around_slice :
    (a b : ℕ) (s : String) → a ≤ b → take_text a s <> (slice_text a b s <> drop_text b s) ≡ s
around_slice a b s h = rw (slice_text-drop_text a b s h) (take_text-drop_text a s)
