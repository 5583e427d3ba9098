-- ===== src/Json.antt =====
-- The JSON values of a request body, and the reads that the code makes of them: `isinstance`,
-- `.get(key)` and iteration. Numbers are whole.
use mister_pilot_proxy.Prelude.{
  ℕ, String, Bool, true, false, Option, none, some, List, [], ◌∷◌, ◌==◌, if◌then◌else◌,
}
use mister_pilot_proxy.Prelude.Int.{ℤ}

mutual
  pub data Json : Type 0 where
    null : Json
    bool : Bool → Json
    num : ℤ → Json
    str : String → Json
    arr : Items → Json
    obj : Fields → Json

  pub data Items : Type 0 where
    nil : Items
    cons : Json → Items → Items

  pub data Fields : Type 0 where
    end : Fields
    field : String → Json → Fields → Fields

abbrev pub find_field : Fields → String → Option Json
find_field end k = none
find_field (field j v fs) k = if j == k then some v else find_field fs k

-- `value.get(key)` of a mapping; of anything else the code does not ask.
abbrev pub get_field : Json → String → Option Json
get_field (obj fs) k = find_field fs k
get_field _ k = none

abbrev pub to_list : Items → List Json
to_list nil = []
to_list (cons x xs) = x ∷ to_list xs

-- `value.get(key)` where a text is expected
abbrev pub text_is : Option Json → String → Bool
text_is (some (str s)) t = s == t
text_is _ t = false

-- The truth of a value: what `if value` tests.
abbrev pub truthy : Option Json → Bool
truthy none = false
truthy (some null) = false
truthy (some (bool b)) = b
truthy (some (num (ℤ.pos n))) = elim n [ ℕ.zero ↦ false | ℕ.suc m ↦ true ]
truthy (some (num _)) = true
truthy (some (str String.[])) = false
truthy (some (str _)) = true
truthy (some (arr nil)) = false
truthy (some (arr _)) = true
truthy (some (obj end)) = false
truthy (some (obj _)) = true
