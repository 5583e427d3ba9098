-- ===== src/Pii/Pseudonymizer.antt =====
-- `Pseudonymizer` of backend/pii/pseudonymizer.py, on the in-memory store. `hmac` and `str.lower` are
-- arguments, and so is the suffix: the first digits of the HMAC under the process's key, in capitals.
use Prim.Native.Char.{code}
use Prim.Native.String.{◌++◌}
use text.Mathlib.Text.{starts_with}
use mister_pilot_proxy.Prelude.{
  ℕ, zero, suc, String, Bool, true, false, ◌||◌, ◌&&◌, ◌==◌, eqb, Option, none, some, if◌then◌else◌,
}
use mister_pilot_proxy.Prelude.Decimal.{decimal}
use mister_pilot_proxy.Pii.{EntityType, email, value}
use mister_pilot_proxy.Pii.Store.{InMemoryStore, get_by_original, get_by_placeholder, put, size}

pub record Hashing : Type 0 where
  pub lower : String → String
  pub hmac_suffix : String → String

abbrev is_email : EntityType → Bool
is_email email = true
is_email _ = false

-- `"@" in value`, and `value.split("@")[0]`
abbrev has_at : String → Bool
has_at String.[] = false
has_at (String.◌∷◌ c s) = eqb (code c) b'@' || has_at s

abbrev before_at : String → String
before_at String.[] = ""
before_at (String.◌∷◌ c s) =
    let rest = before_at s in if eqb (code c) b'@' then "" else String.◌∷◌ c rest

unfoldable pub normalize_for_hmac : Hashing → EntityType → String → String
normalize_for_hmac hashing entity_type text =
    if is_email entity_type && has_at text then hashing.lower (before_at text) else text

abbrev pub numbered : String → ℕ → String
numbered base counter = base ++ ("_" ++ decimal counter)

-- `existing is None or existing == value`
abbrev pub free_for : InMemoryStore → String → String → Bool
free_for store placeholder text = elim (get_by_placeholder store placeholder) [
  | none ↦ true
  | some existing ↦ existing == text
]

-- The `while True` of `_resolve_collision`, for so many rounds.
unfoldable pub resolve_from : ℕ → ℕ → InMemoryStore → String → String → Option String
resolve_from zero counter store base text = none
resolve_from (suc rounds) counter store base text =
    let rest = resolve_from rounds (suc counter) store base text in
    if free_for store (numbered base counter) text then some (numbered base counter) else rest

unfoldable pub resolve_collision : InMemoryStore → String → String → Option String
unfolding resolve_from
resolve_collision store base text = resolve_from (suc (size store)) 1 store base text

abbrev pub base_placeholder : Hashing → EntityType → String → String
base_placeholder hashing entity_type text =
    value entity_type ++ ("_" ++ hashing.hmac_suffix (normalize_for_hmac hashing entity_type text))

abbrev pub new_placeholder : Hashing → InMemoryStore → EntityType → String → Option String
new_placeholder hashing store entity_type text =
    let base = base_placeholder hashing entity_type text in
    let numbered_one = resolve_collision store base text in
    if free_for store base text then some base else numbered_one

abbrev pub put_new : InMemoryStore → String → Option String → Option (InMemoryStore × String)
put_new store text none = none
put_new store text (some placeholder) = some (put store placeholder text, placeholder)

abbrev pub pseudonymize_with :
    Hashing → InMemoryStore → EntityType → String → Option String → Option (InMemoryStore × String)
pseudonymize_with hashing store entity_type text none =
    put_new store text (new_placeholder hashing store entity_type text)
pseudonymize_with hashing store entity_type text (some existing) =
    if starts_with existing (value entity_type ++ "_")
    then some (store, existing)
    else put_new store text (new_placeholder hashing store entity_type text)

-- `none` stands for a loop that did not end in the rounds given.
unfoldable pub pseudonymize :
    Hashing → InMemoryStore → EntityType → String → Option (InMemoryStore × String)
pseudonymize hashing store entity_type text =
    pseudonymize_with hashing store entity_type text (get_by_original store text)
