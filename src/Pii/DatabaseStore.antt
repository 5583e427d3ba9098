-- ===== src/Pii/DatabaseStore.antt =====
-- `DatabaseStore` of backend/pii/store.py: the table `pii_map`, in the order of insertion. `SELECT`
-- gives the first row that matches; the placeholder is the primary key, and a row with one that is
-- there is ignored. The time of insertion is an argument.
use mister_pilot_proxy.Prelude.{
  ℕ, String, Option, none, some, List, [], ◌∷◌, ◌++◌, ◌==◌, length, if◌then◌else◌,
}

pub record Row : Type 0 where
  pub placeholder : String
  pub original : String
  pub created_at : ℕ

unfoldable pub get_by_original : List Row → String → Option String
get_by_original [] original = none
get_by_original (row ∷ rows) original =
    let rest = get_by_original rows original in
    if row.original == original then some row.placeholder else rest

unfoldable pub get_by_placeholder : List Row → String → Option String
get_by_placeholder [] placeholder = none
get_by_placeholder (row ∷ rows) placeholder =
    let rest = get_by_placeholder rows placeholder in
    if row.placeholder == placeholder then some row.original else rest

-- `INSERT OR IGNORE`
unfoldable pub put : List Row → ℕ → String → String → List Row
unfolding get_by_placeholder
put rows now placeholder original = elim (get_by_placeholder rows placeholder) [
  | none ↦ rows ++ record { placeholder = placeholder; original = original; created_at = now } ∷ []
  | some there ↦ rows
]

unfoldable pub size : List Row → ℕ
size rows = length rows
