-- ===== src/Dict.antt =====
-- Python's `dict` with text keys, as its items in insertion order: assigning to a key that is there
-- changes the value in its place, and a new key goes to the end.
use mister_pilot_proxy.Prelude.{
  suc, ◌≤◌, String, ◌≡◌, refl, Option, none, some, List, [], ◌∷◌, arith, ◌==◌, eq_iff,
  if◌then◌else◌, length,
}

abbrev pub Dict {ℓ} : Type ℓ → Type ℓ
Dict V = List (String × V)

module _ {ℓ} {V : Type ℓ} where
  unfoldable pub get : Dict V → String → Option V
  get [] k = none
  get ((j, v) ∷ items) k = if j == k then some v else get items k

  unfoldable pub put : Dict V → String → V → Dict V
  put [] k v = (k, v) ∷ []
  put ((j, w) ∷ items) k v =
      let rest = put items k v in if j == k then (j, v) ∷ items else (j, w) ∷ rest

  unfoldable pub pop : Dict V → String → Dict V
  pop [] k = []
  pop ((j, w) ∷ items) k = let rest = pop items k in if j == k then rest else (j, w) ∷ rest

  pub get-put :
      (items : Dict V) (k j : String) (v : V)
      → get (put items k v) j ≡ (if k == j then some v else get items j)
  unfolding get put
  get-put [] k j v = refl
  get-put ((i, w) ∷ items) k j v =
      ground (arith, get-put items k j v, eq_iff i k, eq_iff k j, eq_iff i j)

  pub get-pop :
      (items : Dict V) (k j : String) → get (pop items k) j ≡ (if k == j then none else get items j)
  unfolding get pop
  get-pop [] k j = ground arith
  get-pop ((i, w) ∷ items) k j =
      ground (arith, get-pop items k j, eq_iff i k, eq_iff k j, eq_iff i j)

  pub length-pop-le : (items : Dict V) (k : String) → length (pop items k) ≤ length items
  unfolding pop
  length-pop-le [] k = omega arith
  length-pop-le ((i, w) ∷ items) k = ground (arith, length-pop-le items k)

  pub length-pop-lt :
      (items : Dict V) (k : String) (v : V)
      → get items k ≡ some v
      → suc (length (pop items k)) ≤ length items
  unfolding get pop
  length-pop-lt [] k v h = cc
  length-pop-lt ((i, w) ∷ items) k v h =
      ground (arith, length-pop-le items k, length-pop-lt items k v)
