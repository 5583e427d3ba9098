-- ===== src/Ttl/Items.antt =====
-- Lemmas on the items of a `TTLStore` (backend/services/auto_session.py): moving to the end and
-- trimming from the front.
use mister_pilot_proxy.Prelude.{
  String, ◌≡◌, refl, Bool-cases, inl, inr, none, some, [], ◌∷◌, ◌++◌, arith, ◌==◌, eq_iff, eq_refl,
  if◌then◌else◌,
}
use mister_pilot_proxy.Dict
use mister_pilot_proxy.Dict.{Dict, get-pop, get-put}

module _ {ℓ} {A : Type ℓ} where
  -- No key twice.
  abbrev pub Distinct : Dict A → Type ℓ
  Distinct [] = Unit
  Distinct ((k, v) ∷ items) = (Dict.get items k ≡ none) × Distinct items

  pub get-append :
      (items : Dict A) (k j : String) (v : A)
      → Dict.get (items ++ (k, v) ∷ []) j
        ≡ elim (Dict.get items j) [ none ↦ if k == j then some v else none | some w ↦ some w ]
  unfolding Dict.get
  get-append [] k j v = refl
  get-append ((i, w) ∷ items) k j v = ground (arith, get-append items k j v)

  pub Distinct-append :
      (items : Dict A) (k : String) (v : A)
      → Distinct items
      → Dict.get items k ≡ none
      → Distinct (items ++ (k, v) ∷ [])
  unfolding Dict.get
  Distinct-append [] k v d h = (refl, tt)
  Distinct-append ((i, w) ∷ items) k v (absent, d) h = (
    ground (arith, get-append items k i v, eq_iff k i, eq_iff i k),
    Distinct-append items k v d (ground (arith, h)),
  )

  pub Distinct-pop : (items : Dict A) (k : String) → Distinct items → Distinct (Dict.pop items k)
  unfolding Dict.pop
  Distinct-pop [] k d = tt
  Distinct-pop ((i, w) ∷ items) k (absent, d) = elim (Bool-cases (i == k)) [
    | inl same ↦ rw same (Distinct-pop items k d)
    | inr other ↦ rw other (ground (arith, get-pop items k i), Distinct-pop items k d)
  ]

  pub pop_absent :
      (items : Dict A) (k : String) → Dict.get items k ≡ none → Dict.pop items k ≡ items
  unfolding Dict.get Dict.pop
  pop_absent [] k h = refl
  pop_absent ((i, w) ∷ items) k h = ground (arith, pop_absent items k)

  -- What `put` leaves, moved to the end, is what was there moved to the end.
  pub pop-put :
      (items : Dict A) (k : String) (v : A) → Dict.pop (Dict.put items k v) k ≡ Dict.pop items k
  unfolding Dict.put Dict.pop
  pop-put [] k v = ground (arith, eq_refl k)
  pop-put ((i, w) ∷ items) k v = ground (arith, pop-put items k v)
