-- ===== src/Router/Candidates.antt =====
-- `candidates` of backend/services/auto_router.py: the failover order.
use mister_pilot_proxy.Prelude.{
  ℕ, zero, suc, ◌+◌, ◌-◌, ◌≤◌, ◌<◌, min, ◌≡◌, refl, ap, ◌∙◌, inl, inr, Bool, true, false, not,
  Bool-cases, String, List, [], ◌∷◌, ◌++◌, Option, some, none, arith, length, get_elem?,
  Option-cases, eq_iff, eq_refl, ◌==◌, ◌&&◌, ◌||◌, contains,
}
use mister_pilot_proxy.Router.{
  Tier, AutoRouter, order_from, tier_order, add_model, add_models, add_tiers, candidates, models_at,
  above_cap, cap_index, tier_index, tier_index_from, index_of_cap, without,
}

contains-append :
    (xs ys : List String) (m : String) → contains (xs ++ ys) m ≡ (contains xs m || contains ys m)
contains-append [] ys m = refl
contains-append (x ∷ xs) ys m = ground (arith, contains-append xs ys m)

-- No text stands twice in the list.
abbrev pub distinct : List String → Bool
distinct [] = true
distinct (x ∷ xs) = not (contains xs x) && distinct xs

distinct-append_one :
    (xs : List String) (m : String)
    → distinct xs ≡ true
    → contains xs m ≡ false
    → distinct (xs ++ m ∷ []) ≡ true
distinct-append_one [] m d h = refl
distinct-append_one (x ∷ xs) m d h =
    ground (arith, distinct-append_one xs m, contains-append xs (m ∷ []) x, eq_iff x m, eq_iff m x)

-- Some tier of the order lists the model.
abbrev listed : List Tier → List ℕ → String → Bool
listed ts [] m = false
listed ts (j ∷ js) m = contains (models_at ts j) m || listed ts js m

module _ (ts : List Tier) (cap : ℕ) where
  distinct-add_models :
      (seen ms : List String) → distinct seen ≡ true → distinct (add_models ts cap seen ms) ≡ true
  unfolding add_models
  distinct-add_models seen [] d = d
  distinct-add_models seen (x ∷ ms) d =
      distinct-add_models (add_model ts cap seen x) ms
        (ground (arith, distinct-append_one seen x d))

  distinct-add_tiers :
      (seen : List String) (js : List ℕ)
      → distinct seen ≡ true
      → distinct (add_tiers ts cap seen js) ≡ true
  unfolding add_tiers
  distinct-add_tiers seen [] d = d
  distinct-add_tiers seen (j ∷ js) d =
      distinct-add_tiers (add_models ts cap seen (models_at ts j)) js
        (distinct-add_models seen (models_at ts j) d)

  -- What is first stays first.
  add_models_first :
      (x : String) (seen ms : List String)
      → (rest : List String) × (add_models ts cap (x ∷ seen) ms ≡ x ∷ rest)
  unfolding add_models
  add_models_first x seen [] = (seen, refl)
  add_models_first x seen (m ∷ ms) =
      elim (Bool-cases (not (contains (x ∷ seen) m) && not (above_cap ts cap m))) [
        | inl new ↦ rw new (add_models_first x (seen ++ m ∷ []) ms)
        | inr old ↦ rw old (add_models_first x seen ms)
      ]

  add_tiers_first :
      (x : String) (seen : List String) (js : List ℕ)
      → (rest : List String) × (add_tiers ts cap (x ∷ seen) js ≡ x ∷ rest)
  unfolding add_tiers
  add_tiers_first x seen [] = (seen, refl)
  add_tiers_first x seen (j ∷ js) =
      let (rest, e) = add_models_first x seen (models_at ts j) in rw e (add_tiers_first x rest js)

tier_index_from-lt :
    (i : ℕ) (m : String) (ts : List Tier) (k : ℕ)
    → tier_index_from i m ts ≡ some k
    → k < i + length ts
unfolding tier_index_from
tier_index_from-lt i m [] k h = cc
tier_index_from-lt i m (t ∷ ts) k h = ground (arith, tier_index_from-lt (suc i) m ts k)

-- The cap is the place of a tier.
pub cap_index-lt :
    (ts : List Tier) (max_model : Option String)
    → 0 < length ts
    → cap_index ts max_model < length ts
unfolding cap_index tier_index
cap_index-lt ts none h = omega arith
cap_index-lt ts (some m) h = elim (Option-cases (index_of_cap ts (some m))) [
  | inl uncapped ↦ rw (uncapped, cap_index) (omega arith)
  | inr (k, capped) ↦ rw (capped, cap_index) (ground (arith, tier_index_from-lt 0 m ts k))
]

-- The first tier with a model is no later than any tier with it.
tier_index_from-le :
    (i : ℕ) (m : String) (ts : List Tier) (j : ℕ) (t : Tier)
    → get_elem? ts j ≡ some t
    → t.model ≡ m
    → (k : ℕ) × (tier_index_from i m ts ≡ some k) × (k ≤ i + j)
unfolding tier_index_from
tier_index_from-le i m [] j t at e = cc
tier_index_from-le i m (u ∷ us) zero t at e = (i, ground (arith, eq_iff u.model m), omega arith)
tier_index_from-le i m (u ∷ us) (suc j) t at e = elim (Bool-cases (u.model == m)) [
  | inl here ↦ (i, rw here, omega arith)
  | inr later ↦
      let (k, found, fits) = tier_index_from-le (suc i) m us j t at e in
      (k, rw later found, omega arith)
]

pub above_cap-model :
    (ts : List Tier) (cap j : ℕ) (t : Tier)
    → get_elem? ts j ≡ some t
    → j ≤ cap
    → above_cap ts cap t.model ≡ false
unfolding above_cap tier_index
above_cap-model ts cap j t at h =
    let (k, found, fits) = tier_index_from-le 0 t.model ts j t at refl in
    rw (found, above_cap) (ground arith)

module _ (router : AutoRouter) (index : ℕ) (max_model : Option String)
    (some_tier : 0 < length router.tiers) where
  abbrev tiers : List Tier
  tiers = router.tiers

  abbrev top : ℕ
  top = cap_index tiers max_model

  -- The models listed before the fallback model is put at the end.
  abbrev seen : List String
  seen = add_tiers tiers top [] (tier_order tiers (min index top) top)

  distinct-seen : distinct seen ≡ true
  distinct-seen = distinct-add_tiers tiers top [] (tier_order tiers (min index top) top) refl

  -- No candidate is tried twice.
  pub candidates_distinct : distinct (candidates router index max_model) ≡ true
  unfolding candidates
  candidates_distinct = elim (Bool-cases (contains seen router.fallback_model)) [
    | inl old ↦ rw old distinct-seen
    | inr new ↦ rw new (distinct-append_one seen router.fallback_model distinct-seen new)
  ]

  seen_first :
      (t : Tier)
      → get_elem? router.tiers index ≡ some t
      → index ≤ cap_index router.tiers max_model
      → (rest : List String) × (seen ≡ t.model ∷ rest)
  unfolding tier_order add_tiers add_models
  seen_first t at fits =
      let e : min index top ≡ index = omega arith in
      let free = above_cap-model tiers top index t at fits in
      let (early, e₁) = add_models_first tiers top t.model [] t.alternates in
      let (rest, e₂) =
        add_tiers_first tiers top t.model early (order_from (length tiers - 1) 1 index top) in
      let models : models_at tiers index ≡ t.model ∷ t.alternates = rw (at, models_at) in
      let own : add_models tiers top [] (t.model ∷ t.alternates) ≡ t.model ∷ early = rw free e₁ in
      let js = order_from (length tiers - 1) 1 index top in
      (
        rest,
        rw e (
            ap (λ ms. add_tiers tiers top (add_models tiers top [] ms) js) models
            ∙ ap (λ ms. add_tiers tiers top ms js) own
            ∙ e₂),
      )

  -- A tier up to the cap is served by its own model first.
  pub candidates_first :
      (t : Tier)
      → get_elem? router.tiers index ≡ some t
      → index ≤ cap_index router.tiers max_model
      → (rest : List String) × (candidates router index max_model ≡ t.model ∷ rest)
  unfolding candidates
  candidates_first t at fits =
      let (rest, e) = seen_first t at fits in
      elim (Bool-cases (contains seen router.fallback_model)) [
        | inl old ↦ (rest, rw old e)
        | inr new ↦ (rest ++ router.fallback_model ∷ [], rw (new, e))
      ]

without_absent : (m : String) (xs : List String) → contains xs m ≡ false → without m xs ≡ xs
without_absent m [] h = refl
without_absent m (x ∷ xs) h = ground (arith, without_absent m xs)

-- A list of distinct texts, less its first.
pub without_first :
    (m : String) (rest : List String) → distinct (m ∷ rest) ≡ true → without m (m ∷ rest) ≡ rest
without_first m rest h = ground (arith, eq_refl m, without_absent m rest)

pub contains-without : (m : String) (xs : List String) → contains (without m xs) m ≡ false
contains-without m [] = refl
contains-without m (x ∷ xs) = ground (arith, contains-without m xs)
