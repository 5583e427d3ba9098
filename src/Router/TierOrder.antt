-- ===== src/Router/TierOrder.antt =====
-- The order of tiers in `candidates` of backend/services/auto_router.py.
use mister_pilot_proxy.Prelude.{
  ℕ, zero, suc, ◌+◌, ◌-◌, ◌*◌, ◌≤◌, ◌<◌, ◌≡◌, refl, inl, inr, Bool, false, Bool-cases, List, [],
  ◌∷◌, ◌++◌, arith, leb, ltb, eqb, length, if◌then◌else◌, ◌&&◌, ◌||◌,
}
use mister_pilot_proxy.Router.{Tier, order_from, tier_order}

-- `j in js`
abbrev pub has : List ℕ → ℕ → Bool
has [] j = false
has (i ∷ is) j = eqb i j || has is j

-- How late a tier is tried: by its distance, and a tier above before the one below.
abbrev pub rank : ℕ → ℕ → ℕ
rank index j = if ltb index j then 2 * (j - index) - 1 else 2 * (index - j)

-- The ranks of the list start at `k` or later, and rise strictly.
abbrev pub Rising : ℕ → ℕ → List ℕ → Type 0
Rising index k [] = Unit
Rising index k (j ∷ js) = (k ≤ rank index j) × Rising index (rank index j + 1) js

Rising-weaken : (index k k' : ℕ) (js : List ℕ) → k' ≤ k → Rising index k js → Rising index k' js
Rising-weaken index k k' [] h r = tt
Rising-weaken index k k' (j ∷ js) h (x, rest) = (omega arith, rest)

has-append : (is js : List ℕ) (j : ℕ) → has (is ++ js) j ≡ (has is j || has js j)
has-append [] js j = refl
has-append (i ∷ is) js j = ground (arith, has-append is js j)

has-optional : (b : Bool) (i j : ℕ) → has (if b then i ∷ [] else []) j ≡ (b && eqb i j)
has-optional b i j = ground arith

module _ (index cap : ℕ) where
  order_from-Rising :
      (rounds step : ℕ) → 1 ≤ step → Rising index (2 * step - 1) (order_from rounds step index cap)
  unfolding order_from
  order_from-Rising zero step h = tt
  order_from-Rising (suc rounds) step h =
      let later = order_from-Rising rounds (suc step) (omega arith) in
      elim (Bool-cases (leb (index + step) cap)) [
        | inl up ↦ elim (Bool-cases (leb step index && leb (index - step) cap)) [
          | inl down ↦
              rw (up, down)
                (ground arith, (ground arith, Rising-weaken index _ _ _ (ground arith) later))
          | inr no_down ↦
              rw (up, no_down) (ground arith, Rising-weaken index _ _ _ (ground arith) later)
        ]
        | inr no_up ↦ elim (Bool-cases (leb step index && leb (index - step) cap)) [
          | inl down ↦
              rw (no_up, down) (ground arith, Rising-weaken index _ _ _ (ground arith) later)
          | inr no_down ↦ rw (no_up, no_down) (Rising-weaken index _ _ _ (omega arith) later)
        ]
      ]

  -- the tiers at distance `step` and more, up to `step + rounds`, and not above the cap
  abbrev in_rounds : ℕ → ℕ → ℕ → Bool
  in_rounds rounds step j =
      leb j cap
      && (leb (step + index) j && ltb j (step + rounds + index)
          || leb (step + j) index && ltb index (step + rounds + j))

  has-order_from :
      (rounds step j : ℕ) → has (order_from rounds step index cap) j ≡ in_rounds rounds step j
  unfolding order_from
  has-order_from zero step j = ground arith
  has-order_from (suc rounds) step j =
      rw (has-append, has-optional, has-append, has-optional, has-order_from rounds (suc step) j)
        (ground arith)

-- The failover order visits exactly the tiers up to the cap, each once, nearest first, and a tier
-- above before the one as far below.
pub tier_order_lem :
    (ts : List Tier) (index cap : ℕ)
    → index ≤ cap
    → cap < length ts
    → Rising index 0 (tier_order ts index cap)
      × ((j : ℕ) → has (tier_order ts index cap) j ≡ leb j cap)
unfolding tier_order
tier_order_lem ts index cap h k = (
  (
    omega arith,
    Rising-weaken index (2 * 1 - 1) _ _ (ground arith)
        (order_from-Rising index cap (length ts - 1) 1 (omega arith)),
  ),
  λ j. ground (arith, has-order_from index cap (length ts - 1) 1 j),
)
