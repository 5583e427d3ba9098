-- ===== src/Router/Select.antt =====
-- `select_model` of backend/services/auto_router.py, on a router that its constructor built.
use mister_pilot_proxy.Prelude.{
  ℕ, zero, suc, ◌+◌, ◌≤◌, ◌<◌, min, ◌≡◌, refl, ◌≢◌, inl, inr, true, false, Bool-cases, String, List,
  [], ◌∷◌, Option, some, none, arith, ok, ltb, length, get_elem?, Result-cases, eq_iff, contains,
}
use mister_pilot_proxy.Prelude.Int.{ℤ, pos, negsuc, ◌+ℤ◌, ◌≤ℤ◌}
use mister_pilot_proxy.Router.{
  Tier, AutoRouter, RouteDecision, ScoreValue, int_value, integral_float, min_score, max_score,
  init, check_tiers, validate_score, shifted, effective_score, cap_index, high_at, select_model,
  select_scored, select_fallback, candidates, effort_for, without, tier_range, notes_of,
}
use mister_pilot_proxy.Router.Covering.{CoversFrom}
use mister_pilot_proxy.Router.Order.{check_tiers_iff}
use mister_pilot_proxy.Router.Lookup.{tier_number, tier_number_mono, found}
use mister_pilot_proxy.Router.Candidates.{
  cap_index-lt, candidates_first, candidates_distinct, without_first, contains-without,
}

-- What the constructor guarantees.
pub record IsValid (router : AutoRouter) : Type 0 where
  pub named : router.fallback_model ≢ ""
  pub covers : CoversFrom min_score router.tiers

-- A router that the constructor returns has a fallback model and a table that covers the scale.
pub init-IsValid :
    (fallback_model : String) (tiers : List Tier) (router : AutoRouter)
    → init fallback_model tiers ≡ ok router
    → IsValid router
unfolding init
init-IsValid fallback_model tiers router h = elim (Result-cases (check_tiers tiers)) [
  | inl (ordered, accepted) ↦
      let covers = ((check_tiers_iff tiers ordered).0 accepted).1 in
      let built : router.tiers ≡ ordered = ground (arith, accepted) in
      record {
        named = ground (arith, accepted, eq_iff fallback_model "");
        covers = rw built covers;
      }
  | inr (e, refused) ↦ absurd (ground (arith, refused))
]

-- A score that is used is from 1 to 20.
pub validate_score_range :
    (v : ScoreValue) (s : ℕ) → validate_score v ≡ some s → (min_score ≤ s) × (s ≤ max_score)
unfolding validate_score
validate_score_range (int_value (pos z)) s h = ground arith
validate_score_range (int_value (negsuc z)) s h = ground arith
validate_score_range (integral_float (pos z)) s h = ground arith
validate_score_range (integral_float (negsuc z)) s h = ground arith
validate_score_range _ s h = cc

shifted_range : (s : ℕ) (z : ℤ) → (min_score ≤ shifted s z) × (shifted s z ≤ max_score)
unfolding shifted ◌+ℤ◌
shifted_range s z = ground arith

shifted_mono : (s s' : ℕ) (z z' : ℤ) → s ≤ s' → z ≤ℤ z' → shifted s z ≤ shifted s' z'
unfolding shifted ◌+ℤ◌
shifted_mono s s' (pos z) (pos z') h k = ground arith
shifted_mono s s' (pos z) (negsuc z') h k = ground arith
shifted_mono s s' (negsuc z) (pos z') h k = ground arith
shifted_mono s s' (negsuc z) (negsuc z') h k = ground arith

module _ (e : ℕ) where
  nonempty : (ts : List Tier) → CoversFrom e ts → e ≤ max_score → 0 < length ts
  nonempty [] c h = absurd (omega arith)
  nonempty (t ∷ ts) c h = omega arith

-- The last score of a tier in a covering table.
high_at_lem :
    (e : ℕ) (ts : List Tier) (k : ℕ)
    → CoversFrom e ts
    → k < length ts
    → (e ≤ high_at ts k) × (high_at ts k ≤ max_score) × (tier_number ts (high_at ts k) ≡ k)
high_at_lem e [] k c h = absurd (omega arith)
high_at_lem e (t ∷ ts) zero (low, fits, a, b, rest) h =
    (omega arith, omega (arith, last (t.high + 1) ts rest), ground arith)
  where
    last : (e : ℕ) (ts : List Tier) → CoversFrom e ts → e ≤ max_score + 1
    last e [] c = omega arith
    last e (t ∷ ts) (low, fits, _, _, rest) = omega (arith, last (t.high + 1) ts rest)
high_at_lem e (t ∷ ts) (suc k) (low, fits, a, b, rest) h =
    let (lo, hi, at) = high_at_lem (t.high + 1) ts k rest (omega arith) in
    (omega arith, hi, ground arith)

-- The place of the tier that serves a score: that of the shifted score, or the cap's if it is lower.
abbrev pub place : List Tier → ℕ → ℤ → Option String → ℕ
place tiers score shift max_model =
    min (tier_number tiers (shifted score shift)) (cap_index tiers max_model)

module _ (tiers : List Tier) (covers : CoversFrom min_score tiers) (score : ℕ) (shift : ℤ)
    (max_model : Option String) where
  abbrev eff : ℕ
  eff = effective_score tiers score shift max_model

  effective_score_lem :
      (min_score ≤ eff)
      × (eff ≤ max_score)
      × (tier_number tiers eff ≡ place tiers score shift max_model)
  unfolding effective_score
  effective_score_lem =
      let top = cap_index tiers max_model in
      let (lo, hi) = shifted_range score shift in
      let (lo', hi', at) =
        high_at_lem min_score tiers top covers
          (cap_index-lt tiers max_model (nonempty min_score tiers covers (omega arith))) in
      let low_mono = tier_number_mono tiers (shifted score shift) (high_at tiers top) in
      let high_mono = tier_number_mono tiers (high_at tiers top) (shifted score shift) in
      elim (Bool-cases (ltb (high_at tiers top) (shifted score shift))) [
        | inl capped ↦ rw capped (lo', hi', ground (arith, high_mono, at))
        | inr free ↦ rw free (lo, hi, ground (arith, low_mono, at))
      ]

-- What a decision for a usable score says.
pub record Routed (router : AutoRouter) (score : ℕ) (shift : ℤ) (max_model : Option String)
    (d : RouteDecision) : Type 0 where
  pub tier : Tier
  pub stands : get_elem? router.tiers (place router.tiers score shift max_model) ≡ some tier
  pub low : tier.low ≤ effective_score router.tiers score shift max_model
  pub high : effective_score router.tiers score shift max_model ≤ tier.high
  pub model : d.model ≡ tier.model
  pub scored : d.score ≡ some score
  pub usable : d.fallback ≡ false
  pub effort : d.effort ≡ effort_for tier (effective_score router.tiers score shift max_model)
  pub failover :
      d.model ∷ d.candidates
      ≡ candidates router (place router.tiers score shift max_model) max_model

module _ (router : AutoRouter) (valid : IsValid router) (value : ScoreValue) (shift : ℤ)
    (max_model : Option String) where
  scored :
      (score : ℕ)
      → (d : RouteDecision) × (select_scored router score shift max_model ≡ ok d)
        × Routed router score shift max_model d
  unfolding select_scored
  scored score =
      let ts = router.tiers in
      let e = effective_score ts score shift max_model in
      let (lo, hi, at) = effective_score_lem ts valid.covers score shift max_model in
      let f = found min_score ts e valid.covers lo hi in
      let pl = place ts score shift max_model in
      let stands : get_elem? ts pl ≡ some f.tier = rw (← at) f.stands in
      let some_tier = nonempty min_score ts valid.covers (omega arith) in
      let (rest, first) =
        candidates_first router pl max_model some_tier f.tier stands (omega arith) in
      let apart = candidates_distinct router pl max_model some_tier in
      let others : without f.tier.model (candidates router pl max_model) ≡ rest =
        rw first (without_first f.tier.model rest (rw first at apart)) in
      (
        record {
          model = f.tier.model;
          score = some score;
          fallback = false;
          reason = tier_range f.tier.low f.tier.high (notes_of ts score shift max_model);
          effort = effort_for f.tier e;
          candidates = without f.tier.model (candidates router pl max_model);
        },
        rw (f.search, f.position, at),
        record {
          tier = f.tier;
          stands = stands;
          low = f.low;
          high = f.high;
          model = refl;
          scored = refl;
          usable = refl;
          effort = refl;
          failover = cc (others, first);
        },
      )

  -- With a usable score the router never raises: it serves the tier of the shifted, clamped score,
  -- or the cap's tier where that is lower, at that tier's effort for the score, and fails over along
  -- the candidates of that tier.
  pub select_model_scored :
      (score : ℕ)
      → validate_score value ≡ some score
      → (d : RouteDecision) × (select_model router value shift max_model ≡ ok d)
        × Routed router score shift max_model d
  unfolding select_model
  select_model_scored score h = rw (h, select_model) (scored score)

  -- A value that is no score routes to the fallback model, marked as a fallback, and never raises.
  pub select_model_invalid :
      validate_score value ≡ none
      → (d : RouteDecision) × (select_model router value shift max_model ≡ ok d)
        × (d.model ≡ router.fallback_model)
        × (d.score ≡ none)
        × (d.fallback ≡ true)
        × (d.effort ≡ none)
        × (contains d.candidates router.fallback_model ≡ false)
  unfolding select_model select_fallback
  select_model_invalid h = (
    select_fallback router max_model,
    rw (h, select_model),
    refl,
    refl,
    refl,
    refl,
    contains-without router.fallback_model _,
  )

-- A harder task, or a mode that shifts further up, is never served by a lower tier under one cap.
pub place_mono :
    (tiers : List Tier) (score score' : ℕ) (shift shift' : ℤ) (max_model : Option String)
    → score ≤ score'
    → shift ≤ℤ shift'
    → place tiers score shift max_model ≤ place tiers score' shift' max_model
place_mono tiers score score' shift shift' max_model h k = omega (
  arith,
  tier_number_mono tiers (shifted score shift) (shifted score' shift')
      (shifted_mono score score' shift shift' h k),
)
