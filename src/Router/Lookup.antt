-- ===== src/Router/Lookup.antt =====
-- `tier_for_score`, `boundary_distance` and `effort_for` of backend/services/auto_router.py, on
-- tiers that `_check_tiers` accepts.
use mister_pilot_proxy.Prelude.{
  ℕ, zero, suc, ◌+◌, ◌-◌, ◌*◌, ◌/◌, ◌≤◌, ◌<◌, min, ◌≡◌, refl, sym, ap, ◌∙◌, ◌≢◌, ◌⊎◌, inl, inr,
  true, false, Bool-cases, String, List, [], ◌∷◌, some, arith, ok, ltb, eqb, length, get_elem?,
  if◌then◌else◌, eq_refl, ◌&&◌,
}
use mister_pilot_proxy.Router.{
  Tier, min_score, max_score, tier_for_score, position_of, boundary_distance, effort_for, holds,
  tier_eq, list_eq,
}
use mister_pilot_proxy.Router.Covering.{CoversFrom}

-- How many tiers end below the score: the place of the score's tier, described without a search.
abbrev pub tier_number : List Tier → ℕ → ℕ
tier_number [] score = 0
tier_number (t ∷ ts) score = if ltb t.high score then suc (tier_number ts score) else 0

list_eq_refl : (xs : List String) → list_eq xs xs ≡ true
list_eq_refl [] = refl
list_eq_refl (x ∷ xs) = ground (arith, eq_refl x, list_eq_refl xs)

tier_eq_refl : (t : Tier) → tier_eq t t ≡ true
tier_eq_refl t = ground (arith, eq_refl t.model, list_eq_refl t.alternates, list_eq_refl t.efforts)

pub tier_number_mono : (ts : List Tier) (s s' : ℕ) → s ≤ s' → tier_number ts s ≤ tier_number ts s'
tier_number_mono [] s s' h = omega arith
tier_number_mono (t ∷ ts) s s' h = ground (arith, tier_number_mono ts s s' h)

-- The tier that the search finds, where it stands, and that it holds the score.
pub record Found (ts : List Tier) (s : ℕ) : Type 0 where
  pub tier : Tier
  pub search : tier_for_score ts s ≡ ok tier
  pub stands : get_elem? ts (tier_number ts s) ≡ some tier
  pub low : tier.low ≤ s
  pub high : s ≤ tier.high
  pub position : position_of tier ts ≡ tier_number ts s

pub found : (e : ℕ) (ts : List Tier) (s : ℕ) → CoversFrom e ts → e ≤ s → s ≤ max_score → Found ts s
unfolding tier_for_score position_of
found e [] s c lo hi = absurd (omega arith)
found e (t ∷ ts) s (low, fits, _, _, rest) lo hi = elim (Bool-cases (ltb t.high s)) [
  | inl past ↦
      let f = found (t.high + 1) ts s rest (ground arith) hi in
      record {
        tier = f.tier;
        search = ground (arith, f.search);
        stands = rw past f.stands;
        low = f.low;
        high = f.high;
        position = ground (arith, f.position, f.high);
      }
  | inr here ↦ record {
    tier = t;
    search = ground arith;
    stands = rw here;
    low = ground arith;
    high = ground arith;
    position = rw (here, tier_eq_refl t);
  }
]

pub tier_number-lt :
    (e : ℕ) (ts : List Tier) (s : ℕ)
    → CoversFrom e ts
    → e ≤ s
    → s ≤ max_score
    → tier_number ts s < length ts
tier_number-lt e [] s c lo hi = absurd (omega arith)
tier_number-lt e (t ∷ ts) s (low, fits, _, _, rest) lo hi =
    ground (arith, tier_number-lt (t.high + 1) ts s rest)

-- Only one tier of a covering table holds a score.
pub holds_unique :
    (e : ℕ) (ts : List Tier) (s j : ℕ) (u : Tier)
    → CoversFrom e ts
    → get_elem? ts j ≡ some u
    → holds u s ≡ true
    → j ≡ tier_number ts s
holds_unique e [] s j u c at h = cc
holds_unique e (t ∷ ts) s zero u c at h = ground arith
holds_unique e (t ∷ ts) s (suc j) u (low, fits, _, _, rest) at h =
    ground (arith, holds_unique (t.high + 1) ts s j u rest at h, later (t.high + 1) ts j u rest at)
  where
    later :
        (e : ℕ) (ts : List Tier) (j : ℕ) (u : Tier)
        → CoversFrom e ts
        → get_elem? ts j ≡ some u
        → e ≤ u.low
    later e [] j u c at = cc
    later e (t ∷ ts) zero u c at = ground arith
    later e (t ∷ ts) (suc j) u (low, fits, _, _, rest) at =
        omega (arith, later (t.high + 1) ts j u rest at)

-- `boundary_distance` is the distance to the nearest score of another tier.
module _ (ts : List Tier) (s d : ℕ) (c : CoversFrom min_score ts) (lo : min_score ≤ s)
    (hi : s ≤ max_score) where
  same_tier :
      (s' : ℕ) (t : Tier)
      → get_elem? ts (tier_number ts s) ≡ some t
      → t.low ≤ s'
      → s' ≤ t.high
      → tier_number ts s' ≡ tier_number ts s
  same_tier s' t at low high =
      sym (holds_unique min_score ts s' (tier_number ts s) t c at (ground arith))

  -- In a covering table the boundary distance of a score exists; every score of the scale that is
  -- nearer than it has the same tier.
  pub boundary_distance_near :
      boundary_distance ts s ≡ ok d
      → (s' : ℕ) → min_score ≤ s'
      → s' ≤ max_score
      → s < s' + d
      → s' < s + d
      → tier_number ts s' ≡ tier_number ts s
  unfolding boundary_distance
  boundary_distance_near h s' lo' hi' near near' =
      let f = found min_score ts s c lo hi in
      same_tier s' f.tier f.stands (ground (arith, f.search, f.low, f.high))
        (ground (arith, f.search, f.low, f.high))

  other_tier :
      (s' : ℕ) (t : Tier)
      → get_elem? ts (tier_number ts s) ≡ some t
      → min_score ≤ s'
      → s' ≤ max_score
      → holds t s' ≡ false
      → tier_number ts s' ≢ tier_number ts s
  other_tier s' t at lo' hi' out same =
      let g = found min_score ts s' c lo' hi' in
      let e : some t ≡ some g.tier = sym at ∙ ap (get_elem? ts) (sym same) ∙ g.stands in
      ground (arith, e, g.low, g.high)

  -- A boundary distance below 20 is reached: at exactly that distance, above or below, a score of
  -- the scale has another tier.
  pub boundary_distance_reached :
      boundary_distance ts s ≡ ok d
      → d < max_score
      → (s' : ℕ) × (min_score ≤ s')
        × (s' ≤ max_score)
        × ((s' + d ≡ s) ⊎ (s' ≡ s + d))
        × (tier_number ts s' ≢ tier_number ts s)
  unfolding boundary_distance
  boundary_distance_reached h small =
      let f = found min_score ts s c lo hi in
      let t = f.tier in
      elim (Bool-cases (ltb min_score t.low && eqb d (s - t.low + 1))) [
        | inl down ↦ (
          s - d,
          ground (arith, f.low),
          ground arith,
          inl (ground (arith, f.low)),
          other_tier (s - d) t f.stands (ground (arith, f.low)) (ground arith)
              (ground (arith, f.low)),
        )
        | inr up ↦ (
          s + d,
          ground arith,
          ground (arith, f.search, f.low, f.high),
          inr refl,
          other_tier (s + d) t f.stands (ground arith) (ground (arith, f.search, f.low, f.high))
              (ground (arith, f.search, f.low, f.high)),
        )
      ]

effort_index-lt : (x n span : ℕ) → x < span → 0 < n → x * n / span < n
effort_index-lt x n span h pos = grind arith

get_elem?-total {ℓ} :
    {A : Type ℓ} (xs : List A) (i : ℕ) → i < length xs → (a : A) × (get_elem? xs i ≡ some a)
get_elem?-total [] i h = absurd (omega arith)
get_elem?-total (x ∷ xs) zero h = (x, refl)
get_elem?-total (x ∷ xs) (suc i) h = get_elem?-total xs i (omega arith)

-- In a tier with effort levels, a score of the tier runs at the level whose share of the tier's
-- range the score falls in; the list is never indexed past its end.
pub effort_for_lem :
    (t : Tier) (s : ℕ)
    → t.low ≤ s
    → s ≤ t.high
    → 0 < length t.efforts
    → (e : String) × (effort_for t s ≡ some e)
      × (get_elem? t.efforts ((s - t.low) * length t.efforts / (t.high + 1 - t.low)) ≡ some e)
unfolding effort_for
effort_for_lem t s lo hi some_effort =
    let n = length t.efforts in
    let i = (s - t.low) * n / (t.high + 1 - t.low) in
    let fits : i < n =
      effort_index-lt (s - t.low) n (t.high + 1 - t.low) (omega arith) some_effort in
    let (e, at) = get_elem?-total t.efforts i fits in
    let same : min i (n - 1) ≡ i = omega arith in
    let test : eqb n 0 ≡ false = ground arith in (e, rw (test, same) at, at)
