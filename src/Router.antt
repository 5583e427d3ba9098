-- ===== src/Router.antt =====
-- backend/services/auto_router.py: from a complexity score to a model. The bounds of a tier are
-- natural numbers: `_check_tiers` refuses a negative one, so a router never holds it. The reason
-- text is a value that says what the text says.
pub mod Covering
pub mod Order
pub mod Lookup
pub mod TierOrder
pub mod Candidates
pub mod Select
use mister_pilot_proxy.Prelude.{
  ℕ, zero, suc, ◌+◌, ◌-◌, ◌*◌, ◌/◌, min, max, String, Bool, true, false, not, ◌&&◌, ◌||◌, Option,
  none, some, List, [], ◌∷◌, ◌++◌, ltb, leb, eqb, ◌==◌, if◌then◌else◌, contains, length, get_elem?,
  Result, ok, raise, ◌>>=◌,
}
use mister_pilot_proxy.Prelude.Int.{ℤ, pos, ◌+ℤ◌, ltb_ℤ, pos_part}

abbrev pub min_score : ℕ
min_score = 1

abbrev pub max_score : ℕ
max_score = 20

abbrev pub effort_order : List String
effort_order = "low" ∷ "medium" ∷ "high" ∷ "xhigh" ∷ "max" ∷ []

pub record Tier : Type 0 where
  pub low : ℕ
  pub high : ℕ
  pub model : String
  pub alternates : List String
  pub efforts : List String

-- The subtraction that stops at 0 stands for `max(0, …)`: a score below the tier has index 0.
unfoldable pub effort_for : Tier → ℕ → Option String
effort_for tier score =
    if eqb (length tier.efforts) 0
    then none
    else (let span = tier.high + 1 - tier.low in
        let i = (score - tier.low) * length tier.efforts / span in
        get_elem? tier.efforts (min i (length tier.efforts - 1)))

abbrev pub default_tiers : List Tier
default_tiers =
    record {
      low = 1;
      high = 3;
      model = "deepseek-flash";
      alternates = "gpt-5.4-nano" ∷ "deepseek-v4-pro" ∷ [];
      efforts = [];
    }
    ∷ record {
      low = 4;
      high = 6;
      model = "deepseek-v4-pro";
      alternates = "gpt-5.4-mini" ∷ [];
      efforts = [];
    }
    ∷ record {
      low = 7;
      high = 10;
      model = "gpt-5.4-mini";
      alternates = "deepseek-v4-pro" ∷ "claude-haiku-4-5" ∷ [];
      efforts = "low" ∷ "medium" ∷ [];
    }
    ∷ record {
      low = 11;
      high = 14;
      model = "claude-sonnet-5";
      alternates = "gpt-5.4" ∷ "gpt-5.5" ∷ [];
      efforts = "medium" ∷ "high" ∷ [];
    }
    ∷ record {
      low = 15;
      high = 17;
      model = "gpt-5.5";
      alternates = "claude-sonnet-5" ∷ "claude-opus-5-5" ∷ [];
      efforts = "medium" ∷ "high" ∷ [];
    }
    ∷ record {
      low = 18;
      high = 20;
      model = "claude-opus-5-5";
      alternates = "gpt-5.5" ∷ "claude-sonnet-5" ∷ [];
      efforts = "high" ∷ "high" ∷ "xhigh" ∷ [];
    }
    ∷ []

-- What the reason text of a decision says.
pub data Note : Type 0 where
  mode_shift : ℤ → Note
  capped_at : String → Note

pub data Reason : Type 0 where
  invalid_score pinned_to_turn : Reason
  tier_range : ℕ → ℕ → List Note → Reason
  raised_by_floor : Reason → String → Reason
  kept_warm : Reason → String → ℕ → Reason

pub record RouteDecision : Type 0 where
  pub model : String
  pub score : Option ℕ
  pub fallback : Bool
  pub reason : Reason
  pub effort : Option String
  pub candidates : List String

pub data ValueError : Type 0 where
  bad_tier : Tier → ValueError
  unknown_effort : ℕ → ℕ → ValueError
  tiers_stop : ℕ → ValueError
  no_fallback : ValueError
  no_tier : ℕ → ValueError
  effort_unlisted : String → ValueError

-- `sorted(tiers, key=lambda t: t.low)`, which is stable.
unfoldable pub insert_tier : Tier → List Tier → List Tier
insert_tier tier [] = tier ∷ []
insert_tier tier (u ∷ us) = if leb tier.low u.low then tier ∷ u ∷ us else u ∷ insert_tier tier us

unfoldable pub sort_tiers : List Tier → List Tier
unfolding insert_tier
sort_tiers [] = []
sort_tiers (tier ∷ tiers) = insert_tier tier (sort_tiers tiers)

abbrev pub all_known : List String → Bool
all_known [] = true
all_known (e ∷ es) = contains effort_order e && all_known es

-- The loop of `_check_tiers`, with its test after the loop.
unfoldable pub check_from : ℕ → List Tier → Result ValueError (Unit {0})
check_from expected [] =
    if eqb expected (max_score + 1) then ok tt else raise (tiers_stop (expected - 1))
check_from expected (tier ∷ tiers) =
    if not (eqb tier.low expected) || ltb tier.high tier.low || tier.model == ""
    then raise (bad_tier tier)
    else if not (all_known tier.efforts)
    then raise (unknown_effort tier.low tier.high)
    else check_from (tier.high + 1) tiers

unfoldable pub check_tiers : List Tier → Result ValueError (List Tier)
unfolding check_from sort_tiers
check_tiers tiers = do let ordered = sort_tiers tiers; _ ← check_from min_score ordered; ok ordered

-- The values that reach `validate_score`. A float is told apart by `is_integer`.
pub data ScoreValue : Type 0 where
  none_value : ScoreValue
  bool_value : Bool → ScoreValue
  int_value : ℤ → ScoreValue
  integral_float : ℤ → ScoreValue
  fractional_float other_value : ScoreValue

abbrev pub in_score_range : ℤ → Option ℕ
in_score_range z =
    if not (ltb_ℤ z (pos min_score)) && not (ltb_ℤ (pos max_score) z)
    then some (pos_part z)
    else none

unfoldable pub validate_score : ScoreValue → Option ℕ
validate_score (int_value z) = in_score_range z
validate_score (integral_float z) = in_score_range z
validate_score _ = none

pub record AutoRouter : Type 0 where
  pub fallback_model : String
  pub tiers : List Tier

unfoldable pub init : String → List Tier → Result ValueError AutoRouter
unfolding check_tiers
init fallback_model tiers = if fallback_model == "" then raise no_fallback else do
  ordered ← check_tiers tiers
  ok (record { fallback_model = fallback_model; tiers = ordered })

-- The lookups, over the tiers of a router.
abbrev pub holds : Tier → ℕ → Bool
holds tier score = leb tier.low score && leb score tier.high

unfoldable pub tier_for_score : List Tier → ℕ → Result ValueError Tier
tier_for_score [] score = raise (no_tier score)
tier_for_score (tier ∷ tiers) score =
    if holds tier score then ok tier else tier_for_score tiers score

-- `i` is the counter of `enumerate`.
pub tier_index_from : ℕ → String → List Tier → Option ℕ
tier_index_from i model [] = none
tier_index_from i model (tier ∷ tiers) =
    if tier.model == model then some i else tier_index_from (suc i) model tiers

unfoldable pub tier_index : List Tier → String → Option ℕ
unfolding tier_index_from
tier_index tiers model = tier_index_from 0 model tiers

abbrev pub list_eq : List String → List String → Bool
list_eq [] [] = true
list_eq (x ∷ xs) (y ∷ ys) = x == y && list_eq xs ys
list_eq _ _ = false

-- `==` of the dataclass
abbrev pub tier_eq : Tier → Tier → Bool
tier_eq t u =
    eqb t.low u.low
    && eqb t.high u.high
    && t.model == u.model
    && list_eq t.alternates u.alternates
    && list_eq t.efforts u.efforts

-- `self.tiers.index(tier)`, past the end for a tier that is not there.
unfoldable pub position_of : Tier → List Tier → ℕ
position_of tier [] = 0
position_of tier (u ∷ us) = if tier_eq u tier then 0 else suc (position_of tier us)

unfoldable pub boundary_distance : List Tier → ℕ → Result ValueError ℕ
boundary_distance tiers score = do
  tier ← tier_for_score tiers score
  let below = if ltb min_score tier.low then score - tier.low + 1 else max_score
  let above = if ltb tier.high max_score then tier.high - score + 1 else max_score
  ok (min below above)

-- `self.tier_index(max_model) if max_model else None`
abbrev pub index_of_cap : List Tier → Option String → Option ℕ
index_of_cap tiers none = none
index_of_cap tiers (some m) = if m == "" then none else tier_index tiers m

unfoldable pub cap_index : List Tier → Option String → ℕ
cap_index tiers max_model = elim (index_of_cap tiers max_model) [
  | none ↦ length tiers - 1
  | some cap ↦ cap
]

-- The loop over `range(step, step + rounds)`: up first, then down.
unfoldable pub order_from : ℕ → ℕ → ℕ → ℕ → List ℕ
order_from zero step index cap = []
order_from (suc rounds) step index cap =
    (if leb (index + step) cap then (index + step) ∷ [] else [])
    ++ ((if leb step index && leb (index - step) cap then (index - step) ∷ [] else [])
        ++ order_from rounds (suc step) index cap)

unfoldable pub tier_order : List Tier → ℕ → ℕ → List ℕ
unfolding order_from
tier_order tiers index cap = index ∷ order_from (length tiers - 1) 1 index cap

abbrev pub models_at : List Tier → ℕ → List String
models_at tiers j = elim (get_elem? tiers j) [
  | none ↦ []
  | some tier ↦ tier.model ∷ tier.alternates
]

-- `(self.tier_index(model) or 0) > cap`
unfoldable pub above_cap : List Tier → ℕ → String → Bool
above_cap tiers cap model = elim (tier_index tiers model) [ none ↦ false | some i ↦ ltb cap i ]

abbrev pub add_model : List Tier → ℕ → List String → String → List String
add_model tiers cap seen m =
    if not (contains seen m) && not (above_cap tiers cap m) then seen ++ m ∷ [] else seen

pub add_models : List Tier → ℕ → List String → List String → List String
add_models tiers cap seen [] = seen
add_models tiers cap seen (m ∷ ms) = add_models tiers cap (add_model tiers cap seen m) ms

pub add_tiers : List Tier → ℕ → List String → List ℕ → List String
unfolding add_models
add_tiers tiers cap seen [] = seen
add_tiers tiers cap seen (j ∷ js) =
    add_tiers tiers cap (add_models tiers cap seen (models_at tiers j)) js

pub candidates : AutoRouter → ℕ → Option String → List String
unfolding add_tiers tier_order
candidates router index max_model =
    let cap = cap_index router.tiers max_model in
    let seen = add_tiers router.tiers cap [] (tier_order router.tiers (min index cap) cap) in
    if contains seen router.fallback_model then seen else seen ++ router.fallback_model ∷ []

abbrev pub without : String → List String → List String
without m [] = []
without m (x ∷ xs) = let rest = without m xs in if x == m then rest else x ∷ rest

-- The score after the mode's shift, clamped to the scale.
unfoldable pub shifted : ℕ → ℤ → ℕ
shifted score shift =
    let moved = pos score +ℤ shift in
    if ltb_ℤ moved (pos min_score)
    then min_score
    else if ltb_ℤ (pos max_score) moved
    then max_score
    else pos_part moved

-- `self.tiers[cap].high` (0 where there is no such tier), and the model there.
abbrev pub high_at : List Tier → ℕ → ℕ
high_at tiers cap = elim (get_elem? tiers cap) [ none ↦ 0 | some tier ↦ tier.high ]

abbrev pub model_at : List Tier → ℕ → String
model_at tiers cap = elim (get_elem? tiers cap) [ none ↦ "" | some tier ↦ tier.model ]

-- The score that the tier is looked up by.
unfoldable pub effective_score : List Tier → ℕ → ℤ → Option String → ℕ
effective_score tiers score shift max_model =
    let high = high_at tiers (cap_index tiers max_model) in
    if ltb high (shifted score shift) then high else shifted score shift

abbrev pub notes_of : List Tier → ℕ → ℤ → Option String → List Note
notes_of tiers score shift max_model =
    let cap = cap_index tiers max_model in
    (if eqb (shifted score shift) score then [] else mode_shift shift ∷ [])
    ++ (if ltb (high_at tiers cap) (shifted score shift)
        then capped_at (model_at tiers cap) ∷ []
        else [])

-- The branch for a score that cannot be used.
unfoldable pub select_fallback : AutoRouter → Option String → RouteDecision
select_fallback router max_model = record {
  model = router.fallback_model;
  score = none;
  fallback = true;
  reason = invalid_score;
  effort = none;
  candidates = without router.fallback_model (elim (tier_index router.tiers router.fallback_model) [
    | none ↦ router.fallback_model ∷ []
    | some index ↦ candidates router index max_model
  ]);
}

unfoldable pub select_scored : AutoRouter → ℕ → ℤ → Option String → Result ValueError RouteDecision
select_scored router score shift max_model = do
  let effective = effective_score router.tiers score shift max_model
  tier ← tier_for_score router.tiers effective
  let index = position_of tier router.tiers
  ok (record {
    model = tier.model;
    score = some score;
    fallback = false;
    reason = tier_range tier.low tier.high (notes_of router.tiers score shift max_model);
    effort = effort_for tier effective;
    candidates = without tier.model (candidates router index max_model);
  })

unfoldable pub select_model :
    AutoRouter → ScoreValue → ℤ → Option String → Result ValueError RouteDecision
select_model router value shift max_model = elim (validate_score value) [
  | none ↦ ok (select_fallback router max_model)
  | some score ↦ select_scored router score shift max_model
]
