-- ===== src/Access/Warm.antt =====
-- `_lower_cap`, `_pinned` and `_cache_aware` of backend/services/model_access.py, and max_effort of
-- backend/services/auto_router.py. The configuration is an argument.
use mister_pilot_proxy.Prelude.{
  ℕ, ◌+◌, ◌-◌, ◌*◌, ◌/◌, min, max, String, Bool, true, false, not, ◌&&◌, Option, none, some, List,
  [], ◌∷◌, leb, ltb, ◌==◌, get_elem?, Result, ok, raise, ◌>>=◌, if◌then◌else◌,
}
use mister_pilot_proxy.Router.{
  Tier, AutoRouter, RouteDecision, ValueError, effort_unlisted, effort_order, pinned_to_turn,
  kept_warm, tier_index, tier_for_score, position_of, candidates, without, effort_for,
}
use mister_pilot_proxy.Session.{AutoSession}
use mister_pilot_proxy.Llm.{Provider, claude, provider_for}
use mister_pilot_proxy.Cost.{estimate_turn_usd}

-- `EFFORT_ORDER.index(e)`, from a position on.
unfoldable pub index_from : ℕ → String → List String → Result ValueError ℕ
index_from i e [] = raise (effort_unlisted e)
index_from i e (x ∷ xs) = if x == e then ok i else index_from (ℕ.suc i) e xs

abbrev pub index_of : String → List String → Result ValueError ℕ
index_of e xs = index_from 0 e xs

-- `a or b`
abbrev pub either_text : Option String → Option String → Option String
either_text none b = b
either_text (some a) b = if a == "" then b else some a

unfoldable pub max_effort : Option String → Option String → Result ValueError (Option String)
unfolding index_from
max_effort none b = ok b
max_effort (some a) none = ok (either_text (some a) none)
max_effort (some a) (some b) = index_of a effort_order >>= λ i.
    (index_of b effort_order >>= λ j. ok (if leb j i then some a else some b))

abbrev pub stricter : String → String → Option ℕ → Option ℕ → Option String
stricter a b none none = some b
stricter a b none (some j) = some b
stricter a b (some i) none = some a
stricter a b (some i) (some j) = if leb i j then some a else some b

unfoldable pub lower_cap : AutoRouter → Option String → Option String → Option String
lower_cap router none b = b
lower_cap router (some a) none = either_text (some a) none
lower_cap router (some a) (some b) =
    stricter a b (tier_index router.tiers a) (tier_index router.tiers b)

abbrev pub index_or : Option ℕ → Result ValueError ℕ → Result ValueError ℕ
index_or none found = found
index_or (some index) found = ok index

abbrev pub place_of : List Tier → Result ValueError Tier → Result ValueError ℕ
place_of tiers (ok tier) = ok (position_of tier tiers)
place_of tiers (raise e) = raise e

abbrev pub pinned_at :
    AutoRouter → AutoSession → Result ValueError ℕ → Result ValueError RouteDecision
pinned_at router session (raise e) = raise e
pinned_at router session (ok index) = ok (record {
  model = session.model;
  score = some session.score;
  fallback = false;
  reason = pinned_to_turn;
  effort = session.effort;
  candidates = without session.model (candidates router index none);
})

unfoldable pub pinned : AutoRouter → AutoSession → Result ValueError RouteDecision
pinned router session = pinned_at router session (
    index_or (tier_index router.tiers session.model)
      (place_of router.tiers (tier_for_score router.tiers session.score)))

abbrev pub is_claude_provider : Option Provider → Bool
is_claude_provider (some claude) = true
is_claude_provider _ = false

unfoldable pub is_claude : (String → String) → String → Bool
is_claude fold model = is_claude_provider (provider_for fold model)

pub record WarmConfig : Type 0 where
  pub switch_horizon_turns : ℕ
  pub expected_output_tokens : ℕ

-- The price of staying, and of switching, over the horizon.
abbrev pub stay_usd : WarmConfig → String → ℕ → ℕ
stay_usd cfg model context_tokens =
    max 1 cfg.switch_horizon_turns
    * estimate_turn_usd model context_tokens cfg.expected_output_tokens true

abbrev pub switch_usd : WarmConfig → String → ℕ → ℕ
switch_usd cfg model context_tokens =
    estimate_turn_usd model context_tokens cfg.expected_output_tokens false
    + (max 1 cfg.switch_horizon_turns - 1)
      * estimate_turn_usd model context_tokens cfg.expected_output_tokens true

-- `decision.score or low`, held to the tier.
abbrev pub score_in : Tier → Option ℕ → ℕ
score_in tier none = max tier.low (min tier.high tier.low)
score_in tier (some ℕ.zero) = max tier.low (min tier.high tier.low)
score_in tier (some (ℕ.suc n)) = max tier.low (min tier.high (ℕ.suc n))

abbrev pub tier_effort : Option Tier → Option ℕ → Option String
tier_effort none score = none
tier_effort (some tier) score = effort_for tier (score_in tier score)

-- A step down is not taken if the cap allows the old model and switching does not pay.
abbrev pub exceeds : Option ℕ → ℕ → Bool
exceeds none i = false
exceeds (some cap) i = ltb cap i

abbrev pub index_of_cap : AutoRouter → Option String → Option ℕ
index_of_cap router none = none
index_of_cap router (some m) = if m == "" then none else tier_index router.tiers m

abbrev pub stays :
    AutoRouter
    → WarmConfig
    → RouteDecision
    → AutoSession
    → ℕ
    → Option String
    → Option ℕ
    → Option ℕ
    → Bool
stays router cfg decision session context_tokens max_model none old = false
stays router cfg decision session context_tokens max_model (some new) none = false
stays router cfg decision session context_tokens max_model (some new) (some old) =
    ltb new old
    && not (exceeds (index_of_cap router max_model) old)
    && not (
        ltb (switch_usd cfg decision.model context_tokens)
          (stay_usd cfg session.model context_tokens))

abbrev pub old_index : Option ℕ → ℕ
old_index none = 0
old_index (some i) = i

abbrev pub kept :
    (String → String) → AutoRouter → RouteDecision → AutoSession → ℕ → Option String → RouteDecision
kept fold router decision session context_tokens max_model =
    let old = old_index (tier_index router.tiers session.model) in
    record {
      model = session.model;
      score = decision.score;
      fallback = false;
      reason = kept_warm decision.reason session.model (context_tokens / 1000);
      effort =
          if is_claude fold session.model
          then session.effort
          else tier_effort (get_elem? router.tiers old) decision.score;
      candidates = without session.model (candidates router old max_model);
    }

abbrev pub with_effort :
    RouteDecision → Result ValueError (Option String) → Result ValueError RouteDecision
with_effort decision (raise e) = raise e
with_effort decision (ok effort) = ok (record decision { effort = effort })

unfoldable pub cache_aware :
    (String → String)
    → AutoRouter
    → WarmConfig
    → RouteDecision
    → AutoSession
    → ℕ
    → Option String
    → Result ValueError RouteDecision
unfolding max_effort
cache_aware fold router cfg decision session context_tokens max_model =
    if decision.fallback
    then ok decision
    else if decision.model == session.model
    then (if is_claude fold decision.model
        then with_effort decision (max_effort decision.effort session.effort)
        else ok decision)
    else if stays router cfg decision session context_tokens max_model
        (tier_index router.tiers decision.model) (tier_index router.tiers session.model)
    then ok (kept fold router decision session context_tokens max_model)
    else ok decision
