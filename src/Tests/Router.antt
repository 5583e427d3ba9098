-- ===== src/Tests/Router.antt =====
-- The router of backend/services/auto_router.py on its default tiers.
use mathlib.Core.List.{Perm}
use mister_pilot_proxy.Prelude.{◌≡◌, refl, ◌↔◌, true, [], ◌∷◌, some, none, arith, ok}
use mister_pilot_proxy.Prelude.Int.{pos, negsuc, ◌≤ℤ◌}
use mister_pilot_proxy.Router.{
  Tier, AutoRouter, RouteDecision, insert_tier, sort_tiers, check_from, check_tiers, init,
  default_tiers, min_score, tier_for_score, boundary_distance, int_value, bool_value,
  validate_score, select_model,
}
use mister_pilot_proxy.Router.Covering.{CoversFrom}
use mister_pilot_proxy.Router.Order.{check_tiers_iff}
use mister_pilot_proxy.Router.Select.{IsValid, Routed, init-IsValid, select_model_scored}

-- A table of two tiers, given in the wrong order.
abbrev easy : Tier
easy = record { low = 1; high = 9; model = "small"; alternates = "mid" ∷ []; efforts = [] }

abbrev hard : Tier
hard = record {
  low = 10;
  high = 20;
  model = "large";
  alternates = "mid" ∷ "small" ∷ [];
  efforts = "low" ∷ "high" ∷ [];
}

abbrev router : AutoRouter
router = record { fallback_model = "mid"; tiers = default_tiers }

init-router : init "mid" default_tiers ≡ ok router
unfolding init check_tiers sort_tiers insert_tier check_from
init-router = refl

check_tiers_iff_example :
    (check_tiers (hard ∷ easy ∷ []) ≡ ok (easy ∷ hard ∷ []))
    ↔ (Perm (easy ∷ hard ∷ []) (hard ∷ easy ∷ []) × CoversFrom min_score (easy ∷ hard ∷ []))
check_tiers_iff_example = check_tiers_iff (hard ∷ easy ∷ []) (easy ∷ hard ∷ [])

covers : CoversFrom min_score default_tiers
covers = (init-IsValid "mid" default_tiers router init-router).covers

valid : IsValid router
valid = init-IsValid "mid" default_tiers router init-router

distance_of_12 : boundary_distance default_tiers 12 ≡ ok 2
unfolding boundary_distance tier_for_score
distance_of_12 = refl

score_12 : validate_score (int_value (pos 12)) ≡ some 12
unfolding validate_score
score_12 = refl

score_true : validate_score (bool_value true) ≡ none
unfolding validate_score
score_true = refl

select_model_scored_example :
    (d : RouteDecision) × (select_model router (int_value (pos 12)) (pos 2) (some "gpt-5.5") ≡ ok d)
    × Routed router 12 (pos 2) (some "gpt-5.5") d
select_model_scored_example =
    select_model_scored router valid (int_value (pos 12)) (pos 2) (some "gpt-5.5") 12 score_12

downward : negsuc 0 ≤ℤ pos 1
downward = omega arith
