-- ===== src/Tests/Floors.antt =====
-- The floors of backend/services/auto_context.py on one conversation.
use mathlib.Core.List.{reverse}
use mister_pilot_proxy.Prelude.{min, max, ◌≡◌, true, [], ◌∷◌, arith, some, none, take, drop}
use mister_pilot_proxy.Json.{null}
use mister_pilot_proxy.Router.{max_score}
use mister_pilot_proxy.Floors.{FloorConfig, ContextFloors, Scoring, apply, history_floor}
use mister_pilot_proxy.Floors.Apply.{value_of, highest, apply-max}
use mister_pilot_proxy.Floors.History.{best_of, history_floor-best}

abbrev config : FloorConfig
config = record {
  history_turns = 5;
  history_decay = 2;
  max_drop_per_turn = 4;
  long_context_tokens = 30000;
  long_context_min_score = 11;
}

abbrev scoring : Scoring
scoring = record {
  user_turns = λ payload. "design a scheduler" ∷ "ok" ∷ "go on" ∷ [];
  is_substantive = λ text. true;
  score_of = λ text. 14;
  route_score = λ message. none;
}

abbrev floors : ContextFloors
floors = record {
  history_floor = some 9;
  sticky_floor = some 25;
  long_context_floor = none;
  context_tokens = 100;
}

apply-max_example :
    value_of (apply floors (some 4)).0 ≡ max (value_of (some 4)) (min max_score (highest floors))
apply-max_example = apply-max floors (some 4) (omega arith) (record {
  history_at_least = omega arith;
  sticky_at_least = omega arith;
  long_context_at_least = tt;
})

history_floor-best_example :
    value_of (history_floor scoring config null)
    ≡ best_of scoring config 1 (take 5 (drop 1 (reverse (scoring.user_turns null))))
history_floor-best_example = history_floor-best scoring config null
