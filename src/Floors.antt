-- ===== src/Floors.antt =====
-- backend/services/auto_context.py: the floors that a conversation sets under a score. The scorer,
-- the text functions of its module and the route line's pattern are arguments. A floor that would be
-- below the scale is absent, so subtraction that stops at 0 loses nothing. The floors are read by
-- code that cannot raise here, so the two handlers for exceptions have no case.
pub mod Apply
pub mod History
use mathlib.Core.List.{reverse}
use mister_pilot_proxy.Prelude.{
  ℕ, zero, suc, ◌+◌, ◌-◌, ◌*◌, ◌/◌, min, max, String, Bool, true, false, not, ◌&&◌, ◌||◌, Option,
  none, some, List, [], ◌∷◌, ◌++◌, ltb, leb, eqb, if◌then◌else◌, take, drop,
}
use mister_pilot_proxy.Json.{Json, get_field, truthy}
use mister_pilot_proxy.Router.{min_score, max_score}
use mister_pilot_proxy.Session.{messages, has_role}

-- The part of `AutoConfig` that the floors read.
pub record FloorConfig : Type 0 where
  pub history_turns : ℕ
  pub history_decay : ℕ
  pub max_drop_per_turn : ℕ
  pub long_context_tokens : ℕ
  pub long_context_min_score : ℕ

pub data FloorName : Type 0 where
  history sticky long_context : FloorName

pub record ContextFloors : Type 0 where
  pub history_floor : Option ℕ
  pub sticky_floor : Option ℕ
  pub long_context_floor : Option ℕ
  pub context_tokens : ℕ

-- What the note of a raised score says: from what, to what, by which floor.
pub record RaiseNote : Type 0 where
  pub from : Option ℕ
  pub to : ℕ
  pub by : FloorName

abbrev pub named_floor : FloorName → Option ℕ → List (FloorName × ℕ)
named_floor name none = []
named_floor name (some value) = (name, value) ∷ []

-- `max(…, key=lambda kv: kv[1])`: the first of the highest.
abbrev pub highest_from : FloorName × ℕ → List (FloorName × ℕ) → FloorName × ℕ
highest_from best [] = best
highest_from best (f ∷ fs) = highest_from (if ltb best.1 f.1 then f else best) fs

abbrev pub floor_list : ContextFloors → List (FloorName × ℕ)
floor_list floors =
    named_floor history floors.history_floor
    ++ (named_floor sticky floors.sticky_floor
        ++ named_floor long_context floors.long_context_floor)

abbrev pub reaches : Option ℕ → ℕ → Bool
reaches none floor = false
reaches (some score) floor = leb floor score

abbrev pub clamp : ℕ → ℕ
clamp n = max min_score (min max_score n)

abbrev pub raise_to : Option ℕ → FloorName × ℕ → Option ℕ × Option RaiseNote
raise_to score (name, floor) =
    if reaches score floor
    then (score, none)
    else (some (clamp floor), some (record { from = score; to = clamp floor; by = name }))

abbrev pub apply_list : Option ℕ → List (FloorName × ℕ) → Option ℕ × Option RaiseNote
apply_list score [] = (score, none)
apply_list score (f ∷ fs) = raise_to score (highest_from f fs)

unfoldable pub apply : ContextFloors → Option ℕ → Option ℕ × Option RaiseNote
apply floors score = apply_list score (floor_list floors)

-- `floor if floor >= MIN_SCORE else None`
abbrev pub on_scale : ℕ → Option ℕ
on_scale floor = if leb min_score floor then some floor else none

-- What the code takes from the scorer's module and from `re`.
pub record Scoring : Type 0 where
  pub user_turns : Json → List String
  pub is_substantive : String → Bool
  pub score_of : String → ℕ
  pub route_score : Json → Option ℕ

abbrev pub better : Option ℕ → ℕ → Option ℕ
better none decayed = if leb min_score decayed then some decayed else none
better (some best) decayed =
    if leb min_score decayed && ltb best decayed then some decayed else some best

module _ (scoring : Scoring) (cfg : FloorConfig) where
  -- The loop over the turns, the most recent first.
  unfoldable pub history_loop : ℕ → Option ℕ → List String → Option ℕ
  history_loop age best [] = best
  history_loop age best (raw ∷ turns) =
      history_loop (suc age)
        (if scoring.is_substantive raw
          then better best (scoring.score_of raw - cfg.history_decay * age)
          else best)
        turns

  -- `user_turns[:-1][-history_turns:]`, reversed, from the reversed list.
  unfoldable pub history_floor : Json → Option ℕ
  unfolding history_loop
  history_floor payload =
      history_loop 1 none (take cfg.history_turns (drop 1 (reverse (scoring.user_turns payload))))

  unfoldable pub sticky_loop : ℕ → List Json → Option ℕ
  sticky_loop since [] = none
  sticky_loop since (m ∷ ms) =
      let next = sticky_loop since ms in
      let next_older = sticky_loop (suc since) ms in
      if has_role "user" m
      then next_older
      else if has_role "assistant" m
      then elim (scoring.route_score m) [
        | none ↦ next
        | some score ↦ on_scale (score - cfg.max_drop_per_turn * since)
      ]
      else next

  unfoldable pub sticky_floor : Json → Option ℕ
  unfolding sticky_loop
  sticky_floor payload = sticky_loop 0 (reverse (messages payload))

unfoldable pub session_sticky_floor : FloorConfig → ℕ → ℕ → Option ℕ
session_sticky_floor cfg prev_score user_turns_since =
    on_scale (prev_score - cfg.max_drop_per_turn * user_turns_since)

abbrev pub chars_per_token : ℕ
chars_per_token = 4

-- `json_length` is the length of `json.dumps` of a value.
abbrev pub size_of : (Option Json → ℕ) → Option Json → ℕ
size_of json_length value = if truthy value then json_length value else 0

unfoldable pub estimate_context_tokens : (Option Json → ℕ) → Json → ℕ
estimate_context_tokens json_length payload =
    (size_of json_length (get_field payload "messages")
      + size_of json_length (get_field payload "tools"))
    / chars_per_token

-- `session_floor` is the argument `sticky`: the floor of the conversation's session, if the server remembers it.
unfoldable pub context_floors :
    Scoring → (Option Json → ℕ) → FloorConfig → Json → Option ℕ → Bool → ContextFloors
context_floors scoring json_length cfg payload session_floor use_route_line =
    let tokens = estimate_context_tokens json_length payload in
    record {
      history_floor = history_floor scoring cfg payload;
      sticky_floor = elim session_floor [
        | none ↦ if use_route_line then sticky_floor scoring cfg payload else none
        | some floor ↦ some floor
      ];
      long_context_floor =
          if leb cfg.long_context_tokens tokens && ltb 0 cfg.long_context_tokens
          then some cfg.long_context_min_score
          else none;
      context_tokens = tokens;
    }
