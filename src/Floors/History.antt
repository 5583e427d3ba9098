-- ===== src/Floors/History.antt =====
-- The history and sticky floors of backend/services/auto_context.py: what they are, and how they
-- fade.
use mathlib.Core.List.{reverse}
use mister_pilot_proxy.Prelude.{
  ℕ, suc, ◌-◌, ◌*◌, ◌≤◌, max, ◌≡◌, inl, inr, String, Bool, Bool-cases, true, false, Option,
  Option-cases, none, some, List, [], ◌∷◌, arith, if◌then◌else◌, take, drop,
}
use mister_pilot_proxy.Json.{Json}
use mister_pilot_proxy.Router.{min_score}
use mister_pilot_proxy.Floors.{
  FloorConfig, Scoring, history_loop, history_floor, sticky_loop, sticky_floor, on_scale,
  context_floors, better,
}
use mister_pilot_proxy.Session.{has_role, messages}
use mister_pilot_proxy.Floors.Apply.{value_of, IsFloor, AreFloors}

IsFloor-if : (b : Bool) (x y : Option ℕ) → IsFloor x → IsFloor y → IsFloor (if b then x else y)
IsFloor-if true x y p q = p
IsFloor-if false x y p q = q

IsFloor-on_scale : (n : ℕ) → IsFloor (on_scale n)
IsFloor-on_scale n = ground arith

module _ (scoring : Scoring) (cfg : FloorConfig) where
  -- What one turn of the given age contributes.
  abbrev pub contribution : ℕ → String → ℕ
  contribution age raw =
      if scoring.is_substantive raw then scoring.score_of raw - cfg.history_decay * age else 0

  -- The highest contribution of the turns, the first of which has the given age.
  abbrev pub best_of : ℕ → List String → ℕ
  best_of age [] = 0
  best_of age (raw ∷ turns) = max (contribution age raw) (best_of (suc age) turns)

  value_of-better : (best : Option ℕ) (d : ℕ) → value_of (better best d) ≡ max (value_of best) d
  value_of-better none d = ground arith
  value_of-better (some b) d = ground arith

  IsFloor-better : (best : Option ℕ) (d : ℕ) → IsFloor best → IsFloor (better best d)
  IsFloor-better none d h = ground arith
  IsFloor-better (some b) d h = ground arith

  history_loop-best :
      (age : ℕ) (best : Option ℕ) (turns : List String)
      → value_of (history_loop scoring cfg age best turns) ≡ max (value_of best) (best_of age turns)
  unfolding history_loop
  history_loop-best age best [] = omega arith
  history_loop-best age best (raw ∷ turns) =
      let d = scoring.score_of raw - cfg.history_decay * age in
      elim (Bool-cases (scoring.is_substantive raw)) [
        | inl counts ↦ rw counts (
            omega
              (arith, history_loop-best (suc age) (better best d) turns, value_of-better best d))
        | inr skipped ↦ rw skipped (omega (arith, history_loop-best (suc age) best turns))
      ]

  IsFloor-history_loop :
      (age : ℕ) (best : Option ℕ) (turns : List String)
      → IsFloor best
      → IsFloor (history_loop scoring cfg age best turns)
  unfolding history_loop
  IsFloor-history_loop age best [] h = h
  IsFloor-history_loop age best (raw ∷ turns) h =
      let d = scoring.score_of raw - cfg.history_decay * age in
      elim (Bool-cases (scoring.is_substantive raw)) [
        | inl counts ↦
            rw counts
              (IsFloor-history_loop (suc age) (better best d) turns (IsFloor-better best d h))
        | inr skipped ↦ rw skipped (IsFloor-history_loop (suc age) best turns h)
      ]

  -- The history floor is the best decayed score of the substantive earlier user turns, among as many
  -- of the latest of them as the configuration says; 0 stands for an absent floor.
  pub history_floor-best :
      (payload : Json)
      → value_of (history_floor scoring cfg payload)
        ≡ best_of 1 (take cfg.history_turns (drop 1 (reverse (scoring.user_turns payload))))
  unfolding history_floor
  history_floor-best payload = omega (
    arith,
    history_loop-best 1 none
        (take cfg.history_turns (drop 1 (reverse (scoring.user_turns payload)))),
  )

  IsFloor-sticky_loop : (since : ℕ) (ms : List Json) → IsFloor (sticky_loop scoring cfg since ms)
  unfolding sticky_loop
  IsFloor-sticky_loop since [] = tt
  IsFloor-sticky_loop since (m ∷ ms) =
      let here = IsFloor-sticky_loop since ms in
      let older = IsFloor-sticky_loop (suc since) ms in
      IsFloor-if (has_role "user" m) _ _ older (
        IsFloor-if (has_role "assistant" m) _ _
          (elim (Option-cases (scoring.route_score m)) [
            | inl silent ↦ rw silent here
            | inr (score, routed) ↦
                rw routed (IsFloor-on_scale (score - cfg.max_drop_per_turn * since))
          ])
          here)

  IsFloor-history_floor : (payload : Json) → IsFloor (history_floor scoring cfg payload)
  unfolding history_floor
  IsFloor-history_floor payload =
      IsFloor-history_loop 1 none
        (take cfg.history_turns (drop 1 (reverse (scoring.user_turns payload)))) tt

  -- The floors that a conversation sets are present only where they are at least 1, if the session's
  -- floor and the configured minimum for a long context are.
  pub context_floors-AreFloors :
      (json_length : Option Json → ℕ) (payload : Json) (session_floor : Option ℕ)
      (use_route_line : Bool)
      → IsFloor session_floor
      → min_score ≤ cfg.long_context_min_score
      → AreFloors (context_floors scoring json_length cfg payload session_floor use_route_line)
  unfolding context_floors sticky_floor
  context_floors-AreFloors json_length payload none use_route_line h k = record {
    history_at_least = IsFloor-history_floor payload;
    sticky_at_least =
        IsFloor-if use_route_line _ _ (IsFloor-sticky_loop 0 (reverse (messages payload))) tt;
    long_context_at_least = IsFloor-if _ (some cfg.long_context_min_score) none k tt;
  }
  context_floors-AreFloors json_length payload (some floor) use_route_line h k = record {
    history_at_least = IsFloor-history_floor payload;
    sticky_at_least = h;
    long_context_at_least = IsFloor-if _ (some cfg.long_context_min_score) none k tt;
  }
