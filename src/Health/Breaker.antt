-- ===== src/Health/Breaker.antt =====
-- The circuit breaker of backend/services/provider_health.py against a history of calls.
use mister_pilot_proxy.Prelude.{
  ℕ, ◌+◌, ◌<◌, max, String, ◌≡◌, refl, true, none, List, [], ◌∷◌, eq_refl, leb, arith, length,
}
use mister_pilot_proxy.Dict
use mister_pilot_proxy.Dict.{get-put, get-pop}
use mister_pilot_proxy.Health.{
  BreakerConfig, States, is_available, record_success, state_of, failed, record_failure,
}

-- The failures that open the breaker.
abbrev pub threshold : BreakerConfig → ℕ
threshold cfg = max 1 cfg.breaker_failures

-- `n` failures in a row, at the given times.
abbrev pub failures_at : BreakerConfig → States → String → List ℕ → States
failures_at cfg states model [] = states
failures_at cfg states model (now ∷ times) =
    failures_at cfg (record_failure cfg states now model) model times

state_of-record_failure :
    (cfg : BreakerConfig) (states : States) (now : ℕ) (model : String)
    → state_of (record_failure cfg states now model) model ≡ failed cfg now (state_of states model)
unfolding record_failure
state_of-record_failure cfg states now model =
    ground
      (arith, get-put states model model (failed cfg now (state_of states model)), eq_refl model)

is_available-state_of :
    (states : States) (now : ℕ) (model : String)
    → is_available states now model ≡ leb (state_of states model).open_until now
unfolding is_available
is_available-state_of states now model = ground arith

-- While fewer failures than the threshold have been seen, the count grows and nothing opens.
counting :
    (cfg : BreakerConfig) (states : States) (model : String) (times : List ℕ)
    → (state_of states model).failures + length times < threshold cfg
    → ((state_of (failures_at cfg states model times) model).failures
        ≡ (state_of states model).failures + length times)
      × ((state_of (failures_at cfg states model times) model).open_until
          ≡ (state_of states model).open_until)
unfolding failed
counting cfg states model [] h = (omega arith, refl)
counting cfg states model (now ∷ times) h =
    let step = state_of-record_failure cfg states now model in
    let first : failed cfg now (state_of states model)
        ≡ record (state_of states model) { failures = (state_of states model).failures + 1 } =
      ground arith in
    let rest =
      counting cfg (record_failure cfg states now model) model times
        (ground (arith, step, first)) in
    (ground (arith, step, first, rest.0), ground (arith, step, first, rest.1))

module _ (cfg : BreakerConfig) (states : States) (model : String)
    (closed : Dict.get states model ≡ none) (times : List ℕ) where
  -- From a closed breaker, fewer failures in a row than the threshold leave the model available.
  pub available_below_threshold :
      (later : ℕ)
      → length times < threshold cfg
      → is_available (failures_at cfg states model times) later model ≡ true
  available_below_threshold later few =
      let (_, still) = counting cfg states model times (ground (arith, closed)) in
      rw is_available-state_of (ground (arith, still, closed))

  -- From a closed breaker, the failure that reaches the threshold opens it: the model is available
  -- again exactly from the end of the cooldown that starts at that failure.
  pub opens_at_threshold :
      (now later : ℕ)
      → length times + 1 ≡ threshold cfg
      → is_available (record_failure cfg (failures_at cfg states model times) now model) later model
        ≡ leb (now + cfg.breaker_cooldown_seconds) later
  unfolding failed
  opens_at_threshold now later reached =
      let seen = counting cfg states model times (ground (arith, closed)) in
      rw (is_available-state_of, state_of-record_failure) (ground (arith, seen.0, closed))

  -- Once open, it is half open after the cooldown: a single further failure, whenever it comes, opens
  -- it for a cooldown from that failure on.
  pub reopens_at_once :
      (now again later : ℕ)
      → length times + 1 ≡ threshold cfg
      → is_available
          (record_failure cfg
            (record_failure cfg (failures_at cfg states model times) now model)
            again
            model)
          later
          model
        ≡ leb (again + cfg.breaker_cooldown_seconds) later
  unfolding failed
  reopens_at_once now again later reached =
      let seen = counting cfg states model times (ground (arith, closed)) in
      rw (is_available-state_of, state_of-record_failure, state_of-record_failure)
        (ground (arith, seen.0, closed))

-- A success closes the breaker, whatever its state, and it then takes as many failures as at first
-- to open it.
pub success_closes :
    (cfg : BreakerConfig) (states : States) (model : String) (times : List ℕ) (later : ℕ)
    → length times < threshold cfg
    → is_available (failures_at cfg (record_success states model) model times) later model ≡ true
unfolding record_success
success_closes cfg states model times later few =
    available_below_threshold cfg (Dict.pop states model) model
      (ground (arith, get-pop states model model, eq_refl model)) times later few
