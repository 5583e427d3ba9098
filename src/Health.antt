-- ===== src/Health.antt =====
-- backend/services/provider_health.py: the circuit breaker of each model. `time.monotonic()` is an
-- argument, in whole ticks; the lock makes each call one step, so calls are a sequence.
pub mod Breaker
use mister_pilot_proxy.Prelude.{
  ℕ, ◌+◌, ◌-◌, max, String, Bool, true, Option, none, some, List, leb, if◌then◌else◌,
}
use mister_pilot_proxy.Dict
use mister_pilot_proxy.Dict.{Dict}

pub record State : Type 0 where
  pub failures : ℕ
  pub open_until : ℕ

-- The part of the configuration that the breaker reads.
pub record BreakerConfig : Type 0 where
  pub breaker_failures : ℕ
  pub breaker_cooldown_seconds : ℕ

abbrev pub States : Type 0
States = Dict State

unfoldable pub is_available : States → ℕ → String → Bool
is_available states now model = elim (Dict.get states model) [
  | none ↦ true
  | some state ↦ leb state.open_until now
]

unfoldable pub record_success : States → String → States
record_success states model = Dict.pop states model

-- `_states.setdefault(model, _State())`
abbrev pub state_of : States → String → State
state_of states model = elim (Dict.get states model) [
  | none ↦ record { failures = 0; open_until = 0 }
  | some state ↦ state
]

-- One more failure of a model whose breaker is in this state.
unfoldable pub failed : BreakerConfig → ℕ → State → State
failed cfg now state =
    if leb (max 1 cfg.breaker_failures) (state.failures + 1)
    then record {
      failures = max 1 cfg.breaker_failures - 1;
      open_until = now + cfg.breaker_cooldown_seconds;
    }
    else record state { failures = state.failures + 1 }

unfoldable pub record_failure : BreakerConfig → States → ℕ → String → States
record_failure cfg states now model = Dict.put states model (failed cfg now (state_of states model))
