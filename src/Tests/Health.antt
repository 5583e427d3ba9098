-- ===== src/Tests/Health.antt =====
-- The circuit breaker of backend/services/provider_health.py, with three failures and a cooldown of 60.
use mister_pilot_proxy.Prelude.{◌+◌, ◌≡◌, refl, [], ◌∷◌, none, leb}
use mister_pilot_proxy.Dict
use mister_pilot_proxy.Health.{BreakerConfig, States, is_available, record_failure}
use mister_pilot_proxy.Health.Breaker.{failures_at, opens_at_threshold}

abbrev config : BreakerConfig
config = record { breaker_failures = 3; breaker_cooldown_seconds = 60 }

abbrev seen : States
seen = ("gpt-5.4", record { failures = 2; open_until = 0 }) ∷ []

abbrev none_seen : States
none_seen = []

closed : Dict.get none_seen "gpt-5.4" ≡ none
unfolding Dict.get
closed = refl

opens_at_threshold_example :
    is_available
      (record_failure config (failures_at config none_seen "gpt-5.4" (1 ∷ 2 ∷ [])) 3 "gpt-5.4")
      4
      "gpt-5.4"
    ≡ leb (3 + config.breaker_cooldown_seconds) 4
opens_at_threshold_example =
    opens_at_threshold config none_seen "gpt-5.4" closed (1 ∷ 2 ∷ []) 3 4 refl
