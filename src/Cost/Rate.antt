-- ===== src/Cost/Rate.antt =====
-- `get_inr_rate` of backend/services/cost_service.py: the cached exchange rate. The clock is in
-- whole seconds; a rate is in whole units. The providers' answers are an argument.
use mister_pilot_proxy.Prelude.{
  ℕ, ◌+◌, ◌-◌, ◌*◌, ◌≤◌, ◌<◌, ◌≡◌, inl, inr, Bool, Bool-cases, true, false, Option, none, some,
  List, [], ◌∷◌, arith, ltb, eqb, ◌||◌, if◌then◌else◌,
}

abbrev pub fallback_inr_rate : ℕ
fallback_inr_rate = 96

abbrev pub rate_ttl_seconds : ℕ
rate_ttl_seconds = 6 * 60 * 60

abbrev pub rate_retry_seconds : ℕ
rate_retry_seconds = 10 * 60

pub record RateState : Type 0 where
  pub cached_inr_rate : ℕ
  pub rate_fetched_at : ℕ
  pub rate_next_attempt : ℕ

-- As the module starts.
abbrev pub start : RateState
start = record { cached_inr_rate = fallback_inr_rate; rate_fetched_at = 0; rate_next_attempt = 0 }

-- The answers of the providers, in their order: a rate, or an error or a body without one. The first
-- rate that is not 0 counts.
abbrev pub fetch_inr_rate : List (Option ℕ) → Option ℕ
fetch_inr_rate [] = none
fetch_inr_rate (none ∷ answers) = fetch_inr_rate answers
fetch_inr_rate (some rate ∷ answers) =
    let rest = fetch_inr_rate answers in if eqb rate 0 then rest else some rate

-- `now < _rate_next_attempt or now - _rate_fetched_at < _RATE_TTL_SECONDS`
abbrev pub is_fresh : RateState → ℕ → Bool
is_fresh state now =
    ltb now state.rate_next_attempt || ltb (now - state.rate_fetched_at) rate_ttl_seconds

abbrev pub fetched : RateState → ℕ → Option ℕ → RateState
fetched state now none = record state { rate_next_attempt = now + rate_retry_seconds }
fetched state now (some rate) = record {
  cached_inr_rate = rate;
  rate_fetched_at = now;
  rate_next_attempt = now + rate_ttl_seconds;
}

-- The state after the call, the rate, and whether the providers were asked. `override` is the value
-- of `USD_INR_RATE`, if it is set and a number.
unfoldable pub get_inr_rate : RateState → Option ℕ → ℕ → List (Option ℕ) → RateState × (ℕ × Bool)
get_inr_rate state (some rate) now answers = (state, (rate, false))
get_inr_rate state none now answers =
    if is_fresh state now
    then (state, (state.cached_inr_rate, false))
    else (let after = fetched state now (fetch_inr_rate answers) in
        (after, (after.cached_inr_rate, true)))

-- After a call that asked the providers, whatever they said, no call in the next ten minutes asks
-- them again; each returns the rate that the first left.
pub get_inr_rate-backs_off :
    (state : RateState) (override : Option ℕ) (now later : ℕ) (answers more : List (Option ℕ))
    → (get_inr_rate state override now answers).1.1 ≡ true
    → now ≤ later
    → later < now + rate_retry_seconds
    → get_inr_rate (get_inr_rate state override now answers).0 none later more ≡ (
      (get_inr_rate state override now answers).0,
      ((get_inr_rate state override now answers).1.0, false),
    )
unfolding get_inr_rate
get_inr_rate-backs_off state (some rate) now later answers more h k l = cc
get_inr_rate-backs_off state none now later answers more h k l =
    elim (Bool-cases (is_fresh state now)) [
      | inl fresh ↦ absurd (ground (arith, fresh))
      | inr stale ↦ ground (arith, stale)
    ]
