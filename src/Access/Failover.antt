-- ===== src/Access/Failover.antt =====
-- `_first_servable` of backend/services/model_access.py: which model of a chain is served, and that
-- failing over comes to an end.
use mister_pilot_proxy.Prelude.{
  ◌≤◌, ◌<◌, ◌≡◌, refl, ◌⊎◌, inl, inr, String, Bool, Bool-cases, true, false, not, ◌&&◌, Option,
  none, some, List, [], ◌∷◌, arith, contains, length, ok, raise, ap, Result, Result-cases,
  if◌then◌else◌,
}
use mister_pilot_proxy.Router.{without}
use mister_pilot_proxy.Router.Candidates.{contains-without}
use mister_pilot_proxy.Llm.{Provider}
use mister_pilot_proxy.Access.{
  Serving, Problem, servable, Chosen, choose, pass, or_else, first_servable,
}

-- The model can be served: it is known, priced, and we have a key for its provider.
abbrev pub is_ok : Result Problem (Provider × String) → Bool
is_ok (ok found) = true
is_ok (raise problem) = false

abbrev pub can_serve : Serving → Option String → String → Bool
can_serve serving deepseek_key model = is_ok (servable serving model deepseek_key)

-- It can be served, and its breaker is closed where that matters.
abbrev pub usable : Serving → Bool → Option String → String → Bool
usable serving respect_breaker deepseek_key m =
    not (respect_breaker && not (serving.is_available m)) && can_serve serving deepseek_key m

abbrev pub first_usable : Serving → Bool → Option String → List String → Option String
first_usable serving respect_breaker deepseek_key [] = none
first_usable serving respect_breaker deepseek_key (m ∷ ms) =
    let next = first_usable serving respect_breaker deepseek_key ms in
    if usable serving respect_breaker deepseek_key m then some m else next

abbrev pub model_of : Option Chosen → Option String
model_of none = none
model_of (some chosen) = some chosen.model

pass-model :
    (serving : Serving) (respect_breaker : Bool) (chain : List String)
    (deepseek_key : Option String)
    → model_of (pass serving respect_breaker chain deepseek_key)
      ≡ first_usable serving respect_breaker deepseek_key chain
unfolding pass
pass-model serving respect_breaker [] deepseek_key = refl
pass-model serving respect_breaker (m ∷ ms) deepseek_key =
    let rest = pass-model serving respect_breaker ms deepseek_key in
    elim (Bool-cases (respect_breaker && not (serving.is_available m))) [
      | inl open_breaker ↦ rw open_breaker rest
      | inr closed ↦ elim (Result-cases (servable serving m deepseek_key)) [
        | inl ((provider, key), good) ↦ rw (closed, good, choose, is_ok) refl
        | inr (problem, bad) ↦ rw (closed, bad, choose, is_ok) rest
      ]
    ]

-- Auto serves the first model of the chain that can be served and whose breaker is closed; if there
-- is none, the first that can be served; and it gives up only if no model of the chain can be.
pub first_servable-model :
    (serving : Serving) (chain : List String) (deepseek_key : Option String)
    → model_of (first_servable serving chain deepseek_key)
      ≡ elim (first_usable serving true deepseek_key chain) [
        | none ↦ first_usable serving false deepseek_key chain
        | some model ↦ some model
      ]
unfolding first_servable
first_servable-model serving chain deepseek_key =
    ground (
      arith,
      pass-model serving true chain deepseek_key,
      pass-model serving false chain deepseek_key,
    )

length-without-le : (m : String) (xs : List String) → length (without m xs) ≤ length xs
length-without-le m [] = omega arith
length-without-le m (x ∷ xs) = ground (arith, length-without-le m xs)

pass-remaining :
    (serving : Serving) (respect_breaker : Bool) (chain : List String)
    (deepseek_key : Option String) (chosen : Chosen)
    → pass serving respect_breaker chain deepseek_key ≡ some chosen
    → (length chosen.remaining < length chain)
      × (contains chosen.remaining chosen.model ≡ false)
      × (servable serving chosen.model deepseek_key ≡ ok (chosen.provider, chosen.key))
unfolding pass
pass-remaining serving respect_breaker [] deepseek_key chosen h = cc
pass-remaining serving respect_breaker (m ∷ ms) deepseek_key chosen h =
    let rest = pass-remaining serving respect_breaker ms deepseek_key chosen in
    elim (Bool-cases (respect_breaker && not (serving.is_available m))) [
      | inl open_breaker ↦ later (rest (rw open_breaker at h))
      | inr closed ↦ elim (Result-cases (servable serving m deepseek_key)) [
        | inl ((provider, key), good) ↦
            here provider key good (rw (good, choose) at (rw closed at h))
        | inr (problem, bad) ↦ later (rest (rw (bad, choose) at (rw closed at h)))
      ]
    ]
  where
    later :
        {p q : Type 0}
        → (length chosen.remaining < length ms) × p × q
        → (length chosen.remaining < length (m ∷ ms)) × p × q
    later (short, x, y) = (omega (arith, short), x, y)

    here :
        (provider : Provider) (key : String)
        → servable serving m deepseek_key ≡ ok (provider, key)
        → some (record { model = m; provider = provider; key = key; remaining = without m ms })
          ≡ some chosen
        → (length chosen.remaining < length (m ∷ ms))
          × (contains chosen.remaining chosen.model ≡ false)
          × (servable serving chosen.model deepseek_key ≡ ok (chosen.provider, chosen.key))
    here provider key good e =
        let made : Chosen = record {
          model = m;
          provider = provider;
          key = key;
          remaining = without m ms;
        } in
        let same : made ≡ chosen = ap (λ o. elim o [ none ↦ made | some c ↦ c ]) e in
        rw (← same) (omega (arith, length-without-le m ms), contains-without m ms, good)

or_else-some :
    (first second : Option Chosen) (chosen : Chosen)
    → or_else first second ≡ some chosen
    → (first ≡ some chosen) ⊎ (second ≡ some chosen)
or_else-some none second chosen h = inr h
or_else-some (some c) second chosen h = inl h

-- What is chosen can be served, with the provider and the key that are returned; the models that
-- remain are fewer than the chain, so failing over comes to an end, and do not hold the chosen one,
-- so it is not tried again.
pub first_servable-remaining :
    (serving : Serving) (chain : List String) (deepseek_key : Option String) (chosen : Chosen)
    → first_servable serving chain deepseek_key ≡ some chosen
    → (length chosen.remaining < length chain)
      × (contains chosen.remaining chosen.model ≡ false)
      × (servable serving chosen.model deepseek_key ≡ ok (chosen.provider, chosen.key))
unfolding first_servable
first_servable-remaining serving chain deepseek_key chosen h =
    elim (or_else-some (pass serving true chain deepseek_key)
      (pass serving false chain deepseek_key) chosen h) [
        | inl first ↦ pass-remaining serving true chain deepseek_key chosen first
        | inr second ↦ pass-remaining serving false chain deepseek_key chosen second
      ]
