-- ===== src/Access/Open/Serves.antt =====
-- Which key and model an access of backend/services/model_access.py opens with.
use mister_pilot_proxy.Prelude.{
  ℕ, ◌≡◌, ◌⊎◌, refl, sym, ap, ◌∙◌, inl, inr, String, true, false, ◌&&◌, Option, none, some, List,
  ◌∷◌, Result, ok, raise, ◌==◌, Bool-cases, Option-cases, arith,
}
use mathlib.Core.Path.{subst}
use mister_pilot_proxy.Dict
use mister_pilot_proxy.Session.{get_session}
use mister_pilot_proxy.Router.{RouteDecision, ValueError}
use mister_pilot_proxy.Llm.{
  openai, claude, Provider, deepseek, models, provider_value, canonical_model, provider_for,
}
use mister_pilot_proxy.Cost.{has_pricing}
use mister_pilot_proxy.Keys.{
  SecretCache, KeyError, aws_secret_name, is_misterpilot_key, resolve_api_key,
}
use mister_pilot_proxy.Keys.Resolve.{SaysValid, IsServerKey, resolve_api_key-verified}
use mister_pilot_proxy.Access.{
  Serving, Problem, is_deepseek, given_key, servable, service_key, key_or_problem, first_servable,
  is_auto_model, Allowed, auto_route, explicit, check_model, check_access,
}
use mister_pilot_proxy.Access.Failover.{first_servable-remaining}
use mister_pilot_proxy.Access.Preferences.{AutoPreferences, BudgetError}
use mister_pilot_proxy.Access.Scoring.{Verdicts}
use mister_pilot_proxy.Access.Auto.{decide}
use mister_pilot_proxy.Access.Next.{ModelAccess}
use mister_pilot_proxy.Access.Open.{
  Deployment, State, Request, Moments, OpenError, Route, Opened, skey, serve, choose_server,
  preferences, with_preferences, with_key, open_auto, explicit_access, resolved, open_allowed,
  open_model_access,
}

abbrev Keyed :
    (Option String) → (Provider → Option String) → Result Problem (Provider × String) → Type 0
Keyed deepseek_key server_key (raise problem) = Unit
Keyed deepseek_key server_key (ok (provider, key)) =
    ((key == "") ≡ false)
    × (((is_deepseek provider ≡ true) × (deepseek_key ≡ some key))
        ⊎ (server_key provider ≡ some key))

key_or_problem-Keyed :
    (deepseek_key : Option String) (server_key : Provider → Option String) (provider : Provider)
    (key : Option String)
    → ((k : String)
        → key ≡ some k
        → ((is_deepseek provider ≡ true) × (deepseek_key ≡ some k))
          ⊎ (server_key provider ≡ some k))
    → Keyed deepseek_key server_key (key_or_problem provider key)
key_or_problem-Keyed deepseek_key server_key provider none h = tt
key_or_problem-Keyed deepseek_key server_key provider (some key) h = elim (Bool-cases (key == "")) [
  | inl e ↦ rw e tt
  | inr e ↦ rw e (e, h key refl)
]

service_key-Keyed :
    (serving : Serving) (provider : Provider) (deepseek_key : Option String)
    → Keyed deepseek_key serving.server_key (service_key serving provider deepseek_key)
service_key-Keyed serving provider deepseek_key = elim (Bool-cases (is_deepseek provider)) [
  | inr other ↦ rw other (
      key_or_problem-Keyed deepseek_key serving.server_key provider (serving.server_key provider)
        (λ k e. inr e))
  | inl is ↦ elim (Bool-cases (given_key deepseek_key)) [
    | inl given ↦
        rw (is, given)
          (key_or_problem-Keyed deepseek_key serving.server_key provider deepseek_key
            (λ k e. inl (is, e)))
    | inr lacking ↦
        rw (is, lacking)
          (key_or_problem-Keyed deepseek_key serving.server_key provider
            (serving.server_key provider) (λ k e. inr e))
  ]
]

-- The model has a price and a provider, and there is a key for that provider: the resolved one, if it
-- is DeepSeek, or ours.
abbrev Billable : Serving → String → Option String → Result Problem (Provider × String) → Type 0
Billable serving model deepseek_key (raise problem) = Unit
Billable serving model deepseek_key (ok (provider, key)) =
    (has_pricing (some model) ≡ true)
    × (provider_for serving.fold model ≡ some provider)
    × Keyed deepseek_key serving.server_key (ok (provider, key))

-- The provider is the one asked for.
abbrev Of : Provider → Result Problem (Provider × String) → Type 0
Of provider (raise problem) = Unit
Of provider (ok (p, key)) = p ≡ provider

key_or_problem-Of :
    (provider : Provider) (key : Option String) → Of provider (key_or_problem provider key)
key_or_problem-Of provider none = tt
key_or_problem-Of provider (some key) = elim (Bool-cases (key == "")) [
  | inl e ↦ rw e tt
  | inr e ↦ rw e refl
]

service_key-Of :
    (serving : Serving) (provider : Provider) (deepseek_key : Option String)
    → Of provider (service_key serving provider deepseek_key)
service_key-Of serving provider deepseek_key =
    elim (Bool-cases (is_deepseek provider && given_key deepseek_key)) [
      | inl e ↦ rw e (key_or_problem-Of provider deepseek_key)
      | inr e ↦ rw e (key_or_problem-Of provider (serving.server_key provider))
    ]

priced-Billable :
    (serving : Serving) (model : String) (deepseek_key : Option String) (provider : Provider)
    (m : Result Problem (Provider × String))
    → has_pricing (some model) ≡ true
    → provider_for serving.fold model ≡ some provider
    → Keyed deepseek_key serving.server_key m
    → Of provider m
    → Billable serving model deepseek_key m
priced-Billable serving model deepseek_key provider (raise problem) priced at h o = tt
priced-Billable serving model deepseek_key provider (ok (p, key)) priced at h o =
    (priced, at ∙ ap some (sym o), h)

servable-Billable :
    (serving : Serving) (model : String) (deepseek_key : Option String)
    → Billable serving model deepseek_key (servable serving model deepseek_key)
unfolding servable
servable-Billable serving model deepseek_key =
    elim (Option-cases (provider_for serving.fold model)) [
      | inl e ↦ rw (e, servable) tt
      | inr (provider, e) ↦ elim (Bool-cases (has_pricing (some model))) [
        | inr free ↦ rw (e, servable, free) tt
        | inl priced ↦
            let own =
              priced-Billable serving model deepseek_key provider
                (service_key serving provider deepseek_key) priced e
                (service_key-Keyed serving provider deepseek_key)
                (service_key-Of serving provider deepseek_key) in
            subst (Billable serving model deepseek_key) (sym (rw (e, servable, priced) refl)) own
      ]
    ]

-- A key of ours for a provider: from the cache of secrets before it expires, from AWS, or as the
-- deployment's lookup of our keys gives it.
abbrev pub IsOurKey : Deployment → Moments → State → Provider → String → Type 0
IsOurKey dep times state provider key =
    IsServerKey dep.world state.secrets times.now
      (aws_secret_name dep.world.env (provider_value provider)) key
    ⊎ (dep.serving.server_key provider ≡ some key)

-- The provider that a model has, in the table.
abbrev pub IsProvider : Deployment → String → Provider → Type 0
IsProvider dep model provider =
    (provider_for dep.serving.fold model ≡ some provider) ⊎ (Dict.get models model ≡ some provider)

abbrev pub Billed : Deployment → Moments → Request → State → ModelAccess → Type 0
Billed dep times request state access =
    (is_misterpilot_key (some request.raw_key) ≡ true)
    × SaysValid dep.world (some request.raw_key)
    × (has_pricing (some access.upstream_model) ≡ true)
    × IsProvider dep access.upstream_model access.provider
    × IsOurKey dep times state access.provider access.upstream_key
    × ((access.upstream_key == "") ≡ false)

abbrev pub OwnKey : Deployment → Request → ModelAccess → Type 0
OwnKey dep request access =
    (is_misterpilot_key (some request.raw_key) ≡ false)
    × (is_auto_model dep.routing.fold request.requested_model ≡ false)
    × (access.upstream_key ≡ request.raw_key)
    × (canonical_model dep.routing.fold request.requested_model ≡ some access.upstream_model)
    × IsProvider dep access.upstream_model access.provider

-- An access of a MisterPilot key, once the service has said that the key is valid; or one of the
-- customer's own, with that key, for a model of the table.
abbrev pub Serves : Deployment → Moments → Request → State → ModelAccess → Type 0
Serves dep times request state access =
    (access.raw_key ≡ request.raw_key)
    × (Billed dep times request state access ⊎ OwnKey dep request access)

abbrev pub Outcome :
    Deployment → Moments → Request → State → Result OpenError (Option Route × ModelAccess) → Type 0
Outcome dep times request state (raise e) = Unit
Outcome dep times request state (ok (route, access)) = Serves dep times request state access

is_deepseek-true : (p : Provider) → is_deepseek p ≡ true → p ≡ deepseek
is_deepseek-true deepseek h = refl
is_deepseek-true openai h = cc
is_deepseek-true claude h = cc

module _ (dep : Deployment) (times : Moments) (request : Request) (start : State) where
  -- The resolved DeepSeek key is ours.
  abbrev IsDeepseekKey : String → Type 0
  IsDeepseekKey key =
      IsServerKey dep.world start.secrets times.now
        (aws_secret_name dep.world.env (provider_value deepseek)) key

  Billable-Billed :
      (model key : String) (provider : Provider) (own_key : String)
      → is_misterpilot_key (some request.raw_key) ≡ true
      → SaysValid dep.world (some request.raw_key)
      → IsDeepseekKey key
      → Billable dep.serving model (some key) (ok (provider, own_key))
      → (is_misterpilot_key (some request.raw_key) ≡ true)
        × SaysValid dep.world (some request.raw_key)
        × (has_pricing (some model) ≡ true)
        × IsProvider dep model provider
        × IsOurKey dep times start provider own_key
        × ((own_key == "") ≡ false)
  Billable-Billed model key provider own_key own valid ours (priced, at, (given, inr lookup)) =
      (own, valid, priced, inl at, inr lookup, given)
  Billable-Billed model key provider own_key own valid ours (priced, at, (given, inl (is, same))) =
      let same_key : key ≡ own_key = cc in
      let is_key : IsServerKey dep.world start.secrets times.now
          (aws_secret_name dep.world.env (provider_value deepseek)) own_key =
        subst
          (λ k.
            IsServerKey dep.world start.secrets times.now
              (aws_secret_name dep.world.env (provider_value deepseek)) k)
          same_key ours in
      (
        own,
        valid,
        priced,
        inl at,
        inl (
            subst
              (λ p.
                IsServerKey dep.world start.secrets times.now
                  (aws_secret_name dep.world.env (provider_value p)) own_key)
              (sym (is_deepseek-true provider is)) is_key),
        given,
      )

  serve-Outcome :
      (state : State) (prefs : AutoPreferences) (decision : RouteDecision) (chain : List String)
      (key : String)
      → is_misterpilot_key (some request.raw_key) ≡ true
      → SaysValid dep.world (some request.raw_key)
      → IsDeepseekKey key
      → Outcome dep times request start
          (serve dep times request state prefs decision
            (first_servable dep.serving chain (some key))).1
  serve-Outcome state prefs decision chain key own valid ours =
      elim (Option-cases (first_servable dep.serving chain (some key))) [
        | inl e ↦ rw e tt
        | inr (chosen, e) ↦
            let (_, _, at) = first_servable-remaining dep.serving chain (some key) chosen e in
            let billable =
              subst (Billable dep.serving chosen.model (some key)) at
                (servable-Billable dep.serving chosen.model (some key)) in
            rw e (
              refl,
              inl (
                  Billable-Billed chosen.model key chosen.provider chosen.key own valid ours
                    billable),
            )
      ]

  choose_server-Outcome :
      (state : State) (prefs : AutoPreferences) (key : String)
      (m : Verdicts × Result ValueError RouteDecision)
      → is_misterpilot_key (some request.raw_key) ≡ true
      → SaysValid dep.world (some request.raw_key)
      → IsDeepseekKey key
      → Outcome dep times request start (choose_server dep times request state prefs key m).1
  choose_server-Outcome state prefs key (verdicts, raise e) own valid ours = tt
  choose_server-Outcome state prefs key (verdicts, ok decision) own valid ours =
      serve-Outcome (record state { verdicts = verdicts }) prefs decision
        (decision.model ∷ decision.candidates) key own valid ours

  with_preferences-Outcome :
      (state : State) (key : String) (prefs : Result BudgetError AutoPreferences)
      → is_misterpilot_key (some request.raw_key) ≡ true
      → SaysValid dep.world (some request.raw_key)
      → IsDeepseekKey key
      → Outcome dep times request start (with_preferences dep times request state key prefs).1
  with_preferences-Outcome state key (raise e) own valid ours = tt
  with_preferences-Outcome state key (ok prefs) own valid ours =
      let found = get_session state.sessions times.now (skey dep times request) in
      choose_server-Outcome (record state { sessions = found.0 }) prefs key
        (decide dep.routing state.verdicts times.now request.payload key prefs found.1) own valid
        ours

  with_key-Outcome :
      (found : SecretCache × Result KeyError String)
      → is_misterpilot_key (some request.raw_key) ≡ true
      → ((k : String)
          → found.1 ≡ ok k
          → SaysValid dep.world (some request.raw_key) × IsDeepseekKey k)
      → Outcome dep times request start (with_key dep times request start found).1
  with_key-Outcome (secrets, raise e) own h = tt
  with_key-Outcome (secrets, ok key) own h =
      let (valid, ours) = h key refl in
      with_preferences-Outcome (record start { secrets = secrets }) key
        (preferences dep times request start) own valid ours

  open_auto-Outcome :
      is_misterpilot_key (some request.raw_key) ≡ true
      → Outcome dep times request start (open_auto dep times request start).1
  unfolding open_auto
  open_auto-Outcome own =
      with_key-Outcome
        (resolve_api_key dep.world start.secrets times.now (some request.raw_key)
          (provider_value deepseek))
        own
        (λ k h.
          resolve_api_key-verified dep.world start.secrets times.now (some request.raw_key)
            (provider_value deepseek) k own h)

  -- What the policy lets through.
  abbrev Admits : Result ℕ Allowed → Type 0
  Admits (raise status) = Unit
  Admits (ok auto_route) = is_misterpilot_key (some request.raw_key) ≡ true
  Admits (ok (explicit model)) =
      (is_auto_model dep.routing.fold request.requested_model ≡ false)
      × (canonical_model dep.routing.fold request.requested_model ≡ some model)
      × ((is_misterpilot_key (some request.raw_key) ≡ false) ⊎ (has_pricing (some model) ≡ true))

  check_model-Admits :
      (model : Option String)
      → is_auto_model dep.routing.fold request.requested_model ≡ false
      → canonical_model dep.routing.fold request.requested_model ≡ model
      → Admits (check_model (is_misterpilot_key (some request.raw_key)) model)
  check_model-Admits none plain e = tt
  check_model-Admits (some model) plain e =
      elim (Bool-cases (is_misterpilot_key (some request.raw_key))) [
        | inr other ↦ rw other (plain, e, inl other)
        | inl own ↦ elim (Bool-cases (has_pricing (some model))) [
          | inl priced ↦ rw (own, priced) (plain, e, inr priced)
          | inr free ↦ rw (own, free) tt
        ]
      ]

  check_access-Admits :
      Admits (check_access dep.routing.fold request.requested_model request.raw_key)
  unfolding check_access
  check_access-Admits = elim (Bool-cases (request.raw_key == "")) [
    | inl empty ↦ rw (empty, check_access) tt
    | inr given ↦ elim (Bool-cases (is_auto_model dep.routing.fold request.requested_model)) [
      | inr plain ↦
          rw (given, check_access, plain)
            (check_model-Admits (canonical_model dep.routing.fold request.requested_model) plain
              refl)
      | inl auto ↦ elim (Bool-cases (is_misterpilot_key (some request.raw_key))) [
        | inl own ↦ rw (given, check_access, auto, own) own
        | inr other ↦ rw (given, check_access, auto, other) tt
      ]
    ]
  ]

  -- The two ways in which a key of its own, or ours, is used for a model.
  abbrev Ways : String → Provider → String → Type 0
  Ways model provider key =
      ((is_misterpilot_key (some request.raw_key) ≡ true)
        × SaysValid dep.world (some request.raw_key)
        × (has_pricing (some model) ≡ true)
        × IsProvider dep model provider
        × IsOurKey dep times start provider key
        × ((key == "") ≡ false))
      ⊎ ((is_misterpilot_key (some request.raw_key) ≡ false)
          × (is_auto_model dep.routing.fold request.requested_model ≡ false)
          × (key ≡ request.raw_key)
          × (canonical_model dep.routing.fold request.requested_model ≡ some model)
          × IsProvider dep model provider)

  explicit_access-Outcome :
      (model : String) (provider : Provider) (key : String)
      → ((key == "") ≡ false → Ways model provider key)
      → Outcome dep times request start (explicit_access request model provider key)
  explicit_access-Outcome model provider key h = elim (Bool-cases (key == "")) [
    | inl e ↦ rw e tt
    | inr e ↦ rw e (refl, h e)
  ]

  own_key-Outcome :
      (model : String) (provider : Provider) (found : SecretCache × Result KeyError String)
      → ((k : String) → found.1 ≡ ok k → (k == "") ≡ false → Ways model provider k)
      → Outcome dep times request start (resolved start request model provider found).1
  own_key-Outcome model provider (secrets, raise e) h = tt
  own_key-Outcome model provider (secrets, ok key) h =
      explicit_access-Outcome model provider key (h key refl)

  explicit-Outcome :
      (model : String) (provider : Provider)
      → Dict.get models model ≡ some provider
      → Admits (ok (explicit model))
      → Outcome dep times request start
          (resolved start request model provider (
            resolve_api_key dep.world start.secrets times.now
              (some request.raw_key)
              (provider_value provider))).1
  unfolding resolve_api_key
  explicit-Outcome model provider at (plain, named, ways) =
      elim (Bool-cases (is_misterpilot_key (some request.raw_key))) [
        | inr other ↦
            rw (other, resolve_api_key)
              (explicit_access-Outcome model provider request.raw_key
                (λ given. inr (other, plain, refl, named, inr at)))
        | inl own ↦
            let priced : has_pricing (some model) ≡ true = elim ways [
              | inl other ↦ absurd (ground (arith, own, other))
              | inr priced ↦ priced
            ] in
            own_key-Outcome model provider
              (resolve_api_key dep.world start.secrets times.now (some request.raw_key)
                (provider_value provider))
              (λ k h given.
                let (valid, ours) =
                  resolve_api_key-verified dep.world start.secrets times.now (some request.raw_key)
                    (provider_value provider) k own h in
                inl (own, valid, priced, inr at, inl ours, given))
      ]

  open_allowed-Outcome :
      (allowed : Result ℕ Allowed)
      → Admits allowed
      → Outcome dep times request start (open_allowed dep times request start allowed).1
  open_allowed-Outcome (raise status) h = tt
  open_allowed-Outcome (ok auto_route) own = open_auto-Outcome own
  open_allowed-Outcome (ok (explicit model)) h = elim (Option-cases (Dict.get models model)) [
    | inl e ↦ rw e tt
    | inr (provider, e) ↦ rw e (explicit-Outcome model provider e h)
  ]

  -- An access opens in two ways only. On a MisterPilot key: after the verification service, asked about
  -- that key, has said that it is valid, for a model with a price, with its provider, and with a key of
  -- ours for that provider, which is not empty. On the customer's own key: with that key itself, for a
  -- model of the table with its provider, and never for Auto.
  pub open_model_access-Serves :
      (after : State) (route : Option Route) (access : ModelAccess)
      → open_model_access dep times request start ≡ (after, ok (route, access))
      → Serves dep times request start access
  unfolding open_model_access
  open_model_access-Serves after route access h =
      subst (λ (o : Opened). Outcome dep times request start o.1) h
        (open_allowed-Outcome
          (check_access dep.routing.fold request.requested_model request.raw_key)
          check_access-Admits)
