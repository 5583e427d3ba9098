-- ===== src/Tests/Access.antt =====
-- The policy and the failover of backend/services/model_access.py.
use mister_pilot_proxy.Prelude.{
  ◌≡◌, ◌≢◌, refl, String, true, false, not, none, some, [], ◌∷◌, arith, ◌==◌, eq_iff, contains,
}
use mister_pilot_proxy.Dict
use mister_pilot_proxy.Llm.{openai, canonical_model, provider_for}
use mister_pilot_proxy.Cost.{has_pricing}
use mister_pilot_proxy.Access.{
  is_auto_model, Serving, available_models, servable, pass, first_servable,
}
use mister_pilot_proxy.Router.{Tier, AutoRouter, RouteDecision, invalid_score}
use mister_pilot_proxy.Session.{AutoSession, save_route}
use mister_pilot_proxy.Access.Warm.{WarmConfig, cache_aware}
use mister_pilot_proxy.Access.Upgrades.{Keeps, cache_aware-Stayed}
use mister_pilot_proxy.Keys.{misterpilot}
use mister_pilot_proxy.Ttl.{TtlStore, put, put_key, trim}
use mister_pilot_proxy.Ttl.Store.{IsValid}
use mister_pilot_proxy.Access.Next.{ModelAccess, is_auto, next_auto_access}
use mister_pilot_proxy.Access.Moves.{Moved, next_auto_access-Moved}
use mister_pilot_proxy.Access.Policy.{is_allowed, available_models_iff}
use mister_pilot_proxy.Access.Failover.{model_of, first_usable, first_servable-model}

abbrev keep : String → String
keep model = model

some_key : ◌≢◌ {A = String} "mp-349" ""
some_key e = ground (arith, eq_iff "mp-349" "", e)

available_models_iff_example :
    contains (available_models "mp-349") "gpt-5.5" ≡ is_allowed keep "gpt-5.5" "mp-349"
available_models_iff_example = available_models_iff keep "mp-349" "gpt-5.5" some_key refl

-- The breaker of gpt-5.5 is open.
abbrev serving : Serving
serving = record {
  fold = keep;
  server_key = λ provider. some "sk-ours";
  is_available = λ model. not (model == "gpt-5.5");
}

first_servable-model_example :
    model_of (first_servable serving ("gpt-5.5" ∷ "gpt-5.4" ∷ []) none)
    ≡ elim (first_usable serving true none ("gpt-5.5" ∷ "gpt-5.4" ∷ [])) [
      | none ↦ first_usable serving false none ("gpt-5.5" ∷ "gpt-5.4" ∷ [])
      | some model ↦ some model
    ]
first_servable-model_example = first_servable-model serving ("gpt-5.5" ∷ "gpt-5.4" ∷ []) none

-- A chat on gpt-5.5 whose next turn is scored for gpt-5.4-mini.
abbrev small : Tier
small = record { low = 1; high = 10; model = "gpt-5.4-mini"; alternates = []; efforts = [] }

abbrev large : Tier
large = record { low = 11; high = 20; model = "gpt-5.5"; alternates = []; efforts = [] }

abbrev router : AutoRouter
router = record { fallback_model = "gpt-5.4"; tiers = small ∷ large ∷ [] }

abbrev session : AutoSession
session = record { model = "gpt-5.5"; score = 15; effort = some "high"; user_turns = 1 }

abbrev decision : RouteDecision
decision = record {
  model = "gpt-5.4-mini";
  score = some 5;
  fallback = false;
  reason = invalid_score;
  effort = none;
  candidates = [];
}

abbrev config : WarmConfig
config = record { switch_horizon_turns = 3; expected_output_tokens = 1500 }

cache_aware-Stayed_example :
    Keeps router config decision session 90000 none
      (cache_aware keep router config decision session 90000 none)
cache_aware-Stayed_example = cache_aware-Stayed router config decision session 90000 none keep

-- A request that gpt-5.5 failed, with gpt-5.4 and gpt-5.4-mini to go to.
abbrev access : ModelAccess
access = record {
  requested_model = "misterpilot-auto";
  upstream_model = "gpt-5.5";
  provider = openai;
  raw_key = "mp-349";
  key_type = misterpilot;
  upstream_key = "sk-ours";
  auto_score = some 15;
  auto_route = [];
  auto_fallback = false;
  effort = some "high";
  fallback_models = "gpt-5.4" ∷ "gpt-5.4-mini" ∷ [];
  session_key = some "chat";
  user_turns = 2;
}

abbrev next : ModelAccess
next = record access {
  upstream_model = "gpt-5.4";
  auto_route = "gpt-5.5" ∷ [];
  auto_fallback = true;
  fallback_models = "gpt-5.4-mini" ∷ [];
}

abbrev no_sessions : TtlStore AutoSession
no_sessions = record { items = []; max_items = 100; ttl = 3600 }

abbrev one_session : TtlStore AutoSession
one_session = record no_sessions {
  items =
      ("chat", (5, record { model = "gpt-5.4"; score = 15; effort = some "high"; user_turns = 2 }))
      ∷ [];
}

no_sessions-IsValid : IsValid no_sessions
no_sessions-IsValid = record { bounded = omega arith; distinct = tt }

failed_over : next_auto_access serving no_sessions 5 access ≡ (one_session, some next)
unfolding next_auto_access is_auto is_auto_model first_servable pass servable provider_for
    canonical_model has_pricing Dict.get save_route put put_key trim Dict.put Dict.pop
failed_over = refl

next_auto_access-Moved_example : Moved serving no_sessions 5 60 access "chat" 15 one_session next
next_auto_access-Moved_example =
    next_auto_access-Moved serving no_sessions 5 60 access "chat" 15 one_session next
      no_sessions-IsValid (omega arith) refl refl failed_over
