-- ===== src/Access/Open.antt =====
-- `open_model_access` and `_open_auto` of backend/services/model_access.py: a request's key is resolved,
-- its model chosen, and its access made. The provider's client and log lines are left out, and so is
-- the route's text, but for what it is made of. Nothing else runs between the start of a request and
-- the time at which its route is saved.
pub mod Safe
pub mod Serves
pub mod ToolStep
use mister_pilot_proxy.Prelude.{
  ℕ, String, Bool, true, false, not, ◌||◌, Option, none, some, List, [], ◌∷◌, ◌==◌, if◌then◌else◌,
  Result, ok, raise,
}
use mister_pilot_proxy.Json.{Json}
use mister_pilot_proxy.Ttl.{TtlStore}
use mister_pilot_proxy.Session.{
  AutoSession, Spend, get_session, save_route, spent_today_usd, user_turns,
}
use mister_pilot_proxy.Router.{Reason, RouteDecision, ValueError}
use mister_pilot_proxy.Llm.{Provider, deepseek, provider_value, models}
use mister_pilot_proxy.Dict
use mister_pilot_proxy.Keys.{
  World, SecretCache, KeyError, http_error, aws_error, KeyType, misterpilot, key_type,
  resolve_api_key,
}
use mister_pilot_proxy.Access.{
  Serving, Chosen, first_servable, Allowed, auto_route, explicit, check_access,
}
use mister_pilot_proxy.Access.Preferences.{
  Texts, AutoModes, AutoPreferences, BudgetError, BudgetNote, auto_preferences,
}
use mister_pilot_proxy.Access.Scoring.{Verdicts}
use mister_pilot_proxy.Access.Auto.{Routing, session_of, decide}
use mister_pilot_proxy.Access.Next.{ModelAccess}

pub record Deployment : Type 0 where
  pub routing : Routing
  pub texts : Texts
  pub modes : AutoModes
  pub inr_rate : ℕ
  pub world : World
  pub serving : Serving

-- The module's stores, and those of the services it calls.
pub record State : Type 0 where
  pub secrets : SecretCache
  pub sessions : TtlStore AutoSession
  pub verdicts : Verdicts
  pub spend : Spend

pub record Request : Type 0 where
  pub requested_model : String
  pub raw_key : String
  pub payload : Json
  pub headers : List (String × String)

-- The day of a request, and the seconds at which it starts and at which its route is saved.
pub record Moments : Type 0 where
  pub day : ℕ
  pub now : ℕ
  pub later : ℕ

-- An HTTPException by its status; or what the code does not catch: a ValueError of the router, an
-- error of AWS in the resolving of a key, or that of a budget.
pub data OpenError : Type 0 where
  http : ℕ → OpenError
  broken_table : ValueError → OpenError
  aws_failed : OpenError
  bad_budget : BudgetError → OpenError

abbrev pub unresolved : KeyError → OpenError
unresolved (http_error status) = http status
unresolved aws_error = aws_failed

-- What the text of a route is made of: the decision's reason, the model of the decision where
-- another one serves, and the note on the budget.
pub record Route : Type 0 where
  pub reason : Reason
  pub instead_of : Option String
  pub note : BudgetNote

abbrev pub Opened : Type 0
Opened = State × Result OpenError (Option Route × ModelAccess)

-- `skey is not None and decision.score is not None`
abbrev pub saved :
    TtlStore AutoSession
    → ℕ
    → Option String
    → RouteDecision
    → Option ℕ
    → String
    → ℕ
    → TtlStore AutoSession
saved sessions now none decision score model turns = sessions
saved sessions now (some key) decision none model turns = sessions
saved sessions now (some key) decision (some score) model turns =
    save_route sessions now (some key)
      (record { model = model; score = score; effort = decision.effort; user_turns = turns })

module _ (dep : Deployment) (times : Moments) (request : Request) where
  abbrev pub skey : Option String
  skey = session_of dep.routing.digests request.raw_key request.payload

  abbrev pub made : RouteDecision → Chosen → ModelAccess
  made decision chosen = record {
    requested_model = request.requested_model;
    upstream_model = chosen.model;
    provider = chosen.provider;
    raw_key = request.raw_key;
    key_type = misterpilot;
    upstream_key = chosen.key;
    auto_score = decision.score;
    auto_route = [];
    auto_fallback = decision.fallback || not (chosen.model == decision.model);
    effort = decision.effort;
    fallback_models = chosen.remaining;
    session_key = skey;
    user_turns = user_turns request.payload;
  }

  abbrev pub serve : State → AutoPreferences → RouteDecision → Option Chosen → Opened
  serve state prefs decision none = (state, raise (http 503))
  serve state prefs decision (some chosen) = (
    record state {
      sessions =
          saved state.sessions times.later skey decision decision.score chosen.model
            (user_turns request.payload);
    },
    ok (
      some (record {
        reason = decision.reason;
        instead_of = if chosen.model == decision.model then none else some decision.model;
        note = prefs.note;
      }),
      made decision chosen,
    ),
  )

  abbrev pub choose_server :
      State → AutoPreferences → String → Verdicts × Result ValueError RouteDecision → Opened
  choose_server state prefs deepseek_key (verdicts, raise e) =
      (record state { verdicts = verdicts }, raise (broken_table e))
  choose_server state prefs deepseek_key (verdicts, ok decision) =
      serve (record state { verdicts = verdicts }) prefs decision
        (first_servable dep.serving (decision.model ∷ decision.candidates) (some deepseek_key))

  -- The preferences, with the spend of the day.
  unfoldable pub preferences : State → Result BudgetError AutoPreferences
  preferences state =
      auto_preferences dep.texts dep.modes dep.routing.router request.requested_model
        request.payload request.headers
        (spent_today_usd state.spend (dep.routing.digests.tenant_of request.raw_key) times.day)
        dep.inr_rate

  abbrev pub decided :
      State → AutoPreferences → String → TtlStore AutoSession × Option AutoSession → Opened
  decided state prefs deepseek_key (sessions, session) =
      choose_server (record state { sessions = sessions }) prefs deepseek_key
        (decide dep.routing state.verdicts times.now request.payload deepseek_key prefs session)

  abbrev pub with_preferences : State → String → Result BudgetError AutoPreferences → Opened
  with_preferences state deepseek_key (raise e) = (state, raise (bad_budget e))
  with_preferences state deepseek_key (ok prefs) =
      decided state prefs deepseek_key (get_session state.sessions times.now skey)

  abbrev pub with_key : State → SecretCache × Result KeyError String → Opened
  with_key state (secrets, raise e) = (record state { secrets = secrets }, raise (unresolved e))
  with_key state (secrets, ok deepseek_key) =
      with_preferences (record state { secrets = secrets }) deepseek_key (preferences state)

  unfoldable pub open_auto : State → Opened
  unfolding preferences
  open_auto state = with_key state (
      resolve_api_key dep.world state.secrets times.now (some request.raw_key)
        (provider_value deepseek))

-- An empty key for the provider is no key.
abbrev pub explicit_access :
    Request → String → Provider → String → Result OpenError (Option Route × ModelAccess)
explicit_access request model provider upstream_key =
    if upstream_key == ""
    then raise (http 401)
    else ok (
      none,
      record {
        requested_model = request.requested_model;
        upstream_model = model;
        provider = provider;
        raw_key = request.raw_key;
        key_type = key_type (some request.raw_key);
        upstream_key = upstream_key;
        auto_score = none;
        auto_route = [];
        auto_fallback = false;
        effort = none;
        fallback_models = [];
        session_key = none;
        user_turns = 0;
      },
    )

abbrev pub resolved :
    State → Request → String → Provider → SecretCache × Result KeyError String → Opened
resolved state request model provider (secrets, raise e) =
    (record state { secrets = secrets }, raise (unresolved e))
resolved state request model provider (secrets, ok upstream_key) =
    (record state { secrets = secrets }, explicit_access request model provider upstream_key)

-- `MODELS[upstream_model]`: a canonical model has a provider, so `none` stands for a KeyError that
-- does not occur.
abbrev pub open_explicit : World → State → ℕ → Request → String → Option Provider → Opened
open_explicit world state now request model none = (state, raise (http 500))
open_explicit world state now request model (some provider) =
    resolved state request model provider
      (resolve_api_key world state.secrets now (some request.raw_key) (provider_value provider))

abbrev pub open_allowed : Deployment → Moments → Request → State → Result ℕ Allowed → Opened
open_allowed dep times request state (raise status) = (state, raise (http status))
open_allowed dep times request state (ok auto_route) = open_auto dep times request state
open_allowed dep times request state (ok (explicit model)) =
    open_explicit dep.world state times.now request model (Dict.get models model)

unfoldable pub open_model_access : Deployment → Moments → Request → State → Opened
unfolding open_auto
open_model_access dep times request state =
    open_allowed dep times request state
      (check_access dep.routing.fold request.requested_model request.raw_key)
