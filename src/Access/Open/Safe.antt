-- ===== src/Access/Open/Safe.antt =====
-- What opening an access leaves of the stores of backend/services/model_access.py.
use mister_pilot_proxy.Prelude.{
  ℕ, String, Option, none, some, ◌∷◌, Result, ok, raise, ◌==◌, Bool-cases, Option-cases, inl, inr,
}
use mister_pilot_proxy.Dict
use mister_pilot_proxy.Ttl
use mister_pilot_proxy.Ttl.{TtlStore}
use mister_pilot_proxy.Ttl.Kept.{Kept, Finds, get-Finds, put-Kept}
use mister_pilot_proxy.Session.{AutoSession, get_session, save_route}
use mister_pilot_proxy.Router.{RouteDecision, ValueError}
use mister_pilot_proxy.Router.Select.{IsValid}
use mister_pilot_proxy.Llm.{Provider, deepseek, models, provider_value}
use mister_pilot_proxy.Keys.{SecretCache, KeyError, http_error, aws_error, resolve_api_key}
use mister_pilot_proxy.Access.{first_servable, Chosen, Allowed, auto_route, explicit, check_access}
use mister_pilot_proxy.Access.Preferences.{AutoPreferences, BudgetError}
use mister_pilot_proxy.Access.Scoring.{Scorer, Verdicts}
use mister_pilot_proxy.Access.Scoring.Sound.{IsSound, Tells}
use mister_pilot_proxy.Access.Auto.{decide}
use mister_pilot_proxy.Access.Auto.Decides.{IsScore, Decides, HasScore, Settles, decide-Settles}
use mister_pilot_proxy.Access.Next.{ModelAccess}
use mister_pilot_proxy.Access.Open.{
  Deployment, State, Request, Moments, OpenError, http, broken_table, aws_failed, bad_budget,
  unresolved, with_preferences, Route, Opened, saved, skey, serve, choose_server, preferences,
  decided, with_key, open_auto, resolved, open_allowed, open_model_access,
}

abbrev pub AtScore : String → AutoSession → Type 0
AtScore key session = IsScore (some session.score)

-- The remembered routes are at scores of the scale, and the verdicts are sound.
abbrev pub IsSafe : Scorer → State → Type 0
IsSafe scorer state = Kept AtScore state.sessions × IsSound scorer state.verdicts

-- No error is that of a score without a tier, or of a table; an access has a score of the scale or
-- none.
abbrev pub Expected : Result OpenError (Option Route × ModelAccess) → Type 0
Expected (raise (http status)) = Unit
Expected (raise (broken_table e)) = Decides (raise e)
Expected (raise aws_failed) = Unit
Expected (raise (bad_budget e)) = Unit
Expected (ok (route, access)) = IsScore access.auto_score

abbrev pub Safe : Scorer → Opened → Type 0
Safe scorer (state, outcome) = IsSafe scorer state × Expected outcome

saved-Kept :
    (sessions : TtlStore AutoSession) (now : ℕ) (key : Option String) (decision : RouteDecision)
    (score : Option ℕ) (model : String) (turns : ℕ)
    → Kept AtScore sessions
    → IsScore score
    → Kept AtScore (saved sessions now key decision score model turns)
unfolding save_route
saved-Kept sessions now none decision score model turns h s = h
saved-Kept sessions now (some key) decision none model turns h s = h
saved-Kept sessions now (some key) decision (some score) model turns h s =
    put-Kept AtScore sessions now key _ s h

module _ (dep : Deployment) (times : Moments) (request : Request) where
  abbrev scorer : Scorer
  scorer = dep.routing.scorer

  serve-Safe :
      (state : State) (prefs : AutoPreferences) (decision : RouteDecision) (chosen : Option Chosen)
      → IsSafe scorer state
      → IsScore decision.score
      → Safe scorer (serve dep times request state prefs decision chosen)
  serve-Safe state prefs decision none h s = (h, tt)
  serve-Safe state prefs decision (some chosen) (kept, sound) s = (
    (saved-Kept state.sessions times.later _ decision decision.score chosen.model _ kept s, sound),
    s,
  )

  choose_server-Safe :
      (state : State) (prefs : AutoPreferences) (key : String)
      (m : Verdicts × Result ValueError RouteDecision)
      → IsSafe scorer state
      → Settles dep.routing m
      → Safe scorer (choose_server dep times request state prefs key m)
  choose_server-Safe state prefs key (verdicts, raise e) (kept, _) (sound, d) = ((kept, sound), d)
  choose_server-Safe state prefs key (verdicts, ok decision) (kept, _) (sound, s) =
      serve-Safe (record state { verdicts = verdicts }) prefs decision
        (first_servable dep.serving (decision.model ∷ decision.candidates) (some key)) (kept, sound)
        s

  Finds-HasScore :
      (key : String) (found : TtlStore AutoSession × Option AutoSession)
      → Finds AtScore key found
      → Kept AtScore found.0 × HasScore dep.routing found.1
  Finds-HasScore key (sessions, none) h = (h, tt)
  Finds-HasScore key (sessions, some session) h = h

  get_session-Kept :
      (sessions : TtlStore AutoSession) (now : ℕ) (key : Option String)
      → Kept AtScore sessions
      → Kept AtScore (get_session sessions now key).0
        × HasScore dep.routing (get_session sessions now key).1
  unfolding get_session Ttl.get
  get_session-Kept sessions now none h = (h, tt)
  get_session-Kept sessions now (some key) h =
      Finds-HasScore key (Ttl.get sessions now (some key)) (get-Finds AtScore sessions now key h)

  decided-Safe :
      (state : State) (prefs : AutoPreferences) (key : String)
      (found : TtlStore AutoSession × Option AutoSession)
      → Tells scorer state.verdicts request.payload
      → IsValid dep.routing.router
      → IsSound scorer state.verdicts
      → Kept AtScore found.0 × HasScore dep.routing found.1
      → Safe scorer (decided dep times request state prefs key found)
  decided-Safe state prefs key (sessions, session) apart valid sound (kept, has) =
      choose_server-Safe (record state { sessions = sessions }) prefs key
        (decide dep.routing state.verdicts times.now request.payload key prefs session)
        (kept, sound)
        (decide-Settles dep.routing state.verdicts times.now request.payload key prefs session apart
          valid sound has)

  with_preferences-Safe :
      (state : State) (key : String) (prefs : Result BudgetError AutoPreferences)
      → Tells scorer state.verdicts request.payload
      → IsValid dep.routing.router
      → IsSafe scorer state
      → Safe scorer (with_preferences dep times request state key prefs)
  with_preferences-Safe state key (raise e) apart valid h = (h, tt)
  with_preferences-Safe state key (ok prefs) apart valid (kept, sound) =
      decided-Safe state prefs key (get_session state.sessions times.now (skey dep times request))
        apart valid sound (get_session-Kept state.sessions times.now (skey dep times request) kept)

  unresolved-Expected : (e : KeyError) → Expected (raise (unresolved e))
  unresolved-Expected (http_error status) = tt
  unresolved-Expected aws_error = tt

  with_key-Safe :
      (state : State) (found : SecretCache × Result KeyError String)
      → Tells scorer state.verdicts request.payload
      → IsValid dep.routing.router
      → IsSafe scorer state
      → Safe scorer (with_key dep times request state found)
  with_key-Safe state (secrets, raise e) apart valid h = (h, unresolved-Expected e)
  with_key-Safe state (secrets, ok key) apart valid h =
      with_preferences-Safe (record state { secrets = secrets }) key
        (preferences dep times request state) apart valid h

  explicit-Safe :
      (state : State) (model : String) (provider : Provider)
      (found : SecretCache × Result KeyError String)
      → IsSafe scorer state
      → Safe scorer (resolved state request model provider found)
  explicit-Safe state model provider (secrets, raise e) h = (h, unresolved-Expected e)
  explicit-Safe state model provider (secrets, ok key) h = elim (Bool-cases (key == "")) [
    | inl e ↦ rw e (h, tt)
    | inr e ↦ rw e (h, tt)
  ]

  open_allowed-Safe :
      (state : State) (allowed : Result ℕ Allowed)
      → Tells scorer state.verdicts request.payload
      → IsValid dep.routing.router
      → IsSafe scorer state
      → Safe scorer (open_allowed dep times request state allowed)
  unfolding open_auto
  open_allowed-Safe state (raise status) apart valid h = (h, tt)
  open_allowed-Safe state (ok auto_route) apart valid h =
      with_key-Safe state
        (resolve_api_key dep.world state.secrets times.now (some request.raw_key)
          (provider_value deepseek))
        apart valid h
  open_allowed-Safe state (ok (explicit model)) apart valid h =
      elim (Option-cases (Dict.get models model)) [
        | inl e ↦ rw e (h, tt)
        | inr (provider, e) ↦ rw e (
            explicit-Safe state model provider
              (resolve_api_key dep.world state.secrets times.now (some request.raw_key)
                (provider_value provider))
              h)
      ]

  -- A state is safe where the remembered routes are at scores of the scale and the verdicts are sound.
  -- With a router that its constructor accepts, and a digest that tells the verdict kept under the
  -- payload's key, should there be one, from the payload's score: a safe state stays so, whatever is
  -- asked for and whatever the services answer; a score always finds its tier, so that of the router's
  -- errors only that of an effort which is no level is left; and an access that opens has a score of
  -- the scale, or none.
  pub open_model_access-Safe :
      (state : State)
      → Tells dep.routing.scorer state.verdicts request.payload
      → IsValid dep.routing.router
      → IsSafe dep.routing.scorer state
      → Safe dep.routing.scorer (open_model_access dep times request state)
  unfolding open_model_access
  open_model_access-Safe state apart valid h =
      open_allowed-Safe state
        (check_access dep.routing.fold request.requested_model request.raw_key) apart valid h
