-- ===== src/Access/Open/ToolStep.antt =====
-- A step of a tool loop, as `_open_auto` of backend/services/model_access.py serves it.
use mister_pilot_proxy.Prelude.{
  ◌≡◌, refl, sym, ◌∙◌, inl, inr, String, true, false, Option, some, List, ◌∷◌, ok, raise, ◌==◌,
  Option-cases, eq_iff, arith,
}
use mathlib.Core.Path.{subst}
use mister_pilot_proxy.Ttl.{TtlStore}
use mister_pilot_proxy.Session.{AutoSession, is_tool_step, get_session}
use mister_pilot_proxy.Router.{RouteDecision}
use mister_pilot_proxy.Router.Select.{IsValid}
use mister_pilot_proxy.Llm.{deepseek, provider_value}
use mister_pilot_proxy.Keys.{SecretCache, resolve_api_key}
use mister_pilot_proxy.Access.{Serving, Chosen, first_servable}
use mister_pilot_proxy.Access.Failover.{usable, first_servable-model}
use mister_pilot_proxy.Access.Preferences.{AutoPreferences}
use mister_pilot_proxy.Access.Scoring.{Verdicts}
use mister_pilot_proxy.Access.Auto.{decide}
use mister_pilot_proxy.Access.Auto.Decides.{IsScore, pinned-Decides}
use mister_pilot_proxy.Access.Warm.{pinned}
use mister_pilot_proxy.Access.Open.{
  Deployment, State, Request, Moments, Opened, skey, serve, choose_server, preferences, decided,
  open_auto,
}

-- The turn's model, score and effort, without a verdict.
abbrev pub Pinned : AutoSession → Verdicts → Opened → Type 0
Pinned session verdicts (after, raise e) = ⊥
Pinned session verdicts (after, ok (route, access)) =
    (access.upstream_model ≡ session.model)
    × (access.auto_score ≡ some session.score)
    × (access.effort ≡ session.effort)
    × (access.auto_fallback ≡ false)
    × (after.verdicts ≡ verdicts)

first_usable-head :
    (serving : Serving) (model : String) (chain : List String) (key : Option String)
    → usable serving true key model ≡ true
    → (chosen : Chosen) × (first_servable serving (model ∷ chain) key ≡ some chosen)
      × (chosen.model ≡ model)
first_usable-head serving model chain key h =
    let e = first_servable-model serving (model ∷ chain) key in
    elim (Option-cases (first_servable serving (model ∷ chain) key)) [
      | inl nobody ↦ absurd (ground (arith, nobody, e, h))
      | inr (chosen, found) ↦ (chosen, found, ground (arith, found, e, h))
    ]

module _ (dep : Deployment) (times : Moments) (request : Request) where
  serve-Pinned :
      (state : State) (prefs : AutoPreferences) (session : AutoSession) (decision : RouteDecision)
      (key : String)
      → usable dep.serving true (some key) session.model ≡ true
      → decision.score ≡ some session.score
      → decision.model ≡ session.model
      → decision.effort ≡ session.effort
      → decision.fallback ≡ false
      → Pinned session state.verdicts (
          serve dep times request state prefs decision
            (first_servable dep.serving (decision.model ∷ decision.candidates) (some key)))
  serve-Pinned state prefs session decision key up score model effort fallback =
      let (chosen, found, same) =
        first_usable-head dep.serving decision.model decision.candidates (some key)
          (subst (λ m. usable dep.serving true (some key) m ≡ true) (sym model) up) in
      let as_decided : (chosen.model == decision.model) ≡ true =
        (eq_iff chosen.model decision.model).1 same in
      rw found (same ∙ model, score, effort, rw (fallback, as_decided) refl, refl)

  choose_server-Pinned :
      (state : State) (prefs : AutoPreferences) (session : AutoSession) (key : String)
      → IsValid dep.routing.router
      → IsScore (some session.score)
      → usable dep.serving true (some key) session.model ≡ true
      → Pinned session state.verdicts (
          choose_server dep times request state prefs key
            (state.verdicts, pinned dep.routing.router session))
  choose_server-Pinned state prefs session key valid on up =
      let (d, made, score, model, effort, fallback) =
        pinned-Decides dep.routing.router session valid on in
      rw made (serve-Pinned state prefs session d key up score model effort fallback)

  decided-Pinned :
      (state : State) (prefs : AutoPreferences) (session : AutoSession)
      (sessions : TtlStore AutoSession) (key : String)
      → is_tool_step request.payload ≡ true
      → IsValid dep.routing.router
      → IsScore (some session.score)
      → usable dep.serving true (some key) session.model ≡ true
      → Pinned session state.verdicts
          (decided dep times request state prefs key (sessions, some session))
  unfolding decide
  decided-Pinned state prefs session sessions key step valid on up =
      rw (step, decide)
        (choose_server-Pinned (record state { sessions = sessions }) prefs session key valid on up)

  -- A step of a tool loop whose chat is remembered, with the turn's model up and servable, and with
  -- preferences that can be read, opens with that model, at the turn's score and effort, not as a
  -- fallback, and without a verdict: the cache of verdicts is as it was, whatever the AI would answer.
  pub open_auto-Pinned :
      (state : State) (secrets : SecretCache) (sessions : TtlStore AutoSession)
      (session : AutoSession) (prefs : AutoPreferences) (key : String)
      → is_tool_step request.payload ≡ true
      → IsValid dep.routing.router
      → IsScore (some session.score)
      → resolve_api_key dep.world state.secrets times.now
          (some request.raw_key)
          (provider_value deepseek)
        ≡ (secrets, ok key)
      → preferences dep times request state ≡ ok prefs
      → get_session state.sessions times.now (skey dep times request) ≡ (sessions, some session)
      → usable dep.serving true (some key) session.model ≡ true
      → Pinned session state.verdicts (open_auto dep times request state)
  unfolding open_auto
  open_auto-Pinned state secrets sessions session prefs key step valid on resolved read remembered
        up =
      let found : Pinned session state.verdicts (
          decided dep times request (record state { secrets = secrets }) prefs key
            (get_session state.sessions times.now (skey dep times request))) =
        rw remembered (
          decided-Pinned (record state { secrets = secrets }) prefs session sessions key step valid
            on up) in
      rw (resolved, open_auto) (rw read found)
