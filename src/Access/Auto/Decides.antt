-- ===== src/Access/Auto/Decides.antt =====
-- The decision of `_open_auto` of backend/services/model_access.py: with a router that the constructor
-- accepts, it is always made.
use mister_pilot_proxy.Prelude.{
  ℕ, ◌≤◌, ◌≡◌, refl, sym, inl, inr, String, Bool, true, false, not, ◌||◌, Option, none, some,
  Option-cases, Result, ok, raise,
}
use mathlib.Core.Path.{subst}
use mister_pilot_proxy.Json.{Json}
use mister_pilot_proxy.Router.{
  min_score, max_score, AutoRouter, RouteDecision, ValueError, effort_unlisted, ScoreValue,
  validate_score, select_model, tier_index,
}
use mister_pilot_proxy.Router.Select.{
  IsValid, validate_score_range, select_model_scored, select_model_invalid,
}
use mister_pilot_proxy.Router.Lookup.{found}
use mister_pilot_proxy.Session.{AutoSession, is_tool_step}
use mister_pilot_proxy.Floors.{RaiseNote, estimate_context_tokens}
use mister_pilot_proxy.Access.Warm.{WarmConfig, pinned}
use mister_pilot_proxy.Access.Upgrades.{Keeps, cache_aware-Stayed}
use mister_pilot_proxy.Access.Preferences.{AutoPreferences}
use mister_pilot_proxy.Access.Scoring.{Verdicts, auto_score}
use mister_pilot_proxy.Access.Scoring.Sound.{IsSound, Tells, auto_score-Gives, Gives, Lost}
use mister_pilot_proxy.Complexity.{ComplexityScore}
use mister_pilot_proxy.Verifier.{VerifiedScore}
use mister_pilot_proxy.Access.Auto.{
  Routing, side_job, score_value, noted, warmed, routed, rescored, pinned_or, decide,
}

-- No score, or one of the scale.
abbrev pub IsScore : Option ℕ → Type 0
IsScore none = Unit
IsScore (some score) = (min_score ≤ score) × (score ≤ max_score)

-- A decision for no score or one of the scale, or an effort that is no level.
abbrev pub Decides : Result ValueError RouteDecision → Type 0
Decides (ok d) = IsScore d.score
Decides (raise (effort_unlisted e)) = Unit
Decides (raise _) = ⊥

select_model-IsScore :
    (router : AutoRouter) (value : ScoreValue) (prefs : AutoPreferences)
    → IsValid router
    → (d : RouteDecision) × (select_model router value prefs.shift prefs.max_model ≡ ok d)
      × IsScore d.score
select_model-IsScore router value prefs valid = elim (Option-cases (validate_score value)) [
  | inl e ↦
      let (d, made, _, scored, _, _, _) =
        select_model_invalid router valid value prefs.shift prefs.max_model e in
      (d, made, subst IsScore (sym scored) tt)
  | inr (score, e) ↦
      let (d, made, r) =
        select_model_scored router valid value prefs.shift prefs.max_model score e in
      (d, made, subst IsScore (sym r.scored) (validate_score_range value score e))
]

noted-score : (raised : Option RaiseNote) (d : RouteDecision) → (noted raised d).score ≡ d.score
noted-score none d = refl
noted-score (some note) d = refl

Keeps-Decides :
    (router : AutoRouter) (cfg : WarmConfig) (d : RouteDecision) (session : AutoSession)
    (context_tokens : ℕ) (max_model : Option String) (m : Result ValueError RouteDecision)
    → IsScore d.score
    → Keeps router cfg d session context_tokens max_model m
    → Decides m
Keeps-Decides router cfg d session context_tokens max_model (ok e) on (same, _) =
    subst IsScore (sym same) on
Keeps-Decides router cfg d session context_tokens max_model (raise e) on (a, b, _, _, inl (is, _)) =
    subst (λ x. Decides (raise x)) (sym is) tt
Keeps-Decides router cfg d session context_tokens max_model (raise e) on (a, b, _, _, inr (is, _)) =
    subst (λ x. Decides (raise x)) (sym is) tt

warmed-Decides :
    (routing : Routing) (payload : Json) (prefs : AutoPreferences) (session : Option AutoSession)
    (d : RouteDecision)
    → IsScore d.score
    → Decides (warmed routing payload prefs session d)
warmed-Decides routing payload prefs none d on = on
warmed-Decides routing payload prefs (some session) d on =
    let tokens = estimate_context_tokens routing.json_length payload in
    Keeps-Decides routing.router routing.warm d session tokens prefs.max_model _ on
      (cache_aware-Stayed routing.router routing.warm d session tokens prefs.max_model routing.fold)

pub pinned-Decides :
    (router : AutoRouter) (session : AutoSession)
    → IsValid router
    → IsScore (some session.score)
    → (d : RouteDecision) × (pinned router session ≡ ok d)
      × (d.score ≡ some session.score)
      × (d.model ≡ session.model)
      × (d.effort ≡ session.effort)
      × (d.fallback ≡ false)
unfolding pinned
pinned-Decides router session valid (lo, hi) =
    elim (Option-cases (tier_index router.tiers session.model)) [
      | inr (i, e) ↦ rw (e, pinned) (_, refl, refl, refl, refl, refl)
      | inl e ↦
          let f = found min_score router.tiers session.score valid.covers lo hi in
          rw (e, pinned, f.search) (_, refl, refl, refl, refl, refl)
    ]

module _ (routing : Routing) where
  routed-Decides :
      (payload : Json) (prefs : AutoPreferences) (session : Option AutoSession)
      (floors : Option ℕ × Option RaiseNote)
      → IsValid routing.router
      → Decides (routed routing payload prefs session floors)
  routed-Decides payload prefs session (score, raised) valid =
      let (d, made, on) = select_model-IsScore routing.router (score_value score) prefs valid in
      rw made (
        warmed-Decides routing payload prefs session (noted raised d)
          (subst IsScore (sym (noted-score raised d)) on))

  abbrev pub HasScore : Option AutoSession → Type 0
  HasScore none = Unit
  HasScore (some session) = IsScore (some session.score)

  -- The store stays sound, and a decision is made.
  abbrev pub Settles : Verdicts × Result ValueError RouteDecision → Type 0
  Settles (verdicts, m) = IsSound routing.scorer verdicts × Decides m

  Gives-IsSound :
      (L : Type 0) (c : ComplexityScore) (scored : Verdicts × Option VerifiedScore)
      → Gives routing.scorer L c scored
      → IsSound routing.scorer scored.0
  Gives-IsSound L c (verdicts, none) g = g.0
  Gives-IsSound L c (verdicts, some v) g = g.0

  pinned_or-Settles :
      (m : Verdicts × Result ValueError RouteDecision) (verdicts : Verdicts) (tool_step : Bool)
      (session : Option AutoSession)
      → IsValid routing.router
      → IsSound routing.scorer verdicts
      → HasScore session
      → Settles m
      → Settles (pinned_or routing m verdicts tool_step session)
  pinned_or-Settles m verdicts false session valid sound has h = h
  pinned_or-Settles m verdicts true none valid sound has h = h
  pinned_or-Settles m verdicts true (some session) valid sound has h =
      let (d, made, scored, _, _, _) = pinned-Decides routing.router session valid has in
      (sound, subst Decides (sym made) (subst IsScore (sym scored) has))

  -- With a router that the constructor accepts, and a session at a score of the scale, a score always
  -- finds its tier, and a decision is for no score or one of the scale.
  pub decide-Settles :
      (verdicts : Verdicts) (now : ℕ) (payload : Json) (deepseek_key : String)
      (prefs : AutoPreferences) (session : Option AutoSession)
      → Tells routing.scorer verdicts payload
      → IsValid routing.router
      → IsSound routing.scorer verdicts
      → HasScore session
      → Settles (decide routing verdicts now payload deepseek_key prefs session)
  unfolding decide rescored
  decide-Settles verdicts now payload deepseek_key prefs session apart valid sound has =
      let verify = not (is_tool_step payload || side_job payload) in
      let (c, e, g) =
        auto_score-Gives routing.scorer routing.check verdicts now payload (some deepseek_key)
          (some routing.router) verify apart sound in
      let kept =
        Gives-IsSound
          ((verify ≡ true)
            × Lost routing.scorer routing.check c (some deepseek_key) (some routing.router))
          c
          (auto_score routing.scorer routing.check verdicts now payload (some deepseek_key)
            (some routing.router) verify)
          g in
      pinned_or-Settles (rescored routing verdicts now payload deepseek_key prefs session) verdicts
        (is_tool_step payload) session valid sound has
        (kept, routed-Decides payload prefs session _ valid)
