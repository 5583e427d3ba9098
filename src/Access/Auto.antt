-- ===== src/Access/Auto.antt =====
-- The decision of `_open_auto` of backend/services/model_access.py, 521 to 554: which model the route
-- of a request names. The deployment is an argument; log lines are left out.
pub mod Decides
use Prim.Native.String.{◌++◌}
use mister_pilot_proxy.Prelude.{
  ℕ, ◌-◌, String, Bool, true, false, not, ◌&&◌, ◌||◌, Option, none, some, if◌then◌else◌, Result, ok,
  raise, ◌>>=◌,
}
use mister_pilot_proxy.Prelude.Int.{ℤ, pos}
use mister_pilot_proxy.Prelude.Decimal.{decimal}
use mister_pilot_proxy.Json.{Json, get_field, truthy}
use mister_pilot_proxy.Ttl.{TtlStore}
use mister_pilot_proxy.Session.{AutoSession, Digests, is_tool_step, session_key, user_turns}
use mister_pilot_proxy.Floors.{
  FloorConfig, FloorName, history, sticky, long_context, RaiseNote, Scoring, context_floors, apply,
  session_sticky_floor, estimate_context_tokens,
}
use mister_pilot_proxy.Router.{
  AutoRouter, RouteDecision, ValueError, ScoreValue, none_value, int_value, raised_by_floor,
  select_model,
}
use mister_pilot_proxy.Verifier.{VerifiedScore}
use mister_pilot_proxy.Access.Warm.{WarmConfig, pinned, cache_aware}
use mister_pilot_proxy.Access.Preferences.{AutoPreferences}
use mister_pilot_proxy.Access.Scoring.{CheckConfig, Scorer, Verdicts, auto_score}

-- What deciding runs with.
pub record Routing : Type 0 where
  pub fold : String → String
  pub router : AutoRouter
  pub warm : WarmConfig
  pub floors : FloorConfig
  pub scoring : Scoring
  pub json_length : Option Json → ℕ
  pub digests : Digests
  pub scorer : Scorer
  pub check : CheckConfig

abbrev floor_text : FloorName → String
floor_text history = "history"
floor_text sticky = "sticky"
floor_text long_context = "long_context"

abbrev from_text : Option ℕ → String
from_text none = "invalid"
from_text (some score) = decimal score

-- The note of `ContextFloors.apply`.
unfoldable pub raise_text : RaiseNote → String
raise_text note =
    "raised "
    ++ (from_text note.from
        ++ ("->" ++ (decimal note.to ++ (" by " ++ (floor_text note.by ++ " floor")))))

unfoldable pub side_job : Json → Bool
side_job payload =
    not (truthy (get_field payload "stream")) && not (truthy (get_field payload "tools"))

-- A side job has no session.
unfoldable pub session_of : Digests → String → Json → Option String
session_of digests raw_key payload =
    if side_job payload then none else session_key digests raw_key payload

abbrev pub score_value : Option ℕ → ScoreValue
score_value none = none_value
score_value (some score) = int_value (pos score)

abbrev pub raw_score : Option VerifiedScore → Option ℕ
raw_score none = none
raw_score (some verdict) = some verdict.complexity_score

abbrev pub noted : Option RaiseNote → RouteDecision → RouteDecision
noted none decision = decision
noted (some note) decision = record decision {
  reason = raised_by_floor decision.reason (raise_text note);
}

module _ (routing : Routing) where
  abbrev pub sticky_of : Json → Option AutoSession → Option ℕ
  sticky_of payload none = none
  sticky_of payload (some session) =
      session_sticky_floor routing.floors session.score (user_turns payload - session.user_turns)

  -- The score to route by, and what raised it; a side job is routed by its own score.
  unfoldable pub floored : Json → Option AutoSession → Option ℕ → Option ℕ × Option RaiseNote
  floored payload session score =
      if side_job payload
      then (score, none)
      else apply
          (context_floors routing.scoring routing.json_length routing.floors payload
            (sticky_of payload session) true)
          score

  abbrev pub warmed :
      Json → AutoPreferences → Option AutoSession → RouteDecision → Result ValueError RouteDecision
  warmed payload prefs none decision = ok decision
  warmed payload prefs (some session) decision =
      cache_aware routing.fold routing.router routing.warm decision session
        (estimate_context_tokens routing.json_length payload) prefs.max_model

  abbrev pub routed :
      Json
      → AutoPreferences
      → Option AutoSession
      → Option ℕ × Option RaiseNote
      → Result ValueError RouteDecision
  routed payload prefs session (score, raised) =
      select_model routing.router (score_value score) prefs.shift prefs.max_model >>= λ decision.
      warmed payload prefs session (noted raised decision)

  -- A step that is not pinned: it is scored, then routed.
  unfoldable pub rescored :
      Verdicts
      → ℕ
      → Json
      → String
      → AutoPreferences
      → Option AutoSession
      → Verdicts × Result ValueError RouteDecision
  unfolding floored
  rescored verdicts now payload deepseek_key prefs session =
      let scored =
        auto_score routing.scorer routing.check verdicts now payload (some deepseek_key)
          (some routing.router) (not (is_tool_step payload || side_job payload)) in
      (scored.0, routed payload prefs session (floored payload session (raw_score scored.1)))

  abbrev pub pinned_or :
      Verdicts × Result ValueError RouteDecision
      → Verdicts
      → Bool
      → Option AutoSession
      → Verdicts × Result ValueError RouteDecision
  pinned_or scored verdicts false session = scored
  pinned_or scored verdicts true none = scored
  pinned_or scored verdicts true (some session) = (verdicts, pinned routing.router session)

  unfoldable pub decide :
      Verdicts
      → ℕ
      → Json
      → String
      → AutoPreferences
      → Option AutoSession
      → Verdicts × Result ValueError RouteDecision
  unfolding rescored
  decide verdicts now payload deepseek_key prefs session =
      pinned_or (rescored verdicts now payload deepseek_key prefs session) verdicts
        (is_tool_step payload) session
