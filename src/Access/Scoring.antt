-- ===== src/Access/Scoring.antt =====
-- `_verdict_key` and `_auto_score` of backend/services/model_access.py: the computed score, checked
-- by the AI where the configuration asks for it, with the cache of verdicts. What the code catches
-- is no verdict.
pub mod Sound
use mister_pilot_proxy.Prelude.{
  ℕ, String, Bool, true, false, not, ◌&&◌, Option, none, some, leb, ltb, if◌then◌else◌, Result, ok,
  raise, ◌>>=◌, is_empty,
}
use mister_pilot_proxy.Json.{Json}
use mister_pilot_proxy.Router.{AutoRouter, ValueError, boundary_distance}
use mister_pilot_proxy.Ttl
use mister_pilot_proxy.Ttl.{TtlStore}
use mister_pilot_proxy.Complexity.{ComplexityScore}
use mister_pilot_proxy.Complexity.Task.{ScoreError}
use mister_pilot_proxy.Complexity.Request.{score_request}
use mister_pilot_proxy.Verifier.{
  Status, verified, corrected, clamped, blocked, unverified, skipped, VerifiedScore,
  skip_verification,
}
use mister_pilot_proxy.Verifier.Reply.{ReadError}
use mister_pilot_proxy.Verifier.Call.{Checker, Question, Outcome, verify_score}

-- The part of the configuration that decides on a check; a confidence is in hundredths.
pub record CheckConfig : Type 0 where
  pub verify_min_confidence : ℕ
  pub verify_boundary_margin : ℕ

-- What a scoring runs with: the check, what the AI answers and when, and the hash of a score and a
-- text.
pub record Scorer : Type 0 where
  pub checker : Checker
  pub ask : Question → Outcome
  pub latency : ℕ
  pub nonce : String
  pub digest : ℕ → String → String

-- `signals.get("prompt") or signals.get("prompt_excerpt")`
abbrev pub key_text : ComplexityScore → String
key_text computed =
    let s = computed.signals in if is_empty s.prompt then s.prompt_excerpt else s.prompt

unfoldable pub verdict_key : Scorer → ComplexityScore → String
verdict_key scorer computed = scorer.digest computed.complexity_score (key_text computed)

-- `status in _CACHEABLE_STATUSES`
abbrev pub is_cacheable : Status → Bool
is_cacheable verified = true
is_cacheable corrected = true
is_cacheable clamped = true
is_cacheable blocked = true
is_cacheable unverified = false
is_cacheable skipped = false

abbrev pub Verdicts : Type 0
Verdicts = TtlStore VerifiedScore

-- The distance to a tier's edge, if there is a router: `some` where it lies past the margin.
abbrev pub far_from_edge :
    CheckConfig → Option AutoRouter → ComplexityScore → Result ValueError Bool
far_from_edge cfg none computed = ok false
far_from_edge cfg (some router) computed =
    if leb cfg.verify_min_confidence computed.confidence
    then (boundary_distance router.tiers computed.complexity_score >>= λ distance.
        ok (ltb cfg.verify_boundary_margin distance))
    else ok false

abbrev pub keep :
    Verdicts → ℕ → String → Result ReadError VerifiedScore → Verdicts × Option VerifiedScore
keep verdicts now key (raise e) = (verdicts, none)
keep verdicts now key (ok verdict) = (
  if is_cacheable verdict.status then Ttl.put verdicts now (some key) verdict else verdicts,
  some verdict,
)

module _ (scorer : Scorer) where
  abbrev pub or_check :
      ℕ
      → ComplexityScore
      → String
      → Option String
      → Verdicts × Option VerifiedScore
      → Verdicts × Option VerifiedScore
  or_check now computed key api_key (verdicts, some cached) = (verdicts, some cached)
  or_check now computed key api_key (verdicts, none) =
      keep verdicts now key
        (verify_score scorer.checker scorer.ask scorer.latency scorer.nonce computed api_key none)

  -- The check, by the cache.
  unfoldable pub checked :
      Verdicts → ℕ → ComplexityScore → Option String → Verdicts × Option VerifiedScore
  checked verdicts now computed api_key =
      let key = verdict_key scorer computed in
      or_check now computed key api_key (Ttl.get verdicts now (some key))

  abbrev pub unless_far :
      Verdicts
      → ℕ
      → ComplexityScore
      → Option String
      → Result ValueError Bool
      → Verdicts × Option VerifiedScore
  unless_far verdicts now computed api_key (raise e) = (verdicts, none)
  unless_far verdicts now computed api_key (ok true) =
      (verdicts, some (skip_verification computed "confident and away from a tier edge"))
  unless_far verdicts now computed api_key (ok false) = checked verdicts now computed api_key

  abbrev pub scored :
      CheckConfig
      → Verdicts
      → ℕ
      → Option String
      → Option AutoRouter
      → Bool
      → Result ScoreError ComplexityScore
      → Verdicts × Option VerifiedScore
  scored cfg verdicts now api_key router verify (raise e) = (verdicts, none)
  scored cfg verdicts now api_key router verify (ok computed) =
      if not verify
      then (verdicts, some (skip_verification computed "not needed for this request"))
      else unless_far verdicts now computed api_key (far_from_edge cfg router computed)

  unfoldable pub auto_score :
      CheckConfig
      → Verdicts
      → ℕ
      → Json
      → Option String
      → Option AutoRouter
      → Bool
      → Verdicts × Option VerifiedScore
  unfolding checked
  auto_score cfg verdicts now payload api_key router verify =
      scored cfg verdicts now api_key router verify (score_request scorer.checker.engine payload)
