-- ===== src/Access/Scoring/Sound.antt =====
-- The verdict that `_auto_score` of backend/services/model_access.py gives, from the cache or not.
use mister_pilot_proxy.Prelude.{
  ℕ, ◌≤◌, ◌≡◌, ◌⊎◌, refl, inl, inr, sym, ap, String, Bool, true, false, Option, none, some, [],
  arith, Bool-cases, Result, ok, raise,
}
use mathlib.Core.Path.{subst}
use mister_pilot_proxy.Json.{Json}
use mister_pilot_proxy.Router.{AutoRouter, ValueError}
use mister_pilot_proxy.Dict
use mister_pilot_proxy.Ttl
use mister_pilot_proxy.Ttl.Kept.{Kept, Finds, get-Finds, get-found, put-Kept}
use mister_pilot_proxy.Complexity.{ComplexityScore}
use mister_pilot_proxy.Complexity.Request.{score_request}
use mister_pilot_proxy.Complexity.Request.Total.{score_request-IsVerdict}
use mister_pilot_proxy.Verifier.{VerifiedScore, skip_verification, distance, skipped}
use mister_pilot_proxy.Verifier.Band.{OnScale, Guarded, computed_final-Guarded}
use mister_pilot_proxy.Verifier.Reply.{ReadError}
use mister_pilot_proxy.Verifier.Call.{Outcome, verify_score, max_deviation}
use mister_pilot_proxy.Verifier.Guarded.{Ends, gives, unread, cannot, verify_score-Ends}
use mister_pilot_proxy.Access.Scoring.{
  CheckConfig, Scorer, verdict_key, key_text, is_cacheable, Verdicts, far_from_edge, keep, or_check,
  checked, unless_far, auto_score,
}

module _ (scorer : Scorer) where
  -- A verdict under the key of the score that it was computed from, and within the band of it.
  abbrev pub Stored : String → VerifiedScore → Type 0
  Stored key v =
      Guarded (max_deviation scorer.checker) v.computed v × (verdict_key scorer v.computed ≡ key)

  abbrev pub IsSound : Verdicts → Type 0
  IsSound = Kept Stored

  -- A verdict on the scale, no further from the computed score than the band.
  pub record Holds (c : ComplexityScore) (v : VerifiedScore) : Type 0 where
    pub on_scale : OnScale v.complexity_score
    pub near : distance v.complexity_score c.complexity_score ≤ max_deviation scorer.checker

  -- No verdict is given for the reason `L` only.
  abbrev pub Gives : Type 0 → ComplexityScore → Verdicts × Option VerifiedScore → Type 0
  Gives L c (verdicts, none) = IsSound verdicts × L
  Gives L c (verdicts, some v) = IsSound verdicts × Holds c v

  -- The check of a score raises.
  abbrev pub Fails : ComplexityScore → Option String → Type 0
  Fails c api_key =
      (e : ReadError) × (verify_score scorer.checker scorer.ask scorer.latency scorer.nonce c
          api_key none
        ≡ raise e)

  skip_verification-Gives :
      (L : Type 0) (verdicts : Verdicts) (c : ComplexityScore) (reason : String)
      → IsSound verdicts
      → OnScale c.complexity_score
      → Gives L c (verdicts, some (skip_verification c reason))
  unfolding skip_verification
  skip_verification-Gives L verdicts c reason h s =
      let g =
        computed_final-Guarded (max_deviation scorer.checker) c skipped 0 none [] 0 (some reason) tt
          s in
      (h, record { on_scale = g.on_scale; near = g.near })

  keep-Gives :
      (verdicts : Verdicts) (now : ℕ) (c : ComplexityScore) (outcome : Outcome)
      (m : Result ReadError VerifiedScore) (L : Type 0)
      → ((e : ReadError) → m ≡ raise e → L)
      → IsSound verdicts
      → Ends scorer.checker outcome c m
      → Gives L c (keep verdicts now (verdict_key scorer c) m)
  keep-Gives verdicts now c outcome _ L lost h (unread e content o p) = (h, lost e refl)
  keep-Gives verdicts now c outcome _ L lost h (cannot e content reply o p cause) = (h, lost e refl)
  keep-Gives verdicts now c outcome _ L lost h (gives v g) =
      let holds : Holds c v = record { on_scale = g.on_scale; near = g.near } in
      let stored : Stored (verdict_key scorer c) v = (
        subst (λ x. Guarded (max_deviation scorer.checker) x v) (sym g.kept) g,
        ap (verdict_key scorer) g.kept,
      ) in
      elim (Bool-cases (is_cacheable v.status)) [
        | inl e ↦ rw e (put-Kept Stored verdicts now (verdict_key scorer c) v stored h, holds)
        | inr e ↦ rw e (h, holds)
      ]

  -- The digest tells a verdict that is kept under a score's key from that score.
  abbrev pub Apart : ComplexityScore → Verdicts → Type 0
  Apart c verdicts =
      (stored : ℕ) (v : VerifiedScore)
      → Dict.get verdicts.items (verdict_key scorer c) ≡ some (stored, v)
      → scorer.digest v.computed.complexity_score (key_text v.computed)
        ≡ scorer.digest c.complexity_score (key_text c)
      → v.computed.complexity_score ≡ c.complexity_score

  same_digest :
      (c d : ComplexityScore)
      → verdict_key scorer c ≡ verdict_key scorer d
      → scorer.digest c.complexity_score (key_text c)
        ≡ scorer.digest d.complexity_score (key_text d)
  unfolding verdict_key
  same_digest c d e = e

  or_check-Gives :
      (now : ℕ) (c : ComplexityScore) (api_key : Option String)
      (found : Verdicts × Option VerifiedScore) (L : Type 0)
      → (Fails c api_key → L)
      → ((v : VerifiedScore)
          → found.1 ≡ some v
          → verdict_key scorer v.computed ≡ verdict_key scorer c
          → v.computed.complexity_score ≡ c.complexity_score)
      → OnScale c.complexity_score
      → Finds Stored (verdict_key scorer c) found
      → Gives L c (or_check scorer now c (verdict_key scorer c) api_key found)
  or_check-Gives now c api_key (verdicts, none) L lost apart s h =
      let ends =
        verify_score-Ends scorer.checker scorer.ask scorer.latency scorer.nonce c api_key none s in
      keep-Gives verdicts now c (scorer.ask ends.0) _ L (λ e r. lost (e, r)) h ends.1
  or_check-Gives now c api_key (verdicts, some v) L lost apart s h =
      let same = apart v refl h.1.1 in
      (h.0, record { on_scale = h.1.0.on_scale; near = omega (arith, h.1.0.near, same) })

  -- Why no verdict is given: the check raises, or the table holds no tier for the score.
  abbrev pub Lost : CheckConfig → ComplexityScore → Option String → Option AutoRouter → Type 0
  Lost cfg c api_key router =
      Fails c api_key ⊎ ((e : ValueError) × (far_from_edge cfg router c ≡ raise e))

  unless_far-Gives :
      (L : Type 0) (verdicts : Verdicts) (now : ℕ) (c : ComplexityScore) (api_key : Option String)
      (far : Result ValueError Bool)
      → (Fails c api_key → L)
      → ((e : ValueError) → far ≡ raise e → L)
      → Apart c verdicts
      → OnScale c.complexity_score
      → IsSound verdicts
      → Gives L c (unless_far scorer verdicts now c api_key far)
  unfolding checked
  unless_far-Gives L verdicts now c api_key (raise e) fails lost apart s h = (h, lost e refl)
  unless_far-Gives L verdicts now c api_key (ok true) fails lost apart s h =
      skip_verification-Gives L verdicts c _ h s
  unless_far-Gives L verdicts now c api_key (ok false) fails lost apart s h =
      or_check-Gives now c api_key (Ttl.get verdicts now (some (verdict_key scorer c))) L fails
        (λ v e k.
          let (stored, at) = get-found verdicts now (verdict_key scorer c) v e in
          apart stored v at (same_digest v.computed c k))
        s (get-Finds Stored verdicts now (verdict_key scorer c) h)

  -- The digest tells the verdict kept under a payload's key from the payload's score.
  abbrev pub Tells : Verdicts → Json → Type 0
  Tells verdicts payload =
      (c : ComplexityScore) (stored : ℕ) (v : VerifiedScore)
      → score_request scorer.checker.engine payload ≡ ok c
      → Dict.get verdicts.items (verdict_key scorer c) ≡ some (stored, v)
      → scorer.digest v.computed.complexity_score (key_text v.computed)
        ≡ scorer.digest c.complexity_score (key_text c)
      → v.computed.complexity_score ≡ c.complexity_score

  -- A cache of verdicts is sound where each is within the band of the score that it was computed
  -- from, and under that score's key. If it is, and if the digest tells the verdict kept under the
  -- payload's key, should there be one, from the payload's score: scoring a payload gives, whatever
  -- the AI answers, a verdict on the scale, no further from the score that is computed for the payload
  -- than the band, and leaves the cache sound. It gives none only where a check was asked for and it
  -- raises, or the table has no tier for the score.
  pub auto_score-Gives :
      (cfg : CheckConfig) (verdicts : Verdicts) (now : ℕ) (payload : Json) (api_key : Option String)
      (router : Option AutoRouter) (verify : Bool)
      → ((c : ComplexityScore) (stored : ℕ) (v : VerifiedScore)
          → score_request scorer.checker.engine payload ≡ ok c
          → Dict.get verdicts.items (verdict_key scorer c) ≡ some (stored, v)
          → scorer.digest v.computed.complexity_score (key_text v.computed)
            ≡ scorer.digest c.complexity_score (key_text c)
          → v.computed.complexity_score ≡ c.complexity_score)
      → IsSound verdicts
      → (c : ComplexityScore) × (score_request scorer.checker.engine payload ≡ ok c)
        × Gives
            ((verify ≡ true) × Lost cfg c api_key router)
            c
            (auto_score scorer cfg verdicts now payload api_key router verify)
  unfolding auto_score
  auto_score-Gives cfg verdicts now payload api_key router false apart h =
      let (c, e, v) = score_request-IsVerdict scorer.checker.engine payload in
      (
        c,
        e,
        rw e (
            skip_verification-Gives ((◌≡◌ {A = Bool} false true) × Lost cfg c api_key router)
              verdicts c _ h v.on_scale),
      )
  auto_score-Gives cfg verdicts now payload api_key router true apart h =
      let (c, e, v) = score_request-IsVerdict scorer.checker.engine payload in
      (
        c,
        e,
        rw e (
            unless_far-Gives ((◌≡◌ {A = Bool} true true) × Lost cfg c api_key router) verdicts now c
              api_key (far_from_edge cfg router c) (λ fails. (refl, inl fails))
              (λ x r. (refl, inr (x, r))) (λ stored x at same. apart c stored x e at same)
              v.on_scale h),
      )
