-- ===== src/Complexity/Request/Total.antt =====
-- What `score_request` of backend/services/complexity_scorer.py gives for any payload.
use native.Mathlib.Nat.{
  div-mul-le_self, le-div_iff_mul-le, le_of_mul-le-mul_right, le_trans, div-add-mod',
}
use mister_pilot_proxy.Prelude.{
  ℕ, ◌+◌, ◌*◌, ◌/◌, ◌%◌, ◌≤◌, ◌<◌, ◌≡◌, refl, ap, ◌∙◌, inl, inr, Bool, true, arith, Bool-cases,
  Option, none, some, ok, is_blank, is_empty, if◌then◌else◌, ltb,
}
use mister_pilot_proxy.Json.{Json}
use mister_pilot_proxy.Complexity.{
  TaskType, unknown, same_task, Scope, Detection, ExtractedPrompt, Engine, ComplexityScore,
  Fraction, whole,
}
use mister_pilot_proxy.Complexity.Extract.{extract_user_prompt}
use mister_pilot_proxy.Complexity.Task.Strength.{IsFraction}
use mister_pilot_proxy.Complexity.Task.Choice.{detect_task_type-Detected, Detected-sure}
use mister_pilot_proxy.Complexity.Reach.{detect_scope, said_reach, attached_reach, diagnosed_reach}
use mister_pilot_proxy.Complexity.Points.{compute_score}
use mister_pilot_proxy.Complexity.Points.Bounds.{Capped, compute_score-Capped}
use mister_pilot_proxy.Complexity.Confidence.{round_even, confidence, clamped, raw_confidence}
use mister_pilot_proxy.Complexity.Request.{score_found, score_prompt, score_request}

-- A verdict that callers can rely on; `none_found` says that no request was found.
pub record IsVerdict (none_found : Bool) (s : ComplexityScore) : Type 0 where
  pub on_scale : (1 ≤ s.complexity_score) × (s.complexity_score ≤ 20)
  pub unknown_iff : same_task s.task_type unknown ≡ none_found
  pub lowest : none_found ≡ true → s.complexity_score ≡ 1
  pub capped : Capped s.task_type s.signals.breakdown
  pub traced : s.complexity_score ≡ s.signals.breakdown.final
  pub sure : (5 ≤ s.confidence) × (s.confidence ≤ 99)

exact_lem : (high n d : ℕ) → n / d ≡ high → n ≤ high * d → n % d ≡ 0
exact_lem high n d e k = omega (arith, div-add-mod' n d, ap (λ (t : ℕ). t * d) e)

rounded_between :
    (q r d low high : ℕ)
    → low ≤ q
    → q ≤ high
    → 0 < d
    → (q ≡ high → r ≡ 0)
    → (low ≤ (if ltb (2 * r) d then q else if ltb d (2 * r) then q + 1 else q + q % 2))
      × ((if ltb (2 * r) d then q else if ltb d (2 * r) then q + 1 else q + q % 2) ≤ high)
rounded_between q r d low high a b p exact = ground arith

pub round_even_bounds :
    (low high n d : ℕ)
    → 0 < d
    → low * d ≤ n
    → n ≤ high * d
    → (low ≤ round_even n d) × (round_even n d ≤ high)
unfolding round_even
round_even_bounds low high n d p h k =
    let floor : low ≤ n / d = (le-div_iff_mul-le p).1 h in
    let cap : n / d ≤ high = le_of_mul-le-mul_right (le_trans (div-mul-le_self n d) k) p in
    let exact = λ (e : n / d ≡ high). exact_lem high n d e k in
    rounded_between (n / d) (n % d) d low high floor cap p exact

scope-IsFraction :
    (engine : Engine) (prompt : ExtractedPrompt) (task : TaskType) (payload : Json)
    → 0 < (detect_scope engine prompt task payload).strength.den
unfolding detect_scope
scope-IsFraction engine prompt task payload =
    case
      (diagnosed_reach engine prompt payload
        (attached_reach engine prompt payload (said_reach engine prompt.text))).found
  where
    case :
        (found : Option Scope)
        → 0
          < (elim found as (λ _. Fraction) [
            | none ↦ record { num = 40; den = 100 }
            | some s ↦ whole
          ]).den
    case none = omega arith
    case (some s) = omega arith

clamped_lem : (n d : ℕ) → (5 * d ≤ clamped n d) × (clamped n d ≤ 99 * d)
clamped_lem n d = omega arith

confidence_bounds :
    (prompt : ExtractedPrompt) (task : Detection TaskType) (scope : Detection Scope)
    → 0 < task.strength.den
    → 0 < scope.strength.den
    → (5 ≤ confidence prompt task scope) × (confidence prompt task scope ≤ 99)
unfolding confidence
confidence_bounds prompt task scope t s =
    let d = task.strength.den * scope.strength.den in
    let n = raw_confidence prompt task.strength scope.strength in
    elim (Bool-cases (is_empty prompt.text)) [
      | inl e ↦ rw e (omega arith, omega arith)
      | inr e ↦ rw e (
          round_even_bounds 5 99 (clamped n d) d (grind arith) (clamped_lem n d).0
            (clamped_lem n d).1)
    ]

unknown_score :
    (engine : Engine) (prompt : ExtractedPrompt) (task : Detection TaskType)
    (scope : Detection Scope)
    → same_task task.value unknown ≡ true
    → (score_found engine prompt task scope).complexity_score ≡ 1
unfolding score_found compute_score
unknown_score engine prompt task scope e = rw e refl

score_found-IsVerdict :
    (engine : Engine) (prompt : ExtractedPrompt) (task : Detection TaskType) (payload : Json)
    → (same_task task.value unknown ≡ is_blank prompt.text) × IsFraction task.strength
    → IsVerdict
        (is_blank prompt.text)
        (score_found engine prompt task (detect_scope engine prompt task.value payload))
unfolding score_found
score_found-IsVerdict engine prompt task payload h =
    let capped = compute_score-Capped engine task.value _ _ _ _ prompt.text in
    record {
      on_scale = capped.on_scale;
      unknown_iff = h.0;
      lowest = λ e.
          unknown_score engine prompt task (detect_scope engine prompt task.value payload)
            (h.0 ∙ e);
      capped = capped;
      traced = refl;
      sure =
          confidence_bounds prompt task _ h.1.0 (scope-IsFraction engine prompt task.value payload);
    }

-- Any payload gets a verdict, whatever the regular expressions find: on the scale of 1 to 20, of
-- parts within their caps, with a confidence of 5 to 99 hundredths. The type is unknown exactly if
-- no request was found, and then the score is 1.
pub score_request-IsVerdict :
    (engine : Engine) (payload : Json)
    → (s : ComplexityScore) × (score_request engine payload ≡ ok s)
      × IsVerdict (is_blank (extract_user_prompt engine payload).text) s
unfolding score_request score_prompt
score_request-IsVerdict engine payload =
    let prompt = extract_user_prompt engine payload in
    let (task, e, found) = detect_task_type-Detected engine prompt.text in
    (
      score_found engine prompt task (detect_scope engine prompt task.value payload),
      rw e refl,
      score_found-IsVerdict engine prompt task payload
          (Detected-sure engine prompt.text _ task refl found),
    )
