-- ===== src/Verifier.antt =====
-- The check of a verdict by an AI, backend/services/complexity_verifier.py: its types, and
-- `reconcile`, in which the whole policy lives. Confidences are in hundredths.
pub mod Rules
pub mod Reply
pub mod Call
pub mod Band
pub mod Reads
pub mod Guarded
use mister_pilot_proxy.Prelude.{
  ℕ, ◌+◌, ◌-◌, min, max, String, Bool, true, false, Option, none, some, List, [], ◌∷◌, leb, ltb,
  if◌then◌else◌,
}
use mister_pilot_proxy.Prelude.Int.{ℤ, pos, sub_ℕ}
use mister_pilot_proxy.Complexity.{TaskType, Scope, ReasoningDepth, ComplexityScore, SignalRecord}

abbrev pub agree_tolerance : ℕ
agree_tolerance = 2

pub record AiVerdict : Type 0 where
  pub agrees : Bool
  pub complexity_score : ℕ
  pub task_type : TaskType
  pub scope : Scope
  pub reasoning_depth : ReasoningDepth
  pub confidence : ℕ
  pub injection_detected : Bool
  pub issues : List String
  pub reason : String

pub data Status : Type 0 where
  verified corrected clamped blocked unverified skipped : Status

pub record VerifiedScore : Type 0 where
  pub complexity_score : ℕ
  pub task_type : TaskType
  pub scope : Scope
  pub reasoning_depth : ReasoningDepth
  pub confidence : ℕ
  pub status : Status
  pub computed : ComplexityScore
  pub ai : Option AiVerdict
  pub shift : ℤ
  pub injection : List String
  pub latency_ms : ℕ
  pub error : Option String
  pub signals : SignalRecord

-- `_computed_final`: the arguments after the penalty are what `**extra` may hold.
unfoldable pub computed_final :
    ComplexityScore
    → Status
    → ℕ
    → Option AiVerdict
    → List String
    → ℕ
    → Option String
    → VerifiedScore
computed_final computed status penalty ai injection latency_ms error = record {
  complexity_score = computed.complexity_score;
  task_type = computed.task_type;
  scope = computed.scope;
  reasoning_depth = computed.reasoning_depth;
  confidence = max 5 (computed.confidence - penalty);
  status = status;
  computed = computed;
  ai = ai;
  shift = pos 0;
  injection = injection;
  latency_ms = latency_ms;
  error = error;
  signals = computed.signals;
}

unfoldable pub skip_verification : ComplexityScore → String → VerifiedScore
unfolding computed_final
skip_verification computed reason = computed_final computed skipped 0 none [] 0 (some reason)

-- A verdict of the AI, at a score.
abbrev pub ai_final :
    ComplexityScore → AiVerdict → ℕ → ℕ → Status → ℕ → Option String → VerifiedScore
ai_final computed ai score confidence status latency_ms error = record {
  complexity_score = score;
  task_type = ai.task_type;
  scope = ai.scope;
  reasoning_depth = ai.reasoning_depth;
  confidence = max 5 (min 99 confidence);
  status = status;
  computed = computed;
  ai = some ai;
  shift = sub_ℕ score computed.complexity_score;
  injection = [];
  latency_ms = latency_ms;
  error = error;
  signals = computed.signals;
}

-- `abs(a - b)`
abbrev pub distance : ℕ → ℕ → ℕ
distance a b = (a - b) + (b - a)

-- The score at the edge of the band, on the side of the AI's. At 0 the subtraction stops, and the
-- maximum lifts that to 1 as it lifts what is negative.
abbrev pub at_edge : ℕ → ℕ → ℕ → ℕ
at_edge computed ai band =
    max 1 (min 20 (if ltb computed ai then computed + band else computed - band))

abbrev pub weighed : ℕ → Bool → ℕ
weighed confidence agreed = if agreed then confidence + 10 else confidence - 10

-- `band` is `max_deviation()`.
unfoldable pub within_band : ℕ → ComplexityScore → AiVerdict → ℕ → Option String → VerifiedScore
within_band band computed ai latency_ms error =
    let delta = distance ai.complexity_score computed.complexity_score in
    let agreed = leb delta agree_tolerance in
    if ltb band delta
    then ai_final computed ai (at_edge computed.complexity_score ai.complexity_score band)
        (ai.confidence - 25) clamped latency_ms error
    else ai_final computed ai ai.complexity_score (weighed ai.confidence agreed)
        (if agreed then verified else corrected) latency_ms error

unfoldable pub reconcile :
    ℕ → ComplexityScore → Option AiVerdict → List String → ℕ → Option String → VerifiedScore
unfolding computed_final within_band
reconcile band computed ai (rule ∷ rules) latency_ms error =
    computed_final computed blocked 20 none (rule ∷ rules) latency_ms error
reconcile band computed none [] latency_ms error =
    computed_final computed unverified 0 none [] latency_ms error
reconcile band computed (some ai) [] latency_ms error =
    if ai.injection_detected
    then computed_final computed blocked 20 (some ai) ("reported_by_ai" ∷ []) latency_ms error
    else within_band band computed ai latency_ms error
