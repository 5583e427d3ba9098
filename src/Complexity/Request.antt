-- ===== src/Complexity/Request.antt =====
-- `score_request` of backend/services/complexity_scorer.py: the detectors and the score, composed.
pub mod Total
pub mod Payload
use mister_pilot_proxy.Prelude.{
  ℕ, ◌-◌, String, Bool, List, [], ◌∷◌, map, Result, ok, ◌>>=◌, eqb, if◌then◌else◌, take_text,
  text_length,
}
use Prim.Native.Char.{code}
use mister_pilot_proxy.Json.{Json}
use mister_pilot_proxy.Complexity.{
  TaskType, Scope, ReasoningDepth, Detection, ExtractedPrompt, Engine, SignalRecord,
  ComplexityScore, ScoreBreakdown,
}
use mister_pilot_proxy.Complexity.Extract.{extract_user_prompt}
use mister_pilot_proxy.Complexity.Task.{ScoreError, detect_task_type}
use mister_pilot_proxy.Complexity.Reach.{detect_scope}
use mister_pilot_proxy.Complexity.Signals.{
  detect_architecture_signals, detect_security_signals, estimate_dependency_complexity,
  detect_reasoning_depth, is_some,
}
use mister_pilot_proxy.Complexity.Points.{compute_score}
use mister_pilot_proxy.Complexity.Confidence.{confidence}
use mister_pilot_proxy.Complexity.Patterns.Single.{scale_pattern}

-- `e.split(":", 1)[0]`
unfoldable pub before_colon : String → String
before_colon String.[] = ""
before_colon (String.◌∷◌ c s) = if eqb (code c) 58 then "" else String.◌∷◌ c (before_colon s)

abbrev pub prompt_kept : ℕ
prompt_kept = 4000

abbrev pub excerpt_kept : ℕ
excerpt_kept = 200

module _ (engine : Engine) where
  -- The score of a request whose task and scope have been found.
  unfoldable pub score_found :
      ExtractedPrompt → Detection TaskType → Detection Scope → ComplexityScore
  unfolding before_colon
  score_found prompt task scope =
      let text = prompt.text in
      let concepts = detect_architecture_signals engine text in
      let families = detect_security_signals engine text in
      let dependency = estimate_dependency_complexity engine text task.value in
      let depth = detect_reasoning_depth engine text task.value concepts.value families.value in
      let breakdown =
        compute_score engine task.value scope.value depth families.value dependency.value text in
      record {
        complexity_score = breakdown.final;
        task_type = task.value;
        reasoning_depth = depth.value;
        scope = scope.value;
        confidence = confidence prompt task scope;
        signals = record {
          has_architecture = is_some concepts.value;
          has_security = is_some families.value;
          dependency_count = dependency.value;
          architecture_concepts = concepts.value;
          security_families = families.value;
          components = map before_colon dependency.evidence;
          scale = engine.search scale_pattern text;
          task_evidence = task.evidence;
          scope_evidence = scope.evidence;
          depth_evidence = depth.evidence;
          breakdown = breakdown;
          prompt_source = prompt.source;
          prompt = take_text prompt_kept text;
          prompt_excerpt = take_text excerpt_kept text;
          scaffolding_stripped_chars = text_length prompt.raw_text - text_length text;
        };
      }

  unfoldable pub score_prompt : ExtractedPrompt → Json → Result ScoreError ComplexityScore
  unfolding score_found
  score_prompt prompt payload = do
    task ← detect_task_type engine prompt.text
    ok (score_found prompt task (detect_scope engine prompt task.value payload))

  unfoldable pub score_request : Json → Result ScoreError ComplexityScore
  unfolding score_prompt
  score_request payload = score_prompt (extract_user_prompt engine payload) payload
