-- ===== src/Tests/Complexity.antt =====
-- Requests to the scorer of backend/services/complexity_scorer.py, with an engine that knows the
-- words of a few patterns.
use mister_pilot_proxy.Prelude.{
  ℕ, ◌≤◌, ◌≡◌, refl, false, some, List, [], ◌∷◌, String, ok, arith, ◌==◌, if◌then◌else◌, is_blank,
  strip, distinct, join, Result, raise,
}
use mister_pilot_proxy.Json.{Json, str, arr, obj, field, end, cons, nil}
use mister_pilot_proxy.Complexity.{
  TaskType, bugfix, architecture, Scope, one_module, service, ReasoningDepth, medium, high,
  Detection, Engine, ExtractedPrompt, ComplexityScore, Pattern, whole, rx, hits, same_task,
  concepts,
}
use mister_pilot_proxy.Complexity.Tables.{scope_index, min_scope}
use mister_pilot_proxy.Complexity.Patterns.Tasks.{bugfix_words, feature_words, task_patterns}
use mister_pilot_proxy.Complexity.Patterns.Scopes.{one_module_words, refers_to_attachments}
use mister_pilot_proxy.Complexity.Extract.{
  extract_user_prompt, user_turns, content_to_text, strip_text, field_found, attachments_of,
}
use mister_pilot_proxy.Complexity.Extract.Found.{Extracted, extract_user_prompt-Extracted}
use mister_pilot_proxy.Complexity.Task.{ScoreError, tally_all, detect_task_type, double_product}
use mister_pilot_proxy.Complexity.Task.Choice.{Detected, detect_task_type-Detected}
use mister_pilot_proxy.Complexity.Reach.{detect_scope, said_reach}
use mister_pilot_proxy.Complexity.Reach.Payload.{detect_scope_widens}
use mister_pilot_proxy.Complexity.Signals.{
  detect_architecture_signals, detect_security_signals, estimate_dependency_complexity,
  detect_reasoning_depth,
}
use mister_pilot_proxy.Complexity.Points.{compute_score}
use mister_pilot_proxy.Complexity.Points.Bounds.{Capped, compute_score-Capped, compute_score_mono}
use mister_pilot_proxy.Complexity.Request.{score_request}
use mister_pilot_proxy.Complexity.Request.Total.{IsVerdict, score_request-IsVerdict}
use mister_pilot_proxy.Complexity.Request.Payload.{score_request_payload}

abbrev words_of : Pattern → List String
words_of p =
    if p.source == bugfix_words.source
    then "Fix" ∷ "crash" ∷ []
    else if p.source == feature_words.source
    then "login" ∷ []
    else if p.source == one_module_words.source
    then "page" ∷ []
    else []

abbrev pub engine : Engine
engine = record {
  finditer = λ p t. words_of p;
  findall = λ p t. [];
  search = λ p t. false;
  starts = λ p t. false;
  sub = λ p r t. t;
  lower = λ s. s;
}

abbrev asked : Json
asked = obj (field "prompt" (str "Fix the crash of the login page") end)

abbrev asked_with_files : Json
asked_with_files = obj (
    field "prompt" (str "Fix the crash of the login page")
      (field "files" (arr (cons (str "a.py") (cons (str "b.py") nil))) end))

abbrev prompt : ExtractedPrompt
prompt = record {
  text = "Fix the crash of the login page";
  source = "field:prompt";
  raw_text = "Fix the crash of the login page";
  attachment_paths = [];
  is_followup = false;
}

abbrev score_of : Result ScoreError ComplexityScore → ℕ
score_of (ok s) = s.complexity_score
score_of (raise e) = 0

extract_runs : extract_user_prompt engine asked ≡ prompt
unfolding extract_user_prompt is_blank content_to_text strip_text strip field_found attachments_of
    distinct
extract_runs = refl

-- 1, a bug's 2 and a tenth of its range, and no more.
score_runs : score_of (score_request engine asked) ≡ 3
unfolding score_request detect_task_type is_blank extract_user_prompt content_to_text strip_text
    strip field_found hits distinct rx join same_task double_product compute_score detect_scope
    detect_security_signals concepts detect_architecture_signals detect_reasoning_depth
    estimate_dependency_complexity
score_runs = refl

abbrev medium_depth : Detection ReasoningDepth
medium_depth = record { value = medium; evidence = []; strength = whole }

abbrev high_depth : Detection ReasoningDepth
high_depth = record { value = high; evidence = "security" ∷ []; strength = whole }

compute_score-Capped_example :
    Capped bugfix (compute_score engine bugfix one_module medium_depth [] 2 "Fix the crash")
compute_score-Capped_example =
    compute_score-Capped engine bugfix one_module medium_depth [] 2 "Fix the crash"

compute_score_mono_example :
    (compute_score engine bugfix one_module medium_depth [] 2 "Fix the crash").final
    ≤ (compute_score engine bugfix service high_depth ("tokens" ∷ []) 3 "Fix the crash").final
compute_score_mono_example =
    compute_score_mono engine bugfix one_module service medium_depth high_depth [] ("tokens" ∷ []) 2
      3 "Fix the crash" (omega arith) (omega arith) (omega arith) (omega arith) (omega arith)

detect_task_type-Detected_example :
    (d : Detection TaskType) × (detect_task_type engine "Fix the crash" ≡ ok d)
    × Detected "Fix the crash" (tally_all engine "Fix the crash" task_patterns) d
detect_task_type-Detected_example = detect_task_type-Detected engine "Fix the crash"

extract_user_prompt-Extracted_example : Extracted engine asked (extract_user_prompt engine asked)
extract_user_prompt-Extracted_example = extract_user_prompt-Extracted engine asked

score_request-IsVerdict_example :
    (s : ComplexityScore) × (score_request engine asked ≡ ok s)
    × IsVerdict (is_blank (extract_user_prompt engine asked).text) s
score_request-IsVerdict_example = score_request-IsVerdict engine asked

score_request_payload_example : score_request engine asked ≡ score_request engine asked_with_files
unfolding extract_user_prompt user_turns
score_request_payload_example = score_request_payload engine asked asked_with_files refl refl refl

said_module : (said_reach engine prompt.text).found ≡ some one_module
unfolding said_reach distinct rx join hits
said_module = refl

detect_scope_widens_example :
    (scope_index one_module ≤ scope_index (detect_scope engine prompt architecture asked).value)
    × ((least : Scope)
        → min_scope architecture ≡ some least
        → scope_index least ≤ scope_index (detect_scope engine prompt architecture asked).value)
detect_scope_widens_example =
    detect_scope_widens engine prompt architecture asked one_module said_module

-- An engine that finds that a request points at the attached files, and nothing else.
abbrev pointing : Engine
pointing = record engine {
  finditer = λ p t. [];
  search = λ p t. p.source == refers_to_attachments.source;
}

abbrev one_file : Json
one_file = obj (field "files" (arr (cons (str "a.py") nil)) end)

abbrev no_file : Json
no_file = obj end
