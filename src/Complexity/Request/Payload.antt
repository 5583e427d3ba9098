-- ===== src/Complexity/Request/Payload.antt =====
-- The score of backend/services/complexity_scorer.py is one of the task, not of the payload.
use mister_pilot_proxy.Prelude.{◌≡◌, refl, ap, false, Result, ok, raise, ◌>>=◌, ◌∙◌}
use mister_pilot_proxy.Json.{Json}
use mister_pilot_proxy.Complexity.{TaskType, Detection, Engine, ExtractedPrompt}
use mister_pilot_proxy.Complexity.Extract.{extract_user_prompt}
use mister_pilot_proxy.Complexity.Patterns.Scopes.{refers_to_attachments, refers_to_diagnostics}
use mister_pilot_proxy.Complexity.Task.{ScoreError, detect_task_type}
use mister_pilot_proxy.Complexity.Reach.{detect_scope}
use mister_pilot_proxy.Complexity.Reach.Payload.{detect_scope_payload}
use mister_pilot_proxy.Complexity.Request.{score_found, score_prompt, score_request}

score_prompt_payload :
    (engine : Engine) (prompt : ExtractedPrompt) (p q : Json)
    → engine.search refers_to_attachments prompt.text ≡ false
    → engine.search refers_to_diagnostics prompt.text ≡ false
    → score_prompt engine prompt p ≡ score_prompt engine prompt q
unfolding score_prompt
score_prompt_payload engine prompt p q a d = after (detect_task_type engine prompt.text)
  where
    after :
        (found : Result ScoreError (Detection TaskType))
        → (found >>= λ task.
            ok (score_found engine prompt task (detect_scope engine prompt task.value p)))
          ≡ (found >>= λ task.
              ok (score_found engine prompt task (detect_scope engine prompt task.value q)))
    after (raise e) = refl
    after (ok task) =
        ap (λ scope. ok (score_found engine prompt task scope))
          (detect_scope_payload engine prompt task.value p q a d)

-- Two payloads from which the same request is extracted get the same verdict, whatever else they
-- carry, unless the request points at the attached files or at the diagnostics.
pub score_request_payload :
    (engine : Engine) (p q : Json)
    → extract_user_prompt engine p ≡ extract_user_prompt engine q
    → engine.search refers_to_attachments (extract_user_prompt engine p).text ≡ false
    → engine.search refers_to_diagnostics (extract_user_prompt engine p).text ≡ false
    → score_request engine p ≡ score_request engine q
unfolding score_request
score_request_payload engine p q e a d =
    score_prompt_payload engine (extract_user_prompt engine p) p q a d
    ∙ ap (λ prompt. score_prompt engine prompt q) e
