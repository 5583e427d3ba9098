-- ===== src/Verifier/Guarded.antt =====
-- What `verify_score` of backend/services/complexity_verifier.py guarantees, whatever the AI
-- answers, and the one way in which it may raise.
use mister_pilot_proxy.Prelude.{
  ℕ, ◌≡◌, ◌≢◌, ◌⊎◌, refl, inl, inr, String, Option, none, some, List, [], ◌∷◌, Result, ok, raise,
  Bool-cases, Result-cases, strip, arith,
}
use mister_pilot_proxy.Complexity.{unknown, same_task, ComplexityScore}
use Prim.Native.String.{◌++◌ as ◌<>◌}
use mister_pilot_proxy.Verifier.{AiVerdict, VerifiedScore, reconcile}
use mister_pilot_proxy.Verifier.Band.{OnScale, Guarded, reconcile-Guarded}
use mister_pilot_proxy.Verifier.Reply.{
  Members, Reader, Refusal, ReadError, at, read_present, missing_fields, required_fields,
  parse_reply, parse_ai_verdict, unfenced,
}
use mister_pilot_proxy.Verifier.Call.{
  Checker, Question, Outcome, timed_out, failed, no_message, message, or_empty, on_verdict,
  on_reply, on_outcome, question_of, unless_tripped, verify_score, max_deviation, enabled,
  seen_request, detect_injection,
}
use mister_pilot_proxy.Verifier.Reads.{
  Reads, accepts, rejects, raises, Acceptable, NoInteger, TooLarge, Unreadable, read_fields-Reads,
}

pub parse_ai_verdict-Reads :
    (reader : Reader) (reply : Members)
    → Reads (Unreadable reply) Acceptable (parse_ai_verdict reader reply)
unfolding parse_ai_verdict
parse_ai_verdict-Reads reader reply = present (missing_fields reply required_fields)
  where
    present :
        (missing : List String)
        → Reads (Unreadable reply) Acceptable (read_present reader reply missing)
    present [] = read_fields-Reads reader reply
    present (k ∷ ks) = rejects _

-- How a check ends: with a verdict within the band; or by raising, on an answer that `json.loads`
-- raises on but for a JSONDecodeError, or whose score or confidence cannot be made a number.
pub data Ends (checker : Checker) (outcome : Outcome) (computed : ComplexityScore)
    : Result ReadError VerifiedScore → Type 0 where
  gives :
      (v : VerifiedScore)
      → Guarded (max_deviation checker) computed v
      → Ends checker outcome computed (ok v)
  unread :
      (e : ReadError) (content : Option String)
      → outcome ≡ message content
      → checker.reader.loads (unfenced checker.reader (strip (or_empty content))) ≡ raise e
      → Ends checker outcome computed (raise e)
  cannot :
      (e : ReadError) (content : Option String) (reply : Members)
      → outcome ≡ message content
      → parse_reply checker.reader (or_empty content) ≡ ok (some reply)
      → NoInteger (at reply "complexity_score") ⊎ TooLarge (at reply "confidence")
      → Ends checker outcome computed (raise e)

parse_reply-raise :
    (reader : Reader) (text : String) (e : ReadError)
    → parse_reply reader text ≡ raise e
    → reader.loads (unfenced reader (strip text)) ≡ raise e
unfolding parse_reply
parse_reply-raise reader text e h =
    let body = unfenced reader (strip text) in
    elim (Result-cases (reader.loads body)) [
      | inr (x, at_body) ↦ ground (arith, h, at_body)
      | inl (found, at_body) ↦ absurd (ground (arith, h, at_body))
    ]

module _ (checker : Checker) (computed : ComplexityScore)
    (h : OnScale computed.complexity_score) where
  ours_Ends :
      (outcome : Outcome) (injection : List String) (latency : ℕ) (error : Option String)
      → Ends checker outcome computed
          (ok (reconcile (max_deviation checker) computed none injection latency error))
  ours_Ends outcome injection latency error =
      gives _
        (reconcile-Guarded (max_deviation checker) computed none injection latency error h tt).0

  read_Ends :
      (outcome : Outcome) (latency : ℕ) (content : Option String) (reply : Members)
      (m : Result Refusal AiVerdict)
      → outcome ≡ message content
      → parse_reply checker.reader (or_empty content) ≡ ok (some reply)
      → Reads (Unreadable reply) Acceptable m
      → Ends checker outcome computed (on_verdict (max_deviation checker) computed latency m)
  read_Ends outcome latency content reply _ o p (accepts ai ok_ai) = gives _ (
      (reconcile-Guarded (max_deviation checker) computed (some ai) [] latency none h
        ok_ai.on_scale).0)
  read_Ends outcome latency content reply _ o p (rejects reason) =
      ours_Ends outcome [] latency (some ("rejected: " <> reason))
  read_Ends outcome latency content reply _ o p (raises e cause) = cannot e content reply o p cause

  replied_Ends :
      (outcome : Outcome) (latency : ℕ) (content : Option String)
      (found : Result ReadError (Option Members))
      → outcome ≡ message content
      → parse_reply checker.reader (or_empty content) ≡ found
      → Ends checker outcome computed
          (on_reply checker.reader (max_deviation checker) computed latency found)
  replied_Ends outcome latency content (raise e) o p =
      unread e content o (parse_reply-raise checker.reader (or_empty content) e p)
  replied_Ends outcome latency content (ok none) o p =
      ours_Ends outcome [] latency (some "malformed reply")
  replied_Ends outcome latency content (ok (some reply)) o p =
      read_Ends outcome latency content reply _ o p (parse_ai_verdict-Reads checker.reader reply)

  on_outcome-Ends :
      (latency : ℕ) (outcome : Outcome)
      → Ends checker outcome computed
          (on_outcome checker.reader (max_deviation checker) computed latency outcome)
  unfolding on_outcome parse_reply
  on_outcome-Ends latency timed_out = ours_Ends timed_out [] latency (some "timeout")
  on_outcome-Ends latency (failed name) = ours_Ends (failed name) [] latency (some name)
  on_outcome-Ends latency no_message = ours_Ends no_message [] latency (some "malformed reply")
  on_outcome-Ends latency (message content) =
      replied_Ends (message content) latency content _ refl refl

  tripped_Ends :
      (ask : Question → Outcome) (latency : ℕ) (nonce request key : String) (model : Option String)
      (rules : List String)
      → Ends checker
          (ask (question_of checker ask latency nonce computed request key model))
          computed
          (unless_tripped checker ask latency nonce computed key model request rules)
  tripped_Ends ask latency nonce request key model (rule ∷ rules) =
      ours_Ends _ (rule ∷ rules) 0 (some "injection detected")
  tripped_Ends ask latency nonce request key model [] = on_outcome-Ends latency _

-- Whatever the AI answers to the question that it is asked, the check of a verdict on the scale ends
-- with a verdict that is on the scale and no further from the computed one than the band allows,
-- as its status says; or it raises, and then `json.loads` raised on the AI's answer, with an error that
-- is no JSONDecodeError, or the answer is an object whose score is NaN, infinite or a number too large
-- for a double, or whose confidence is such a number. (`str` of what was read is taken not to raise.)
pub verify_score-Ends :
    (checker : Checker) (ask : Question → Outcome) (latency : ℕ) (nonce : String)
    (computed : ComplexityScore) (key model : Option String)
    → OnScale computed.complexity_score
    → (q : Question) × Ends checker
        (ask q)
        computed
        (verify_score checker ask latency nonce computed key model)
unfolding verify_score
verify_score-Ends checker ask latency nonce computed key model h =
    let request = seen_request checker computed in
    let q = question_of checker ask latency nonce computed request (or_empty key) model in
    elim (Bool-cases (enabled checker)) [
      | inr off ↦
          (q, rw off (ours_Ends checker computed h (ask q) [] 0 (some "verification disabled")))
      | inl on ↦ elim (Bool-cases (same_task computed.task_type unknown)) [
        | inl e ↦ (
          q,
          rw (on, e) (ours_Ends checker computed h (ask q) [] 0 (some "no user request extracted")),
        )
        | inr e ↦ (
          q,
          rw (on, e)
              (tripped_Ends checker computed h ask latency nonce request (or_empty key) model _),
        )
      ]
    ]

-- A request that trips a rule is not shown to the AI: the outcome is the same whatever it would
-- answer, at whatever time.
pub verify_score_unasked :
    (checker : Checker) (ask other : Question → Outcome) (m n : ℕ) (nonce : String)
    (computed : ComplexityScore) (key model : Option String)
    → detect_injection checker.engine (seen_request checker computed) ≢ []
    → verify_score checker ask m nonce computed key model
      ≡ verify_score checker other n nonce computed key model
unfolding verify_score
verify_score_unasked checker ask other m n nonce computed key model h =
    elim (Bool-cases (enabled checker)) [
      | inr off ↦ rw off refl
      | inl on ↦ elim (Bool-cases (same_task computed.task_type unknown)) [
        | inl e ↦ rw (on, e) refl
        | inr e ↦
            rw (on, e) (same (detect_injection checker.engine (seen_request checker computed)) h)
      ]
    ]
  where
    same :
        (rules : List String)
        → rules ≢ []
        → unless_tripped checker ask m nonce computed
            (or_empty key)
            model
            (seen_request checker computed)
            rules
          ≡ unless_tripped checker other n nonce computed
              (or_empty key)
              model
              (seen_request checker computed)
              rules
    same [] k = absurd (k refl)
    same (rule ∷ rules) k = refl
