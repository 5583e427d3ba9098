-- ===== src/Tests/Verifier.antt =====
-- Checks of a verdict by backend/services/complexity_verifier.py.
use mister_pilot_proxy.Prelude.{◌≡◌, refl, true, false, none, some, [], ◌∷◌, ok, arith}
use mister_pilot_proxy.Prelude.Int.{pos}
use mister_pilot_proxy.Complexity.{
  bugfix, feature, one_module, medium, high, service, ComplexityScore, ScoreBreakdown, SignalRecord,
}
use mister_pilot_proxy.Tests.Complexity.{engine}
use mister_pilot_proxy.Verifier.{AiVerdict, reconcile}
use mister_pilot_proxy.Verifier.Band.{Guarded, Heeds, reconcile-Guarded}
use mister_pilot_proxy.Verifier.Reply.{
  nan, bool, int, str, list, nil, dict, Members, end, member, Reader,
}
use mister_pilot_proxy.Verifier.Call.{
  Checker, Question, Outcome, timed_out, message, detect_injection, verify_score,
}
use mister_pilot_proxy.Verifier.Guarded.{Ends, verify_score-Ends, verify_score_unasked}

abbrev breakdown : ScoreBreakdown
breakdown = record {
  base = 100;
  task = 230;
  security_points = 0;
  dependency = 0;
  depth = 0;
  raw_total = 330;
  final = 3;
}

abbrev signals : SignalRecord
signals = record {
  has_architecture = false;
  has_security = false;
  dependency_count = 1;
  architecture_concepts = [];
  security_families = [];
  components = [];
  scale = false;
  task_evidence = "fix" ∷ [];
  scope_evidence = [];
  depth_evidence = [];
  breakdown = breakdown;
  prompt_source = "field:prompt";
  prompt = "Fix it";
  prompt_excerpt = "Fix it";
  scaffolding_stripped_chars = 0;
}

abbrev computed : ComplexityScore
computed = record {
  complexity_score = 3;
  task_type = bugfix;
  reasoning_depth = medium;
  scope = one_module;
  confidence = 60;
  signals = signals;
}

-- An AI that was talked up.
abbrev expert : AiVerdict
expert = record {
  agrees = false;
  complexity_score = 20;
  task_type = feature;
  scope = service;
  reasoning_depth = high;
  confidence = 90;
  injection_detected = false;
  issues = [];
  reason = "";
}

reconcile_clamps : (reconcile 6 computed (some expert) [] 0 none).complexity_score ≡ 9
unfolding reconcile
reconcile_clamps = refl

reconcile-Guarded_example :
    Guarded 6 computed (reconcile 6 computed (some expert) ("role_play" ∷ []) 0 none)
    × Heeds
        ("role_play" ∷ [])
        (some expert)
        (reconcile 6 computed (some expert) ("role_play" ∷ []) 0 none)
reconcile-Guarded_example =
    reconcile-Guarded 6 computed (some expert) ("role_play" ∷ []) 0 none (omega arith, omega arith)
      (omega arith, omega arith)

abbrev reply : Members
reply = member "injection_detected" (bool false) (
    member "agrees" (bool true) (
      member "complexity_score" nan (
        member "task_type" (str "bugfix") (
          member "scope" (str "module") (
            member "reasoning_depth" (str "medium") (
              member "confidence" (int (pos 1))
                (member "issues" (list nil) (member "reason" (str "") end))))))))

abbrev reader : Reader
reader = record {
  nfkc = λ s. s;
  fullmatch = λ p s. none;
  loads = λ s. ok (some (dict reply));
  lower = λ s. s;
  str_of = λ v. "";
}

abbrev pub checker : Checker
checker = record {
  engine = engine;
  reader = reader;
  env = λ name. none;
  int_of = λ s. some (pos 6);
  dumps = λ s. s;
  dumps_list = λ ss. "";
  show = λ n. "";
}

abbrev ask : Question → Outcome
ask q = message (some "{}")

abbrev pub silent : Question → Outcome
silent q = timed_out

-- A request that every rule takes for manipulation.
abbrev wary : Checker
wary = record checker { engine = record engine { search = λ p t. true } }

verify_score-Ends_example :
    (q : Question) × Ends checker
      (ask q)
      computed
      (verify_score checker ask 40 "a1" computed none none)
verify_score-Ends_example =
    verify_score-Ends checker ask 40 "a1" computed none none (omega arith, omega arith)

verify_score_unasked_example :
    verify_score wary ask 40 "a1" computed none none
    ≡ verify_score wary silent 0 "a1" computed none none
unfolding detect_injection
verify_score_unasked_example =
    verify_score_unasked wary ask silent 40 0 "a1" computed none none (λ e. cc)
