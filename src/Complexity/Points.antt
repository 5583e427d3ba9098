-- ===== src/Complexity/Points.antt =====
-- The composition of the score by backend/services/complexity_scorer.py: `_task_points`,
-- `_security_points`, `_dependency_points`, `_depth_points` and `compute_score`. Points are in
-- hundredths.
pub mod Bounds
use mister_pilot_proxy.Prelude.{
  ℕ, ◌+◌, ◌-◌, ◌*◌, ◌/◌, min, max, String, Bool, true, false, ◌&&◌, ◌||◌, List, [], ◌∷◌, eqb,
  if◌then◌else◌, length,
}
use mister_pilot_proxy.Complexity.{
  TaskType, explanation, security, unknown, same_task, Scope, ReasoningDepth, low, medium, high,
  Detection, Engine, hits, ScoreBreakdown,
}
use mister_pilot_proxy.Complexity.Tables.{least_points, most_points, scope_position}
use mister_pilot_proxy.Complexity.Signals.{is_some}
use mister_pilot_proxy.Complexity.Patterns.Single.{
  action_verbs, breadth_words, code_reference, scale_pattern,
}

abbrev pub per_extra_action : ℕ
per_extra_action = 15

abbrev pub for_scale : ℕ
for_scale = 30

abbrev pub for_breadth : ℕ
for_breadth = 15

abbrev pub code_bound_explain : ℕ
code_bound_explain = 50

-- What beside the scope moves a task up in its range.
unfoldable pub extra_position : Engine → TaskType → String → Bool → ℕ
extra_position engine task prompt scale =
    per_extra_action * min (length (hits engine action_verbs prompt) - 1) 3
    + (if scale then for_scale else 0)
    + (if engine.search breadth_words prompt then for_breadth else 0)
    + (if same_task task explanation && engine.search code_reference prompt
        then code_bound_explain
        else 0)

unfoldable pub task_points : Engine → TaskType → Scope → String → Bool → ℕ
unfolding extra_position
task_points engine task scope prompt scale =
    100 * least_points task
    + (most_points task - least_points task)
      * min 100 (scope_position scope + extra_position engine task prompt scale)

unfoldable pub security_points : TaskType → List String → ℕ
security_points task families =
    if eqb (length families) 0 || same_task task security
    then 0
    else 100 * min 6 (3 + (length families - 1))

unfoldable pub dependency_points : ℕ → ℕ
dependency_points count = 100 * min 5 (count - 1)

abbrev pub points_at : ReasoningDepth → ℕ → ℕ
points_at high n = 100 * (2 + min 3 (n - 1))
points_at medium n = 100 * min 2 n
points_at low n = 0

unfoldable pub depth_points : Detection ReasoningDepth → ℕ
depth_points depth = points_at depth.value (length depth.evidence)

-- Half up, and onto the scale.
unfoldable pub rounded : ℕ → ℕ
rounded raw = max 1 (min 20 ((raw + 50) / 100))

abbrev pub summed : ℕ → ℕ → ℕ → ℕ → ScoreBreakdown
unfolding rounded
summed task families dependency depth = record {
  base = 100;
  task = task;
  security_points = families;
  dependency = dependency;
  depth = depth;
  raw_total = 100 + task + families + dependency + depth;
  final = rounded (100 + task + families + dependency + depth);
}

abbrev pub no_request : ScoreBreakdown
no_request = record {
  base = 100;
  task = 0;
  security_points = 0;
  dependency = 0;
  depth = 0;
  raw_total = 100;
  final = 1;
}

unfoldable pub compute_score :
    Engine → TaskType → Scope → Detection ReasoningDepth → List String → ℕ → String → ScoreBreakdown
unfolding task_points security_points dependency_points depth_points rounded
compute_score engine task scope depth families count prompt =
    if same_task task unknown
    then no_request
    else summed (task_points engine task scope prompt (engine.search scale_pattern prompt))
        (security_points task families) (dependency_points count) (depth_points depth)
