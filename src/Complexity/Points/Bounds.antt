-- ===== src/Complexity/Points/Bounds.antt =====
-- What bounds and what moves the score of `compute_score` in backend/services/complexity_scorer.py.
use mister_pilot_proxy.Prelude.{
  ℕ, ◌+◌, ◌-◌, ◌*◌, ◌≤◌, ◌<◌, ◌≡◌, ◌⊎◌, inl, inr, refl, min, Bool, List, String, arith, length,
  Bool-cases,
}
use mister_pilot_proxy.Complexity.{
  TaskType, explanation, edit, bugfix, refactor, feature, debugging, optimization, security,
  architecture, system_design, unknown, same_task, Scope, ReasoningDepth, low, medium, high,
  Detection, Engine, ScoreBreakdown, function,
}
use mister_pilot_proxy.Complexity.Patterns.Single.{scale_pattern}
use native.Mathlib.Nat.{mul-le-mul_left}
use mister_pilot_proxy.Complexity.Members.{same_task_eq}
use mister_pilot_proxy.Complexity.Tables.{least_points, most_points, scope_position, scope_index}
use mister_pilot_proxy.Complexity.Points.{
  extra_position, task_points, security_points, dependency_points, depth_points, points_at, rounded,
  compute_score, summed, no_request,
}

-- The parts within their caps, and the whole the nearest score to their sum that the scale has.
pub record Capped (task : TaskType) (b : ScoreBreakdown) : Type 0 where
  pub task_low : 100 * least_points task ≤ b.task
  pub task_high : b.task ≤ 100 * most_points task
  pub security_high : b.security_points ≤ 600
  pub dependency_high : b.dependency ≤ 500
  pub depth_high : b.depth ≤ 500
  pub total : b.raw_total ≡ 100 + b.task + b.security_points + b.dependency + b.depth
  pub on_scale : (1 ≤ b.final) × (b.final ≤ 20)
  pub nearest :
      (100 * b.final ≤ b.raw_total + 50)
      × ((b.final ≡ 20) ⊎ (b.raw_total + 50 < 100 * b.final + 100))

points_ordered : (task : TaskType) → least_points task ≤ most_points task
points_ordered explanation = omega arith
points_ordered edit = omega arith
points_ordered bugfix = omega arith
points_ordered refactor = omega arith
points_ordered feature = omega arith
points_ordered debugging = omega arith
points_ordered optimization = omega arith
points_ordered security = omega arith
points_ordered architecture = omega arith
points_ordered system_design = omega arith
points_ordered unknown = omega arith

within_range :
    (least most p : ℕ)
    → least ≤ most
    → (100 * least ≤ 100 * least + (most - least) * min 100 p)
      × (100 * least + (most - least) * min 100 p ≤ 100 * most)
within_range least most p h =
    let cap : (most - least) * min 100 p ≤ (most - least) * 100 =
      mul-le-mul_left (most - least) (omega arith) in
    omega arith

wider_range : (width p q : ℕ) → p ≤ q → width * min 100 p ≤ width * min 100 q
wider_range width p q h = grind arith

rounded_scale : (raw : ℕ) → (1 ≤ rounded raw) × (rounded raw ≤ 20)
unfolding rounded
rounded_scale raw = omega arith

rounded_nearest :
    (raw : ℕ)
    → 100 ≤ raw
    → (100 * rounded raw ≤ raw + 50) × ((rounded raw ≡ 20) ⊎ (raw + 50 < 100 * rounded raw + 100))
unfolding rounded
rounded_nearest raw h = ground arith

rounded_mono : (m n : ℕ) → m ≤ n → rounded m ≤ rounded n
unfolding rounded
rounded_mono m n h = omega arith

security_points_capped :
    (task : TaskType) (families : List String) → security_points task families ≤ 600
unfolding security_points
security_points_capped task families = ground arith

depth_points_capped : (depth : Detection ReasoningDepth) → depth_points depth ≤ 500
unfolding depth_points
depth_points_capped depth = capped depth.value (length depth.evidence)
  where
    capped : (d : ReasoningDepth) (n : ℕ) → points_at d n ≤ 500
    capped low n = omega arith
    capped medium n = omega arith
    capped high n = omega arith

task_points_within :
    (engine : Engine) (task : TaskType) (scope : Scope) (prompt : String) (scale : Bool)
    → (100 * least_points task ≤ task_points engine task scope prompt scale)
      × (task_points engine task scope prompt scale ≤ 100 * most_points task)
unfolding task_points
task_points_within engine task scope prompt scale =
    within_range (least_points task) (most_points task) _ (points_ordered task)

summed-Capped :
    (task : TaskType) (t s c d : ℕ)
    → (100 * least_points task ≤ t) × (t ≤ 100 * most_points task)
    → s ≤ 600
    → c ≤ 500
    → d ≤ 500
    → Capped task (summed t s c d)
unfolding summed
summed-Capped task t s c d h k l m = record {
  task_low = h.0;
  task_high = h.1;
  security_high = k;
  dependency_high = l;
  depth_high = m;
  total = refl;
  on_scale = rounded_scale _;
  nearest = rounded_nearest _ (omega arith);
}

no_request-Capped : Capped unknown no_request
no_request-Capped = record {
  task_low = omega arith;
  task_high = omega arith;
  security_high = omega arith;
  dependency_high = omega arith;
  depth_high = omega arith;
  total = refl;
  on_scale = (omega arith, omega arith);
  nearest = (omega arith, inr (omega arith));
}

-- Whatever the patterns find: each part of a score stays within its cap, the score is the nearest
-- whole to their sum, half up, at most 20 and at least 1.
pub compute_score-Capped :
    (engine : Engine) (task : TaskType) (scope : Scope) (depth : Detection ReasoningDepth)
    (families : List String) (count : ℕ) (prompt : String)
    → Capped task (compute_score engine task scope depth families count prompt)
unfolding compute_score dependency_points
compute_score-Capped engine task scope depth families count prompt =
    elim (Bool-cases (same_task task unknown)) [
      | inl e ↦ rw (e, compute_score) (rw (same_task_eq task unknown e) no_request-Capped)
      | inr e ↦
          rw (e, compute_score)
            (summed-Capped task _ _ _ _ (task_points_within engine task scope prompt _)
              (security_points_capped task families) (omega arith) (depth_points_capped depth))
    ]

abbrev pub depth_index : ReasoningDepth → ℕ
depth_index low = 0
depth_index medium = 1
depth_index high = 2

points_at_mono :
    (d e : ReasoningDepth) (m n : ℕ)
    → depth_index d ≤ depth_index e
    → m ≤ n
    → points_at d m ≤ points_at e n
points_at_mono low e m n h k = omega arith
points_at_mono medium low m n h k = absurd (omega arith)
points_at_mono medium medium m n h k = omega arith
points_at_mono medium high m n h k = omega arith
points_at_mono high low m n h k = absurd (omega arith)
points_at_mono high medium m n h k = absurd (omega arith)
points_at_mono high high m n h k = omega arith

security_points_mono :
    (task : TaskType) (fs gs : List String)
    → length fs ≤ length gs
    → security_points task fs ≤ security_points task gs
unfolding security_points
security_points_mono task fs gs h = ground arith

scope_position_mono :
    (a b : Scope) → scope_index a ≤ scope_index b → scope_position a ≤ scope_position b
scope_position_mono function function h = omega arith
scope_position_mono _ _ h = ground arith

-- For one and the same prompt and kind of task: with a scope that reaches at least as far, at least as
-- many security families and components, and a depth that is at least as great on at least as much
-- evidence, the score is at least as much.
pub compute_score_mono :
    (engine : Engine) (task : TaskType) (a b : Scope) (d e : Detection ReasoningDepth)
    (fs gs : List String) (m n : ℕ) (prompt : String)
    → scope_index a ≤ scope_index b
    → depth_index d.value ≤ depth_index e.value
    → length d.evidence ≤ length e.evidence
    → length fs ≤ length gs
    → m ≤ n
    → (compute_score engine task a d fs m prompt).final
      ≤ (compute_score engine task b e gs n prompt).final
unfolding compute_score task_points dependency_points depth_points summed
compute_score_mono engine task a b d e fs gs m n prompt ab de evidence families components =
    elim (Bool-cases (same_task task unknown)) [
      | inl t ↦ rw t (omega arith)
      | inr t ↦ rw t (
          rounded_mono _ _ (
            omega (
              arith,
              wider_range (most_points task - least_points task)
                  (scope_position a
                    + extra_position engine task prompt (engine.search scale_pattern prompt))
                  (scope_position b
                    + extra_position engine task prompt (engine.search scale_pattern prompt))
                  (omega (arith, scope_position_mono a b ab)),
              points_at_mono d.value e.value (length d.evidence) (length e.evidence) de evidence,
              security_points_mono task fs gs families,
            )))
    ]
