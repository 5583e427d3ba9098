-- ===== src/Complexity/Members.antt =====
-- A task type is told by its number in the class.
use mister_pilot_proxy.Prelude.{ℕ, zero, suc, ◌≡◌, refl, sym, ap, ◌∙◌, true, arith}
use mister_pilot_proxy.Complexity.{
  TaskType, explanation, edit, bugfix, refactor, feature, debugging, optimization, security,
  architecture, system_design, unknown, task_index, same_task,
}

task_at : ℕ → TaskType
task_at zero = explanation
task_at (suc zero) = edit
task_at (suc (suc zero)) = bugfix
task_at (suc (suc (suc zero))) = refactor
task_at (suc (suc (suc (suc zero)))) = feature
task_at (suc (suc (suc (suc (suc zero))))) = debugging
task_at (suc (suc (suc (suc (suc (suc zero)))))) = optimization
task_at (suc (suc (suc (suc (suc (suc (suc zero))))))) = security
task_at (suc (suc (suc (suc (suc (suc (suc (suc zero)))))))) = architecture
task_at (suc (suc (suc (suc (suc (suc (suc (suc (suc zero))))))))) = system_design
task_at (suc (suc (suc (suc (suc (suc (suc (suc (suc (suc n)))))))))) = unknown

task_at-task_index : (t : TaskType) → task_at (task_index t) ≡ t
unfolding task_at task_index
task_at-task_index explanation = refl
task_at-task_index edit = refl
task_at-task_index bugfix = refl
task_at-task_index refactor = refl
task_at-task_index feature = refl
task_at-task_index debugging = refl
task_at-task_index optimization = refl
task_at-task_index security = refl
task_at-task_index architecture = refl
task_at-task_index system_design = refl
task_at-task_index unknown = refl

pub same_task_eq : (t u : TaskType) → same_task t u ≡ true → t ≡ u
unfolding same_task
same_task_eq t u h =
    let e : task_index t ≡ task_index u = ground (arith, h) in
    sym (task_at-task_index t) ∙ ap task_at e ∙ task_at-task_index u

pub same_task_refl : (t : TaskType) → same_task t t ≡ true
unfolding same_task
same_task_refl t = ground arith

pub same_task_sym : (t u : TaskType) → same_task t u ≡ same_task u t
unfolding same_task
same_task_sym t u = ground arith
