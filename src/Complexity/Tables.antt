-- ===== src/Complexity/Tables.antt =====
-- The tables of backend/services/complexity_scorer.py by task type and scope. Positions are in
-- hundredths of a range.
use mister_pilot_proxy.Prelude.{ℕ, Option, none, some, List, [], ◌∷◌, Bool, true, false}
use mister_pilot_proxy.Complexity.{
  TaskType, explanation, edit, bugfix, refactor, feature, debugging, optimization, security,
  architecture, system_design, unknown, Scope, function, class, one_module, multi_module, service,
  repository, cross_repository,
}

abbrev pub task_precedence : List TaskType
task_precedence =
    system_design ∷ architecture ∷ security ∷ debugging ∷ optimization ∷ refactor ∷ feature ∷ bugfix
    ∷ edit ∷ explanation ∷ []

-- `_SCOPE_ORDER.index`
abbrev pub scope_index : Scope → ℕ
scope_index function = 0
scope_index class = 1
scope_index one_module = 2
scope_index multi_module = 3
scope_index service = 4
scope_index repository = 5
scope_index cross_repository = 6

abbrev pub default_scope : TaskType → Scope
default_scope explanation = function
default_scope edit = function
default_scope bugfix = one_module
default_scope debugging = one_module
default_scope refactor = one_module
default_scope feature = one_module
default_scope optimization = one_module
default_scope security = one_module
default_scope architecture = service
default_scope system_design = service
default_scope unknown = function

-- `_MIN_SCOPE.get`
abbrev pub min_scope : TaskType → Option Scope
min_scope architecture = some multi_module
min_scope system_design = some service
min_scope _ = none

-- `_MIN_COMPONENTS.get(task_type, 1)`
abbrev pub min_components : TaskType → ℕ
min_components architecture = 3
min_components system_design = 3
min_components _ = 1

-- `task_type in _HIGH_DEPTH_TASKS`
abbrev pub is_high_depth : TaskType → Bool
is_high_depth architecture = true
is_high_depth system_design = true
is_high_depth security = true
is_high_depth _ = false

-- `task_type in _MEDIUM_DEPTH_TASKS`
abbrev pub is_medium_depth : TaskType → Bool
is_medium_depth bugfix = true
is_medium_depth feature = true
is_medium_depth refactor = true
is_medium_depth debugging = true
is_medium_depth optimization = true
is_medium_depth _ = false

-- The bounds of TASK_POINTS.
abbrev pub least_points : TaskType → ℕ
least_points explanation = 0
least_points edit = 1
least_points bugfix = 2
least_points debugging = 3
least_points optimization = 3
least_points refactor = 3
least_points feature = 4
least_points security = 3
least_points architecture = 5
least_points system_design = 7
least_points unknown = 0

abbrev pub most_points : TaskType → ℕ
most_points explanation = 2
most_points edit = 3
most_points bugfix = 5
most_points debugging = 7
most_points optimization = 7
most_points refactor = 6
most_points feature = 8
most_points security = 6
most_points architecture = 8
most_points system_design = 10
most_points unknown = 0

abbrev pub scope_position : Scope → ℕ
scope_position function = 0
scope_position class = 5
scope_position one_module = 10
scope_position multi_module = 35
scope_position service = 60
scope_position repository = 80
scope_position cross_repository = 100
