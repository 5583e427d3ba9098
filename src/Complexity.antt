-- ===== src/Complexity.antt =====
-- The types of backend/services/complexity_scorer.py, and its helpers on patterns. The engine of
-- regular expressions and the tables of Unicode are a parameter: the record Engine. Fractions of
-- the source are exact numbers, in hundredths where no denominator is given.
pub mod Members
pub mod Patterns
pub mod Tables
pub mod Extract
pub mod Task
pub mod Reach
pub mod Signals
pub mod Points
pub mod Confidence
pub mod Request
use mister_pilot_proxy.Prelude.{
  ℕ, String, Bool, true, false, Option, none, some, List, [], ◌∷◌, eqb, if◌then◌else◌, join, strip,
  distinct, map, ◌==◌,
}
use Prim.Native.String.{◌++◌ as ◌<>◌}

pub data TaskType : Type 0 where
  explanation edit bugfix refactor feature debugging optimization security architecture : TaskType
  system_design unknown : TaskType

pub data Scope : Type 0 where
  function class one_module multi_module service repository cross_repository : Scope

pub data ReasoningDepth : Type 0 where
  low medium high : ReasoningDepth

-- The members in the order of the class.
abbrev pub all_tasks : List TaskType
all_tasks =
    explanation ∷ edit ∷ bugfix ∷ refactor ∷ feature ∷ debugging ∷ optimization ∷ security
    ∷ architecture ∷ system_design ∷ unknown ∷ []

abbrev pub task_value : TaskType → String
task_value explanation = "explanation"
task_value edit = "edit"
task_value bugfix = "bugfix"
task_value refactor = "refactor"
task_value feature = "feature"
task_value debugging = "debugging"
task_value optimization = "optimization"
task_value security = "security"
task_value architecture = "architecture"
task_value system_design = "system_design"
task_value unknown = "unknown"

abbrev pub all_scopes : List Scope
all_scopes =
    function ∷ class ∷ one_module ∷ multi_module ∷ service ∷ repository ∷ cross_repository ∷ []

abbrev pub scope_value : Scope → String
scope_value function = "function"
scope_value class = "class"
scope_value one_module = "module"
scope_value multi_module = "multi_module"
scope_value service = "service"
scope_value repository = "repository"
scope_value cross_repository = "cross_repository"

abbrev pub all_depths : List ReasoningDepth
all_depths = low ∷ medium ∷ high ∷ []

abbrev pub depth_value : ReasoningDepth → String
depth_value low = "low"
depth_value medium = "medium"
depth_value high = "high"

-- `is` on members
unfoldable pub task_index : TaskType → ℕ
task_index explanation = 0
task_index edit = 1
task_index bugfix = 2
task_index refactor = 3
task_index feature = 4
task_index debugging = 5
task_index optimization = 6
task_index security = 7
task_index architecture = 8
task_index system_design = 9
task_index unknown = 10

unfoldable pub same_task : TaskType → TaskType → Bool
unfolding task_index
same_task t u = eqb (task_index t) (task_index u)

-- A fraction between 0 and 1.
pub record Fraction : Type 0 where
  pub num : ℕ
  pub den : ℕ

abbrev pub whole : Fraction
whole = record { num = 1; den = 1 }

abbrev pub nought : Fraction
nought = record { num = 0; den = 1 }

-- What a detector found, and the phrases that it found it by.
pub record Detection {ℓ} (A : Type ℓ) : Type ℓ where
  pub value : A
  pub evidence : List String
  pub strength : Fraction

pub record ExtractedPrompt : Type 0 where
  pub text : String
  pub source : String
  pub raw_text : String
  pub attachment_paths : List String
  pub is_followup : Bool

-- A compiled pattern: its source, and the flags that it is compiled with.
pub record Pattern : Type 0 where
  pub source : String
  pub ignore_case : Bool
  pub dot_all : Bool

-- The engine of regular expressions, and lower case: `finditer` gives the texts that are matched,
-- `findall` those of the only group, `starts` is `match`, and `sub` has the pattern, what to put in
-- its place and the text.
pub record Engine : Type 0 where
  pub finditer : Pattern → String → List String
  pub findall : Pattern → String → List String
  pub search : Pattern → String → Bool
  pub starts : Pattern → String → Bool
  pub sub : Pattern → String → String → String
  pub lower : String → String

-- `_rx`
unfoldable pub rx : List String → Pattern
rx patterns = record {
  source = "\\b(?:" <> (join "|" patterns <> ")\\b");
  ignore_case = true;
  dot_all = false;
}

-- `_hits`
unfoldable pub hits : Engine → Pattern → String → List String
hits engine pattern text =
    distinct (map (λ m. engine.lower (strip m)) (engine.finditer pattern text))

-- A family of patterns under a name.
pub record Family : Type 0 where
  pub name : String
  pub pattern : Pattern

-- What was found of a family: its name and phrases.
pub record Found : Type 0 where
  pub name : String
  pub phrases : List String

abbrev pub add_found : String → List String → List Found → List Found
add_found name [] rest = rest
add_found name (x ∷ xs) rest = record { name = name; phrases = x ∷ xs } ∷ rest

-- `_concepts`, in the order of the table.
unfoldable pub concepts : Engine → String → List Family → List Found
concepts engine prompt [] = []
concepts engine prompt (family ∷ families) =
    add_found family.name (hits engine family.pattern prompt) (concepts engine prompt families)

pub record ScoreBreakdown : Type 0 where
  pub base : ℕ
  pub task : ℕ
  pub security_points : ℕ
  pub dependency : ℕ
  pub depth : ℕ
  pub raw_total : ℕ
  pub final : ℕ

-- The dict of signals that a verdict carries.
pub record SignalRecord : Type 0 where
  pub has_architecture : Bool
  pub has_security : Bool
  pub dependency_count : ℕ
  pub architecture_concepts : List String
  pub security_families : List String
  pub components : List String
  pub scale : Bool
  pub task_evidence : List String
  pub scope_evidence : List String
  pub depth_evidence : List String
  pub breakdown : ScoreBreakdown
  pub prompt_source : String
  pub prompt : String
  pub prompt_excerpt : String
  pub scaffolding_stripped_chars : ℕ

pub record ComplexityScore : Type 0 where
  pub complexity_score : ℕ
  pub task_type : TaskType
  pub reasoning_depth : ReasoningDepth
  pub scope : Scope
  pub confidence : ℕ
  pub signals : SignalRecord
