-- ===== src/Complexity/Reach.antt =====
-- `detect_scope` of backend/services/complexity_scorer.py: how far the work reaches.
pub mod Payload
use Prim.Native.String.{◌++◌ as ◌<>◌}
use mister_pilot_proxy.Prelude.{
  ℕ, zero, suc, String, Bool, true, false, not, Option, none, some, List, [], ◌∷◌, ◌++◌, leb, eqb,
  if◌then◌else◌, length, contains, distinct,
}
use mister_pilot_proxy.Prelude.Decimal.{decimal}
use mister_pilot_proxy.Json.{Json, str, arr, obj, Items, nil, cons, get_field, find_field, to_list}
use mister_pilot_proxy.Complexity.{
  TaskType, Scope, one_module, multi_module, repository, whole, Detection, ExtractedPrompt, Engine,
  hits,
}
use mister_pilot_proxy.Complexity.Tables.{scope_index, default_scope, min_scope}
use mister_pilot_proxy.Complexity.Patterns.Scopes.{
  ScopePattern, scope_patterns, refers_to_attachments, refers_to_diagnostics, path_pattern,
  not_files,
}

-- `_wider`
unfoldable pub wider : Scope → Scope → Scope
wider a b = if leb (scope_index b) (scope_index a) then a else b

-- The first of the fields that is a text.
abbrev text_field : Json → List String → List String
text_field item [] = []
text_field item (k ∷ ks) = elim (get_field item k) [
  | some (str s) ↦ s ∷ []
  | _ ↦ text_field item ks
]

abbrev item_path : Json → List String
item_path (str s) = s ∷ []
item_path item = text_field item ("path" ∷ "filePath" ∷ "uri" ∷ "file" ∷ "name" ∷ "id" ∷ [])

pub item_paths : Items → List String
item_paths nil = []
item_paths (cons item items) = item_path item ++ item_paths items

abbrev paths_at : Option Json → List String
unfolding item_paths
paths_at (some (arr items)) = item_paths items
paths_at _ = []

-- `_payload_file_count`
unfoldable pub payload_file_count : Json → ExtractedPrompt → ℕ
unfolding item_paths
payload_file_count payload prompt = length (
    distinct (
      prompt.attachment_paths
      ++ (paths_at (get_field payload "references")
          ++ (paths_at (get_field payload "attachments") ++ paths_at (get_field payload "files")))))

pub diagnostic_paths : Items → List String
diagnostic_paths nil = []
diagnostic_paths (cons item items) =
    text_field item ("file" ∷ "path" ∷ "uri" ∷ "filePath" ∷ "source" ∷ []) ++ diagnostic_paths items

-- `len(files) or (1 if diags else 0)`
abbrev files_or_one : ℕ → Items → ℕ
files_or_one zero nil = 0
files_or_one zero (cons item items) = 1
files_or_one (suc n) items = suc n

abbrev diagnostics_in : Option Json → ℕ
unfolding diagnostic_paths
diagnostics_in (some (arr items)) = files_or_one (length (distinct (diagnostic_paths items))) items
diagnostics_in _ = 0

-- `_payload_diagnostic_files`
unfoldable pub payload_diagnostic_files : Json → ℕ
unfolding diagnostic_paths
payload_diagnostic_files payload = diagnostics_in (get_field payload "diagnostics")

-- `_files_to_scope`
unfoldable pub files_to_scope : ℕ → Option Scope
files_to_scope n =
    if leb 10 n
    then some repository
    else if leb 2 n
    then some multi_module
    else if eqb n 1
    then some one_module
    else none

-- The scope found so far, and by what.
pub record Reached : Type 0 where
  pub found : Option Scope
  pub evidence : List String

abbrev pub widened : Option Scope → Scope → Option Scope
widened none s = some s
widened (some a) s = some (wider a s)

-- `n` files, if they say anything, widen what was found.
unfoldable pub by_files : ℕ → String → Reached → Reached
unfolding files_to_scope wider
by_files n said reached = elim (files_to_scope n) [
  | none ↦ reached
  | some s ↦ record { found = widened reached.found s; evidence = reached.evidence ++ said ∷ [] }
]

abbrev pub found_or : Option Scope → TaskType → Scope
found_or none task = default_scope task
found_or (some s) task = s

-- At least the scope that the task implies.
unfoldable pub at_least : TaskType → Scope → Scope
unfolding wider
at_least task scope = elim (min_scope task) [ none ↦ scope | some least ↦ wider scope least ]

abbrev pub settled : TaskType → Reached → Detection Scope
settled task reached = record {
  value = at_least task (found_or reached.found task);
  evidence = reached.evidence;
  strength = elim reached.found [ none ↦ record { num = 40; den = 100 } | some s ↦ whole ];
}

abbrev stop_at : Scope → List String → Reached → Reached
stop_at scope [] rest = rest
stop_at scope (x ∷ xs) rest = record { found = some scope; evidence = x ∷ xs }

module _ (engine : Engine) where
  -- The first scope, widest first, that a phrase names.
  unfoldable pub named_scope : String → List ScopePattern → Reached
  named_scope text [] = record { found = none; evidence = [] }
  named_scope text (entry ∷ entries) =
      stop_at entry.scope (hits engine entry.pattern text) (named_scope text entries)

  unfoldable pub real_paths : List String → List String
  real_paths [] = []
  real_paths (p ∷ ps) =
      let rest = real_paths ps in if contains not_files (engine.lower p) then rest else p ∷ rest

  -- `len(_typed_paths(text))`
  unfoldable pub typed_paths : String → ℕ
  unfolding real_paths
  typed_paths text = length (distinct (real_paths (engine.finditer path_pattern text)))

  -- What the words of the request say.
  unfoldable pub said_reach : String → Reached
  unfolding named_scope typed_paths by_files
  said_reach text =
      let n = typed_paths text in
      by_files n (decimal n <> " path(s) named") (named_scope text scope_patterns)

  unfoldable pub attached_reach : ExtractedPrompt → Json → Reached → Reached
  unfolding by_files payload_file_count
  attached_reach prompt payload reached =
      let n = payload_file_count payload prompt in
      if engine.search refers_to_attachments prompt.text
      then by_files n (decimal n <> " referenced file(s)") reached
      else reached

  unfoldable pub diagnosed_reach : ExtractedPrompt → Json → Reached → Reached
  unfolding by_files payload_diagnostic_files
  diagnosed_reach prompt payload reached =
      let n = payload_diagnostic_files payload in
      if engine.search refers_to_diagnostics prompt.text
      then by_files n ("diagnostics in " <> (decimal n <> " file(s)")) reached
      else reached

  unfoldable pub detect_scope : ExtractedPrompt → TaskType → Json → Detection Scope
  unfolding said_reach attached_reach diagnosed_reach at_least
  detect_scope prompt task payload =
      settled task
        (diagnosed_reach prompt payload (attached_reach prompt payload (said_reach prompt.text)))
