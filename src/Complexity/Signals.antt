-- ===== src/Complexity/Signals.antt =====
-- The dimensions that backend/services/complexity_scorer.py finds in a request beside its task:
-- architecture, security, components and the depth of reasoning.
use Prim.Native.String.{◌++◌ as ◌<>◌, compare}
use Prim.Native.Nat.{Ordering}
use mister_pilot_proxy.Prelude.{
  ℕ, String, Bool, true, false, ◌||◌, List, [], ◌∷◌, ◌++◌, min, max, if◌then◌else◌, length, join,
  map,
}
use mister_pilot_proxy.Complexity.{
  TaskType, ReasoningDepth, low, medium, high, Fraction, nought, Detection, Engine, Found, hits,
  concepts,
}
use mister_pilot_proxy.Complexity.Tables.{min_components, is_high_depth, is_medium_depth}
use mister_pilot_proxy.Complexity.Patterns.Concepts.{arch_concepts}
use mister_pilot_proxy.Complexity.Patterns.Families.{security_families}
use mister_pilot_proxy.Complexity.Patterns.Components.{component_families}
use mister_pilot_proxy.Complexity.Patterns.Single.{hard_debug, complicators}

-- `sorted` of the names, with the phrases. The names differ.
abbrev name_le : Found → Found → Bool
name_le f g = elim (compare f.name g.name) [ Ordering.gt ↦ false | _ ↦ true ]

unfoldable pub insert_found : Found → List Found → List Found
insert_found f [] = f ∷ []
insert_found f (g ∷ gs) = if name_le f g then f ∷ g ∷ gs else g ∷ insert_found f gs

unfoldable pub sort_found : List Found → List Found
unfolding insert_found
sort_found [] = []
sort_found (f ∷ fs) = insert_found f (sort_found fs)

abbrev pub all_phrases : List Found → List String
all_phrases [] = []
all_phrases (f ∷ fs) = f.phrases ++ all_phrases fs

-- `min(1.0, n / whole)`
abbrev part_of : ℕ → ℕ → Fraction
part_of n all = record { num = min n all; den = all }

abbrev families_in : List Found → Detection (List String)
families_in found = record {
  value = map (λ (f : Found). f.name) (sort_found found);
  evidence = all_phrases found;
  strength = part_of (length found) 3;
}

unfoldable pub detect_architecture_signals : Engine → String → Detection (List String)
unfolding sort_found
detect_architecture_signals engine prompt = families_in (concepts engine prompt arch_concepts)

unfoldable pub detect_security_signals : Engine → String → Detection (List String)
unfolding sort_found
detect_security_signals engine prompt = families_in (concepts engine prompt security_families)

abbrev component_line : Found → String
component_line f = f.name <> (": " <> join ", " f.phrases)

unfoldable pub estimate_dependency_complexity : Engine → String → TaskType → Detection ℕ
unfolding sort_found
estimate_dependency_complexity engine prompt task =
    let found = concepts engine prompt component_families in
    record {
      value = max 1 (max (length found) (min_components task));
      evidence = map component_line (sort_found found);
      strength = part_of (length found) 5;
    }

abbrev one_if : List String → String → List String
one_if [] said = []
one_if (x ∷ xs) said = said ∷ []

-- The concepts that make a task deep.
unfoldable pub deep_concepts : Engine → String → List String → List String → List String
deep_concepts engine prompt concepts_found families =
    concepts_found
    ++ (one_if families "security" ++ one_if (hits engine hard_debug prompt) "hard_debugging")

abbrev pub is_some : List String → Bool
is_some [] = false
is_some (x ∷ xs) = true

abbrev ordinary_depth : Engine → String → TaskType → Detection ReasoningDepth
ordinary_depth engine prompt task =
    let found = hits engine complicators prompt in
    if is_medium_depth task
    then record { value = medium; evidence = found; strength = part_of (length found) 2 }
    else record { value = low; evidence = []; strength = nought }

unfoldable pub detect_reasoning_depth :
    Engine → String → TaskType → List String → List String → Detection ReasoningDepth
unfolding deep_concepts
detect_reasoning_depth engine prompt task concepts_found families =
    let deep = deep_concepts engine prompt concepts_found families in
    if is_high_depth task || is_some deep
    then record { value = high; evidence = deep; strength = part_of (length deep) 3 }
    else ordinary_depth engine prompt task
