-- ===== src/Complexity/Reach/Payload.antt =====
-- What the payload can do to the scope of a request, in backend/services/complexity_scorer.py.
use Prim.Native.String.{◌++◌ as ◌<>◌}
use mister_pilot_proxy.Prelude.Decimal.{decimal}
use mister_pilot_proxy.Prelude.{
  if◌then◌else◌, ℕ, ◌≤◌, ◌≡◌, refl, Bool, true, false, Option, none, some, String, arith,
  Bool-cases, Option-cases, inl, inr, leb,
}
use mister_pilot_proxy.Json.{Json}
use mister_pilot_proxy.Complexity.{
  TaskType, Scope, multi_module, service, architecture, ExtractedPrompt, Engine,
}
use mister_pilot_proxy.Complexity.Tables.{scope_index, min_scope}
use mister_pilot_proxy.Complexity.Patterns.Scopes.{refers_to_attachments, refers_to_diagnostics}
use mister_pilot_proxy.Complexity.Reach.{
  Reached, wider, by_files, files_to_scope, widened, said_reach, attached_reach, diagnosed_reach,
  at_least, found_or, detect_scope, payload_file_count, payload_diagnostic_files,
}

-- What came with a request that does not point at it is not looked at.
pub detect_scope_payload :
    (engine : Engine) (prompt : ExtractedPrompt) (task : TaskType) (p q : Json)
    → engine.search refers_to_attachments prompt.text ≡ false
    → engine.search refers_to_diagnostics prompt.text ≡ false
    → detect_scope engine prompt task p ≡ detect_scope engine prompt task q
unfolding detect_scope attached_reach diagnosed_reach
detect_scope_payload engine prompt task p q a d = rw (a, d) refl

-- A scope is found that reaches at least as far as `s`.
abbrev Reaches : Scope → Option Scope → Type 0
Reaches s none = ⊥
Reaches s (some t) = scope_index s ≤ scope_index t

wider_left : (a b : Scope) → scope_index a ≤ scope_index (wider a b)
unfolding wider
wider_left a b = elim (Bool-cases (leb (scope_index b) (scope_index a))) [
  | inl e ↦ rw e (omega arith)
  | inr e ↦ rw e (ground arith)
]

wider_right : (a b : Scope) → scope_index b ≤ scope_index (wider a b)
unfolding wider
wider_right a b = elim (Bool-cases (leb (scope_index b) (scope_index a))) [
  | inl e ↦ rw e (ground arith)
  | inr e ↦ rw e (omega arith)
]

Reaches-widened :
    (s : Scope) (found : Option Scope) (t : Scope) → Reaches s found → Reaches s (widened found t)
Reaches-widened s none t h = absurd h
Reaches-widened s (some a) t h = omega (arith, h, wider_left a t)

Reaches-by_files :
    (s : Scope) (n : ℕ) (said : String) (r : Reached)
    → Reaches s r.found
    → Reaches s (by_files n said r).found
unfolding by_files
Reaches-by_files s n said r h = elim (Option-cases (files_to_scope n)) [
  | inl e ↦ rw (e, by_files) h
  | inr (t, e) ↦ rw (e, by_files) (Reaches-widened s r.found t h)
]

Reaches-if :
    (s : Scope) (b : Bool) (n : ℕ) (said : String) (r : Reached)
    → Reaches s r.found
    → Reaches s (if b then by_files n said r else r).found
Reaches-if s true n said r h = Reaches-by_files s n said r h
Reaches-if s false n said r h = h

Reaches-pointed :
    (engine : Engine) (prompt : ExtractedPrompt) (payload : Json) (s : Scope) (r : Reached)
    → Reaches s r.found
    → Reaches s
        (diagnosed_reach engine prompt payload (attached_reach engine prompt payload r)).found
unfolding attached_reach diagnosed_reach
Reaches-pointed engine prompt payload s r h =
    Reaches-if s (engine.search refers_to_diagnostics prompt.text)
      (payload_diagnostic_files payload)
      ("diagnostics in " <> (decimal (payload_diagnostic_files payload) <> " file(s)")) _
      (Reaches-if s (engine.search refers_to_attachments prompt.text)
        (payload_file_count payload prompt)
        (decimal (payload_file_count payload prompt) <> " referenced file(s)") r h)

Reaches-found_or :
    (s : Scope) (found : Option Scope) (task : TaskType)
    → Reaches s found
    → scope_index s ≤ scope_index (found_or found task)
Reaches-found_or s none task h = absurd h
Reaches-found_or s (some t) task h = h

at_least_ge : (task : TaskType) (s : Scope) → scope_index s ≤ scope_index (at_least task s)
unfolding at_least
at_least_ge task s = elim (Option-cases (min_scope task)) [
  | inl e ↦ rw (e, at_least) (omega arith)
  | inr (least, e) ↦ rw (e, at_least) (wider_left s least)
]

at_least_minimum :
    (task : TaskType) (s least : Scope)
    → min_scope task ≡ some least
    → scope_index least ≤ scope_index (at_least task s)
unfolding at_least
at_least_minimum task s least e = rw (e, at_least) (wider_right s least)

-- Once the words of a request say how far it reaches, nothing that came with it narrows that, and
-- nothing narrows a scope below what its task type implies.
pub detect_scope_widens :
    (engine : Engine) (prompt : ExtractedPrompt) (task : TaskType) (payload : Json) (s : Scope)
    → (said_reach engine prompt.text).found ≡ some s
    → (scope_index s ≤ scope_index (detect_scope engine prompt task payload).value)
      × ((least : Scope)
          → min_scope task ≡ some least
          → scope_index least ≤ scope_index (detect_scope engine prompt task payload).value)
unfolding detect_scope
detect_scope_widens engine prompt task payload s e =
    let said : Reaches s (said_reach engine prompt.text).found = rw e (omega arith) in
    let all = Reaches-pointed engine prompt payload s (said_reach engine prompt.text) said in
    (
      omega (arith, Reaches-found_or s _ task all, at_least_ge task (found_or _ task)),
      λ least m. at_least_minimum task _ least m,
    )

-- A design whose words name no scope reaches less far with one attached file than with none, if
-- its words point at the attachments.
pub detect_scope_narrowed :
    (engine : Engine) (prompt : ExtractedPrompt) (p q : Json)
    → (said_reach engine prompt.text).found ≡ none
    → engine.search refers_to_attachments prompt.text ≡ true
    → engine.search refers_to_diagnostics prompt.text ≡ false
    → payload_file_count p prompt ≡ 1
    → payload_file_count q prompt ≡ 0
    → ((detect_scope engine prompt architecture p).value ≡ multi_module)
      × ((detect_scope engine prompt architecture q).value ≡ service)
unfolding detect_scope attached_reach diagnosed_reach by_files at_least files_to_scope
detect_scope_narrowed engine prompt p q said a d one zero =
    (rw (a, d, one, by_files, files_to_scope, said) refl, rw (a, d, zero, said) refl)
