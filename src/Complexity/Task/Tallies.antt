-- ===== src/Complexity/Task/Tallies.antt =====
-- The tallies of `detect_task_type` in backend/services/complexity_scorer.py: no task type stands
-- there twice, and what is dropped leaves one.
use mister_pilot_proxy.Prelude.{
  ℕ, suc, ◌≡◌, ◌⊎◌, inl, inr, refl, sym, ◌∙◌, max, Bool, true, false, ◌||◌, ◌&&◌, not, List, [],
  ◌∷◌, String, arith, length, Bool-cases, ltb,
}
use mister_pilot_proxy.Complexity.{
  TaskType, explanation, edit, bugfix, debugging, security, optimization, unknown, same_task,
  Engine, hits,
}
use mathlib.Core.Path.{subst}
use mister_pilot_proxy.Complexity.Members.{same_task_eq, same_task_refl, same_task_sym}
use mister_pilot_proxy.Complexity.Patterns.Tasks.{TaskPattern, task_patterns}
use mister_pilot_proxy.Complexity.Task.{
  Tally, add_tally, tally_all, has_tally, without_tally, drop_explanation, drop_bugfix, greatest,
  scores, only_fix, phrases_of, more_specific,
}

-- No task type twice, and none that is unknown.
abbrev pub Distinct : List Tally → Type 0
Distinct [] = Unit
Distinct (t ∷ ts) = (has_tally t.task ts ≡ false) × (same_task t.task unknown ≡ false) × Distinct ts

has_tally-without_tally :
    (task other : TaskType) (ts : List Tally)
    → has_tally task ts ≡ false
    → has_tally task (without_tally other ts) ≡ false
unfolding has_tally without_tally
has_tally-without_tally task other [] h = refl
has_tally-without_tally task other (t ∷ ts) h =
    ground (arith, has_tally-without_tally task other ts)

without_tally-Distinct :
    (task : TaskType) (ts : List Tally) → Distinct ts → Distinct (without_tally task ts)
unfolding without_tally
without_tally-Distinct task [] d = tt
without_tally-Distinct task (t ∷ ts) d =
    let rest = without_tally-Distinct task ts d.2 in
    let apart = has_tally-without_tally t.task task ts d.0 in
    elim (Bool-cases (same_task t.task task)) [
      | inl e ↦ rw e rest
      | inr e ↦ rw e (apart, d.1, rest)
    ]

no_entry : TaskType → List TaskPattern → Bool
no_entry task [] = true
no_entry task (x ∷ xs) = not (same_task x.task task) && no_entry task xs

pub good_entries : List TaskPattern → Bool
unfolding no_entry
good_entries [] = true
good_entries (x ∷ xs) = no_entry x.task xs && not (same_task x.task unknown) && good_entries xs

pub task_patterns_good : good_entries task_patterns ≡ true
unfolding good_entries same_task
task_patterns_good = refl

has_tally-add_tally :
    (task : TaskType) (entry : TaskPattern) (found : List String) (ts : List Tally)
    → same_task entry.task task ≡ false
    → has_tally task ts ≡ false
    → has_tally task (add_tally entry found ts) ≡ false
unfolding has_tally
has_tally-add_tally task entry [] ts e h = h
has_tally-add_tally task entry (x ∷ xs) ts e h = rw (e, has_tally) h

has_tally-tally_all :
    (engine : Engine) (prompt : String) (task : TaskType) (entries : List TaskPattern)
    → no_entry task entries ≡ true
    → has_tally task (tally_all engine prompt entries) ≡ false
unfolding tally_all no_entry has_tally
has_tally-tally_all engine prompt task [] h = refl
has_tally-tally_all engine prompt task (x ∷ xs) h =
    has_tally-add_tally task x (hits engine x.pattern prompt) _ (ground arith)
      (has_tally-tally_all engine prompt task xs (ground arith))

add_tally-Distinct :
    (entry : TaskPattern) (found : List String) (ts : List Tally)
    → has_tally entry.task ts ≡ false
    → same_task entry.task unknown ≡ false
    → Distinct ts
    → Distinct (add_tally entry found ts)
add_tally-Distinct entry [] ts a b d = d
add_tally-Distinct entry (x ∷ xs) ts a b d = (a, b, d)

pub tally_all-Distinct :
    (engine : Engine) (prompt : String) (entries : List TaskPattern)
    → good_entries entries ≡ true
    → Distinct (tally_all engine prompt entries)
unfolding tally_all good_entries
tally_all-Distinct engine prompt [] h = tt
tally_all-Distinct engine prompt (x ∷ xs) h =
    add_tally-Distinct x (hits engine x.pattern prompt) _
      (has_tally-tally_all engine prompt x.task xs (ground arith)) (ground arith)
      (tally_all-Distinct engine prompt xs (ground arith))

pub apart_sym : (t u : TaskType) → same_task t u ≡ false → same_task u t ≡ false
apart_sym t u h = sym (same_task_sym t u) ∙ h

-- Who attains the greatest total.
pub greatest-attained :
    (b : ℕ) (ts : List Tally)
    → Distinct ts
    → (greatest b ts ≡ b)
      ⊎ ((task : TaskType) × (scores ts (greatest b ts) task ≡ true) × (has_tally task ts ≡ true))
unfolding greatest scores has_tally
greatest-attained b [] d = inl refl
greatest-attained b (t ∷ ts) d = elim (greatest-attained (max b t.total) ts d.2) [
  | inr (task, won, has) ↦ elim (Bool-cases (same_task t.task task)) [
    | inl e ↦
        let same : t.task ≡ task = same_task_eq t.task task e in
        let gone : has_tally task ts ≡ false = subst (λ x. has_tally x ts ≡ false) same d.0 in cc
    | inr e ↦ inr (task, rw e won, rw (e, has_tally) has)
  ]
  | inl e ↦ elim (Bool-cases (ltb b t.total)) [
    | inl less ↦
        let top : max b t.total ≡ t.total = ground arith in
        inr (
          t.task,
          rw (same_task_refl t.task, e, top) (ground arith),
          rw (same_task_refl t.task, has_tally) refl,
        )
    | inr more ↦ inl (e ∙ ground arith)
  ]
]

has_tally-without_tally_other :
    (task other : TaskType) (ts : List Tally)
    → same_task other task ≡ false
    → has_tally task ts ≡ true
    → has_tally task (without_tally other ts) ≡ true
unfolding has_tally without_tally
has_tally-without_tally_other task other [] e h = h
has_tally-without_tally_other task other (t ∷ ts) e h = elim (Bool-cases (same_task t.task other)) [
  | inl same ↦
      let is : t.task ≡ other = same_task_eq t.task other same in
      let apart : same_task t.task task ≡ false =
        subst (λ x. same_task x task ≡ false) (sym is) e in
      rw same (has_tally-without_tally_other task other ts e (rw apart at h))
  | inr differs ↦
      rw (differs, has_tally) (step t ts (has_tally-without_tally_other task other ts e) h)
]
  where
    step :
        (t : Tally) (ts : List Tally)
        → (has_tally task ts ≡ true → has_tally task (without_tally other ts) ≡ true)
        → (same_task t.task task || has_tally task ts) ≡ true
        → (same_task t.task task || has_tally task (without_tally other ts)) ≡ true
    step t ts ih k = elim (Bool-cases (same_task t.task task)) [
      | inl e ↦ rw e refl
      | inr e ↦ rw e (ih (rw e at k))
    ]

-- Something was found.
abbrev pub Nonempty : List Tally → Type 0
Nonempty ts = (task : TaskType) × (has_tally task ts ≡ true)

drop_explanation_many :
    (t u : Tally) (us : List Tally)
    → drop_explanation (t ∷ u ∷ us) ≡ without_tally explanation (t ∷ u ∷ us)
unfolding drop_explanation
drop_explanation_many t u us =
    let longer : ltb 1 (suc (suc (length us))) ≡ true = ground arith in rw longer refl

-- Of two different task types one is not an explanation.
many-Nonempty :
    (t u : Tally) (us : List Tally)
    → same_task u.task t.task ≡ false
    → Nonempty (without_tally explanation (t ∷ u ∷ us))
unfolding has_tally
many-Nonempty t u us apart = elim (Bool-cases (same_task explanation t.task)) [
  | inr e ↦ (
    t.task,
    has_tally-without_tally_other t.task explanation (t ∷ u ∷ us) e
        (rw (same_task_refl t.task) refl),
  )
  | inl e ↦
      let is : explanation ≡ t.task = same_task_eq explanation t.task e in
      let e' : same_task explanation u.task ≡ false =
        apart_sym u.task explanation (subst (λ x. same_task u.task x ≡ false) (sym is) apart) in
      (
        u.task,
        has_tally-without_tally_other u.task explanation (t ∷ u ∷ us) e' (second t u us apart),
      )
]
  where
    second :
        (t u : Tally) (us : List Tally)
        → same_task u.task t.task ≡ false
        → has_tally u.task (t ∷ u ∷ us) ≡ true
    second t u us h = rw (apart_sym u.task t.task h, same_task_refl u.task) refl

pub drop_explanation-Nonempty :
    (t : Tally) (ts : List Tally) → Distinct (t ∷ ts) → Nonempty (drop_explanation (t ∷ ts))
unfolding drop_explanation has_tally
drop_explanation-Nonempty t [] d = (t.task, rw (same_task_refl t.task) refl)
drop_explanation-Nonempty t (u ∷ us) d =
    subst Nonempty (sym (drop_explanation_many t u us)) (many-Nonempty t u us (ground (arith, d.0)))

pub drop_explanation-Distinct : (ts : List Tally) → Distinct ts → Distinct (drop_explanation ts)
unfolding drop_explanation
drop_explanation-Distinct ts d = elim (Bool-cases (ltb 1 (length ts))) [
  | inl e ↦ rw e (without_tally-Distinct explanation ts d)
  | inr e ↦ rw e d
]

pub drop_bugfix-Distinct : (ts : List Tally) → Distinct ts → Distinct (drop_bugfix ts)
unfolding drop_bugfix
drop_bugfix-Distinct ts d =
    elim (Bool-cases (only_fix (phrases_of bugfix ts) && more_specific ts)) [
      | inl e ↦ rw e (without_tally-Distinct bugfix ts d)
      | inr e ↦ rw e d
    ]

specific-Nonempty : (ts : List Tally) → more_specific ts ≡ true → Nonempty (without_tally bugfix ts)
unfolding more_specific same_task
specific-Nonempty ts h = elim (Bool-cases (has_tally edit ts)) [
  | inl e ↦ (edit, has_tally-without_tally_other edit bugfix ts refl e)
  | inr a ↦ elim (Bool-cases (has_tally debugging ts)) [
    | inl e ↦ (debugging, has_tally-without_tally_other debugging bugfix ts refl e)
    | inr b ↦ elim (Bool-cases (has_tally security ts)) [
      | inl e ↦ (security, has_tally-without_tally_other security bugfix ts refl e)
      | inr c ↦ (
        optimization,
        has_tally-without_tally_other optimization bugfix ts refl (ground (arith, h, a, b, c)),
      )
    ]
  ]
]

pub drop_bugfix-Nonempty : (ts : List Tally) → Nonempty ts → Nonempty (drop_bugfix ts)
unfolding drop_bugfix
drop_bugfix-Nonempty ts f =
    elim (Bool-cases (only_fix (phrases_of bugfix ts) && more_specific ts)) [
      | inl e ↦ rw e (specific-Nonempty ts (ground arith))
      | inr e ↦ rw e f
    ]
