-- ===== src/Complexity/Task/Choice.antt =====
-- Which task type `detect_task_type` of backend/services/complexity_scorer.py chooses.
use mister_pilot_proxy.Prelude.{
  ℕ, suc, ◌≤◌, ◌<◌, ◌≡◌, ◌⊎◌, inl, inr, refl, sym, ◌∙◌, max, Bool, true, false, List, [], ◌∷◌,
  String, arith, length, All, All-map, All-map2, Bool-cases, ok, is_blank, ends_in, rstrip,
  if◌then◌else◌,
}
use mister_pilot_proxy.Complexity.{
  TaskType, explanation, edit, unknown, same_task, Detection, Engine, nought,
}
use mathlib.Core.Path.{subst}
use mister_pilot_proxy.Complexity.Members.{same_task_eq, same_task_refl}
use mister_pilot_proxy.Complexity.Tables.{task_precedence}
use mister_pilot_proxy.Complexity.Patterns.Tasks.{task_patterns}
use mister_pilot_proxy.Complexity.Task.Strength.{IsFraction, chosen-IsFraction}
use mister_pilot_proxy.Complexity.Task.Tallies.{
  Distinct, Nonempty, greatest-attained, tally_all-Distinct, task_patterns_good,
  drop_explanation-Nonempty, drop_explanation-Distinct, drop_bugfix-Distinct, drop_bugfix-Nonempty,
  apart_sym,
}
use mister_pilot_proxy.Complexity.Task.{
  Tally, tally_all, has_tally, drop_explanation, drop_bugfix, greatest, best_total, scores,
  first_winner, choose, detect_task_type, detect_tallied, guess, phrases_of, strength_of, sort_down,
}

-- The place of a task type in a list of them, past the end for one that is not there.
abbrev pub place_in : List TaskType → TaskType → ℕ
place_in [] t = 0
place_in (x ∷ xs) t = if same_task x t then 0 else suc (place_in xs t)

abbrev pub total_of : TaskType → List Tally → ℕ
total_of task [] = 0
total_of task (t ∷ ts) = if same_task t.task task then t.total else total_of task ts

-- A task type that leads: no tally is higher, and of those as high it comes first.
pub record Leads (task : TaskType) (tallies : List Tally) : Type 0 where
  pub present : has_tally task tallies ≡ true
  pub highest : All (λ (t : Tally). t.total ≤ total_of task tallies) tallies
  pub first :
      All
        (λ (t : Tally).
          t.total ≡ total_of task tallies
          → place_in task_precedence task ≤ place_in task_precedence t.task)
        tallies

known_place : (t : TaskType) → same_task t unknown ≡ false → place_in task_precedence t < 10
unfolding same_task
known_place explanation h = omega arith
known_place _ h = ground arith

greatest_ge : (b : ℕ) (ts : List Tally) → b ≤ greatest b ts
unfolding greatest
greatest_ge b [] = omega arith
greatest_ge b (t ∷ ts) = omega (arith, greatest_ge (max b t.total) ts)

greatest_all : (b : ℕ) (ts : List Tally) → All (λ (t : Tally). t.total ≤ greatest b ts) ts
unfolding greatest
greatest_all b [] = tt
greatest_all b (t ∷ ts) =
    (omega (arith, greatest_ge (max b t.total) ts), greatest_all (max b t.total) ts)

-- A task type that scores the best total has it.
scores_total :
    (ts : List Tally) (best : ℕ) (task : TaskType)
    → scores ts best task ≡ true
    → (total_of task ts ≡ best) × (has_tally task ts ≡ true)
unfolding scores has_tally
scores_total [] best task h = cc
scores_total (t ∷ ts) best task h = ground (arith, scores_total ts best task)

all_apart :
    (task : TaskType) (ts : List Tally)
    → has_tally task ts ≡ false
    → All (λ (u : Tally). same_task task u.task ≡ false) ts
unfolding has_tally
all_apart task [] h = tt
all_apart task (t ∷ ts) h = (apart_sym t.task task (ground arith), all_apart task ts (ground arith))

-- Every tally with the best total is found by its task type.
all_score :
    (best : ℕ) (ts : List Tally)
    → Distinct ts
    → All (λ (t : Tally). t.total ≡ best → scores ts best t.task ≡ true) ts
unfolding scores
all_score best [] d = tt
all_score best (t ∷ ts) d = (
  λ e. rw (same_task_refl t.task) (ground arith),
  All-map2 (λ (u : Tally). same_task t.task u.task ≡ false)
      (λ (u : Tally). u.total ≡ best → scores ts best u.task ≡ true)
      (λ (u : Tally). u.total ≡ best → scores (t ∷ ts) best u.task ≡ true)
      (λ u apart found e. rw apart (found e)) ts (all_apart t.task ts d.0) (all_score best ts d.2),
)

-- The first task type in a list that scores the best total, if any does.
pub record Winner (ts : List Tally) (best : ℕ) (tasks : List TaskType) (w : TaskType) : Type 0 where
  pub won : scores ts best w ≡ true
  pub before : (u : TaskType) → scores ts best u ≡ true → place_in tasks w ≤ place_in tasks u

clash : {b : Bool} → b ≡ false → b ≡ true → ⊥
clash p q = cc

not_same :
    (ts : List Tally) (best : ℕ) (x : TaskType)
    → scores ts best x ≡ false
    → (u : TaskType) → scores ts best u ≡ true
    → same_task x u ≡ false
not_same ts best x e u h = elim (Bool-cases (same_task x u)) [
  | inl same ↦ absurd (clash (subst (λ y. scores ts best y ≡ false) (same_task_eq x u same) e) h)
  | inr differs ↦ differs
]

below_suc : {m n : ℕ} → suc m < suc n → m < n
below_suc h = omega arith

first_winner-Winner :
    (ts : List Tally) (best : ℕ) (tasks : List TaskType) (task : TaskType)
    → scores ts best task ≡ true
    → place_in tasks task < length tasks
    → (w : TaskType) × (first_winner ts best tasks ≡ ok w) × Winner ts best tasks w
unfolding first_winner
first_winner-Winner ts best [] task h k = absurd (omega arith)
first_winner-Winner ts best (x ∷ xs) task h k = elim (Bool-cases (scores ts best x)) [
  | inl e ↦ (x, rw e refl, record { won = e; before = λ u k. rw (same_task_refl x) (omega arith) })
  | inr e ↦
      let apart = not_same ts best x e in
      let later : place_in xs task < length xs = below_suc (rw (apart task h) at k) in
      let (w, found, winner) = first_winner-Winner ts best xs task h later in
      (
        w,
        rw e found,
        record {
          won = winner.won;
          before = λ u s. rw (apart w winner.won, apart u s) (omega (arith, winner.before u s));
        },
      )
]

-- What `choose` makes of tallies.
pub record Chosen (ts : List Tally) (d : Detection TaskType) : Type 0 where
  pub leads : Leads d.value ts
  pub known : same_task d.value unknown ≡ false
  pub by_phrases : d.evidence ≡ phrases_of d.value ts
  pub by_margin : d.strength ≡ strength_of (sort_down ts)

Winner-Leads :
    (ts : List Tally) (best : ℕ) (w : TaskType)
    → Distinct ts
    → All (λ (t : Tally). t.total ≤ best) ts
    → Winner ts best task_precedence w
    → Leads w ts
Winner-Leads ts best w d high winner =
    let (total, has) = scores_total ts best w winner.won in
    record {
      present = has;
      highest =
          All-map (λ (t : Tally). t.total ≤ best) (λ (t : Tally). t.total ≤ total_of w ts)
            (λ t h. omega (arith, total)) ts high;
      first =
          All-map (λ (t : Tally). t.total ≡ best → scores ts best t.task ≡ true)
            (λ (t : Tally).
              t.total ≡ total_of w ts
              → place_in task_precedence w ≤ place_in task_precedence t.task)
            (λ t found e. winner.before t.task (found (e ∙ total))) ts (all_score best ts d);
    }

known_scores :
    (ts : List Tally) (best : ℕ) (task : TaskType)
    → Distinct ts
    → scores ts best task ≡ true
    → same_task task unknown ≡ false
unfolding scores
known_scores [] best task d h = cc
known_scores (t ∷ ts) best task d h = elim (Bool-cases (same_task t.task task)) [
  | inl e ↦ subst (λ x. same_task x unknown ≡ false) (same_task_eq t.task task e) d.1
  | inr e ↦ known_scores ts best task d.2 (rw e at h)
]

best_scores :
    (t : Tally) (ts : List Tally)
    → Distinct (t ∷ ts)
    → (task : TaskType) × (scores (t ∷ ts) (greatest t.total ts) task ≡ true)
unfolding scores
best_scores t ts d = elim (greatest-attained t.total ts d.2) [
  | inl e ↦ (t.task, rw (same_task_refl t.task) (ground arith))
  | inr (task, won, has) ↦ (task, rw (apart task has) won)
]
  where
    apart : (task : TaskType) → has_tally task ts ≡ true → same_task t.task task ≡ false
    apart task has = elim (Bool-cases (same_task t.task task)) [
      | inl e ↦
          absurd (clash (subst (λ x. has_tally x ts ≡ false) (same_task_eq t.task task e) d.0) has)
      | inr e ↦ e
    ]

cons_Chosen :
    (t : Tally) (ts : List Tally)
    → Distinct (t ∷ ts)
    → (d : Detection TaskType) × (choose (t ∷ ts) ≡ ok d) × Chosen (t ∷ ts) d
unfolding choose best_total
cons_Chosen t ts d =
    let best = greatest t.total ts in
    let (task, won) = best_scores t ts d in
    let known = known_place task (known_scores (t ∷ ts) best task d won) in
    let (w, found, winner) = first_winner-Winner (t ∷ ts) best task_precedence task won known in
    let high : All (λ (u : Tally). u.total ≤ best) (t ∷ ts) =
      (greatest_ge t.total ts, greatest_all t.total ts) in
    (
      record {
        value = w;
        evidence = phrases_of w (t ∷ ts);
        strength = strength_of (sort_down (t ∷ ts));
      },
      rw found refl,
      record {
        leads = Winner-Leads (t ∷ ts) best w d high winner;
        known = known_scores (t ∷ ts) best w d winner.won;
        by_phrases = refl;
        by_margin = refl;
      },
    )

choose-Chosen :
    (ts : List Tally)
    → Distinct ts
    → Nonempty ts
    → (d : Detection TaskType) × (choose ts ≡ ok d) × Chosen ts d
unfolding has_tally
choose-Chosen [] d (task, has) = cc
choose-Chosen (t ∷ ts) d found = cons_Chosen t ts d

abbrev pub nothing : Detection TaskType
nothing = record { value = unknown; evidence = []; strength = nought }

-- What a request is taken for, by its tallies.
pub data Detected (prompt : String) : List Tally → Detection TaskType → Type 0 where
  blank :
      (ts : List Tally) (d : Detection TaskType)
      → is_blank prompt ≡ true
      → d ≡ nothing
      → Detected prompt ts d
  unrecognised :
      (d : Detection TaskType)
      → is_blank prompt ≡ false
      → (d ≡ guess explanation) ⊎ (d ≡ guess edit)
      → Detected prompt [] d
  recognised :
      (t : Tally) (ts : List Tally) (d : Detection TaskType)
      → is_blank prompt ≡ false
      → Chosen (drop_bugfix (drop_explanation (t ∷ ts))) d
      → Detected prompt (t ∷ ts) d

tallied-Detected :
    (prompt : String) (ts : List Tally)
    → is_blank prompt ≡ false
    → Distinct ts
    → (d : Detection TaskType) × (detect_tallied prompt ts ≡ ok d) × Detected prompt ts d
tallied-Detected prompt [] b d = elim (Bool-cases (ends_in 63 (rstrip prompt))) [
  | inl e ↦ (guess explanation, rw e refl, unrecognised _ b (inl refl))
  | inr e ↦ (guess edit, rw e refl, unrecognised _ b (inr refl))
]
tallied-Detected prompt (t ∷ ts) b d =
    let kept = drop_explanation (t ∷ ts) in
    let (chosen, e, leads) =
      choose-Chosen (drop_bugfix kept)
        (drop_bugfix-Distinct kept (drop_explanation-Distinct (t ∷ ts) d))
        (drop_bugfix-Nonempty kept (drop_explanation-Nonempty t ts d)) in
    (chosen, e, recognised t ts chosen b leads)

-- The detection of a task type never raises. A blank request is of unknown type, one without a
-- known phrase is an explanation or an edit, and any other is of a type that leads the tallies left
-- when explanations, and bare verbs of fixing, have given way.
pub detect_task_type-Detected :
    (engine : Engine) (prompt : String)
    → (d : Detection TaskType) × (detect_task_type engine prompt ≡ ok d)
      × Detected prompt (tally_all engine prompt task_patterns) d
unfolding detect_task_type
detect_task_type-Detected engine prompt = elim (Bool-cases (is_blank prompt)) [
  | inl e ↦ (nothing, rw e refl, blank _ nothing e refl)
  | inr e ↦
      let found =
        tallied-Detected prompt (tally_all engine prompt task_patterns) e
          (tally_all-Distinct engine prompt task_patterns task_patterns_good) in
      (found.0, rw e found.1, found.2)
]

-- Only a blank request is of unknown type, and the strength of a detection is a fraction.
pub Detected-sure :
    (engine : Engine) (prompt : String) (ts : List Tally) (d : Detection TaskType)
    → ts ≡ tally_all engine prompt task_patterns
    → Detected prompt ts d
    → (same_task d.value unknown ≡ is_blank prompt) × IsFraction d.strength
unfolding same_task
Detected-sure engine prompt ts d e (blank _ _ b n) = rw (n, b) (refl, (omega arith, omega arith))
Detected-sure engine prompt ts d e (unrecognised _ b (inl g)) =
    rw (g, b) (refl, (omega arith, omega arith))
Detected-sure engine prompt ts d e (unrecognised _ b (inr g)) =
    rw (g, b) (refl, (omega arith, omega arith))
Detected-sure engine prompt ts d e (recognised t us _ b c) =
    (c.known ∙ sym b, rw (c.by_margin, e) (chosen-IsFraction engine prompt))
