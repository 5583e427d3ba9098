-- ===== src/Complexity/Task.antt =====
-- `detect_task_type` of backend/services/complexity_scorer.py. A tally is the double that the code
-- computes, in units of 2^-52: a tie is one of doubles.
pub mod Strength
pub mod Tallies
pub mod Choice
use mister_pilot_proxy.Prelude.{
  ℕ, zero, suc, ◌+◌, ◌-◌, ◌*◌, ◌/◌, ◌%◌, ◌^◌, String, Bool, true, false, not, ◌&&◌, ◌||◌, Option,
  none, some, List, [], ◌∷◌, ltb, leb, eqb, if◌then◌else◌, length, any, all, is_blank, ends_in,
  rstrip, Result, ok, raise, ◌>>=◌, max,
}
use text.Mathlib.Text.{starts_with}
use mister_pilot_proxy.Complexity.{
  TaskType, explanation, edit, bugfix, debugging, optimization, security, unknown, same_task,
  Fraction, whole, nought, Detection, Engine, hits,
}
use mister_pilot_proxy.Complexity.Tables.{task_precedence}
use mister_pilot_proxy.Complexity.Patterns.Tasks.{TaskPattern, task_patterns}

-- What a task type scores, and the phrases that it scores by.
pub record Tally : Type 0 where
  pub task : TaskType
  pub total : ℕ
  pub phrases : List String

-- What Python raises at `max` of nothing, and at an index past the end.
pub data ScoreError : Type 0 where
  empty_max index_error : ScoreError

-- The nearest multiple of `unit`, the even one of two.
abbrev pub half_even : ℕ → ℕ → ℕ
half_even p unit =
    if ltb (2 * (p % unit)) unit
    then p / unit * unit
    else if ltb unit (2 * (p % unit))
    then (p / unit + 1) * unit
    else (p / unit + p / unit % 2) * unit

-- To 53 binary digits: `unit` doubles until so many are enough, which takes fewer than `rounds`.
unfoldable pub round_double : ℕ → ℕ → ℕ → ℕ
round_double zero unit p = p
round_double (suc rounds) unit p =
    let more = round_double rounds (unit * 2) p in
    if ltb (p / unit) (2 ^ 53) then half_even p unit else more

-- `weight * n`
unfoldable pub double_product : ℕ → ℕ → ℕ
unfolding round_double
double_product weight n = round_double (n + 2) 1 (weight * n)

abbrev pub add_tally : TaskPattern → List String → List Tally → List Tally
add_tally entry [] rest = rest
add_tally entry (x ∷ xs) rest =
    record {
      task = entry.task;
      total = double_product entry.weight (length (x ∷ xs));
      phrases = x ∷ xs;
    }
    ∷ rest

unfoldable pub tally_all : Engine → String → List TaskPattern → List Tally
tally_all engine prompt [] = []
tally_all engine prompt (entry ∷ entries) =
    add_tally entry (hits engine entry.pattern prompt) (tally_all engine prompt entries)

-- `task in tallies`, and `tallies.pop(task, None)`
unfoldable pub has_tally : TaskType → List Tally → Bool
has_tally task [] = false
has_tally task (t ∷ ts) = same_task t.task task || has_tally task ts

unfoldable pub without_tally : TaskType → List Tally → List Tally
without_tally task [] = []
without_tally task (t ∷ ts) =
    let rest = without_tally task ts in if same_task t.task task then rest else t ∷ rest

unfoldable pub phrases_of : TaskType → List Tally → List String
phrases_of task [] = []
phrases_of task (t ∷ ts) = if same_task t.task task then t.phrases else phrases_of task ts

-- Explanation wins only when nothing else matched.
unfoldable pub drop_explanation : List Tally → List Tally
unfolding without_tally
drop_explanation tallies =
    if ltb 1 (length tallies) then without_tally explanation tallies else tallies

-- The only evidence of a bug is the bare verb.
abbrev pub only_fix : List String → Bool
only_fix [] = false
only_fix (x ∷ xs) = all (λ b. starts_with b "fix") (x ∷ xs)

unfoldable pub more_specific : List Tally → Bool
unfolding has_tally
more_specific tallies =
    has_tally edit tallies
    || has_tally debugging tallies
    || has_tally security tallies
    || has_tally optimization tallies

unfoldable pub drop_bugfix : List Tally → List Tally
unfolding without_tally phrases_of more_specific
drop_bugfix tallies =
    if only_fix (phrases_of bugfix tallies) && more_specific tallies
    then without_tally bugfix tallies
    else tallies

-- `max(tallies.values())`
unfoldable pub greatest : ℕ → List Tally → ℕ
greatest best [] = best
greatest best (t ∷ ts) = greatest (max best t.total) ts

unfoldable pub best_total : List Tally → Result ScoreError ℕ
unfolding greatest
best_total [] = raise empty_max
best_total (t ∷ ts) = ok (greatest t.total ts)

-- `tallies.get(task) == best`
unfoldable pub scores : List Tally → ℕ → TaskType → Bool
scores [] best task = false
scores (t ∷ ts) best task = if same_task t.task task then eqb t.total best else scores ts best task

-- `[t for t in _TASK_PRECEDENCE if …][0]`
unfoldable pub first_winner : List Tally → ℕ → List TaskType → Result ScoreError TaskType
unfolding scores
first_winner tallies best [] = raise index_error
first_winner tallies best (task ∷ tasks) =
    if scores tallies best task then ok task else first_winner tallies best tasks

-- `sorted(tallies.values(), reverse=True)`
unfoldable pub insert_down : ℕ → List ℕ → List ℕ
insert_down n [] = n ∷ []
insert_down n (m ∷ ms) = if leb m n then n ∷ m ∷ ms else m ∷ insert_down n ms

unfoldable pub sort_down : List Tally → List ℕ
unfolding insert_down
sort_down [] = []
sort_down (t ∷ ts) = insert_down t.total (sort_down ts)

-- 0.55, and 0.45 of the margin over the runner-up.
unfoldable pub strength_of : List ℕ → Fraction
strength_of (first ∷ second ∷ ns) = record {
  num = 55 * first + 45 * (first - second);
  den = 100 * first;
}
strength_of _ = whole

unfoldable pub choose : List Tally → Result ScoreError (Detection TaskType)
unfolding best_total first_winner sort_down strength_of phrases_of
choose tallies = do
  best ← best_total tallies
  chosen ← first_winner tallies best task_precedence
  ok (record {
    value = chosen;
    evidence = phrases_of chosen tallies;
    strength = strength_of (sort_down tallies);
  })

abbrev pub guess : TaskType → Detection TaskType
guess task = record { value = task; evidence = []; strength = record { num = 25; den = 100 } }

abbrev pub detect_tallied : String → List Tally → Result ScoreError (Detection TaskType)
detect_tallied prompt [] = ok (guess (if ends_in 63 (rstrip prompt) then explanation else edit))
detect_tallied prompt (t ∷ ts) = choose (drop_bugfix (drop_explanation (t ∷ ts)))

unfoldable pub detect_task_type : Engine → String → Result ScoreError (Detection TaskType)
unfolding tally_all drop_explanation drop_bugfix choose
detect_task_type engine prompt =
    if is_blank prompt
    then ok (record { value = unknown; evidence = []; strength = nought })
    else detect_tallied prompt (tally_all engine prompt task_patterns)
