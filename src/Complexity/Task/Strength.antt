-- ===== src/Complexity/Task/Strength.antt =====
-- The totals of `detect_task_type` in backend/services/complexity_scorer.py are positive, so its
-- margin divides by no zero, and its strength is a fraction of at most one.
use native.Mathlib.Nat.{div-div-eq-div-mul, div-mul-le_self}
use mister_pilot_proxy.Prelude.{
  ℕ, zero, suc, ◌+◌, ◌*◌, ◌/◌, ◌^◌, ◌≤◌, ◌<◌, ◌≡◌, refl, inl, inr, Bool, true, false, ◌&&◌, List,
  [], ◌∷◌, String, arith, length, All, Bool-cases, if◌then◌else◌, ltb, leb,
}
use mister_pilot_proxy.Complexity.{bugfix, explanation, same_task, TaskType, Fraction, Engine, hits}
use mister_pilot_proxy.Complexity.Patterns.Tasks.{TaskPattern, task_patterns}
use mister_pilot_proxy.Complexity.Task.{
  Tally, round_double, double_product, add_tally, tally_all, without_tally, drop_explanation,
  drop_bugfix, insert_down, sort_down, strength_of, half_even, only_fix, phrases_of, more_specific,
}

half_even_pos : (p unit : ℕ) → 0 < p / unit → 0 < unit → 0 < half_even p unit
half_even_pos p unit h k = grind arith

halved : (q r : ℕ) → 2 ^ 53 ≤ q → q / 2 ≡ r → 0 < r
halved q r h e = omega arith

round_double_pos : (rounds unit p : ℕ) → 0 < unit → 0 < p / unit → 0 < round_double rounds unit p
unfolding round_double
round_double_pos zero unit p u h = grind (arith, div-mul-le_self p unit)
round_double_pos (suc rounds) unit p u h = elim (Bool-cases (ltb (p / unit) (2 ^ 53))) [
  | inl e ↦ rw e (half_even_pos p unit h u)
  | inr e ↦ rw e (
      round_double_pos rounds (unit * 2) p (omega arith)
        (halved (p / unit) (p / (unit * 2)) (ground arith) (div-div-eq-div-mul p unit 2)))
]

double_product_pos : (weight n : ℕ) → 0 < weight → 0 < n → 0 < double_product weight n
unfolding double_product
double_product_pos weight n w h =
    round_double_pos (n + 2) 1 (weight * n) (omega arith) (grind arith)

abbrev pub Positive : List Tally → Type 0
Positive = All (λ (t : Tally). 0 < t.total)

weights_good : List TaskPattern → Bool
weights_good [] = true
weights_good (x ∷ xs) = ltb 0 x.weight && weights_good xs

task_patterns_weights : weights_good task_patterns ≡ true
unfolding weights_good
task_patterns_weights = refl

add_tally-Positive :
    (entry : TaskPattern) (found : List String) (ts : List Tally)
    → 0 < entry.weight
    → Positive ts
    → Positive (add_tally entry found ts)
add_tally-Positive entry [] ts w h = h
add_tally-Positive entry (x ∷ xs) ts w h =
    (double_product_pos entry.weight (length (x ∷ xs)) w (omega arith), h)

tally_all-Positive :
    (engine : Engine) (prompt : String) (entries : List TaskPattern)
    → weights_good entries ≡ true
    → Positive (tally_all engine prompt entries)
unfolding tally_all weights_good
tally_all-Positive engine prompt [] h = tt
tally_all-Positive engine prompt (x ∷ xs) h =
    add_tally-Positive x (hits engine x.pattern prompt) _ (ground arith)
      (tally_all-Positive engine prompt xs (ground arith))

without_tally-Positive :
    (task : TaskType) (ts : List Tally) → Positive ts → Positive (without_tally task ts)
unfolding without_tally
without_tally-Positive task [] h = tt
without_tally-Positive task (t ∷ ts) h =
    let rest = without_tally-Positive task ts h.1 in
    elim (Bool-cases (same_task t.task task)) [ inl e ↦ rw e rest | inr e ↦ rw e (h.0, rest) ]

kept_Positive :
    (b : Bool) (task : TaskType) (ts : List Tally)
    → Positive ts
    → Positive (if b then without_tally task ts else ts)
kept_Positive true task ts h = without_tally-Positive task ts h
kept_Positive false task ts h = h

dropped-Positive : (ts : List Tally) → Positive ts → Positive (drop_bugfix (drop_explanation ts))
unfolding drop_bugfix drop_explanation
dropped-Positive ts h =
    let kept = if ltb 1 (length ts) then without_tally explanation ts else ts in
    kept_Positive (only_fix (phrases_of bugfix kept) && more_specific kept) bugfix kept
      (kept_Positive (ltb 1 (length ts)) explanation ts h)

insert_down-All :
    (n : ℕ) (ms : List ℕ) → 0 < n → All (λ m. 0 < m) ms → All (λ m. 0 < m) (insert_down n ms)
unfolding insert_down
insert_down-All n [] h k = (h, tt)
insert_down-All n (m ∷ ms) h k = elim (Bool-cases (leb m n)) [
  | inl e ↦ rw e (h, k)
  | inr e ↦ rw e (k.0, insert_down-All n ms h k.1)
]

sort_down-All : (ts : List Tally) → Positive ts → All (λ m. 0 < m) (sort_down ts)
unfolding sort_down
sort_down-All [] h = tt
sort_down-All (t ∷ ts) h = insert_down-All t.total (sort_down ts) h.0 (sort_down-All ts h.1)

-- A fraction that is one: of no zero, and at most one.
abbrev pub IsFraction : Fraction → Type 0
IsFraction f = (0 < f.den) × (f.num ≤ f.den)

strength_of-IsFraction : (ns : List ℕ) → All (λ n. 0 < n) ns → IsFraction (strength_of ns)
unfolding strength_of
strength_of-IsFraction [] h = (omega arith, omega arith)
strength_of-IsFraction (n ∷ []) h = (omega arith, omega arith)
strength_of-IsFraction (n ∷ m ∷ ns) h = (omega (arith, h.0), omega arith)

pub chosen-IsFraction :
    (engine : Engine) (prompt : String)
    → IsFraction (
        strength_of
          (sort_down (drop_bugfix (drop_explanation (tally_all engine prompt task_patterns)))))
chosen-IsFraction engine prompt = strength_of-IsFraction _ (
    sort_down-All _
      (dropped-Positive _ (tally_all-Positive engine prompt task_patterns task_patterns_weights)))
