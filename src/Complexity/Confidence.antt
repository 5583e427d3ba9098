-- ===== src/Complexity/Confidence.antt =====
-- `_confidence` of backend/services/complexity_scorer.py, in hundredths. The sum stands over one
-- denominator until it is rounded; it starts at 35 hundredths and at most 35 are taken off.
use mister_pilot_proxy.Prelude.{
  ℕ, ◌+◌, ◌-◌, ◌*◌, ◌/◌, ◌%◌, min, max, ◌||◌, ltb, leb, if◌then◌else◌, is_empty, word_count, ◌==◌,
}
use text.Mathlib.Text.{starts_with}
use mister_pilot_proxy.Complexity.{TaskType, Scope, Fraction, Detection, ExtractedPrompt}

-- `round` of a fraction to a whole: to the nearest, and of two to the even one.
unfoldable pub round_even : ℕ → ℕ → ℕ
round_even n d =
    if ltb (2 * (n % d)) d
    then n / d
    else if ltb d (2 * (n % d))
    then n / d + 1
    else n / d + n / d % 2

-- What is added for words and source, in hundredths.
abbrev gained : ExtractedPrompt → ℕ
gained prompt =
    (if leb 4 (word_count prompt.text) then 10 else 0)
    + (if starts_with prompt.source "field:" || prompt.source == "messages:userRequest"
        then 5
        else 0)

abbrev lost : ExtractedPrompt → ℕ
lost prompt =
    (if leb (word_count prompt.text) 1 then 15 else 0) + (if prompt.is_followup then 20 else 0)

-- The sum, times both denominators.
abbrev pub raw_confidence : ExtractedPrompt → Fraction → Fraction → ℕ
raw_confidence prompt t s =
    35 * (t.den * s.den)
    + 35 * (t.num * s.den)
    + 15 * (s.num * t.den)
    + gained prompt * (t.den * s.den)
    - lost prompt * (t.den * s.den)

abbrev pub clamped : ℕ → ℕ → ℕ
clamped n d = max (5 * d) (min (99 * d) n)

unfoldable pub confidence : ExtractedPrompt → Detection TaskType → Detection Scope → ℕ
unfolding round_even
confidence prompt task scope =
    let t = task.strength in
    let s = scope.strength in
    let d = t.den * s.den in
    if is_empty prompt.text then 5 else round_even (clamped (raw_confidence prompt t s) d) d
