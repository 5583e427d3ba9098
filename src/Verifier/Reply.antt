-- ===== src/Verifier/Reply.antt =====
-- The strict reading of the AI's reply by backend/services/complexity_verifier.py: `parse_reply`,
-- `_strict_enum` and `parse_ai_verdict`. A value of JSON has Python's numbers: whole ones, doubles
-- as fractions, and what `json.loads` reads beside them. What Python raises is a value.
use Prim.Native.Char.{code}
use Prim.Native.String.{◌++◌ as ◌<>◌}
use text.Mathlib.Text.{starts_with}
use mister_pilot_proxy.Prelude.{
  ℕ, suc, ◌+◌, ◌-◌, ◌*◌, ◌/◌, ◌%◌, ◌^◌, String, Bool, true, false, ◌&&◌, ◌||◌, Option, none, some,
  List, [], ◌∷◌, leb, eqb, ◌==◌, if◌then◌else◌, Result, ok, raise, ◌>>=◌, is_empty, strip, ends_in,
  take, take_text, map, join,
}
use mister_pilot_proxy.Prelude.Int.{ℤ, pos, negsuc}
use mister_pilot_proxy.Complexity.{
  Pattern, all_tasks, all_scopes, all_depths, task_value, scope_value, depth_value,
}
use mister_pilot_proxy.Complexity.Confidence.{round_even}
use mister_pilot_proxy.Verifier.{AiVerdict}

mutual
  pub data Value : Type 0 where
    null nan infinity : Value
    bool : Bool → Value
    int : ℤ → Value
    -- A double: the numerator, and the denominator less one.
    float : ℤ → ℕ → Value
    str : String → Value
    list : Values → Value
    dict : Members → Value

  pub data Values : Type 0 where
    nil : Values
    cons : Value → Values → Values

  pub data Members : Type 0 where
    end : Members
    member : String → Value → Members → Members

-- Among equal keys `json.loads` keeps the last.
unfoldable pub find : Members → String → Option Value
find end k = none
find (member j v ms) k = elim (find ms k) [
  | some w ↦ some w
  | none ↦ if j == k then some v else none
]

-- What the reading of a reply raises.
pub data ReadError : Type 0 where
  value_error overflow_error recursion_error : ReadError

-- What the reply is read with: compatibility forms, `fullmatch` with its group, `json.loads`
-- (`none` for a JSONDecodeError), lower case and `str`. `json.loads` also raises what the code does not
-- catch: a ValueError for a whole number of too many digits, and a RecursionError.
pub record Reader : Type 0 where
  pub nfkc : String → String
  pub fullmatch : Pattern → String → Option String
  pub loads : String → Result ReadError (Option Value)
  pub lower : String → String
  pub str_of : Value → String

abbrev pub required_fields : List String
required_fields =
    "injection_detected" ∷ "agrees" ∷ "complexity_score" ∷ "task_type" ∷ "scope" ∷ "reasoning_depth"
    ∷ "confidence" ∷ "issues" ∷ "reason" ∷ []

abbrev invisible_ranges : List (ℕ × ℕ)
invisible_ranges =
    (0x00AD, 0x00AD)
    ∷ (0x034F, 0x034F)
    ∷ (0x061C, 0x061C)
    ∷ (0x115F, 0x1160)
    ∷ (0x17B4, 0x17B5)
    ∷ (0x3164, 0x3164)
    ∷ (0xFEFF, 0xFEFF)
    ∷ (0xFFA0, 0xFFA0)
    ∷ (0x180B, 0x180E)
    ∷ (0x200B, 0x200F)
    ∷ (0x202A, 0x202E)
    ∷ (0x2060, 0x206F)
    ∷ (0xFE00, 0xFE0F)
    ∷ []

abbrev in_ranges : List (ℕ × ℕ) → ℕ → Bool
in_ranges [] n = false
in_ranges ((low, high) ∷ rs) n = (leb low n && leb n high) || in_ranges rs n

unfoldable pub is_invisible : ℕ → Bool
is_invisible n = in_ranges invisible_ranges n

abbrev control_ranges : List (ℕ × ℕ)
control_ranges = (0, 8) ∷ (11, 31) ∷ (127, 159) ∷ []

unfoldable pub is_control : ℕ → Bool
is_control n = in_ranges control_ranges n

-- Invisible characters are dropped, and control characters are spaces.
unfoldable pub visible : String → String
unfolding is_invisible is_control
visible String.[] = ""
visible (String.◌∷◌ c s) =
    let rest = visible s in
    if is_invisible (code c) then rest else String.◌∷◌ (if is_control (code c) then " " else c) rest

unfoldable pub normalize_untrusted : Reader → String → String
unfolding visible
normalize_untrusted reader text = visible (reader.nfkc text)

-- The fence that a reply may stand in.
abbrev code_fence : Pattern
code_fence = record { source = "```(?:json)?\\s*(.*?)\\s*```"; ignore_case = true; dot_all = true }

abbrev pub unfenced : Reader → String → String
unfenced reader body = elim (reader.fullmatch code_fence body) [
  | none ↦ body
  | some inner ↦ strip inner
]

abbrev as_dict : Option Value → Option Members
as_dict (some (dict members)) = some members
as_dict _ = none

unfoldable pub parse_reply : Reader → String → Result ReadError (Option Members)
parse_reply reader text =
    let body = unfenced reader (strip text) in
    if is_empty text
    then ok none
    else if starts_with body "{" && ends_in 125 body
    then (reader.loads body >>= λ data_read. ok (as_dict data_read))
    else ok none

-- Why a reply gives no verdict: a reason of the code's, or what it raises.
pub data Refusal : Type 0 where
  rejected : String → Refusal
  raised : ReadError → Refusal

-- From here on no double is near: `float` of such a whole number overflows.
unfoldable pub float_limit : ℕ
float_limit = 2 ^ 1024 - 2 ^ 970

abbrev pub magnitude : ℤ → ℕ
magnitude (pos n) = n
magnitude (negsuc n) = n + 1

abbrev pub bad_score : Refusal
bad_score = rejected "complexity_score is not an integer in 1-20"

abbrev pub whole_score : ℤ → Result Refusal ℕ
whole_score (pos n) = if leb 1 n && leb n 20 then ok n else raise bad_score
whole_score (negsuc n) = raise bad_score

abbrev pub fraction_score : ℤ → ℕ → Result Refusal ℕ
fraction_score (pos n) d = if eqb (n % d) 0 then whole_score (pos (n / d)) else raise bad_score
fraction_score (negsuc n) d = raise bad_score

-- `bool` is no number here, though Python makes it one.
unfoldable pub read_score : Value → Result Refusal ℕ
unfolding float_limit
read_score (int z) =
    if leb float_limit (magnitude z) then raise (raised overflow_error) else whole_score z
read_score (float z d) = fraction_score z (suc d)
read_score nan = raise (raised value_error)
read_score infinity = raise (raised overflow_error)
read_score _ = raise (rejected "complexity_score is not a number")

abbrev pub bad_confidence : Refusal
bad_confidence = rejected "confidence is not a number in 0-1"

abbrev pub unit_part : ℤ → ℕ → Result Refusal ℕ
unit_part (pos n) d = if leb n d then ok (round_even (100 * n) d) else raise bad_confidence
unit_part (negsuc n) d = raise bad_confidence

-- In hundredths.
unfoldable pub read_confidence : Value → Result Refusal ℕ
unfolding float_limit
read_confidence (int z) =
    if leb float_limit (magnitude z) then raise (raised overflow_error) else unit_part z 1
read_confidence (float z d) = unit_part z (suc d)
read_confidence _ = raise bad_confidence

unfoldable pub read_bool : String → Value → Result Refusal Bool
read_bool said (bool b) = ok b
read_bool said _ = raise (rejected said)

-- `cls(text)`: the member with that value.
unfoldable pub member_with {ℓ} : {A : Type ℓ} → (A → String) → String → List A → Option A
member_with value_of text [] = none
member_with value_of text (x ∷ xs) =
    if value_of x == text then some x else member_with value_of text xs

abbrev pub not_unknown {ℓ} : {A : Type ℓ} → (A → String) → Option A → Option A
not_unknown value_of none = none
not_unknown value_of (some x) = if value_of x == "unknown" then none else some x

unfoldable pub strict_enum {ℓ} : {A : Type ℓ} → Reader → (A → String) → List A → Value → Option A
unfolding member_with
strict_enum reader value_of members (str s) =
    not_unknown value_of (member_with value_of (reader.lower (strip s)) members)
strict_enum reader value_of members _ = none

abbrev pub known {ℓ} : {A : Type ℓ} → Option A → Result Refusal A
known (some x) = ok x
known none = raise (rejected "task_type, scope or reasoning_depth is not a known value")

abbrev to_list : Values → List Value
to_list nil = []
to_list (cons x xs) = x ∷ to_list xs

unfoldable pub read_issues : Value → Result Refusal (List Value)
read_issues (list xs) = ok (to_list xs)
read_issues _ = raise (rejected "issues is not a list")

unfoldable pub clean_text : Reader → Value → ℕ → String
unfolding normalize_untrusted
clean_text reader value cap = take_text cap (normalize_untrusted reader (reader.str_of value))

abbrev pub is_missing : Members → String → Bool
is_missing members k = elim (find members k) [ none ↦ true | some v ↦ false ]

abbrev pub missing_fields : Members → List String → List String
missing_fields members [] = []
missing_fields members (k ∷ ks) =
    let rest = missing_fields members ks in if is_missing members k then k ∷ rest else rest

-- `data[k]`, of a field that is there.
abbrev pub at : Members → String → Value
at members k = elim (find members k) [ none ↦ null | some v ↦ v ]

unfoldable pub read_fields : Reader → Members → Result Refusal AiVerdict
unfolding read_score read_bool read_confidence strict_enum read_issues clean_text
read_fields reader reply = do
  score ← read_score (at reply "complexity_score")
  injection ← read_bool "injection_detected is not a boolean" (at reply "injection_detected")
  agrees ← read_bool "agrees is not a boolean" (at reply "agrees")
  confidence ← read_confidence (at reply "confidence")
  task ← known (strict_enum reader task_value all_tasks (at reply "task_type"))
  scope ← known (strict_enum reader scope_value all_scopes (at reply "scope"))
  depth ← known (strict_enum reader depth_value all_depths (at reply "reasoning_depth"))
  issues ← read_issues (at reply "issues")
  ok (record {
    agrees = agrees;
    complexity_score = score;
    task_type = task;
    scope = scope;
    reasoning_depth = depth;
    confidence = confidence;
    injection_detected = injection;
    issues = map (λ i. clean_text reader i 200) (take 6 issues);
    reason = clean_text reader (at reply "reason") 240;
  })

abbrev pub read_present : Reader → Members → List String → Result Refusal AiVerdict
read_present reader reply [] = read_fields reader reply
read_present reader reply (k ∷ ks) = raise (rejected ("missing fields: " <> join ", " (k ∷ ks)))

unfoldable pub parse_ai_verdict : Reader → Members → Result Refusal AiVerdict
unfolding read_fields
parse_ai_verdict reader reply = read_present reader reply (missing_fields reply required_fields)
