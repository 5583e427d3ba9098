-- ===== src/Verifier/Reads.antt =====
-- What `parse_ai_verdict` of backend/services/complexity_verifier.py accepts, and on what it raises.
use mister_pilot_proxy.Prelude.{
  ℕ, zero, suc, ◌*◌, ◌/◌, ◌%◌, ◌≤◌, ◌<◌, ◌≡◌, ◌⊎◌, refl, inl, inr, ap, Bool, true, false, String,
  Option, none, some, List, [], ◌∷◌, arith, Result, ok, raise, ◌>>=◌, leb, eqb, leb→le,
  if◌then◌else◌, Bool-cases, length, take, map, strip, ◌==◌, ◌&&◌,
}
use mister_pilot_proxy.Prelude.Int.{ℤ, pos, negsuc}
use mister_pilot_proxy.Complexity.{
  TaskType, unknown, same_task, all_tasks, all_scopes, all_depths, task_value, scope_value,
  depth_value,
}
use mathlib.Core.Path.{subst}
use mister_pilot_proxy.Complexity.Members.{same_task_eq}
use mister_pilot_proxy.Complexity.Request.Total.{round_even_bounds}
use mister_pilot_proxy.Verifier.{AiVerdict}
use mister_pilot_proxy.Verifier.Band.{OnScale}
use mister_pilot_proxy.Verifier.Reply.{
  Value, null, nan, infinity, bool, int, float, str, list, dict, Members, Reader, Refusal, rejected,
  raised, ReadError, float_limit, magnitude, read_score, whole_score, fraction_score,
  read_confidence, unit_part, read_bool, strict_enum, read_issues, known, not_unknown, member_with,
  at, read_fields,
}

-- A reading that gives a value with `Q`, or a reason; what it raises has the cause `P`.
pub data Reads {ℓ} {A : Type 0} (P : Type ℓ) (Q : A → Type ℓ) : Result Refusal A → Type ℓ where
  accepts : (a : A) → Q a → Reads P Q (ok a)
  rejects : (reason : String) → Reads P Q (raise (rejected reason))
  raises : (e : ReadError) → P → Reads P Q (raise (raised e))

Reads->>= {ℓ} :
    {A B : Type 0} {P : Type ℓ} {Q : A → Type ℓ} {R : B → Type ℓ} (m : Result Refusal A)
    (f : A → Result Refusal B)
    → Reads P Q m
    → ((a : A) → Q a → Reads P R (f a))
    → Reads P R (m >>= f)
Reads->>= _ f (accepts a q) k = k a q
Reads->>= _ f (rejects reason) k = rejects reason
Reads->>= _ f (raises e p) k = raises e p

-- A score or a confidence on which the reading raises: `int` of what is no number or infinite, or
-- `float` of a whole number too large for it.
abbrev pub NoInteger : Value → Type 0
NoInteger nan = Unit
NoInteger infinity = Unit
NoInteger (int z) = float_limit ≤ magnitude z
NoInteger _ = ⊥

abbrev pub TooLarge : Value → Type 0
TooLarge (int z) = float_limit ≤ magnitude z
TooLarge _ = ⊥

-- What an accepted reply says.
pub record Acceptable (ai : AiVerdict) : Type 0 where
  pub on_scale : OnScale ai.complexity_score
  pub sure : ai.confidence ≤ 100
  pub known_task : same_task ai.task_type unknown ≡ false
  pub few : length ai.issues ≤ 6

abbrev pub Unreadable : Members → Type 0
Unreadable reply = NoInteger (at reply "complexity_score") ⊎ TooLarge (at reply "confidence")

Reads-if {ℓ} :
    {A : Type 0} {P : Type ℓ} {Q : A → Type ℓ} (b : Bool) (m n : Result Refusal A)
    → (b ≡ true → Reads P Q m)
    → (b ≡ false → Reads P Q n)
    → Reads P Q (if b then m else n)
Reads-if true m n h k = h refl
Reads-if false m n h k = k refl

module _ {P : Type 0} where
  whole_score-Reads : (z : ℤ) → Reads P OnScale (whole_score z)
  whole_score-Reads (pos n) =
      Reads-if (leb 1 n && leb n 20) _ _ (λ e. accepts n (ground arith)) (λ e. rejects _)
  whole_score-Reads (negsuc n) = rejects _

  fraction_score-Reads : (z : ℤ) (d : ℕ) → Reads P OnScale (fraction_score z d)
  fraction_score-Reads (pos n) d =
      Reads-if (eqb (n % d) 0) _ _ (λ e. whole_score-Reads (pos (n / d))) (λ e. rejects _)
  fraction_score-Reads (negsuc n) d = rejects _

  read_score-Reads : (v : Value) → (NoInteger v → P) → Reads P OnScale (read_score v)
  unfolding read_score
  read_score-Reads (int z) p =
      Reads-if (leb float_limit (magnitude z)) _ _ (λ e. raises _ (p (leb→le _ _ e)))
        (λ e. whole_score-Reads z)
  read_score-Reads (float z d) p = fraction_score-Reads z (suc d)
  read_score-Reads nan p = raises _ (p tt)
  read_score-Reads infinity p = raises _ (p tt)
  read_score-Reads null p = rejects _
  read_score-Reads (bool b) p = rejects _
  read_score-Reads (str s) p = rejects _
  read_score-Reads (list xs) p = rejects _
  read_score-Reads (dict ms) p = rejects _

  unit_part-Reads : (z : ℤ) (d : ℕ) → 0 < d → Reads P (λ c. c ≤ 100) (unit_part z d)
  unit_part-Reads (pos n) d h =
      Reads-if (leb n d) _ _
        (λ e.
          accepts _
            (round_even_bounds 0 100 (100 * n) d h (omega arith) (omega (arith, leb→le n d e))).1)
        (λ e. rejects _)
  unit_part-Reads (negsuc n) d h = rejects _

  read_confidence-Reads :
      (v : Value) → (TooLarge v → P) → Reads P (λ c. c ≤ 100) (read_confidence v)
  unfolding read_confidence
  read_confidence-Reads (int z) p =
      Reads-if (leb float_limit (magnitude z)) _ _ (λ e. raises _ (p (leb→le _ _ e)))
        (λ e. unit_part-Reads z 1 (omega arith))
  read_confidence-Reads (float z d) p = unit_part-Reads z (suc d) (omega arith)
  read_confidence-Reads nan p = rejects _
  read_confidence-Reads infinity p = rejects _
  read_confidence-Reads null p = rejects _
  read_confidence-Reads (bool b) p = rejects _
  read_confidence-Reads (str s) p = rejects _
  read_confidence-Reads (list xs) p = rejects _
  read_confidence-Reads (dict ms) p = rejects _

  read_bool-Reads : (said : String) (v : Value) → Reads P (λ _. Unit {0}) (read_bool said v)
  unfolding read_bool
  read_bool-Reads said (bool b) = accepts b tt
  read_bool-Reads said (int z) = rejects _
  read_bool-Reads said (float z d) = rejects _
  read_bool-Reads said nan = rejects _
  read_bool-Reads said infinity = rejects _
  read_bool-Reads said null = rejects _
  read_bool-Reads said (str s) = rejects _
  read_bool-Reads said (list xs) = rejects _
  read_bool-Reads said (dict ms) = rejects _

  read_issues-Reads : (v : Value) → Reads P (λ _. Unit {0}) (read_issues v)
  unfolding read_issues
  read_issues-Reads (list xs) = accepts _ tt
  read_issues-Reads (bool b) = rejects _
  read_issues-Reads (int z) = rejects _
  read_issues-Reads (float z d) = rejects _
  read_issues-Reads nan = rejects _
  read_issues-Reads infinity = rejects _
  read_issues-Reads null = rejects _
  read_issues-Reads (str s) = rejects _
  read_issues-Reads (dict ms) = rejects _

  known-Reads : {A : Type 0} (o : Option A) → Reads P (λ x. o ≡ some x) (known o)
  known-Reads none = rejects _
  known-Reads (some x) = accepts x refl

-- A member that `_strict_enum` gives is not the unknown one.
not_unknown_lem :
    {A : Type 0} (value_of : A → String) (o : Option A) (x : A)
    → not_unknown value_of o ≡ some x
    → (value_of x == "unknown") ≡ false
not_unknown_lem value_of none x h = cc
not_unknown_lem value_of (some y) x h = elim (Bool-cases (value_of y == "unknown")) [
  | inl e ↦ cc (rw e at h)
  | inr e ↦
      let same : y ≡ x = some_inj (rw e at h) in
      subst (λ z. (value_of z == "unknown") ≡ false) same e
]
  where
    some_inj : {A : Type 0} {a b : A} → some a ≡ some b → a ≡ b
    some_inj e = cc

strict_enum_known :
    (reader : Reader) (v : Value) (x : TaskType)
    → strict_enum reader task_value all_tasks v ≡ some x
    → same_task x unknown ≡ false
unfolding strict_enum
strict_enum_known reader (str s) x h =
    let named =
      not_unknown_lem task_value (member_with task_value (reader.lower (strip s)) all_tasks) x h in
    elim (Bool-cases (same_task x unknown)) [
      | inl e ↦
          let u : task_value x ≡ "unknown" = ap task_value (same_task_eq x unknown e) in
          cc (rw u at named)
      | inr e ↦ e
    ]
strict_enum_known reader null x h = cc
strict_enum_known reader nan x h = cc
strict_enum_known reader infinity x h = cc
strict_enum_known reader (bool b) x h = cc
strict_enum_known reader (int z) x h = cc
strict_enum_known reader (float z d) x h = cc
strict_enum_known reader (list xs) x h = cc
strict_enum_known reader (dict ms) x h = cc

length-map-take : {A B : Type 0} (f : A → B) (n : ℕ) (xs : List A) → length (map f (take n xs)) ≤ n
length-map-take f zero xs = omega arith
length-map-take f (suc n) [] = omega arith
length-map-take f (suc n) (x ∷ xs) = omega (arith, length-map-take f n xs)

pub read_fields-Reads :
    (reader : Reader) (reply : Members)
    → Reads (Unreadable reply) Acceptable (read_fields reader reply)
unfolding read_fields
read_fields-Reads reader reply =
    Reads->>= _ _ (read_score-Reads (at reply "complexity_score") inl) λ score on_scale.
      Reads->>= _ _ (read_bool-Reads _ (at reply "injection_detected")) λ injection _.
        Reads->>= _ _ (read_bool-Reads _ (at reply "agrees")) λ agrees _.
          Reads->>= _ _ (read_confidence-Reads (at reply "confidence") inr) λ confidence sure.
            Reads->>= _ _
              (known-Reads (strict_enum reader task_value all_tasks (at reply "task_type")))
              λ task is.
                Reads->>= _ _
                  (known-Reads (strict_enum reader scope_value all_scopes (at reply "scope")))
                  λ scope _.
                    Reads->>= _ _
                      (known-Reads
                        (strict_enum reader depth_value all_depths (at reply "reasoning_depth")))
                      λ depth _. Reads->>= _ _ (read_issues-Reads (at reply "issues")) λ issues _.
                        accepts _ (record {
                          on_scale = on_scale;
                          sure = sure;
                          known_task = strict_enum_known reader (at reply "task_type") task is;
                          few = length-map-take _ 6 issues;
                        })
