-- ===== src/Pii/Pipeline/Priority.antt =====
-- `_resolve_overlaps` of backend/pii/pipeline.py: which of two overlapping matches it keeps.
use mathlib.Core.Path.{subst}
use mister_pilot_proxy.Prelude.{
  sym, ◌≡◌, refl, ◌∙◌, Bool, Bool-cases, true, false, inl, inr, ◌&&◌, ◌||◌, List, [], ◌∷◌, ◌++◌,
  ◌-◌, ltb, eqb, leb, arith, any, all,
}
use mister_pilot_proxy.Pii.Pipeline.{
  Match, before, overlaps, insert_priority, by_priority, by_start, accept, resolve_overlaps,
}
use mister_pilot_proxy.Pii.Pipeline.Spans.{
  nonempty, any-append_one, any-by_start, all-insert_priority, all-by_priority,
}

-- A match whose key is no later overlaps this one.
abbrev beats : Match → Match → Bool
beats m n = overlaps m n && before n m

abbrev fixed : List Match → Match → Bool
fixed kept m = any (beats m) kept

-- Sorted by the key.
abbrev Sorted : List Match → Type 0
Sorted [] = Unit
Sorted (m ∷ ms) = (all (before m) ms ≡ true) × Sorted ms

all_mono {ℓ} :
    {A : Type ℓ} (p q : A → Bool) (xs : List A)
    → ((x : A) → p x ≡ true → q x ≡ true)
    → all p xs ≡ true
    → all q xs ≡ true
all_mono p q [] f h = refl
all_mono p q (x ∷ xs) f h = ground (arith, h, f x, all_mono p q xs f)

before_trans : (l m n : Match) → before l m ≡ true → before m n ≡ true → before l n ≡ true
before_trans l m n h k = ground arith

before_total : (m n : Match) → before m n ≡ false → before n m ≡ true
before_total m n h = ground arith

insert_priority-Sorted : (m : Match) (ms : List Match) → Sorted ms → Sorted (insert_priority m ms)
unfolding insert_priority
insert_priority-Sorted m [] s = (refl, tt)
insert_priority-Sorted m (n ∷ ns) (first, s) = elim (Bool-cases (before m n)) [
  | inl front ↦ rw front (
    ground (arith, front, all_mono (before n) (before m) ns (λ x. before_trans m n x front) first),
    (first, s),
  )
  | inr behind ↦ rw behind (
    ground (arith, first, all-insert_priority (before n) m ns, before_total m n behind),
    insert_priority-Sorted m ns s,
  )
]

by_priority-Sorted : (ms : List Match) → Sorted (by_priority ms)
unfolding by_priority
by_priority-Sorted [] = tt
by_priority-Sorted (m ∷ ms) = insert_priority-Sorted m (by_priority ms) (by_priority-Sorted ms)

-- Each accepted match comes before each that is still to be looked at.
abbrev Ready : List Match → List Match → Type 0
Ready accepted [] = Unit
Ready accepted (m ∷ ms) = (all (λ n. before n m) accepted ≡ true) × Ready accepted ms

all-append_one {ℓ} :
    {A : Type ℓ} (p : A → Bool) (xs : List A) (x : A) → all p (xs ++ x ∷ []) ≡ (all p xs && p x)
all-append_one p [] x = ground arith
all-append_one p (y ∷ ys) x = ground (arith, all-append_one p ys x)

Ready-append_one :
    (accepted : List Match) (m : Match) (ms : List Match)
    → Ready accepted ms
    → all (before m) ms ≡ true
    → Ready (accepted ++ m ∷ []) ms
Ready-append_one accepted m [] r h = tt
Ready-append_one accepted m (n ∷ ns) (first, r) h = (
  ground (arith, first, h, all-append_one (λ x. before x n) accepted m),
  Ready-append_one accepted m ns r (ground (arith, h)),
)

-- What is fixed stays so as more is accepted.
accept-fixed_mono :
    (accepted ms : List Match) (m : Match)
    → fixed accepted m ≡ true
    → fixed (accept accepted ms) m ≡ true
unfolding accept
accept-fixed_mono accepted [] m h = h
accept-fixed_mono accepted (n ∷ ns) m h = elim (Bool-cases (any (overlaps n) accepted)) [
  | inl taken ↦ rw taken (accept-fixed_mono accepted ns m h)
  | inr free ↦ rw free (
      accept-fixed_mono (accepted ++ n ∷ []) ns m
        (ground (arith, h, any-append_one (beats m) accepted n)))
]

overlaps-fixed :
    (accepted : List Match) (m : Match)
    → any (overlaps m) accepted ≡ true
    → all (λ n. before n m) accepted ≡ true
    → fixed accepted m ≡ true
overlaps-fixed [] m h k = h
overlaps-fixed (n ∷ ns) m h k = ground (arith, h, k, overlaps-fixed ns m)

accept_taken :
    (accepted ms : List Match) (m : Match)
    → any (overlaps m) accepted ≡ true
    → accept accepted (m ∷ ms) ≡ accept accepted ms
unfolding accept
accept_taken accepted ms m h = rw h refl

accept_free :
    (accepted ms : List Match) (m : Match)
    → any (overlaps m) accepted ≡ false
    → accept accepted (m ∷ ms) ≡ accept (accepted ++ m ∷ []) ms
unfolding accept
accept_free accepted ms m h = rw h refl

accept-fixed :
    (accepted ms : List Match)
    → Sorted ms
    → Ready accepted ms
    → all nonempty ms ≡ true
    → all (fixed (accept accepted ms)) ms ≡ true
accept-fixed accepted [] s r h = refl
accept-fixed accepted (m ∷ ms) (first, s) (before_m, r) h =
    elim (Bool-cases (any (overlaps m) accepted)) [
      | inl taken ↦
          let own = accept-fixed_mono accepted ms m (overlaps-fixed accepted m taken before_m) in
          let rest = accept-fixed accepted ms s r (ground (arith, h)) in
          subst (λ kept. all (fixed kept) (m ∷ ms) ≡ true) (sym (accept_taken accepted ms m taken))
            (ground (arith, own, rest))
      | inr free ↦
          let own =
            accept-fixed_mono (accepted ++ m ∷ []) ms m
              (ground (arith, h, any-append_one (beats m) accepted m)) in
          let rest =
            accept-fixed (accepted ++ m ∷ []) ms s (Ready-append_one accepted m ms r first)
              (ground (arith, h)) in
          subst (λ kept. all (fixed kept) (m ∷ ms) ≡ true) (sym (accept_free accepted ms m free))
            (ground (arith, own, rest))
    ]

Ready-empty : (ms : List Match) → Ready [] ms
Ready-empty [] = tt
Ready-empty (m ∷ ms) = (refl, Ready-empty ms)

fixed-by_start : (kept ms : List Match) → all (fixed (by_start kept)) ms ≡ all (fixed kept) ms
fixed-by_start kept [] = refl
fixed-by_start kept (m ∷ ms) = ground (arith, any-by_start (beats m) kept, fixed-by_start kept ms)

resolve_overlaps-fixed :
    (matches : List Match)
    → all nonempty matches ≡ true
    → all (fixed (resolve_overlaps matches)) matches ≡ true
unfolding resolve_overlaps
resolve_overlaps-fixed matches h =
    let sorted = by_priority matches in
    fixed-by_start (accept [] sorted) matches
    ∙ (sym_by matches
        ∙ accept-fixed [] sorted (by_priority-Sorted matches) (Ready-empty sorted)
            (all-by_priority nonempty matches ∙ h))
  where
    sym_by :
        (ms : List Match)
        → all (fixed (accept [] (by_priority ms))) ms
          ≡ all (fixed (accept [] (by_priority ms))) (by_priority ms)
    sym_by ms = rw all-by_priority refl

-- The second match has a higher priority, or the same and at least the length.
abbrev pub outranked : Match → Match → Bool
outranked m n =
    ltb m.pdef.priority n.pdef.priority
    || (eqb m.pdef.priority n.pdef.priority && leb (m.end - m.start) (n.end - n.start))

-- One of the kept matches overlaps the match and is of no lower rank; it may be the match itself.
abbrev pub settled : List Match → Match → Bool
settled kept m = any (λ n. overlaps m n && outranked m n) kept

fixed→settled : (kept : List Match) (m : Match) → fixed kept m ≡ true → settled kept m ≡ true
fixed→settled [] m h = h
fixed→settled (n ∷ ns) m h = ground (arith, h, fixed→settled ns m)

-- Every match that was found, if none is empty, overlaps one that is kept (it may be itself) and that
-- has a higher priority, or the same priority and at least the length.
pub resolve_overlaps-settled :
    (matches : List Match)
    → all nonempty matches ≡ true
    → all (settled (resolve_overlaps matches)) matches ≡ true
resolve_overlaps-settled matches h =
    all_mono (fixed (resolve_overlaps matches)) (settled (resolve_overlaps matches)) matches
      (fixed→settled (resolve_overlaps matches)) (resolve_overlaps-fixed matches h)
