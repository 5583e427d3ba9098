-- ===== src/Pii/Pipeline/Spans.antt =====
-- `_resolve_overlaps` of backend/pii/pipeline.py: what it keeps of overlapping matches.
use mister_pilot_proxy.Prelude.{
  ℕ, ◌≤◌, ◌<◌, ◌≡◌, refl, ◌∙◌, Bool, Bool-cases, true, false, inl, inr, ◌&&◌, ◌||◌, List, [], ◌∷◌,
  ◌++◌, ltb, leb, arith, any, all,
}
use mister_pilot_proxy.Pii.Pipeline.{
  Match, overlaps, insert_priority, by_priority, insert_start, by_start, accept, resolve_overlaps,
}

abbrev pub nonempty : Match → Bool
nonempty m = ltb m.start m.end

pub any-append_one {ℓ} :
    {A : Type ℓ} (p : A → Bool) (xs : List A) (x : A) → any p (xs ++ x ∷ []) ≡ (any p xs || p x)
any-append_one p [] x = ground arith
any-append_one p (y ∷ ys) x = ground (arith, any-append_one p ys x)

any-insert_priority :
    (p : Match → Bool) (m : Match) (ms : List Match)
    → any p (insert_priority m ms) ≡ (p m || any p ms)
unfolding insert_priority
any-insert_priority p m [] = refl
any-insert_priority p m (n ∷ ns) = ground (arith, any-insert_priority p m ns)

any-by_priority : (p : Match → Bool) (ms : List Match) → any p (by_priority ms) ≡ any p ms
unfolding by_priority
any-by_priority p [] = refl
any-by_priority p (m ∷ ms) =
    ground (arith, any-insert_priority p m (by_priority ms), any-by_priority p ms)

any-insert_start :
    (p : Match → Bool) (m : Match) (ms : List Match) → any p (insert_start m ms) ≡ (p m || any p ms)
unfolding insert_start
any-insert_start p m [] = refl
any-insert_start p m (n ∷ ns) = ground (arith, any-insert_start p m ns)

pub any-by_start : (p : Match → Bool) (ms : List Match) → any p (by_start ms) ≡ any p ms
unfolding by_start
any-by_start p [] = refl
any-by_start p (m ∷ ms) = ground (arith, any-insert_start p m (by_start ms), any-by_start p ms)

pub all-insert_priority :
    (p : Match → Bool) (m : Match) (ms : List Match)
    → all p (insert_priority m ms) ≡ (p m && all p ms)
unfolding insert_priority
all-insert_priority p m [] = refl
all-insert_priority p m (n ∷ ns) = ground (arith, all-insert_priority p m ns)

pub all-by_priority : (p : Match → Bool) (ms : List Match) → all p (by_priority ms) ≡ all p ms
unfolding by_priority
all-by_priority p [] = refl
all-by_priority p (m ∷ ms) =
    ground (arith, all-insert_priority p m (by_priority ms), all-by_priority p ms)

-- The matches are in order, do not overlap, and none is empty; the first starts at `cursor` or later.
abbrev pub Separate : ℕ → List Match → Type 0
Separate cursor [] = Unit
Separate cursor (m ∷ ms) = (cursor ≤ m.start) × (m.start < m.end) × Separate m.end ms

-- No two of the list overlap, and none is empty.
abbrev Apart : List Match → Type 0
Apart [] = Unit
Apart (m ∷ ms) = (any (overlaps m) ms ≡ false) × (m.start < m.end) × Apart ms

insert_start-Separate :
    (cursor : ℕ) (m : Match) (ms : List Match)
    → cursor ≤ m.start
    → m.start < m.end
    → any (overlaps m) ms ≡ false
    → Separate cursor ms
    → Separate cursor (insert_start m ms)
unfolding insert_start
insert_start-Separate cursor m [] h k apart s = (h, k, tt)
insert_start-Separate cursor m (n ∷ ns) h k apart (lo, fits, rest) =
    elim (Bool-cases (leb m.start n.start)) [
      | inl first ↦ rw first (h, k, (ground (arith, first, apart), fits, rest))
      | inr later ↦ rw later (
        lo,
        fits,
        insert_start-Separate n.end m ns (ground (arith, later, apart)) k (ground (arith, apart))
            rest,
      )
    ]

by_start-Separate : (ms : List Match) → Apart ms → Separate 0 (by_start ms)
unfolding by_start
by_start-Separate [] a = tt
by_start-Separate (m ∷ ms) (apart, fits, a) =
    insert_start-Separate 0 m (by_start ms) (omega arith) fits (rw any-by_start apart)
      (by_start-Separate ms a)

Apart-append_one :
    (ms : List Match) (m : Match)
    → Apart ms
    → m.start < m.end
    → any (overlaps m) ms ≡ false
    → Apart (ms ++ m ∷ [])
Apart-append_one [] m a h k = (refl, h, tt)
Apart-append_one (n ∷ ns) m (apart, fits, a) h k = (
  ground (arith, any-append_one (overlaps n) ns m, apart, k),
  fits,
  Apart-append_one ns m a h (ground (arith, k)),
)

accept-Apart :
    (accepted ms : List Match)
    → Apart accepted
    → all nonempty ms ≡ true
    → Apart (accept accepted ms)
unfolding accept
accept-Apart accepted [] a h = a
accept-Apart accepted (m ∷ ms) a h = elim (Bool-cases (any (overlaps m) accepted)) [
  | inl taken ↦ rw taken (accept-Apart accepted ms a (ground (arith, h)))
  | inr free ↦ rw free (
      accept-Apart (accepted ++ m ∷ []) ms (Apart-append_one accepted m a (ground (arith, h)) free)
        (ground (arith, h)))
]

-- What `_resolve_overlaps` keeps of nonempty matches is in the order of the text, without overlap.
pub resolve_overlaps-Separate :
    (matches : List Match) → all nonempty matches ≡ true → Separate 0 (resolve_overlaps matches)
unfolding resolve_overlaps
resolve_overlaps-Separate matches h =
    by_start-Separate (accept [] (by_priority matches))
      (accept-Apart [] (by_priority matches) tt (all-by_priority nonempty matches ∙ h))
