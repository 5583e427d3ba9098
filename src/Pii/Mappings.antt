-- ===== src/Pii/Mappings.antt =====
-- The promises of `Pseudonymizer` of backend/pii/pseudonymizer.py: a placeholder is always found,
-- it restores its original for good, and the same value of a type gets the same one again.
use Prim.Native.String.{◌++◌}
use text.Mathlib.Text.{starts_with}
use text.Mathlib.TextLemmas.{append_assoc, append_cancel_left}
use text.Mathlib.TextPositions.{starts_with-append}
use mister_pilot_proxy.Prelude.{
  ℕ, zero, suc, ◌+◌, ◌<◌, String, ◌≡◌, refl, sym, ◌∙◌, ◌≢◌, Bool-cases, true, eq_iff, eq_refl,
  Option-cases, none, some, inl, inr, arith, length,
}
use mister_pilot_proxy.Prelude.Decimal.{decimal, decimal_inj}
use mister_pilot_proxy.Dict
use mister_pilot_proxy.Dict.{Dict, get-put, get-pop, length-pop-lt}
use mister_pilot_proxy.Pii.{EntityType, value}
use mister_pilot_proxy.Pii.Store.{
  InMemoryStore, init, get_by_original, get_by_placeholder, put, size,
}
use mister_pilot_proxy.Pii.Pseudonymizer.{
  Hashing, numbered, free_for, resolve_from, resolve_collision, base_placeholder, new_placeholder,
  put_new, pseudonymize_with, pseudonymize,
}

-- What an original maps to maps back to it.
pub record IsConsistent (store : InMemoryStore) : Type 0 where
  pub back :
      (original placeholder : String)
      → get_by_original store original ≡ some placeholder
      → get_by_placeholder store placeholder ≡ some original

numbered_inj : (base : String) (n m : ℕ) → numbered base n ≡ numbered base m → n ≡ m
numbered_inj base n m e = decimal_inj n m (
    append_cancel_left "_" (decimal n) (decimal m)
      (append_cancel_left base ("_" ++ decimal n) ("_" ++ decimal m) e))

-- Among more numbered placeholders than a store has, one is not in it.
unused :
    (rounds counter : ℕ) (base : String) (mappings : Dict String)
    → length mappings < rounds
    → (k : ℕ) × (k < rounds) × (Dict.get mappings (numbered base (counter + k)) ≡ none)
unused zero counter base mappings h = absurd (omega arith)
unused (suc rounds) counter base mappings h =
    elim (Option-cases (Dict.get mappings (numbered base counter))) [
      | inl absent ↦ (0, omega arith, rw (the_same counter) absent)
      | inr (original, present) ↦
          let (k, fits, absent) =
            unused rounds (suc counter) base (Dict.pop mappings (numbered base counter))
              (omega (arith, length-pop-lt mappings (numbered base counter) original present)) in
          let other : numbered base counter ≢ numbered base (suc counter + k) =
            λ e. absurd (omega (arith, numbered_inj base counter (suc counter + k) e)) in
          (
            suc k,
            omega arith,
            rw (moved counter k) (
                ground (
                  arith,
                  absent,
                  other,
                  get-pop mappings (numbered base counter) (numbered base (suc counter + k)),
                  eq_iff (numbered base counter) (numbered base (suc counter + k)),
                )),
          )
    ]
  where
    the_same : (n : ℕ) → n + 0 ≡ n
    the_same n = omega arith

    moved : (n k : ℕ) → n + suc k ≡ suc n + k
    moved n k = omega arith

free-none :
    (store : InMemoryStore) (p text : String)
    → get_by_placeholder store p ≡ none
    → free_for store p text ≡ true
free-none store p text h = rw (h, free_for)

resolve_from-some :
    (rounds counter k : ℕ) (store : InMemoryStore) (base text : String)
    → k < rounds
    → get_by_placeholder store (numbered base (counter + k)) ≡ none
    → (n : ℕ) × (resolve_from rounds counter store base text ≡ some (numbered base n))
      × (free_for store (numbered base n) text ≡ true)
unfolding resolve_from
resolve_from-some zero counter k store base text h absent = absurd (omega arith)
resolve_from-some (suc rounds) counter zero store base text h absent =
    let free = free-none store (numbered base counter) text (rw (the_same counter) at absent) in
    (counter, rw free, free)
  where
    the_same : (n : ℕ) → n + 0 ≡ n
    the_same n = omega arith
resolve_from-some (suc rounds) counter (suc k) store base text h absent =
    elim (Bool-cases (free_for store (numbered base counter) text)) [
      | inl free ↦ (counter, rw free, free)
      | inr taken ↦
          let (n, found, free) =
            resolve_from-some rounds (suc counter) k store base text (omega arith)
              (rw (moved counter k) at absent) in
          (n, rw taken found, free)
    ]
  where
    moved : (n k : ℕ) → n + suc k ≡ suc n + k
    moved n k = omega arith

-- The loop over numbered placeholders ends, after at most as many rounds as the store has mappings
-- and one more, with one that the store does not give to another value.
pub resolve_collision-total :
    (store : InMemoryStore) (base text : String)
    → (n : ℕ) × (resolve_collision store base text ≡ some (numbered base n))
      × (free_for store (numbered base n) text ≡ true)
unfolding resolve_collision size get_by_placeholder
resolve_collision-total store base text =
    let (k, fits, absent) =
      unused (suc (length store.ph2orig)) 1 base store.ph2orig (omega arith) in
    resolve_from-some (suc (length store.ph2orig)) 1 k store base text fits absent

-- The new placeholder is not given to another value, and starts with the type's name.
new_placeholder-total :
    (hashing : Hashing) (store : InMemoryStore) (entity_type : EntityType) (text : String)
    → (p : String) × (new_placeholder hashing store entity_type text ≡ some p)
      × (free_for store p text ≡ true)
      × (starts_with p (value entity_type ++ "_") ≡ true)
new_placeholder-total hashing store entity_type text =
    let base = base_placeholder hashing entity_type text in
    elim (Bool-cases (free_for store base text)) [
      | inl free ↦ (base, rw free, free, begins_base (value entity_type) _)
      | inr taken ↦
          let (n, found, free) = resolve_collision-total store base text in
          (numbered base n, rw taken found, free, begins (value entity_type) _ _)
    ]
  where
    begins_base : (t suffix : String) → starts_with (t ++ ("_" ++ suffix)) (t ++ "_") ≡ true
    begins_base t suffix = rw (← append_assoc t "_" suffix) (starts_with-append (t ++ "_") suffix)

    begins :
        (t suffix rest : String) → starts_with ((t ++ ("_" ++ suffix)) ++ rest) (t ++ "_") ≡ true
    begins t suffix rest =
        rw (← append_assoc t "_" suffix, append_assoc (t ++ "_") suffix rest)
          (starts_with-append (t ++ "_") (suffix ++ rest))

-- What a call of `pseudonymize` leaves.
pub record Pseudonymized (store : InMemoryStore) (entity_type : EntityType) (text : String)
    (after : InMemoryStore) (p : String) : Type 0 where
  pub restores : get_by_placeholder after p ≡ some text
  pub stored : get_by_original after text ≡ some p
  pub typed : starts_with p (value entity_type ++ "_") ≡ true
  pub consistent : IsConsistent after
  pub kept :
      (q v : String) → get_by_placeholder store q ≡ some v → get_by_placeholder after q ≡ some v

put-Pseudonymized :
    (store : InMemoryStore) (entity_type : EntityType) (text p : String)
    → IsConsistent store
    → free_for store p text ≡ true
    → starts_with p (value entity_type ++ "_") ≡ true
    → Pseudonymized store entity_type text (put store p text) p
unfolding put get_by_placeholder get_by_original
put-Pseudonymized store entity_type text p consistent free typed = record {
  restores = rw get-put (rw eq_refl refl);
  stored = rw get-put (rw eq_refl refl);
  typed = typed;
  consistent = record {
    back = λ o q h. ground (
      arith,
      h,
      free,
      get-put store.orig2ph text o p,
      get-put store.ph2orig p q text,
      consistent.back o q,
      eq_iff text o,
      eq_iff p q,
      eq_iff o text,
    );
  };
  kept =
      λ q v h. ground (arith, h, free, get-put store.ph2orig p q text, eq_iff p q, eq_iff v text);
}

pseudonymize_new :
    (hashing : Hashing) (store : InMemoryStore) (entity_type : EntityType) (text : String)
    → IsConsistent store
    → (after : InMemoryStore) × (p : String) × (put_new store text
          (new_placeholder hashing store entity_type text)
        ≡ some (after, p))
      × Pseudonymized store entity_type text after p
pseudonymize_new hashing store entity_type text consistent =
    let (p, made, free, typed) = new_placeholder-total hashing store entity_type text in
    (
      put store p text,
      p,
      rw (made, put_new),
      put-Pseudonymized store entity_type text p consistent free typed,
    )

-- On a store in which every original maps to a placeholder that maps back to it, the call ends and
-- gives a placeholder of the type that maps back to the value. The store stays such, and every
-- placeholder given out before still maps to its value.
pub pseudonymize-total :
    (hashing : Hashing) (store : InMemoryStore) (entity_type : EntityType) (text : String)
    → IsConsistent store
    → (after : InMemoryStore) × (p : String) × (pseudonymize hashing store entity_type text
        ≡ some (after, p))
      × Pseudonymized store entity_type text after p
unfolding pseudonymize
pseudonymize-total hashing store entity_type text consistent =
    let new = pseudonymize_new hashing store entity_type text consistent in
    elim (Option-cases (get_by_original store text)) [
      | inl fresh ↦ rw (fresh, pseudonymize_with) new
      | inr (p, seen) ↦ elim (Bool-cases (starts_with p (value entity_type ++ "_"))) [
        | inl typed ↦ (
          store,
          p,
          rw (seen, pseudonymize_with) (rw typed refl),
          record {
            restores = consistent.back text p seen;
            stored = seen;
            typed = typed;
            consistent = consistent;
            kept = λ q v h. h;
          },
        )
        | inr other ↦ rw (seen, pseudonymize_with) (rw other new)
      ]
    ]

-- The empty store is consistent.
pub init-IsConsistent : IsConsistent init
unfolding get_by_original Dict.get
init-IsConsistent = record { back = λ original placeholder h. cc }

pseudonymize-facts :
    (hashing : Hashing) (store after : InMemoryStore) (entity_type : EntityType) (text p : String)
    → IsConsistent store
    → pseudonymize hashing store entity_type text ≡ some (after, p)
    → Pseudonymized store entity_type text after p
pseudonymize-facts hashing store after entity_type text p consistent h =
    let (after', p', made, facts) = pseudonymize-total hashing store entity_type text consistent in
    let same : some (after', p') ≡ some (after, p) = sym made ∙ h in
    let same_store : after' ≡ after = cc same in
    let same_text : p' ≡ p = cc same in rw (← same_store, ← same_text) facts

-- On such a store, two values that are asked for one after the other never share a placeholder,
-- whatever their types.
pub pseudonymize_apart :
    (hashing : Hashing) (store between after : InMemoryStore) (t u : EntityType) (v w p q : String)
    → IsConsistent store
    → v ≢ w
    → pseudonymize hashing store t v ≡ some (between, p)
    → pseudonymize hashing between u w ≡ some (after, q)
    → p ≢ q
pseudonymize_apart hashing store between after t u v w p q consistent ne h k same =
    let first = pseudonymize-facts hashing store between t v p consistent h in
    let second = pseudonymize-facts hashing between after u w q first.consistent k in
    ne (cc (same, second.restores, second.kept p v first.restores))
