-- ===== src/Pii/Pipeline/Rewriting.antt =====
-- `_apply` of backend/pii/pipeline.py: what it changes of the text, and what its findings say.
use Prim.Native.String.{◌++◌ as ◌<>◌}
use text.Mathlib.TextLemmas.{append-nil, nil-append, append_assoc}
use mister_pilot_proxy.Prelude.{
  ℕ, ◌≤◌, ◌<◌, ◌≡◌, refl, sym, ap, ◌∙◌, String, Bool-cases, true, inl, inr, some, List, [], ◌∷◌,
  eqb, arith, take_text, drop_text, slice_text, slice_text-drop_text,
}
use mister_pilot_proxy.Pii.Store.{InMemoryStore, get_by_placeholder}
use mister_pilot_proxy.Pii.Pseudonymizer.{Hashing, pseudonymize}
use mister_pilot_proxy.Pii.Mappings.{IsConsistent, pseudonymize-total}
use mister_pilot_proxy.Pii.Pipeline.{
  Match, Finding, add_part, apply_from, apply, replacement, finding_of,
}
use mister_pilot_proxy.Pii.Pipeline.Spans.{Separate}

-- The match is of the text: its full text stands at its span, and its original at its place in that;
-- with value group 0 the original is the whole.
pub record IsOf (text : String) (m : Match) : Type 0 where
  pub spans : slice_text m.start m.end text ≡ m.full_text
  pub value_at :
      take_text m.val_start m.full_text <> (m.original <> drop_text m.val_end m.full_text)
      ≡ m.full_text
  pub whole : eqb m.pdef.value_group 0 ≡ true → m.original ≡ m.full_text

abbrev pub AllOf : String → List Match → Type 0
AllOf text [] = Unit
AllOf text (m ∷ ms) = IsOf text m × AllOf text ms

replacement_original :
    (text : String) (m : Match) → IsOf text m → replacement m m.original ≡ m.full_text
replacement_original text m h = elim (Bool-cases (eqb m.pdef.value_group 0)) [
  | inl whole ↦ rw whole (h.whole whole)
  | inr group ↦ rw group h.value_at
]

joined :
    (text : String) (cursor : ℕ) (m : Match)
    → IsOf text m
    → cursor ≤ m.start
    → m.start < m.end
    → slice_text cursor m.start text <> (replacement m m.original <> drop_text m.end text)
      ≡ drop_text cursor text
joined text cursor m h lo fits =
    rw
      (
        replacement_original text m h,
        ← h.spans,
        slice_text-drop_text m.start m.end text (omega arith),
      )
      (slice_text-drop_text cursor m.start text lo)

-- The text with each match's value in its place, and what it is rewritten to: the same text with each
-- finding's placeholder there, and nothing else changed.
abbrev pub Rewritten : String → String → List Match → List Finding → Type 0
Rewritten text out [] [] = out ≡ text
Rewritten text out (m ∷ ms) (f ∷ fs) =
    (front : String) × (back : String) × (rest : String) × (out_rest : String) × (text
      ≡ front <> (m.original <> (back <> rest)))
    × (out ≡ front <> (f.placeholder <> (back <> out_rest)))
    × Rewritten rest out_rest ms fs
Rewritten _ _ _ _ = ⊥

-- What `replacement` puts around the placeholder.
around :
    (m : Match)
    → (front : String) × (back : String) × ((p : String) → replacement m p ≡ front <> (p <> back))
around m = elim (Bool-cases (eqb m.pdef.value_group 0)) [
  | inl whole ↦ ("", "", λ p. rw (whole, append-nil, nil-append) refl)
  | inr group ↦
      (take_text m.val_start m.full_text, drop_text m.val_end m.full_text, λ p. rw group refl)
]

shuffle : (a f p b t : String) → a <> ((f <> (p <> b)) <> t) ≡ (a <> f) <> (p <> (b <> t))
shuffle a f p b t = rw (append_assoc, append_assoc, append_assoc) refl

-- The findings are those of the matches, in order, and each placeholder maps to its match's value.
abbrev pub Restorable : InMemoryStore → List Match → List Finding → Type 0
Restorable store [] [] = Unit
Restorable store (m ∷ ms) (f ∷ fs) =
    (get_by_placeholder store f.placeholder ≡ some m.original) × Restorable store ms fs
Restorable store _ _ = ⊥

-- What the loop leaves.
pub record Applied (store after : InMemoryStore) (ms : List Match) (fs : List Finding)
    : Type 0 where
  pub restorable : Restorable after ms fs
  pub consistent : IsConsistent after
  pub kept :
      (q v : String) → get_by_placeholder store q ≡ some v → get_by_placeholder after q ≡ some v

-- The matches are in order, without overlap, and of the text.
abbrev pub Fits : ℕ → String → List Match → Type 0
Fits cursor text ms = Separate cursor ms × AllOf text ms

apply_from-total :
    (hashing : Hashing) (ctx : ℕ) (text : String) (cursor : ℕ) (store : InMemoryStore)
    (ms : List Match)
    → IsConsistent store
    → (after : InMemoryStore) × (out : String) × (fs : List Finding) × (apply_from
          (pseudonymize hashing)
          ctx
          text
          cursor
          store
          ms
        ≡ some (after, (out, fs)))
      × Applied store after ms fs
      × (Fits cursor text ms → Rewritten (drop_text cursor text) out ms fs)
unfolding apply_from
apply_from-total hashing ctx text cursor store [] c = (
  store,
  drop_text cursor text,
  [],
  refl,
  record { restorable = tt; consistent = c; kept = λ q v h. h },
  λ h. refl,
)
apply_from-total hashing ctx text cursor store (m ∷ ms) c =
    let (next, p, made, facts) = pseudonymize-total hashing store m.pdef.entity_type m.original c in
    let (after, out, fs, rest, done, same) =
      apply_from-total hashing ctx text m.end next ms facts.consistent in
    let (front, back, shown) = around m in
    let gap = slice_text cursor m.start text in
    (
      after,
      gap <> (replacement m p <> out),
      finding_of ctx text m p ∷ fs,
      rw (made, apply_from) (rw (rest, add_part) refl),
      record {
        restorable = (done.kept p m.original facts.restores, done.restorable);
        consistent = done.consistent;
        kept = λ q v h. done.kept q v (facts.kept q v h);
      },
      λ ((lo, fits, separate), (of, all_of)). (
        gap <> front,
        back,
        drop_text m.end text,
        out,
        sym (joined text cursor m of lo fits)
            ∙ ap (λ r. gap <> (r <> drop_text m.end text)) (shown m.original)
            ∙ shuffle gap front m.original back (drop_text m.end text),
        rw (shown p) (shuffle gap front p back out),
        same (separate, all_of),
      ),
    )

-- With the real pseudonymizer, on a consistent store, `_apply` ends. There is one finding for each
-- match, in order; its placeholder maps back to the match's value in the store that is left, which is
-- consistent and still maps every earlier placeholder to its value.
pub apply-total :
    (hashing : Hashing) (ctx : ℕ) (text : String) (store : InMemoryStore) (matches : List Match)
    → IsConsistent store
    → (after : InMemoryStore) × (out : String) × (findings : List Finding) × (apply
          (pseudonymize hashing)
          ctx
          text
          store
          matches
        ≡ some (after, (out, findings)))
      × Applied store after matches findings
unfolding apply
apply-total hashing ctx text store matches c =
    let (after, out, findings, made, done, same) =
      apply_from-total hashing ctx text 0 store matches c in
    (after, out, findings, made, done)

-- The same, and where the matches are in order, without overlap, and of the text, it is rewritten at
-- their values only.
pub apply-Rewritten :
    (hashing : Hashing) (ctx : ℕ) (text : String) (store : InMemoryStore) (matches : List Match)
    → IsConsistent store
    → Fits 0 text matches
    → (after : InMemoryStore) × (out : String) × (findings : List Finding) × (apply
          (pseudonymize hashing)
          ctx
          text
          store
          matches
        ≡ some (after, (out, findings)))
      × Rewritten text out matches findings
      × Applied store after matches findings
unfolding apply drop_text
apply-Rewritten hashing ctx text store matches c h =
    let (after, out, findings, made, done, same) =
      apply_from-total hashing ctx text 0 store matches c in
    (after, out, findings, made, same h, done)
