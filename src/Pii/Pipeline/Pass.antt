-- ===== src/Pii/Pipeline/Pass.antt =====
-- The first pass of `redact` in backend/pii/pipeline.py, from the regular expressions to the text.
use mister_pilot_proxy.Prelude.{
  ℕ, ◌-◌, ◌≤◌, ◌<◌, ◌≡◌, refl, ap, String, Bool-cases, true, false, inl, inr, Option, none, some,
  List, [], ◌∷◌, ◌++◌, eqb, leb, arith, any, all, ◌==◌, eq_iff, take_text, drop_text, slice_text,
  slice_text-slice_text, around_slice, ◌||◌, ltb,
}
use mister_pilot_proxy.Pii.Pipeline.{
  Match, Finding, PatternDef, Span, Patterns, match_of, matches_of, collect_from, collect, before,
  overlaps, insert_priority, by_priority, insert_start, by_start, accept, resolve_overlaps,
  redact_pass,
}
use mister_pilot_proxy.Pii.Pipeline.Spans.{nonempty, resolve_overlaps-Separate}
use mister_pilot_proxy.Pii.Pipeline.Rewriting.{IsOf, AllOf, Rewritten, Applied, apply-Rewritten}
use mister_pilot_proxy.Pii.Store.{InMemoryStore}
use mister_pilot_proxy.Pii.Pseudonymizer.{Hashing, pseudonymize}
use mister_pilot_proxy.Pii.Mappings.{IsConsistent}

-- A property of each match of a list, and that resolving overlaps loses none of it.
abbrev Each {ℓ} : (Match → Type ℓ) → List Match → Type ℓ
Each P [] = Unit
Each P (m ∷ ms) = P m × Each P ms

module _ {ℓ} (P : Match → Type ℓ) where
  Each-append : (ms ns : List Match) → Each P ms → Each P ns → Each P (ms ++ ns)
  Each-append [] ns h k = k
  Each-append (m ∷ ms) ns (x, h) k = (x, Each-append ms ns h k)

  Each-insert_priority :
      (m : Match) (ms : List Match) → P m → Each P ms → Each P (insert_priority m ms)
  unfolding insert_priority
  Each-insert_priority m [] x h = (x, tt)
  Each-insert_priority m (n ∷ ns) x (y, h) = elim (Bool-cases (before m n)) [
    | inl front ↦ rw front (x, (y, h))
    | inr behind ↦ rw behind (y, Each-insert_priority m ns x h)
  ]

  Each-by_priority : (ms : List Match) → Each P ms → Each P (by_priority ms)
  unfolding by_priority
  Each-by_priority [] h = tt
  Each-by_priority (m ∷ ms) (x, h) =
      Each-insert_priority m (by_priority ms) x (Each-by_priority ms h)

  Each-insert_start : (m : Match) (ms : List Match) → P m → Each P ms → Each P (insert_start m ms)
  unfolding insert_start
  Each-insert_start m [] x h = (x, tt)
  Each-insert_start m (n ∷ ns) x (y, h) = elim (Bool-cases (leb m.start n.start)) [
    | inl front ↦ rw front (x, (y, h))
    | inr behind ↦ rw behind (y, Each-insert_start m ns x h)
  ]

  Each-by_start : (ms : List Match) → Each P ms → Each P (by_start ms)
  unfolding by_start
  Each-by_start [] h = tt
  Each-by_start (m ∷ ms) (x, h) = Each-insert_start m (by_start ms) x (Each-by_start ms h)

  Each-accept :
      (accepted ms : List Match) → Each P accepted → Each P ms → Each P (accept accepted ms)
  unfolding accept
  Each-accept accepted [] h k = h
  Each-accept accepted (m ∷ ms) h (x, k) = elim (Bool-cases (any (overlaps m) accepted)) [
    | inl taken ↦ rw taken (Each-accept accepted ms h k)
    | inr free ↦
        rw free (Each-accept (accepted ++ m ∷ []) ms (Each-append accepted (m ∷ []) h (x, tt)) k)
  ]

  Each-resolve_overlaps : (ms : List Match) → Each P ms → Each P (resolve_overlaps ms)
  unfolding resolve_overlaps
  Each-resolve_overlaps ms h =
      Each-by_start (accept [] (by_priority ms))
        (Each-accept [] (by_priority ms) tt (Each-by_priority ms h))

-- What `re` documents of a match: the value group lies in the span, and group 0 is the span.
abbrev pub IsSpan : PatternDef → Span → Option (ℕ × ℕ) → Type 0
IsSpan pdef span none = Unit
IsSpan pdef span (some (vs, ve)) =
    (span.start ≤ vs)
    × (vs ≤ ve)
    × (ve ≤ span.end)
    × ((eqb pdef.value_group 0 ≡ true) → (vs ≡ span.start) × (ve ≡ span.end))

abbrev pub AreSpans : PatternDef → List Span → Type 0
AreSpans pdef [] = Unit
AreSpans pdef (span ∷ spans) = IsSpan pdef span span.group × AreSpans pdef spans

-- A match as `_collect` makes it: not empty, and of the text.
abbrev Good : String → Match → Type 0
Good text m = (nonempty m ≡ true) × IsOf text m

slice_text-nonempty : (a b : ℕ) (s : String) → (slice_text a b s == "") ≡ false → a < b
unfolding take_text
slice_text-nonempty a b s h = elim (Bool-cases (ltb a b)) [
  | inl less ↦ ground (arith, less)
  | inr more ↦
      let none_left : b - a ≡ 0 = ground (arith, more) in
      let empty : take_text (b - a) (drop_text a s) ≡ "" =
        ap (λ n. take_text n (drop_text a s)) none_left in
      absurd (ground (arith, h, empty, eq_iff (take_text (b - a) (drop_text a s)) ""))
]

module _ (patterns : Patterns) (text : String) where
  match_of-Good :
      (pdef : PatternDef) (span : Span) (group : Option (ℕ × ℕ))
      → IsSpan pdef span group
      → Each (Good text) (match_of patterns text pdef span group)
  match_of-Good pdef span none h = tt
  match_of-Good pdef span (some (vs, ve)) (lo, mid, hi, zero_group) =
      let value = slice_text vs ve text in
      elim (Bool-cases (value == "" || patterns.is_excluded value)) [
        | inl skipped ↦ rw skipped tt
        | inr kept ↦
            let wide = slice_text-nonempty vs ve text (ground (arith, kept)) in
            let inner = slice_text-slice_text vs ve span.start span.end text lo mid hi in
            rw kept (
              (
                ground (arith, wide, lo, hi),
                record {
                  spans = refl;
                  value_at = rw (← inner) (
                      around_slice (vs - span.start) (ve - span.start)
                        (slice_text span.start span.end text) (omega arith));
                  whole = λ g. let (s, e) = zero_group g in rw (s, e) refl;
                },
              ),
              tt,
            )
      ]

  matches_of-Good :
      (pdef : PatternDef) (spans : List Span)
      → AreSpans pdef spans
      → Each (Good text) (matches_of patterns text pdef spans)
  matches_of-Good pdef [] h = tt
  matches_of-Good pdef (span ∷ spans) (x, h) =
      Each-append (Good text) (match_of patterns text pdef span span.group) _
        (match_of-Good pdef span span.group x) (matches_of-Good pdef spans h)

  collect_from-Good :
      (pdefs : List PatternDef)
      → ((pdef : PatternDef) → AreSpans pdef (patterns.finditer pdef text))
      → Each (Good text) (collect_from patterns text pdefs)
  collect_from-Good [] h = tt
  collect_from-Good (pdef ∷ pdefs) h =
      Each-append (Good text) (matches_of patterns text pdef (patterns.finditer pdef text)) _
        (matches_of-Good pdef (patterns.finditer pdef text) (h pdef)) (collect_from-Good pdefs h)

Good-nonempty : (text : String) (ms : List Match) → Each (Good text) ms → all nonempty ms ≡ true
Good-nonempty text [] h = refl
Good-nonempty text (m ∷ ms) ((x, of), h) = ground (arith, x, Good-nonempty text ms h)

Good-AllOf : (text : String) (ms : List Match) → Each (Good text) ms → AllOf text ms
Good-AllOf text [] h = tt
Good-AllOf text (m ∷ ms) ((x, of), h) = (of, Good-AllOf text ms h)

module _ (patterns : Patterns) (ctx : ℕ) (text : String)
    (documented : (pdef : PatternDef) → AreSpans pdef (patterns.finditer pdef text)) where
  collect-Good : Each (Good text) (collect patterns text)
  unfolding collect
  collect-Good = collect_from-Good patterns text patterns.registry documented

  -- The regular expressions' value groups are inside their matches, and the store is consistent: the
  -- first pass ends. There is one finding for each match that `resolve_overlaps` keeps, in order. What
  -- it returns is the text with the values of these matches replaced by the findings' placeholders, in
  -- order, and nothing else changed; each placeholder maps back to its match's value in the store that
  -- is left, which is consistent and still maps every earlier placeholder to its value.
  pub redact_pass-Rewritten :
      (hashing : Hashing) (store : InMemoryStore)
      → IsConsistent store
      → (after : InMemoryStore) × (out : String) × (findings : List Finding) × (redact_pass
            (pseudonymize hashing)
            ctx
            text
            patterns
            store
          ≡ some (after, (out, findings)))
        × Rewritten text out (resolve_overlaps (collect patterns text)) findings
        × Applied store after (resolve_overlaps (collect patterns text)) findings
  unfolding redact_pass
  redact_pass-Rewritten hashing store c =
      let matches = collect patterns text in
      apply-Rewritten hashing ctx text store (resolve_overlaps matches) c (
        resolve_overlaps-Separate matches (Good-nonempty text matches collect-Good),
        Good-AllOf text (resolve_overlaps matches)
            (Each-resolve_overlaps (Good text) matches collect-Good),
      )
