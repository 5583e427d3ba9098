-- ===== src/Pii/Redact/Total.antt =====
-- `redact` of backend/pii/pipeline.py with the pseudonymizer on a store: both passes end, and no
-- placeholder is lost.
use mister_pilot_proxy.Prelude.{
  ℕ, String, Bool-cases, ◌≡◌, refl, inl, inr, Option, none, some, List, [], ◌∷◌, ◌++◌, ◌==◌,
  slice_text,
}
use mister_pilot_proxy.Pii.Store.{InMemoryStore, get_by_placeholder}
use mister_pilot_proxy.Pii.Pseudonymizer.{Hashing, pseudonymize}
use mister_pilot_proxy.Pii.Mappings.{IsConsistent, pseudonymize-total}
use mister_pilot_proxy.Pii.Pipeline.{
  PatternDef, Finding, Span, Patterns, collect, resolve_overlaps, redact_pass,
}
use mister_pilot_proxy.Pii.Pipeline.Rewriting.{apply-total}
use mister_pilot_proxy.Pii.Redact.{
  Deobfuscation, Extra, is_skipped, replaced, with_placeholder, look_at, look_through, look_for_all,
  deobfuscated_redact, originals, joined, second_pass, redact,
}

-- The store is consistent, and every placeholder of the one before it still maps to its value.
pub record Grown (store after : InMemoryStore) : Type 0 where
  pub consistent : IsConsistent after
  pub kept :
      (q v : String) → get_by_placeholder store q ≡ some v → get_by_placeholder after q ≡ some v

Grown-refl : (store : InMemoryStore) → IsConsistent store → Grown store store
Grown-refl store c = record { consistent = c; kept = λ q v h. h }

Grown-trans : (s t u : InMemoryStore) → Grown s t → Grown t u → Grown s u
Grown-trans s t u g h = record {
  consistent = h.consistent;
  kept = λ q v e. h.kept q v (g.kept q v e);
}

module _ (hashing : Hashing) (patterns : Patterns) (deob : Deobfuscation) (cleaned : String) where
  look_at-total :
      (pdef : PatternDef) (group : Option (ℕ × ℕ)) (store : InMemoryStore) (extra : Extra)
      → IsConsistent store
      → (after : InMemoryStore) × (more : Extra) × (look_at
            (pseudonymize hashing)
            patterns
            deob
            cleaned
            pdef
            group
            store
            extra
          ≡ some (after, more))
        × Grown store after
  look_at-total pdef none store extra c = (store, extra, refl, Grown-refl store c)
  look_at-total pdef (some (vs, ve)) store extra c =
      let sensitive = slice_text vs ve cleaned in
      elim (Bool-cases
        (is_skipped (pseudonymize hashing) patterns deob cleaned extra.already sensitive)) [
          | inl skipped ↦ (store, extra, rw skipped refl, Grown-refl store c)
          | inr new ↦
              let (after, p, made, facts) =
                pseudonymize-total hashing store pdef.entity_type (deob.core sensitive) c in
              (
                after,
                replaced (pseudonymize hashing) patterns deob pdef (deob.core sensitive) p extra
                    (deob.subn (deob.core sensitive) p extra.text),
                rw new (rw (made, with_placeholder) refl),
                record { consistent = facts.consistent; kept = facts.kept },
              )
        ]

  look_through-total :
      (pdef : PatternDef) (spans : List Span) (store : InMemoryStore) (extra : Extra)
      → IsConsistent store
      → (after : InMemoryStore) × (more : Extra) × (look_through
            (pseudonymize hashing)
            patterns
            deob
            cleaned
            pdef
            spans
            store
            extra
          ≡ some (after, more))
        × Grown store after
  unfolding look_through
  look_through-total pdef [] store extra c = (store, extra, refl, Grown-refl store c)
  look_through-total pdef (span ∷ spans) store extra c =
      let (next, more, here, grown) = look_at-total pdef span.group store extra c in
      let (after, most, rest, grown') = look_through-total pdef spans next more grown.consistent in
      (after, most, rw (here, look_through) rest, Grown-trans store next after grown grown')

  look_for_all-total :
      (pdefs : List PatternDef) (store : InMemoryStore) (extra : Extra)
      → IsConsistent store
      → (after : InMemoryStore) × (more : Extra) × (look_for_all
            (pseudonymize hashing)
            patterns
            deob
            cleaned
            pdefs
            store
            extra
          ≡ some (after, more))
        × Grown store after
  unfolding look_for_all
  look_for_all-total [] store extra c = (store, extra, refl, Grown-refl store c)
  look_for_all-total (pdef ∷ pdefs) store extra c =
      let (next, more, here, grown) =
        look_through-total pdef (patterns.finditer pdef cleaned) store extra c in
      let (after, most, rest, grown') = look_for_all-total pdefs next more grown.consistent in
      (after, most, rw (here, look_for_all) rest, Grown-trans store next after grown grown')

module _ (hashing : Hashing) (patterns : Patterns) (deob : Deobfuscation) where
  deobfuscated_redact-total :
      (text : String) (already : List String) (store : InMemoryStore)
      → IsConsistent store
      → (after : InMemoryStore) × (more : Extra) × (deobfuscated_redact
            (pseudonymize hashing)
            patterns
            deob
            text
            already
            store
          ≡ some (after, more))
        × Grown store after
  unfolding deobfuscated_redact
  deobfuscated_redact-total text already store c =
      elim (Bool-cases (deob.deobfuscate text == text)) [
        | inl plain ↦ (
          store,
          record { text = text; already = already; findings = [] },
          rw plain refl,
          Grown-refl store c,
        )
        | inr hidden ↦
            let (after, more, e, grown) =
              look_for_all-total hashing patterns deob (deob.deobfuscate text) patterns.registry
                store (record { text = text; already = already; findings = [] }) c in
            (after, more, rw hidden e, grown)
      ]

  -- On a consistent store, whatever the regular expressions find in the text and in its cleaned form,
  -- `redact` ends. The store that it leaves is consistent, and every placeholder that had been given
  -- out before still maps to its value.
  pub redact-total :
      (ctx : ℕ) (text : String) (store : InMemoryStore)
      → IsConsistent store
      → (after : InMemoryStore) × (out : String) × (findings : List Finding) × (redact
            (pseudonymize hashing)
            patterns
            deob
            ctx
            text
            store
          ≡ some (after, (out, findings)))
        × Grown store after
  unfolding redact redact_pass
  redact-total ctx text store c = elim (Bool-cases (text == "")) [
    | inl empty ↦ (store, text, [], rw empty refl, Grown-refl store c)
    | inr given ↦
        let (next, sanitized, findings, first, done) =
          apply-total hashing ctx text store (resolve_overlaps (collect patterns text)) c in
        let (after, more, second, grown) =
          deobfuscated_redact-total sanitized
            (originals (pseudonymize hashing) patterns deob findings) next done.consistent in
        (
          after,
          more.text,
          findings ++ more.findings,
          rw given (rw (first, second_pass) (rw (second, joined) refl)),
          Grown-trans store next after (record { consistent = done.consistent; kept = done.kept })
              grown,
        )
  ]
