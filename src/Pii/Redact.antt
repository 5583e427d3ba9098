-- ===== src/Pii/Redact.antt =====
-- `redact` and its second pass, in backend/pii/pipeline.py. The libraries
-- that undo an obfuscation, and the substitution by a flexible pattern, are arguments. Metrics and log
-- lines are left out.
pub mod Total
use Prim.Native.String.{count}
use mister_pilot_proxy.Prelude.{
  ℕ, String, Bool, true, false, not, ◌&&◌, ◌||◌, Option, none, some, List, [], ◌∷◌, ◌++◌, ltb, ◌==◌,
  contains, slice_text, if◌then◌else◌,
}
use mister_pilot_proxy.Pii.{EntityType, value}
use mister_pilot_proxy.Pii.Pipeline.{PatternDef, Finding, Span, Patterns, truncated, redact_pass}

-- What the second pass takes from `html`, `urllib` and `re`: the cleaned text, the core of a value
-- without white space, `core in cleaned`, whether a text holds a placeholder, and the first
-- substitution of an obfuscated core, if there is one.
pub record Deobfuscation : Type 0 where
  pub deobfuscate : String → String
  pub core : String → String
  pub is_within : String → String → Bool
  pub contains_placeholder : String → Bool
  pub subn : String → String → String → Option String

-- The text so far, the cores already seen, and the findings.
pub record Extra : Type 0 where
  pub text : String
  pub already : List String
  pub findings : List Finding

module _ {S : Type 0} (pseudonymize : S → EntityType → String → Option (S × String))
    (patterns : Patterns) (deob : Deobfuscation) where
  -- Why a value of the cleaned text is passed over.
  abbrev pub is_skipped : String → List String → String → Bool
  is_skipped cleaned already sensitive =
      let core = deob.core sensitive in
      sensitive == ""
      || patterns.is_excluded sensitive
      || contains already core
      || ltb (count core) 8
      || deob.contains_placeholder core
      || not (deob.is_within core cleaned)

  abbrev pub replaced : PatternDef → String → String → Extra → Option String → Extra
  replaced pdef core placeholder extra none = record extra { already = core ∷ extra.already }
  replaced pdef core placeholder extra (some text) = record {
    text = text;
    already = core ∷ extra.already;
    findings =
        extra.findings
        ++ record {
          entity_type = value pdef.entity_type;
          original = truncated core;
          placeholder = placeholder;
          context = "[deobfuscated]";
        }
          ∷ [];
  }

  abbrev pub with_placeholder :
      PatternDef → String → Extra → Option (S × String) → Option (S × Extra)
  with_placeholder pdef core extra none = none
  with_placeholder pdef core extra (some (state, placeholder)) =
      some (state, replaced pdef core placeholder extra (deob.subn core placeholder extra.text))

  abbrev pub look_at : String → PatternDef → Option (ℕ × ℕ) → S → Extra → Option (S × Extra)
  look_at cleaned pdef none state extra = some (state, extra)
  look_at cleaned pdef (some (vs, ve)) state extra =
      let sensitive = slice_text vs ve cleaned in
      if is_skipped cleaned extra.already sensitive
      then some (state, extra)
      else with_placeholder pdef (deob.core sensitive) extra
          (pseudonymize state pdef.entity_type (deob.core sensitive))

  unfoldable pub look_through : String → PatternDef → List Span → S → Extra → Option (S × Extra)
  look_through cleaned pdef [] state extra = some (state, extra)
  look_through cleaned pdef (span ∷ spans) state extra =
      elim (look_at cleaned pdef span.group state extra) [
        | none ↦ none
        | some (next, more) ↦ look_through cleaned pdef spans next more
      ]

  unfoldable pub look_for_all : String → List PatternDef → S → Extra → Option (S × Extra)
  unfolding look_through
  look_for_all cleaned [] state extra = some (state, extra)
  look_for_all cleaned (pdef ∷ pdefs) state extra =
      elim (look_through cleaned pdef (patterns.finditer pdef cleaned) state extra) [
        | none ↦ none
        | some (next, more) ↦ look_for_all cleaned pdefs next more
      ]

  unfoldable pub deobfuscated_redact : String → List String → S → Option (S × Extra)
  unfolding look_for_all
  deobfuscated_redact text already state =
      let extra : Extra = record { text = text; already = already; findings = [] } in
      if deob.deobfuscate text == text
      then some (state, extra)
      else look_for_all (deob.deobfuscate text) patterns.registry state extra

  abbrev pub originals : List Finding → List String
  originals [] = []
  originals (f ∷ fs) = f.original ∷ originals fs

  abbrev pub joined : List Finding → Option (S × Extra) → Option (S × (String × List Finding))
  joined findings none = none
  joined findings (some (state, extra)) = some (state, (extra.text, findings ++ extra.findings))

  abbrev pub second_pass :
      Option (S × (String × List Finding)) → Option (S × (String × List Finding))
  second_pass none = none
  second_pass (some (state, (sanitized, findings))) =
      joined findings (deobfuscated_redact sanitized (originals findings) state)

  unfoldable pub redact : ℕ → String → S → Option (S × (String × List Finding))
  unfolding deobfuscated_redact
  redact ctx text state =
      if text == ""
      then some (state, (text, []))
      else second_pass (redact_pass pseudonymize ctx text patterns state)
