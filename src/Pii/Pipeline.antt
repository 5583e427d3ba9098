-- ===== src/Pii/Pipeline.antt =====
-- `RedactionPipeline` of backend/pii/pipeline.py. The regular expressions are arguments: what
-- `finditer` yields for a pattern, and `is_excluded`. The pseudonymizer is an argument as well, with
-- its store as a state, so that the client sees its interface only.
pub mod Spans
pub mod Priority
pub mod Rewriting
pub mod Pass
use Prim.Native.String.{◌++◌ as ◌<>◌, count}
use mister_pilot_proxy.Prelude.{
  ℕ, ◌+◌, ◌-◌, min, String, Bool, true, false, not, ◌&&◌, ◌||◌, Option, none, some, List, [], ◌∷◌,
  ◌++◌, ltb, leb, eqb, ◌==◌, if◌then◌else◌, any, take_text, drop_text, slice_text,
}
use mister_pilot_proxy.Pii.{EntityType, value}

-- `pattern` names the regular expression.
pub record PatternDef : Type 0 where
  pub entity_type : EntityType
  pub pattern : ℕ
  pub value_group : ℕ
  pub priority : ℕ

pub record Finding : Type 0 where
  pub entity_type : String
  pub original : String
  pub placeholder : String
  pub context : String

pub record Match : Type 0 where
  pub start : ℕ
  pub end : ℕ
  pub original : String
  pub full_text : String
  pub val_start : ℕ
  pub val_end : ℕ
  pub pdef : PatternDef

-- A match of a regular expression: its span, and that of the value group if the group took part.
pub record Span : Type 0 where
  pub start : ℕ
  pub end : ℕ
  pub group : Option (ℕ × ℕ)

pub record Patterns : Type 0 where
  pub registry : List PatternDef
  pub finditer : PatternDef → String → List Span
  pub is_excluded : String → Bool

module _ (patterns : Patterns) (text : String) where
  abbrev pub match_of : PatternDef → Span → Option (ℕ × ℕ) → List Match
  match_of pdef span none = []
  match_of pdef span (some (vs, ve)) =
      if slice_text vs ve text == "" || patterns.is_excluded (slice_text vs ve text)
      then []
      else record {
        start = span.start;
        end = span.end;
        original = slice_text vs ve text;
        full_text = slice_text span.start span.end text;
        val_start = vs - span.start;
        val_end = ve - span.start;
        pdef = pdef;
      }
        ∷ []

  abbrev pub matches_of : PatternDef → List Span → List Match
  matches_of pdef [] = []
  matches_of pdef (span ∷ spans) = match_of pdef span span.group ++ matches_of pdef spans

  abbrev pub collect_from : List PatternDef → List Match
  collect_from [] = []
  collect_from (pdef ∷ pdefs) = matches_of pdef (patterns.finditer pdef text) ++ collect_from pdefs

unfoldable pub collect : Patterns → String → List Match
collect patterns text = collect_from patterns text patterns.registry

-- The order of the key `(-priority, -(end - start), start)`.
abbrev pub before : Match → Match → Bool
before m n =
    ltb n.pdef.priority m.pdef.priority
    || (eqb m.pdef.priority n.pdef.priority
        && (ltb (n.end - n.start) (m.end - m.start)
            || (eqb (m.end - m.start) (n.end - n.start) && leb m.start n.start)))

-- `sorted` is stable: a match goes in front of the first that its key does not exceed.
unfoldable pub insert_priority : Match → List Match → List Match
insert_priority m [] = m ∷ []
insert_priority m (n ∷ ns) =
    let rest = insert_priority m ns in if before m n then m ∷ n ∷ ns else n ∷ rest

unfoldable pub by_priority : List Match → List Match
unfolding insert_priority
by_priority [] = []
by_priority (m ∷ ms) = insert_priority m (by_priority ms)

unfoldable pub insert_start : Match → List Match → List Match
insert_start m [] = m ∷ []
insert_start m (n ∷ ns) =
    let rest = insert_start m ns in if leb m.start n.start then m ∷ n ∷ ns else n ∷ rest

unfoldable pub by_start : List Match → List Match
unfolding insert_start
by_start [] = []
by_start (m ∷ ms) = insert_start m (by_start ms)

-- `m.start < e and m.end > s`
abbrev pub overlaps : Match → Match → Bool
overlaps m n = ltb m.start n.end && ltb n.start m.end

-- The loop over the sorted matches. `covered` holds the spans of `accepted`, in the same order.
unfoldable pub accept : List Match → List Match → List Match
accept accepted [] = accepted
accept accepted (m ∷ ms) =
    accept (if any (overlaps m) accepted then accepted else accepted ++ m ∷ []) ms

unfoldable pub resolve_overlaps : List Match → List Match
unfolding by_priority by_start accept
resolve_overlaps matches = by_start (accept [] (by_priority matches))

-- `.replace("\n", " ")`
abbrev pub one_line : String → String
one_line String.[] = ""
one_line (String.◌∷◌ c s) =
    let rest = one_line s in
    if eqb (Prim.Native.Char.code c) 10 then " " <> rest else String.◌∷◌ c rest

-- `s[:80] + ("..." if len(s) > 80 else "")`
abbrev pub truncated : String → String
truncated s = take_text 80 s <> (if ltb 80 (count s) then "..." else "")

abbrev pub replacement : Match → String → String
replacement m placeholder =
    if eqb m.pdef.value_group 0
    then placeholder
    else take_text m.val_start m.full_text <> (placeholder <> drop_text m.val_end m.full_text)

-- `ctx` is `log_context_chars`.
abbrev pub finding_of : ℕ → String → Match → String → Finding
finding_of ctx text m placeholder = record {
  entity_type = value m.pdef.entity_type;
  original = truncated m.original;
  placeholder = placeholder;
  context =
      "..."
      <> (one_line (slice_text (m.start - ctx) m.start text)
          <> ("["
              <> (truncated m.original
                  <> ("]"
                      <> (one_line (slice_text m.end (min (count text) (m.end + ctx)) text)
                          <> "...")))));
}

module _ {S : Type 0} (pseudonymize : S → EntityType → String → Option (S × String)) (ctx : ℕ)
    (text : String) where
  abbrev pub add_part :
      ℕ
      → Match
      → String
      → Option (S × (String × List Finding))
      → Option (S × (String × List Finding))
  add_part cursor m placeholder none = none
  add_part cursor m placeholder (some (after, (rest, findings))) = some (
    after,
    (
      slice_text cursor m.start text <> (replacement m placeholder <> rest),
      finding_of ctx text m placeholder ∷ findings,
    ),
  )

  -- The loop over the matches: what is joined from the cursor on, and the findings.
  unfoldable pub apply_from : ℕ → S → List Match → Option (S × (String × List Finding))
  apply_from cursor state [] = some (state, (drop_text cursor text, []))
  apply_from cursor state (m ∷ ms) = elim (pseudonymize state m.pdef.entity_type m.original) [
    | none ↦ none
    | some (next, placeholder) ↦ add_part cursor m placeholder (apply_from m.end next ms)
  ]

  unfoldable pub apply : S → List Match → Option (S × (String × List Finding))
  apply state matches = apply_from 0 state matches

  -- The first pass of `redact`: the `with` block.
  unfoldable pub redact_pass : Patterns → S → Option (S × (String × List Finding))
  unfolding collect resolve_overlaps apply
  redact_pass patterns state = apply state (resolve_overlaps (collect patterns text))
