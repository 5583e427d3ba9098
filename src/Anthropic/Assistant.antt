-- ===== src/Anthropic/Assistant.antt =====
-- `_assistant_blocks` and `_rebuild` of backend/llm/anthropic_client.py. The
-- stash is the store of Ttl, whose `get` and `put` do what those of `_TurnStash` do.
use mister_pilot_proxy.Prelude.{
  ℕ, ◌+◌, String, Bool, true, false, not, ◌&&◌, Option, none, some, List, [], ◌∷◌, ◌++◌, ◌==◌,
  if◌then◌else◌, Result, ok, raise, ◌>>=◌, is_blank, strip, slice_text,
}
use mister_pilot_proxy.Dict
use mister_pilot_proxy.Dict.{Dict}
use mister_pilot_proxy.Json.{Json, str, arr, obj, get_field, to_list, truthy}
use mister_pilot_proxy.Ttl
use mister_pilot_proxy.Ttl.{TtlStore}
use mister_pilot_proxy.Anthropic.{
  BadValue, bad_value, Block, text_block, tool_use, thinking, Wire, text_of, mapping_of, tool_id,
  tool_input,
}

-- A reply's layout: what stood where, and how long each text was.
pub data Piece : Type 0 where
  thinking_piece : Json → Piece
  tool_piece : String → Piece
  text_piece : ℕ → Piece

pub record Stored : Type 0 where
  pub tool_ids : List String
  pub text_digest : String
  pub text_digest_stripped : String
  pub layout : List Piece

pub record ToolUse : Type 0 where
  pub id : String
  pub name : Json
  pub input : Json

-- What a conversion changes: the stash, and the number of fresh ids drawn.
pub record State : Type 0 where
  pub stash : TtlStore Stored
  pub drawn : ℕ

abbrev pub use_block : ToolUse → Block
use_block u = tool_use u.id u.name u.input

abbrev pub use_blocks : Dict ToolUse → List Block
use_blocks [] = []
use_blocks ((key, u) ∷ uses) = use_block u ∷ use_blocks uses

abbrev pub keys : Dict ToolUse → List String
keys [] = []
keys ((key, u) ∷ uses) = key ∷ keys uses

abbrev pub same_ids : List String → List String → Bool
same_ids [] [] = true
same_ids (x ∷ xs) (y ∷ ys) = x == y && same_ids xs ys
same_ids _ _ = false

abbrev pub or_name : Option Json → Json
or_name none = str ""
or_name (some name) = name

abbrev pub only_dicts : List Json → List Json
only_dicts [] = []
only_dicts (obj fields ∷ cs) = obj fields ∷ only_dicts cs
only_dicts (_ ∷ cs) = only_dicts cs

-- `msg.get("tool_calls") or []`, of which the dicts are kept; a text or a dict iterates over texts.
abbrev pub calls_of : Option Json → Result BadValue (List Json)
calls_of none = ok []
calls_of (some (arr items)) = ok (only_dicts (to_list items))
calls_of (some (str s)) = ok []
calls_of (some (obj fields)) = ok []
calls_of (some value) = if truthy (some value) then raise bad_value else ok []

module _ (wire : Wire) where
  abbrev pub add_call : ℕ × Dict ToolUse → Json → Result BadValue (ℕ × Dict ToolUse)
  add_call (drawn, uses) c =
      let key = tool_id wire drawn (get_field c "id") in
      let id = tool_id wire key.0 (get_field c "id") in
      mapping_of (get_field c "function") >>= λ function. ok (
        id.0,
        Dict.put uses key.1 (record {
          id = id.1;
          name = or_name (get_field function "name");
          input = tool_input wire (get_field function "arguments");
        }),
      )

  abbrev pub add_calls : ℕ × Dict ToolUse → List Json → Result BadValue (ℕ × Dict ToolUse)
  add_calls uses [] = ok uses
  add_calls uses (c ∷ cs) = add_call uses c >>= λ more. add_calls more cs

  abbrev pub turn_key : String → String → List String → String
  turn_key tenant text [] = wire.digest (tenant ∷ "text" ∷ strip text ∷ [])
  turn_key tenant text (id ∷ ids) = wire.digest (tenant ∷ id ∷ [])

  abbrev pub unless_blank : String → List Block
  unless_blank piece = if is_blank piece then [] else text_block piece ∷ []

  -- `placed` is whether the text has been put into its slot.
  abbrev pub lay :
      Bool → String → Dict ToolUse → ℕ → Bool → List Piece → Result BadValue (List Block)
  lay exact text uses pos placed [] = ok []
  lay exact text uses pos placed (thinking_piece value ∷ layout) =
      lay exact text uses pos placed layout >>= λ later. ok (thinking value ∷ later)
  lay exact text uses pos placed (tool_piece id ∷ layout) = elim (Dict.get uses id) [
    | none ↦ raise bad_value
    | some u ↦ lay exact text uses pos placed layout >>= λ later. ok (use_block u ∷ later)
  ]
  lay true text uses pos placed (text_piece n ∷ layout) =
      lay true text uses (pos + n) placed layout >>= λ later.
      ok (unless_blank (slice_text pos (pos + n) text) ++ later)
  lay false text uses pos placed (text_piece n ∷ layout) =
      lay false text uses pos true layout >>= λ later.
      ok ((if placed then [] else unless_blank (strip text)) ++ later)

  unfoldable pub rebuild : Stored → String → Dict ToolUse → Result BadValue (Option (List Block))
  rebuild stored text uses =
      let exact = stored.text_digest == wire.digest (text ∷ []) in
      if not exact && not (stored.text_digest_stripped == wire.digest (strip text ∷ []))
      then ok none
      else (lay exact text uses 0 false stored.layout >>= λ blocks. ok (some blocks))

  abbrev pub plain_blocks : String → Dict ToolUse → List Block
  plain_blocks text uses = unless_blank text ++ use_blocks uses

  abbrev pub or_plain : String → Dict ToolUse → Option (List Block) → List Block
  or_plain text uses none = plain_blocks text uses
  or_plain text uses (some blocks) = blocks

  abbrev pub from_stash : String → Dict ToolUse → Option Stored → Result BadValue (List Block)
  from_stash text uses none = ok (plain_blocks text uses)
  from_stash text uses (some stored) =
      if same_ids stored.tool_ids (keys uses)
      then (rebuild stored text uses >>= λ rebuilt. ok (or_plain text uses rebuilt))
      else ok (plain_blocks text uses)

  abbrev pub looked_up :
      State
      → ℕ
      → String
      → String
      → Result BadValue (ℕ × Dict ToolUse)
      → State × Result BadValue (List Block)
  looked_up state now tenant text (raise e) = (state, raise e)
  looked_up state now tenant text (ok (drawn, uses)) =
      let found = Ttl.get state.stash now (some (turn_key tenant text (keys uses))) in
      (record { stash = found.0; drawn = drawn }, from_stash text uses found.1)

  unfoldable pub assistant_blocks : State → ℕ → String → Json → State × Result BadValue (List Block)
  unfolding rebuild
  assistant_blocks state now tenant msg =
      looked_up state now tenant (text_of (get_field msg "content"))
        (calls_of (get_field msg "tool_calls") >>= λ calls. add_calls (state.drawn, []) calls)
