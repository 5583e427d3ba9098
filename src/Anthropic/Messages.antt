-- ===== src/Anthropic/Messages.antt =====
-- `to_anthropic_messages` of backend/llm/anthropic_client.py: the turns of a chat.
pub mod Turns
pub mod Ending
pub mod Sent
use mister_pilot_proxy.Prelude.{
  ℕ, String, Bool, true, false, not, ◌&&◌, ◌||◌, Option, none, some, List, [], ◌∷◌, ◌++◌, map,
  if◌then◌else◌, Result, ok, raise, ◌>>=◌, is_empty, is_blank,
}
use mister_pilot_proxy.Json.{Json, obj, get_field, text_is}
use mister_pilot_proxy.Anthropic.{
  BadValue, bad_value, Block, text_block, tool_result, tool_use, Wire, text_of, user_blocks,
  tool_id,
}
use mister_pilot_proxy.Anthropic.Assistant.{State, assistant_blocks}

pub data Role : Type 0 where
  user assistant : Role

pub record Turn : Type 0 where
  pub role : Role
  pub blocks : List Block

pub record SystemBlock : Type 0 where
  pub text : String
  pub cached : Bool

pub record Chat : Type 0 where
  pub system : List SystemBlock
  pub turns : List Turn

abbrev pub same_role : Role → Role → Bool
same_role user user = true
same_role assistant assistant = true
same_role _ _ = false

-- To the last turn, if it is of the same role.
unfoldable pub add_turn : Role → Block → List Block → List Turn → List Turn
add_turn role b bs [] = record { role = role; blocks = b ∷ bs } ∷ []
add_turn role b bs (t ∷ []) =
    if same_role t.role role
    then record { role = t.role; blocks = t.blocks ++ b ∷ bs } ∷ []
    else t ∷ record { role = role; blocks = b ∷ bs } ∷ []
add_turn role b bs (t ∷ u ∷ ts) = t ∷ add_turn role b bs (u ∷ ts)

abbrev pub add_blocks : Chat → Role → List Block → Chat
add_blocks chat role [] = chat
add_blocks chat role (b ∷ bs) = record chat { turns = add_turn role b bs chat.turns }

abbrev pub add_system : Chat → String → Chat
add_system chat text =
    if is_blank text
    then chat
    else record chat { system = chat.system ++ record { text = text; cached = false } ∷ [] }

abbrev pub is_system : Option Json → Bool
is_system role = text_is role "system" || text_is role "developer"

abbrev pub or_no_output : String → String
or_no_output text = if is_empty text then "(no output)" else text

module _ (wire : Wire) (now : ℕ) (tenant : String) where
  abbrev pub add_result : Chat → Role → Result BadValue (List Block) → Result BadValue Chat
  add_result chat role (raise e) = raise e
  add_result chat role (ok blocks) = ok (add_blocks chat role blocks)

  abbrev pub add_reply : Chat → State × Result BadValue (List Block) → State × Result BadValue Chat
  add_reply chat (state, blocks) = (state, add_result chat assistant blocks)

  abbrev pub add_tool : Chat → State → Json → ℕ × String → State × Result BadValue Chat
  add_tool chat state msg (drawn, id) = (
    record state { drawn = drawn },
    ok (
        add_blocks chat user
          (tool_result id (or_no_output (text_of (get_field msg "content"))) ∷ [])),
  )

  abbrev pub add_message : State → Chat → Json → State × Result BadValue Chat
  add_message state chat (obj fields) =
      let msg = obj fields in
      let role = get_field msg "role" in
      if is_system role
      then (state, ok (add_system chat (text_of (get_field msg "content"))))
      else if text_is role "assistant"
      then add_reply chat (assistant_blocks wire state now tenant msg)
      else if text_is role "tool"
      then add_tool chat state msg (tool_id wire state.drawn (get_field msg "tool_call_id"))
      else (state, add_result chat user (user_blocks wire (get_field msg "content")))
  add_message state chat _ = (state, raise bad_value)

  unfoldable pub convert : State → Chat → List Json → State × Result BadValue Chat
  convert state chat [] = (state, ok chat)
  convert state chat (m ∷ ms) =
      let added = add_message state chat m in
      elim added.1 [ raise e ↦ (added.0, raise e) | ok more ↦ convert added.0 more ms ]

abbrev pub is_tool_use : Block → Bool
is_tool_use (tool_use id name input) = true
is_tool_use _ = false

abbrev pub is_tool_result : Block → Bool
is_tool_result (tool_result id text) = true
is_tool_result _ = false

abbrev pub some_tool_use : List Block → Bool
some_tool_use [] = false
some_tool_use (b ∷ bs) = is_tool_use b || some_tool_use bs

abbrev pub is_prefill : Turn → Bool
is_prefill t = same_role t.role assistant && not (some_tool_use t.blocks)

abbrev pub unless_prefill : Turn → List Turn → List Turn
unless_prefill t [] = if is_prefill t then [] else t ∷ []
unless_prefill t (u ∷ us) = t ∷ u ∷ us

-- The loop that pops turns from the end.
unfoldable pub drop_prefills : List Turn → List Turn
drop_prefills [] = []
drop_prefills (t ∷ ts) = unless_prefill t (drop_prefills ts)

abbrev pub continuing : Turn
continuing = record { role = user; blocks = text_block "(continuing the conversation)" ∷ [] }

unfoldable pub opened : List Turn → List Turn
opened [] = continuing ∷ []
opened (t ∷ ts) = if same_role t.role user then t ∷ ts else continuing ∷ t ∷ ts

abbrev pub results_of : List Block → List Block
results_of [] = []
results_of (b ∷ bs) = let rest = results_of bs in if is_tool_result b then b ∷ rest else rest

abbrev pub others_of : List Block → List Block
others_of [] = []
others_of (b ∷ bs) = let rest = others_of bs in if is_tool_result b then rest else b ∷ rest

-- The stable sort by `type != "tool_result"`.
unfoldable pub results_first : List Block → List Block
results_first bs = results_of bs ++ others_of bs

abbrev pub arranged : Turn → Turn
arranged t = if same_role t.role user then record t { blocks = results_first t.blocks } else t

unfoldable pub mark_last : List SystemBlock → List SystemBlock
mark_last [] = []
mark_last (s ∷ []) = record s { cached = true } ∷ []
mark_last (s ∷ r ∷ rs) = s ∷ mark_last (r ∷ rs)

abbrev pub no_chat : Chat
no_chat = record { system = []; turns = [] }

abbrev pub finished : Result BadValue Chat → Result BadValue (List SystemBlock × List Turn)
finished (raise e) = raise e
finished (ok chat) = ok (mark_last chat.system, map arranged (opened (drop_prefills chat.turns)))

unfoldable pub to_anthropic_messages :
    Wire → ℕ → State → List Json → String → State × Result BadValue (List SystemBlock × List Turn)
unfolding convert
to_anthropic_messages wire now state messages tenant =
    let converted = convert wire now tenant state no_chat messages in
    (converted.0, finished converted.1)
