-- ===== src/Tests/Anthropic.antt =====
-- A chat as backend/llm/anthropic_client.py sends it.
use mister_pilot_proxy.Prelude.{◌≡◌, refl, String, true, false, none, List, [], ◌∷◌, ok, is_blank}
use mister_pilot_proxy.Dict
use mister_pilot_proxy.Ttl
use mister_pilot_proxy.Json.{Json, str, arr, obj, field, end, cons, nil}
use mister_pilot_proxy.Anthropic.{
  Wire, text_block, tool_use, tool_result, thinking, user_blocks, tool_id, text_of, tool_input,
}
use mister_pilot_proxy.Anthropic.Assistant.{State, thinking_piece, tool_piece, assistant_blocks}
use mister_pilot_proxy.Anthropic.Messages.{
  user, assistant, mark_last, opened, drop_prefills, add_turn, results_first, to_anthropic_messages,
}
use mister_pilot_proxy.Anthropic.Messages.Sent.{Sendable, to_anthropic_messages-Sendable}

abbrev wire : Wire
wire = record {
  data_url = λ url. none;
  is_base64 = λ data_text. false;
  sub_tool_id = λ s. s;
  str_of = λ value. "";
  loads = λ s. none;
  digest = λ parts. elim parts [ [] ↦ "" | s ∷ ss ↦ s ];
  fresh = λ n. "f";
}

abbrev message : String → String → Json
message role text = obj (field "role" (str role) (field "content" (str text) end))

abbrev call : Json
call = obj (field "id" (str "c1") (field "function" (obj (field "name" (str "read") end)) end))

abbrev reply : Json
reply = obj (field "role" (str "assistant") (field "tool_calls" (arr (cons call nil)) end))

abbrev result : Json
result =
    obj (
      field "role" (str "tool")
        (field "tool_call_id" (str "c1") (field "content" (str "text") end)))

-- The reply is remembered with its thinking.
abbrev state : State
state = record {
  stash = record {
    items =
        (
          "t",
          (
            1,
            record {
              tool_ids = "c1" ∷ [];
              text_digest = "";
              text_digest_stripped = "";
              layout = thinking_piece (str "hm") ∷ tool_piece "c1" ∷ [];
            },
          ),
        )
        ∷ [];
    max_items = 9;
    ttl = 3600;
  };
  drawn = 0;
}

abbrev chat : List Json
chat =
    message "system" "Be brief"
    ∷ message "user" "Read it"
    ∷ reply
    ∷ message "user" "Now"
    ∷ result
    ∷ message "assistant" "So"
    ∷ []

sends :
    (to_anthropic_messages wire 5 state chat "t").1
    ≡ ok (
      record { text = "Be brief"; cached = true } ∷ [],
      record { role = user; blocks = text_block "Read it" ∷ [] }
          ∷ record {
            role = assistant;
            blocks = thinking (str "hm") ∷ tool_use "c1" (str "read") (obj end) ∷ [];
          }
          ∷ record { role = user; blocks = tool_result "c1" "text" ∷ text_block "Now" ∷ [] }
          ∷ [],
    )
unfolding to_anthropic_messages user_blocks assistant_blocks Ttl.get Dict.get Dict.put tool_id
    text_of Dict.pop mark_last opened is_blank drop_prefills add_turn results_first tool_input
sends = refl

to_anthropic_messages-Sendable_example : Sendable (to_anthropic_messages wire 5 state chat "t").1
to_anthropic_messages-Sendable_example = to_anthropic_messages-Sendable wire 5 state chat "t"
