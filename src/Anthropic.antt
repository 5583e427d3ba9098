-- ===== src/Anthropic.antt =====
-- backend/llm/anthropic_client.py: a chat in OpenAI's form as the blocks of Anthropic's Messages API,
-- with the stash of the replies that are rebuilt. Regular expressions, base64, JSON, hashes and the
-- fresh ids of uuid4 are arguments. `bad_value` is the AttributeError, KeyError or TypeError of a
-- value that is not of the kind that the code reads.
pub mod Assistant
pub mod Messages
use Prim.Native.String.{◌++◌ as ◌<>◌}
use text.Mathlib.Text.{starts_with}
use mister_pilot_proxy.Prelude.{
  ℕ, suc, ◌+◌, String, Bool, true, false, not, ◌&&◌, ◌||◌, Option, none, some, List, [], ◌∷◌, ◌++◌,
  ◌==◌, if◌then◌else◌, Result, ok, raise, ◌>>=◌, is_empty, is_blank, strip,
}
use mister_pilot_proxy.Dict
use mister_pilot_proxy.Dict.{Dict}
use mister_pilot_proxy.Json.{Json, null, str, arr, obj, end, get_field, to_list, text_is, truthy}

pub data BadValue : Type 0 where
  bad_value : BadValue

pub data Block : Type 0 where
  text_block : String → Block
  image_data : String → String → Block
  image_url : String → Block
  tool_result : String → String → Block
  tool_use : String → Json → Json → Block
  thinking : Json → Block

-- What the code takes from the standard library.
pub record Wire : Type 0 where
  pub data_url : String → Option (String × String)
  pub is_base64 : String → Bool
  pub sub_tool_id : String → String
  pub str_of : Json → String
  pub loads : String → Option Json
  pub digest : List String → String
  pub fresh : ℕ → String

abbrev pub is_text_type : Option Json → Bool
is_text_type none = true
is_text_type (some null) = true
is_text_type kind = text_is kind "text"

abbrev pub text_value : Option Json → Option String
text_value (some (str s)) = some s
text_value _ = none

abbrev pub typed_text : Option Json → Option String → String
typed_text kind none = ""
typed_text kind (some s) = if is_text_type kind then s else ""

abbrev pub text_part : Json → String
text_part (obj fields) =
    typed_text (get_field (obj fields) "type") (text_value (get_field (obj fields) "text"))
text_part _ = ""

abbrev pub text_parts : List Json → String
text_parts [] = ""
text_parts (p ∷ parts) = text_part p <> text_parts parts

unfoldable pub text_of : Option Json → String
text_of (some (str s)) = s
text_of (some (arr parts)) = text_parts (to_list parts)
text_of _ = ""

-- `value or {}`, which `.get` is then called on.
abbrev pub mapping_of : Option Json → Result BadValue Json
mapping_of none = ok (obj end)
mapping_of (some (obj fields)) = ok (obj fields)
mapping_of (some value) = if truthy (some value) then raise bad_value else ok (obj end)

-- `.get("url", "")`, where a text is matched.
abbrev pub url_of : Option Json → Result BadValue String
url_of none = ok ""
url_of (some (str s)) = ok s
url_of (some value) = raise bad_value

module _ (wire : Wire) where
  abbrev pub image_block : String → List Block
  image_block url = elim (wire.data_url url) [
    | none ↦
        if starts_with url "http://" || starts_with url "https://" then image_url url ∷ [] else []
    | some (media_type, content) ↦
        if wire.is_base64 content then image_data media_type content ∷ [] else []
  ]

  abbrev pub image_part : Json → Result BadValue (List Block)
  image_part p = do
    image ← mapping_of (get_field p "image_url")
    url ← url_of (get_field image "url")
    ok (image_block url)

  abbrev pub other_part : Json → Result BadValue (List Block)
  other_part p = if text_is (get_field p "type") "image_url" then image_part p else ok []

  abbrev pub text_or_other : Json → Option String → Result BadValue (List Block)
  text_or_other p none = other_part p
  text_or_other p (some s) =
      if text_is (get_field p "type") "text" && not (is_blank s)
      then ok (text_block s ∷ [])
      else other_part p

  abbrev pub part_blocks : Json → Result BadValue (List Block)
  part_blocks (obj fields) = text_or_other (obj fields) (text_value (get_field (obj fields) "text"))
  part_blocks _ = ok []

  abbrev pub parts_blocks : List Json → Result BadValue (List Block)
  parts_blocks [] = ok []
  parts_blocks (p ∷ parts) =
      let rest = parts_blocks parts in
      part_blocks p >>= λ blocks. (rest >>= λ later. ok (blocks ++ later))

  unfoldable pub user_blocks : Option Json → Result BadValue (List Block)
  user_blocks (some (str s)) = ok (if is_blank s then [] else text_block s ∷ [])
  user_blocks (some (arr parts)) = parts_blocks (to_list parts)
  user_blocks _ = ok []

  -- `str(raw or "")`
  abbrev pub raw_text : Option Json → String
  raw_text none = ""
  raw_text (some (str s)) = s
  raw_text (some value) = if truthy (some value) then wire.str_of value else ""

  -- The id, and the number of fresh ids drawn so far.
  unfoldable pub tool_id : ℕ → Option Json → ℕ × String
  tool_id drawn raw =
      let id = wire.sub_tool_id (raw_text raw) in
      if is_empty id then (suc drawn, "toolu_" <> wire.fresh drawn) else (drawn, id)

  abbrev pub dict_or_empty : Option Json → Json
  dict_or_empty (some (obj fields)) = obj fields
  dict_or_empty _ = obj end

  unfoldable pub tool_input : Option Json → Json
  tool_input (some (obj fields)) = obj fields
  tool_input (some (str s)) = dict_or_empty (wire.loads (if is_empty s then "{}" else s))
  tool_input (some value) = if truthy (some value) then obj end else dict_or_empty (wire.loads "{}")
  tool_input none = dict_or_empty (wire.loads "{}")
