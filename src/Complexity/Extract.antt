-- ===== src/Complexity/Extract.antt =====
-- The extraction of the user's request by backend/services/complexity_scorer.py:
-- `_content_to_text`, `_strip_scaffolding`, `_user_turns`, `_is_followup`, `extract_user_prompt`.
pub mod Found
use Prim.Native.String.{◌++◌ as ◌<>◌}
use mathlib.Core.List.{reverse}
use mister_pilot_proxy.Prelude.{
  ℕ, zero, suc, String, Bool, true, false, not, ◌&&◌, ◌||◌, Option, none, some, List, [], ◌∷◌, ◌++◌,
  ltb, leb, ◌==◌, if◌then◌else◌, any, is_empty, is_blank, strip, word_count, join, distinct,
}
use mister_pilot_proxy.Json.{
  Json, null, bool, num, str, arr, obj, Items, nil, cons, find_field, get_field, truthy, to_list,
}
use mister_pilot_proxy.Complexity.{Engine, Pattern, ExtractedPrompt}
use mister_pilot_proxy.Complexity.Patterns.Single.{
  fence, attachment_path, paired_block, any_tag, white_space, followup,
}

abbrev pub prompt_fields : List String
prompt_fields =
    "prompt" ∷ "request" ∷ "query" ∷ "userPrompt" ∷ "user_prompt" ∷ "message" ∷ "input" ∷ []

abbrev pub intent_tags : List String
intent_tags =
    "userRequest" ∷ "user_request" ∷ "userQuery" ∷ "user_query" ∷ "request" ∷ "prompt" ∷ "query"
    ∷ "question" ∷ []

abbrev pub followup_max_words : ℕ
followup_max_words = 8

-- `part.get("text") or part.get("content")`, where it is a text
abbrev pub text_or : Option Json → Option Json → Option String
text_or (some (str (String.◌∷◌ c s))) other = some (String.◌∷◌ c s)
text_or first other = elim (truthy first) [
  | true ↦ none
  | false ↦ elim other [ some (str s) ↦ some s | _ ↦ none ]
]

abbrev part_text : Json → List String
part_text (str s) = s ∷ []
part_text (obj fields) = elim (text_or (find_field fields "text") (find_field fields "content")) [
  | none ↦ []
  | some s ↦ s ∷ []
]
part_text _ = []

pub parts_text : Items → List String
parts_text nil = []
parts_text (cons part parts) = part_text part ++ parts_text parts

unfoldable pub content_to_text : Option Json → String
unfolding parts_text
content_to_text (some (str s)) = s
content_to_text (some (arr parts)) = join "\n" (parts_text parts)
content_to_text (some (obj fields)) =
    elim (text_or (find_field fields "text") (find_field fields "content")) [
      | none ↦ ""
      | some s ↦ s
    ]
content_to_text _ = ""

abbrev pub no_prompt : ExtractedPrompt
no_prompt = record {
  text = "";
  source = "none";
  raw_text = "";
  attachment_paths = [];
  is_followup = false;
}

abbrev first_text : Json → List String → String
first_text entry [] = ""
first_text entry (k ∷ ks) = elim (get_field entry k) [ some (str s) ↦ s | _ ↦ first_text entry ks ]

abbrev kept_text : String → List String
kept_text s = if is_empty s then [] else s ∷ []

abbrev tag_pattern : String → Pattern
tag_pattern tag = record {
  source = "<" <> (tag <> ("\\b[^>]*>(.*?)</" <> (tag <> "\\s*>")));
  ignore_case = true;
  dot_all = true;
}

abbrev last_of : List String → Option String
last_of [] = none
last_of (x ∷ xs) = some (elim (reverse (x ∷ xs)) [ [] ↦ x | y ∷ ys ↦ y ])

abbrev bare_tag : String → Pattern
bare_tag tag = record { source = "<" <> (tag <> "\\b"); ignore_case = true; dot_all = false }

abbrev entry_text : Json → String
entry_text entry =
    let text = content_to_text (get_field entry "content") in
    if is_empty text
    then first_text entry ("prompt" ∷ "request" ∷ "message" ∷ "text" ∷ [])
    else text

module _ (engine : Engine) where
  open engine use {finditer, findall, search, starts, sub, lower}

  abbrev bare : String → String
  bare s = strip (sub white_space " " s)

  abbrev untagged : String → String
  untagged s = sub any_tag " " (sub fence " " s)

  -- The first tag that the message has: the text within.
  pub tagged : List String → String → Option String
  tagged [] raw = none
  tagged (tag ∷ tags) raw =
      let rest = tagged tags raw in
      elim (findall (tag_pattern tag) raw) [
        | [] ↦ rest
        | x ∷ xs ↦ some (bare (untagged (join "\n" (x ∷ xs))))
      ]

  -- `rounds` times at most, the blocks are dropped, until nothing changes.
  pub peel : ℕ → String → String
  peel zero text = text
  peel (suc rounds) text =
      let stripped = sub paired_block " " text in
      let rest = peel rounds stripped in if stripped == text then text else rest

  -- What was in the last block, if nothing is left outside.
  abbrev within : String → String → String
  within text raw =
      if is_empty text
      then elim (last_of (finditer paired_block raw)) [
        | none ↦ ""
        | some block ↦ bare (untagged block)
      ]
      else text

  unfoldable pub strip_text : String → String
  unfolding tagged peel
  strip_text raw = if is_empty raw then "" else elim (tagged intent_tags raw) [
    | some inner ↦ inner
    | none ↦ within (bare (untagged (peel 4 raw))) raw
  ]

  unfoldable pub attachments_of : String → List String
  attachments_of raw = if is_empty raw then [] else distinct (findall attachment_path raw)

  -- `_strip_scaffolding`
  unfoldable pub strip_scaffolding : String → String × List String
  strip_scaffolding raw = (strip_text raw, attachments_of raw)

  -- The role of an entry is that of a user. What is no text is printed as neither role.
  abbrev is_user : Option Json → Bool
  is_user none = true
  is_user (some (str role)) = lower role == "user" || lower role == "human"
  is_user _ = false

  abbrev entry_turns : Json → List String
  entry_turns (str s) = s ∷ []
  entry_turns (obj fields) =
      if is_user (find_field fields "role") then kept_text (entry_text (obj fields)) else []
  entry_turns _ = []

  pub turns_in : Items → List String
  turns_in nil = []
  turns_in (cons entry entries) = entry_turns entry ++ turns_in entries

  abbrev turns_at : Option Json → List String
  turns_at (some (arr entries)) = turns_in entries
  turns_at _ = []

  unfoldable pub user_turns : Json → List String
  unfolding turns_in
  user_turns payload =
      turns_at (get_field payload "chatHistory")
      ++ (turns_at (get_field payload "history") ++ turns_at (get_field payload "messages"))

  -- `_is_followup`
  unfoldable pub is_followup_text : String → Bool
  is_followup_text text =
      not (is_blank text) && leb (word_count text) followup_max_words && starts followup text

  unfoldable pub field_found : String → String → ExtractedPrompt
  field_found key raw = record {
    text = strip_text raw;
    source = "field:" <> key;
    raw_text = raw;
    attachment_paths = attachments_of raw;
    is_followup = false;
  }

  abbrev pub field_prompt : String → String → Option ExtractedPrompt
  field_prompt key raw =
      if is_blank raw || is_empty (strip_text raw) then none else some (field_found key raw)

  -- The direct prompt fields, in their order.
  unfoldable pub from_fields : List String → Json → Option ExtractedPrompt
  from_fields [] payload = none
  from_fields (key ∷ keys) payload =
      let rest = from_fields keys payload in
      elim (field_prompt key (content_to_text (get_field payload key))) [
        | none ↦ rest
        | some found ↦ some found
      ]

  abbrev source_of : String → String
  source_of raw =
      if any (λ tag. search (bare_tag tag) raw) intent_tags
      then "messages:userRequest"
      else "messages:last_user"

  unfoldable pub is_substantive : String → Bool
  is_substantive raw = not (is_empty (strip_text raw)) && not (is_followup_text (strip_text raw))

  -- The nearest earlier turn that is a request of its own, of turns listed from the latest back.
  unfoldable pub substantive : List String → Option String
  substantive [] = none
  substantive (raw ∷ raws) =
      let rest = substantive raws in if is_substantive raw then some raw else rest

  unfoldable pub plain_prompt : String → ExtractedPrompt
  plain_prompt raw = record {
    text = strip_text raw;
    source = source_of raw;
    raw_text = raw;
    attachment_paths = attachments_of raw;
    is_followup = is_followup_text (strip_text raw);
  }

  unfoldable pub borrowed_prompt : String → String → ExtractedPrompt
  borrowed_prompt raw earlier = record {
    text = strip_text earlier <> ("\n" <> strip_text raw);
    source = "history_fallback";
    raw_text = raw;
    attachment_paths = distinct (attachments_of raw ++ attachments_of earlier);
    is_followup = true;
  }

  abbrev pub borrow_from : String → Option String → ExtractedPrompt
  borrow_from raw none = plain_prompt raw
  borrow_from raw (some found) = borrowed_prompt raw found

  -- From the turns, listed from the latest back.
  unfoldable pub from_turns : List String → ExtractedPrompt
  from_turns [] = no_prompt
  from_turns (raw ∷ earlier) =
      if is_followup_text (strip_text raw)
      then borrow_from raw (substantive earlier)
      else plain_prompt raw

  abbrev pub or_turns : Json → Option ExtractedPrompt → ExtractedPrompt
  or_turns payload (some found) = found
  or_turns payload none = from_turns (reverse (user_turns payload))

  unfoldable pub extract_user_prompt : Json → ExtractedPrompt
  unfolding from_fields from_turns
  extract_user_prompt payload = or_turns payload (from_fields prompt_fields payload)
