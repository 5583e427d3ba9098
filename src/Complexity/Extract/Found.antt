-- ===== src/Complexity/Extract/Found.antt =====
-- Which text of a payload `extract_user_prompt` of backend/services/complexity_scorer.py takes.
use mathlib.Core.List.{reverse}
use mister_pilot_proxy.Prelude.{
  ◌≡◌, refl, ap, Bool, true, false, ◌||◌, ◌⊎◌, inl, inr, Option, none, some, List, [], ◌∷◌, ◌++◌,
  String, All, Bool-cases, is_blank, is_empty, ◌∙◌,
}
use mister_pilot_proxy.Json.{Json, get_field}
use mister_pilot_proxy.Complexity.{Engine, ExtractedPrompt}
use mister_pilot_proxy.Complexity.Extract.{
  prompt_fields, content_to_text, strip_text, user_turns, is_followup_text, no_prompt, field_found,
  from_fields, substantive, is_substantive, plain_prompt, borrowed_prompt, from_turns,
  extract_user_prompt, borrow_from, or_turns,
}

-- The text of a prompt field, and that it says nothing.
abbrev pub field_text : Json → String → String
field_text payload key = content_to_text (get_field payload key)

abbrev pub is_silent : Engine → Json → String → Bool
is_silent engine payload key =
    is_blank (field_text payload key) || is_empty (strip_text engine (field_text payload key))

abbrev AllSilent : Engine → Json → List String → Type 0
AllSilent engine payload = All (λ key. is_silent engine payload key ≡ true)

abbrev NoneSubstantive : Engine → List String → Type 0
NoneSubstantive engine = All (λ raw. is_substantive engine raw ≡ false)

-- Where a prompt comes from: the first field that says something; or the latest turn; or, if that
-- is a mere follow-up, with the nearest earlier turn that is a request of its own.
pub data Extracted (engine : Engine) (payload : Json) : ExtractedPrompt → Type 0 where
  by_field :
      (before after : List String) (key : String)
      → prompt_fields ≡ before ++ key ∷ after
      → AllSilent engine payload before
      → is_silent engine payload key ≡ false
      → Extracted engine payload (field_found engine key (field_text payload key))
  nothing :
      AllSilent engine payload prompt_fields
      → reverse (user_turns engine payload) ≡ []
      → Extracted engine payload no_prompt
  latest :
      (raw : String) (earlier : List String)
      → AllSilent engine payload prompt_fields
      → reverse (user_turns engine payload) ≡ raw ∷ earlier
      → (is_followup_text engine (strip_text engine raw) ≡ false) ⊎ NoneSubstantive engine earlier
      → Extracted engine payload (plain_prompt engine raw)
  borrowed :
      (raw found : String) (between older : List String)
      → AllSilent engine payload prompt_fields
      → reverse (user_turns engine payload) ≡ raw ∷ (between ++ found ∷ older)
      → is_followup_text engine (strip_text engine raw) ≡ true
      → NoneSubstantive engine between
      → is_substantive engine found ≡ true
      → Extracted engine payload (borrowed_prompt engine raw found)

-- The first field that says something, if any does.
data Fields (engine : Engine) (payload : Json) (keys : List String)
    : Option ExtractedPrompt → Type 0 where
  silent : AllSilent engine payload keys → Fields engine payload keys none
  speaks :
      (before after : List String) (key : String)
      → keys ≡ before ++ key ∷ after
      → AllSilent engine payload before
      → is_silent engine payload key ≡ false
      → Fields engine payload keys (some (field_found engine key (field_text payload key)))

cons_Fields :
    (engine : Engine) (payload : Json) (key : String) (keys : List String)
    (o : Option ExtractedPrompt)
    → is_silent engine payload key ≡ true
    → Fields engine payload keys o
    → Fields engine payload (key ∷ keys) o
cons_Fields engine payload key keys none h (silent all) = silent (h, all)
cons_Fields engine payload key keys _ h (speaks before after k e all n) =
    speaks (key ∷ before) after k (ap (◌∷◌ key) e) (h, all) n

from_fields-Fields :
    (engine : Engine) (payload : Json) (keys : List String)
    → Fields engine payload keys (from_fields engine keys payload)
unfolding from_fields
from_fields-Fields engine payload [] = silent tt
from_fields-Fields engine payload (key ∷ keys) = elim (Bool-cases (is_silent engine payload key)) [
  | inl e ↦
      rw (e, from_fields)
        (cons_Fields engine payload key keys _ e (from_fields-Fields engine payload keys))
  | inr e ↦ rw (e, from_fields) (speaks [] keys key refl tt e)
]

-- The nearest turn that is a request of its own, if any is.
data Nearest (engine : Engine) (raws : List String) : Option String → Type 0 where
  no_turn : NoneSubstantive engine raws → Nearest engine raws none
  turn :
      (found : String) (between older : List String)
      → raws ≡ between ++ found ∷ older
      → NoneSubstantive engine between
      → is_substantive engine found ≡ true
      → Nearest engine raws (some found)

cons_Nearest :
    (engine : Engine) (raw : String) (raws : List String) (o : Option String)
    → is_substantive engine raw ≡ false
    → Nearest engine raws o
    → Nearest engine (raw ∷ raws) o
cons_Nearest engine raw raws none h (no_turn all) = no_turn (h, all)
cons_Nearest engine raw raws (some _) h (turn found between older e all s) =
    turn found (raw ∷ between) older (ap (◌∷◌ raw) e) (h, all) s

substantive-Nearest :
    (engine : Engine) (raws : List String) → Nearest engine raws (substantive engine raws)
unfolding substantive
substantive-Nearest engine [] = no_turn tt
substantive-Nearest engine (raw ∷ raws) = elim (Bool-cases (is_substantive engine raw)) [
  | inl e ↦ rw e (turn raw [] raws refl tt e)
  | inr e ↦ rw e (cons_Nearest engine raw raws _ e (substantive-Nearest engine raws))
]

module _ (engine : Engine) (payload : Json) (all : AllSilent engine payload prompt_fields) where
  -- The latest turn is a follow-up.
  followed :
      (raw : String) (earlier : List String) (o : Option String)
      → reverse (user_turns engine payload) ≡ raw ∷ earlier
      → is_followup_text engine (strip_text engine raw) ≡ true
      → Nearest engine earlier o
      → Extracted engine payload (borrow_from engine raw o)
  followed raw earlier none e f (no_turn none_is) = latest raw earlier all e (inr none_is)
  followed raw earlier (some _) e f (turn found between older split none_is is) =
      borrowed raw found between older all (e ∙ ap (◌∷◌ raw) split) f none_is is

  from_turns-Extracted :
      (turns : List String)
      → reverse (user_turns engine payload) ≡ turns
      → Extracted engine payload (from_turns engine turns)
  unfolding from_turns
  from_turns-Extracted [] e = nothing all e
  from_turns-Extracted (raw ∷ earlier) e =
      elim (Bool-cases (is_followup_text engine (strip_text engine raw))) [
        | inl f ↦ rw f (followed raw earlier _ e f (substantive-Nearest engine earlier))
        | inr f ↦ rw f (latest raw earlier all e (inl f))
      ]

extracted_from :
    (engine : Engine) (payload : Json) (o : Option ExtractedPrompt)
    → Fields engine payload prompt_fields o
    → Extracted engine payload (or_turns engine payload o)
extracted_from engine payload none (silent all) = from_turns-Extracted engine payload all _ refl
extracted_from engine payload (some _) (speaks before after key e all says) =
    by_field before after key e all says

-- The request is the first of the prompt fields that says something once it is cleaned; if none
-- does, the latest user turn; and if that is a mere follow-up, the nearest earlier turn that is a
-- request of its own stands before it, if there is one.
pub extract_user_prompt-Extracted :
    (engine : Engine) (payload : Json)
    → Extracted engine payload (extract_user_prompt engine payload)
unfolding extract_user_prompt
extract_user_prompt-Extracted engine payload =
    extracted_from engine payload _ (from_fields-Fields engine payload prompt_fields)
