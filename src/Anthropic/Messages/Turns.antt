-- ===== src/Anthropic/Messages/Turns.antt =====
-- The turns that `to_anthropic_messages` of backend/llm/anthropic_client.py makes.
use mister_pilot_proxy.Prelude.{
  ℕ, ◌≡◌, ◌≢◌, refl, sym, ap, ◌∙◌, inl, inr, String, false, List, [], ◌∷◌, ◌++◌, Bool-cases, Result,
  ok, raise, is_blank, Result-cases,
}
use mathlib.Core.Path.{subst}
use mister_pilot_proxy.Json.{Json, obj, get_field, text_is}
use mister_pilot_proxy.Anthropic.{BadValue, Block, tool_result, Wire, text_of, user_blocks, tool_id}
use mister_pilot_proxy.Anthropic.Assistant.{State, assistant_blocks}
use mister_pilot_proxy.Anthropic.Messages.{
  Role, user, assistant, Turn, Chat, same_role, add_turn, add_blocks, add_message, convert,
  add_result, add_system, is_system, or_no_output,
}

abbrev pub other : Role → Role
other user = assistant
other assistant = user

-- A turn of the role, with a block.
abbrev pub IsTurn : Role → Turn → Type 0
IsTurn r t = (t.role ≡ r) × (t.blocks ≢ [])

-- Turns with blocks, whose roles alternate from `r` on.
abbrev pub Alternate : Role → List Turn → Type 0
Alternate r [] = Unit
Alternate r (t ∷ ts) = IsTurn r t × Alternate (other r) ts

differs : (r s : Role) → same_role r s ≡ false → s ≡ other r
differs user user h = cc
differs user assistant h = refl
differs assistant user h = refl
differs assistant assistant h = cc

pub nonempty : {b : Block} {bs : List Block} → b ∷ bs ≢ []
nonempty e = cc

pub append-nonempty : (xs : List Block) (b : Block) (bs : List Block) → xs ++ b ∷ bs ≢ []
append-nonempty [] b bs e = cc
append-nonempty (x ∷ xs) b bs e = cc

add_turn-Alternate :
    (r role : Role) (b : Block) (bs : List Block) (t : Turn) (ts : List Turn)
    → Alternate r (t ∷ ts)
    → Alternate r (add_turn role b bs (t ∷ ts))
unfolding add_turn
add_turn-Alternate r role b bs t [] ((is, full), _) = elim (Bool-cases (same_role t.role role)) [
  | inl same ↦ rw (same, add_turn) ((is, append-nonempty t.blocks b bs), tt)
  | inr apart ↦
      rw (apart, add_turn) ((is, full), ((differs t.role role apart ∙ ap other is, nonempty), tt))
]
add_turn-Alternate r role b bs t (u ∷ ts) (is, rest) =
    (is, add_turn-Alternate (other r) role b bs u ts rest)

-- The turns alternate, from some role on.
abbrev pub IsChat : List Turn → Type 0
IsChat ts = (r : Role) × Alternate r ts

add_turn-IsChat :
    (role : Role) (b : Block) (bs : List Block) (ts : List Turn)
    → IsChat ts
    → IsChat (add_turn role b bs ts)
unfolding add_turn
add_turn-IsChat role b bs [] h = (role, ((refl, nonempty), tt))
add_turn-IsChat role b bs (t ∷ ts) (r, h) = (r, add_turn-Alternate r role b bs t ts h)

add_blocks-IsChat :
    (chat : Chat) (role : Role) (blocks : List Block)
    → IsChat chat.turns
    → IsChat (add_blocks chat role blocks).turns
add_blocks-IsChat chat role [] h = h
add_blocks-IsChat chat role (b ∷ bs) h = add_turn-IsChat role b bs chat.turns h

abbrev pub HasChat : Result BadValue Chat → Type 0
HasChat (raise e) = Unit
HasChat (ok chat) = IsChat chat.turns

add_result-HasChat :
    (wire : Wire) (now : ℕ) (tenant : String) (chat : Chat) (role : Role)
    (m : Result BadValue (List Block))
    → IsChat chat.turns
    → HasChat (add_result wire now tenant chat role m)
add_result-HasChat wire now tenant chat role (raise e) h = tt
add_result-HasChat wire now tenant chat role (ok blocks) h = add_blocks-IsChat chat role blocks h

add_system-turns : (chat : Chat) (text : String) → (add_system chat text).turns ≡ chat.turns
add_system-turns chat text = elim (Bool-cases (is_blank text)) [
  | inl e ↦ rw e refl
  | inr e ↦ rw e refl
]

module _ (wire : Wire) (now : ℕ) (tenant : String) where
  add_message-HasChat :
      (state : State) (chat : Chat) (m : Json)
      → IsChat chat.turns
      → HasChat (add_message wire now tenant state chat m).1
  add_message-HasChat state chat (obj fields) h =
      let msg = obj fields in
      let role = get_field msg "role" in
      elim (Bool-cases (is_system role)) [
        | inl e ↦
            rw e (subst IsChat (sym (add_system-turns chat (text_of (get_field msg "content")))) h)
        | inr e ↦ elim (Bool-cases (text_is role "assistant")) [
          | inl is ↦
              rw (e, is)
                (add_result-HasChat wire now tenant chat assistant
                  (assistant_blocks wire state now tenant msg).1 h)
          | inr unlike ↦ elim (Bool-cases (text_is role "tool")) [
            | inl is ↦
                rw (e, unlike, is)
                  (add_blocks-IsChat chat user
                    (tool_result (tool_id wire state.drawn (get_field msg "tool_call_id")).1
                        (or_no_output (text_of (get_field msg "content")))
                      ∷ [])
                    h)
            | inr none_of ↦
                rw (e, unlike, none_of)
                  (add_result-HasChat wire now tenant chat user
                    (user_blocks wire (get_field msg "content")) h)
          ]
        ]
      ]
  add_message-HasChat state chat _ h = tt

  pub convert-HasChat :
      (state : State) (chat : Chat) (ms : List Json)
      → IsChat chat.turns
      → HasChat (convert wire now tenant state chat ms).1
  unfolding convert
  convert-HasChat state chat [] h = h
  convert-HasChat state chat (m ∷ ms) h =
      let added = add_message wire now tenant state chat m in
      elim (Result-cases added.1) [
        | inl (more, e) ↦
            rw (e, convert)
              (convert-HasChat added.0 more ms
                (subst HasChat e (add_message-HasChat state chat m h)))
        | inr (error, e) ↦ rw (e, convert) tt
      ]
