-- ===== src/Anthropic/Messages/Sent.antt =====
-- What `to_anthropic_messages` of backend/llm/anthropic_client.py sends.
use mister_pilot_proxy.Prelude.{
  ℕ, ◌≡◌, ◌≢◌, refl, sym, ap, inl, inr, String, true, false, List, [], ◌∷◌, map, Bool-cases, Result,
  ok, raise,
}
use mathlib.Core.Path.{subst}
use mister_pilot_proxy.Json.{Json}
use mister_pilot_proxy.Anthropic.{BadValue, Block, Wire}
use mister_pilot_proxy.Anthropic.Assistant.{State}
use mister_pilot_proxy.Anthropic.Messages.{
  Role, user, assistant, Turn, SystemBlock, Chat, same_role, convert, is_prefill, drop_prefills,
  continuing, opened, others_of, results_first, arranged, no_chat, finished, to_anthropic_messages,
}
use mister_pilot_proxy.Anthropic.Messages.Turns.{other, IsTurn, Alternate, HasChat, convert-HasChat}
use mister_pilot_proxy.Anthropic.Messages.Ending.{
  Closed, drop_prefills-Closed, drop_prefills-Alternate, opened-Alternate, opened-Closed,
  results_first-nonempty, Leads, ResultsLead, lead, others_of-no_results, no_results-lead,
  results_of-lead, user_first, assistant_first,
}

results_first-lead : (bs : List Block) → lead (results_first bs) ≡ true
unfolding results_first
results_first-lead bs =
    results_of-lead bs (others_of bs) (no_results-lead (others_of bs) (others_of-no_results bs))

arranged-Leads : (t : Turn) → Leads (arranged t).role (arranged t).blocks
arranged-Leads t = elim (Bool-cases (same_role t.role user)) [
  | inl e ↦ rw e (
      subst (λ r. Leads r (results_first t.blocks)) (sym (user_first t t.role refl e))
        (results_first-lead t.blocks))
  | inr e ↦ rw e (subst (λ r. Leads r t.blocks) (sym (assistant_first t t.role refl e)) tt)
]

arranged-IsTurn : (r : Role) (t : Turn) → IsTurn r t → IsTurn r (arranged t)
arranged-IsTurn r t (is, full) = elim (Bool-cases (same_role t.role user)) [
  | inl e ↦ rw e (is, results_first-nonempty t.blocks full)
  | inr e ↦ rw e (is, full)
]

arranged-is_prefill : (t : Turn) → is_prefill t ≡ false → is_prefill (arranged t) ≡ false
arranged-is_prefill t h = elim (Bool-cases (same_role t.role user)) [
  | inl e ↦
      let unlike : same_role t.role assistant ≡ false =
        ap (λ r. same_role r assistant) (user_first t t.role refl e) in
      rw e (rw unlike refl)
  | inr e ↦ rw e h
]

map-Alternate : (r : Role) (ts : List Turn) → Alternate r ts → Alternate r (map arranged ts)
map-Alternate r [] h = tt
map-Alternate r (t ∷ ts) (is, rest) = (arranged-IsTurn r t is, map-Alternate (other r) ts rest)

map-Closed : (ts : List Turn) → Closed ts → Closed (map arranged ts)
map-Closed [] h = tt
map-Closed (t ∷ []) h = arranged-is_prefill t h
map-Closed (t ∷ u ∷ ts) h = map-Closed (u ∷ ts) h

map-ResultsLead : (ts : List Turn) → ResultsLead (map arranged ts)
map-ResultsLead [] = tt
map-ResultsLead (t ∷ ts) = (arranged-Leads t, map-ResultsLead ts)

opened_some : (ts : List Turn) → (t : Turn) × (us : List Turn) × (opened ts ≡ t ∷ us)
unfolding opened
opened_some [] = (_, _, refl)
opened_some (t ∷ ts) = elim (Bool-cases (same_role t.role user)) [
  | inl e ↦ rw (e, opened) (t, ts, refl)
  | inr e ↦ rw (e, opened) (continuing, t ∷ ts, refl)
]

map_some : (t : Turn) (us ts : List Turn) → ts ≡ t ∷ us → map arranged ts ≢ []
map_some t us ts e h = cc

-- The turns that the Messages API takes.
abbrev pub Sendable : Result BadValue (List SystemBlock × List Turn) → Type 0
Sendable (raise e) = Unit
Sendable (ok (system, turns)) =
    (turns ≢ []) × Alternate user turns × Closed turns × ResultsLead turns

finished-Sendable : (m : Result BadValue Chat) → HasChat m → Sendable (finished m)
finished-Sendable (raise e) h = tt
finished-Sendable (ok chat) (r, h) =
    let kept = drop_prefills chat.turns in
    let (t, us, some_turn) = opened_some kept in
    (
      map_some t us (opened kept) some_turn,
      map-Alternate user (opened kept)
          (opened-Alternate r kept (drop_prefills-Alternate r chat.turns h)),
      map-Closed (opened kept) (opened-Closed kept (drop_prefills-Closed chat.turns)),
      map-ResultsLead (opened kept),
    )

-- Whatever the messages and the stash are, the turns that a conversion gives can be sent: there is
-- one; they start with the user's, and the roles alternate; each has a block; the last is the user's
-- or calls a tool; and in a turn of the user the results of tools come before all else.
pub to_anthropic_messages-Sendable :
    (wire : Wire) (now : ℕ) (state : State) (messages : List Json) (tenant : String)
    → Sendable (to_anthropic_messages wire now state messages tenant).1
unfolding to_anthropic_messages
to_anthropic_messages-Sendable wire now state messages tenant =
    finished-Sendable (convert wire now tenant state no_chat messages).1
      (convert-HasChat wire now tenant state no_chat messages (user, tt))
