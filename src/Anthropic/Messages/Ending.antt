-- ===== src/Anthropic/Messages/Ending.antt =====
-- How `to_anthropic_messages` of backend/llm/anthropic_client.py ends and opens a chat, and orders a
-- turn.
use mister_pilot_proxy.Prelude.{
  ◌≡◌, ◌≢◌, refl, inl, inr, Bool, true, false, not, ◌&&◌, List, [], ◌∷◌, ◌++◌, Bool-cases,
  if◌then◌else◌, arith,
}
use mathlib.Core.Path.{subst}
use mister_pilot_proxy.Anthropic.{Block}
use mister_pilot_proxy.Anthropic.Messages.{
  Role, user, assistant, Turn, same_role, is_tool_result, is_prefill, unless_prefill, drop_prefills,
  opened, results_of, others_of, results_first,
}
use mister_pilot_proxy.Anthropic.Messages.Turns.{
  other, IsTurn, Alternate, nonempty, append-nonempty,
}

-- The last turn is the user's, or calls a tool.
abbrev pub Closed : List Turn → Type 0
Closed [] = Unit
Closed (t ∷ []) = is_prefill t ≡ false
Closed (t ∷ u ∷ us) = Closed (u ∷ us)

unless_prefill-Closed : (t : Turn) (rest : List Turn) → Closed rest → Closed (unless_prefill t rest)
unless_prefill-Closed t [] h = elim (Bool-cases (is_prefill t)) [ inl e ↦ rw e tt | inr e ↦ rw e e ]
unless_prefill-Closed t (u ∷ us) h = h

pub drop_prefills-Closed : (ts : List Turn) → Closed (drop_prefills ts)
unfolding drop_prefills
drop_prefills-Closed [] = tt
drop_prefills-Closed (t ∷ ts) = unless_prefill-Closed t (drop_prefills ts) (drop_prefills-Closed ts)

unless_prefill-Alternate :
    (r : Role) (t : Turn) (rest : List Turn)
    → IsTurn r t
    → Alternate (other r) rest
    → Alternate r (unless_prefill t rest)
unless_prefill-Alternate r t [] is h = elim (Bool-cases (is_prefill t)) [
  | inl e ↦ rw e tt
  | inr e ↦ rw e (is, tt)
]
unless_prefill-Alternate r t (u ∷ us) is h = (is, h)

pub drop_prefills-Alternate :
    (r : Role) (ts : List Turn) → Alternate r ts → Alternate r (drop_prefills ts)
unfolding drop_prefills
drop_prefills-Alternate r [] h = tt
drop_prefills-Alternate r (t ∷ ts) (is, rest) =
    unless_prefill-Alternate r t (drop_prefills ts) is (drop_prefills-Alternate (other r) ts rest)

pub user_first : (t : Turn) (r : Role) → t.role ≡ r → same_role t.role user ≡ true → r ≡ user
user_first t user e h = refl
user_first t assistant e h = cc

pub assistant_first :
    (t : Turn) (r : Role) → t.role ≡ r → same_role t.role user ≡ false → r ≡ assistant
assistant_first t user e h = cc
assistant_first t assistant e h = refl

pub opened-Alternate : (r : Role) (ts : List Turn) → Alternate r ts → Alternate user (opened ts)
unfolding opened
opened-Alternate r [] h = ((refl, nonempty), tt)
opened-Alternate r (t ∷ ts) h = elim (Bool-cases (same_role t.role user)) [
  | inl e ↦ rw (e, opened) (subst (λ x. Alternate x (t ∷ ts)) (user_first t r h.0.0 e) h)
  | inr e ↦
      rw (e, opened)
        ((refl, nonempty), subst (λ x. Alternate x (t ∷ ts)) (assistant_first t r h.0.0 e) h)
]

pub opened-Closed : (ts : List Turn) → Closed ts → Closed (opened ts)
unfolding opened
opened-Closed [] h = refl
opened-Closed (t ∷ ts) h = elim (Bool-cases (same_role t.role user)) [
  | inl e ↦ rw (e, opened) h
  | inr e ↦ rw (e, opened) h
]

pub results_first-nonempty : (bs : List Block) → bs ≢ [] → results_first bs ≢ []
unfolding results_first
results_first-nonempty [] h = h
results_first-nonempty (b ∷ bs) h = elim (Bool-cases (is_tool_result b)) [
  | inl e ↦ rw (e, results_first) nonempty
  | inr e ↦ rw (e, results_first) (append-nonempty (results_of bs) b (others_of bs))
]

-- Nothing after another block is a result.
abbrev pub no_results : List Block → Bool
no_results [] = true
no_results (b ∷ bs) = not (is_tool_result b) && no_results bs

abbrev pub lead : List Block → Bool
lead [] = true
lead (b ∷ bs) = let rest = lead bs in if is_tool_result b then rest else no_results bs

pub others_of-no_results : (bs : List Block) → no_results (others_of bs) ≡ true
others_of-no_results [] = refl
others_of-no_results (b ∷ bs) = ground (arith, others_of-no_results bs)

pub no_results-lead : (bs : List Block) → no_results bs ≡ true → lead bs ≡ true
no_results-lead [] h = refl
no_results-lead (b ∷ bs) h = ground (arith, h)

pub results_of-lead : (bs cs : List Block) → lead cs ≡ true → lead (results_of bs ++ cs) ≡ true
results_of-lead [] cs h = h
results_of-lead (b ∷ bs) cs h = elim (Bool-cases (is_tool_result b)) [
  | inl e ↦ rw (e, lead) (rw e (results_of-lead bs cs h))
  | inr e ↦ rw e (results_of-lead bs cs h)
]

-- In a turn of the user the results of tools come first.
abbrev pub Leads : Role → List Block → Type 0
Leads user bs = lead bs ≡ true
Leads assistant bs = Unit

abbrev pub ResultsLead : List Turn → Type 0
ResultsLead [] = Unit
ResultsLead (t ∷ ts) = Leads t.role t.blocks × ResultsLead ts
