-- ===== src/Access/Preferences/Capped.antt =====
-- The day's budget in `auto_preferences` of backend/services/model_access.py: past it, the cap holds.
use mister_pilot_proxy.Prelude.{
  Result, ok, raise, ℕ, ◌*◌, ◌≤◌, ◌≡◌, refl, inl, inr, String, true, false, Option, none, some,
  List, leb, eqb, Bool-cases, Option-cases, arith,
}
use mister_pilot_proxy.Json.{Json, get_field}
use mister_pilot_proxy.Router.{AutoRouter, tier_index}
use mister_pilot_proxy.Access.Warm.{lower_cap, stricter}
use mister_pilot_proxy.Access.Preferences.{
  Texts, AutoModes, AutoPreferences, BudgetError, budget_reached, header, body_of, raw_budget,
  with_budget, auto_preferences,
}

-- A cap is set, at a tier no higher than `i`.
abbrev pub CappedAt : AutoRouter → ℕ → Option String → Type 0
CappedAt router i none = ⊥
CappedAt router i (some m) = (j : ℕ) × (tier_index router.tiers m ≡ some j) × (j ≤ i)

lower_cap-CappedAt :
    (router : AutoRouter) (a : Option String) (b : String) (i : ℕ)
    → tier_index router.tiers b ≡ some i
    → CappedAt router i (lower_cap router a (some b))
unfolding lower_cap
lower_cap-CappedAt router none b i at = (i, at, omega arith)
lower_cap-CappedAt router (some a) b i at = elim (Option-cases (tier_index router.tiers a)) [
  | inl e ↦ rw (e, at) (i, at, omega arith)
  | inr (k, e) ↦ elim (Bool-cases (leb k i)) [
    | inl lower ↦ rw (e, at, stricter, lower) (k, e, ground (arith, lower))
    | inr higher ↦ rw (e, at, stricter, higher) (i, at, omega arith)
  ]
]

-- The budget that a request carries, in the body or in a header.
abbrev pub budget_asked : Texts → Json → List (String × String) → Result BudgetError (Option ℕ)
budget_asked texts payload headers =
    raw_budget texts (get_field (body_of (get_field payload "misterpilot")) "daily_budget_inr")
      (header texts headers "x-misterpilot-daily-budget-inr")

-- The preferences are given, with a cap at a tier no higher than `i`, and say that the budget was
-- reached.
abbrev pub Overspent : AutoRouter → ℕ → Result BudgetError AutoPreferences → Type 0
Overspent router i (raise e) = ⊥
Overspent router i (ok prefs) = CappedAt router i prefs.max_model × (prefs.note ≡ budget_reached)

-- Once the spend of the day reaches the budget that a request carries, the preferences are given, and
-- they have a cap, at a tier no higher than that of the budget's model, whatever cap the request asks
-- for itself, if that model has a tier; and their note says that the budget was reached.
pub auto_preferences-CappedAt :
    (texts : Texts) (cfg : AutoModes) (router : AutoRouter) (requested_model : String)
    (payload : Json) (headers : List (String × String)) (spent_usd inr_rate budget i : ℕ)
    → budget_asked texts payload headers ≡ ok (some budget)
    → 1 ≤ budget
    → budget ≤ spent_usd * inr_rate
    → tier_index router.tiers cfg.budget_cap_model ≡ some i
    → Overspent router i
        (auto_preferences texts cfg router requested_model payload headers spent_usd inr_rate)
unfolding auto_preferences with_budget
auto_preferences-CappedAt texts cfg router requested_model payload headers spent_usd inr_rate budget
      i asked some_budget spent at =
    let positive : eqb budget 0 ≡ false = ground arith in
    let reached : leb budget (spent_usd * inr_rate) ≡ true = ground (arith, spent) in
    rw (asked, with_budget, positive, reached)
      (lower_cap-CappedAt router _ cfg.budget_cap_model i at, refl)
