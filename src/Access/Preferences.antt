-- ===== src/Access/Preferences.antt =====
-- `_header` and `auto_preferences` of backend/services/model_access.py: the mode, the cap and the
-- budget of a request. Money is in units of 10⁻¹⁰; a budget is in rupees, of which the ratios are
-- compared by cross-multiplication. The note says which of the two budget rules applied.
pub mod Capped
use mister_pilot_proxy.Prelude.{
  ℕ, ◌+◌, ◌*◌, String, Bool, true, false, not, ◌&&◌, ◌||◌, Option, none, some, List, [], ◌∷◌, leb,
  ltb, eqb, ◌==◌, if◌then◌else◌, Result, ok, raise, ◌>>=◌, is_empty, strip,
}
use mister_pilot_proxy.Prelude.Int.{ℤ, pos, ◌+ℤ◌}
use mister_pilot_proxy.Dict
use mister_pilot_proxy.Dict.{Dict}
use mister_pilot_proxy.Json.{Json, null, str, obj, get_field}
use mister_pilot_proxy.Router.{AutoRouter}
use mister_pilot_proxy.Llm.{canonical_model}
use mister_pilot_proxy.Access.Warm.{lower_cap}

pub data BudgetNote : Type 0 where
  no_note budget_reached budget_used : BudgetNote

pub record AutoPreferences : Type 0 where
  pub mode : String
  pub shift : ℤ
  pub max_model : Option String
  pub note : BudgetNote

-- The part of the configuration that preferences read.
pub record AutoModes : Type 0 where
  pub default_mode : String
  pub mode_shifts : Dict ℤ
  pub budget_warn_percent : ℕ
  pub budget_shift : ℤ
  pub budget_cap_model : String

-- The names of the models for Auto, and the mode that each selects.
abbrev pub mode_aliases : Dict (Option String)
mode_aliases =
    ("misterpilot-auto", none)
    ∷ ("misterpilot-auto-economy", some "economy")
    ∷ ("misterpilot-auto-quality", some "quality")
    ∷ []

-- The OverflowError of `float` on a whole number that is too large, which the code does not catch.
pub data BudgetError : Type 0 where
  budget_overflow : BudgetError

-- What of the request the preferences read: how a text is lowered, `strip().lower()`, and the budget
-- that a value of the body or a header's text is `float` of, where that is above 0.
pub record Texts : Type 0 where
  pub lower : String → String
  pub fold : String → String
  pub budget_of : Json → Result BudgetError (Option ℕ)
  pub budget_text : String → Option ℕ

abbrev nonempty : String → Option String
nonempty s = if is_empty s then none else some s

-- `_header`: the first of the name, without blanks.
unfoldable pub header : Texts → List (String × String) → String → Option String
header texts [] name = none
header texts ((key, value) ∷ headers) name =
    if texts.lower key == name then nonempty (strip value) else header texts headers name

abbrev body_of : Option Json → Json
body_of (some (obj fields)) = obj fields
body_of _ = null

abbrev text_of : Option Json → Option String
text_of (some (str s)) = some s
text_of _ = none

abbrev joined : Option (Option String) → Option String
joined (some mode) = mode
joined none = none

abbrev is_mode : Texts → AutoModes → String → Bool
is_mode texts cfg m = elim (Dict.get cfg.mode_shifts (texts.lower m)) [
  | none ↦ false
  | some s ↦ true
]

-- The first candidate that is a mode, lowered.
unfoldable pub first_mode : Texts → AutoModes → List (Option String) → String
first_mode texts cfg [] = "balanced"
first_mode texts cfg (none ∷ ms) = first_mode texts cfg ms
first_mode texts cfg (some m ∷ ms) =
    let rest = first_mode texts cfg ms in
    if not (is_empty m) && is_mode texts cfg m then texts.lower m else rest

abbrev shift_of : Option ℤ → ℤ
shift_of none = pos 0
shift_of (some shift) = shift

abbrev or_header : Option String → Option String → Option String
or_header (some s) h = some s
or_header none h = h

-- An empty or unknown model sets no cap.
abbrev pub requested_cap : Texts → Option String → Option String
requested_cap texts none = none
requested_cap texts (some raw) = if is_empty raw then none else canonical_model texts.fold raw

abbrev raw_budget : Texts → Option Json → Option String → Result BudgetError (Option ℕ)
raw_budget texts (some null) h = ok none
raw_budget texts (some value) h = texts.budget_of value
raw_budget texts none none = ok none
raw_budget texts none (some s) = ok (texts.budget_text s)

-- The preferences after the budget: `spent` is the spend of the day in USD times the rate.
unfoldable pub with_budget :
    AutoRouter → AutoModes → AutoPreferences → ℕ → Option ℕ → AutoPreferences
with_budget router cfg prefs spent none = prefs
with_budget router cfg prefs spent (some budget) =
    if eqb budget 0
    then prefs
    else if leb budget spent
    then record prefs {
      max_model = lower_cap router prefs.max_model (some cfg.budget_cap_model);
      note = budget_reached;
    }
    else if leb (budget * cfg.budget_warn_percent) (spent * 100)
    then record prefs { shift = prefs.shift +ℤ cfg.budget_shift; note = budget_used }
    else prefs

unfoldable pub auto_preferences :
    Texts
    → AutoModes
    → AutoRouter
    → String
    → Json
    → List (String × String)
    → ℕ
    → ℕ
    → Result BudgetError AutoPreferences
unfolding header first_mode
auto_preferences texts cfg router requested_model payload headers spent_usd inr_rate =
    let body = body_of (get_field payload "misterpilot") in
    let mode = first_mode texts cfg (
      text_of (get_field body "mode")
      ∷ header texts headers "x-misterpilot-auto-mode"
      ∷ joined (Dict.get mode_aliases (texts.fold requested_model))
      ∷ some cfg.default_mode
      ∷ []) in
    let cap = requested_cap texts (
      or_header (text_of (get_field body "max_model"))
        (header texts headers "x-misterpilot-auto-max-model")) in
    let prefs : AutoPreferences = record {
      mode = mode;
      shift = shift_of (Dict.get cfg.mode_shifts mode);
      max_model = cap;
      note = no_note;
    } in
    raw_budget texts (get_field body "daily_budget_inr")
      (header texts headers "x-misterpilot-daily-budget-inr")
    >>= λ budget. ok (with_budget router cfg prefs (spent_usd * inr_rate) budget)
