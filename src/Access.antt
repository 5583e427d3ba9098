-- ===== src/Access.antt =====
-- backend/services/model_access.py: which models a key may call, and which model Auto can serve. What
-- AWS holds, the health of the models and `strip().lower()` are arguments. Log lines are left out.
pub mod Policy
pub mod Failover
pub mod Warm
pub mod Upgrades
pub mod Preferences
pub mod Scoring
pub mod Auto
pub mod Open
pub mod Next
pub mod Moves
use mister_pilot_proxy.Prelude.{
  ℕ, String, Bool, true, false, not, ◌&&◌, ◌||◌, Option, none, some, List, [], ◌∷◌, ◌++◌, ◌==◌,
  contains, map, Result, ok, raise, if◌then◌else◌,
}
use mister_pilot_proxy.Dict
use mister_pilot_proxy.Dict.{Dict}
use mister_pilot_proxy.Keys.{is_misterpilot_key}
use mister_pilot_proxy.Llm.{Provider, deepseek, models, is_model, canonical_model, provider_for}
use mister_pilot_proxy.Cost.{has_pricing}
use mister_pilot_proxy.Router.{without}

abbrev pub auto_models : List String
auto_models = "misterpilot-auto" ∷ "misterpilot-auto-economy" ∷ "misterpilot-auto-quality" ∷ []

unfoldable pub is_auto_model : (String → String) → String → Bool
is_auto_model fold model = contains auto_models (fold model)

-- The ids of the entries for explicit models, by the loop over `MODELS`.
abbrev pub listed_from : Bool → Dict Provider → List String
listed_from misterpilot [] = []
listed_from misterpilot ((model, provider) ∷ items) =
    let rest = listed_from misterpilot items in
    if misterpilot && not (has_pricing (some model)) then rest else model ∷ rest

-- The ids of the entries of `/v1/models`.
unfoldable pub available_models : String → List String
available_models raw_key =
    let misterpilot = is_misterpilot_key (some raw_key) in
    let byok = not (raw_key == "") && not misterpilot in
    (if byok then [] else auto_models) ++ listed_from misterpilot models

-- Where `open_model_access` goes once policy allows the request: to Auto, or to the keys for a model.
pub data Allowed : Type 0 where
  auto_route : Allowed
  explicit : String → Allowed

abbrev pub check_model : Bool → Option String → Result ℕ Allowed
check_model misterpilot none = raise 400
check_model misterpilot (some model) =
    if misterpilot && not (has_pricing (some model)) then raise 403 else ok (explicit model)

-- The checks of `open_model_access` before any key is resolved, in their order. An HTTPException is
-- its status.
unfoldable pub check_access : (String → String) → String → String → Result ℕ Allowed
check_access fold requested_model raw_key =
    let misterpilot = is_misterpilot_key (some raw_key) in
    if raw_key == ""
    then raise 401
    else if is_auto_model fold requested_model && not misterpilot
    then raise 403
    else if is_auto_model fold requested_model
    then ok auto_route
    else check_model misterpilot (canonical_model fold requested_model)

-- What serving depends on: our key for a provider, and the breakers. The key is `none` where fetching
-- it raises a RuntimeError; another error of AWS there is left out.
pub record Serving : Type 0 where
  pub fold : String → String
  pub server_key : Provider → Option String
  pub is_available : String → Bool

-- Why a model cannot be served.
pub data Problem : Type 0 where
  unknown_model no_pricing no_service_key : Problem

abbrev pub is_deepseek : Provider → Bool
is_deepseek deepseek = true
is_deepseek _ = false

-- An empty key is no key: `if not key`.
abbrev pub key_or_problem : Provider → Option String → Result Problem (Provider × String)
key_or_problem provider none = raise no_service_key
key_or_problem provider (some key) = if key == "" then raise no_service_key else ok (provider, key)

abbrev pub given_key : Option String → Bool
given_key none = false
given_key (some key) = not (key == "")

abbrev pub service_key : Serving → Provider → Option String → Result Problem (Provider × String)
service_key serving provider deepseek_key =
    if is_deepseek provider && given_key deepseek_key
    then key_or_problem provider deepseek_key
    else key_or_problem provider (serving.server_key provider)

abbrev pub priced_key :
    Serving → String → Option String → Option Provider → Result Problem (Provider × String)
priced_key serving model deepseek_key none = raise unknown_model
priced_key serving model deepseek_key (some provider) =
    if not (has_pricing (some model))
    then raise no_pricing
    else service_key serving provider deepseek_key

unfoldable pub servable : Serving → String → Option String → Result Problem (Provider × String)
servable serving model deepseek_key =
    priced_key serving model deepseek_key (provider_for serving.fold model)

-- What `_first_servable` returns for the model it chooses.
pub record Chosen : Type 0 where
  pub model : String
  pub provider : Provider
  pub key : String
  pub remaining : List String

abbrev pub choose :
    String → List String → Result Problem (Provider × String) → Option Chosen → Option Chosen
choose model later (ok (provider, key)) next =
    some (record { model = model; provider = provider; key = key; remaining = without model later })
choose model later (raise problem) next = next

-- One pass over the chain.
unfoldable pub pass : Serving → Bool → List String → Option String → Option Chosen
pass serving respect_breaker [] deepseek_key = none
pass serving respect_breaker (model ∷ chain) deepseek_key =
    let next = pass serving respect_breaker chain deepseek_key in
    if respect_breaker && not (serving.is_available model)
    then next
    else choose model chain (servable serving model deepseek_key) next

abbrev pub or_else : Option Chosen → Option Chosen → Option Chosen
or_else none second = second
or_else (some chosen) second = some chosen

-- The second pass ignores the breakers.
unfoldable pub first_servable : Serving → List String → Option String → Option Chosen
unfolding pass
first_servable serving chain deepseek_key =
    or_else (pass serving true chain deepseek_key) (pass serving false chain deepseek_key)
