-- ===== src/Cost.antt =====
-- backend/services/cost_service.py: prices. A price is in whole units of 10⁻⁹ USD per token, which
-- holds every rate of the table exactly.
pub mod Warm
pub mod Rate
pub mod Charge
use mister_pilot_proxy.Prelude.{
  ℕ, ◌+◌, ◌-◌, ◌*◌, ◌/◌, String, Bool, true, false, Option, none, some, List, [], ◌∷◌, ◌==◌,
  if◌then◌else◌,
}
use mister_pilot_proxy.Dict
use mister_pilot_proxy.Dict.{Dict}
use mister_pilot_proxy.Keys.{is_misterpilot_key}

-- `cache_write` is missing where the provider charges no premium for it.
pub record Rates : Type 0 where
  pub output : ℕ
  pub cache_hit : ℕ
  pub cache_miss : ℕ
  pub cache_write : Option ℕ

abbrev pub fallback_rates : Rates
fallback_rates = record { output = 3960; cache_hit = 44; cache_miss = 1320; cache_write = none }

abbrev pub pricing : Dict Rates
pricing =
    ("gpt-5.5", record { output = 30000; cache_hit = 500; cache_miss = 5000; cache_write = none })
    ∷ ("gpt-5.4", record { output = 15000; cache_hit = 250; cache_miss = 2500; cache_write = none })
    ∷ (
      "gpt-5.4-mini",
      record { output = 4500; cache_hit = 75; cache_miss = 750; cache_write = none },
    )
    ∷ (
      "gpt-5.4-nano",
      record { output = 1000; cache_hit = 20; cache_miss = 200; cache_write = none },
    )
    ∷ (
      "gpt-5.3-codex",
      record { output = 28000; cache_hit = 350; cache_miss = 3500; cache_write = none },
    )
    ∷ (
      "claude-opus-5-5",
      record { output = 20000; cache_hit = 200; cache_miss = 4000; cache_write = some 5000 },
    )
    ∷ (
      "claude-sonnet-5",
      record { output = 10000; cache_hit = 200; cache_miss = 2000; cache_write = some 2500 },
    )
    ∷ (
      "claude-haiku-4-5",
      record { output = 5000; cache_hit = 100; cache_miss = 1000; cache_write = some 1250 },
    )
    ∷ ("deepseek-v4-pro", fallback_rates)
    ∷ (
      "deepseek-flash",
      record { output = 1200; cache_hit = 6; cache_miss = 300; cache_write = none },
    )
    ∷ []

-- `model or ""`
abbrev pub name_of : Option String → String
name_of none = ""
name_of (some model) = model

abbrev pub or_fallback : Option Rates → Rates
or_fallback none = fallback_rates
or_fallback (some rates) = rates

unfoldable pub get_rates : Option String → Rates
get_rates model = or_fallback (Dict.get pricing (name_of model))

-- `rates.get("cache_write", rates["cache_miss"])`
abbrev pub write_rate : Rates → ℕ
write_rate rates = elim rates.cache_write [ none ↦ rates.cache_miss | some rate ↦ rate ]

unfoldable pub price_usd : Option String → ℕ → ℕ → ℕ → ℕ → ℕ
price_usd model output cache_hit cache_miss cache_write =
    let rates = get_rates model in
    output * rates.output
    + cache_hit * rates.cache_hit
    + cache_miss * rates.cache_miss
    + cache_write * write_rate rates

-- `int(context_tokens * 0.9)`, as the whole part of nine tenths.
abbrev pub warm_share : ℕ → ℕ
warm_share context_tokens = context_tokens * 9 / 10

unfoldable pub estimate_turn_usd : String → ℕ → ℕ → Bool → ℕ
estimate_turn_usd model context_tokens output_tokens true =
    price_usd (some model) output_tokens (warm_share context_tokens)
      (context_tokens - warm_share context_tokens) 0
estimate_turn_usd model context_tokens output_tokens false =
    elim (get_rates (some model)).cache_write [
      | none ↦ price_usd (some model) output_tokens 0 context_tokens 0
      | some rate ↦ price_usd (some model) output_tokens 0 0 context_tokens
    ]

unfoldable pub has_pricing : Option String → Bool
has_pricing model = elim (Dict.get pricing (name_of model)) [ none ↦ false | some rates ↦ true ]

-- What the wallet is told.
pub record ChargeRecord : Type 0 where
  pub api_key : String
  pub model : String
  pub cost_inr : ℕ
  pub output_tokens : ℕ
  pub cache_hit_tokens : ℕ
  pub cache_miss_tokens : ℕ

-- With the margin of 1.20, in units of 10⁻¹⁰ USD.
pub record Cost : Type 0 where
  pub cost_usd : ℕ
  pub cost_inr : Option ℕ
  pub model : String
  pub charge : Option ChargeRecord

abbrev pub resolved_model : Option String → String
resolved_model none = "deepseek-v4-pro"
resolved_model (some model) = if model == "" then "deepseek-v4-pro" else model

-- `rate` is what `get_inr_rate` returns, in whole units of its own; `charge` is what is spawned.
unfoldable pub calc_cost : ℕ → Option String → ℕ → ℕ → ℕ → ℕ → String → Cost
calc_cost rate model output cache_hit cache_miss cache_write api_key =
    let raw = price_usd model output cache_hit cache_miss cache_write in
    if is_misterpilot_key (some api_key)
    then record {
      cost_usd = raw * 12;
      cost_inr = some (raw * 12 * rate);
      model = resolved_model model;
      charge = some (record {
        api_key = api_key;
        model = resolved_model model;
        cost_inr = raw * 12 * rate;
        output_tokens = output;
        cache_hit_tokens = cache_hit;
        cache_miss_tokens = cache_miss + cache_write;
      });
    }
    else record {
      cost_usd = raw * 10;
      cost_inr = none;
      model = resolved_model model;
      charge = none;
    }
