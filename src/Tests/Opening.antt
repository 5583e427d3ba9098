-- ===== src/Tests/Opening.antt =====
-- Accesses that backend/services/model_access.py opens, for Auto and for a model.
use mister_pilot_proxy.Prelude.{
  ◌≡◌, ◌≢◌, refl, String, true, false, none, some, [], ◌∷◌, ok, arith, ◌==◌, eq_iff,
}
use mister_pilot_proxy.Prelude.Int.{pos}
use mister_pilot_proxy.Prelude.Decimal.{decimal, decimal_inj}
use mister_pilot_proxy.Json.{Json, str, arr, obj, bool, num, field, end, cons, nil}
use mister_pilot_proxy.Dict
use mister_pilot_proxy.Ttl.{get, get_key}
use mister_pilot_proxy.Router.{Tier, AutoRouter, tier_index}
use mister_pilot_proxy.Router.Select.{IsValid}
use mister_pilot_proxy.Session.{AutoSession, is_tool_step, get_session, session_key, messages}
use mister_pilot_proxy.Llm.{openai, deepseek, provider_value, canonical_model, provider_for}
use mister_pilot_proxy.Keys.{
  found, answered, misterpilot, is_misterpilot_key, resolve_api_key, verify_misterpilot_key,
  fetch_key_from_aws, key_type, aws_secret_name,
}
use mister_pilot_proxy.Cost.{has_pricing}
use mister_pilot_proxy.Access.{servable, check_access, is_auto_model}
use mister_pilot_proxy.Access.Failover.{usable}
use mister_pilot_proxy.Access.Preferences.{
  Texts, AutoModes, auto_preferences, no_note, AutoPreferences, header, first_mode, with_budget,
}
use mister_pilot_proxy.Access.Preferences.Capped.{Overspent, auto_preferences-CappedAt}
use mister_pilot_proxy.Access.Scoring.{Scorer, auto_score}
use mister_pilot_proxy.Access.Scoring.Sound.{Gives, Lost, auto_score-Gives}
use mister_pilot_proxy.Complexity.{ComplexityScore}
use mister_pilot_proxy.Complexity.Request.{score_request}
use mister_pilot_proxy.Access.Auto.{Routing, side_job, session_of}
use mister_pilot_proxy.Access.Next.{ModelAccess}
use mister_pilot_proxy.Access.Open.{
  Deployment, State, Request, Moments, open_auto, open_model_access, preferences, skey,
}
use mister_pilot_proxy.Access.Open.Safe.{Safe, open_model_access-Safe}
use mister_pilot_proxy.Access.Open.Serves.{Serves, open_model_access-Serves}
use mister_pilot_proxy.Access.Open.ToolStep.{Pinned, open_auto-Pinned}
use mister_pilot_proxy.Tests.Verifier.{checker, silent}

abbrev small : Tier
small = record { low = 1; high = 10; model = "gpt-5.4-mini"; alternates = []; efforts = [] }

abbrev large : Tier
large = record { low = 11; high = 20; model = "gpt-5.5"; alternates = []; efforts = [] }

abbrev router : AutoRouter
router = record { fallback_model = "gpt-5.4"; tiers = small ∷ large ∷ [] }

named : (s : String) → (s == "") ≡ false → s ≢ ""
named s h e = ground (arith, eq_iff s "", e, h)

valid : IsValid router
valid = record {
  named = named "gpt-5.4" refl;
  covers = (
    refl,
    omega arith,
    named "gpt-5.4-mini" refl,
    refl,
    (refl, omega arith, named "gpt-5.5" refl, refl, refl),
  );
}

abbrev scorer : Scorer
scorer = record {
  checker = checker;
  ask = silent;
  latency = 40;
  nonce = "a1";
  digest = λ score text. decimal score;
}

abbrev routing : Routing
routing = record {
  fold = λ s. s;
  router = router;
  warm = record { switch_horizon_turns = 3; expected_output_tokens = 1500 };
  floors = record {
    history_turns = 4;
    history_decay = 2;
    max_drop_per_turn = 4;
    long_context_tokens = 0;
    long_context_min_score = 11;
  };
  scoring = record {
    user_turns = λ payload. [];
    is_substantive = λ text. false;
    score_of = λ text. 0;
    route_score = λ message. none;
  };
  json_length = λ value. 40;
  digests = record {
    tenant_of = λ key. key;
    conversation = λ tenant text. text;
    repr = λ value. "?";
  };
  scorer = scorer;
  check = record { verify_min_confidence = 60; verify_boundary_margin = 2 };
}

abbrev texts : Texts
texts = record {
  lower = λ s. s;
  fold = λ s. s;
  budget_of = λ value. ok (some 100);
  budget_text = λ s. none;
}

abbrev modes : AutoModes
modes = record {
  default_mode = "balanced";
  mode_shifts = ("balanced", pos 0) ∷ [];
  budget_warn_percent = 80;
  budget_shift = pos 0;
  budget_cap_model = "gpt-5.4-mini";
}

abbrev dep : Deployment
dep = record {
  routing = routing;
  texts = texts;
  modes = modes;
  inr_rate = 90;
  world = record {
    verify_url_set = true;
    reply = λ key. answered 200 true;
    aws = λ name. found "sk-ours";
    env = "prod";
  };
  serving = record {
    fold = λ s. s;
    server_key = λ provider. some "sk-ours";
    is_available = λ model. true;
  };
}

abbrev times : Moments
times = record { day = 1; now = 10; later = 12 }

-- The chat of a tool loop, which started on gpt-5.5.
abbrev session : AutoSession
session = record { model = "gpt-5.5"; score = 15; effort = none; user_turns = 1 }

abbrev state : State
state = record {
  secrets = [];
  sessions = record { items = ("Fix it", (5, session)) ∷ []; max_items = 9; ttl = 3600 };
  verdicts = record { items = []; max_items = 9; ttl = 3600 };
  spend = [];
}

abbrev message : String → String → Json
message role text = obj (field "role" (str role) (field "content" (str text) end))

abbrev tool_step : Request
tool_step = record {
  requested_model = "misterpilot-auto";
  raw_key = "mp-349";
  payload = obj (
      field "stream" (bool true) (
        field "messages" (arr (cons (message "user" "Fix it") (cons (message "tool" "done") nil)))
          end));
  headers = [];
}

abbrev plain : Request
plain = record { requested_model = "gpt-5.5"; raw_key = "mp-349"; payload = obj end; headers = [] }

abbrev plain_access : ModelAccess
plain_access = record {
  requested_model = "gpt-5.5";
  upstream_model = "gpt-5.5";
  provider = openai;
  raw_key = "mp-349";
  key_type = misterpilot;
  upstream_key = "sk-ours";
  auto_score = none;
  auto_route = [];
  auto_fallback = false;
  effort = none;
  fallback_models = [];
  session_key = none;
  user_turns = 0;
}

abbrev plain_after : State
plain_after = record state { secrets = ("openai_prod", ("sk-ours", 310)) ∷ [] }

opens_plain : open_model_access dep times plain state ≡ (plain_after, ok (none, plain_access))
unfolding open_model_access check_access is_auto_model canonical_model Dict.get is_misterpilot_key
    has_pricing resolve_api_key verify_misterpilot_key fetch_key_from_aws Dict.put key_type
    aws_secret_name
opens_plain = refl

open_model_access-Serves_example : Serves dep times plain state plain_access
open_model_access-Serves_example =
    open_model_access-Serves dep times plain state plain_after none plain_access opens_plain

open_model_access-Safe_example : Safe scorer (open_model_access dep times tool_step state)
open_model_access-Safe_example =
    open_model_access-Safe dep times tool_step state
      (λ c stored v e at same. decimal_inj v.computed.complexity_score c.complexity_score same)
      valid (((omega arith, omega arith), tt), tt)

resolves :
    resolve_api_key dep.world [] 10 (some "mp-349") (provider_value deepseek)
    ≡ (("deepseek_prod", ("sk-ours", 310)) ∷ [], ok "sk-ours")
unfolding resolve_api_key is_misterpilot_key verify_misterpilot_key fetch_key_from_aws Dict.get
    Dict.put aws_secret_name
resolves = refl

remembers :
    get_session state.sessions 10 (skey dep times tool_step) ≡ (state.sessions, some session)
unfolding get_session get get_key session_of side_job session_key messages Dict.get Dict.pop
remembers = refl

is_up : usable dep.serving true (some "sk-ours") "gpt-5.5" ≡ true
unfolding servable provider_for canonical_model has_pricing Dict.get
is_up = refl

abbrev prefs : AutoPreferences
prefs = record { mode = "balanced"; shift = pos 0; max_model = none; note = no_note }

reads : preferences dep times tool_step state ≡ ok prefs
unfolding preferences auto_preferences header first_mode with_budget Dict.get
reads = refl

is_step : is_tool_step tool_step.payload ≡ true
unfolding is_tool_step messages
is_step = refl

open_auto-Pinned_example : Pinned session state.verdicts (open_auto dep times tool_step state)
open_auto-Pinned_example =
    open_auto-Pinned dep times tool_step state (("deepseek_prod", ("sk-ours", 310)) ∷ [])
      state.sessions session prefs "sk-ours" is_step valid (omega arith, omega arith) resolves reads
      remembers is_up

abbrev over_budget : Json
over_budget = obj (field "misterpilot" (obj (field "daily_budget_inr" (num (pos 100)) end)) end)

auto_preferences-CappedAt_example :
    Overspent router 0 (auto_preferences texts modes router "misterpilot-auto" over_budget [] 2 90)
unfolding tier_index
auto_preferences-CappedAt_example =
    auto_preferences-CappedAt texts modes router "misterpilot-auto" over_budget [] 2 90 100 0 refl
      (omega arith) (omega arith) refl

auto_score-Gives_example :
    (c : ComplexityScore) × (score_request checker.engine tool_step.payload ≡ ok c)
    × Gives scorer ((true ≡ true) × Lost scorer routing.check c none (some router)) c (
        auto_score scorer routing.check state.verdicts 10 tool_step.payload none (some router) true)
auto_score-Gives_example =
    auto_score-Gives scorer routing.check state.verdicts 10 tool_step.payload none (some router)
      true (λ c stored v e at same. decimal_inj v.computed.complexity_score c.complexity_score same)
      tt
