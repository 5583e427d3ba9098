-- ===== src/Access/Next.antt =====
-- `ModelAccess` and `next_auto_access` of backend/services/model_access.py: the failover of a request
-- whose model failed before its first token. The provider's client is left out; the route's text is a
-- list of the models that failed over, the last first.
use mister_pilot_proxy.Prelude.{
  ℕ, String, Bool, true, false, not, Option, none, some, List, [], ◌∷◌, if◌then◌else◌,
}
use mister_pilot_proxy.Ttl.{TtlStore}
use mister_pilot_proxy.Session.{AutoSession, save_route}
use mister_pilot_proxy.Llm.{Provider}
use mister_pilot_proxy.Keys.{KeyType}
use mister_pilot_proxy.Access.{Serving, Chosen, is_auto_model, first_servable}

pub record ModelAccess : Type 0 where
  pub requested_model : String
  pub upstream_model : String
  pub provider : Provider
  pub raw_key : String
  pub key_type : KeyType
  pub upstream_key : String
  pub auto_score : Option ℕ
  pub auto_route : List String
  pub auto_fallback : Bool
  pub effort : Option String
  pub fallback_models : List String
  pub session_key : Option String
  pub user_turns : ℕ

unfoldable pub is_auto : (String → String) → ModelAccess → Bool
is_auto fold access = is_auto_model fold access.requested_model

-- `session_key is not None and auto_score is not None`
abbrev pub save_failover :
    TtlStore AutoSession
    → ℕ
    → ModelAccess
    → String
    → Option String
    → Option ℕ
    → TtlStore AutoSession
save_failover sessions now access model none score = sessions
save_failover sessions now access model (some key) none = sessions
save_failover sessions now access model (some key) (some score) =
    save_route sessions now (some key) (record {
      model = model;
      score = score;
      effort = access.effort;
      user_turns = access.user_turns;
    })

abbrev pub with_chosen :
    TtlStore AutoSession
    → ℕ
    → ModelAccess
    → Option Chosen
    → TtlStore AutoSession × Option ModelAccess
with_chosen sessions now access none = (sessions, none)
with_chosen sessions now access (some chosen) = (
  save_failover sessions now access chosen.model access.session_key access.auto_score,
  some (record access {
    upstream_model = chosen.model;
    provider = chosen.provider;
    upstream_key = chosen.key;
    auto_route = access.upstream_model ∷ access.auto_route;
    auto_fallback = true;
    fallback_models = chosen.remaining;
  }),
)

abbrev pub is_empty : List String → Bool
is_empty [] = true
is_empty (m ∷ ms) = false

unfoldable pub next_auto_access :
    Serving → TtlStore AutoSession → ℕ → ModelAccess → TtlStore AutoSession × Option ModelAccess
next_auto_access serving sessions now access =
    if not (is_auto serving.fold access)
    then (sessions, none)
    else if is_empty access.fallback_models
    then (sessions, none)
    else with_chosen sessions now access (first_servable serving access.fallback_models none)
