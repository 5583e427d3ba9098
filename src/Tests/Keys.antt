-- ===== src/Tests/Keys.antt =====
-- A MisterPilot key and a provider's key in backend/services/key_service.py.
use mister_pilot_proxy.Prelude.{◌≡◌, refl, true, none, some, [], ok}
use mister_pilot_proxy.Dict
use mister_pilot_proxy.Keys.{
  World, SecretCache, answered, found, is_misterpilot_key, aws_secret_name, fetch_key_from_aws,
  verify_misterpilot_key, resolve_api_key,
}
use mister_pilot_proxy.Keys.Resolve.{SaysValid, IsServerKey, resolve_api_key-verified}

abbrev world : World
world = record {
  verify_url_set = true;
  reply = λ key. answered 200 true;
  aws = λ name. found "sk-ours";
  env = "prod";
}

abbrev no_secrets : SecretCache
no_secrets = []

is_own : is_misterpilot_key (some "mp-349") ≡ true
unfolding is_misterpilot_key
is_own = refl

resolved : (resolve_api_key world no_secrets 5 (some "mp-349") "openai").1 ≡ ok "sk-ours"
unfolding resolve_api_key is_misterpilot_key verify_misterpilot_key fetch_key_from_aws
    aws_secret_name Dict.get Dict.put
resolved = refl

missing : Dict.get no_secrets "openai_prod" ≡ none
unfolding Dict.get
missing = refl

resolve_api_key-verified_example :
    SaysValid world (some "mp-349")
    × IsServerKey world no_secrets 5 (aws_secret_name "prod" "openai") "sk-ours"
resolve_api_key-verified_example =
    resolve_api_key-verified world no_secrets 5 (some "mp-349") "openai" "sk-ours" is_own resolved
