-- ===== src/Keys.antt =====
-- backend/services/key_service.py: which key a request is served with. What the verification service
-- and AWS Secrets Manager answer is an argument, and so are the environment and the clock, in
-- seconds. An HTTPException is its status.
pub mod Resolve
use Prim.Native.String.{◌++◌}
use text.Mathlib.Text.{starts_with}
use mister_pilot_proxy.Prelude.{
  ℕ, ◌+◌, String, Bool, true, false, ◌&&◌, Option, none, some, leb, ltb, ◌==◌, if◌then◌else◌,
  Result, ok, raise,
}
use mister_pilot_proxy.Dict
use mister_pilot_proxy.Dict.{Dict}

abbrev pub misterpilot_key_prefix : String
misterpilot_key_prefix = "mp"

pub data KeyType : Type 0 where
  misterpilot byok : KeyType

abbrev pub secret_ttl_seconds : ℕ
secret_ttl_seconds = 300

unfoldable pub is_misterpilot_key : Option String → Bool
is_misterpilot_key none = false
is_misterpilot_key (some key) = starts_with key misterpilot_key_prefix

unfoldable pub key_type : Option String → KeyType
key_type key = if is_misterpilot_key key then misterpilot else byok

-- `env` is the lower case of `APP_ENV`.
unfoldable pub aws_secret_name : String → String → String
aws_secret_name env provider = provider ++ ("_" ++ (if env == "prod" then "prod" else "dev"))

-- By the secret's name: the key, and when it expires.
abbrev pub SecretCache : Type 0
SecretCache = Dict (String × ℕ)

-- What the lookup of a secret at AWS comes to: a key, one of the errors that the code catches
-- (ClientError, KeyError, JSONDecodeError), or another, as boto's BotoCoreError.
pub data AwsReply : Type 0 where
  found : String → AwsReply
  caught uncaught : AwsReply

pub data AwsError : Type 0 where
  runtime_error other_error : AwsError

abbrev pub ask_aws : SecretCache → ℕ → String → AwsReply → SecretCache × Result AwsError String
ask_aws cache now secret_name caught = (cache, raise runtime_error)
ask_aws cache now secret_name uncaught = (cache, raise other_error)
ask_aws cache now secret_name (found api_key) =
    (Dict.put cache secret_name (api_key, now + secret_ttl_seconds), ok api_key)

unfoldable pub fetch_key_from_aws :
    (String → AwsReply) → SecretCache → ℕ → String → SecretCache × Result AwsError String
fetch_key_from_aws aws cache now secret_name = elim (Dict.get cache secret_name) [
  | none ↦ ask_aws cache now secret_name (aws secret_name)
  | some (api_key, expires) ↦
      if ltb now expires
      then (cache, ok api_key)
      else ask_aws cache now secret_name (aws secret_name)
]

-- What the verification service may do: `answered` has the status and whether the body says valid.
pub data VerifyReply : Type 0 where
  connect_error timed_out unexpected : VerifyReply
  answered : ℕ → Bool → VerifyReply

abbrev pub read_reply : VerifyReply → Result ℕ Bool
read_reply connect_error = raise 503
read_reply timed_out = raise 503
read_reply unexpected = raise 503
read_reply (answered status valid) =
    if leb 200 status && ltb status 300
    then ok valid
    else if leb 500 status
    then raise 503
    else ok false

-- `ask` is what the service does with the key that is posted.
unfoldable pub verify_misterpilot_key :
    Bool → (Option String → VerifyReply) → Option String → Result ℕ Bool
verify_misterpilot_key false ask key = raise 500
verify_misterpilot_key true ask key = read_reply (ask key)

pub record World : Type 0 where
  pub verify_url_set : Bool
  pub reply : Option String → VerifyReply
  pub aws : String → AwsReply
  pub env : String

-- An HTTPException, or an error of AWS that the code does not catch.
pub data KeyError : Type 0 where
  http_error : ℕ → KeyError
  aws_error : KeyError

abbrev pub server_key : SecretCache × Result AwsError String → SecretCache × Result KeyError String
server_key (cache, raise runtime_error) = (cache, raise (http_error 503))
server_key (cache, raise other_error) = (cache, raise aws_error)
server_key (cache, ok api_key) = (cache, ok api_key)

abbrev pub verified_key :
    World → SecretCache → ℕ → String → Result ℕ Bool → SecretCache × Result KeyError String
verified_key world cache now provider (raise status) = (cache, raise (http_error status))
verified_key world cache now provider (ok false) = (cache, raise (http_error 401))
verified_key world cache now provider (ok true) =
    server_key (fetch_key_from_aws world.aws cache now (aws_secret_name world.env provider))

-- `key or ""`
abbrev pub or_empty : Option String → String
or_empty none = ""
or_empty (some key) = key

unfoldable pub resolve_api_key :
    World → SecretCache → ℕ → Option String → String → SecretCache × Result KeyError String
resolve_api_key world cache now key provider =
    if is_misterpilot_key key
    then verified_key world cache now provider
        (verify_misterpilot_key world.verify_url_set world.reply key)
    else (cache, ok (or_empty key))
