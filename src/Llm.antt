-- ===== src/Llm.antt =====
-- backend/llm/llm_client.py: the models, and the retries of a stream. What each call of the provider
-- yields and how it ends is an argument, and so is `strip().lower()` of a model's name. Waiting
-- between attempts is left out.
pub mod Retry
use mister_pilot_proxy.Prelude.{
  ℕ, zero, suc, ◌+◌, max, String, Bool, true, false, not, ◌||◌, Option, none, some, List, [], ◌∷◌,
  ◌++◌, leb, eqb, ◌==◌, contains, Result, ok, raise, if◌then◌else◌,
}
use mister_pilot_proxy.Dict
use mister_pilot_proxy.Dict.{Dict}

pub data Provider : Type 0 where
  deepseek openai claude : Provider

abbrev pub provider_value : Provider → String
provider_value deepseek = "deepseek"
provider_value openai = "openai"
provider_value claude = "claude"

abbrev pub models : Dict Provider
models =
    ("gpt-5.5", openai)
    ∷ ("gpt-5.4", openai)
    ∷ ("gpt-5.4-mini", openai)
    ∷ ("gpt-5.4-nano", openai)
    ∷ ("gpt-5.3-codex", openai)
    ∷ ("claude-opus-5-5", claude)
    ∷ ("claude-sonnet-5", claude)
    ∷ ("claude-haiku-4-5", claude)
    ∷ ("deepseek-v4-pro", deepseek)
    ∷ ("deepseek-flash", deepseek)
    ∷ []

abbrev pub is_model : String → Bool
is_model name = elim (Dict.get models name) [ none ↦ false | some provider ↦ true ]

-- `fold` is `strip().lower()`; `none` is the UnknownModelError.
unfoldable pub canonical_model : (String → String) → String → Option String
canonical_model fold model = if is_model (fold model) then some (fold model) else none

abbrev pub provider_of : Option String → Option Provider
provider_of none = none
provider_of (some name) = Dict.get models name

unfoldable pub provider_for : (String → String) → String → Option Provider
provider_for fold model = provider_of (canonical_model fold model)

abbrev pub openai_efforts : List String
openai_efforts = "low" ∷ "medium" ∷ "high" ∷ []

unfoldable pub openai_effort : Option String → Option String
openai_effort none = none
openai_effort (some effort) =
    if effort == ""
    then none
    else if contains openai_efforts effort
    then some effort
    else some "high"

-- The errors that the loops tell apart: authentication or permission, no connection or a timeout, and
-- any other status.
pub data ProviderError : Type 0 where
  auth connection : ProviderError
  status : ℕ → ProviderError

-- What is raised to the caller.
pub data LlmError : Type 0 where
  auth_error unavailable_error request_error : LlmError

abbrev pub retryable_status : ℕ → Bool
retryable_status code = eqb code 429 || leb 500 code || eqb code 408 || eqb code 409

abbrev pub transient : ProviderError → Bool
transient auth = false
transient connection = true
transient (status code) = retryable_status code

abbrev pub safe_error : Option ProviderError → LlmError
safe_error none = unavailable_error
safe_error (some auth) = auth_error
safe_error (some connection) = unavailable_error
safe_error (some (status code)) = if retryable_status code then unavailable_error else request_error

-- One call: the chunks that it streams, and the error that it ends with, if it does.
pub record Call : Type 0 where
  pub chunks : List String
  pub end : Option ProviderError

-- What the client of the stream has been given, in how many attempts, and the error at the end.
pub record Streamed : Type 0 where
  pub yielded : List String
  pub attempts : ℕ
  pub error : Option LlmError

abbrev pub started : List String → Bool
started [] = false
started (chunk ∷ chunks) = true

-- How an attempt goes on, given what the attempts after it would do.
abbrev pub after_attempt : List String → Option ProviderError → Streamed → Streamed
after_attempt chunks none rest = record { yielded = chunks; attempts = 1; error = none }
after_attempt chunks (some e) rest =
    if started chunks || not (transient e)
    then record { yielded = chunks; attempts = 1; error = some (safe_error (some e)) }
    else record {
      yielded = chunks ++ rest.yielded;
      attempts = rest.attempts + 1;
      error = rest.error;
    }

-- The loop from an attempt on, with so many left; `last` is the error before it.
unfoldable pub stream_from : (ℕ → Call) → ℕ → ℕ → Option ProviderError → Streamed
stream_from calls zero attempt last = record {
  yielded = [];
  attempts = 0;
  error = some (safe_error last);
}
stream_from calls (suc left) attempt last =
    after_attempt (calls attempt).chunks (calls attempt).end
      (stream_from calls left (suc attempt) (calls attempt).end)

unfoldable pub stream_chat_raw : ℕ → (ℕ → Call) → Streamed
unfolding stream_from
stream_chat_raw max_retries calls = stream_from calls (max 1 max_retries) 0 none

-- `complete`: what it returns or raises, and in how many attempts.
pub record Completed : Type 0 where
  pub result : Result LlmError String
  pub attempts : ℕ

abbrev pub after_call : Result ProviderError String → Completed → Completed
after_call (ok reply) rest = record { result = ok reply; attempts = 1 }
after_call (raise e) rest =
    if not (transient e)
    then record { result = raise (safe_error (some e)); attempts = 1 }
    else record { result = rest.result; attempts = rest.attempts + 1 }

abbrev pub error_of : Result ProviderError String → Option ProviderError
error_of (ok reply) = none
error_of (raise e) = some e

unfoldable pub complete_from :
    (ℕ → Result ProviderError String) → ℕ → ℕ → Option ProviderError → Completed
complete_from calls zero attempt last = record { result = raise (safe_error last); attempts = 0 }
complete_from calls (suc left) attempt last =
    after_call (calls attempt) (complete_from calls left (suc attempt) (error_of (calls attempt)))

unfoldable pub complete : ℕ → (ℕ → Result ProviderError String) → Completed
unfolding complete_from
complete max_retries calls = complete_from calls (max 1 max_retries) 0 none

abbrev pub output_budgets : Dict ℕ
output_budgets =
    ("deepseek-v4-pro", 128000)
    ∷ ("deepseek-flash", 128000)
    ∷ ("gpt-5.5", 64000)
    ∷ ("gpt-5.4", 64000)
    ∷ ("gpt-5.4-mini", 64000)
    ∷ ("claude-opus-5-5", 64000)
    ∷ ("claude-sonnet-5", 64000)
    ∷ ("gpt-5.4-nano", 32000)
    ∷ ("claude-haiku-4-5", 16384)
    ∷ ("gpt-5.3-codex", 16384)
    ∷ []

abbrev pub default_output_tokens : ℕ
default_output_tokens = 8192

-- `requested or _DEFAULT_OUTPUT_TOKENS`
abbrev pub requested_or_default : Option ℕ → ℕ
requested_or_default none = default_output_tokens
requested_or_default (some zero) = default_output_tokens
requested_or_default (some (suc n)) = suc n

unfoldable pub output_tokens : String → Option ℕ → ℕ
output_tokens model requested = elim (Dict.get output_budgets model) [
  | none ↦ requested_or_default requested
  | some budget ↦ budget
]
