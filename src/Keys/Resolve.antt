-- ===== src/Keys/Resolve.antt =====
-- `resolve_api_key` of backend/services/key_service.py: what a key is swapped for, and when.
use mister_pilot_proxy.Prelude.{
  Result-cases, ℕ, ◌+◌, ◌<◌, ◌≤◌, ◌≡◌, refl, ◌⊎◌, inl, inr, String, Bool-cases, true, false, Option,
  Option-cases, none, some, arith, ltb, eq_refl, if◌then◌else◌, Result, ok, raise,
}
use mister_pilot_proxy.Dict
use mister_pilot_proxy.Dict.{get-put}
use mister_pilot_proxy.Keys.{
  World, SecretCache, AwsReply, found, caught, uncaught, AwsError, runtime_error, other_error,
  KeyError, read_reply, VerifyReply, answered, connect_error, timed_out, unexpected,
  is_misterpilot_key, aws_secret_name, ask_aws, fetch_key_from_aws, secret_ttl_seconds,
  verify_misterpilot_key, verified_key, server_key, resolve_api_key,
}

-- The service said of the key that it is valid.
abbrev pub SaysValid : World → Option String → Type 0
SaysValid world key =
    (status : ℕ) × (world.verify_url_set ≡ true)
    × (world.reply key ≡ answered status true)
    × (200 ≤ status)
    × (status < 300)

-- Our key for the provider: from the cache before it expires, or from AWS.
abbrev pub IsServerKey : World → SecretCache → ℕ → String → String → Type 0
IsServerKey world cache now secret_name k =
    ((expires : ℕ) × (Dict.get cache secret_name ≡ some (k, expires)) × (now < expires))
    ⊎ (world.aws secret_name ≡ found k)

read_reply-valid :
    (reply : VerifyReply)
    → read_reply reply ≡ ok true
    → (status : ℕ) × (reply ≡ answered status true) × (200 ≤ status) × (status < 300)
read_reply-valid connect_error h = cc
read_reply-valid timed_out h = cc
read_reply-valid unexpected h = cc
read_reply-valid (answered status true) h = (status, refl, ground arith, ground arith)
read_reply-valid (answered status false) h = absurd (ground arith)

verify-valid :
    (world : World) (key : Option String)
    → verify_misterpilot_key world.verify_url_set world.reply key ≡ ok true
    → SaysValid world key
unfolding verify_misterpilot_key
verify-valid world key h = elim (Bool-cases world.verify_url_set) [
  | inl set ↦
      let (status, is, low, high) = read_reply-valid (world.reply key) (simp set at h) in
      (status, set, is, low, high)
  | inr unset ↦ absurd (ground (arith, unset, h))
]

ask_aws-found :
    (cache : SecretCache) (now : ℕ) (secret_name k : String) (answer : AwsReply)
    → (ask_aws cache now secret_name answer).1 ≡ ok k
    → answer ≡ found k
ask_aws-found cache now secret_name k caught h = cc
ask_aws-found cache now secret_name k uncaught h = cc
ask_aws-found cache now secret_name k (found api_key) h = cc

fetch_key_from_aws-IsServerKey :
    (world : World) (cache : SecretCache) (now : ℕ) (secret_name k : String)
    → (fetch_key_from_aws world.aws cache now secret_name).1 ≡ ok k
    → IsServerKey world cache now secret_name k
unfolding fetch_key_from_aws
fetch_key_from_aws-IsServerKey world cache now secret_name k h =
    let asked = ask_aws-found cache now secret_name k (world.aws secret_name) in
    elim (Option-cases (Dict.get cache secret_name)) [
      | inl miss ↦ inr (asked (rw (miss, fetch_key_from_aws) at h))
      | inr ((api_key, expires), hit) ↦ elim (Bool-cases (ltb now expires)) [
        | inl fresh ↦
            let h' : (◌≡◌ {A = Result AwsError String} (ok api_key) (ok k)) =
              rw fresh at (rw (hit, fetch_key_from_aws) at h) in
            inl (expires, cc (hit, h'), ground (arith, fresh))
        | inr stale ↦ inr (asked (rw stale at (rw (hit, fetch_key_from_aws) at h)))
      ]
    ]

server_key-ok :
    (fetched : SecretCache × Result AwsError String) (k : String)
    → (server_key fetched).1 ≡ ok k
    → fetched.1 ≡ ok k
server_key-ok (cache, raise runtime_error) k h = cc
server_key-ok (cache, raise other_error) k h = cc
server_key-ok (cache, ok api_key) k h = cc

verified_key-ok :
    (world : World) (cache : SecretCache) (now : ℕ) (key : Option String) (provider k : String)
    → (verified_key world cache now provider
        (verify_misterpilot_key world.verify_url_set world.reply key)).1
      ≡ ok k
    → SaysValid world key × IsServerKey world cache now (aws_secret_name world.env provider) k
verified_key-ok world cache now key provider k h =
    elim (Result-cases (verify_misterpilot_key world.verify_url_set world.reply key)) [
      | inl (true, valid) ↦ (
        verify-valid world key valid,
        fetch_key_from_aws-IsServerKey world cache now (aws_secret_name world.env provider) k
            (server_key-ok _ k (rw (valid, verified_key) at h)),
      )
      | inl (false, invalid) ↦ absurd (refused (rw (invalid, verified_key) at h))
      | inr (status, failed) ↦ absurd (refused (rw (failed, verified_key) at h))
    ]
  where
    refused : {e : KeyError} → raise e ≡ ok k → ⊥
    refused h = cc

-- A MisterPilot key is swapped for a key only after the verification service, asked about that key,
-- has said that it is valid, with a status from 200 to 299; and the key it is swapped for is ours for
-- the provider and the environment, from the cache before it expires or from AWS.
pub resolve_api_key-verified :
    (world : World) (cache : SecretCache) (now : ℕ) (key : Option String) (provider k : String)
    → is_misterpilot_key key ≡ true
    → (resolve_api_key world cache now key provider).1 ≡ ok k
    → SaysValid world key × IsServerKey world cache now (aws_secret_name world.env provider) k
unfolding resolve_api_key
resolve_api_key-verified world cache now key provider k own h =
    verified_key-ok world cache now key provider k (rw (own, resolve_api_key) at h)

abbrev pub fetched : AwsReply → Result AwsError String
fetched (found api_key) = ok api_key
fetched caught = raise runtime_error
fetched uncaught = raise other_error

ask_aws-fetched :
    (cache : SecretCache) (now : ℕ) (secret_name : String) (answer : AwsReply)
    → (ask_aws cache now secret_name answer).1 ≡ fetched answer
ask_aws-fetched cache now secret_name caught = refl
ask_aws-fetched cache now secret_name uncaught = refl
ask_aws-fetched cache now secret_name (found api_key) = refl

-- A key that AWS gave is served from the cache for 300 seconds, whatever AWS would answer then, and
-- AWS is asked again from then on.
pub fetch_key_from_aws-cached :
    (aws later_aws : String → AwsReply) (cache : SecretCache) (now later : ℕ)
    (secret_name k : String)
    → Dict.get cache secret_name ≡ none
    → aws secret_name ≡ found k
    → (fetch_key_from_aws later_aws
        (fetch_key_from_aws aws cache now secret_name).0
        later
        secret_name).1
      ≡ (if ltb later (now + secret_ttl_seconds) then ok k else fetched (later_aws secret_name))
unfolding fetch_key_from_aws
fetch_key_from_aws-cached aws later_aws cache now later secret_name k miss answer =
    let stored : Dict.get (fetch_key_from_aws aws cache now secret_name).0 secret_name
        ≡ some (k, now + 300) =
      rw (miss, fetch_key_from_aws) (rw (answer, ask_aws) (rw get-put (rw eq_refl refl))) in
    let asked =
      ask_aws-fetched (fetch_key_from_aws aws cache now secret_name).0 later secret_name
        (later_aws secret_name) in
    elim (Bool-cases (ltb later (now + secret_ttl_seconds))) [
      | inl fresh ↦ rw (stored, fetch_key_from_aws, fresh) refl
      | inr stale ↦ rw (stored, fetch_key_from_aws, stale) asked
    ]
