-- ===== src/Pii/Registry.antt =====
-- The table of backend/pii/patterns.py, with a number for each regular expression: its place in the
-- table.
use mister_pilot_proxy.Prelude.{ℕ, List, [], ◌∷◌, leb, if◌then◌else◌}
use mister_pilot_proxy.Pii.{
  EntityType, pem_key, jwt, ai_key, gh_token, aws_key, stripe_key, db_url, slack_token, gcp_key,
  http_auth, api_key, gitlab_token, service_token, generic_token, oauth_token, ssn, email, phone,
}
use mister_pilot_proxy.Pii.Pipeline.{PatternDef}

abbrev entry : EntityType → ℕ → ℕ → ℕ → PatternDef
entry entity_type pattern value_group priority = record {
  entity_type = entity_type;
  pattern = pattern;
  value_group = value_group;
  priority = priority;
}

-- As the file lists it.
abbrev pub listed : List PatternDef
listed =
    entry jwt 0 0 95
    ∷ entry pem_key 1 0 93
    ∷ entry ai_key 2 0 92
    ∷ entry ai_key 3 0 92
    ∷ entry ai_key 4 0 92
    ∷ entry gh_token 5 0 91
    ∷ entry gh_token 6 0 91
    ∷ entry aws_key 7 0 89
    ∷ entry aws_key 8 0 88
    ∷ entry aws_key 9 0 87
    ∷ entry stripe_key 10 0 88
    ∷ entry stripe_key 11 0 88
    ∷ entry db_url 12 0 85
    ∷ entry slack_token 13 0 84
    ∷ entry gcp_key 14 0 83
    ∷ entry http_auth 15 1 82
    ∷ entry api_key 16 1 80
    ∷ entry gitlab_token 17 0 79
    ∷ entry gitlab_token 18 0 79
    ∷ entry gitlab_token 19 0 79
    ∷ entry gitlab_token 20 0 79
    ∷ entry service_token 21 0 76
    ∷ entry service_token 22 0 76
    ∷ entry service_token 23 0 76
    ∷ entry service_token 24 0 76
    ∷ entry service_token 25 0 76
    ∷ entry service_token 26 0 76
    ∷ entry service_token 27 0 76
    ∷ entry service_token 28 0 76
    ∷ entry service_token 29 0 76
    ∷ entry service_token 30 0 76
    ∷ entry service_token 31 0 76
    ∷ entry service_token 32 0 76
    ∷ entry service_token 33 0 76
    ∷ entry service_token 34 0 76
    ∷ entry service_token 35 0 76
    ∷ entry generic_token 36 0 72
    ∷ entry oauth_token 37 0 70
    ∷ entry ssn 38 0 25
    ∷ entry email 39 0 20
    ∷ entry phone 40 0 10
    ∷ []

-- `sort(key=lambda p: p.priority, reverse=True)` is stable: equals stay in their order.
abbrev pub insert_pattern : PatternDef → List PatternDef → List PatternDef
insert_pattern p [] = p ∷ []
insert_pattern p (q ∷ qs) =
    let rest = insert_pattern p qs in if leb q.priority p.priority then p ∷ q ∷ qs else q ∷ rest

abbrev pub sort_patterns : List PatternDef → List PatternDef
sort_patterns [] = []
sort_patterns (p ∷ ps) = insert_pattern p (sort_patterns ps)

abbrev pub pattern_registry : List PatternDef
pattern_registry = sort_patterns listed
