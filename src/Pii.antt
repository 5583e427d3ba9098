-- ===== src/Pii.antt =====
-- backend/pii: what is redacted, the store of placeholders, and the pipeline.
pub mod Store
pub mod Pseudonymizer
pub mod Mappings
pub mod Pipeline
pub mod Registry
pub mod Redact
pub mod FileStore
pub mod DatabaseStore
pub mod Metrics
use mister_pilot_proxy.Prelude.{String, ℕ}

-- `EntityType` of patterns.py, in its order.
pub data EntityType : Type 0 where
  pem_key jwt ai_key gh_token aws_key stripe_key db_url slack_token gcp_key http_auth : EntityType
  api_key gitlab_token service_token generic_token oauth_token ssn email phone : EntityType

-- `entity_type.value`
abbrev pub value : EntityType → String
value pem_key = "PEM_KEY"
value jwt = "JWT"
value ai_key = "AI_KEY"
value gh_token = "GH_TOKEN"
value aws_key = "AWS_KEY"
value stripe_key = "STRIPE_KEY"
value db_url = "DB_URL"
value slack_token = "SLACK_TOKEN"
value gcp_key = "GCP_KEY"
value http_auth = "HTTP_AUTH"
value api_key = "API_KEY"
value gitlab_token = "GITLAB_TOKEN"
value service_token = "SERVICE_TOKEN"
value generic_token = "GENERIC_TOKEN"
value oauth_token = "OAUTH_TOKEN"
value ssn = "SSN"
value email = "EMAIL"
value phone = "PHONE"
