-- ===== src/Complexity/Patterns/Components.antt =====
-- The components that may have to work together: _COMPONENTS of backend/services/complexity_scorer.py.
use mister_pilot_proxy.Prelude.{List, [], ◌∷◌}
use mister_pilot_proxy.Complexity.{Pattern, Family, rx}

abbrev pub frontend_words : Pattern
frontend_words = rx (
    "front-?end" ∷ "ui" ∷ "client[- ]side" ∷ "react" ∷ "vue" ∷ "angular" ∷ "svelte" ∷ "next\\.?js"
    ∷ "browser" ∷ "page" ∷ "screen" ∷ "form" ∷ [])

abbrev pub api_layer_words : Pattern
api_layer_words = rx (
    "back-?end" ∷ "api" ∷ "endpoints?" ∷ "controllers?" ∷ "routes?" ∷ "handlers?" ∷ "rest"
    ∷ "graphql" ∷ "grpc" ∷ "server" ∷ [])

abbrev pub service_layer_words : Pattern
service_layer_words = rx (
    "service (?:layer|class)" ∷ "business logic" ∷ "domain (?:layer|logic)" ∷ "use[- ]cases?"
    ∷ "(?<!micro)services?" ∷ [])

abbrev pub database_words : Pattern
database_words = rx (
    "database" ∷ "db" ∷ "sql" ∷ "postgres\\w*" ∷ "mysql" ∷ "sqlite" ∷ "mongo\\w*" ∷ "dynamo\\w*"
    ∷ "schema" ∷ "tables?" ∷ "orm" ∷ "prisma" ∷ "migrations?" ∷ "persist\\w*" ∷ "storage layer"
    ∷ [])

abbrev pub cache_words : Pattern
cache_words = rx ("cach(?:e|es|ing)" ∷ "redis" ∷ "memcached?" ∷ [])

abbrev pub queue_words : Pattern
queue_words = rx (
    "queues?" ∷ "kafka" ∷ "rabbit ?mq" ∷ "sqs" ∷ "pub ?/ ?sub" ∷ "event bus" ∷ "message broker"
    ∷ "background (?:jobs?|workers?)" ∷ "cron" ∷ "scheduler" ∷ [])

abbrev pub auth_words : Pattern
auth_words = rx (
    "auth(?!or)\\w*" ∷ "log ?in" ∷ "sign ?in" ∷ "oauth\\s?2?" ∷ "sso" ∷ "jwts?" ∷ "sessions?"
    ∷ "permissions?" ∷ "rbac" ∷ [])

abbrev pub external_service_words : Pattern
external_service_words = rx (
    "third[- ]party" ∷ "external (?:api|service)" ∷ "webhooks?" ∷ "oauth\\s?2?" ∷ "openid"
    ∷ "stripe" ∷ "paypal" ∷ "twilio" ∷ "sendgrid" ∷ "payment (?:gateway|provider)" ∷ "payments?"
    ∷ "identity provider" ∷ "s3" ∷ "openai" ∷ "slack" ∷ "github api" ∷ [])

abbrev pub file_storage_words : Pattern
file_storage_words = rx ("uploads?" ∷ "file storage" ∷ "blob" ∷ "object storage" ∷ "s3" ∷ [])

abbrev pub search_words : Pattern
search_words =
    rx
      ("elastic ?search" ∷ "open ?search" ∷ "search index" ∷ "full[- ]text search" ∷ "algolia" ∷ [])

abbrev pub notifications_words : Pattern
notifications_words = rx ("email\\w*" ∷ "sms" ∷ "push notifications?" ∷ "notifications?" ∷ [])

abbrev pub infrastructure_words : Pattern
infrastructure_words = rx (
    "docker\\w*" ∷ "kubernetes" ∷ "k8s" ∷ "terraform" ∷ "helm" ∷ "ci ?/ ?cd" ∷ "load balanc\\w+"
    ∷ "cdn" ∷ "nginx" ∷ "deploy\\w*" ∷ [])

abbrev pub observability_words : Pattern
observability_words =
    rx ("logging" ∷ "metrics" ∷ "tracing" ∷ "monitoring" ∷ "telemetry" ∷ "alerting" ∷ [])

abbrev pub component_families : List Family
component_families =
    record { name = "frontend"; pattern = frontend_words }
    ∷ record { name = "api_layer"; pattern = api_layer_words }
    ∷ record { name = "service_layer"; pattern = service_layer_words }
    ∷ record { name = "database"; pattern = database_words }
    ∷ record { name = "cache"; pattern = cache_words }
    ∷ record { name = "queue"; pattern = queue_words }
    ∷ record { name = "auth"; pattern = auth_words }
    ∷ record { name = "external_service"; pattern = external_service_words }
    ∷ record { name = "file_storage"; pattern = file_storage_words }
    ∷ record { name = "search"; pattern = search_words }
    ∷ record { name = "notifications"; pattern = notifications_words }
    ∷ record { name = "infrastructure"; pattern = infrastructure_words }
    ∷ record { name = "observability"; pattern = observability_words }
    ∷ []
