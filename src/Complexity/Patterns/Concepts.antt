-- ===== src/Complexity/Patterns/Concepts.antt =====
-- The architectural concepts: _ARCH_CONCEPTS of backend/services/complexity_scorer.py.
use mister_pilot_proxy.Prelude.{List, [], ◌∷◌}
use mister_pilot_proxy.Complexity.{Pattern, Family, rx}

abbrev pub scalability_words : Pattern
scalability_words = rx (
    "scalab(?:le|ility)" ∷ "scaling" ∷ "(?:to|at|will|must|should) scale"
    ∷ "scale (?:up|out|horizontally|to \\d\\w*)" ∷ "horizontal(?:ly)? scal\\w+"
    ∷ "high (?:traffic|load|throughput)"
    ∷ "\\d[\\d,.]*\\s*(?:k|m|b|thousand|million|billion)\\+?\\s+(?:users|requests|rps|qps|tps|transactions|events|messages|customers)"
    ∷ "(?:millions|billions) of" ∷ [])

abbrev pub microservices_words : Pattern
microservices_words = rx ("micro-?services?" ∷ "service mesh" ∷ "service boundar\\w+" ∷ [])

abbrev pub distributed_systems_words : Pattern
distributed_systems_words = rx (
    "distributed" ∷ "consensus" ∷ "raft" ∷ "paxos" ∷ "multi[- ]region"
    ∷ "eventual(?:ly)? consisten\\w+" ∷ "partition toleran\\w+" ∷ "cap theorem" ∷ [])

abbrev pub event_driven_words : Pattern
event_driven_words = rx (
    "event[- ]driven" ∷ "event bus" ∷ "pub ?/ ?sub" ∷ "publish[- ]subscribe" ∷ "webhooks?"
    ∷ "event stream\\w*" ∷ [])

abbrev pub caching_words : Pattern
caching_words = rx ("cach(?:e|es|ing|ed)" ∷ "redis" ∷ "memcached?" ∷ "cdn" ∷ [])

abbrev pub cqrs_event_sourcing_words : Pattern
cqrs_event_sourcing_words = rx ("cqrs" ∷ "event sourcing" ∷ "event store" ∷ [])

abbrev pub messaging_words : Pattern
messaging_words = rx (
    "kafka" ∷ "rabbit ?mq" ∷ "sqs" ∷ "sns" ∷ "nats" ∷ "pulsar" ∷ "message (?:queue|broker)"
    ∷ "queues?" ∷ "background (?:jobs?|workers?)" ∷ [])

abbrev pub sharding_words : Pattern
sharding_words = rx ("shard\\w*" ∷ "partition(?:ing|ed)? (?:the )?(?:data|table|db|database)" ∷ [])

abbrev pub replication_words : Pattern
replication_words = rx ("replica\\w*" ∷ "read replicas?" ∷ "failover" ∷ "leader election" ∷ [])

abbrev pub high_availability_words : Pattern
high_availability_words = rx (
    "high(?:ly)? availab\\w+" ∷ "fault[- ]toleran\\w+" ∷ "zero[- ]downtime" ∷ "disaster recovery"
    ∷ "redundan\\w+" ∷ "\\bsla\\b" ∷ "99\\.9+" ∷ [])

abbrev pub transactions_words : Pattern
transactions_words = rx (
    "distributed transactions?" ∷ "sagas?" ∷ "two[- ]phase commit" ∷ "2pc" ∷ "idempoten\\w+"
    ∷ "exactly[- ]once" ∷ "outbox" ∷ [])

abbrev pub migration_words : Pattern
migration_words = rx (
    "(?:data|database|schema|zero[- ]downtime) migrations?"
    ∷ "migrat(?:e|ing|ion) (?:from|off|to) \\w+" ∷ "backfill\\w*" ∷ [])

abbrev pub concurrency_words : Pattern
concurrency_words = rx (
    "concurren\\w+" ∷ "race conditions?" ∷ "deadlocks?" ∷ "locking" ∷ "mutex\\w*"
    ∷ "thread[- ]safe\\w*" ∷ "parallel(?:ism|ize)?" ∷ "async(?:io)? (?:race|ordering)" ∷ [])

abbrev pub arch_concepts : List Family
arch_concepts =
    record { name = "scalability"; pattern = scalability_words }
    ∷ record { name = "microservices"; pattern = microservices_words }
    ∷ record { name = "distributed_systems"; pattern = distributed_systems_words }
    ∷ record { name = "event_driven"; pattern = event_driven_words }
    ∷ record { name = "caching"; pattern = caching_words }
    ∷ record { name = "cqrs_event_sourcing"; pattern = cqrs_event_sourcing_words }
    ∷ record { name = "messaging"; pattern = messaging_words }
    ∷ record { name = "sharding"; pattern = sharding_words }
    ∷ record { name = "replication"; pattern = replication_words }
    ∷ record { name = "high_availability"; pattern = high_availability_words }
    ∷ record { name = "transactions"; pattern = transactions_words }
    ∷ record { name = "migration"; pattern = migration_words }
    ∷ record { name = "concurrency"; pattern = concurrency_words }
    ∷ []
