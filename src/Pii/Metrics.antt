-- ===== src/Pii/Metrics.antt =====
-- backend/pii/metrics.py: the counters of the pipeline and its latencies. The lock makes each call
-- one step; a latency is in whole units.
use mathlib.Core.List.{[], ◌∷◌}
use mister_pilot_proxy.Prelude.{
  ℕ, ◌+◌, ◌-◌, ◌*◌, ◌/◌, List, ◌++◌, ltb, leb, length, drop, get_or, if◌then◌else◌,
}

pub record Metrics : Type 0 where
  pub requests_total : ℕ
  pub findings_total : ℕ
  pub redacted_requests : ℕ
  pub errors_total : ℕ
  pub latencies_ms : List ℕ

abbrev pub max_latency_samples : ℕ
max_latency_samples = 2000

unfoldable pub record_redaction : Metrics → ℕ → Metrics
record_redaction metrics n_findings = record metrics {
  requests_total = metrics.requests_total + 1;
  findings_total = metrics.findings_total + n_findings;
  redacted_requests =
      if ltb 0 n_findings then metrics.redacted_requests + 1 else metrics.redacted_requests;
}

unfoldable pub record_error : Metrics → Metrics
record_error metrics = record metrics { errors_total = metrics.errors_total + 1 }

-- The oldest half is dropped once there are too many.
abbrev pub bounded : List ℕ → List ℕ
bounded latencies =
    if ltb max_latency_samples (length latencies)
    then drop (max_latency_samples / 2) latencies
    else latencies

unfoldable pub record_latency_ms : Metrics → ℕ → Metrics
record_latency_ms metrics ms = record metrics {
  latencies_ms = bounded (metrics.latencies_ms ++ ms ∷ []);
}

abbrev pub insert_latency : ℕ → List ℕ → List ℕ
insert_latency x [] = x ∷ []
insert_latency x (y ∷ ys) =
    let rest = insert_latency x ys in if leb x y then x ∷ y ∷ ys else y ∷ rest

abbrev pub sort_latencies : List ℕ → List ℕ
sort_latencies [] = []
sort_latencies (x ∷ xs) = insert_latency x (sort_latencies xs)

-- `max(0, int(len(s) * p / 100) - 1)`, and 0 where there are none
unfoldable pub percentile_ms : Metrics → ℕ → ℕ
percentile_ms metrics p =
    get_or (sort_latencies metrics.latencies_ms) (length metrics.latencies_ms * p / 100 - 1) 0

pub record Snapshot : Type 0 where
  pub requests_total : ℕ
  pub findings_total : ℕ
  pub redacted_requests : ℕ
  pub errors_total : ℕ
  pub p50_latency_ms : ℕ
  pub p95_latency_ms : ℕ
  pub p99_latency_ms : ℕ
  pub store_size : ℕ

unfoldable pub snapshot : Metrics → ℕ → Snapshot
snapshot metrics store_size = record {
  requests_total = metrics.requests_total;
  findings_total = metrics.findings_total;
  redacted_requests = metrics.redacted_requests;
  errors_total = metrics.errors_total;
  p50_latency_ms = percentile_ms metrics 50;
  p95_latency_ms = percentile_ms metrics 95;
  p99_latency_ms = percentile_ms metrics 99;
  store_size = store_size;
}
