-- ===== src/Storage/Metrics.antt =====
-- The table `metric_samples`: `AddMetricSample` and `Metrics` of storage.go.
pub mod Totals
use proxywi.Common.{
  ℕ, ◌+◌, ◌-◌, ◌*◌, ◌/◌, ◌%◌, Bool, true, ◌&&◌, Option, none, some, List, [], ◌∷◌, ltb, leb, ◌==◌,
  if◌then◌else◌, length, keep, any,
}
use proxywi.Storage.Rows.{Db, MetricSample}
use proxywi.Storage.Query.{Query, query, exec}

-- bucket.Truncate(time.Minute).Unix(); Go's zero time lies a whole number of minutes before 1970.
abbrev pub minute_of : ℕ → ℕ
minute_of t = t - t % 60

abbrev pub same_bucket : ℕ → ℕ → MetricSample → Bool
same_bucket client_id ts m = m.client_id == client_id && m.bucket_ts == ts

-- INSERT … ON CONFLICT(client_id, bucket_ts) DO UPDATE
unfoldable pub upsert : MetricSample → List MetricSample → List MetricSample
upsert s [] = s ∷ []
upsert s (m ∷ samples) =
    let rest = upsert s samples in
    if same_bucket s.client_id s.bucket_ts m
    then record m {
      bytes_in = m.bytes_in + s.bytes_in;
      bytes_out = m.bytes_out + s.bytes_out;
      active_conns = s.active_conns;
    }
      ∷ samples
    else m ∷ rest

unfoldable pub add_metric_sample : ℕ → ℕ → ℕ → ℕ → ℕ → Query (Unit {0})
unfolding exec upsert
add_metric_sample client_id bucket bytes_in bytes_out active_conns = exec (λ db. some (
  tt,
  record db {
    metric_samples =
        upsert
          (record {
            client_id = client_id;
            bucket_ts = minute_of bucket;
            bytes_in = bytes_in;
            bytes_out = bytes_out;
            active_conns = active_conns;
          })
          db.metric_samples;
  },
))

pub record MetricPoint : Type 0 where
  pub bucket_ts : ℕ
  pub bytes_in : ℕ
  pub bytes_out : ℕ
  pub active_conns : ℕ

-- `until` is none for the zero time.
pub record MetricsFilter : Type 0 where
  pub since : ℕ
  pub until : Option ℕ
  pub client_id : ℕ
  pub client_ids : List ℕ
  pub bucket_seconds : ℕ

abbrev pub until_or : Option ℕ → ℕ → ℕ
until_or none now = now
until_or (some t) now = t

-- The WHERE clause.
unfoldable pub selects : MetricsFilter → ℕ → MetricSample → Bool
selects f now m =
    leb f.since m.bucket_ts
    && ltb m.bucket_ts (until_or f.until now)
    && (if ltb 0 f.client_id
        then m.client_id == f.client_id
        else if ltb 0 (length f.client_ids)
        then any (λ id. m.client_id == id) f.client_ids
        else true)

-- GROUP BY b ORDER BY b, with SUM, SUM and MAX: the points stand in the order of their buckets.
unfoldable pub add_point : ℕ → MetricSample → List MetricPoint → List MetricPoint
add_point b m [] =
    record {
      bucket_ts = b;
      bytes_in = m.bytes_in;
      bytes_out = m.bytes_out;
      active_conns = m.active_conns;
    }
    ∷ []
add_point b m (p ∷ points) =
    let rest = add_point b m points in
    if ltb b p.bucket_ts
    then record {
      bucket_ts = b;
      bytes_in = m.bytes_in;
      bytes_out = m.bytes_out;
      active_conns = m.active_conns;
    }
      ∷ p
      ∷ points
    else if b == p.bucket_ts
    then record p {
      bytes_in = p.bytes_in + m.bytes_in;
      bytes_out = p.bytes_out + m.bytes_out;
      active_conns = if ltb p.active_conns m.active_conns then m.active_conns else p.active_conns;
    }
      ∷ points
    else p ∷ rest

unfoldable pub group : ℕ → List MetricSample → List MetricPoint
unfolding add_point
group s [] = []
group s (m ∷ samples) = add_point (m.bucket_ts / s * s) m (group s samples)

unfoldable pub metrics : MetricsFilter → ℕ → Query (List MetricPoint)
unfolding query selects group
metrics f now =
    let s = if f.bucket_seconds == 0 then 60 else f.bucket_seconds in
    query (λ db. group s (keep (selects f now) db.metric_samples))

unfoldable pub recent_metrics : ℕ → ℕ → Query (List MetricPoint)
unfolding metrics
recent_metrics since now =
    metrics
      (record { since = since; until = none; client_id = 0; client_ids = []; bucket_seconds = 0 })
      now
