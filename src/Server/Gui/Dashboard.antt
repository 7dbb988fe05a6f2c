-- ===== src/Server/Gui/Dashboard.antt =====
-- internal/server/gui/handlers.go: `getDashboard`. Times are in seconds since 1970, which lies a
-- whole number of days after Go's zero time; labels and units of the page are its template's.
pub mod Chart
pub mod Shown
use proxywi.Common.{
  ℕ, zero, suc, ◌+◌, ◌-◌, ◌*◌, ◌/◌, ◌%◌, Option, none, some, List, [], ◌∷◌, leb, if◌then◌else◌,
  length, first, Bytes, codes, same,
}
use proxywi.Common.Map.{Map, nat_eq, get, put}
use proxywi.Storage.Rows.{Db}
use proxywi.Storage.Clients.{list_clients}
use proxywi.Storage.Metrics.{MetricPoint, MetricsFilter, metrics}
use proxywi.Server.Registry.{Registry, online}
use proxywi.Server.State.{Server}
use proxywi.Server.Gui.View.{listed, admin_name}

pub record Period : Type 0 where
  pub duration : ℕ
  pub bucket : ℕ
  pub label_key : Bytes

abbrev pub hours : ℕ → ℕ
hours n = n * 3_600

-- periodDefs
abbrev pub period_defs : List (Bytes × Period)
period_defs =
    (
      codes "1h",
      record { duration = hours 1; bucket = 60; label_key = codes "dashboard.period_1h" },
    )
    ∷ (
      codes "6h",
      record { duration = hours 6; bucket = 300; label_key = codes "dashboard.period_6h" },
    )
    ∷ (
      codes "24h",
      record { duration = hours 24; bucket = 900; label_key = codes "dashboard.period_24h" },
    )
    ∷ (
      codes "7d",
      record { duration = hours 168; bucket = 3_600; label_key = codes "dashboard.period_7d" },
    )
    ∷ (
      codes "30d",
      record { duration = hours 720; bucket = 21_600; label_key = codes "dashboard.period_30d" },
    )
    ∷ []

abbrev pub hour : Bytes × Period
hour = (
  codes "1h",
  record { duration = hours 1; bucket = 60; label_key = codes "dashboard.period_1h" },
)

abbrev pub or_hour : Option (Bytes × Period) → Bytes × Period
or_hour none = hour
or_hour (some p) = p

-- The period of a key, that of one hour for a key that is none.
unfoldable pub period_of : Bytes → Bytes × Period
period_of key = or_hour (first (λ p. same p.0 key) period_defs)

-- The map of the samples by their bucket, on top of `m`.
abbrev pub buckets_of : List MetricPoint → Map ℕ (ℕ × ℕ) → Map ℕ (ℕ × ℕ)
buckets_of [] m = m
buckets_of (p ∷ points) m = buckets_of points (put m p.bucket_ts (p.bytes_in, p.bytes_out))

-- The zero value for a key that is missing.
abbrev pub pair_of : Option (ℕ × ℕ) → ℕ × ℕ
pair_of none = (0, 0)
pair_of (some p) = p

-- A column of the chart: its time, and the bytes in and out.
pub record Column : Type 0 where
  pub time : ℕ
  pub bytes : ℕ × ℕ

-- for t := …; !t.After(now); t = t.Add(bucket)
unfoldable pub columns : (ℕ → ℕ × ℕ) → ℕ → ℕ → ℕ → ℕ → List Column
columns value bucket now zero t = []
columns value bucket now (suc fuel) t =
    let rest = columns value bucket now fuel (t + bucket) in
    if leb t now then record { time = t; bytes = value t } ∷ rest else []

-- The first column is at `since.Truncate(p.bucket)`.
unfoldable pub chart : Period → List MetricPoint → ℕ → ℕ → List Column
unfolding columns
chart p samples since now =
    let start = since - since % p.bucket in
    columns (λ t. pair_of (get (buckets_of samples []) t)) p.bucket now
      ((now - start) / p.bucket + 1) start

abbrev pub total_of : (MetricPoint → ℕ) → List MetricPoint → ℕ
total_of bytes [] = 0
total_of bytes (p ∷ points) = bytes p + total_of bytes points

pub record DashboardPage : Type 0 where
  pub user : Bytes
  pub online_count : ℕ
  pub total_clients : ℕ
  pub bytes_in : ℕ
  pub bytes_out : ℕ
  pub period : Bytes
  pub period_label : Bytes
  pub columns_shown : List Column

-- The three readings of the clock: for `since`, in `Metrics`, and in the loop.
pub record Clock : Type 0 where
  pub asked : ℕ
  pub queried : ℕ
  pub drawn : ℕ

abbrev pub filter_of : Period → ℕ → MetricsFilter
filter_of p since = record {
  since = since;
  until = none;
  client_id = 0;
  client_ids = [];
  bucket_seconds = p.bucket;
}

unfoldable pub get_dashboard : ℕ → Bytes → Clock → Server → DashboardPage × Server
unfolding period_of chart
get_dashboard admin key clock s =
    let (period_key, p) = period_of key in
    let (clients, db') = list_clients s.db in
    let since = clock.asked - p.duration in
    let (r, db'') = metrics (filter_of p since) clock.queried db' in
    let samples = listed r in
    let (user, after) = admin_name admin db'' in
    (
      record {
        user = user;
        online_count = length (online s.registry);
        total_clients = length (listed clients);
        bytes_in = total_of (λ q. q.bytes_in) samples;
        bytes_out = total_of (λ q. q.bytes_out) samples;
        period = period_key;
        period_label = p.label_key;
        columns_shown = chart p samples since clock.drawn;
      },
      record s { db = after },
    )
