-- ===== src/Server/Gui/Dashboard/Shown.antt =====
-- The chart of the dashboard shows what its totals add up.
use proxywi.Common.{
  ℕ, ◌+◌, ◌-◌, ◌*◌, ◌/◌, ◌%◌, ◌≤◌, ◌<◌, ◌≡◌, refl, sym, ap, ◌∙◌, inl, inr, Bool, false, Option,
  none, some, List, [], ◌∷◌, arith, ◌==◌, Bool-cases, Option-cases, keep, first, All, Bytes, same,
}
use native.Mathlib.Nat.{div-add-mod}
use proxywi.Common.Map.{nat_eq, get}
use proxywi.Storage.Rows.{Db, MetricSample}
use proxywi.Storage.Query.{query, next_fault}
use proxywi.Storage.Clients.{list_clients}
use proxywi.Storage.Metrics.{MetricPoint, metrics, selects, group}
use proxywi.Storage.Metrics.Totals.{Ordered, group-Ordered, add_point-All}
use proxywi.Server.State.{Server}
use proxywi.Server.Gui.View.{listed}
use proxywi.Server.Gui.Dashboard.{
  Period, Clock, period_of, period_defs, chart, filter_of, get_dashboard, total_of, buckets_of,
  pair_of,
}
use proxywi.Server.Gui.Dashboard.Chart.{
  sum_columns, sum-columns, columns-cong, or_else, point_at, value_at, get-buckets_of, Within,
  of_point,
}

group-All :
    (P : ℕ → Type 0) (s : ℕ) (samples : List MetricSample)
    → All (λ m. P (m.bucket_ts / s * s)) samples
    → All (λ q. P q.bucket_ts) (group s samples)
unfolding group
group-All P s [] h = tt
group-All P s (m ∷ samples) h =
    add_point-All P (m.bucket_ts / s * s) m (group s samples) h.0 (group-All P s samples h.1)

start_eq : (t s : ℕ) → t - t % s ≡ t / s * s
start_eq t s = grind (arith, div-add-mod t s)

start_below : (since t s : ℕ) → 0 < s → since ≤ t → since / s * s ≤ t / s * s
start_below since t s pos h = grind arith

start_le : (t s : ℕ) → t / s * s ≤ t
start_le t s = grind arith

last_column : (now start s : ℕ) → 0 < s → now < start + ((now - start) / s + 1) * s
last_column now start s pos = grind (arith, div-add-mod (now - start) s)

-- What the query selects lies between `since` and the clock.
selected-Within :
    (p : Period) (since now drawn : ℕ) (samples : List MetricSample)
    → 0 < p.bucket
    → now ≤ drawn
    → All
        (λ m.
          (since / p.bucket * p.bucket ≤ m.bucket_ts / p.bucket * p.bucket)
          × (m.bucket_ts / p.bucket * p.bucket ≤ drawn))
        (keep (selects (filter_of p since) now) samples)
unfolding selects
selected-Within p since now drawn [] pos le = tt
selected-Within p since now drawn (m ∷ samples) pos le =
    elim (Bool-cases (selects (filter_of p since) now m)) [
      | inr e ↦ rw e (selected-Within p since now drawn samples pos le)
      | inl e ↦
          let low : since ≤ m.bucket_ts = ground arith in
          let high : m.bucket_ts < now = ground arith in
          let below = start_below since m.bucket_ts p.bucket pos low in
          rw e (
            (below, omega (arith, high, le, start_le m.bucket_ts p.bucket)),
            selected-Within p since now drawn samples pos le,
          )
    ]

or_else-none : (o : Option (ℕ × ℕ)) → or_else o none ≡ o
or_else-none none = refl
or_else-none (some p) = refl

module _ (of : ℕ × ℕ → ℕ) (zero_of : of (0, 0) ≡ 0) where
  chart-total :
      (p : Period) (points : List MetricPoint) (since now : ℕ)
      → 0 < p.bucket
      → Ordered p.bucket points
      → Within (since / p.bucket * p.bucket) now points
      → sum_columns of zero_of (chart p points since now) ≡ total_of (of_point of zero_of) points
  unfolding chart get
  chart-total p points since now pos o w =
      let s = p.bucket in
      let a = since / s in
      let start = start_eq since s in
      let fuel = (now - a * s) / s + 1 in
      let same_values =
        columns-cong (λ t. pair_of (get (buckets_of points []) t)) (value_at points) s now fuel
          (a * s)
          (λ k le.
            ap pair_of (get-buckets_of s points [] k o ∙ or_else-none (point_at points k))) in
      rw start (
        rw same_values
          (sum-columns of zero_of s now fuel a points pos o w (last_column now (a * s) s pos)))

-- The samples of the page: none, where the driver fails, or the grouped rows.
metrics_lem :
    (P : List MetricPoint → Type 0) (p : Period) (since now : ℕ) (db : Db)
    → 0 < p.bucket
    → P []
    → P (group p.bucket (keep (selects (filter_of p since) now) db.metric_samples))
    → P (listed (metrics (filter_of p since) now db).0)
unfolding metrics query
metrics_lem P p since now db pos nothing rows =
    let given : (p.bucket == 0) ≡ false = ground (arith, pos) in
    elim (Bool-cases (next_fault db)) [ inl e ↦ rw e nothing | inr e ↦ rw (given, e) rows ]

first-All :
    {A : Type 0} (P : A → Type 0) (q : A → Bool) (l : List A) (a : A)
    → All P l
    → first q l ≡ some a
    → P a
first-All P q [] a h e = absurd cc
first-All P q (b ∷ l) a h e = elim (Bool-cases (q b)) [
  | inl f ↦ let here : b ≡ a = cc (rw f at e) in rw (sym here) h.0
  | inr f ↦ first-All P q l a h.1 (rw f at e)
]

bucket_pos : (key : Bytes) → 0 < (period_of key).1.bucket
unfolding period_of
bucket_pos key = elim (Option-cases (first (λ p. same p.0 key) period_defs)) [
  | inl e ↦ rw e (omega arith)
  | inr (p, e) ↦ rw e (
      first-All (λ q. 0 < q.1.bucket) (λ q. same q.0 key) period_defs p
        (omega arith, (omega arith, (omega arith, (omega arith, (omega arith, tt))))) e)
]

-- Whatever the driver does: the columns of the chart add up to the totals of the page, so that no
-- point of the period lies beside the chart or is shown twice. The clock does not go back between
-- the query and the drawing of the chart.
pub get_dashboard-totals :
    (admin : ℕ) (key : Bytes) (clock : Clock) (s : Server)
    → clock.queried ≤ clock.drawn
    → let page = (get_dashboard admin key clock s).0 in
      (sum_columns (λ b. b.0) refl page.columns_shown ≡ page.bytes_in)
      × (sum_columns (λ b. b.1) refl page.columns_shown ≡ page.bytes_out)
unfolding get_dashboard
get_dashboard-totals admin key clock s le =
    let p = (period_of key).1 in
    let since = clock.asked - p.duration in
    let pos = bucket_pos key in
    let rows =
      keep (selects (filter_of p since) clock.queried) (list_clients s.db).1.metric_samples in
    let low = since / p.bucket * p.bucket in
    let within =
      group-All (λ b. (low ≤ b) × (b ≤ clock.drawn)) p.bucket rows
        (selected-Within p since clock.queried clock.drawn (list_clients s.db).1.metric_samples pos
          le) in
    let ordered = group-Ordered p.bucket rows in
    metrics_lem
      (λ points.
        (sum_columns (λ b. b.0) refl (chart p points since clock.drawn)
          ≡ total_of (λ q. q.bytes_in) points)
        × (sum_columns (λ b. b.1) refl (chart p points since clock.drawn)
            ≡ total_of (λ q. q.bytes_out) points))
      p since clock.queried (list_clients s.db).1 pos
      (
        chart-total (λ b. b.0) refl p [] since clock.drawn pos tt tt,
        chart-total (λ b. b.1) refl p [] since clock.drawn pos tt tt,
      )
      (
        chart-total (λ b. b.0) refl p (group p.bucket rows) since clock.drawn pos ordered within,
        chart-total (λ b. b.1) refl p (group p.bucket rows) since clock.drawn pos ordered within,
      )
