-- ===== src/Storage/Metrics/Totals.antt =====
-- Sums of bytes: what is added to `metric_samples`, and what the dashboard reads.
use proxywi.Common.{
  ℕ, ◌+◌, ◌*◌, ◌/◌, ◌<◌, ◌≡◌, refl, inl, inr, List, [], ◌∷◌, arith, ltb, ◌==◌, if◌then◌else◌,
  ltb→lt, Bool-cases, keep, All,
}
use proxywi.Storage.Rows.{MetricSample}
use proxywi.Storage.Metrics.{MetricPoint, upsert, same_bucket, add_point, group}

abbrev pub sum_in : List MetricSample → ℕ
sum_in [] = 0
sum_in (m ∷ samples) = m.bytes_in + sum_in samples

abbrev pub sum_out : List MetricSample → ℕ
sum_out [] = 0
sum_out (m ∷ samples) = m.bytes_out + sum_out samples

abbrev pub points_in : List MetricPoint → ℕ
points_in [] = 0
points_in (p ∷ points) = p.bytes_in + points_in points

abbrev pub points_out : List MetricPoint → ℕ
points_out [] = 0
points_out (p ∷ points) = p.bytes_out + points_out points

add_point_totals :
    (b : ℕ) (m : MetricSample) (points : List MetricPoint)
    → (points_in (add_point b m points) ≡ m.bytes_in + points_in points)
      × (points_out (add_point b m points) ≡ m.bytes_out + points_out points)
unfolding add_point
add_point_totals b m [] = (refl, refl)
add_point_totals b m (p ∷ points) = ground (arith, add_point_totals b m points)

-- Grouping neither loses nor repeats bytes: the points add up to the samples.
pub group_totals :
    (s : ℕ) (samples : List MetricSample)
    → (points_in (group s samples) ≡ sum_in samples)
      × (points_out (group s samples) ≡ sum_out samples)
unfolding group
group_totals s [] = (refl, refl)
group_totals s (m ∷ samples) =
    let more = add_point_totals (m.bucket_ts / s * s) m (group s samples) in
    omega (arith, more, group_totals s samples)

-- The points stand in ascending order of their buckets, each bucket once, and a bucket starts at a
-- multiple of the bucket length.
abbrev pub Ordered : ℕ → List MetricPoint → Type 0
Ordered s [] = Unit
Ordered s (p ∷ points) =
    All (λ q. p.bucket_ts < q.bucket_ts) points
    × (p.bucket_ts / s * s ≡ p.bucket_ts)
    × Ordered s points

pub add_point-All :
    (P : ℕ → Type 0) (b : ℕ) (m : MetricSample) (points : List MetricPoint)
    → P b
    → All (λ q. P q.bucket_ts) points
    → All (λ q. P q.bucket_ts) (add_point b m points)
unfolding add_point
add_point-All P b m [] p h = (p, tt)
add_point-All P b m (q ∷ points) p h = elim (Bool-cases (ltb b q.bucket_ts)) [
  | inl e ↦ rw e (p, h)
  | inr e ↦ elim (Bool-cases (b == q.bucket_ts)) [
    | inl d ↦ rw (e, d) h
    | inr d ↦ rw (e, d) (h.0, add_point-All P b m points p h.1)
  ]
]

pub above-All :
    (b c : ℕ) (points : List MetricPoint)
    → b < c
    → All (λ q. c < q.bucket_ts) points
    → All (λ q. b < q.bucket_ts) points
above-All b c [] lt h = tt
above-All b c (q ∷ points) lt h = (omega (arith, lt, h.0), above-All b c points lt h.1)

add_point-Ordered :
    (s b : ℕ) (m : MetricSample) (points : List MetricPoint)
    → b / s * s ≡ b
    → Ordered s points
    → Ordered s (add_point b m points)
unfolding add_point
add_point-Ordered s b m [] e h = (tt, e, tt)
add_point-Ordered s b m (q ∷ points) e h = elim (Bool-cases (ltb b q.bucket_ts)) [
  | inl lt ↦
      rw lt ((ltb→lt b q.bucket_ts lt, above-All b q.bucket_ts points (ltb→lt b _ lt) h.0), e, h)
  | inr ge ↦ elim (Bool-cases (b == q.bucket_ts)) [
    | inl d ↦ rw (ge, d) h
    | inr d ↦
        rw (ge, d)
          (
            add_point-All (λ t. q.bucket_ts < t) b m points (ground arith) h.0,
            h.1,
            add_point-Ordered s b m points e h.2,
          )
  ]
]

bucket_start : (t s : ℕ) → t / s * s / s * s ≡ t / s * s
bucket_start t s = grind arith

-- `Metrics` gives each bucket one point, in ascending order, at a multiple of the bucket length.
pub group-Ordered : (s : ℕ) (samples : List MetricSample) → Ordered s (group s samples)
unfolding group
group-Ordered s [] = tt
group-Ordered s (m ∷ samples) =
    add_point-Ordered s (m.bucket_ts / s * s) m (group s samples) (bucket_start m.bucket_ts s)
      (group-Ordered s samples)

-- The bytes that the samples hold for a client and a time.
abbrev pub bucket_in : ℕ → ℕ → List MetricSample → ℕ
bucket_in client_id ts samples = sum_in (keep (same_bucket client_id ts) samples)

-- An upsert adds its bytes to the bucket of its client and leaves every other bucket alone.
pub upsert_totals :
    (n : MetricSample) (samples : List MetricSample) (client_id ts : ℕ)
    → bucket_in client_id ts (upsert n samples)
      ≡ (if same_bucket client_id ts n then n.bytes_in else 0) + bucket_in client_id ts samples
unfolding upsert
upsert_totals n [] client_id ts = ground arith
upsert_totals n (m ∷ samples) client_id ts = ground (arith, upsert_totals n samples client_id ts)
