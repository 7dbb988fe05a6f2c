-- ===== src/Server/Gui/Dashboard/Chart.antt =====
-- The columns of the dashboard's chart and its totals.
use proxywi.Common.{
  ℕ, zero, suc, ◌+◌, ◌*◌, ◌/◌, ◌≤◌, ◌<◌, ◌≡◌, refl, ap, ◌∙◌, inl, inr, true, false, Option, none,
  some, List, [], ◌∷◌, arith, leb, ◌==◌, if◌then◌else◌, ==_iff, Bool-cases, All,
}
use native.Mathlib.Decide.{dec_lt}
use native.Mathlib.Nat.{mul-le-mul_right}
use proxywi.Common.Map.{Map, nat_eq, get, put, get-put}
use proxywi.Storage.Metrics.{MetricPoint}
use proxywi.Storage.Metrics.Totals.{Ordered, above-All}
use proxywi.Server.Gui.Dashboard.{Column, columns, pair_of, buckets_of, total_of}

-- The points' value at a time.
abbrev pub point_at : List MetricPoint → ℕ → Option (ℕ × ℕ)
point_at [] t = none
point_at (p ∷ points) t =
    let rest = point_at points t in
    if p.bucket_ts == t then some (p.bytes_in, p.bytes_out) else rest

above-none :
    (t : ℕ) (points : List MetricPoint)
    → All (λ q. t < q.bucket_ts) points
    → point_at points t ≡ none
above-none t [] h = refl
above-none t (p ∷ points) h = ground (arith, above-none t points h.1)

abbrev pub or_else : Option (ℕ × ℕ) → Option (ℕ × ℕ) → Option (ℕ × ℕ)
or_else none o = o
or_else (some p) o = some p

pub get-buckets_of :
    (s : ℕ) (points : List MetricPoint) (m : Map ℕ (ℕ × ℕ)) (t : ℕ)
    → Ordered s points
    → get (buckets_of points m) t ≡ or_else (point_at points t) (get m t)
get-buckets_of s [] m t h = refl
get-buckets_of s (p ∷ points) m t h =
    let later = get-buckets_of s points (put m p.bucket_ts (p.bytes_in, p.bytes_out)) t h.2 in
    let here = get-put m p.bucket_ts t (p.bytes_in, p.bytes_out) in
    elim (Bool-cases (p.bucket_ts == t)) [
      | inr e ↦ later ∙ rw (here, e) refl
      | inl e ↦
          let same_time = (==_iff p.bucket_ts t).0 e in
          let alone = above-none t points (rw same_time at h.0) in later ∙ rw (here, e, alone) refl
    ]

pub columns-cong :
    (v w : ℕ → ℕ × ℕ) (bucket now fuel t : ℕ)
    → ((k : ℕ) → t ≤ k → v k ≡ w k)
    → columns v bucket now fuel t ≡ columns w bucket now fuel t
unfolding columns
columns-cong v w bucket now zero t h = refl
columns-cong v w bucket now (suc fuel) t h =
    let later = columns-cong v w bucket now fuel (t + bucket) (λ k le. h k (omega (arith, le))) in
    rw (h t (omega arith), later) refl

-- The next multiple.
next_multiple : (a c s : ℕ) → a * s < c * s → (a + 1) * s ≤ c * s
next_multiple a c s h = elim (dec_lt a c) [
  | yes lt ↦ let more : a + 1 ≤ c = omega (arith, lt) in mul-le-mul_right s more
  | no ge ↦
      let less : c ≤ a = omega (arith, ge) in
      absurd (omega (arith, h, mul-le-mul_right {m = c} {n = a} s less))
]

next_start : (a s : ℕ) → a * s + s ≡ (a + 1) * s
next_start a s = grind arith

abbrev pub Within : ℕ → ℕ → List MetricPoint → Type 0
Within low high points = All (λ p. (low ≤ p.bucket_ts) × (p.bucket_ts ≤ high)) points

abbrev pub value_at : List MetricPoint → ℕ → ℕ × ℕ
value_at points k = pair_of (point_at points k)

skip :
    (p : MetricPoint) (points : List MetricPoint) (k : ℕ)
    → p.bucket_ts < k
    → value_at (p ∷ points) k ≡ value_at points k
skip p points k lt = let apart : (p.bucket_ts == k) ≡ false = ground (arith, lt) in rw apart refl

raise :
    (a s now : ℕ) (points : List MetricPoint)
    → Ordered s points
    → All (λ q. a * s < q.bucket_ts) points
    → Within (a * s) now points
    → Within ((a + 1) * s) now points
raise a s now [] o past w = tt
raise a s now (p ∷ points) o past w =
    let above : a * s < p.bucket_ts / s * s = rw o.1 past.0 in
    let next = next_multiple a (p.bucket_ts / s) s above in
    ((omega (arith, next, o.1), omega (arith, w.0)), raise a s now points o.2 past.1 w.1)

module _ (of : ℕ × ℕ → ℕ) (zero_of : of (0, 0) ≡ 0) where
  abbrev pub sum_columns : List Column → ℕ
  sum_columns [] = 0
  sum_columns (c ∷ rest) = of c.bytes + sum_columns rest

  abbrev pub of_point : MetricPoint → ℕ
  of_point p = of (p.bytes_in, p.bytes_out)

  sum-nothing : (bucket now fuel t : ℕ) → sum_columns (columns (value_at []) bucket now fuel t) ≡ 0
  unfolding columns
  sum-nothing bucket now zero t = refl
  sum-nothing bucket now (suc fuel) t =
      ground (arith, zero_of, sum-nothing bucket now fuel (t + bucket))

  columns_step :
      (v : ℕ → ℕ × ℕ) (s now fuel t : ℕ)
      → t ≤ now
      → sum_columns (columns v s now (suc fuel) t)
        ≡ of (v t) + sum_columns (columns v s now fuel (t + s))
  unfolding columns
  columns_step v s now fuel t le = let drawn : leb t now ≡ true = ground arith in rw drawn refl

  -- The columns from the `a`-th multiple on hold what the points hold.
  pub sum-columns :
      (s now fuel a : ℕ) (points : List MetricPoint)
      → 0 < s
      → Ordered s points
      → Within (a * s) now points
      → now < a * s + fuel * s
      → sum_columns (columns (value_at points) s now fuel (a * s)) ≡ total_of of_point points
  sum-columns s now fuel a [] pos o w enough = sum-nothing s now fuel (a * s)
  sum-columns s now zero a (p ∷ points) pos o w enough = absurd (omega (arith, w.0, enough))
  sum-columns s now (suc fuel) a (p ∷ points) pos o w enough =
      let start = next_start a s in
      let left : now < (a + 1) * s + fuel * s = grind (arith, enough) in
      let step = columns_step (value_at (p ∷ points)) s now fuel (a * s) (omega (arith, w.0)) in
      elim (Bool-cases (p.bucket_ts == a * s)) [
        | inl e ↦
            let at_start = (==_iff p.bucket_ts (a * s)).0 e in
            let past = rw at_start at o.0 in
            let same_rest =
              columns-cong (value_at (p ∷ points)) (value_at points) s now fuel (a * s + s)
                (λ k le. skip p points k (omega (arith, le, at_start, pos))) in
            let ih =
              sum-columns s now fuel (a + 1) points pos o.2 (raise a s now points o.2 past w.1)
                left in
            let value : value_at (p ∷ points) (a * s) ≡ (p.bytes_in, p.bytes_out) = rw e refl in
            rw (step, value, same_rest, start, ih) refl
        | inr e ↦
            let before : a * s < p.bucket_ts = ground (arith, w.0) in
            let past : All (λ (q : MetricPoint). a * s < q.bucket_ts) (p ∷ points) =
              (before, above-All (a * s) p.bucket_ts points before o.0) in
            let nothing = above-none (a * s) (p ∷ points) past in
            let ih =
              sum-columns s now fuel (a + 1) (p ∷ points) pos o
                (raise a s now (p ∷ points) o past w) left in
            let value : value_at (p ∷ points) (a * s) ≡ (0, 0) = ap pair_of nothing in
            rw (step, value, zero_of, start, ih) (omega arith)
      ]
