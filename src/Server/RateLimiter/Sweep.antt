-- ===== src/Server/RateLimiter/Sweep.antt =====
-- The goroutine of ratelimit.go that forgets old buckets, and bursts on one key.
use proxywi.Common.{
  ℕ, ◌+◌, ◌-◌, ◌*◌, ◌≤◌, ◌<◌, ◌≡◌, refl, inl, inr, Option, none, some, List, [], ◌∷◌, arith, ltb,
  leb, if◌then◌else◌, Bool-cases, Option-cases, length, All, Bytes, same_refl, same_iff,
}
use Prim.Native.Nat.{min}
use native.Mathlib.Nat.{mod-lt}
use proxywi.Common.Map.{Map, IsMap, bytes_eq, get, put-IsMap}
use proxywi.Server.RateLimiter.{
  Bucket, RateLimiter, truncate, allow, minute, sweep_buckets, cleanup, new_rate_limiter,
}
use proxywi.Server.RateLimiter.Window.{bucket_step, admitted, allow-verdict, get-allow}

abbrev still : ℕ → Option Bucket → Option Bucket
still now none = none
still now (some b) = if ltb (10 * minute) (now - b.window) then none else some b

get-sweep_buckets :
    (m : Map Bytes Bucket) (now : ℕ) (k : Bytes)
    → IsMap m
    → get (sweep_buckets m now) k ≡ still now (get m k)
unfolding sweep_buckets get
get-sweep_buckets [] now k h = refl
get-sweep_buckets ((j, b) ∷ m) now k h = ground (arith, get-sweep_buckets m now k h.1, same_iff j k)

truncate-recent : (t d : ℕ) → 0 < d → t < truncate t d + d
unfolding truncate
truncate-recent t d p = ground (arith, mod-lt t p)

-- A bucket that is forgotten would have been replaced anyway.
same_verdict :
    (o : Option Bucket) (now current max : ℕ)
    → now ≤ current + 10 * minute
    → (bucket_step (still now o) current max).1 ≡ (bucket_step o current max).1
same_verdict none now current max h = refl
same_verdict (some b) now current max h = ground arith

-- Forgetting buckets at the time `now` changes no later answer of `Allow`, for windows of at
-- most ten minutes, in a map without duplicate keys.
pub allow-cleanup :
    (r : RateLimiter) (now t : ℕ) (key : Bytes) (max window : ℕ)
    → IsMap r.buckets
    → 0 < window
    → window ≤ 10 * minute
    → now ≤ t
    → (allow (cleanup r now) t key max window).1 ≡ (allow r t key max window).1
unfolding cleanup
allow-cleanup r now t key max window m p h le =
    rw
      (
        allow-verdict (cleanup r now) t key max window,
        allow-verdict r t key max window,
        get-sweep_buckets r.buckets now key m,
      )
      (same_verdict (get r.buckets key) now (truncate t window) max
        (omega (arith, truncate-recent t window p)))

-- Every operation keeps the map without duplicate keys.
pub allow-IsMap :
    (r : RateLimiter) (t : ℕ) (key : Bytes) (max window : ℕ)
    → IsMap r.buckets
    → IsMap (allow r t key max window).0.buckets
unfolding allow
allow-IsMap r t key max window m = elim (Option-cases (get r.buckets key)) [
  | inl e ↦
      ground
        (arith, e, put-IsMap r.buckets key (record { window = truncate t window; count = 1 }) m)
  | inr (b, e) ↦ ground (
    arith,
    e,
    put-IsMap r.buckets key (record { window = truncate t window; count = 1 }) m,
    put-IsMap r.buckets key (record b { count = b.count + 1 }) m,
  )
]

-- Calls for one key within one window.
abbrev pub Burst : List (ℕ × Bytes) → ℕ → Bytes → ℕ → Type 0
Burst calls window k w = All (λ c. (truncate c.0 window ≡ w) × (c.1 ≡ k)) calls

burst_step :
    (r : RateLimiter) (t max window : ℕ) (k : Bytes) (o : Option Bucket)
    → get r.buckets k ≡ o
    → ((allow r t k max window).1 ≡ (bucket_step o (truncate t window) max).1)
      × (get (allow r t k max window).0.buckets k ≡ (bucket_step o (truncate t window) max).0)
burst_step r t max window k o e =
    (rw (allow-verdict r t k max window, e), rw (get-allow r t k max window k, same_refl k, e))

Burst-rest :
    (r : RateLimiter) (calls : List (ℕ × Bytes)) (max window : ℕ) (k : Bytes) (w : ℕ) (b : Bucket)
    → Burst calls window k w
    → get r.buckets k ≡ some b
    → b.window ≡ w
    → b.count ≤ max
    → admitted r calls max window k w ≡ min (length calls) (max - b.count)
unfolding admitted
Burst-rest r [] max window k w b h e q le = omega arith
Burst-rest r ((t, j) ∷ calls) max window k w b ((x, y), h) e q le =
    let (verdict, bucket) = burst_step r t max window k (some b) e in
    let next : Bucket = record b { count = b.count + 1 } in
    let later = (allow r t k max window).0 in
    rw y (elim (Bool-cases (leb max b.count)) [
      | inl full ↦
          ground (arith, same_refl k, Burst-rest later calls max window k w b h (ground arith) q le)
      | inr room ↦ ground (
        arith,
        same_refl k,
        Burst-rest later calls max window k w next h (ground arith) q (ground arith),
      )
    ])

-- Of the calls for one key in one window, from an empty limiter, exactly the first `max` are
-- admitted.
pub admitted-Burst :
    (calls : List (ℕ × Bytes)) (max window : ℕ) (k : Bytes) (w : ℕ)
    → 0 < max
    → Burst calls window k w
    → admitted new_rate_limiter calls max window k w ≡ min (length calls) max
unfolding admitted
admitted-Burst [] max window k w p h = omega arith
admitted-Burst ((t, j) ∷ calls) max window k w p ((x, y), h) =
    let (verdict, bucket) =
      burst_step new_rate_limiter t max window k none (unfold new_rate_limiter get in refl) in
    let b : Bucket = record { window = truncate t window; count = 1 } in
    let later = (allow new_rate_limiter t k max window).0 in
    rw y (ground (arith, same_refl k, Burst-rest later calls max window k w b h bucket x p))
