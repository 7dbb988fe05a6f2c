-- ===== src/Server/RateLimiter.antt =====
-- internal/server/ratelimit.go. Times are nanoseconds since the zero time of Go's `time`, and
-- a time is an argument of each call. What a call does while it holds the mutex is one step; `Allow`
-- reads the clock before it takes the mutex, so that the times of a sequence of steps need not rise.
pub mod Window
pub mod Entries
pub mod Sweep
use proxywi.Common.{
  ℕ, ◌+◌, ◌-◌, ◌*◌, ◌%◌, Bool, true, false, not, none, some, [], ◌∷◌, ltb, leb, ◌==◌, if◌then◌else◌,
  Bytes,
}
use proxywi.Common.Map.{Map, bytes_eq, get, put, delete}

pub record Bucket : Type 0 where
  pub window : ℕ
  pub count : ℕ

pub record RateLimiter : Type 0 where
  pub buckets : Map Bytes Bucket

unfoldable pub new_rate_limiter : RateLimiter
new_rate_limiter = record { buckets = [] }

-- t.Truncate(d)
unfoldable pub truncate : ℕ → ℕ → ℕ
truncate t d = if d == 0 then t else t - t % d

-- `now` is what the clock said before the mutex was taken.
unfoldable pub allow : RateLimiter → ℕ → Bytes → ℕ → ℕ → RateLimiter × Bool
unfolding truncate
allow r now key max window =
    let current = truncate now window in
    let fresh : RateLimiter × Bool =
      (record { buckets = put r.buckets key (record { window = current; count = 1 }) }, true) in
    elim (get r.buckets key) [
      | none ↦ fresh
      | some b ↦
          if not (b.window == current)
          then fresh
          else if leb max b.count
          then (r, false)
          else (record { buckets = put r.buckets key (record b { count = b.count + 1 }) }, true)
    ]

abbrev pub minute : ℕ
minute = 60 * 1_000_000_000

-- One tick of `cleanup`.
unfoldable pub sweep_buckets : Map Bytes Bucket → ℕ → Map Bytes Bucket
sweep_buckets [] now = []
sweep_buckets ((k, b) ∷ m) now =
    let rest = sweep_buckets m now in
    if ltb (10 * minute) (now - b.window) then rest else (k, b) ∷ rest

unfoldable pub cleanup : RateLimiter → ℕ → RateLimiter
unfolding sweep_buckets
cleanup r now = record { buckets = sweep_buckets r.buckets now }
