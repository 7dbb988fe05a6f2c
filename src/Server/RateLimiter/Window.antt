-- ===== src/Server/RateLimiter/Window.antt =====
-- How many calls `Allow` of ratelimit.go admits in one window.
use proxywi.Common.{
  ℕ, suc, ◌+◌, ◌/◌, ◌≤◌, ◌<◌, ◌≡◌, refl, inl, inr, Bool, true, false, ◌&&◌, not, Option, none, some,
  List, [], ◌∷◌, arith, leb, ◌==◌, if◌then◌else◌, Bool-cases, Option-cases, Bytes, same, same_refl,
  same→eq, same_iff,
}
use native.Mathlib.Nat.{div-add-mod}
use proxywi.Common.Map.{bytes_eq, get, get-put}
use proxywi.Server.RateLimiter.{Bucket, RateLimiter, truncate, allow, new_rate_limiter}

div-le : (t u d : ℕ) → 0 < d → t ≤ u → t / d ≤ u / d
div-le t u d p h = grind arith

pub truncate_mono : (t u d : ℕ) → t ≤ u → truncate t d ≤ truncate u d
unfolding truncate
truncate_mono t u d h = elim (Bool-cases (d == 0)) [
  | inl e ↦ rw e h
  | inr e ↦ rw e (grind (arith, div-add-mod t d, div-add-mod u d, div-le t u d))
]

-- What `allow` does to the bucket of its key, apart from the map.
abbrev pub bucket_step : Option Bucket → ℕ → ℕ → Option Bucket × Bool
bucket_step none current max = (some (record { window = current; count = 1 }), true)
bucket_step (some b) current max =
    if not (b.window == current)
    then (some (record { window = current; count = 1 }), true)
    else if leb max b.count
    then (some b, false)
    else (some (record b { count = b.count + 1 }), true)

module _ (r : RateLimiter) (t : ℕ) (j : Bytes) (max window : ℕ) where
  abbrev stepped : Option Bucket × Bool
  stepped = bucket_step (get r.buckets j) (truncate t window) max

  pub allow-verdict : (allow r t j max window).1 ≡ stepped.1
  unfolding allow
  allow-verdict = ground arith

  pub get-allow :
      (k : Bytes)
      → get (allow r t j max window).0.buckets k ≡ (if same j k then stepped.0 else get r.buckets k)
  unfolding allow
  get-allow k = elim (Option-cases (get r.buckets j)) [
    | inl e ↦ ground (arith, e, same_iff j k, get-put r.buckets j k fresh)
    | inr (b, e) ↦ ground (
      arith,
      e,
      same_iff j k,
      get-put r.buckets j k fresh,
      get-put r.buckets j k (record b { count = b.count + 1 }),
    )
  ]
    where
      fresh : Bucket
      fresh = record { window = truncate t window; count = 1 }

-- The calls, each with its time and key, that are let through for key `k` in the window `w`.
unfoldable pub admitted : RateLimiter → List (ℕ × Bytes) → ℕ → ℕ → Bytes → ℕ → ℕ
admitted r [] max window k w = 0
admitted r ((t, j) ∷ calls) max window k w =
    let rest = admitted (allow r t j max window).0 calls max window k w in
    if (allow r t j max window).1 && same j k && truncate t window == w then suc rest else rest

-- The calls take the mutex in the order in which they read the clock.
abbrev pub InOrder : ℕ → List (ℕ × Bytes) → Type 0
InOrder t [] = Unit
InOrder t ((u, j) ∷ calls) = (t ≤ u) × InOrder u calls

abbrev pub used : Option Bucket → ℕ → ℕ
used none w = 0
used (some b) w = if b.window == w then b.count else 0

-- A bucket of the past or the present that is within its budget.
abbrev pub Fits : Option Bucket → ℕ → ℕ → Type 0
Fits none now max = Unit
Fits (some b) now max = (b.window ≤ now) × (b.count ≤ max)

module _ (max window : ℕ) (k : Bytes) (w : ℕ) where
  closed_window :
      (r : RateLimiter) (t : ℕ) (calls : List (ℕ × Bytes))
      → InOrder t calls
      → w < truncate t window
      → admitted r calls max window k w ≡ 0
  unfolding admitted
  closed_window r t [] h past = refl
  closed_window r t ((u, j) ∷ calls) (le, h) past =
      ground
        (arith, truncate_mono t u window le, closed_window (allow r u j max window).0 u calls h)

  step-Fits :
      (o : Option Bucket) (t : ℕ) → 0 < max → Fits o t max → Fits (bucket_step o t max).0 t max
  step-Fits none t p f = omega arith
  step-Fits (some b) t p f = ground arith

  Fits-later : (o : Option Bucket) (t u : ℕ) → t ≤ u → Fits o t max → Fits o u max
  Fits-later none t u h f = tt
  Fits-later (some b) t u h f = omega arith

  spend_once :
      (o : Option Bucket) (c rest : ℕ)
      → 0 < max
      → Fits o c max
      → (w < c → rest ≡ 0)
      → rest + used (bucket_step o c max).0 w ≤ max
      → (if (bucket_step o c max).1 && c == w then suc rest else rest) + used o w ≤ max
  spend_once none c rest p f closed h = ground arith
  spend_once (some b) c rest p f closed h = ground arith

  pub other_key :
      (r : RateLimiter) (u : ℕ) (j : Bytes)
      → same j k ≡ false
      → get (allow r u j max window).0.buckets k ≡ get r.buckets k
  other_key r u j e = rw (get-allow r u j max window k, e)

  pub same_key :
      (r : RateLimiter) (u : ℕ)
      → get (allow r u k max window).0.buckets k
        ≡ (bucket_step (get r.buckets k) (truncate u window) max).0
  same_key r u = rw (get-allow r u k max window k, same_refl k)

  keeps_fit :
      (r : RateLimiter) (u : ℕ) (j : Bytes)
      → 0 < max
      → Fits (get r.buckets k) (truncate u window) max
      → Fits (get (allow r u j max window).0.buckets k) (truncate u window) max
  keeps_fit r u j p f = elim (Bool-cases (same j k)) [
    | inl e ↦ rw (same→eq j k e, same_key r u) (step-Fits (get r.buckets k) (truncate u window) p f)
    | inr e ↦ rw (other_key r u j e) f
  ]

  budget :
      (r : RateLimiter) (t : ℕ) (calls : List (ℕ × Bytes))
      → 0 < max
      → InOrder t calls
      → Fits (get r.buckets k) (truncate t window) max
      → admitted r calls max window k w + used (get r.buckets k) w ≤ max
  unfolding admitted
  budget r t [] p h f = used_le (get r.buckets k) f
    where
      used_le : (o : Option Bucket) → Fits o (truncate t window) max → 0 + used o w ≤ max
      used_le none f = omega arith
      used_le (some b) f = ground arith
  budget r t ((u, j) ∷ calls) p (le, h) f =
      let f' = Fits-later (get r.buckets k) _ _ (truncate_mono t u window le) f in
      let ih = budget (allow r u j max window).0 u calls p h (keeps_fit r u j p f') in
      elim (Bool-cases (same j k)) [
        | inl e ↦ ground (
          arith,
          e,
          same_iff j k,
          allow-verdict r u j max window,
          get-allow r u j max window k,
          spend_once (get r.buckets k) (truncate u window)
              (admitted (allow r u j max window).0 calls max window k w) p f'
              (closed_window (allow r u j max window).0 u calls h),
          ih,
        )
        | inr e ↦ ground (arith, e, other_key r u j e, ih)
      ]

-- From an empty limiter and for a `max` above zero, where the calls, for any keys, take the mutex
-- in the order in which they read the clock, and no run of `cleanup` comes between them: the calls
-- for one key that are admitted in one window are never more than `max`.
pub admitted-le-max :
    (t max window : ℕ) (calls : List (ℕ × Bytes)) (k : Bytes) (w : ℕ)
    → 0 < max
    → InOrder t calls
    → admitted new_rate_limiter calls max window k w ≤ max
unfolding new_rate_limiter get
admitted-le-max t max window calls k w p h =
    omega (arith, budget max window k w new_rate_limiter t calls p h tt)
