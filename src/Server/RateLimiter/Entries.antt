-- ===== src/Server/RateLimiter/Entries.antt =====
-- How many calls `Allow` of ratelimit.go admits in a window when they do not take the mutex in the
-- order in which they read the clock.
use proxywi.Common.{
  ℕ, suc, ◌+◌, ◌*◌, ◌≤◌, ◌<◌, ◌≡◌, refl, sym, inl, inr, Bool, true, false, ◌&&◌, not, Option, none,
  some, List, [], ◌∷◌, arith, ◌==◌, if◌then◌else◌, Bool-cases, Bytes, same, same_refl, same→eq,
}
use mathlib.Core.Path.{subst}
use proxywi.Common.Map.{bytes_eq, get}
use proxywi.Server.RateLimiter.{Bucket, RateLimiter, truncate, allow, new_rate_limiter}
use proxywi.Server.RateLimiter.Window.{
  bucket_step, allow-verdict, admitted, used, other_key, same_key,
}

abbrev at_window : Option ℕ → ℕ → Bool
at_window none w = false
at_window (some v) w = v == w

-- How often the calls for the key `k`, in the order in which they hold the mutex, come to the window
-- `w` from another one, or from none; `last` is the window of the call before.
abbrev pub entries : Option ℕ → List (ℕ × Bytes) → ℕ → Bytes → ℕ → ℕ
entries last [] window k w = 0
entries last ((t, j) ∷ calls) window k w =
    let here = truncate t window in
    let later = entries (some here) calls window k w in
    let same_last = entries last calls window k w in
    if same j k then (if here == w && not (at_window last w) then 1 else 0) + later else same_last

abbrev window_of : Option Bucket → Option ℕ
window_of none = none
window_of (some b) = some b.window

abbrev Small : Option Bucket → ℕ → Type 0
Small none max = Unit
Small (some b) max = b.count ≤ max

module _ (max w : ℕ) where
  abbrev room : Option Bucket → ℕ
  room o = if at_window (window_of o) w then max else 0

  abbrev entering : Option Bucket → ℕ → ℕ
  entering o here = if here == w && not (at_window (window_of o) w) then 1 else 0

  step-Small :
      (o : Option Bucket) (here : ℕ) → 0 < max → Small o max → Small (bucket_step o here max).0 max
  step-Small none here p f = omega arith
  step-Small (some b) here p f = ground arith

  step-window : (o : Option Bucket) (here : ℕ) → window_of (bucket_step o here max).0 ≡ some here
  step-window none here = refl
  step-window (some b) here = ground arith

  spend :
      (o : Option Bucket) (here rest e : ℕ)
      → 0 < max
      → Small o max
      → rest + used (bucket_step o here max).0 w ≤ max * e + (if here == w then max else 0)
      → (if (bucket_step o here max).1 && true && here == w then suc rest else rest) + used o w
        ≤ max * (entering o here + e) + room o
  spend none here rest e p f h =
      let one_more : max * (1 + e) ≡ max + max * e = grind arith in ground (arith, one_more)
  spend (some b) here rest e p f h =
      let one_more : max * (1 + e) ≡ max + max * e = grind arith in ground (arith, one_more)

  spend_all :
      (r : RateLimiter) (calls : List (ℕ × Bytes)) (window : ℕ) (k : Bytes)
      → 0 < max
      → Small (get r.buckets k) max
      → admitted r calls max window k w + used (get r.buckets k) w
        ≤ max * entries (window_of (get r.buckets k)) calls window k w + room (get r.buckets k)
  unfolding admitted
  spend_all r [] window k p f = used_le (get r.buckets k) f
    where
      used_le : (o : Option Bucket) → Small o max → 0 + used o w ≤ max * 0 + room o
      used_le none f = omega arith
      used_le (some b) f = ground arith
  spend_all r ((t, j) ∷ calls) window k p f =
      let o = get r.buckets k in
      let here = truncate t window in
      elim (Bool-cases (same j k)) [
        | inl e ↦
            let r' = (allow r t k max window).0 in
            let stepped = same_key max window k w r t in
            let small = subst (λ x. Small x max) (sym stepped) (step-Small o here p f) in
            let ih = rw (stepped, step-window o here) at (spend_all r' calls window k p small) in
            rw (same→eq j k e, same_refl k, allow-verdict r t k max window)
              (spend o here (admitted r' calls max window k w)
                (entries (some here) calls window k w) p f ih)
        | inr e ↦
            let r' = (allow r t j max window).0 in
            let kept = other_key max window k w r t j e in
            let small = subst (λ x. Small x max) (sym kept) f in
            let ih = rw kept at (spend_all r' calls window k p small) in ground (arith, e, ih)
      ]

-- From an empty limiter and for a `max` above zero, for calls for any keys with any readings of
-- the clock, in the order in which they hold the mutex and with no run of `cleanup` between them:
-- the calls for one key that are admitted in one window are at most `max` for each time that the
-- calls for that key come to that window from another one, or from none.
pub admitted-le-entries :
    (max window : ℕ) (calls : List (ℕ × Bytes)) (k : Bytes) (w : ℕ)
    → 0 < max
    → admitted new_rate_limiter calls max window k w ≤ max * entries none calls window k w
unfolding new_rate_limiter get
admitted-le-entries max window calls k w p =
    omega (arith, spend_all max w new_rate_limiter calls window k p tt)
