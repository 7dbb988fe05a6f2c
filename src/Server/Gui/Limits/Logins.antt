-- ===== src/Server/Gui/Limits/Logins.antt =====
-- How many logins an address may try in a minute.
use proxywi.Common.{
  ℕ, suc, ◌≤◌, ◌≡◌, refl, ◌&&◌, Option, some, List, [], ◌∷◌, ◌++◌, map, arith, ◌==◌, if◌then◌else◌,
  Bytes, codes, same,
}
use proxywi.Server.RateLimiter.{RateLimiter, allow, new_rate_limiter, truncate, minute}
use proxywi.Server.RateLimiter.Window.{admitted, admitted-le-max, InOrder}
use proxywi.Server.Gui.Limits.{auth_rate_limit}

-- The requests, each with its time and address, that pass for an address in the minute `w`.
abbrev pub passed : Option RateLimiter → List (ℕ × Bytes) → Bytes → ℕ → ℕ
passed limiter [] ip w = 0
passed limiter ((t, from) ∷ requests) ip w =
    let (limiter', ok_now) = auth_rate_limit limiter t from in
    let rest = passed limiter' requests ip w in
    if ok_now && same from ip && truncate t minute == w then suc rest else rest

abbrev key : (ℕ × Bytes) → ℕ × Bytes
key (t, ip) = (t, codes "auth:" ++ ip)

same_key : (a b : Bytes) → same (codes "auth:" ++ a) (codes "auth:" ++ b) ≡ same a b
unfolding same
same_key a b = refl

passed_lem :
    (r : RateLimiter) (requests : List (ℕ × Bytes)) (ip : Bytes) (w : ℕ)
    → passed (some r) requests ip w
      ≡ admitted r (map key requests) 10 minute (codes "auth:" ++ ip) w
unfolding auth_rate_limit admitted
passed_lem r [] ip w = refl
passed_lem r ((t, from) ∷ requests) ip w =
    let r' = (allow r t (codes "auth:" ++ from) 10 minute).0 in
    rw (same_key from ip, passed_lem r' requests ip w) refl

in_order : (t : ℕ) (requests : List (ℕ × Bytes)) → InOrder t requests → InOrder t (map key requests)
in_order t [] h = tt
in_order t ((u, ip) ∷ requests) h = (h.0, in_order u requests h.1)

-- With the limiter that `New` makes, where the requests take its mutex in the order in which they
-- read the clock: at most ten requests of one address for the login pages pass in one minute,
-- whatever comes from other addresses.
pub passed-le-ten :
    (t : ℕ) (requests : List (ℕ × Bytes)) (ip : Bytes) (w : ℕ)
    → InOrder t requests
    → passed (some new_rate_limiter) requests ip w ≤ 10
passed-le-ten t requests ip w h = rw (passed_lem new_rate_limiter requests ip w) (
    admitted-le-max t 10 minute (map key requests) (codes "auth:" ++ ip) w (omega arith)
      (in_order t requests h))
