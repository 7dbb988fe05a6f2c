-- ===== src/Server/Gate.antt =====
-- `AuthGate` of internal/server/security.go. `compare` is bcrypt's `CompareHashAndPassword`: whether
-- a password has a hash. The clock of the limiter is in nanoseconds.
pub mod Limits
use proxywi.Common.{
  ℕ, ◌+◌, Bool, true, false, Option, none, some, [], ◌++◌, Bytes, codes, Result, ok, err,
}
use proxywi.Storage.Rows.{Db, User}
use proxywi.Storage.Query.{Query}
use proxywi.Storage.Users.{user_by_username}
use proxywi.Server.RateLimiter.{RateLimiter, allow}

abbrev pub Compare : Type 0
Compare = Bytes → Bytes → Bool

-- An error of the lookup is logged, and the user is nil then.
abbrev pub user_or_nil {ℓ} : {E A : Type ℓ} → Result E (Option A) → Option A
user_or_nil (ok u) = u
user_or_nil (err e) = none

unfoldable pub verify_credentials : Compare → Bytes → Bytes → Db → (Option User × Bool) × Db
unfolding user_by_username
verify_credentials compare username password db =
    let (r, db') = user_by_username username db in
    elim (user_or_nil r) [
      | none ↦ ((none, false), db')
      | some u ↦ ((some u, compare u.password_hash password), db')
    ]

abbrev pub second : ℕ
second = 1_000_000_000

-- Without a limiter every request passes.
unfoldable pub allow_proxy_request : Option RateLimiter → ℕ → Bytes → Option RateLimiter × Bool
unfolding allow
allow_proxy_request none now user = (none, true)
allow_proxy_request (some limiter) now user =
    let (limiter', passed) = allow limiter now (codes "proxy:" ++ user) 5 second in
    (some limiter', passed)
