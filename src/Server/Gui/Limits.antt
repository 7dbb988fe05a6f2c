-- ===== src/Server/Gui/Limits.antt =====
-- internal/server/gui/gui.go: who a request comes from, and how many log in.
pub mod Logins
use proxywi.Common.{
  ℕ, ◌+◌, Bool, true, ◌&&◌, not, Option, none, some, [], ◌++◌, if◌then◌else◌, take, Bytes, codes,
  is_empty, index_byte, trim_space,
}
use proxywi.Common.Hosts.{split_host}
use proxywi.Server.RateLimiter.{RateLimiter, allow, minute}

abbrev or_empty : Option Bytes → Bytes
or_empty none = []
or_empty (some s) = s

-- What stands before the first comma.
abbrev pub before_comma : Bytes → Bytes
before_comma s = elim (index_byte s b',') [ none ↦ s | some i ↦ take i s ]

-- The request's `X-Forwarded-For` and its remote address.
unfoldable pub client_ip : Bytes → Bytes → Bytes
unfolding split_host
client_ip forwarded remote_addr =
    let fwd = trim_space (before_comma forwarded) in
    let host = or_empty (split_host remote_addr) in
    if not (is_empty forwarded) && not (is_empty fwd)
    then fwd
    else if not (is_empty host)
    then host
    else remote_addr

-- Whether the request passes; without a limiter every request does.
unfoldable pub auth_rate_limit : Option RateLimiter → ℕ → Bytes → Option RateLimiter × Bool
unfolding allow
auth_rate_limit none now ip = (none, true)
auth_rate_limit (some limiter) now ip =
    let (limiter', passed) = allow limiter now (codes "auth:" ++ ip) 10 minute in
    (some limiter', passed)
