-- ===== src/Tests/Limits.antt =====
-- internal/server/ratelimit.go.
use proxywi.Common.{ℕ, ◌*◌, ◌≤◌, none, List, [], ◌∷◌, arith, Bytes, codes}
use proxywi.Common.Map.{bytes_eq}
use proxywi.Server.RateLimiter.{new_rate_limiter}
use proxywi.Server.RateLimiter.Window.{admitted, admitted-le-max}
use proxywi.Server.RateLimiter.Entries.{entries, admitted-le-entries}

abbrev four_calls : List (ℕ × Bytes)
four_calls = (100, codes "k") ∷ (101, codes "k") ∷ (105, codes "k") ∷ (110, codes "k") ∷ []

admitted-le-max_example : admitted new_rate_limiter four_calls 2 10 (codes "k") 100 ≤ 2
admitted-le-max_example =
    admitted-le-max 100 2 10 four_calls (codes "k") 100 (omega arith) (omega arith)

-- The call of 109 takes the mutex after one of the next window.
abbrev late_calls : List (ℕ × Bytes)
late_calls = (101, codes "k") ∷ (110, codes "k") ∷ (109, codes "k") ∷ []

admitted-le-entries_example :
    admitted new_rate_limiter late_calls 2 10 (codes "k") 100
    ≤ 2 * entries none late_calls 10 (codes "k") 100
admitted-le-entries_example = admitted-le-entries 2 10 late_calls (codes "k") 100 (omega arith)
