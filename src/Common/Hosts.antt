-- ===== src/Common/Hosts.antt =====
-- net.SplitHostPort.
use Prim.Native.Nat.{ℕ, ◌+◌, ◌-◌}
use mathlib.Core.Bool.{Bool, ◌&&◌, ◌||◌, not}
use mathlib.Core.Option.{Option, none, some}
use proxywi.Common.Tests.{◌==◌, if◌then◌else◌}
use proxywi.Common.Lists.{take, drop, any}
use proxywi.Common.Text.{Bytes, codes, last_index, has_prefix, index_byte}

abbrev contains : ℕ → Bytes → Bool
contains c s = any (λ d. d == c) s

abbrev after_bracket : Bytes → ℕ → Option ℕ → Option Bytes
after_bracket addr i none = none
after_bracket addr i (some close) =
    if close + 1 == i
      && not (contains b'[' (drop 1 addr))
      && not (contains b']' (drop (close + 1) addr))
    then some (take (close - 1) (drop 1 addr))
    else none

abbrev before_colon : Bytes → ℕ → Option Bytes
before_colon addr i =
    let host = take i addr in
    if contains b':' host || contains b'[' addr || contains b']' addr then none else some host

-- The host, none for an error.
unfoldable pub split_host : Bytes → Option Bytes
unfolding last_index has_prefix index_byte
split_host addr = elim (last_index addr (codes ":")) [
  | none ↦ none
  | some i ↦
      if has_prefix addr (codes "[")
      then after_bracket addr i (index_byte addr b']')
      else before_colon addr i
]
