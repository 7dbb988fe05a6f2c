-- ===== src/Server/Gui/Targets.antt =====
-- internal/server/gui/handlers.go: the targets as the request log shows them.
pub mod Split
pub mod Masked
pub mod Labels
pub mod Hidden
use proxywi.Common.{
  last_index, ℕ, zero, suc, ◌+◌, ◌-◌, ◌*◌, Bool, true, false, Option, none, some, [], ◌∷◌, ◌++◌,
  map, leb, ◌==◌, if◌then◌else◌, length, take, drop, replicate, Bytes, codes, is_empty, has_prefix,
  split, join,
}
use proxywi.Common.Integers.{parse_int}

-- A bracketed host, cut before the colon of the last "]:"; the port is none where there is none.
abbrev pub split_bracketed : Bytes → Option ℕ → Bytes × Option Bytes
split_bracketed target none = (target, none)
split_bracketed target (some zero) = (target, none)
split_bracketed target (some (suc i)) = (take (suc i + 1) target, some (drop (suc i + 2) target))

abbrev pub is_number : Bytes → Bool
is_number s = elim (parse_int s) [ none ↦ false | some n ↦ true ]

abbrev pub split_plain : Bytes → Option ℕ → Bytes × Option Bytes
split_plain target none = (target, none)
split_plain target (some zero) = (target, none)
split_plain target (some (suc i)) =
    let port = drop (suc i + 1) target in
    if is_number port then (take (suc i) target, some port) else (target, none)

unfoldable pub split_target_host_port : Bytes → Bytes × Option Bytes
unfolding last_index
split_target_host_port target =
    if has_prefix target (codes "[")
    then split_bracketed target (last_index target (codes "]:"))
    else split_plain target (last_index target (codes ":"))

-- One label of a host name.
unfoldable pub mask_label : Bytes → Bytes
mask_label l =
    let n = length l in
    if leb n 2
    then replicate n b'*'
    else if n == 3
    then b'*' ∷ drop (n - 2) l
    else take 3 l ++ replicate (n - 3) b'*'

abbrev pub with_port : Bytes → Option Bytes → Bytes
with_port out none = out
with_port out (some port) = out ++ (b':' ∷ port)

-- With the host and the port.
abbrev pub anonymize_host : Bytes → Option Bytes → Bytes
anonymize_host host port =
    if has_prefix host (codes "[")
    then with_port (codes "[****]") port
    else with_port (join (map mask_label (split host b'.')) b'.') port

unfoldable pub anonymize_target : Bytes → Bytes
unfolding split_target_host_port mask_label
anonymize_target target =
    let (host, port) = split_target_host_port target in
    if is_empty target then [] else anonymize_host host port
