-- ===== src/Server/Http/Basic.antt =====
-- `parseProxyAuth` of internal/server/proxy_http.go, with the decoder of encoding/base64 in its
-- standard alphabet and padding that it calls.
use proxywi.Common.{
  ℕ, suc, ◌+◌, ◌-◌, ◌*◌, ◌/◌, ◌%◌, ◌&&◌, ◌||◌, not, Option, none, some, [], ◌∷◌, ◌++◌, leb, ◌==◌,
  if◌then◌else◌, take, drop, keep, Bytes, codes, is_empty, has_prefix, trim_prefix, index_byte,
}
use proxywi.Common.{◌>>=◌}

-- The value of a digit of the standard alphabet.
unfoldable pub sextet : ℕ → Option ℕ
sextet c =
    if leb b'A' c && leb c b'Z'
    then some (c - 65)
    else if leb b'a' c && leb c b'z'
    then some (c - 71)
    else if leb b'0' c && leb c b'9'
    then some (c + 4)
    else if c == b'+'
    then some 62
    else if c == b'/'
    then some 63
    else none

-- Digits of three bytes, of the last two, and of the last one.
unfoldable pub three_bytes : ℕ → ℕ → ℕ → ℕ → Bytes
three_bytes a b c d = (a * 4 + b / 16) ∷ ((b % 16) * 16 + c / 4) ∷ ((c % 4) * 64 + d) ∷ []

-- The digits before the padding.
unfoldable pub decode_end : ℕ → ℕ → ℕ → Option Bytes
decode_end a b c = sextet a >>= λ x. sextet b >>= λ y.
    if c == b'='
    then some (take 1 (three_bytes x y 0 0))
    else (sextet c >>= λ z. some (take 2 (three_bytes x y z 0)))

unfoldable pub decode_quad : ℕ → ℕ → ℕ → ℕ → Bytes → Option Bytes → Option Bytes
decode_quad a b c d rest decoded =
    if d == b'=' then (if is_empty rest then decode_end a b c else none) else do
      x ← sextet a
      y ← sextet b
      z ← sextet c
      w ← sextet d
      bytes ← decoded
      some (three_bytes x y z w ++ bytes)

-- The text without its line ends.
unfoldable pub decode_text : Bytes → Option Bytes
decode_text [] = some []
decode_text (a ∷ []) = none
decode_text (a ∷ b ∷ []) = none
decode_text (a ∷ b ∷ c ∷ []) = none
decode_text (a ∷ b ∷ c ∷ d ∷ rest) = decode_quad a b c d rest (decode_text rest)

-- base64.StdEncoding.DecodeString(s)
unfoldable pub decode_string : Bytes → Option Bytes
decode_string s = decode_text (keep (λ c. not (c == 10 || c == 13)) s)

abbrev pub basic_prefix : Bytes
basic_prefix = codes "Basic "

unfoldable pub parse_proxy_auth : Bytes → Option (Bytes × Bytes)
parse_proxy_auth h =
    if not (has_prefix h basic_prefix)
    then none
    else elim (decode_string (trim_prefix h basic_prefix)) [
      | none ↦ none
      | some s ↦ elim (index_byte s b':') [ none ↦ none | some i ↦ some (take i s, drop (suc i) s) ]
    ]
