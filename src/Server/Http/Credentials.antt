-- ===== src/Server/Http/Credentials.antt =====
-- What a client writes into Proxy-Authorization, and that it is read back.
use proxywi.Common.{
  ℕ, suc, ◌+◌, ◌-◌, ◌*◌, ◌/◌, ◌%◌, ◌<◌, ◌≡◌, refl, true, false, ◌||◌, not, none, some, [], ◌∷◌,
  ◌++◌, arith, ltb, ◌==◌, if◌then◌else◌, ==_refl, length, drop, keep, All, take-length_append,
  All-append, Bytes, has_prefix, trim_prefix, index_byte,
}
use proxywi.Server.Http.Basic.{
  sextet, three_bytes, decode_end, decode_quad, decode_text, decode_string, basic_prefix,
  parse_proxy_auth,
}

-- RFC 4648's digit of a value below 64.
unfoldable pub digit : ℕ → ℕ
digit n =
    if ltb n 26
    then n + 65
    else if ltb n 52
    then n + 71
    else if ltb n 62
    then n - 4
    else if n == 62
    then b'+'
    else b'/'

-- RFC 4648's encoding, with padding.
unfoldable pub encode : Bytes → Bytes
encode [] = []
encode (x ∷ []) = digit (x / 4) ∷ digit (x % 4 * 16) ∷ b'=' ∷ b'=' ∷ []
encode (x ∷ y ∷ []) = digit (x / 4) ∷ digit (x % 4 * 16 + y / 16) ∷ digit (y % 16 * 4) ∷ b'=' ∷ []
encode (x ∷ y ∷ z ∷ rest) =
    digit (x / 4)
    ∷ digit (x % 4 * 16 + y / 16)
    ∷ digit (y % 16 * 4 + z / 64)
    ∷ digit (z % 64)
    ∷ encode rest

-- RFC 7617's value of the header.
unfoldable pub basic : Bytes → Bytes → Bytes
basic user pass = basic_prefix ++ encode (user ++ (b':' ∷ pass))

abbrev pub IsByte : ℕ → Type 0
IsByte b = b < 256

sextet-digit : (n : ℕ) → n < 64 → sextet (digit n) ≡ some n
unfolding sextet digit
sextet-digit n h = ground arith

digit-ne-pad : (n : ℕ) → n < 64 → (digit n == b'=') ≡ false
unfolding digit
digit-ne-pad n h = ground arith

digit-kept : (n : ℕ) → n < 64 → not (digit n == 10 || digit n == 13) ≡ true
unfolding digit
digit-kept n h = ground arith

decode_text-encode : (bs : Bytes) → All IsByte bs → decode_text (encode bs) ≡ some bs
unfolding decode_text encode decode_quad decode_end three_bytes
decode_text-encode [] h = refl
decode_text-encode (x ∷ []) h =
    let high : x / 4 < 64 = omega (arith, h.0) in
    let e : x / 4 * 4 + x % 4 * 16 / 16 ≡ x = omega arith in
    rw (sextet-digit (x / 4) high, sextet-digit (x % 4 * 16) (omega arith), e) refl
decode_text-encode (x ∷ y ∷ []) h =
    let high : x / 4 < 64 = omega (arith, h.0) in
    let (hy, done) = h.1 in
    let middle : x % 4 * 16 + y / 16 < 64 = omega arith in
    let low : y % 16 * 4 < 64 = omega arith in
    let e : x / 4 * 4 + (x % 4 * 16 + y / 16) / 16 ≡ x = omega arith in
    let e' : (x % 4 * 16 + y / 16) % 16 * 16 + y % 16 * 4 / 4 ≡ y = omega arith in
    rw
      (
        sextet-digit (x / 4) high,
        sextet-digit (x % 4 * 16 + y / 16) middle,
        digit-ne-pad (y % 16 * 4) low,
        sextet-digit (y % 16 * 4) low,
        e,
        e',
      )
      refl
decode_text-encode (x ∷ y ∷ z ∷ rest) h =
    let (hx, more) = h in
    let (hy, more') = more in
    let (hz, hrest) = more' in
    let e : x / 4 * 4 + (x % 4 * 16 + y / 16) / 16 ≡ x = omega arith in
    let e' : (x % 4 * 16 + y / 16) % 16 * 16 + (y % 16 * 4 + z / 64) / 4 ≡ y = omega arith in
    let e'' : (y % 16 * 4 + z / 64) % 4 * 64 + z % 64 ≡ z = omega arith in
    rw
      (
        sextet-digit (x / 4) (omega arith),
        sextet-digit (x % 4 * 16 + y / 16) (omega arith),
        digit-ne-pad (z % 64) (omega arith),
        sextet-digit (y % 16 * 4 + z / 64) (omega arith),
        sextet-digit (z % 64) (omega arith),
        decode_text-encode rest hrest,
        e,
        e',
        e'',
      )
      refl

encode-kept :
    (bs : Bytes) → All IsByte bs → keep (λ c. not (c == 10 || c == 13)) (encode bs) ≡ encode bs
unfolding encode
encode-kept [] h = refl
encode-kept (x ∷ []) h =
    let (hx, done) = h in
    rw (digit-kept (x / 4) (omega arith), digit-kept (x % 4 * 16) (omega arith)) refl
encode-kept (x ∷ y ∷ []) h =
    let (hx, more) = h in
    let (hy, done) = more in
    rw
      (
        digit-kept (x / 4) (omega arith),
        digit-kept (x % 4 * 16 + y / 16) (omega arith),
        digit-kept (y % 16 * 4) (omega arith),
      )
      refl
encode-kept (x ∷ y ∷ z ∷ rest) h =
    let (hx, more) = h in
    let (hy, more') = more in
    let (hz, hrest) = more' in
    rw
      (
        digit-kept (x / 4) (omega arith),
        digit-kept (x % 4 * 16 + y / 16) (omega arith),
        digit-kept (y % 16 * 4 + z / 64) (omega arith),
        digit-kept (z % 64) (omega arith),
        encode-kept rest hrest,
      )
      refl

index_byte-append :
    (u p : Bytes) (c : ℕ) → index_byte u c ≡ none → index_byte (u ++ (c ∷ p)) c ≡ some (length u)
unfolding index_byte
index_byte-append [] p c h = rw (==_refl c) refl
index_byte-append (x ∷ u) p c h = ground (arith, index_byte-append u p c)

drop_past : (u p : Bytes) (c : ℕ) → drop (suc (length u)) (u ++ (c ∷ p)) ≡ p
drop_past [] p c = refl
drop_past (x ∷ u) p c = drop_past u p c

All-bytes : (u p : Bytes) → All IsByte u → All IsByte p → All IsByte (u ++ (b':' ∷ p))
All-bytes u p hu hp = All-append IsByte u (b':' ∷ p) hu (omega arith, hp)

-- The credentials that a client encodes into the header, as RFC 7617 says, are read back, for
-- every user name of bytes without a colon and every password of bytes.
pub parse_proxy_auth-basic :
    (user pass : Bytes)
    → All IsByte user
    → All IsByte pass
    → index_byte user b':' ≡ none
    → parse_proxy_auth (basic user pass) ≡ some (user, pass)
unfolding parse_proxy_auth basic decode_string trim_prefix has_prefix
parse_proxy_auth-basic user pass hu hp no_colon =
    let bytes = All-bytes user pass hu hp in
    rw
      (
        encode-kept (user ++ (b':' ∷ pass)) bytes,
        decode_text-encode (user ++ (b':' ∷ pass)) bytes,
        index_byte-append user pass b':' no_colon,
        take-length_append user (b':' ∷ pass),
        drop_past user pass b':',
      )
      refl
