-- ===== src/Server/Socks/RoundTrip.antt =====
-- What a client that follows RFC 1928 and RFC 1929 sends is read as it was meant.
use proxywi.Common.{
  ◌*◌, ◌+◌, ◌≡◌, ℕ, ◌+◌, ◌*◌, ◌/◌, ◌%◌, ◌≡◌, refl, some, [], ◌∷◌, ◌++◌, append_assoc, arith, length,
  Bytes,
}
use proxywi.Server.Socks.Wire.{
  read_full, read_greeting, read_user_pass, read_request, join_host_port, itoa, ip4_string, wanted,
  socks_ver5, socks_cmd_connect, atyp_domain, atyp_ip4,
}

read_full-append : (bs rest : Bytes) → read_full (length bs) (bs ++ rest) ≡ some (bs, rest)
unfolding read_full
read_full-append [] rest = refl
read_full-append (b ∷ bs) rest = rw (read_full-append bs rest)

-- The client's messages.
abbrev pub greeting : Bytes → Bytes
greeting methods = socks_ver5 ∷ length methods ∷ methods

abbrev pub user_pass : Bytes → Bytes → Bytes
user_pass u p = 0x01 ∷ length u ∷ (u ++ (length p ∷ p))

abbrev pub connect_domain : Bytes → ℕ → Bytes
connect_domain host port =
    socks_ver5
    ∷ socks_cmd_connect
    ∷ 0
    ∷ atyp_domain
    ∷ length host
    ∷ (host ++ (port / 256 ∷ port % 256 ∷ []))

abbrev pub connect_ip4 : ℕ → ℕ → ℕ → ℕ → ℕ → Bytes
connect_ip4 a b c d port =
    socks_ver5 ∷ socks_cmd_connect ∷ 0 ∷ atyp_ip4 ∷ a ∷ b ∷ c ∷ d ∷ port / 256 ∷ port % 256 ∷ []

pub read_greeting_lem :
    (methods rest : Bytes) → read_greeting (greeting methods ++ rest) ≡ some (methods, rest)
unfolding read_greeting
read_greeting_lem methods rest = read_full-append methods rest

pub read_user_pass_lem :
    (u p rest : Bytes) → read_user_pass (user_pass u p ++ rest) ≡ some (u, p, rest)
unfolding read_user_pass
read_user_pass_lem u p rest =
    rw (append_assoc u (length p ∷ p) rest, read_full-append u (length p ∷ (p ++ rest)))
      (rw (read_full-append p rest))

port_lem : (port : ℕ) → port / 256 * 256 + port % 256 ≡ port
port_lem port = omega arith

read_domain_lem :
    (ip6 : Bytes → Bytes) (host rest : Bytes) (port : ℕ)
    → read_request ip6 (connect_domain host port ++ rest)
      ≡ wanted (join_host_port host (itoa port)) rest
unfolding read_request
read_domain_lem ip6 host rest port = rw (
  append_assoc host (port / 256 ∷ port % 256 ∷ []) rest,
  read_full-append host (port / 256 ∷ port % 256 ∷ rest),
  port_lem port,
)

read_ip4_lem :
    (ip6 : Bytes → Bytes) (a b c d port : ℕ) (rest : Bytes)
    → read_request ip6 (connect_ip4 a b c d port ++ rest)
      ≡ wanted (join_host_port (ip4_string (a ∷ b ∷ c ∷ d ∷ [])) (itoa port)) rest
unfolding read_request
read_ip4_lem ip6 a b c d port rest = rw (port_lem port)

-- Each message that a SOCKS5 client sends is read back as it was meant, and the bytes behind it are
-- left: the methods of the greeting, the user and the password, the target of a CONNECT to a
-- domain or to an IPv4 address, as host and decimal port.
pub messages_lem :
    (methods u p host rest : Bytes) (ip6 : Bytes → Bytes) (a b c d port : ℕ)
    → (read_greeting (greeting methods ++ rest) ≡ some (methods, rest))
      × (read_user_pass (user_pass u p ++ rest) ≡ some (u, p, rest))
      × (read_request ip6 (connect_domain host port ++ rest)
          ≡ wanted (join_host_port host (itoa port)) rest)
      × (read_request ip6 (connect_ip4 a b c d port ++ rest)
          ≡ wanted (join_host_port (ip4_string (a ∷ b ∷ c ∷ d ∷ [])) (itoa port)) rest)
messages_lem methods u p host rest ip6 a b c d port = (
  read_greeting_lem methods rest,
  read_user_pass_lem u p rest,
  read_domain_lem ip6 host rest port,
  read_ip4_lem ip6 a b c d port rest,
)
