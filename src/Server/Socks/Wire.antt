-- ===== src/Server/Socks/Wire.antt =====
-- The messages of internal/server/proxy_socks.go. The connection is the bytes that the client
-- sends before it closes, what was written to it, and how many more writes succeed.
use proxywi.Common.{
  ℕ, zero, suc, ◌+◌, ◌-◌, ◌*◌, ◌/◌, ◌%◌, Bool, true, false, ◌||◌, not, Option, none, some, [], ◌∷◌,
  ◌++◌, map, ltb, ◌==◌, if◌then◌else◌, any, Bytes, join,
}
use proxywi.Common.{◌>>=◌}

pub record Conn : Type 0 where
  pub input : Bytes
  pub output : Bytes
  pub writable : ℕ

-- conn.Write: whether it succeeds.
unfoldable pub write : Bytes → Conn → Bool × Conn
write bs c =
    if c.writable == 0
    then (false, c)
    else (true, record c { output = c.output ++ bs; writable = c.writable - 1 })

abbrev pub socks_ver5 : ℕ
socks_ver5 = 0x05

abbrev pub socks_auth_user_pass : ℕ
socks_auth_user_pass = 0x02

abbrev pub socks_auth_no_accept : ℕ
socks_auth_no_accept = 0xff

abbrev pub socks_cmd_connect : ℕ
socks_cmd_connect = 0x01

abbrev pub atyp_ip4 : ℕ
atyp_ip4 = 0x01

abbrev pub atyp_domain : ℕ
atyp_domain = 0x03

abbrev pub atyp_ip6 : ℕ
atyp_ip6 = 0x04

abbrev pub rep_success : ℕ
rep_success = 0x00

abbrev pub rep_general_err : ℕ
rep_general_err = 0x01

abbrev pub rep_net_unreach : ℕ
rep_net_unreach = 0x03

abbrev pub rep_host_unreach : ℕ
rep_host_unreach = 0x04

abbrev pub rep_conn_refuse : ℕ
rep_conn_refuse = 0x05

abbrev pub rep_cmd_not_sup : ℕ
rep_cmd_not_sup = 0x07

abbrev pub rep_atyp_not_sup : ℕ
rep_atyp_not_sup = 0x08

abbrev pub refusal : Bytes
refusal = 0x01 ∷ 0x01 ∷ []

-- io.ReadFull of `n` bytes: those and what is left, or an error.
unfoldable pub read_full : ℕ → Bytes → Option (Bytes × Bytes)
read_full zero s = some ([], s)
read_full (suc n) [] = none
read_full (suc n) (c ∷ s) =
    let rest = read_full n s in elim rest [ none ↦ none | some (bs, left) ↦ some (c ∷ bs, left) ]

abbrev pub only_if : Bool → Option (Unit {0})
only_if true = some tt
only_if false = none

-- One byte.
abbrev pub read_byte : Bytes → Option (ℕ × Bytes)
read_byte [] = none
read_byte (c ∷ s) = some (c, s)

unfoldable pub read_greeting : Bytes → Option (Bytes × Bytes)
unfolding read_full
read_greeting [] = none
read_greeting (ver ∷ []) = none
read_greeting (ver ∷ count ∷ s) = if not (ver == socks_ver5) then none else read_full count s

unfoldable pub contains_byte : Bytes → ℕ → Bool
contains_byte [] v = false
contains_byte (c ∷ b) v = c == v || contains_byte b v

unfoldable pub read_user_pass : Bytes → Option (Bytes × Bytes × Bytes)
unfolding read_full
read_user_pass s = do
  v ← read_byte s
  only_if (v.0 == 0x01) >>= λ _. do
    ulen ← read_byte v.1
    uname ← read_full ulen.0 ulen.1
    plen ← read_byte uname.1
    pw ← read_full plen.0 plen.1
    some (uname.0, pw.0, pw.1)

-- The decimal digits of a number below 2^16, of strconv.Itoa.
unfoldable pub itoa : ℕ → Bytes
itoa n =
    if ltb n 10
    then (b'0' + n) ∷ []
    else if ltb n 100
    then (b'0' + n / 10) ∷ (b'0' + n % 10) ∷ []
    else if ltb n 1000
    then (b'0' + n / 100) ∷ (b'0' + n / 10 % 10) ∷ (b'0' + n % 10) ∷ []
    else if ltb n 10000
    then (b'0' + n / 1000) ∷ (b'0' + n / 100 % 10) ∷ (b'0' + n / 10 % 10) ∷ (b'0' + n % 10) ∷ []
    else (b'0' + n / 10000)
      ∷ (b'0' + n / 1000 % 10)
      ∷ (b'0' + n / 100 % 10)
      ∷ (b'0' + n / 10 % 10)
      ∷ (b'0' + n % 10)
      ∷ []

-- net.IP.String of four bytes
unfoldable pub ip4_string : Bytes → Bytes
unfolding itoa join
ip4_string ip = join (map itoa ip) b'.'

-- net.JoinHostPort
unfoldable pub join_host_port : Bytes → Bytes → Bytes
join_host_port host port =
    if any (λ c. c == b':') host
    then (b'[' ∷ host) ++ (b']' ∷ b':' ∷ port)
    else host ++ (b':' ∷ port)

-- A read that failed, a reply code that was written, or the target and what is left.
pub data Request : Type 0 where
  broken : Request
  rejected : ℕ → Request
  wanted : Bytes → Bytes → Request

abbrev finish : Option (Bytes × Bytes) → Request
finish none = broken
finish (some (t, s)) = wanted t s

-- The port, after the host.
unfoldable pub read_port : Bytes → Bytes → Option (Bytes × Bytes)
unfolding join_host_port itoa
read_port host (hi ∷ lo ∷ s) = some (join_host_port host (itoa (hi * 256 + lo)), s)
read_port host _ = none

module _ (ip6_string : Bytes → Bytes) where
  unfoldable pub read_address : ℕ → Bytes → Request
  unfolding read_full read_port ip4_string
  read_address atyp s =
      if atyp == atyp_ip4
      then finish (do ip ← read_full 4 s; read_port (ip4_string ip.0) ip.1)
      else if atyp == atyp_domain
      then finish (do l ← read_byte s; d ← read_full l.0 l.1; read_port d.0 d.1)
      else if atyp == atyp_ip6
      then finish (do ip ← read_full 16 s; read_port (ip6_string ip.0) ip.1)
      else rejected rep_atyp_not_sup

  unfoldable pub read_request : Bytes → Request
  unfolding read_address
  read_request (ver ∷ cmd ∷ rsv ∷ atyp ∷ s) =
      if not (ver == socks_ver5)
      then broken
      else if not (cmd == socks_cmd_connect)
      then rejected rep_cmd_not_sup
      else read_address atyp s
  read_request _ = broken

unfoldable pub socks_reply : ℕ → Bytes
socks_reply status = (socks_ver5 ∷ status ∷ 0x00 ∷ atyp_ip4 ∷ []) ++ (0 ∷ 0 ∷ 0 ∷ 0 ∷ 0 ∷ 0 ∷ [])
