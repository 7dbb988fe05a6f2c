-- ===== src/Server/Socks.antt =====
-- internal/server/proxy_socks.go: the SOCKS5 front end, one connection at a time.
pub mod Wire
pub mod RoundTrip
pub mod Access
pub mod Replies
pub mod Serve
use proxywi.Common.{
  ℕ, ◌+◌, Bool, not, Option, none, some, List, [], ◌∷◌, if◌then◌else◌, length, take, drop, Bytes,
  codes, Result, ok, err,
}
use proxywi.Storage.Rows.{User}
use proxywi.Server.Gate.{Compare, verify_credentials, allow_proxy_request}
use proxywi.Server.Registry.{Agent, PickError, pick_next}
use proxywi.Server.State.{Server, LogEntry, log_event}
use proxywi.Server.Tunnel.{ProxyReply}
use Wire.{
  Conn, write, read_greeting, contains_byte, read_user_pass, read_request, socks_reply, refusal,
  socks_ver5, socks_auth_user_pass, socks_auth_no_accept, rep_success, rep_general_err,
  rep_net_unreach, rep_host_unreach, rep_conn_refuse, Request, wanted, rejected, broken,
}

-- What the network and the packages answer: bcrypt; the text of an IPv6 address; whether a stream
-- to an agent opens and takes the request, and the agent's reply line, if it can be read; the bytes
-- that `bufio` has read ahead when the relay starts; what `pipe` copies each way, and for how long.
pub record Env : Type 0 where
  pub compare : Compare
  pub ip6_string : Bytes → Bytes
  pub opens : Agent → Bytes → Bool
  pub reply : Agent → Bytes → Option ProxyReply
  pub buffered : ℕ
  pub piped_in : ℕ
  pub piped_out : ℕ
  pub duration_ms : ℕ

-- The connection and the server after it, and the streams that were asked for: agent and target.
pub record Outcome : Type 0 where
  pub conn : Conn
  pub server : Server
  pub dials : List (Agent × Bytes)

abbrev pub entry : ℕ → Bytes → ℕ → Bytes → Bytes → Bytes → LogEntry
entry user_id user client_id client_name target outcome = record {
  user_id = user_id;
  user = user;
  client_id = client_id;
  client_name = client_name;
  target = target;
  protocol = codes "socks";
  outcome = outcome;
  bytes_in = 0;
  bytes_out = 0;
  duration_ms = 0;
}

abbrev pub stop : Conn → Server → Outcome
stop c s = record { conn = c; server = s; dials = [] }

-- From the success reply on.
unfoldable pub relay : Env → ℕ → User → Agent → Bytes → Conn → Server → Conn × Server
relay env now u agent target c s =
    let (sent, c') = write (socks_reply rep_success) c in
    if not sent then (c', s) else (
      record c' { input = drop env.buffered c'.input },
      log_event
          (record (entry u.id u.username agent.id agent.name target (codes "ok")) {
            bytes_in = env.piped_in;
            bytes_out = length (take env.buffered c'.input) + env.piped_out;
            duration_ms = env.duration_ms;
          })
          now s,
    )

abbrev pub failed_entry : User → Agent → Bytes → LogEntry
failed_entry u a target = entry u.id u.username a.id a.name target (codes "failed")

-- From the answer of `PickNext` on.
unfoldable pub dial :
    Env → ℕ → User → Bytes → Conn → Server → Result PickError (Option Agent) → Outcome
dial env now u target c s (err e) =
    stop (write (socks_reply rep_net_unreach) c).1
      (log_event (entry u.id u.username 0 [] target (codes "failed")) now s)
dial env now u target c s (ok none) = stop c s
dial env now u target c s (ok (some agent)) =
    let refuse : ℕ → Outcome = λ code. record {
      conn = (write (socks_reply code) c).1;
      server = log_event (failed_entry u agent target) now s;
      dials = (agent, target) ∷ [];
    } in
    if not (env.opens agent target)
    then refuse rep_host_unreach
    else elim (env.reply agent target) [
      | none ↦ refuse rep_general_err
      | some r ↦
          if not r.accepted
          then refuse rep_conn_refuse
          else (let (c', s') = relay env now u agent target c s in
              record { conn = c'; server = s'; dials = (agent, target) ∷ [] })
    ]

-- From the target on.
unfoldable pub connect : Env → ℕ → User → Bytes → Conn → Server → Outcome
connect env now u target c s =
    let (answer, registry') = pick_next s.registry in
    dial env now u target c (record s { registry = registry' }) answer

-- From the request on.
unfoldable pub serve_request : Env → ℕ → User → Conn → Server → Outcome
serve_request env now u c s = elim (read_request env.ip6_string c.input) [
  | broken ↦ stop c s
  | rejected code ↦ stop (write (socks_reply code) c).1 s
  | wanted t rest ↦ connect env now u t (record c { input = rest }) s
]

-- With the credentials.
unfoldable pub admit : Env → ℕ → Bytes → Bytes → Conn → Server → Outcome
admit env now username password c s =
    let (verdict, db') = verify_credentials env.compare username password s.db in
    let s' = record s { db = db' } in
    let denied =
      stop (write refusal c).1 (log_event (entry 0 username 0 [] [] (codes "denied")) now s') in
    if not verdict.1 then denied else elim verdict.0 [
      | none ↦ denied
      | some u ↦
          let (limiter', passed) = allow_proxy_request s'.limiter now u.username in
          let s'' = record s' { limiter = limiter' } in
          if not passed
          then stop (write refusal c).1
              (log_event (entry u.id u.username 0 [] [] (codes "denied")) now s'')
          else (let (sent, c') = write (1 ∷ 0 ∷ []) c in
              if not sent then stop c' s'' else serve_request env now u c' s'')
    ]

-- From the message with the credentials on.
unfoldable pub login : Env → ℕ → Conn → Server → Outcome
login env now c s = elim (read_user_pass c.input) [
  | none ↦ stop c s
  | some (username, password, rest) ↦ admit env now username password (record c { input = rest }) s
]

unfoldable pub handle : Env → ℕ → Conn → Server → Outcome
handle env now c s = elim (read_greeting c.input) [
  | none ↦ stop c s
  | some (methods, rest) ↦
      let c' = record c { input = rest } in
      if not (contains_byte methods socks_auth_user_pass)
      then stop (write (socks_ver5 ∷ socks_auth_no_accept ∷ []) c').1 s
      else (let (sent, c'') = write (socks_ver5 ∷ socks_auth_user_pass ∷ []) c' in
          if not sent then stop c'' s else login env now c'' s)
]
