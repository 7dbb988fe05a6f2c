-- ===== src/Server/Http.antt =====
-- internal/server/proxy_http.go: the HTTP front end, one request at a time.
pub mod Basic
pub mod Credentials
pub mod Headers
pub mod Stripping
pub mod Authorized
use proxywi.Common.{
  ℕ, ◌+◌, ◌-◌, Bool, ◌&&◌, ◌||◌, not, Option, none, some, List, [], ◌∷◌, ◌++◌, ◌==◌, if◌then◌else◌,
  length, any, Bytes, codes, same, is_empty, Result, ok, err,
}
use proxywi.Storage.Rows.{User}
use proxywi.Server.Gate.{Compare, verify_credentials, allow_proxy_request}
use proxywi.Server.Registry.{Agent, PickError, pick_next}
use proxywi.Server.State.{Server, LogEntry, log_event}
use proxywi.Server.Tunnel.{ProxyReply}
use Basic.{parse_proxy_auth}
use Headers.{Header, header_get, header_del, strip_hop_by_hop_headers}

-- The parts of *http.Request that are read: its URL as IsAbs and Host say it.
pub record HttpRequest : Type 0 where
  pub method : Bytes
  pub host : Bytes
  pub url_is_abs : Bool
  pub url_host : Bytes
  pub header : Header

abbrev pub is_connect : HttpRequest → Bool
is_connect r = same r.method (codes "CONNECT")

unfoldable pub is_proxy_request : HttpRequest → Bool
is_proxy_request r = is_connect r || (r.url_is_abs && not (is_empty r.url_host))

-- What the network and the packages answer: bcrypt; whether a stream to an agent opens and takes
-- the request, and the agent's reply line, if it can be read; whether the writer is a Hijacker and
-- Hijack succeeds; whether the 200 line goes out; the bytes that are buffered then; what `pipe`
-- copies each way, and for how long; the bytes that `r.Write` sends, if it succeeds; the header of
-- the response, if it can be read; the bytes that `resp.Write` sends, if it succeeds.
pub record HttpEnv : Type 0 where
  pub compare : Compare
  pub opens : Agent → Bytes → Bool
  pub reply : Agent → Bytes → Option ProxyReply
  pub is_hijacker : Bool
  pub hijacks : Bool
  pub establishes : Bool
  pub buffered : Bytes
  pub piped_in : ℕ
  pub piped_out : ℕ
  pub duration_ms : ℕ
  pub request_bytes : Header → Option ℕ
  pub response_header : Option Header
  pub response_bytes : Header → Option ℕ

-- The status of http.Error, where the code answers with one; the streams that were asked for; the
-- headers that were handed to `Request.Write` and `Response.Write`, which put their own lines on the
-- wire around them.
pub record HttpOutcome : Type 0 where
  pub status : Option ℕ
  pub server : Server
  pub dials : List (Agent × Bytes)
  pub sent_header : Option Header
  pub returned_header : Option Header

abbrev pub http_entry : ℕ → Bytes → ℕ → Bytes → Bytes → Bytes → LogEntry
http_entry user_id user client_id client_name target outcome = record {
  user_id = user_id;
  user = user;
  client_id = client_id;
  client_name = client_name;
  target = target;
  protocol = codes "http";
  outcome = outcome;
  bytes_in = 0;
  bytes_out = 0;
  duration_ms = 0;
}

abbrev pub agent_entry : User → Agent → Bytes → Bytes → LogEntry
agent_entry u a target outcome = http_entry u.id u.username a.id a.name target outcome

abbrev pub answered : Option ℕ → List (Agent × Bytes) → Server → HttpOutcome
answered status dials s = record {
  status = status;
  server = s;
  dials = dials;
  sent_header = none;
  returned_header = none;
}

unfoldable pub target_of : HttpRequest → Bytes
target_of r =
    let target = if not (is_connect r) && r.url_is_abs then r.url_host else r.host in
    if any (λ c. c == b':') target
    then target
    else if is_connect r
    then target ++ codes ":443"
    else target ++ codes ":80"

-- r.Header as it is when `r.Write` is called, which adds its own Host, User-Agent and the like.
unfoldable pub request_header : HttpRequest → Header
request_header r =
    header_del (header_del (strip_hop_by_hop_headers r.header) (codes "Proxy-Authorization"))
      (codes "Proxy-Connection")

-- After the hijack, for CONNECT.
unfoldable pub tunnel : HttpEnv → ℕ → User → Agent → Bytes → Server → HttpOutcome
tunnel env now u a target s =
    let dials = (a, target) ∷ [] in
    if not env.establishes
    then answered none dials s
    else answered none dials (
        log_event
          (record (agent_entry u a target (codes "ok")) {
            bytes_in = env.piped_in;
            bytes_out = length env.buffered + env.piped_out;
            duration_ms = env.duration_ms;
          })
          now s)

-- After the request went out, in `sent` bytes: the response.
unfoldable pub return_response :
    HttpEnv → ℕ → User → Agent → Bytes → Server → ℕ → Header → HttpOutcome
return_response env now u a target s sent header =
    let failed : LogEntry = record (agent_entry u a target (codes "failed")) {
      bytes_out = sent;
      duration_ms = env.duration_ms;
    } in
    let out : Option Header → LogEntry → HttpOutcome = λ returned l. record {
      status = none;
      server = log_event l now s;
      dials = (a, target) ∷ [];
      sent_header = some header;
      returned_header = returned;
    } in
    elim env.response_header [
      | none ↦ out none failed
      | some h ↦
          let h' = strip_hop_by_hop_headers h in
          elim (env.response_bytes h') [
            | none ↦ out (some h') failed
            | some n ↦ out (some h') (record failed { outcome = codes "ok"; bytes_in = n })
          ]
    ]

-- After the hijack, for the other methods.
unfoldable pub forward : HttpEnv → ℕ → User → Agent → Bytes → HttpRequest → Server → HttpOutcome
forward env now u a target r s =
    let header = request_header r in
    elim (env.request_bytes header) [
      | none ↦ record {
        status = none;
        server = log_event (agent_entry u a target (codes "failed")) now s;
        dials = (a, target) ∷ [];
        sent_header = some header;
        returned_header = none;
      }
      | some sent ↦ return_response env now u a target s sent header
    ]

-- From the agent on.
unfoldable pub through : HttpEnv → ℕ → User → Agent → HttpRequest → Server → HttpOutcome
through env now u a r s =
    let target = target_of r in
    let failed : Option ℕ → HttpOutcome = λ status.
      answered status ((a, target) ∷ [])
        (log_event (agent_entry u a target (codes "failed")) now s) in
    if not (env.opens a target) then failed (some 502) else elim (env.reply a target) [
      | none ↦ failed (some 502)
      | some reply ↦
          if not reply.accepted
          then failed (some 502)
          else if not env.is_hijacker
          then failed (some 500)
          else if not env.hijacks
          then failed none
          else if is_connect r
          then tunnel env now u a target s
          else forward env now u a target r s
    ]

-- From the answer of `PickNext` on.
unfoldable pub with_agent :
    HttpEnv → ℕ → User → HttpRequest → Server → Result PickError (Option Agent) → HttpOutcome
with_agent env now u r s (err e) =
    answered (some 502) [] (log_event (http_entry u.id u.username 0 [] [] (codes "failed")) now s)
with_agent env now u r s (ok none) = answered none [] s
with_agent env now u r s (ok (some a)) = through env now u a r s

-- With the credentials.
unfoldable pub authorize : HttpEnv → ℕ → Bytes → Bytes → HttpRequest → Server → HttpOutcome
authorize env now user pass r s =
    let (verdict, db') = verify_credentials env.compare user pass s.db in
    let s' = record s { db = db' } in
    let denied =
      answered (some 407) [] (log_event (http_entry 0 user 0 [] [] (codes "denied")) now s') in
    if not verdict.1 then denied else elim verdict.0 [
      | none ↦ denied
      | some u ↦
          let (limiter', passed) = allow_proxy_request s'.limiter now u.username in
          let s'' = record s' { limiter = limiter' } in
          if not passed
          then answered (some 429) []
              (log_event (http_entry u.id u.username 0 [] [] (codes "denied")) now s'')
          else (let (picked, registry') = pick_next s''.registry in
              with_agent env now u r (record s'' { registry = registry' }) picked)
    ]

unfoldable pub serve_http : HttpEnv → ℕ → HttpRequest → Server → HttpOutcome
serve_http env now r s =
    elim (parse_proxy_auth (header_get r.header (codes "Proxy-Authorization"))) [
      | none ↦ answered (some 407) [] s
      | some (user, pass) ↦ authorize env now user pass r s
    ]
