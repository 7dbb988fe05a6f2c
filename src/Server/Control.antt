-- ===== src/Server/Control.antt =====
-- internal/server/control.go: the control channel of an agent, from the handshake to its end.
pub mod Authenticated
pub mod Meta
pub mod Totals
pub mod Reported
use proxywi.Common.{
  ℕ, ◌+◌, ◌/◌, Bool, true, false, ◌||◌, not, Option, none, some, List, [], ◌∷◌, ◌++◌, if◌then◌else◌,
  Bytes, codes, same, is_empty, to_lower, Result, ok, err,
}
use proxywi.Storage.Rows.{Db, Client, DbError}
use proxywi.Storage.Clients.{
  token_id_from_token, client_by_token_id, client_by_id, all_client_token_hashes, mark_client_seen,
}
use proxywi.Server.Gate.{Compare}
use proxywi.Server.Registry.{Agent, add, remove}
use proxywi.Server.Hub.{Event, client_event}
use proxywi.Server.Tunnel.{Handshake, HandshakeAck, validate_handshake}
use proxywi.Server.State.{Server, publish_to, unix}

pub data AuthError : Type 0 where
  storage_error : DbError → AuthError
  client_vanished no_matching_token : AuthError

abbrev pub vanished_or : ℕ → Result DbError (Option Client) → Result AuthError (ℕ × Client)
vanished_or id (ok (some cl)) = ok (id, cl)
vanished_or id (ok none) = err client_vanished
vanished_or id (err e) = err client_vanished

-- for id, h := range hashes
unfoldable pub by_hash :
    Compare → Bytes → List (ℕ × Bytes) → Db → Result AuthError (ℕ × Client) × Db
by_hash compare token [] db = (err no_matching_token, db)
by_hash compare token ((id, h) ∷ hashes) db =
    let rest = by_hash compare token hashes db in
    let (r, db') = client_by_id id db in if compare h token then (vanished_or id r, db') else rest

-- With the answer of `AllClientTokenHashes`, in the order in which the map is iterated.
unfoldable pub match_hashes :
    Compare
    → (List (ℕ × Bytes) → List (ℕ × Bytes))
    → Bytes
    → Result DbError (List (ℕ × Bytes))
    → Db
    → Result AuthError (ℕ × Client) × Db
unfolding by_hash
match_hashes compare iterated token (err e) db = (err (storage_error e), db)
match_hashes compare iterated token (ok hashes) db = by_hash compare token (iterated hashes) db

unfoldable pub by_any_hash :
    Compare
    → (List (ℕ × Bytes) → List (ℕ × Bytes))
    → Bytes
    → Db
    → Result AuthError (ℕ × Client) × Db
unfolding match_hashes
by_any_hash compare iterated token db =
    let (r, db') = all_client_token_hashes db in match_hashes compare iterated token r db'

-- With the answer of `ClientByTokenID`.
unfoldable pub match_row :
    Compare
    → (List (ℕ × Bytes) → List (ℕ × Bytes))
    → Bytes
    → Result DbError (Option Client)
    → Db
    → Result AuthError (ℕ × Client) × Db
unfolding by_any_hash
match_row compare iterated token (err e) db = (err (storage_error e), db)
match_row compare iterated token (ok none) db = by_any_hash compare iterated token db
match_row compare iterated token (ok (some cl)) db =
    if compare cl.token_hash token
    then (ok (cl.id, cl), db)
    else by_any_hash compare iterated token db

unfoldable pub authenticate_token :
    Compare
    → (List (ℕ × Bytes) → List (ℕ × Bytes))
    → Bytes
    → Db
    → Result AuthError (ℕ × Client) × Db
unfolding match_row
authenticate_token compare iterated token db =
    let token_id = token_id_from_token token in
    let (r, db') = client_by_token_id token_id db in
    if is_empty token_id
    then by_any_hash compare iterated token db
    else match_row compare iterated token r db'

-- The request's Origin and Host; the first message, where it is a text that decodes; whether the
-- acknowledgement can be written; the number of the yamux session, if there is one.
pub record ControlEnv : Type 0 where
  pub compare : Compare
  pub iterated : List (ℕ × Bytes) → List (ℕ × Bytes)
  pub origin : Bytes
  pub host : Bytes
  pub handshake : Option Handshake
  pub ack_written : Bool
  pub session : Option ℕ

-- strings.EqualFold, of ASCII text.
abbrev pub equal_fold : Bytes → Bytes → Bool
equal_fold s t = same (to_lower s) (to_lower t)

unfoldable pub origin_allowed : Bytes → Bytes → Bool
origin_allowed origin host =
    is_empty origin
    || equal_fold origin (codes "https://" ++ host)
    || equal_fold origin (codes "http://" ++ host)

-- The agent that joined, the acknowledgements, the sessions that were closed, and the server.
pub record Opened : Type 0 where
  pub joined : Option Agent
  pub acks : List HandshakeAck
  pub closed : List ℕ
  pub server : Server

abbrev pub not_joined : List HandshakeAck → Server → Opened
not_joined acks s = record { joined = none; acks = acks; closed = []; server = s }

abbrev pub presence : Bytes → Agent → Event
presence type a = record { type = type; ts = 0; payload = client_event a.id a.name }

-- From the session on; an error of `MarkClientSeen` is logged.
unfoldable pub join_agent : ℕ → Agent → HandshakeAck → Server → Opened
join_agent now a ack s =
    let (registry', closed) = add s.registry a in
    let (seen, db') = mark_client_seen a.id a.agent_version (unix now) s.db in
    record {
      joined = some a;
      acks = ack ∷ [];
      closed = closed;
      server = record s {
        registry = registry';
        db = db';
        hub = publish_to s.hub (presence (codes "client_online") a) now;
      };
    }

-- `serve` until the agent is connected.
unfoldable pub serve_open : ControlEnv → ℕ → Server → Opened
serve_open env now s =
    if not (origin_allowed env.origin env.host) then not_joined [] s else elim env.handshake [
      | none ↦ not_joined [] s
      | some h ↦ elim (validate_handshake h) [
        | err e ↦ not_joined [] s
        | ok done ↦
            let (auth, db') = authenticate_token env.compare env.iterated h.token s.db in
            let s' = record s { db = db' } in
            elim auth [
              | err e ↦
                  not_joined
                    (record { accepted = false; client_id = 0; error = codes "invalid token" } ∷ [])
                    s'
              | ok (id, cl) ↦
                  let ack : HandshakeAck = record { accepted = true; client_id = id; error = [] } in
                  if not env.ack_written then not_joined [] s' else elim env.session [
                    | none ↦ not_joined (ack ∷ []) s'
                    | some session ↦
                        join_agent now
                          (record {
                            id = id;
                            name = cl.name;
                            agent_version = h.agent_version;
                            connect_at = now;
                            session = session;
                          })
                          ack s'
                  ]
            ]
      ]
    ]

-- `serve` after the session closed: the event, and the deferred `Remove`.
unfoldable pub serve_close : Agent → ℕ → Server → Server
serve_close a now s = record s {
  hub = publish_to s.hub (presence (codes "client_offline") a) now;
  registry = remove s.registry a.id a;
}
