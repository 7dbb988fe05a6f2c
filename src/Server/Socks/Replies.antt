-- ===== src/Server/Socks/Replies.antt =====
-- The reply to a CONNECT of the SOCKS5 front end, and the row that it leaves in the request log.
use proxywi.Common.{
  ℕ, ◌<◌, ◌≡◌, refl, ap, ◌≢◌, inl, inr, Option, none, some, [], ◌∷◌, ◌++◌, arith, ◌==◌,
  if◌then◌else◌, ==_iff, Bool-cases, Option-cases, Bytes, codes, Result, ok, err,
}
use proxywi.Common.Map.{IsMap, nat_eq}
use proxywi.Storage.Rows.{Db, User, EventRow}
use proxywi.Storage.Events.{or_null}
use proxywi.Server.Registry.{Agent, PickError, pick_next}
use proxywi.Server.Registry.Fairness.{picked, pick_next_lem}
use proxywi.Server.State.{Server, LogEntry, log_event, unix}
use proxywi.Server.Tunnel.{ProxyReply}
use proxywi.Server.Socks.{Env, entry, relay, dial, failed_entry, connect}
use proxywi.Server.Socks.Wire.{
  Conn, write, socks_reply, rep_success, rep_general_err, rep_net_unreach, rep_host_unreach,
  rep_conn_refuse,
}

-- RFC 1928's code for how far the request came.
abbrev pub reply_to : Option ProxyReply → ℕ
reply_to none = rep_general_err
reply_to (some r) = if r.accepted then rep_success else rep_conn_refuse

abbrev pub reply_code : Env → Option Agent → Bytes → ℕ
reply_code env none target = rep_net_unreach
reply_code env (some a) target =
    if env.opens a target then reply_to (env.reply a target) else rep_host_unreach

-- What the log should say of the request.
abbrev pub outcome_of : ℕ → Bytes
outcome_of code = if code == rep_success then codes "ok" else codes "failed"

abbrev pub agent_id : Option Agent → ℕ
agent_id none = 0
agent_id (some a) = a.id

write_lem : (bs : Bytes) (c : Conn) → 0 < c.writable → (write bs c).1.output ≡ c.output ++ bs
unfolding write
write_lem bs c p = ground arith

-- A log entry, with a working driver, is one row more, with the entry's columns.
abbrev pub Logged : Db → Db → ℕ → ℕ → Bytes → Bytes → Type 0
Logged before after user_id client_id target outcome =
    (row : EventRow) × (after.proxy_events ≡ row ∷ before.proxy_events)
    × (row.user_id ≡ or_null user_id)
    × (row.client_id ≡ or_null client_id)
    × (row.target_host ≡ target)
    × (row.outcome ≡ outcome)

log_event-Logged :
    (l : LogEntry) (now : ℕ) (s : Server)
    → s.db.faults ≡ []
    → l.outcome ≢ []
    → Logged s.db (log_event l now s).db l.user_id l.client_id l.target l.outcome
unfolding log_event
log_event-Logged l now s h ne = (
  record {
    id = s.db.next_event;
    ts = unix now;
    user_id = or_null l.user_id;
    client_id = or_null l.client_id;
    target_host = l.target;
    protocol = l.protocol;
    outcome = l.outcome;
    bytes_in = l.bytes_in;
    bytes_out = l.bytes_out;
    duration_ms = l.duration_ms;
  },
  ground arith,
  refl,
  refl,
  refl,
  refl,
)

log_event-registry :
    (l : LogEntry) (now : ℕ) (s : Server) → (log_event l now s).registry ≡ s.registry
unfolding log_event
log_event-registry l now s = ground arith

relay_lem :
    (env : Env) (now : ℕ) (u : User) (a : Agent) (target : Bytes) (c : Conn) (s : Server)
    → 0 < c.writable
    → s.db.faults ≡ []
    → let after = relay env now u a target c s in
      (after.0.output ≡ c.output ++ socks_reply rep_success)
      × Logged s.db after.1.db u.id a.id target (codes "ok")
      × (after.1.registry ≡ s.registry)
unfolding relay write
relay_lem env now u a target c s p h = elim (Bool-cases (c.writable == 0)) [
  | inl e ↦ absurd (omega (arith, (==_iff c.writable 0).0 e))
  | inr e ↦ rw e (refl, log_event-Logged _ now s h (ground arith), log_event-registry _ now s)
]

dial-replies :
    (env : Env) (now : ℕ) (u : User) (target : Bytes) (c : Conn) (s : Server)
    → (answer : Result PickError (Option Agent)) → answer ≢ ok none
    → 0 < c.writable
    → s.db.faults ≡ []
    → let code = reply_code env (picked answer) target in
      let after = dial env now u target c s answer in
      (after.conn.output ≡ c.output ++ socks_reply code)
      × (after.dials ≡ elim (picked answer) [ none ↦ [] | some a ↦ (a, target) ∷ [] ])
      × Logged s.db after.server.db u.id (agent_id (picked answer)) target (outcome_of code)
      × (after.server.registry ≡ s.registry)
unfolding dial
dial-replies env now u target c s (err e) some_agent p h =
    let l = entry u.id u.username 0 [] target (codes "failed") in
    (
      write_lem (socks_reply rep_net_unreach) c p,
      refl,
      log_event-Logged l now s h (ground arith),
      log_event-registry l now s,
    )
dial-replies env now u target c s (ok none) some_agent p h = absurd (some_agent refl)
dial-replies env now u target c s (ok (some a)) some_agent p h =
    let logged = log_event-Logged (failed_entry u a target) now s h (ground arith) in
    let kept = log_event-registry (failed_entry u a target) now s in
    elim (Bool-cases (env.opens a target)) [
      | inr shut ↦ rw shut (write_lem (socks_reply rep_host_unreach) c p, refl, logged, kept)
      | inl opened ↦ elim (Option-cases (env.reply a target)) [
        | inl unread ↦
            rw opened (rw unread (write_lem (socks_reply rep_general_err) c p, refl, logged, kept))
        | inr (r, read) ↦ elim (Bool-cases r.accepted) [
          | inr refused ↦ rw opened (
              rw read
                (rw refused (write_lem (socks_reply rep_conn_refuse) c p, refl, logged, kept)))
          | inl taken ↦
              let (written, logged', kept') = relay_lem env now u a target c s p h in
              rw opened (rw read (rw taken (written, refl, logged', kept')))
        ]
      ]
    ]

-- Where the client can be written to, the driver works and the map of agents has no duplicate
-- keys, a CONNECT is answered with one reply, whose code says how far the request came; a stream
-- is asked for exactly where an agent is online, of the agent that `PickNext` gives; one row is
-- logged, with the user, the agent, the target, and the outcome "ok" exactly where the reply is
-- that of success; and the registry is as `PickNext` leaves it.
pub connect-replies :
    (env : Env) (now : ℕ) (u : User) (target : Bytes) (c : Conn) (s : Server)
    → IsMap s.registry.agents
    → 0 < c.writable
    → s.db.faults ≡ []
    → let agent = picked (pick_next s.registry).0 in
      let code = reply_code env agent target in
      let after = connect env now u target c s in
      (after.conn.output ≡ c.output ++ socks_reply code)
      × (after.dials ≡ elim agent [ none ↦ [] | some a ↦ (a, target) ∷ [] ])
      × Logged s.db after.server.db u.id (agent_id agent) target (outcome_of code)
      × (after.server.registry ≡ (pick_next s.registry).1)
unfolding connect
connect-replies env now u target c s m p h =
    let some_agent : (pick_next s.registry).0 ≢ ok none = elim (pick_next_lem s.registry m) [
      | inl (offline, e) ↦ λ z. absurd (cc (ap (λ x. x.0) e, z))
      | inr (a, next, found, is_next, e) ↦ λ z. absurd (cc (ap (λ x. x.0) e, z))
    ] in
    dial-replies env now u target c (record s { registry = (pick_next s.registry).1 })
      (pick_next s.registry).0 some_agent p h
