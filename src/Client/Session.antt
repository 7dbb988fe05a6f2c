-- ===== src/Client/Session.antt =====
-- internal/client/client.go: `Run`, one connection of the agent to the server.
use proxywi.Common.{
  ◌≡◌, refl, sym, ap, ◌∙◌, inl, inr, Bool, true, false, not, Option, none, some, [], arith,
  if◌then◌else◌, Bool-cases, Bytes, Result, ok, err,
}
use proxywi.Config.{Environ, ClientConfig, load_client, load_client-Usable}
use proxywi.Server.Tunnel.{protocol_version, Handshake, HandshakeAck, validate_handshake}

-- Why the accepting of streams ended.
pub data AcceptError : Type 0 where
  end_of_file session_shutdown accept_failed : AcceptError

-- What the network does: whether the websocket is there and takes the handshake; the frame that is
-- read, with whether it is text and what it decodes to; whether the session and its first stream are
-- there; why no more streams come.
pub record RunEnv : Type 0 where
  pub dialed : Bool
  pub written : Bool
  pub ack : Option (Bool × Option HandshakeAck)
  pub session : Bool
  pub meta_stream : Bool
  pub ending : AcceptError

pub data RunError : Type 0 where
  dial_error write_error read_error ack_not_text decode_error : RunError
  rejected : Bytes → RunError
  session_error stream_error accept_error : RunError

-- The handshake that was written, whether `metaLoop` was started, and what `Run` returns.
pub record RunOutcome : Type 0 where
  pub sent : Option Handshake
  pub started : Bool
  pub result : Result RunError (Unit {0})

abbrev pub handshake_of : Bytes → Bytes → Handshake
handshake_of token agent_version = record {
  version = protocol_version;
  token = token;
  name = [];
  agent_version = agent_version;
}

abbrev pub stopped : Option Handshake → RunError → RunOutcome
stopped sent e = record { sent = sent; started = false; result = err e }

abbrev pub ended_with : AcceptError → Result RunError (Unit {0})
ended_with end_of_file = ok tt
ended_with session_shutdown = ok tt
ended_with accept_failed = err accept_error

-- From the decoded answer on.
unfoldable pub tunnel_up : RunEnv → Handshake → HandshakeAck → RunOutcome
tunnel_up env h ack =
    if not ack.accepted
    then stopped (some h) (rejected ack.error)
    else if not env.session
    then stopped (some h) session_error
    else if not env.meta_stream
    then stopped (some h) stream_error
    else record { sent = some h; started = true; result = ended_with env.ending }

abbrev pub read_ack : RunEnv → Handshake → Option (Bool × Option HandshakeAck) → RunOutcome
read_ack env h none = stopped (some h) read_error
read_ack env h (some (false, ack)) = stopped (some h) ack_not_text
read_ack env h (some (true, none)) = stopped (some h) decode_error
read_ack env h (some (true, some ack)) = tunnel_up env h ack

-- With the token and the version of the agent.
unfoldable pub run_agent : RunEnv → Bytes → Bytes → RunOutcome
unfolding tunnel_up
run_agent env token agent_version =
    let h = handshake_of token agent_version in
    if not env.dialed
    then stopped none dial_error
    else if not env.written
    then stopped none write_error
    else read_ack env h env.ack

read_ack-started :
    (env : RunEnv) (h : Handshake) (o : Option (Bool × Option HandshakeAck))
    → (read_ack env h o).started ≡ true
    → (ack : HandshakeAck) × (o ≡ some (true, some ack)) × (ack.accepted ≡ true)
unfolding tunnel_up
read_ack-started env h none s = absurd cc
read_ack-started env h (some (false, ack)) s = absurd cc
read_ack-started env h (some (true, none)) s = absurd cc
read_ack-started env h (some (true, some ack)) s = elim (Bool-cases ack.accepted) [
  | inl e ↦ (ack, refl, e)
  | inr e ↦ absurd (cc (rw (tunnel_up, e) at s))
]

read_ack-sent :
    (env : RunEnv) (h : Handshake) (o : Option (Bool × Option HandshakeAck))
    → (read_ack env h o).sent ≡ some h
unfolding tunnel_up
read_ack-sent env h none = refl
read_ack-sent env h (some (false, ack)) = refl
read_ack-sent env h (some (true, none)) = refl
read_ack-sent env h (some (true, some ack)) = ground arith

-- With a configuration that `LoadClient` loads, whatever the network does: a handshake that the agent
-- writes is one that the server's `ValidateHandshake` takes, and carries the configured token; and the
-- agent reports its counters only after the server's answer accepted it.
pub run_agent-validate_handshake :
    (getenv : Environ) (c : ClientConfig) (env : RunEnv) (agent_version : Bytes)
    → load_client getenv ≡ ok c
    → ((h : Handshake)
        → (run_agent env c.token agent_version).sent ≡ some h
        → (validate_handshake h ≡ ok tt) × (h.token ≡ c.token))
      × ((run_agent env c.token agent_version).started ≡ true
          → (ack : HandshakeAck) × (env.ack ≡ some (true, some ack)) × (ack.accepted ≡ true))
unfolding run_agent validate_handshake
run_agent-validate_handshake getenv c env agent_version loaded =
    let h = handshake_of c.token agent_version in
    let given = (load_client-Usable getenv c loaded).0 in
    let valid : validate_handshake h ≡ ok tt = rw (validate_handshake, given) refl in
    elim (Bool-cases env.dialed) [
      | inr e ↦
          (λ g s. absurd (cc (rw (run_agent, e) at s)), λ s. absurd (cc (rw (run_agent, e) at s)))
      | inl e ↦ elim (Bool-cases env.written) [
        | inr w ↦ (
          λ g s. absurd (cc (rw (run_agent, e, w) at s)),
          λ s. absurd (cc (rw (run_agent, e, w) at s)),
        )
        | inl w ↦ (
          λ g s.
              let same_h : h ≡ g = cc (read_ack-sent env h env.ack, rw (run_agent, e, w) at s) in
              (
                ap validate_handshake (sym same_h) ∙ valid,
                ap (λ (x : Handshake). x.token) (sym same_h),
              ),
          λ s. read_ack-started env h env.ack (rw (run_agent, e, w) at s),
        )
      ]
    ]
