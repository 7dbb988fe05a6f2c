-- ===== src/Tests/Channel.antt =====
-- internal/server/control.go.
use proxywi.Common.{
  ℕ, zero, suc, ◌+◌, ◌-◌, ◌*◌, ◌/◌, ◌%◌, ◌^◌, ◌≤◌, ◌<◌, ◌≡◌, refl, sym, ap, ◌∙◌, ◌≢◌, ◌↔◌, ◌⊎◌, inl,
  inr, Bool, true, false, ◌&&◌, ◌||◌, not, Option, none, some, List, [], ◌∷◌, ◌++◌, map,
  append_assoc, append-nil, arith, ltb, leb, ◌==◌, if◌then◌else◌, ltb→lt, lt→ltb, leb→le, ==_iff,
  ==_refl, Bool-cases, Option-cases, length, take, drop, replicate, keep, first, any, All,
  length-append, take-append-drop, length-take, length-replicate, length-keep, length-drop,
  drop-drop, take-length_append, drop-length_append, All-append, All-keep, Bytes, codes, same,
  same_refl, same→eq, same_iff, is_empty, is_empty→nil, has_prefix, trim_prefix, index_byte, split,
  join, trim_space, to_lower, Result, ok, err, Result-cases,
}
use proxywi.Storage.Query.{query, next_fault, spent}
use proxywi.Storage.Clients.{
  token_id_from_token, client_by_token_id, client_by_id, all_client_token_hashes,
}
use proxywi.Server.Registry.{Agent}
use proxywi.Server.Tunnel.{Handshake, validate_handshake, protocol_version}
use proxywi.Server.Control.{
  ControlEnv, authenticate_token, by_hash, by_any_hash, match_hashes, match_row, vanished_or,
  serve_open, join_agent, origin_allowed,
}
use proxywi.Server.Control.Authenticated.{Holds, serve_open_sound}
use proxywi.Server.Control.Meta.{MetaStep, received, ticked, read_meta_stream}
use proxywi.Client.Metrics.{Counters, meta_loop, reported, ticks, heartbeat}
use proxywi.Server.Control.Totals.{stored}
use proxywi.Server.Control.Reported.{messages, read_meta_stream-meta_loop}
use proxywi.Tests.Data.{compare, server}

-- The client of id 3 connects with the token "t".
abbrev env : ControlEnv
env = record {
  compare = compare;
  iterated = λ hashes. hashes;
  origin = codes "https://P.example";
  host = codes "p.example";
  handshake =
      some (record { version = 1; token = codes "t"; name = []; agent_version = codes "1.2" });
  ack_written = true;
  session = some 12;
}

abbrev joined_agent : Agent
joined_agent = record {
  id = 3;
  name = codes "mildly-brisk-otter";
  agent_version = codes "1.2";
  connect_at = 100;
  session = 12;
}

agent_joins : (serve_open env 100 server).joined ≡ some joined_agent
unfolding serve_open origin_allowed join_agent validate_handshake
    proxywi.Server.Control.authenticate_token proxywi.Server.Control.match_row
    proxywi.Storage.Clients.token_id_from_token proxywi.Storage.Clients.client_by_token_id
    proxywi.Storage.Query.query proxywi.Common.same proxywi.Common.to_lower
agent_joins = refl

serve_open_sound_example :
    (h : Handshake) × (env.handshake ≡ some h)
    × (h.version ≡ protocol_version)
    × (h.token ≢ [])
    × (origin_allowed env.origin env.host ≡ true)
    × Holds env.compare h.token joined_agent.id server.db
serve_open_sound_example = serve_open_sound env 100 server joined_agent (λ p l. refl) agent_joins

abbrev reading : ℕ → ℕ → Counters
reading i o = record { bytes_in = i; bytes_out = o; active_conns = 1 }

abbrev two_readings : List Counters
two_readings = reading 10 4 ∷ reading 30 9 ∷ []

abbrev metrics_read : ℕ → ℕ → MetaStep
metrics_read i o =
    received (record { type = codes "metrics"; bytes_in = i; bytes_out = o; active_conns = 1 })

abbrev steps : List (ℕ × MetaStep)
steps =
    (100, received heartbeat)
    ∷ (105, metrics_read 10 4)
    ∷ (106, ticked)
    ∷ (110, metrics_read 20 5)
    ∷ []

steps_read : messages steps ≡ meta_loop true 2 two_readings
unfolding meta_loop ticks
steps_read = refl

read_meta_stream-meta_loop_example :
    let after = read_meta_stream joined_agent steps server in
    let sent = reported 2 0 0 two_readings in
    ((stored joined_agent.id after.db).0 ≡ sent.0 + (stored joined_agent.id server.db).0)
    × ((stored joined_agent.id after.db).1 ≡ sent.1 + (stored joined_agent.id server.db).1)
    × ((stored 5 after.db).0 ≡ (stored 5 server.db).0)
    × ((stored 5 after.db).1 ≡ (stored 5 server.db).1)
read_meta_stream-meta_loop_example =
    read_meta_stream-meta_loop joined_agent steps server true 2 two_readings 5 refl steps_read
      (omega arith, omega arith, (omega arith, omega arith, tt)) (λ e. omega (arith, e))
