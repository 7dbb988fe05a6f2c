-- ===== src/Tests/Socks.antt =====
-- internal/server/proxy_socks.go.
use proxywi.Common.{
  ℕ, zero, suc, ◌+◌, ◌-◌, ◌*◌, ◌/◌, ◌%◌, ◌^◌, ◌≤◌, ◌<◌, ◌≡◌, refl, sym, ap, ◌∙◌, ◌≢◌, ◌↔◌, ◌⊎◌, inl,
  inr, Bool, true, false, ◌&&◌, ◌||◌, not, Option, none, some, List, [], ◌∷◌, ◌++◌, map,
  append_assoc, append-nil, arith, ltb, leb, ◌==◌, if◌then◌else◌, ltb→lt, lt→ltb, leb→le, ==_iff,
  ==_refl, Bool-cases, Option-cases, length, take, drop, replicate, keep, first, any, All,
  length-append, take-append-drop, take_all, length-take, length-replicate, length-keep,
  length-drop, drop-drop, take-length_append, drop-length_append, All-append, All-keep, Bytes,
  codes, same, same_refl, same→eq, same_iff, is_empty, is_empty→nil, has_prefix, trim_prefix,
  index_byte, split, join, trim_space, to_lower, Result, ok, err, Result-cases,
}
use proxywi.Storage.Rows.{User}
use proxywi.Server.Gate.{verify_credentials, allow_proxy_request}
use proxywi.Server.Socks.{Env, login, admit, handle, dial, connect, serve_request}
use proxywi.Server.Socks.Wire.{
  Conn, write, read_greeting, contains_byte, read_user_pass, socks_reply, read_full, read_request,
  join_host_port, itoa, ip4_string, wanted, read_address, read_port,
}
use proxywi.Server.Socks.Access.{Sent, Accepted, handle-dials}
use proxywi.Common.Map.{IsMap, nat_eq}
use proxywi.Server.Registry.{Agent, PickError, pick_next}
use proxywi.Server.Registry.Fairness.{picked}
use proxywi.Server.Socks.Replies.{reply_code, outcome_of, agent_id, Logged, connect-replies}
use proxywi.Server.Socks.RoundTrip.{greeting, user_pass, connect_domain, connect_ip4, messages_lem}
use proxywi.Common.Integers.{pos}
use proxywi.Server.Socks.Serve.{
  Pool, accepted, admitted, finished, serve_step, serve_run, new_pool, max_conns,
}
use proxywi.Server.Socks.Serve.Bounded.{
  times, waiting_of, accepted_in, finished_in, serve_run-bounded,
}
use proxywi.Server.Socks.Serve.Waiting.{without, serve_run-gets_in}
use proxywi.Tests.Data.{ann, compare, server, two_agents-IsMap}

-- A client that greets, logs in as ann and asks for a.b:80.
abbrev conn : Conn
conn = record {
  input =
      5 ∷ 1 ∷ 2 ∷ 1 ∷ 3 ∷ 97 ∷ 110 ∷ 110 ∷ 2 ∷ 112 ∷ 119 ∷ 5 ∷ 1 ∷ 0 ∷ 3 ∷ 3 ∷ 97 ∷ 46 ∷ 98 ∷ 0 ∷ 80
      ∷ [];
  output = [];
  writable = 9;
}

abbrev env : Env
env = record {
  compare = compare;
  ip6_string = λ bytes. bytes;
  opens = λ a target. true;
  reply = λ a target. some (record { accepted = true; error = [] });
  buffered = 0;
  piped_in = 12;
  piped_out = 7;
  duration_ms = 3;
}

conn_dials : (handle env 100 conn server).dials ≢ []
unfolding handle login admit serve_request connect dial write read_greeting read_full contains_byte
    read_user_pass read_request read_address read_port proxywi.Server.Registry.pick_next
    proxywi.Server.Registry.choose proxywi.Server.Registry.first_above
    proxywi.Server.Registry.insert_id proxywi.Server.Registry.sort_ids proxywi.Common.Map.get
    proxywi.Server.Gate.verify_credentials proxywi.Server.Gate.allow_proxy_request
    proxywi.Storage.Users.user_by_username proxywi.Storage.Query.query proxywi.Common.same
conn_dials e = absurd cc

handle-dials_example :
    (username : Bytes) × (password : Bytes) × (u : User) × Sent conn username password
    × Accepted env 100 username password server u
handle-dials_example = handle-dials env 100 conn server conn_dials

connect-replies_example :
    let agent = picked (pick_next server.registry).0 in
    let code = reply_code env agent (codes "a.b:80") in
    let after = connect env 100 ann (codes "a.b:80") conn server in
    (after.conn.output ≡ conn.output ++ socks_reply code)
    × (after.dials ≡ elim agent [ none ↦ [] | some a ↦ (a, (codes "a.b:80")) ∷ [] ])
    × Logged server.db after.server.db ann.id (agent_id agent) (codes "a.b:80") (outcome_of code)
    × (after.server.registry ≡ (pick_next server.registry).1)
connect-replies_example =
    connect-replies env 100 ann (codes "a.b:80") conn server two_agents-IsMap (omega arith) refl

messages_lem_example :
    (read_greeting (greeting (0 ∷ 2 ∷ []) ++ (1 ∷ [])) ≡ some ((0 ∷ 2 ∷ []), (1 ∷ [])))
    × (read_user_pass (user_pass (codes "ann") (codes "pw") ++ (1 ∷ []))
        ≡ some ((codes "ann"), (codes "pw"), (1 ∷ [])))
    × (read_request (λ bytes. bytes) (connect_domain (codes "a.b") 443 ++ (1 ∷ []))
        ≡ wanted (join_host_port (codes "a.b") (itoa 443)) (1 ∷ []))
    × (read_request (λ bytes. bytes) (connect_ip4 10 0 0 1 443 ++ (1 ∷ []))
        ≡ wanted (join_host_port (ip4_string (10 ∷ 0 ∷ 0 ∷ 1 ∷ [])) (itoa 443)) (1 ∷ []))
messages_lem_example =
    messages_lem (0 ∷ 2 ∷ []) (codes "ann") (codes "pw") (codes "a.b") (1 ∷ []) (λ bytes. bytes) 10
      0 0 1 443

-- One place, taken by the connection 5, and 6 waits.
abbrev full : Pool
full = record { waiting = some 6; handling = 5 ∷ [] }

second_waits :
    serve_run (max_conns (pos 1)) new_pool (accepted 5 ∷ admitted ∷ accepted 6 ∷ []) ≡ some full
unfolding serve_run serve_step max_conns
second_waits = refl

serve_run-bounded_example :
    (length full.handling ≤ max_conns (pos 1))
    × (times 6 (accepted_in (accepted 5 ∷ admitted ∷ accepted 6 ∷ []))
        ≡ times 6 (waiting_of full.waiting)
          + times 6 full.handling
          + times 6 (finished_in (accepted 5 ∷ admitted ∷ accepted 6 ∷ [])))
serve_run-bounded_example =
    serve_run-bounded (pos 1) (accepted 5 ∷ admitted ∷ accepted 6 ∷ []) full 6 second_waits

serve_run-gets_in_example :
    ((serve_step (max_conns (pos 1)) full admitted
        ≡ some (record { waiting = none; handling = 6 ∷ full.handling }))
      ⊎ (full.handling ≢ []))
    × All
        (λ d.
          serve_run (max_conns (pos 1)) full (finished d ∷ admitted ∷ [])
          ≡ some (record { waiting = none; handling = 6 ∷ without d full.handling }))
        full.handling
serve_run-gets_in_example =
    serve_run-gets_in (pos 1) (accepted 5 ∷ admitted ∷ accepted 6 ∷ []) full 6 second_waits refl
