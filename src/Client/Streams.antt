-- ===== src/Client/Streams.antt =====
-- internal/client/client.go: `handleStream`, a stream that the server opens to the agent.
pub mod Forwarded
use proxywi.Common.{
  ℕ, zero, suc, ◌+◌, ◌-◌, ◌*◌, ◌/◌, ◌%◌, ◌^◌, ◌≤◌, ◌<◌, ◌≡◌, refl, sym, ap, ◌∙◌, ◌≢◌, ◌↔◌, ◌⊎◌, inl,
  inr, Bool, true, false, ◌&&◌, ◌||◌, not, Option, none, some, List, [], ◌∷◌, ◌++◌, map,
  append_assoc, append-nil, arith, ltb, leb, ◌==◌, if◌then◌else◌, ltb→lt, lt→ltb, leb→le, ==_iff,
  ==_refl, Bool-cases, Option-cases, length, take, drop, replicate, keep, first, any, All,
  length-append, take-append-drop, length-take, length-replicate, length-keep, length-drop,
  drop-drop, take-length_append, drop-length_append, All-append, All-keep, Bytes, codes, same,
  same_refl, same→eq, same_iff, is_empty, is_empty→nil, has_prefix, trim_prefix, index_byte, split,
  join, trim_space, to_lower, Result, ok, err, Result-cases,
}
use proxywi.Server.Tunnel.{ProxyRequest, ProxyReply, Reader, read_line}
use proxywi.Server.Tunnel.Framing.{concat}
use proxywi.Client.Metrics.{Counters}
use proxywi.Client.Acl.{AclEnv, is_target_allowed}

-- What is outside the agent: the decoded line, none for an error; the dialer, with an error's text;
-- whether the reply can be written; how many of the bytes read ahead the target takes, and how many
-- of the stream's are copied to it; what the copy from the target brings.
pub record StreamEnv : Type 0 where
  pub acl : AclEnv
  pub decode : Bytes → Option ProxyRequest
  pub dial : Bytes → Result Bytes (Unit {0})
  pub reply_written : Bool
  pub taken : ℕ
  pub copied : ℕ
  pub answered : Bytes

-- The reply that was sent, the target that was dialed, what target and stream got, and the counters
-- at the end.
pub record Handled : Type 0 where
  pub reply : Option ProxyReply
  pub dialed : Option Bytes
  pub to_target : Bytes
  pub to_stream : Bytes
  pub counters : Counters

abbrev pub ended : Option ProxyReply → Option Bytes → Counters → Handled
ended reply dialed c = record {
  reply = reply;
  dialed = dialed;
  to_target = [];
  to_stream = [];
  counters = c;
}

-- A reply of which no write fails, or none.
abbrev pub sent : StreamEnv → ProxyReply → Option ProxyReply
sent env reply = if env.reply_written then some reply else none

abbrev pub accepted_reply : ProxyReply
accepted_reply = record { accepted = true; error = [] }

abbrev pub rejected_reply : Bytes → ProxyReply
rejected_reply text = record { accepted = false; error = text }

-- From the connection to the target on; `active_conns` is one more while the copying lasts. The bytes
-- that were read ahead count whether or not the target takes them.
unfoldable pub forward_stream : StreamEnv → Bytes → Reader → Counters → Handled
forward_stream env target r c =
    if not env.reply_written
    then ended none (some target) c
    else let rest = take env.copied (concat r.chunks) in
      record {
        reply = some accepted_reply;
        dialed = some target;
        to_target = take env.taken r.buffer ++ rest;
        to_stream = env.answered;
        counters = record {
          bytes_in = c.bytes_in + length env.answered;
          bytes_out = c.bytes_out + length r.buffer + length rest;
          active_conns = c.active_conns;
        };
      }

abbrev pub dial_target : StreamEnv → Bytes → Reader → Counters → Handled
dial_target env target r c = elim (env.dial target) [
  | err text ↦ ended (sent env (rejected_reply text)) (some target) c
  | ok done ↦ forward_stream env target r c
]

-- The stream as the chunks that arrive on it.
unfoldable pub handle_stream : StreamEnv → List Bytes → Counters → Handled
unfolding read_line is_target_allowed forward_stream
handle_stream env chunks c = elim (read_line [] chunks) [
  | none ↦ ended none none c
  | some (line, r) ↦ elim (env.decode line) [
    | none ↦ ended none none c
    | some req ↦
        if not (is_target_allowed env.acl req.target)
        then ended (sent env (rejected_reply (codes "target not allowed"))) none c
        else dial_target env req.target r c
  ]
]
