-- ===== src/Client/Streams/Forwarded.antt =====
-- What an agent dials for a stream, and what it forwards.
use proxywi.Common.{
  ◌+◌, ◌≤◌, ◌≡◌, refl, sym, ap, ◌∙◌, inl, inr, true, some, List, [], ◌++◌, arith, Bool-cases, false,
  Option-cases, length, All, length-append, take_all, Bytes, ok, Result-cases,
}
use proxywi.Server.Tunnel.{ProxyRequest, Reader, cut_line, read_line}
use proxywi.Server.Tunnel.Framing.{concat, and_left, read_line_lem}
use proxywi.Client.Metrics.{Counters}
use proxywi.Client.Acl.{init_acl, host_of, is_target_allowed}
use proxywi.Client.Acl.Denied.{is_mapped, Undenied, Outside-Undenied, is_target_allowed_sound}
use proxywi.Client.Streams.{StreamEnv, handle_stream, forward_stream, dial_target, accepted_reply}

dialed_target :
    (env : StreamEnv) (target : Bytes) (r : Reader) (c : Counters)
    → (dial_target env target r c).dialed ≡ some target
unfolding forward_stream
dialed_target env target r c = elim (Result-cases (env.dial target)) [
  | inr (e, q) ↦ rw (dial_target, q) refl
  | inl (done, q) ↦ elim (Bool-cases env.reply_written) [
    | inl k ↦ rw (dial_target, q, forward_stream, k) refl
    | inr k ↦ rw (dial_target, q, forward_stream, k) refl
  ]
]

dialed-allowed :
    (env : StreamEnv) (chunks : List Bytes) (c : Counters) (t : Bytes)
    → (handle_stream env chunks c).dialed ≡ some t
    → is_target_allowed env.acl t ≡ true
unfolding handle_stream
dialed-allowed env chunks c t h = elim (Option-cases (read_line [] chunks)) [
  | inl e ↦ absurd (cc (rw (handle_stream, e) at h))
  | inr ((line, r), e) ↦ elim (Option-cases (env.decode line)) [
    | inl d ↦ absurd (cc (rw (handle_stream, e, d) at h))
    | inr (req, d) ↦ elim (Bool-cases (is_target_allowed env.acl req.target)) [
      | inr a ↦ absurd (cc (rw (handle_stream, e, d, a) at h))
      | inl a ↦
          let same_target : req.target ≡ t =
            cc (dialed_target env req.target r c, rw (handle_stream, e, d, a) at h) in
          ap (is_target_allowed env.acl) (sym same_target) ∙ a
    ]
  ]
]

-- Where nothing is allowed explicitly, the host of a target resolves, and it resolves to no IPv4
-- address in its IPv6 form: an agent dials the target for a stream only if no denied prefix contains
-- any of the addresses.
pub handle_stream-dials :
    (env : StreamEnv) (chunks : List Bytes) (c : Counters) (t : Bytes) (addrs : List Bytes)
    → (init_acl env.acl).allowed_nets ≡ []
    → (init_acl env.acl).allowed_hosts ≡ []
    → env.acl.lookup_ip_addr (host_of t) ≡ some addrs
    → All (λ a. is_mapped a ≡ false) addrs
    → (handle_stream env chunks c).dialed ≡ some t
    → All (Undenied (init_acl env.acl)) addrs
handle_stream-dials env chunks c t addrs nets hosts found plain h =
    Outside-Undenied (init_acl env.acl) addrs plain
      (is_target_allowed_sound env.acl t addrs nets hosts found (dialed-allowed env chunks c t h))

dialed_lem :
    (env : StreamEnv) (target : Bytes) (r : Reader) (c : Counters) (rest : Bytes)
    → env.dial target ≡ ok tt
    → env.reply_written ≡ true
    → r.buffer ++ concat r.chunks ≡ rest
    → length rest ≤ env.taken
    → length rest ≤ env.copied
    → dial_target env target r c ≡ record {
      reply = some accepted_reply;
      dialed = some target;
      to_target = rest;
      to_stream = env.answered;
      counters = record {
        bytes_in = c.bytes_in + length env.answered;
        bytes_out = c.bytes_out + length rest;
        active_conns = c.active_conns;
      };
    }
unfolding forward_stream
dialed_lem env target r c rest dialed written after taken copied =
    let sizes : length r.buffer + length (concat r.chunks) ≡ length rest =
      sym (length-append r.buffer (concat r.chunks)) ∙ ap length after in
    let ahead = take_all env.taken r.buffer (omega (arith, sizes, taken)) in
    let later = take_all env.copied (concat r.chunks) (omega (arith, sizes, copied)) in
    let counted : c.bytes_out + length r.buffer + length (concat r.chunks)
        ≡ c.bytes_out + length rest =
      omega (arith, sizes) in
    rw (dial_target, dialed, forward_stream, written, ahead, later, after, counted) refl

-- Where the first line of a stream is a request for a target that is allowed and can be reached, and
-- no write fails: the target gets exactly the bytes after that line, whichever chunks they come in,
-- the stream gets the reply and the target's bytes, both are counted, and the number of active
-- connections is what it was.
pub handle_stream-forwards :
    (env : StreamEnv) (chunks : List Bytes) (c : Counters) (line rest : Bytes)
    → (req : ProxyRequest) → cut_line (concat chunks) ≡ some (line, rest)
    → env.decode line ≡ some req
    → is_target_allowed env.acl req.target ≡ true
    → env.dial req.target ≡ ok tt
    → env.reply_written ≡ true
    → length rest ≤ env.taken
    → length rest ≤ env.copied
    → handle_stream env chunks c ≡ record {
      reply = some accepted_reply;
      dialed = some req.target;
      to_target = rest;
      to_stream = env.answered;
      counters = record {
        bytes_in = c.bytes_in + length env.answered;
        bytes_out = c.bytes_out + length rest;
        active_conns = c.active_conns;
      };
    }
unfolding handle_stream forward_stream
handle_stream-forwards env chunks c line rest req cut decoded allowed dialed written taken copied =
    elim (Option-cases (read_line [] chunks)) [
      | inl e ↦ absurd (cc (read_line_lem [] chunks, e, cut))
      | inr ((l, r), e) ↦
          let parts : and_left (some (l, r)) ≡ some (line, rest) =
            cc (read_line_lem [] chunks, e, cut) in
          let same_line : l ≡ line = cc parts in
          let after : r.buffer ++ concat r.chunks ≡ rest = cc parts in
          let decoded' : env.decode l ≡ some req = rw same_line decoded in
          rw (handle_stream, e, decoded', allowed)
            (dialed_lem env req.target r c rest dialed written after taken copied)
    ]
