-- ===== src/Server/Gui/Stream.antt =====
-- internal/server/gui/sse.go: the stream of events to an open page.
pub mod Shown
use proxywi.Common.{
  ℕ, zero, suc, ◌+◌, ◌-◌, ◌*◌, ◌/◌, ◌%◌, ◌^◌, ◌≤◌, ◌<◌, ◌≡◌, refl, sym, ap, ◌∙◌, ◌≢◌, ◌↔◌, ◌⊎◌, inl,
  inr, Bool, true, false, ◌&&◌, ◌||◌, not, Option, none, some, List, [], ◌∷◌, ◌++◌, map,
  append_assoc, append-nil, arith, ltb, leb, ◌==◌, if◌then◌else◌, ltb→lt, lt→ltb, leb→le, ==_iff,
  ==_refl, Bool-cases, Option-cases, length, take, drop, replicate, keep, first, any, All,
  length-append, take-append-drop, take_all, length-take, length-replicate, length-keep,
  length-drop, drop-drop, take-length_append, drop-length_append, All-append, All-keep, Bytes,
  codes, same, same_refl, same→eq, same_iff, is_empty, is_empty→nil, has_prefix, trim_prefix,
  index_byte, split, join, trim_space, to_lower, Result, ok, err, Result-cases,
}
use proxywi.Server.Hub.{Event, Hub, subscribe, unsubscribe}

-- What `select` takes next.
pub data StreamStep : Type 0 where
  left keepalive closed : StreamStep
  delivered : Event → StreamStep

-- accept != nil && !accept[evt.Type], the other way round.
abbrev pub accepts_event : Option (List Bytes) → Event → Bool
accepts_event none e = true
accepts_event (some types) e = any (same e.type) types

abbrev pub keepalive_comment : Bytes
keepalive_comment = codes ": keepalive" ++ (10 ∷ 10 ∷ [])

-- What the three writes of an event write; `encode` is the JSON of `envelope`, with its newline.
abbrev pub frame : (Event → Bytes) → Event → List Bytes
frame encode e =
    (codes "event: " ++ e.type ++ (10 ∷ []) ++ codes "data: ") ∷ encode e ∷ (10 ∷ []) ∷ []

-- Writes one after another, of which `writable` succeed; then goes on with what is left of those.
abbrev pub write_all : ℕ → List Bytes → (ℕ → List Bytes) → List Bytes
write_all writable [] go_on = go_on writable
write_all zero (text ∷ texts) go_on = []
write_all (suc writable) (text ∷ texts) go_on = text ∷ write_all writable texts go_on

-- The texts that the loop writes.
unfoldable pub stream_loop :
    (Event → Bytes) → Option (List Bytes) → ℕ → List StreamStep → List Bytes
stream_loop encode accept writable [] = []
stream_loop encode accept writable (left ∷ steps) = []
stream_loop encode accept writable (closed ∷ steps) = []
stream_loop encode accept writable (keepalive ∷ steps) =
    write_all writable (keepalive_comment ∷ []) (λ n. stream_loop encode accept n steps)
stream_loop encode accept writable (delivered e ∷ steps) =
    write_all writable (if accepts_event accept e then frame encode e else [])
      (λ n. stream_loop encode accept n steps)

-- The status of an error, or the texts; `meanwhile` is what others do to the hub while it lasts.
unfoldable pub stream :
    (Event → Bytes)
    → Option (List Bytes)
    → Bool
    → ℕ
    → List StreamStep
    → (Hub → Hub)
    → Option Hub
    → Result ℕ (List Bytes) × Option Hub
unfolding stream_loop
stream encode accept flusher writable steps meanwhile none = (err 503, none)
stream encode accept flusher writable steps meanwhile (some hub) =
    let (hub', ch) = subscribe hub in
    if not flusher then (err 500, some hub) else (
      ok (
          write_all writable ((codes ": ok" ++ (10 ∷ 10 ∷ [])) ∷ [])
            (λ n. stream_loop encode accept n steps)),
      some (unsubscribe (meanwhile hub') ch),
    )

abbrev pub events_dashboard : Option (List Bytes)
events_dashboard = some (codes "client_online" ∷ codes "client_offline" ∷ codes "metrics" ∷ [])

abbrev pub events_logs : Option (List Bytes)
events_logs = some (codes "proxy_event" ∷ [])
