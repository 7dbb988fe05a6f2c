-- ===== src/Server/Hub.antt =====
-- internal/server/hub.go: events to the pages that are open. A channel is the list of what waits
-- in its buffer, oldest first, and is known by a number.
pub mod Delivery
use proxywi.Common.{
  ℕ, ◌+◌, Option, none, some, List, [], ◌∷◌, ◌++◌, ltb, ◌==◌, if◌then◌else◌, length, Bytes,
}
use proxywi.Common.Map.{Map, nat_eq, get, put, delete}

pub record ProxyLogEvent : Type 0 where
  pub id : ℕ
  pub ts : ℕ
  pub user : Bytes
  pub client_id : ℕ
  pub client_name : Bytes
  pub target : Bytes
  pub protocol : Bytes
  pub bytes_in : ℕ
  pub bytes_out : ℕ
  pub duration_ms : ℕ
  pub outcome : Bytes

pub data EventData : Type 0 where
  client_event : ℕ → Bytes → EventData
  metrics_event : ℕ → ℕ → ℕ → EventData
  proxy_log_event : ProxyLogEvent → EventData

-- `ts` is in nanoseconds since Go's zero time, which is 0.
pub record Event : Type 0 where
  pub type : Bytes
  pub ts : ℕ
  pub payload : EventData

pub record Hub : Type 0 where
  pub subs : Map ℕ (List Event)
  pub next_channel : ℕ

abbrev pub new_hub : Hub
new_hub = record { subs = []; next_channel = 0 }

-- The size that `Subscribe` makes a channel with.
abbrev pub buffer_size : ℕ
buffer_size = 64

-- A send that does not block: a full channel drops the event.
abbrev pub offer : Event → List Event → List Event
offer e buffer = if ltb (length buffer) buffer_size then buffer ++ (e ∷ []) else buffer

abbrev pub offer_all : Event → Map ℕ (List Event) → Map ℕ (List Event)
offer_all e [] = []
offer_all e ((ch, buffer) ∷ subs) = (ch, offer e buffer) ∷ offer_all e subs

-- `now` is what `Publish` reads of the clock, before it takes the lock.
unfoldable pub publish : Hub → Event → ℕ → Hub
publish h e now = record h {
  subs = offer_all (if e.ts == 0 then record e { ts = now } else e) h.subs;
}

unfoldable pub subscribe : Hub → Hub × ℕ
subscribe h = (
  record { subs = put h.subs h.next_channel []; next_channel = h.next_channel + 1 },
  h.next_channel,
)

-- The function that `Subscribe` returns.
unfoldable pub unsubscribe : Hub → ℕ → Hub
unsubscribe h ch = record h { subs = delete h.subs ch }

-- A receive from a channel: the oldest event, if one waits.
unfoldable pub receive : Hub → ℕ → Option Event × Hub
receive h ch = elim (get h.subs ch) [
  | none ↦ (none, h)
  | some [] ↦ (none, h)
  | some (e ∷ buffer) ↦ (some e, record h { subs = put h.subs ch buffer })
]
