-- ===== src/Storage/Events.antt =====
-- The table `proxy_events`: `InsertProxyEvent` to `ListProxyEventsFiltered` of storage.go. SQLite's
-- `LIKE` is the parameter `like`: of a text and a pattern.
pub mod Pages
use proxywi.Common.{
  ℕ, ◌+◌, ◌%◌, Bool, true, false, ◌&&◌, ◌||◌, not, Option, none, some, List, [], ◌∷◌, ◌++◌, map,
  ltb, leb, ◌==◌, if◌then◌else◌, length, take, drop, keep, first, Bytes, codes, is_empty, ok,
}
use proxywi.Storage.Rows.{Db, EventRow, User, Client}
use proxywi.Storage.Query.{Query, query, exec}

-- A zero `ts` is none.
pub record ProxyEvent : Type 0 where
  pub id : ℕ
  pub ts : Option ℕ
  pub user_id : ℕ
  pub username : Bytes
  pub client_id : ℕ
  pub client_name : Bytes
  pub target_host : Bytes
  pub protocol : Bytes
  pub outcome : Bytes
  pub bytes_in : ℕ
  pub bytes_out : ℕ
  pub duration_ms : ℕ

abbrev pub or_null : ℕ → Option ℕ
or_null id = if id == 0 then none else some id

abbrev pub or_now : Option ℕ → ℕ → ℕ
or_now none now = now
or_now (some ts) now = ts

unfoldable pub insert_proxy_event : ProxyEvent → ℕ → Query ℕ
unfolding exec
insert_proxy_event ev now = exec (λ db. some (
  db.next_event,
  record db {
    proxy_events =
        record {
          id = db.next_event;
          ts = or_now ev.ts now;
          user_id = or_null ev.user_id;
          client_id = or_null ev.client_id;
          target_host = ev.target_host;
          protocol = ev.protocol;
          outcome = if is_empty ev.outcome then codes "ok" else ev.outcome;
          bytes_in = ev.bytes_in;
          bytes_out = ev.bytes_out;
          duration_ms = ev.duration_ms;
        }
        ∷ db.proxy_events;
    next_event = db.next_event + 1;
  },
))

pub record ProxyEventFilter : Type 0 where
  pub since : ℕ
  pub user_id : ℕ
  pub client_id : ℕ
  pub search : Bytes

-- A comparison with NULL does not hold.
abbrev pub is_id : Option ℕ → ℕ → Bool
is_id none id = false
is_id (some i) id = i == id

-- COALESCE(id, 0)
abbrev pub or_zero : Option ℕ → ℕ
or_zero none = 0
or_zero (some id) = id

-- ORDER BY e.ts DESC, e.id DESC
unfoldable pub newer : EventRow → EventRow → Bool
newer a b = ltb b.ts a.ts || (a.ts == b.ts && ltb b.id a.id)

unfoldable pub insert_event : EventRow → List EventRow → List EventRow
insert_event e [] = e ∷ []
insert_event e (f ∷ events) =
    let rest = insert_event e events in if newer e f then e ∷ f ∷ events else f ∷ rest

unfoldable pub sort_events : List EventRow → List EventRow
unfolding insert_event newer
sort_events [] = []
sort_events (e ∷ events) = insert_event e (sort_events events)

-- The LEFT JOINs: an id with no row has the name "".
abbrev pub user_name : Option User → Bytes
user_name none = []
user_name (some u) = u.username

abbrev pub client_name : Option Client → Bytes
client_name none = []
client_name (some c) = c.name

unfoldable pub joined : Db → EventRow → ProxyEvent
joined db e = record {
  id = e.id;
  ts = some e.ts;
  user_id = or_zero e.user_id;
  username = user_name (first (λ u. is_id e.user_id u.id) db.users);
  client_id = or_zero e.client_id;
  client_name = client_name (first (λ c. is_id e.client_id c.id) db.clients);
  target_host = e.target_host;
  protocol = e.protocol;
  outcome = e.outcome;
  bytes_in = e.bytes_in;
  bytes_out = e.bytes_out;
  duration_ms = e.duration_ms;
}

module _ (like : Bytes → Bytes → Bool) where
  -- `where()`: its conditions, joined by AND.
  unfoldable pub selected : ProxyEventFilter → EventRow → Bool
  selected f e =
      leb f.since e.ts
      && (if ltb 0 f.user_id then is_id e.user_id f.user_id else true)
      && (if ltb 0 f.client_id then is_id e.client_id f.client_id else true)
      && (if not (is_empty f.search)
          then like e.target_host ((b'%' ∷ f.search) ++ (b'%' ∷ []))
          else true)

  unfoldable pub count_proxy_events_filtered : ProxyEventFilter → Query ℕ
  unfolding query selected
  count_proxy_events_filtered f = query (λ db. length (keep (selected f) db.proxy_events))

  unfoldable pub list_proxy_events_filtered : ProxyEventFilter → ℕ → ℕ → Query (List ProxyEvent)
  unfolding query selected sort_events joined
  list_proxy_events_filtered f limit offset =
      let n = if limit == 0 || ltb 1000 limit then 20 else limit in
      query (λ db.
        map (joined db) (take n (drop offset (sort_events (keep (selected f) db.proxy_events)))))

  abbrev pub since_only : ℕ → ProxyEventFilter
  since_only since = record { since = since; user_id = 0; client_id = 0; search = [] }

  unfoldable pub list_proxy_events : ℕ → ℕ → Query (List ProxyEvent)
  unfolding list_proxy_events_filtered
  list_proxy_events since limit =
      list_proxy_events_filtered (since_only since)
        (if limit == 0 || ltb 1000 limit then 200 else limit) 0

  unfoldable pub list_proxy_events_page : ℕ → ℕ → ℕ → Query (List ProxyEvent)
  unfolding list_proxy_events_filtered
  list_proxy_events_page since limit offset =
      list_proxy_events_filtered (since_only since) limit offset

  unfoldable pub count_proxy_events : ℕ → Query ℕ
  unfolding count_proxy_events_filtered
  count_proxy_events since = count_proxy_events_filtered (since_only since)
