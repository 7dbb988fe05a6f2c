-- ===== src/Server/Gui/TokenLogs.antt =====
-- internal/server/gui/token.go: the log that the holder of an agent's token sees.
pub mod Owned
use proxywi.Common.{ℕ, ◌-◌, Bool, Option, none, some, List, [], map, ◌==◌, if◌then◌else◌, Bytes}
use proxywi.Storage.Rows.{Db, DbError, EventRow, Client}
use proxywi.Storage.Query.{query, next_fault}
use proxywi.Storage.Clients.{client_by_id}
use proxywi.Storage.Events.{
  ProxyEvent, ProxyEventFilter, selected, list_proxy_events_filtered, sort_events, insert_event,
  joined, is_id, newer,
}
use proxywi.Server.Gui.View.{listed, found}
use proxywi.Server.Gui.Targets.{anonymize_target}
use proxywi.Server.Gui.Logs.{day}

pub record TokenLogView : Type 0 where
  pub ts : Option ℕ
  pub target : Bytes
  pub protocol : Bytes
  pub outcome : Bytes
  pub bytes_in : ℕ
  pub bytes_out : ℕ
  pub duration_ms : ℕ

abbrev pub view_own : ProxyEvent → TokenLogView
view_own e = record {
  ts = e.ts;
  target = anonymize_target e.target_host;
  protocol = e.protocol;
  outcome = e.outcome;
  bytes_in = e.bytes_in;
  bytes_out = e.bytes_out;
  duration_ms = e.duration_ms;
}

abbrev pub name_of_client : Option Client → Bytes
name_of_client none = []
name_of_client (some c) = c.name

abbrev pub own_filter : ℕ → ℕ → ProxyEventFilter
own_filter client_id now = record {
  since = now - day;
  user_id = 0;
  client_id = client_id;
  search = [];
}

-- The name and the rows, or none for a redirect to `/token-login`.
unfoldable pub get_token_logs :
    (Bytes → Bytes → Bool) → ℕ → ℕ → Db → Option (Bytes × List TokenLogView) × Db
get_token_logs like client_id now db =
    let (c, db') = client_by_id client_id db in
    let (events, after) = list_proxy_events_filtered like (own_filter client_id now) 200 0 db' in
    if client_id == 0
    then (none, db)
    else (some (name_of_client (found c), map view_own (listed events)), after)
