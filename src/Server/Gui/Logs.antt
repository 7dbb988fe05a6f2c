-- ===== src/Server/Gui/Logs.antt =====
-- internal/server/gui/handlers.go: `getLogs`, a page of the request log.
use proxywi.Common.{
  ℕ, ◌+◌, ◌-◌, ◌*◌, ◌/◌, ◌≤◌, ◌<◌, ◌≡◌, ◌↔◌, Bool, true, ◌||◌, not, Option, List, map, arith, ltb,
  if◌then◌else◌, Bytes, is_empty, trim_space, Result, ok, err,
}
use proxywi.Common.Integers.{parse_value, above_zero}
use proxywi.Storage.Clients.{list_clients}
use proxywi.Storage.Users.{list_users}
use proxywi.Server.Gui.View.{listed, admin_name}
use proxywi.Server.Gui.Targets.{anonymize_target}
use proxywi.Storage.Rows.{Db, DbError}
use proxywi.Storage.Events.{
  ProxyEvent, ProxyEventFilter, count_proxy_events_filtered, list_proxy_events_filtered,
}

abbrev pub logs_page_size : ℕ
logs_page_size = 20

-- What the template gets of the position in the log.
pub record LogsPage : Type 0 where
  pub page : ℕ
  pub total_pages : ℕ
  pub total : ℕ
  pub offset : ℕ
  pub has_prev : Bool
  pub has_next : Bool

-- The page of the query, 0 for a negative number and for what is no number.
unfoldable pub paginate : ℕ → ℕ → LogsPage
paginate query_page total =
    let wanted = if ltb query_page 1 then 1 else query_page in
    let pages = (total + logs_page_size - 1) / logs_page_size in
    let total_pages = if ltb pages 1 then 1 else pages in
    let page = if ltb total_pages wanted then total_pages else wanted in
    record {
      page = page;
      total_pages = total_pages;
      total = total;
      offset = (page - 1) * logs_page_size;
      has_prev = ltb 1 page;
      has_next = ltb page total_pages;
    }

-- An error of the database counts as nothing.
abbrev pub or_zero : Result DbError ℕ → ℕ
or_zero (ok n) = n
or_zero (err e) = 0

-- A row of the page; its target is masked.
pub record LogView : Type 0 where
  pub id : ℕ
  pub ts : Option ℕ
  pub user : Bytes
  pub client_name : Bytes
  pub target : Bytes
  pub protocol : Bytes
  pub outcome : Bytes
  pub bytes_in : ℕ
  pub bytes_out : ℕ
  pub duration_ms : ℕ

abbrev pub view_event : ProxyEvent → LogView
view_event e = record {
  id = e.id;
  ts = e.ts;
  user = e.username;
  client_name = e.client_name;
  target = anonymize_target e.target_host;
  protocol = e.protocol;
  outcome = e.outcome;
  bytes_in = e.bytes_in;
  bytes_out = e.bytes_out;
  duration_ms = e.duration_ms;
}

-- The parameters of the query.
pub record LogsQuery : Type 0 where
  pub user_id : Bytes
  pub client_id : Bytes
  pub search : Bytes
  pub page : Bytes

abbrev pub day : ℕ
day = 86_400

unfoldable pub logs_filter : LogsQuery → ℕ → ProxyEventFilter
logs_filter q now = record {
  since = now - day;
  user_id = above_zero (parse_value q.user_id);
  client_id = above_zero (parse_value q.client_id);
  search = trim_space q.search;
}

-- The rows, the position in the log, the options of the two menus, and the name of the admin. The
-- links of the page repeat the filter.
pub record LogsAnswer : Type 0 where
  pub events : List LogView
  pub position : LogsPage
  pub client_options : List (ℕ × Bytes)
  pub user_options : List (ℕ × Bytes)
  pub has_filter : Bool
  pub user : Bytes

module _ (like : Bytes → Bytes → Bool) where
  unfoldable pub logs_page : ProxyEventFilter → ℕ → Db → (LogsPage × List ProxyEvent) × Db
  unfolding paginate
  logs_page filter query_page db =
      let (counted, db') = count_proxy_events_filtered like filter db in
      let position = paginate query_page (or_zero counted) in
      let (events, db'') =
        list_proxy_events_filtered like filter logs_page_size position.offset db' in
      ((position, listed events), db'')

  unfoldable pub get_logs : ℕ → LogsQuery → ℕ → Db → LogsAnswer × Db
  unfolding logs_page logs_filter
  get_logs admin q now db =
      let filter = logs_filter q now in
      let (shown, db') = logs_page filter (above_zero (parse_value q.page)) db in
      let (clients, db'') = list_clients db' in
      let (users, after) = list_users db'' in
      let (user, final) = admin_name admin after in
      (
        record {
          events = map view_event shown.1;
          position = shown.0;
          client_options = map (λ c. (c.id, c.name)) (listed clients);
          user_options = map (λ u. (u.id, u.username)) (listed users);
          has_filter =
              ltb 0 filter.user_id || ltb 0 filter.client_id || not (is_empty filter.search);
          user = user;
        },
        final,
      )

-- Whatever page is asked for, the one that is shown is between the first and the last; it starts
-- within the log, where there is one; the pages cover the log; and a link to the next (previous)
-- page is given exactly where entries follow (precede).
pub paginate_lem :
    (query_page total : ℕ)
    → let p = paginate query_page total in
      (1 ≤ p.page)
      × (p.page ≤ p.total_pages)
      × (0 < total → p.offset < total)
      × (total ≤ p.total_pages * logs_page_size)
      × ((p.has_next ≡ true) ↔ (p.offset + logs_page_size < total))
      × ((p.has_prev ≡ true) ↔ (0 < p.offset))
unfolding paginate
paginate_lem query_page total = ground arith
