-- ===== src/Server/Gui/Router/Pages.antt =====
-- The pages only read.
use proxywi.Common.{
  ℕ, ◌-◌, refl, inl, inr, Bool, Option, none, arith, Bool-cases, Option-cases, Bytes, is_empty,
}
use proxywi.Common.Integers.{ℤ, pos, negsuc, parse_int, parse_value, above_zero}
use proxywi.Storage.Rows.{Db}
use proxywi.Storage.Query.{query}
use proxywi.Storage.Clients.{list_clients, client_by_id}
use proxywi.Storage.Users.{list_users, user_usage_stats, usage_stats}
use proxywi.Storage.Metrics.{metrics, MetricsFilter}
use proxywi.Storage.Events.{
  ProxyEventFilter, count_proxy_events_filtered, list_proxy_events_filtered,
}
use proxywi.Server.State.{Server}
use proxywi.Server.Gui.View.{admin_name}
use proxywi.Server.Gui.Clients.{get_clients, get_client_compose, at_id, get_flash_token}
use proxywi.Server.Gui.Access.{get_access}
use proxywi.Server.Gui.Logs.{LogsQuery, get_logs, logs_page, logs_filter}
use proxywi.Server.Gui.TokenLogs.{get_token_logs}
use proxywi.Server.Gui.Dashboard.{Clock, get_dashboard, period_of, filter_of}
use proxywi.Server.Gui.Router.Kept.{SameAccounts, accounts_trans, query-SameAccounts}

-- An action that only reads.
abbrev Reads : {A : Type 0} → (Db → A × Db) → Type 0
Reads m = (db : Db) → SameAccounts (m db).1 db

list_clients-Reads : Reads list_clients
unfolding list_clients
list_clients-Reads db = query-SameAccounts (λ d. d.clients) db

list_users-Reads : Reads list_users
unfolding list_users
list_users-Reads db = query-SameAccounts (λ d. d.users) db

client_by_id-Reads : (id : ℕ) → Reads (client_by_id id)
unfolding client_by_id query
client_by_id-Reads id db = ground arith

admin_name-Reads : (id : ℕ) → Reads (admin_name id)
unfolding admin_name query
admin_name-Reads id db = ground arith

metrics-Reads : (f : MetricsFilter) (now : ℕ) → Reads (metrics f now)
unfolding metrics query
metrics-Reads f now db = ground arith

usage-Reads : Reads user_usage_stats
unfolding user_usage_stats
usage-Reads db = query-SameAccounts (λ d. usage_stats d.proxy_events) db

at_id-Reads : (id : ℤ) → Reads (at_id id client_by_id none)
at_id-Reads (pos id) db = client_by_id-Reads id db
at_id-Reads (negsuc n) db = query-SameAccounts (λ d. none) db

pub get_token_logs-Reads :
    (like : Bytes → Bytes → Bool) (id now : ℕ) → Reads (get_token_logs like id now)
unfolding get_token_logs list_proxy_events_filtered client_by_id query
get_token_logs-Reads like id now db = ground arith

pub get_access-Reads : (admin : ℕ) → Reads (get_access admin)
unfolding get_access
get_access-Reads admin db =
    let d = (list_users db).1 in
    let e = (user_usage_stats d).1 in
    accounts_trans (admin_name admin e).1 e db (admin_name-Reads admin e)
      (accounts_trans e d db (usage-Reads d) (list_users-Reads db))

pub get_client_compose-Reads :
    (quoted : Bytes → Bytes) (url param : Bytes) → Reads (get_client_compose quoted url param)
unfolding get_client_compose
get_client_compose-Reads quoted url param db = elim (Option-cases (parse_int param)) [
  | inl e ↦ rw (get_client_compose, e) (refl, refl, refl)
  | inr (id, e) ↦ rw (get_client_compose, e) (at_id-Reads id db)
]

pub get_clients-Reads :
    (admin : ℕ) (flash : Option Bytes) (param : Bytes) (s : Server)
    → SameAccounts (get_clients admin flash param s).1.db s.db
unfolding get_clients
get_clients-Reads admin flash param s =
    let d = (list_clients s.db).1 in
    let e = (admin_name admin d).1 in
    let read = accounts_trans e d s.db (admin_name-Reads admin d) (list_clients-Reads s.db) in
    elim (Bool-cases (is_empty (get_flash_token flash).0)) [
      | inl q ↦ rw (get_clients, q) read
      | inr q ↦ elim (Option-cases (parse_int param)) [
        | inl r ↦ rw (get_clients, q, r) read
        | inr (id, r) ↦
            rw (get_clients, q, r)
              (accounts_trans (at_id id client_by_id none e).1 e s.db (at_id-Reads id e) read)
      ]
    ]

logs_page-Reads :
    (like : Bytes → Bytes → Bool) (f : ProxyEventFilter) (page : ℕ) → Reads (logs_page like f page)
unfolding logs_page count_proxy_events_filtered list_proxy_events_filtered query
logs_page-Reads like f page db = ground arith

pub get_logs-Reads :
    (like : Bytes → Bytes → Bool) (admin : ℕ) (q : LogsQuery) (now : ℕ)
    → Reads (get_logs like admin q now)
unfolding get_logs
get_logs-Reads like admin q now db =
    let a = (logs_page like (logs_filter q now) (above_zero (parse_value q.page)) db).1 in
    let b = (list_clients a).1 in
    let c = (list_users b).1 in
    let first_two =
      accounts_trans b a db (list_clients-Reads a)
        (logs_page-Reads like (logs_filter q now) (above_zero (parse_value q.page)) db) in
    accounts_trans (admin_name admin c).1 c db (admin_name-Reads admin c)
      (accounts_trans c b db (list_users-Reads b) first_two)

pub get_dashboard-Reads :
    (admin : ℕ) (key : Bytes) (clock : Clock) (s : Server)
    → SameAccounts (get_dashboard admin key clock s).1.db s.db
unfolding get_dashboard
get_dashboard-Reads admin key clock s =
    let p = (period_of key).1 in
    let a = (list_clients s.db).1 in
    let b = (metrics (filter_of p (clock.asked - p.duration)) clock.queried a).1 in
    accounts_trans (admin_name admin b).1 b s.db (admin_name-Reads admin b) (
      accounts_trans b a s.db
        (metrics-Reads (filter_of p (clock.asked - p.duration)) clock.queried a)
        (list_clients-Reads s.db))
