-- ===== src/Server/Gui/Router.antt =====
-- internal/server/gui/gui.go: `Router` and the handlers behind its routes.
pub mod Kept
pub mod Pages
pub mod Unchanged
pub mod Guarded
use proxywi.Common.{
  ℕ, ◌||◌, Option, none, some, List, [], ◌∷◌, if◌then◌else◌, Bytes, codes, same, is_empty, Result,
  ok, err,
}
use proxywi.Storage.Rows.{Db, Client}
use proxywi.Server.Gate.{Compare}
use proxywi.Server.RateLimiter.{RateLimiter}
use proxywi.Server.State.{Server, unix}
use proxywi.Server.Gui.Sessions.{
  Answer, Reply, require_auth, require_token_auth, post_login, post_logout, post_token_login,
  post_token_logout,
}
use proxywi.Server.Gui.Csrf.{require_csrf}
use proxywi.Server.Gui.Limits.{client_ip, auth_rate_limit}
use proxywi.Server.Gui.Clients.{
  Draws, ClientsAnswer, ClientsPage, get_clients, post_new_client, post_regenerate_client,
  post_delete_client, get_client_compose, control_url,
}
use proxywi.Server.Gui.Access.{
  AccessView, get_access, post_new_access, post_edit_access, post_delete_access,
}
use proxywi.Server.Gui.Logs.{LogsQuery, LogsAnswer, get_logs}
use proxywi.Server.Gui.TokenLogs.{TokenLogView, get_token_logs}
use proxywi.Server.Gui.Dashboard.{DashboardPage, Clock, get_dashboard}
use proxywi.Server.Gui.Routes.{
  Action, robots, assets, favicon, login_page, login, token_login_page, token_login, logout,
  token_logout, token_logs, dashboard, clients, new_client, regenerate_client, client_compose,
  delete_client, access, new_access, edit_access, delete_access, logs, events_dashboard,
  events_logs, Guard, rate_limited, with_token_session, with_session, with_csrf, Route, routes,
  GuiEnv, GuiRequest, GuiReply, no_route, too_many_requests, page_login, login_elsewhere,
  robots_text, asset, redirect_icon, no_session, bad_csrf, answered, replied, changed_clients,
  page_clients, page_access, page_dashboard, page_logs, page_token_logs, compose_file, event_stream,
  Gui,
}

abbrev pub with_db : {A : Type 0} → A × Db → Gui → A × Gui
with_db (a, db) g = (a, record g { server = record g.server { db = db } })

abbrev pub with_server : {A : Type 0} → A × Server → Gui → A × Gui
with_server (a, s) g = (a, record g { server = s })

-- The ids that the guards put into the context, 0 where there is none.
pub record Context : Type 0 where
  pub admin_id : ℕ
  pub client_id : ℕ

abbrev pub admin_known : Context → Result Answer ℕ → Result GuiReply Context
admin_known c (ok id) = ok (record c { admin_id = id })
admin_known c (err a) = err (no_session a)

abbrev pub client_known : Context → Result Answer ℕ → Result GuiReply Context
client_known c (ok id) = ok (record c { client_id = id })
client_known c (err a) = err (no_session a)

abbrev pub csrf_checked : Result (Option ℕ) Context → Result GuiReply Context
csrf_checked (ok c) = ok c
csrf_checked (err status) = err (bad_csrf status)

unfoldable pub run_guard :
    GuiEnv → GuiRequest → Guard → Context → Gui → Result GuiReply Context × Gui
run_guard env r rate_limited c g =
    let (limiter, passed) =
      auth_rate_limit g.limiter env.now (client_ip r.forwarded_for r.remote_addr) in
    let g' = record g { limiter = limiter } in
    if passed then (ok c, g') else (err too_many_requests, g')
run_guard env r with_session c g =
    let (id, db) = require_auth r.session (unix env.now) g.server.db in
    with_db (admin_known c id, db) g
run_guard env r with_token_session c g =
    let (id, db) = require_token_auth r.token_session (unix env.now) g.server.db in
    with_db (client_known c id, db) g
run_guard env r with_csrf c g = (csrf_checked (require_csrf r.method r.csrf r.csrf_field c), g)

abbrev pub unless_refused :
    Result GuiReply Context × Gui
    → (Context → Gui → Result GuiReply Context × Gui)
    → Result GuiReply Context × Gui
unless_refused (ok c, g) rest = rest c g
unless_refused (err e, g) rest = (err e, g)

unfoldable pub run_guards :
    GuiEnv → GuiRequest → List Guard → Context → Gui → Result GuiReply Context × Gui
unfolding run_guard
run_guards env r [] c g = (ok c, g)
run_guards env r (guard ∷ guards) c g =
    unless_refused (run_guard env r guard c g) (run_guards env r guards)

-- The parameter `id` of the path; the three readings of the dashboard's clock are one.
unfoldable pub run_action : GuiEnv → GuiRequest → Action → Bytes → Context → Gui → GuiReply × Gui
run_action env r robots param c g = (robots_text, g)
run_action env r assets param c g = (asset, g)
run_action env r favicon param c g = (redirect_icon, g)
run_action env r login_page param c g = (page_login, g)
run_action env r token_login_page param c g = (login_elsewhere, g)
run_action env r login param c g =
    let (a, db) = post_login env.compare env.sid r.username r.password (unix env.now) g.server.db in
    with_db (answered a, db) g
run_action env r token_login param c g =
    let (a, db) =
      post_token_login env.compare env.iterated env.sid r.token (unix env.now) g.server.db in
    with_db (answered a, db) g
run_action env r logout param c g =
    let (a, db) = post_logout r.session g.server.db in with_db (answered a, db) g
run_action env r token_logout param c g =
    let (a, db) = post_token_logout r.token_session g.server.db in with_db (answered a, db) g
run_action env r token_logs param c g =
    let (p, db) = get_token_logs env.like c.client_id (unix env.now) g.server.db in
    with_db (page_token_logs p, db) g
run_action env r dashboard param c g =
    let t = unix env.now in
    let (p, s) =
      get_dashboard c.admin_id r.period (record { asked = t; queried = t; drawn = t }) g.server in
    with_server (page_dashboard p, s) g
run_action env r clients param c g =
    let (p, s) = get_clients c.admin_id r.flash r.id g.server in with_server (page_clients p, s) g
run_action env r new_client param c g =
    let (a, s) = post_new_client env.draws env.now g.server in with_server (changed_clients a, s) g
run_action env r regenerate_client param c g =
    let (a, s) = post_regenerate_client env.draws param g.server in
    with_server (changed_clients a, s) g
run_action env r client_compose param c g =
    let url = control_url r.tls r.forwarded_proto r.forwarded_host r.host in
    let (f, db) = get_client_compose env.quoted url param g.server.db in
    with_db (compose_file f, db) g
run_action env r delete_client param c g =
    let (a, s) = post_delete_client param g.server in with_server (changed_clients a, s) g
run_action env r access param c g =
    let (p, db) = get_access c.admin_id g.server.db in with_db (page_access p, db) g
run_action env r new_access param c g =
    let (a, db) = post_new_access env.draws.hash r.username r.password (unix env.now) g.server.db in
    with_db (replied a, db) g
run_action env r edit_access param c g =
    let (a, db) = post_edit_access env.draws.hash param r.username r.password g.server.db in
    with_db (replied a, db) g
run_action env r delete_access param c g =
    let (a, db) = post_delete_access param g.server.db in with_db (replied a, db) g
run_action env r logs param c g =
    let (p, db) = get_logs env.like c.admin_id r.logs_query (unix env.now) g.server.db in
    with_db (page_logs p, db) g
run_action env r events_dashboard param c g =
    (event_stream (codes "client_online" ∷ codes "client_offline" ∷ codes "metrics" ∷ []), g)
run_action env r events_logs param c g = (event_stream (codes "proxy_event" ∷ []), g)

abbrev pub parameter : GuiEnv → GuiRequest → Route → Option Bytes
parameter env r route =
    if is_empty route.method || same route.method r.method
    then env.matches route.pattern r.path
    else none

-- The first route that the request has, and its parameter.
unfoldable pub find_route : GuiEnv → GuiRequest → List Route → Option (Route × Bytes)
find_route env r [] = none
find_route env r (route ∷ rest) =
    let later = find_route env r rest in
    elim (parameter env r route) [ none ↦ later | some id ↦ some (route, id) ]

abbrev pub run_route : GuiEnv → GuiRequest → Route → Bytes → Gui → GuiReply × Gui
run_route env r route param g =
    let (c, g') = run_guards env r route.guards (record { admin_id = 0; client_id = 0 }) g in
    elim c [ err reply ↦ (reply, g') | ok c ↦ run_action env r route.action param c g' ]

unfoldable pub serve_gui : GuiEnv → GuiRequest → Gui → GuiReply × Gui
unfolding find_route run_guards run_action
serve_gui env r g = elim (find_route env r routes) [
  | none ↦ (no_route, g)
  | some (route, param) ↦ run_route env r route param g
]
