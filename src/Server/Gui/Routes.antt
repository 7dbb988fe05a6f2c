-- ===== src/Server/Gui/Routes.antt =====
-- internal/server/gui/gui.go: the routes of `Router`, with what guards them and what they run, and
-- what goes in and out.
use proxywi.Common.{ℕ, Bool, Option, List, [], ◌∷◌, Bytes, codes, Result}
use proxywi.Common.{String}
use proxywi.Server.Gate.{Compare}
use proxywi.Server.RateLimiter.{RateLimiter}
use proxywi.Server.State.{Server}
use proxywi.Server.Gui.Sessions.{Answer, Reply}
use proxywi.Server.Gui.Clients.{Draws, ClientsAnswer, ClientsPage}
use proxywi.Server.Gui.Access.{AccessView}
use proxywi.Server.Gui.Logs.{LogsQuery, LogsAnswer}
use proxywi.Server.Gui.TokenLogs.{TokenLogView}
use proxywi.Server.Gui.Dashboard.{DashboardPage}

-- What a request runs once it has passed its guards.
pub data Action : Type 0 where
  robots assets favicon login_page login token_login_page token_login logout token_logout : Action
  token_logs dashboard clients new_client regenerate_client client_compose delete_client : Action
  access new_access edit_access delete_access logs events_dashboard events_logs : Action

pub data Guard : Type 0 where
  rate_limited with_token_session with_session with_csrf : Guard

-- An empty method stands for every method.
pub record Route : Type 0 where
  pub method : Bytes
  pub pattern : Bytes
  pub guards : List Guard
  pub action : Action

abbrev get_route : String → List Guard → Action → Route
get_route pattern guards action = record {
  method = codes "GET";
  pattern = codes pattern;
  guards = guards;
  action = action;
}

abbrev post_route : String → List Guard → Action → Route
post_route pattern guards action = record {
  method = codes "POST";
  pattern = codes pattern;
  guards = guards;
  action = action;
}

abbrev admin_guards : List Guard
admin_guards = with_session ∷ with_csrf ∷ []

-- `setupGate` passes every request on.
abbrev pub routes : List Route
routes =
    get_route "/robots.txt" [] robots
    ∷ record { method = []; pattern = codes "/dist/*"; guards = []; action = assets }
    ∷ get_route "/favicon.ico" [] favicon
    ∷ get_route "/login" (rate_limited ∷ []) login_page
    ∷ post_route "/login" (rate_limited ∷ []) login
    ∷ get_route "/token-login" (rate_limited ∷ []) token_login_page
    ∷ post_route "/token-login" (rate_limited ∷ []) token_login
    ∷ post_route "/logout" [] logout
    ∷ post_route "/token-logout" [] token_logout
    ∷ get_route "/t/logs" (with_token_session ∷ with_csrf ∷ []) token_logs
    ∷ get_route "/" admin_guards dashboard
    ∷ get_route "/clients" admin_guards clients
    ∷ post_route "/clients/new" admin_guards new_client
    ∷ post_route "/clients/{id}/regenerate" admin_guards regenerate_client
    ∷ get_route "/clients/{id}/compose" admin_guards client_compose
    ∷ post_route "/clients/{id}/delete" admin_guards delete_client
    ∷ get_route "/access" admin_guards access
    ∷ post_route "/access/new" admin_guards new_access
    ∷ post_route "/access/{id}/edit" admin_guards edit_access
    ∷ post_route "/access/{id}/delete" admin_guards delete_access
    ∷ get_route "/logs" admin_guards logs
    ∷ get_route "/events/dashboard" admin_guards events_dashboard
    ∷ get_route "/events/logs" admin_guards events_logs
    ∷ []

-- What the handlers take from other packages: of `Draws`, and bcrypt's comparison, the order in which a
-- map is iterated, the id that a session gets, SQLite's LIKE, `fmt`'s `%q`, and of chi, for a
-- pattern and a path, the parameter `id` where the path has the pattern.
pub record GuiEnv : Type 0 where
  pub draws : Draws
  pub compare : Compare
  pub iterated : List (ℕ × Bytes) → List (ℕ × Bytes)
  pub sid : Bytes
  pub like : Bytes → Bytes → Bool
  pub quoted : Bytes → Bytes
  pub matches : Bytes → Bytes → Option Bytes
  pub now : ℕ

-- The method, the path and the addresses; the cookies; the fields of the form and the parameters of
-- the query that some handler reads.
pub record GuiRequest : Type 0 where
  pub method : Bytes
  pub path : Bytes
  pub forwarded_for : Bytes
  pub remote_addr : Bytes
  pub tls : Bool
  pub forwarded_proto : Bytes
  pub forwarded_host : Bytes
  pub host : Bytes
  pub session : Option Bytes
  pub token_session : Option Bytes
  pub csrf : Option Bytes
  pub flash : Option Bytes
  pub csrf_field : Bytes
  pub username : Bytes
  pub password : Bytes
  pub token : Bytes
  pub id : Bytes
  pub period : Bytes
  pub logs_query : LogsQuery

pub data GuiReply : Type 0 where
  no_route too_many_requests page_login login_elsewhere robots_text asset redirect_icon : GuiReply
  no_session : Answer → GuiReply
  bad_csrf : Option ℕ → GuiReply
  answered : Answer → GuiReply
  replied : Reply → GuiReply
  changed_clients : ClientsAnswer → GuiReply
  page_clients : ClientsPage → GuiReply
  page_access : List AccessView × Bytes → GuiReply
  page_dashboard : DashboardPage → GuiReply
  page_logs : LogsAnswer → GuiReply
  page_token_logs : Option (Bytes × List TokenLogView) → GuiReply
  compose_file : Result ℕ Bytes → GuiReply
  event_stream : List Bytes → GuiReply

-- The GUI has a limiter of its own.
pub record Gui : Type 0 where
  pub server : Server
  pub limiter : Option RateLimiter
