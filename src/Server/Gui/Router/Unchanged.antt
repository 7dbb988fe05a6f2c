-- ===== src/Server/Gui/Router/Unchanged.antt =====
-- The actions and the guards that leave the admins, the clients and the users alone.
use proxywi.Common.{◌≡◌, refl, Bool, true, false, List, [], ◌∷◌, arith, Bytes, Result, ok, err}
use proxywi.Server.State.{unix}
use proxywi.Server.Gui.Routes.{
  Action, robots, assets, favicon, login_page, login, token_login_page, token_login, logout,
  token_logout, token_logs, dashboard, clients, new_client, regenerate_client, client_compose,
  delete_client, access, new_access, edit_access, delete_access, logs, events_dashboard,
  events_logs, Guard, rate_limited, with_token_session, with_session, with_csrf, GuiEnv, GuiRequest,
  GuiReply, Gui,
}
use proxywi.Server.Gui.Router.{Context, run_guard, run_guards, run_action, unless_refused}
use proxywi.Server.Gui.Router.Kept.{
  SameAccounts, accounts_trans, post_login-Same, post_token_login-Same, post_logout-Same,
  post_token_logout-Same, require_auth-Same, require_token_auth-Same,
}
use proxywi.Server.Gui.Router.Pages.{
  get_token_logs-Reads, get_access-Reads, get_client_compose-Reads, get_clients-Reads,
  get_logs-Reads, get_dashboard-Reads,
}

abbrev pub changes : Action → Bool
changes new_client = true
changes regenerate_client = true
changes delete_client = true
changes new_access = true
changes edit_access = true
changes delete_access = true
changes a = false

abbrev pub Same : Gui → Gui → Type 0
Same g' g = SameAccounts g'.server.db g.server.db

pub action-Same :
    (env : GuiEnv) (r : GuiRequest) (a : Action) (param : Bytes) (c : Context) (g : Gui)
    → changes a ≡ false
    → Same (run_action env r a param c g).1 g
unfolding run_action
action-Same env r robots param c g h = (refl, refl, refl)
action-Same env r assets param c g h = (refl, refl, refl)
action-Same env r favicon param c g h = (refl, refl, refl)
action-Same env r login_page param c g h = (refl, refl, refl)
action-Same env r token_login_page param c g h = (refl, refl, refl)
action-Same env r login param c g h =
    post_login-Same env.compare env.sid r.username r.password (unix env.now) g.server.db
action-Same env r token_login param c g h =
    post_token_login-Same env.compare env.iterated env.sid r.token (unix env.now) g.server.db
action-Same env r logout param c g h = post_logout-Same r.session g.server.db
action-Same env r token_logout param c g h = post_token_logout-Same r.token_session g.server.db
action-Same env r token_logs param c g h =
    get_token_logs-Reads env.like c.client_id (unix env.now) g.server.db
action-Same env r dashboard param c g h = get_dashboard-Reads c.admin_id r.period _ g.server
action-Same env r clients param c g h = get_clients-Reads c.admin_id r.flash r.id g.server
action-Same env r client_compose param c g h =
    get_client_compose-Reads env.quoted _ param g.server.db
action-Same env r access param c g h = get_access-Reads c.admin_id g.server.db
action-Same env r logs param c g h =
    get_logs-Reads env.like c.admin_id r.logs_query (unix env.now) g.server.db
action-Same env r events_dashboard param c g h = (refl, refl, refl)
action-Same env r events_logs param c g h = (refl, refl, refl)
action-Same env r new_client param c g h = absurd cc
action-Same env r regenerate_client param c g h = absurd cc
action-Same env r delete_client param c g h = absurd cc
action-Same env r new_access param c g h = absurd cc
action-Same env r edit_access param c g h = absurd cc
action-Same env r delete_access param c g h = absurd cc

guard-Same :
    (env : GuiEnv) (r : GuiRequest) (x : Guard) (c : Context) (g : Gui)
    → Same (run_guard env r x c g).1 g
unfolding run_guard
guard-Same env r rate_limited c g = ground arith
guard-Same env r with_session c g = require_auth-Same r.session (unix env.now) g.server.db
guard-Same env r with_token_session c g =
    require_token_auth-Same r.token_session (unix env.now) g.server.db
guard-Same env r with_csrf c g = (refl, refl, refl)

unless_refused-Same :
    (out : Result GuiReply Context) (g' g : Gui)
    → (rest : Context → Gui → Result GuiReply Context × Gui) → Same g' g
    → ((c : Context) → Same (rest c g').1 g')
    → Same (unless_refused (out, g') rest).1 g
unless_refused-Same (err e) g' g rest h later = h
unless_refused-Same (ok c) g' g rest h later =
    accounts_trans (rest c g').1.server.db g'.server.db g.server.db (later c) h

pub guards-Same :
    (env : GuiEnv) (r : GuiRequest) (xs : List Guard) (c : Context) (g : Gui)
    → Same (run_guards env r xs c g).1 g
unfolding run_guards
guards-Same env r [] c g = (refl, refl, refl)
guards-Same env r (x ∷ xs) c g =
    let (out, g') = run_guard env r x c g in
    unless_refused-Same out g' g (run_guards env r xs) (guard-Same env r x c g)
      (λ c'. guards-Same env r xs c' g')
