-- ===== src/Server/Gui/Router/Guarded.antt =====
-- Which requests change the admins, the clients and the users.
use proxywi.Common.{
  ℕ, ◌≡◌, refl, sym, ◌≢◌, ◌⊎◌, inl, inr, Bool, true, false, ◌&&◌, ◌||◌, not, Option, some, List, [],
  ◌∷◌, arith, Bool-cases, Option-cases, any, Bytes, codes, same, same_refl, same→eq, is_empty,
  Result, ok, err, Result-cases,
}
use proxywi.Server.State.{unix}
use proxywi.Server.Gui.Sessions.{Answer, require_auth}
use proxywi.Server.Gui.Csrf.{require_csrf, require_csrf_lem, validate_csrf}
use proxywi.Server.Gui.Routes.{
  Guard, with_session, with_csrf, Route, routes, GuiEnv, GuiRequest, GuiReply, Gui,
}
use proxywi.Server.Gui.Router.{
  csrf_checked, admin_known, Context, run_guard, run_guards, run_action, find_route, run_route,
  serve_gui, parameter, unless_refused,
}
use proxywi.Server.Gui.Router.Kept.{SameAccounts, accounts_trans}
use proxywi.Server.Gui.Router.Unchanged.{changes, action-Same, guards-Same}

-- A live session of an admin, and a form with the CSRF token of its page.
abbrev pub Authorized : GuiEnv → GuiRequest → Gui → Type 0
Authorized env r g =
    (id : ℕ) × ((require_auth r.session (unix env.now) g.server.db).0 ≡ ok id)
    × (r.method ≡ codes "POST")
    × (r.csrf ≡ some r.csrf_field)
    × (r.csrf_field ≢ [])

abbrev is_guarded : List Guard → Bool
is_guarded (with_session ∷ with_csrf ∷ []) = true
is_guarded xs = false

-- A route that changes something is a POST behind the session and the CSRF token.
abbrev allowed : Route → Bool
allowed route =
    not (changes route.action) || (is_guarded route.guards && same route.method (codes "POST"))

routes-allowed : any (λ route. not (allowed route)) routes ≡ false
unfolding same
routes-allowed = refl

find_route_sound :
    (env : GuiEnv) (r : GuiRequest) (rs : List Route) (route : Route) (param : Bytes)
    → find_route env r rs ≡ some (route, param)
    → any (λ route. not (allowed route)) rs ≡ false
    → (allowed route ≡ true) × (parameter env r route ≡ some param)
unfolding find_route
find_route_sound env r [] route param found ok_all = absurd cc
find_route_sound env r (first_one ∷ rs) route param found ok_all =
    elim (Option-cases (parameter env r first_one)) [
      | inl e ↦ find_route_sound env r rs route param (rw (find_route, e) at found) (ground arith)
      | inr (p, e) ↦
          let head : allowed first_one ≡ true = ground arith in
          let here : some (first_one, p) ≡ some (route, param) = rw (find_route, e) at found in
          let same_route : first_one ≡ route = cc here in
          let same_param : p ≡ param = cc here in
          (rw same_route at head, rw (same_route, same_param) at e)
    ]

refused-none :
    (x : Result (Option ℕ) Context) (c : Context) (g : Gui)
    → (rest : Context → Gui → Result GuiReply Context × Gui)
    → (unless_refused (csrf_checked x, g) rest).0 ≡ ok c
    → (d : Context) × (x ≡ ok d)
refused-none (ok d) c g rest e = (d, refl)
refused-none (err s) c g rest e = absurd cc

known-none :
    (x : Result Answer ℕ) (c d : Context) (g : Gui)
    → (rest : Context → Gui → Result GuiReply Context × Gui)
    → (unless_refused (admin_known d x, g) rest).0 ≡ ok c
    → (id : ℕ) × (x ≡ ok id) × ((rest (record d { admin_id = id }) g).0 ≡ ok c)
known-none (ok id) c d g rest e = (id, refl, e)
known-none (err a) c d g rest e = absurd cc

is_guarded_lem : (xs : List Guard) → is_guarded xs ≡ true → xs ≡ with_session ∷ with_csrf ∷ []
is_guarded_lem (with_session ∷ with_csrf ∷ []) h = refl
is_guarded_lem xs h = absurd cc

csrf_same :
    (method : Bytes) (cookie : Option Bytes) (field : Bytes) (c e : Context)
    → require_csrf method cookie field c ≡ ok e
    → require_csrf method cookie field c ≡ ok c
unfolding require_csrf
csrf_same method cookie field c e h = elim (Bool-cases (validate_csrf method cookie field).0) [
  | inl q ↦ rw (require_csrf, q) refl
  | inr q ↦ absurd (cc (rw (require_csrf, q) at h))
]

guarded-Authorized :
    (env : GuiEnv) (r : GuiRequest) (c d : Context) (g : Gui)
    → same r.method (codes "POST") ≡ true
    → (run_guards env r (with_session ∷ with_csrf ∷ []) d g).0 ≡ ok c
    → Authorized env r g
unfolding run_guards run_guard
guarded-Authorized env r c d g post passed =
    let (answer, db) = require_auth r.session (unix env.now) g.server.db in
    let g' : Gui = record g { server = record g.server { db = db } } in
    let (id, known, rest) = known-none answer c d g' (run_guards env r (with_csrf ∷ [])) passed in
    let c' : Context = record d { admin_id = id } in
    let (e, valid) =
      refused-none (require_csrf r.method r.csrf r.csrf_field c') c g' (run_guards env r []) rest in
    let is_post = same→eq r.method (codes "POST") post in
    let passes = csrf_same r.method r.csrf r.csrf_field c' e valid in
    elim ((require_csrf_lem r.method r.csrf r.csrf_field c').0 passes) [
      | inl other ↦ absurd (other is_post)
      | inr (cookie, given) ↦ (id, known, is_post, cookie, given)
    ]

method_lem :
    (env : GuiEnv) (r : GuiRequest) (route : Route) (param : Bytes)
    → route.method ≡ codes "POST"
    → parameter env r route ≡ some param
    → same r.method (codes "POST") ≡ true
method_lem env r route param post passed =
    let whole : is_empty route.method ≡ false = rw post refl in
    elim (Bool-cases (same route.method r.method)) [
      | inl e ↦
          let equal = same→eq route.method r.method e in
          rw (sym equal, post) (same_refl (codes "POST"))
      | inr e ↦ absurd (cc (rw (whole, e) at passed))
    ]

route-Authorized :
    (env : GuiEnv) (r : GuiRequest) (route : Route) (param : Bytes) (g : Gui)
    → allowed route ≡ true
    → parameter env r route ≡ some param
    → SameAccounts (run_route env r route param g).1.server.db g.server.db ⊎ Authorized env r g
route-Authorized env r route param g fine passed =
    let start : Context = record { admin_id = 0; client_id = 0 } in
    let (out, g') = run_guards env r route.guards start g in
    let kept = guards-Same env r route.guards start g in
    elim (Result-cases out) [
      | inr (e, q) ↦ inl (rw (run_route, q) kept)
      | inl (c, q) ↦ elim (Bool-cases (changes route.action)) [
        | inr f ↦ inl (
            rw (run_route, q)
              (accounts_trans (run_action env r route.action param c g').1.server.db g'.server.db
                g.server.db (action-Same env r route.action param c g' f) kept))
        | inl f ↦
            let guarded = is_guarded_lem route.guards (ground (arith, fine, f)) in
            let posted : route.method ≡ codes "POST" =
              same→eq route.method (codes "POST") (ground (arith, fine, f)) in
            inr (
              guarded-Authorized env r c start g (method_lem env r route param posted passed)
                (rw guarded at q))
      ]
    ]

-- Whatever packages, network and driver do: a request that changes an admin, a client or a user of
-- the proxy is a POST with the cookie of a live session of an admin, and its form carries the value
-- of a CSRF cookie that is not empty.
pub serve_gui-Authorized :
    (env : GuiEnv) (r : GuiRequest) (g : Gui)
    → SameAccounts (serve_gui env r g).1.server.db g.server.db ⊎ Authorized env r g
unfolding serve_gui
serve_gui-Authorized env r g = elim (Option-cases (find_route env r routes)) [
  | inl e ↦ inl (rw (serve_gui, e) (refl, refl, refl))
  | inr ((route, param), e) ↦
      let (fine, passed) = find_route_sound env r routes route param e routes-allowed in
      rw (serve_gui, e) (route-Authorized env r route param g fine passed)
]
