-- ===== src/Server/Gui/Clients.antt =====
-- internal/server/gui/handlers.go: the page of the clients, and what it does to them.
pub mod Tokens
pub mod Renewal
use proxywi.Common.{
  ℕ, ◌+◌, ◌-◌, ◌/◌, ◌<◌, Bool, true, false, ◌||◌, not, Option, none, some, List, [], ◌++◌, map,
  if◌then◌else◌, Bytes, codes, same, is_empty, to_lower, Result, ok, err,
}
use proxywi.Common.Integers.{ℤ, pos, negsuc, parse_int}
use proxywi.Storage.Rows.{Db, DbError, Client}
use proxywi.Storage.Query.{Query, query}
use proxywi.Storage.Clients.{
  generate_unique_client_name, create_client, token_id_from_token, client_by_id,
  update_client_token, delete_client, list_clients,
}
use proxywi.Server.Registry.{Agent, Registry, get_agent, disconnect}
use proxywi.Server.Gui.View.{listed, found, admin_name}
use proxywi.Server.State.{Server, unix}

-- What the handlers take from other packages: bcrypt's hash of a password, if it makes one; the
-- names that petname draws, from this one on; and what `randHex(32)` draws.
pub record Draws : Type 0 where
  pub hash : Bytes → Option Bytes
  pub petname : ℕ → Bytes
  pub draw : ℕ
  pub token : Bytes

-- A redirect to `/clients`, with `?id=` where there is an id; or an error with a status.
pub data ClientsReply : Type 0 where
  to_clients : Option ℕ → ClientsReply
  refused : ℕ → ClientsReply

-- The reply; the value of the flash cookie where it is set; the sessions that were closed.
pub record ClientsAnswer : Type 0 where
  pub reply : ClientsReply
  pub flash : Option Bytes
  pub closed : List ℕ

abbrev pub refuse : ℕ → ClientsAnswer
refuse status = record { reply = refused status; flash = none; closed = [] }

-- A statement for the row of an id: no row has a negative one.
abbrev pub at_id : {A : Type 0} → ℤ → (ℕ → Query A) → A → Query A
at_id (pos id) f missing = f id
at_id (negsuc n) f missing = query (λ db. missing)

abbrev pub with_token : Bytes → List ℕ → Result DbError ℕ → ClientsAnswer
with_token token closed (ok id) = record {
  reply = to_clients (some id);
  flash = some token;
  closed = closed;
}
with_token token closed (err e) = refuse 500

-- With the name.
unfoldable pub new_client : Draws → ℕ → Result DbError (Bytes × ℕ) → Db → ClientsAnswer × Db
new_client d now (err e) db = (refuse 500, db)
new_client d now (ok (name, next)) db = elim (d.hash d.token) [
  | none ↦ (refuse 500, db)
  | some hash ↦
      let (r, db') = create_client name hash (token_id_from_token d.token) (unix now) db in
      (with_token d.token [] r, db')
]

unfoldable pub post_new_client : Draws → ℕ → Server → ClientsAnswer × Server
unfolding new_client
post_new_client d now s =
    let (r, db) = generate_unique_client_name d.petname d.draw s.db in
    let (answer, db') = new_client d now r db in (answer, record s { db = db' })

-- With the client, which was found.
unfoldable pub regenerate : Draws → ℕ → Server → ClientsAnswer × Server
regenerate d id s = elim (d.hash d.token) [
  | none ↦ (refuse 500, s)
  | some hash ↦
      let (r, db) = update_client_token id hash (token_id_from_token d.token) s.db in
      let (was_online, closed) = disconnect s.registry id in
      elim r [
        | err e ↦ (refuse 500, record s { db = db })
        | ok done ↦ (with_token d.token closed (ok id), record s { db = db })
      ]
]

-- With the parameter `id` of the path.
unfoldable pub post_regenerate_client : Draws → Bytes → Server → ClientsAnswer × Server
unfolding regenerate
post_regenerate_client d param s = elim (parse_int param) [
  | none ↦ (refuse 400, s)
  | some (negsuc n) ↦ let (r, db) = query (λ db. tt) s.db in (refuse 404, record s { db = db })
  | some (pos id) ↦
      let (r, db) = client_by_id id s.db in
      let s' = record s { db = db } in
      elim (found r) [ none ↦ (refuse 404, s') | some c ↦ regenerate d id s' ]
]

-- The error of the deletion is dropped.
unfoldable pub post_delete_client : Bytes → Server → ClientsAnswer × Server
post_delete_client param s = elim (parse_int param) [
  | none ↦ (refuse 400, s)
  | some id ↦
      let (r, db) = at_id id delete_client tt s.db in
      (record { reply = to_clients none; flash = none; closed = [] }, record s { db = db })
]

-- A row of the page; the time is that of the last sign of life.
pub record ClientView : Type 0 where
  pub id : ℕ
  pub name : Bytes
  pub agent_version : Bytes
  pub online : Bool
  pub last_seen : ℕ

abbrev pub is_some : {A : Type 0} → Option A → Bool
is_some none = false
is_some (some a) = true

abbrev pub view_client : Registry → Client → ClientView
view_client registry c = record {
  id = c.id;
  name = c.name;
  agent_version = c.agent_version;
  online = is_some (get_agent registry c.id);
  last_seen = c.last_seen;
}

-- `getFlashToken`: the value of the cookie, and whether it is cleared.
unfoldable pub get_flash_token : Option Bytes → Bytes × Bool
get_flash_token none = ([], false)
get_flash_token (some c) = if is_empty c then ([], false) else (c, true)

-- The rows; the name of the admin; the token and the name of the client for which a compose file is
-- shown; whether the flash cookie is cleared.
pub record ClientsPage : Type 0 where
  pub views : List ClientView
  pub user : Bytes
  pub shown : Option (Bytes × Bytes)
  pub clears_flash : Bool

abbrev pub show_token : Bytes → Option Client → Option (Bytes × Bytes)
show_token token none = none
show_token token (some c) = some (token, c.name)

-- The admin's id, the flash cookie, and the parameter `id` of the query.
unfoldable pub get_clients : ℕ → Option Bytes → Bytes → Server → ClientsPage × Server
unfolding get_flash_token admin_name
get_clients admin flash param s =
    let (r, db) = list_clients s.db in
    let (user, db') = admin_name admin db in
    let (token, cleared) = get_flash_token flash in
    let plain : ClientsPage = record {
      views = map (view_client s.registry) (listed r);
      user = user;
      shown = none;
      clears_flash = cleared;
    } in
    let s' = record s { db = db' } in
    if is_empty token then (plain, s') else elim (parse_int param) [
      | none ↦ (plain, s')
      | some id ↦
          let (c, db'') = at_id id client_by_id none db' in
          (record plain { shown = show_token token (found c) }, record s { db = db'' })
    ]

-- `controlURL`: whether the request came over TLS, its `X-Forwarded-Proto`, `X-Forwarded-Host` and
-- Host.
unfoldable pub control_url : Bool → Bytes → Bytes → Bytes → Bytes
control_url tls proto forwarded_host host =
    let scheme = if tls || same (to_lower proto) (codes "https") then codes "wss" else codes "ws" in
    scheme ++ codes "://" ++ (if not (is_empty forwarded_host) then forwarded_host else host)

-- `buildCompose`; `quoted` is what `fmt` writes for `%q`.
unfoldable pub build_compose : (Bytes → Bytes) → Bytes → Bytes → Bytes
build_compose quoted url token =
    codes "services:\n"
    ++ codes "  proxywi-client:\n"
    ++ codes "    image: ghcr.io/butialabs/proxywi-client:latest\n"
    ++ codes "    restart: unless-stopped\n"
    ++ codes "    environment:\n"
    ++ codes "      PROXYWI_SERVER: "
    ++ quoted url
    ++ codes "\n"
    ++ codes "      PROXYWI_TOKEN:  "
    ++ quoted token
    ++ codes "\n"

-- The text that is answered, or the status.
unfoldable pub get_client_compose : (Bytes → Bytes) → Bytes → Bytes → Db → Result ℕ Bytes × Db
unfolding build_compose
get_client_compose quoted url param db = elim (parse_int param) [
  | none ↦ (err 400, db)
  | some id ↦
      let (r, db') = at_id id client_by_id none db in
      (
        elim (found r) [
          | none ↦ err 404
          | some c ↦ ok (build_compose quoted url (codes "<paste-your-token-here>"))
        ],
        db',
      )
]
