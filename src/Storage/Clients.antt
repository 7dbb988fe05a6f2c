-- ===== src/Storage/Clients.antt =====
-- The `clients` table: `TokenIDFromToken` to `DeleteClient` of storage.go. `petname` is the
-- generator of the package golang-petname: `petname n` is the n-th name that it draws, and a call
-- that draws names takes the number of the next draw and returns it.
pub mod Names
pub mod Renaming
pub mod Tokens
use proxywi.Common.{
  ℕ, zero, suc, ◌+◌, ◌-◌, Bool, false, ◌&&◌, not, Option, none, some, List, [], ◌∷◌, map, ltb, leb,
  ◌==◌, if◌then◌else◌, length, take, keep, first, any, Bytes, same, is_empty, split,
}
use proxywi.Storage.Rows.{Db, Client, Session, DbError, no_unique_name}
use proxywi.Storage.Query.{Query, query, exec, pure, raise, continue, unique, ◌>>=◌, ◌>>◌}

-- token[:16]
unfoldable pub token_id_from_token : Bytes → Bytes
token_id_from_token token = if leb 16 (length token) then take 16 token else token

-- `token_id` is UNIQUE; the columns that are not given start at 0 and NULL.
unfoldable pub create_client : Bytes → Bytes → Bytes → ℕ → Query ℕ
unfolding exec
create_client name token_hash token_id now = exec (λ db.
    if any (λ c. same c.token_id token_id) db.clients
    then none
    else some (
      db.next_client,
      record db {
        clients =
            record {
              id = db.next_client;
              name = name;
              token_hash = token_hash;
              token_id = token_id;
              agent_version = [];
              last_seen = 0;
              created_at = now;
            }
            ∷ db.clients;
        next_client = db.next_client + 1;
      },
    ))

-- ^[a-z]+-[a-z]+-[a-z]+$
abbrev pub is_lower : ℕ → Bool
is_lower c = leb b'a' c && leb c b'z'

abbrev pub lower_word : Bytes → Bool
lower_word w = not (is_empty w) && not (any (λ c. not (is_lower c)) w)

unfoldable pub matches_client_name : Bytes → Bool
matches_client_name name = elim (split name b'-') [
  | a ∷ b ∷ c ∷ [] ↦ lower_word a && lower_word b && lower_word c
  | _ ↦ false
]

unfoldable pub client_name_exists : Bytes → Query Bool
unfolding query
client_name_exists name = query (λ db. ltb 0 (length (keep (λ c. same c.name name) db.clients)))

module _ (petname : ℕ → Bytes) where
  -- The loop with the number of rounds that are left.
  unfoldable pub draw_name : ℕ → ℕ → Query (Bytes × ℕ)
  draw_name zero draw = raise no_unique_name
  draw_name (suc rounds) draw =
      let again = draw_name rounds (draw + 1) in
      do
        exists ← client_name_exists (petname draw)
        if not exists then pure (petname draw, draw + 1) else again

  unfoldable pub generate_unique_client_name : ℕ → Query (Bytes × ℕ)
  generate_unique_client_name draw = draw_name 50 draw

abbrev pub update_clients : ℕ → (Client → Client) → List Client → List Client
update_clients id f clients = map (λ c. if c.id == id then f c else c) clients

unfoldable pub update_client_name : ℕ → Bytes → Query (Unit {0})
unfolding exec
update_client_name id name = exec (λ db.
    some (tt, record db { clients = update_clients id (λ c. record c { name = name }) db.clients }))

module _ (petname : ℕ → Bytes) where
  unfoldable pub rename_all : List ℕ → ℕ → Query (Unit {0})
  rename_all [] draw = pure tt
  rename_all (id ∷ ids) draw = do
    drawn ← generate_unique_client_name petname draw
    update_client_name id drawn.0
    rename_all ids drawn.1

  unfoldable pub normalize_legacy_client_names : ℕ → Query (Unit {0})
  normalize_legacy_client_names draw = do
    legacy ← query (λ db. map (λ c. c.id) (keep (λ c. not (matches_client_name c.name)) db.clients))
    rename_all legacy draw

-- ORDER BY id DESC
unfoldable pub list_clients : Query (List Client)
unfolding query
list_clients = query (λ db. db.clients)

abbrev pub client_of : ℕ → List Client → Option Client
client_of id clients = first (λ c. c.id == id) clients

unfoldable pub client_by_id : ℕ → Query (Option Client)
unfolding query
client_by_id id = query (λ db. client_of id db.clients)

unfoldable pub client_by_token_id : Bytes → Query (Option Client)
unfolding query
client_by_token_id token_id = query (λ db. first (λ c. same c.token_id token_id) db.clients)

unfoldable pub all_client_token_hashes : Query (List (ℕ × Bytes))
unfolding query
all_client_token_hashes = query (λ db. map (λ c. (c.id, c.token_hash)) db.clients)

unfoldable pub mark_client_seen : ℕ → Bytes → ℕ → Query (Unit {0})
unfolding exec
mark_client_seen id agent_version now =
    if not (is_empty agent_version)
    then exec (λ db. some (
      tt,
      record db {
        clients =
            update_clients id (λ c. record c { last_seen = now; agent_version = agent_version })
              db.clients;
      },
    ))
    else exec (λ db. some (
      tt,
      record db { clients = update_clients id (λ c. record c { last_seen = now }) db.clients },
    ))

unfoldable pub update_client_token : ℕ → Bytes → Bytes → Query (Unit {0})
unfolding exec
update_client_token id token_hash token_id = exec (λ db.
    let rows =
      update_clients id (λ c. record c { token_hash = token_hash; token_id = token_id })
        db.clients in
    if unique (map (λ c. c.token_id) rows) then some (tt, record db { clients = rows }) else none)

-- A row of `token_sessions` refers to its client, with no ON DELETE clause.
unfoldable pub delete_client : ℕ → Query (Unit {0})
unfolding exec
delete_client id = exec (λ db.
    if any (λ s. s.owner_id == id) db.token_sessions && any (λ c. c.id == id) db.clients
    then none
    else some (tt, record db { clients = keep (λ c. not (c.id == id)) db.clients }))
