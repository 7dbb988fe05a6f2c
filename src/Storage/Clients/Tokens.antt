-- ===== src/Storage/Clients/Tokens.antt =====
-- Clients, their tokens and their deletion.
use proxywi.Common.{
  ℕ, ◌≤◌, ◌≡◌, refl, sym, ap, inl, inr, some, [], ◌++◌, append-nil, arith, leb, leb→le, Bool-cases,
  length, drop, take-append-drop, length-take, Bytes, same_refl, ok,
}
use proxywi.Storage.Rows.{Db, Client}
use proxywi.Storage.Clients.{token_id_from_token, create_client, client_by_token_id, client_by_id}

-- The token id is a prefix of the token, of at most 16 bytes, and is empty only for the empty token.
pub token_id_from_token_lem :
    (token : Bytes)
    → ((rest : Bytes) × (token ≡ token_id_from_token token ++ rest))
      × (length (token_id_from_token token) ≤ 16)
      × (token_id_from_token token ≡ [] → token ≡ [])
unfolding token_id_from_token
token_id_from_token_lem token = elim (Bool-cases (leb 16 (length token))) [
  | inl long ↦ rw long (
    (drop 16 token, sym (take-append-drop 16 token)),
    omega (arith, length-take 16 token),
    λ e. absurd (omega (arith, length-take 16 token, ap length e, leb→le _ _ long)),
  )
  | inr short ↦ rw short (([], sym (append-nil token)), ground arith, λ e. e)
]

-- With a working driver, a client that `CreateClient` made is found by the id that the call
-- returned and by its token id, with the name and hash given.
pub create_client-found :
    (name hash token_id : Bytes) (now id : ℕ) (db : Db)
    → db.faults ≡ []
    → (create_client name hash token_id now db).0 ≡ ok id
    → (c : Client) × ((client_by_id id (create_client name hash token_id now db).1).0 ≡ ok (some c))
      × ((client_by_token_id token_id (create_client name hash token_id now db).1).0 ≡ ok (some c))
      × (c.name ≡ name)
      × (c.token_hash ≡ hash)
      × (c.id ≡ id)
unfolding create_client client_by_id client_by_token_id
create_client-found name hash token_id now id db h made = (
  record {
    id = db.next_client;
    name = name;
    token_hash = hash;
    token_id = token_id;
    agent_version = [];
    last_seen = 0;
    created_at = now;
  },
  ground (arith, same_refl token_id),
  ground (arith, same_refl token_id),
  refl,
  refl,
  ground arith,
)
