-- ===== src/Server/Gui/Clients/Tokens.antt =====
-- From a token that the page of the clients makes to the control channel that accepts it.
use proxywi.Common.{
  ℕ, ◌≡◌, refl, sym, ap, ◌∙◌, ◌≢◌, inl, inr, true, false, Option, some, List, [], Bool-cases,
  Option-cases, Bytes, is_empty, is_empty→nil, Result, ok, err, Result-cases,
}
use proxywi.Storage.Rows.{Db, Client, DbError}
use proxywi.Storage.Clients.{
  generate_unique_client_name, create_client, token_id_from_token, client_by_token_id,
}
use proxywi.Storage.Clients.Tokens.{token_id_from_token_lem, create_client-found}
use proxywi.Storage.Clients.Names.{generate_unique_client_name-Generates}
use proxywi.Server.Gate.{Compare}
use proxywi.Server.Control.{authenticate_token, match_row}
use proxywi.Server.State.{Server, unix}
use proxywi.Server.Gui.Clients.{Draws, to_clients, new_client, post_new_client}

-- bcrypt's contract: the hash that it made of a password is one that it accepts the password for.
abbrev pub Accepts : Compare → (Bytes → Option Bytes) → Type 0
Accepts compare hash = (p h : Bytes) → hash p ≡ some h → compare h p ≡ true

token_id-ne-nil : (token : Bytes) → token ≢ [] → is_empty (token_id_from_token token) ≡ false
token_id-ne-nil token ne = elim (Bool-cases (is_empty (token_id_from_token token))) [
  | inr e ↦ e
  | inl e ↦ absurd (ne ((token_id_from_token_lem token).2 (is_empty→nil _ e)))
]

-- The row of a token's id is enough for the control channel.
pub authenticate_row :
    (compare : Compare) (iterated : List (ℕ × Bytes) → List (ℕ × Bytes)) (token : Bytes) (db : Db)
    → (c : Client) → token ≢ []
    → (client_by_token_id (token_id_from_token token) db).0 ≡ ok (some c)
    → compare c.token_hash token ≡ true
    → (authenticate_token compare iterated token db).0 ≡ ok (c.id, c)
unfolding authenticate_token match_row
authenticate_row compare iterated token db c ne row fits =
    rw (token_id-ne-nil token ne, row, match_row, fits) refl

new_client_lem :
    (compare : Compare) (iterated : List (ℕ × Bytes) → List (ℕ × Bytes)) (d : Draws) (now : ℕ)
    → (named : Result DbError (Bytes × ℕ)) (db : Db) (id : ℕ) → Accepts compare d.hash
    → d.token ≢ []
    → db.faults ≡ []
    → (new_client d now named db).0.reply ≡ to_clients (some id)
    → (c : Client) × ((new_client d now named db).0.flash ≡ some d.token)
      × ((authenticate_token compare iterated d.token (new_client d now named db).1).0 ≡ ok (id, c))
unfolding new_client
new_client_lem compare iterated d now (err e) db id law ne h made = absurd cc
new_client_lem compare iterated d now (ok (name, next)) db id law ne h made =
    elim (Option-cases (d.hash d.token)) [
      | inl e ↦ absurd (cc (rw (new_client, e) at made))
      | inr (hash, e) ↦
          let token_id = token_id_from_token d.token in
          let (r, db') = create_client name hash token_id (unix now) db in
          elim (Result-cases r) [
            | inr (f, q) ↦ absurd (cc (rw (new_client, e, q) at made))
            | inl (made_id, q) ↦
                let same_id : made_id ≡ id = cc (rw (new_client, e, q) at made) in
                let (c, by_id, by_token, names, hashes, ids) =
                  create_client-found name hash token_id (unix now) made_id db h q in
                let fits : compare c.token_hash d.token ≡ true = rw hashes (law d.token hash e) in
                let joined = authenticate_row compare iterated d.token db' c ne by_token fits in
                rw (new_client, e) (rw q (c, refl, rw (sym same_id, sym ids) joined))
          ]
    ]

-- With a working driver and a token that is not empty: where `postNewClient` leads to the page of
-- a client, the flash cookie carries the token, and on the database as the handler leaves it the
-- control channel authenticates the token as that client.
pub post_new_client-authenticate_token :
    (compare : Compare) (iterated : List (ℕ × Bytes) → List (ℕ × Bytes)) (d : Draws) (now : ℕ)
    → (s : Server) (id : ℕ) → Accepts compare d.hash
    → d.token ≢ []
    → s.db.faults ≡ []
    → (post_new_client d now s).0.reply ≡ to_clients (some id)
    → (c : Client) × ((post_new_client d now s).0.flash ≡ some d.token)
      × ((authenticate_token compare iterated d.token (post_new_client d now s).1.db).0
          ≡ ok (id, c))
unfolding post_new_client
post_new_client-authenticate_token compare iterated d now s id law ne h made =
    let drawn = generate_unique_client_name d.petname d.draw s.db in
    let same_db = (generate_unique_client_name-Generates d.petname d.draw s.db h).1 in
    new_client_lem compare iterated d now drawn.0 drawn.1 id law ne
      (ap (λ (e : Db). e.faults) same_db ∙ h) made
