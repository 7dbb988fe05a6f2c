-- ===== src/Server/Gui/Clients/Renewal.antt =====
-- From a client whose token is drawn anew to the control channel that accepts the new one only.
use proxywi.Common.{
  ℕ, ◌≡◌, refl, sym, ap, ◌≢◌, inl, inr, true, ◌&&◌, Option, some, List, [], ◌∷◌, map, arith, ◌==◌,
  ==_iff, Bool-cases, Option-cases, first, any, Bytes, same, same_refl, same→eq, same_iff, ok,
  Result-cases,
}
use proxywi.Storage.Rows.{Db, Client}
use proxywi.Storage.Query.{unique, query_lem}
use proxywi.Storage.Clients.{
  token_id_from_token, client_by_token_id, client_by_id, update_client_token, update_clients,
  client_of,
}
use proxywi.Server.Gate.{Compare}
use proxywi.Server.Control.{authenticate_token}
use proxywi.Server.Control.Authenticated.{authenticate_token_sound, SameEntries}
use proxywi.Server.Registry.{disconnect}
use proxywi.Server.State.{Server}
use proxywi.Common.Integers.{pos, negsuc, parse_int}
use proxywi.Server.Gui.View.{found}
use proxywi.Server.Gui.Clients.{
  Draws, ClientsAnswer, to_clients, regenerate, post_regenerate_client,
}
use proxywi.Server.Gui.Clients.Tokens.{Accepts, authenticate_row}

-- What `UPDATE clients` writes for the row of an id.
module _ (id : ℕ) (hash token_id : Bytes) where
  abbrev rehash : List Client → List Client
  rehash cs = update_clients id (λ c. record c { token_hash = hash; token_id = token_id }) cs

  abbrev Rehashed : Option Client → Type 0
  Rehashed o = (c : Client) × (o ≡ some c) × (c.id ≡ id) × (c.token_hash ≡ hash)

  first-present :
      (cs : List Client) (c : Client)
      → first (λ c. same c.token_id token_id) cs ≡ some c
      → any (same token_id) (map (λ c. c.token_id) cs) ≡ true
  first-present [] c e = absurd cc
  first-present (d ∷ cs) c e =
      ground (arith, first-present cs c, same_iff d.token_id token_id, same_refl token_id)

  rehash-found :
      (cs : List Client)
      → any (λ c. c.id == id) cs ≡ true
      → unique (map (λ c. c.token_id) (rehash cs)) ≡ true
      → Rehashed (first (λ c. same c.token_id token_id) (rehash cs))
  rehash-found [] some_row distinct = absurd cc
  rehash-found (c ∷ cs) some_row distinct = elim (Bool-cases (c.id == id)) [
    | inl e ↦
        rw (e, same_refl token_id)
          (record c { token_hash = hash; token_id = token_id }, refl, (==_iff c.id id).0 e, refl)
    | inr e ↦
        let (d, at_d, ids, hashes) = rehash-found cs (ground arith) (ground arith) in
        elim (Bool-cases (same c.token_id token_id)) [
          | inr f ↦ rw (e, f) (d, at_d, ids, hashes)
          | inl f ↦
              let present = first-present (rehash cs) d at_d in
              let same_id = same→eq c.token_id token_id f in
              let absent : _ = rw (e, same_id, present) at distinct in absurd cc
        ]
  ]

  rehash-holds :
      (compare : Compare) (token : Bytes) (cs : List Client)
      → any (λ c. c.id == id && compare c.token_hash token) (rehash cs) ≡ true
      → compare hash token ≡ true
  rehash-holds compare token [] h = absurd cc
  rehash-holds compare token (c ∷ cs) h = ground (arith, rehash-holds compare token cs)

update_client_token_lem :
    (id : ℕ) (hash token_id : Bytes) (db : Db) (done : Unit {0})
    → db.faults ≡ []
    → (update_client_token id hash token_id db).0 ≡ ok done
    → (unique (map (λ c. c.token_id) (rehash id hash token_id db.clients)) ≡ true)
      × ((update_client_token id hash token_id db).1
          ≡ record db { clients = rehash id hash token_id db.clients })
unfolding update_client_token
update_client_token_lem id hash token_id db done h e =
    let distinct = unique (map (λ c. c.token_id) (rehash id hash token_id db.clients)) in
    elim (Bool-cases distinct) [
      | inl u ↦ (u, ground (arith, u))
      | inr u ↦ absurd (ground (arith, u))
    ]

-- Who comes in, and who does not, once the row of an id has the hash of a token.
abbrev pub Replaced :
    Compare → (List (ℕ × Bytes) → List (ℕ × Bytes)) → Draws → ℕ → ClientsAnswer × Server → Type 0
Replaced compare iterated d id out =
    (out.0.flash ≡ some d.token)
    × ((c : Client) × ((authenticate_token compare iterated d.token out.1.db).0 ≡ ok (id, c)))
    × ((token : Bytes) (c : Client)
        → (authenticate_token compare iterated token out.1.db).0 ≡ ok (id, c)
        → (hash : Bytes) × (d.hash d.token ≡ some hash) × (compare hash token ≡ true))

regenerate_lem :
    (compare : Compare) (iterated : List (ℕ × Bytes) → List (ℕ × Bytes)) (d : Draws) (id : ℕ)
    → (s : Server) → SameEntries iterated
    → Accepts compare d.hash
    → d.token ≢ []
    → s.db.faults ≡ []
    → any (λ c. c.id == id) s.db.clients ≡ true
    → (regenerate d id s).0.reply ≡ to_clients (some id)
    → ((regenerate d id s).0.closed ≡ (disconnect s.registry id).1)
      × Replaced compare iterated d id (regenerate d id s)
unfolding regenerate client_by_token_id
regenerate_lem compare iterated d id s entries law ne h row made =
    let token_id = token_id_from_token d.token in
    elim (Option-cases (d.hash d.token)) [
      | inl e ↦ absurd (cc (rw (regenerate, e) at made))
      | inr (hash, e) ↦
          let r = (update_client_token id hash token_id s.db).0 in
          elim (Result-cases r) [
            | inr (f, q) ↦ absurd (cc (rw (regenerate, e, q) at made))
            | inl (done, q) ↦
                let (distinct, db') = update_client_token_lem id hash token_id s.db done h q in
                let rows = rehash id hash token_id s.db.clients in
                let (c, at_c, ids, hashes) =
                  rehash-found id hash token_id s.db.clients row distinct in
                let fits : compare c.token_hash d.token ≡ true = rw hashes (law d.token hash e) in
                let after : Db = record s.db { clients = rows } in
                let look : (client_by_token_id token_id after).0 ≡ ok (some c) =
                  ground (arith, h, at_c) in
                let joined = authenticate_row compare iterated d.token after c ne look fits in
                rw (regenerate, e, q, db')
                  (
                    refl,
                    (
                      refl,
                      (c, rw ids at joined),
                      λ token cl auth. (
                        hash,
                        refl,
                        rehash-holds id hash token_id compare token s.db.clients (
                            authenticate_token_sound compare iterated token after id cl entries
                              auth),
                      ),
                    ),
                  )
          ]
    ]

client_present :
    (id : ℕ) (cs : List Client) (c : Client)
    → first (λ c. c.id == id) cs ≡ some c
    → any (λ c. c.id == id) cs ≡ true
client_present id [] c e = absurd cc
client_present id (d ∷ cs) c e = ground (arith, client_present id cs c)

client_lem :
    (id : ℕ) (db : Db) → db.faults ≡ [] → client_by_id id db ≡ (ok (client_of id db.clients), db)
unfolding client_by_id
client_lem id db h = query_lem (λ d. client_of id d.clients) db h

regenerated_id :
    (d : Draws) (k id : ℕ) (s : Server) → (regenerate d k s).0.reply ≡ to_clients (some id) → k ≡ id
unfolding regenerate
regenerated_id d k id s made = ground arith

-- With a working driver and a token that is not empty: where `postRegenerateClient` leads to the
-- page of a client, the flash cookie carries the new token, the session of the client's agent, if it
-- is online, is closed, the control channel authenticates the new token as that client, and it
-- authenticates as that client no token but those that bcrypt accepts for the new hash.
pub post_regenerate_client-authenticate_token :
    (compare : Compare) (iterated : List (ℕ × Bytes) → List (ℕ × Bytes)) (d : Draws)
    → (param : Bytes) (id : ℕ) (s : Server) → SameEntries iterated
    → Accepts compare d.hash
    → d.token ≢ []
    → s.db.faults ≡ []
    → (post_regenerate_client d param s).0.reply ≡ to_clients (some id)
    → ((post_regenerate_client d param s).0.closed ≡ (disconnect s.registry id).1)
      × Replaced compare iterated d id (post_regenerate_client d param s)
unfolding post_regenerate_client
post_regenerate_client-authenticate_token compare iterated d param id s entries law ne h made =
    elim (Option-cases (parse_int param)) [
      | inl e ↦ absurd (cc (rw (post_regenerate_client, e) at made))
      | inr (negsuc n, e) ↦ absurd (cc (rw (post_regenerate_client, e) at made))
      | inr (pos k, e) ↦
          let looked = client_lem k s.db h in
          let same_db : (client_by_id k s.db).1 ≡ s.db = ap (λ p. p.1) looked in
          let s' : Server = record s { db = (client_by_id k s.db).1 } in
          elim (Option-cases (found (client_by_id k s.db).0)) [
            | inl q ↦ absurd (cc (rw (post_regenerate_client, e, q) at made))
            | inr (c, q) ↦
                let done : (regenerate d k s').0.reply ≡ to_clients (some id) =
                  rw (post_regenerate_client, e, q) at made in
                let present = client_present k s.db.clients c (rw looked at q) in
                let same_id = regenerated_id d k id s' done in
                let kept : s'.db.faults ≡ [] = rw same_db h in
                let row : any (λ c. c.id == k) s'.db.clients ≡ true = rw same_db present in
                rw (post_regenerate_client, e, q, sym same_id)
                  (regenerate_lem compare iterated d k s' entries law ne kept row
                    (rw (sym same_id) at done))
          ]
    ]
