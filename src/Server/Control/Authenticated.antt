-- ===== src/Server/Control/Authenticated.antt =====
-- Which agents the control channel lets into the registry.
use proxywi.Common.{
  ℕ, ◌≡◌, refl, sym, ap, ◌∙◌, ◌≢◌, inl, inr, Bool, true, ◌&&◌, ◌||◌, Option, none, some, List, [],
  ◌∷◌, map, arith, ◌==◌, ==_refl, Bool-cases, Option-cases, first, any, Bytes, same, is_empty,
  Result, ok, err, Result-cases,
}
use proxywi.Storage.Rows.{Db, Client, DbError}
use proxywi.Storage.Query.{query, next_fault, spent}
use proxywi.Storage.Clients.{
  token_id_from_token, client_by_token_id, client_by_id, all_client_token_hashes,
}
use proxywi.Server.Gate.{Compare}
use proxywi.Server.Registry.{Agent}
use proxywi.Server.Tunnel.{Handshake, validate_handshake, protocol_version}
use proxywi.Server.State.{Server}
use proxywi.Server.Control.{
  ControlEnv, authenticate_token, by_hash, by_any_hash, match_hashes, match_row, vanished_or,
  serve_open, join_agent, origin_allowed,
}

-- A stored client of that id has a hash that bcrypt accepts the token for.
abbrev pub Holds : Compare → Bytes → ℕ → Db → Type 0
Holds compare token id db = any (λ c. c.id == id && compare c.token_hash token) db.clients ≡ true

first-any :
    (p q : Client → Bool) (cs : List Client) (c : Client)
    → first p cs ≡ some c
    → q c ≡ true
    → any q cs ≡ true
first-any p q [] c h e = absurd cc
first-any p q (d ∷ cs) c h e = ground (arith, first-any p q cs c)

-- An entry of the map of hashes.
abbrev fits : Compare → Bytes → ℕ → (ℕ × Bytes) → Bool
fits compare token id e = e.0 == id && compare e.1 token

any-hashes :
    (compare : Compare) (token : Bytes) (id : ℕ) (cs : List Client)
    → any (fits compare token id) (map (λ c. (c.id, c.token_hash)) cs)
      ≡ any (λ c. c.id == id && compare c.token_hash token) cs
any-hashes compare token id [] = refl
any-hashes compare token id (c ∷ cs) =
    ap (λ b. (c.id == id && compare c.token_hash token) || b) (any-hashes compare token id cs)

vanished_or_lem :
    (id found : ℕ) (cl : Client) (r : Result DbError (Option Client))
    → vanished_or id r ≡ ok (found, cl)
    → found ≡ id
vanished_or_lem id found cl (ok none) e = absurd cc
vanished_or_lem id found cl (ok (some c)) e = cc
vanished_or_lem id found cl (err f) e = absurd cc

by_hash_lem :
    (compare : Compare) (token : Bytes) (hashes : List (ℕ × Bytes)) (db : Db) (id : ℕ) (cl : Client)
    → (by_hash compare token hashes db).0 ≡ ok (id, cl)
    → any (fits compare token id) hashes ≡ true
unfolding by_hash
by_hash_lem compare token [] db id cl h = absurd cc
by_hash_lem compare token ((k, hash) ∷ hashes) db id cl h = elim (Bool-cases (compare hash token)) [
  | inl e ↦
      let same_id = vanished_or_lem k id cl (client_by_id k db).0 (rw e at h) in
      rw (e, same_id, ==_refl k) refl
  | inr e ↦ let rest = by_hash_lem compare token hashes db id cl (rw e at h) in ground (arith, rest)
]

-- The iteration shows the entries of the map, in some order.
abbrev pub SameEntries : (List (ℕ × Bytes) → List (ℕ × Bytes)) → Type 0
SameEntries iterated =
    (p : (ℕ × Bytes) → Bool) (l : List (ℕ × Bytes)) → any p (iterated l) ≡ any p l

abbrev hashes_of : Db → List (ℕ × Bytes)
hashes_of db = map (λ c. (c.id, c.token_hash)) db.clients

abbrev named_by : Bytes → Db → Option Client
named_by token_id db = first (λ c. same c.token_id token_id) db.clients

query-same :
    {A : Type 0} (f : Db → A) (db : Db)
    → ((query f db).1 ≡ spent db) × ((a : A) → (query f db).0 ≡ ok a → f db ≡ a)
unfolding query
query-same f db = elim (Bool-cases (next_fault db)) [
  | inl e ↦ rw e (refl, λ a z. absurd cc)
  | inr e ↦ rw e (refl, λ a z. cc)
]

match_hashes_lem :
    (compare : Compare) (iterated : List (ℕ × Bytes) → List (ℕ × Bytes)) (token : Bytes)
    → (r : Result DbError (List (ℕ × Bytes))) (d db : Db) (id : ℕ) (cl : Client)
    → SameEntries iterated
    → ((hashes : List (ℕ × Bytes)) → r ≡ ok hashes → hashes_of db ≡ hashes)
    → (match_hashes compare iterated token r d).0 ≡ ok (id, cl)
    → Holds compare token id db
unfolding match_hashes
match_hashes_lem compare iterated token (err e) d db id cl entries rows h = absurd cc
match_hashes_lem compare iterated token (ok hashes) d db id cl entries rows h =
    sym (any-hashes compare token id db.clients)
    ∙ ap (any (fits compare token id)) (rows hashes refl)
    ∙ sym (entries (fits compare token id) hashes)
    ∙ by_hash_lem compare token (iterated hashes) d id cl h

by_any_hash_lem :
    (compare : Compare) (iterated : List (ℕ × Bytes) → List (ℕ × Bytes)) (token : Bytes) (db : Db)
    → (id : ℕ) (cl : Client) → SameEntries iterated
    → (by_any_hash compare iterated token db).0 ≡ ok (id, cl)
    → Holds compare token id db
unfolding by_any_hash all_client_token_hashes
by_any_hash_lem compare iterated token db id cl entries h =
    match_hashes_lem compare iterated token (query hashes_of db).0 (query hashes_of db).1 db id cl
      entries (query-same hashes_of db).1 h

match_row_lem :
    (compare : Compare) (iterated : List (ℕ × Bytes) → List (ℕ × Bytes)) (token : Bytes)
    → (r : Result DbError (Option Client)) (d db : Db) (id : ℕ) (cl : Client) → SameEntries iterated
    → ((o : Option Client) → r ≡ ok o → named_by (token_id_from_token token) db ≡ o)
    → d.clients ≡ db.clients
    → (match_row compare iterated token r d).0 ≡ ok (id, cl)
    → Holds compare token id db
unfolding match_row
match_row_lem compare iterated token (err e) d db id cl entries row kept h = absurd cc
match_row_lem compare iterated token (ok none) d db id cl entries row kept h =
    rw kept at (by_any_hash_lem compare iterated token d id cl entries h)
match_row_lem compare iterated token (ok (some c)) d db id cl entries row kept h =
    elim (Bool-cases (compare c.token_hash token)) [
      | inr unfit ↦
          rw kept at (by_any_hash_lem compare iterated token d id cl entries (rw unfit at h))
      | inl fit ↦
          let same_id : c.id ≡ id = cc (rw fit at h) in
          first-any (λ d. same d.token_id (token_id_from_token token))
            (λ d. d.id == id && compare d.token_hash token) db.clients c (row (some c) refl)
            (rw (same_id, ==_refl id, fit) refl)
    ]

-- `authenticateToken` answers with an id only where a stored client of that id has a hash that
-- bcrypt accepts the token for, whatever the driver does and however the map is iterated.
pub authenticate_token_sound :
    (compare : Compare) (iterated : List (ℕ × Bytes) → List (ℕ × Bytes)) (token : Bytes) (db : Db)
    → (id : ℕ) (cl : Client) → SameEntries iterated
    → (authenticate_token compare iterated token db).0 ≡ ok (id, cl)
    → Holds compare token id db
unfolding authenticate_token client_by_token_id
authenticate_token_sound compare iterated token db id cl entries h =
    let lookup = named_by (token_id_from_token token) in
    let (after, row) = query-same lookup db in
    elim (Bool-cases (is_empty (token_id_from_token token))) [
      | inl e ↦ by_any_hash_lem compare iterated token db id cl entries (rw e at h)
      | inr e ↦
          match_row_lem compare iterated token (query lookup db).0 (query lookup db).1 db id cl
            entries row (ap (λ d. d.clients) after) (rw e at h)
    ]

valid_lem :
    (h : Handshake) (done : Unit {0})
    → validate_handshake h ≡ ok done
    → (h.version ≡ protocol_version) × (h.token ≢ [])
unfolding validate_handshake
valid_lem h done v = ground arith

-- Where the iteration of the map shows its entries, an agent joins only after a handshake of the
-- protocol's version with a token that is not empty, from an allowed origin, and only under the id
-- of a stored client whose hash bcrypt accepts the token for, whatever the driver does.
pub serve_open_sound :
    (env : ControlEnv) (now : ℕ) (s : Server) (a : Agent)
    → SameEntries env.iterated
    → (serve_open env now s).joined ≡ some a
    → (h : Handshake) × (env.handshake ≡ some h)
      × (h.version ≡ protocol_version)
      × (h.token ≢ [])
      × (origin_allowed env.origin env.host ≡ true)
      × Holds env.compare h.token a.id s.db
unfolding serve_open join_agent validate_handshake
serve_open_sound env now s a entries joined =
    elim (Bool-cases (origin_allowed env.origin env.host)) [
      | inr bad ↦ absurd (cc (rw (serve_open, bad) at joined))
      | inl allowed ↦ elim (Option-cases env.handshake) [
        | inl e ↦ absurd (cc (rw (serve_open, allowed, e) at joined))
        | inr (h, e) ↦ elim (Result-cases (validate_handshake h)) [
          | inr (bad, v) ↦ absurd (cc (rw (serve_open, allowed, e, v) at joined))
          | inl (done, v) ↦
              let auth = (authenticate_token env.compare env.iterated h.token s.db).0 in
              elim (Result-cases auth) [
                | inr (bad, q) ↦ absurd (cc (rw (serve_open, allowed, e, v, q) at joined))
                | inl ((id, cl), q) ↦ elim (Bool-cases env.ack_written) [
                  | inr silent ↦ absurd (cc (rw (serve_open, allowed, e, v, q, silent) at joined))
                  | inl acked ↦ elim (Option-cases env.session) [
                    | inl r ↦ absurd (cc (rw (serve_open, allowed, e, v, q, acked, r) at joined))
                    | inr (session, r) ↦
                        let same : _ = rw (serve_open, allowed, e, v, q, acked, r) at joined in
                        let same_id : id ≡ a.id = cc same in
                        let (version, token) = valid_lem h done v in
                        let held =
                          authenticate_token_sound env.compare env.iterated h.token s.db id cl
                            entries q in
                        (h, e, version, token, allowed, rw same_id at held)
                  ]
                ]
              ]
        ]
      ]
    ]
