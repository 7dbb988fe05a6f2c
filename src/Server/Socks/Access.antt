-- ===== src/Server/Socks/Access.antt =====
-- Who reaches an agent through the SOCKS5 front end, and what a client is told.
use proxywi.Common.{
  ℕ, ◌≡◌, refl, ◌≢◌, inl, inr, true, none, some, [], ◌∷◌, arith, Bool-cases, Option-cases, first,
  Bytes, same,
}
use proxywi.Storage.Rows.{User}
use proxywi.Server.Gate.{verify_credentials, allow_proxy_request}
use proxywi.Server.Gate.Limits.{verify_credentials_sound}
use proxywi.Server.State.{Server}
use proxywi.Server.Socks.{Env, login, admit, handle}
use proxywi.Server.Socks.Wire.{
  Conn, write, read_greeting, contains_byte, read_user_pass, socks_ver5, socks_auth_user_pass,
}

-- The client of `c` sent a user's name and password, after offering that method.
abbrev pub Sent : Conn → Bytes → Bytes → Type 0
Sent c username password =
    (methods : Bytes) × (rest : Bytes) × (rest' : Bytes) × (read_greeting c.input
      ≡ some (methods, rest))
    × (contains_byte methods socks_auth_user_pass ≡ true)
    × (read_user_pass rest ≡ some (username, password, rest'))

abbrev pub Accepted : Env → ℕ → Bytes → Bytes → Server → User → Type 0
Accepted env now username password s u =
    (first (λ v. same v.username username) s.db.users ≡ some u)
    × (env.compare u.password_hash password ≡ true)
    × ((allow_proxy_request s.limiter now u.username).1 ≡ true)

input-write : (bs : Bytes) (c : Conn) → (write bs c).1.input ≡ c.input
unfolding write
input-write bs c = ground arith

admit-dials :
    (env : Env) (now : ℕ) (username password : Bytes) (c : Conn) (s : Server)
    → (admit env now username password c s).dials ≢ []
    → (u : User) × Accepted env now username password s u
unfolding admit
admit-dials env now username password c s h =
    let verdict = (verify_credentials env.compare username password s.db).0 in
    elim (Bool-cases verdict.1) [
      | inl good ↦
          let (u, named, found, matches) =
            verify_credentials_sound env.compare username password s.db good in
          elim (Bool-cases (allow_proxy_request s.limiter now u.username).1) [
            | inl passed ↦ (u, (found, matches, passed))
            | inr limited ↦ absurd (h (rw (good, admit) (rw named (rw limited refl))))
          ]
      | inr bad ↦ absurd (h (rw (bad, admit)))
    ]

-- A stream to an agent is asked for only where the client sent a name and a password that the
-- database and bcrypt accept, and that user's rate limit lets it through.
pub handle-dials :
    (env : Env) (now : ℕ) (c : Conn) (s : Server)
    → (handle env now c s).dials ≢ []
    → (username : Bytes) × (password : Bytes) × (u : User) × Sent c username password
      × Accepted env now username password s u
unfolding handle login
handle-dials env now c s h = elim (Option-cases (read_greeting c.input)) [
  | inl e ↦ absurd (h (rw (e, handle)))
  | inr ((methods, rest), e) ↦ elim (Bool-cases (contains_byte methods socks_auth_user_pass)) [
    | inr no_method ↦ absurd (h (rw (e, handle) (rw no_method)))
    | inl offered ↦
        let (sent, c') =
          write (socks_ver5 ∷ socks_auth_user_pass ∷ []) (record c { input = rest }) in
        let left : c'.input ≡ rest =
          input-write (socks_ver5 ∷ socks_auth_user_pass ∷ []) (record c { input = rest }) in
        elim (Bool-cases sent) [
          | inr failed ↦ absurd (h (rw (e, handle) (rw offered (rw failed))))
          | inl written ↦ elim (Option-cases (read_user_pass rest)) [
            | inl q ↦
                let q' : read_user_pass c'.input ≡ none = rw left q in
                absurd (h (rw (e, handle) (rw offered (rw written (rw (q', login))))))
            | inr ((username, password, rest'), q) ↦
                let q' : read_user_pass c'.input ≡ some (username, password, rest') = rw left q in
                let (u, accepted) =
                  admit-dials env now username password (record c' { input = rest' }) s
                    (λ z. h (rw (e, handle) (rw offered (rw written (rw (q', login) z))))) in
                (username, password, u, (methods, rest, rest', e, offered, q), accepted)
          ]
        ]
  ]
]
