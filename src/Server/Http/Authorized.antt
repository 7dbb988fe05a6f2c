-- ===== src/Server/Http/Authorized.antt =====
-- Who reaches an agent through the HTTP front end, and what of the request goes there.
use proxywi.Common.{
  ℕ, ◌≡◌, refl, ◌∙◌, ◌≢◌, inl, inr, Bool, true, ◌||◌, Option, none, some, List, [], ◌∷◌, ◌++◌,
  arith, if◌then◌else◌, Bool-cases, Option-cases, take, drop, first, Bytes, codes, same, Result, ok,
  err,
}
use proxywi.Common.Map.{get, get-delete, bytes_eq}
use proxywi.Storage.Rows.{User}
use proxywi.Server.Gate.{verify_credentials, allow_proxy_request}
use proxywi.Server.Gate.Limits.{verify_credentials_sound}
use proxywi.Server.Registry.{Agent, PickError}
use proxywi.Server.State.{Server}
use proxywi.Server.Http.{
  HttpRequest, HttpEnv, HttpOutcome, authorize, serve_http, with_agent, through, tunnel, forward,
  return_response, request_header, target_of,
}
use proxywi.Server.Http.Basic.{parse_proxy_auth}
use proxywi.Server.Http.Headers.{
  Header, header_get, header_del, canonical_key, hop_by_hop_headers, strip_hop_by_hop_headers,
  is_token_byte, capitalised,
}
use proxywi.Server.Http.Stripping.{named_in, first_connection_options, get-strip_hop_by_hop_headers}

-- The user of the request's credentials, whom the database, bcrypt and the rate limit let through.
abbrev pub Authorized : HttpEnv → ℕ → HttpRequest → Server → Type 0
Authorized env now r s =
    (user : Bytes) × (pass : Bytes) × (u : User) × (parse_proxy_auth
        (header_get r.header (codes "Proxy-Authorization"))
      ≡ some (user, pass))
    × (first (λ v. same v.username user) s.db.users ≡ some u)
    × (env.compare u.password_hash pass ≡ true)
    × ((allow_proxy_request s.limiter now u.username).1 ≡ true)

-- A stream to an agent is asked for only where the Proxy-Authorization field carries a name and a
-- password that the database and bcrypt accept, and that user's rate limit lets the request through.
pub serve_http-dials :
    (env : HttpEnv) (now : ℕ) (r : HttpRequest) (s : Server)
    → (serve_http env now r s).dials ≢ []
    → Authorized env now r s
unfolding serve_http authorize
serve_http-dials env now r s h =
    let field = header_get r.header (codes "Proxy-Authorization") in
    elim (Option-cases (parse_proxy_auth field)) [
      | inl e ↦ absurd (h (rw (e, serve_http)))
      | inr ((user, pass), e) ↦
          let verdict = (verify_credentials env.compare user pass s.db).0 in
          elim (Bool-cases verdict.1) [
            | inr bad ↦ absurd (h (rw (e, serve_http) (rw (bad, authorize))))
            | inl good ↦
                let (u, named, found, matches) =
                  verify_credentials_sound env.compare user pass s.db good in
                elim (Bool-cases (allow_proxy_request s.limiter now u.username).1) [
                  | inl passed ↦ (user, pass, u, e, found, matches, passed)
                  | inr limited ↦
                      absurd (h (rw (e, serve_http) (rw (good, authorize) (rw named (rw limited)))))
                ]
          ]
    ]

-- `out` sends a request only with this header.
abbrev pub SendsOnly : Header → HttpOutcome → Type 0
SendsOnly header out = (h : Header) → out.sent_header ≡ some h → h ≡ header

return_response-SendsOnly :
    (env : HttpEnv) (now : ℕ) (u : User) (a : Agent) (target : Bytes) (s : Server) (sent : ℕ)
    → (header : Header) → SendsOnly header (return_response env now u a target s sent header)
unfolding return_response
return_response-SendsOnly env now u a target s sent header h = ground arith

tunnel-SendsOnly :
    (env : HttpEnv) (now : ℕ) (u : User) (a : Agent) (target : Bytes) (header : Header) (s : Server)
    → SendsOnly header (tunnel env now u a target s)
unfolding tunnel
tunnel-SendsOnly env now u a target header s h = ground arith

forward-SendsOnly :
    (env : HttpEnv) (now : ℕ) (u : User) (a : Agent) (target : Bytes) (r : HttpRequest) (s : Server)
    → SendsOnly (request_header r) (forward env now u a target r s)
unfolding forward
forward-SendsOnly env now u a target r s =
    elim (Option-cases (env.request_bytes (request_header r))) [
      | inl e ↦ rw (e, forward) (λ h q. ground arith)
      | inr (sent, e) ↦
          rw (e, forward) (return_response-SendsOnly env now u a target s sent (request_header r))
    ]

with_agent-SendsOnly :
    (env : HttpEnv) (now : ℕ) (u : User) (r : HttpRequest) (s : Server)
    → (answer : Result PickError (Option Agent))
    → SendsOnly (request_header r) (with_agent env now u r s answer)
unfolding with_agent through
with_agent-SendsOnly env now u r s (err e) h = ground arith
with_agent-SendsOnly env now u r s (ok none) h = ground arith
with_agent-SendsOnly env now u r s (ok (some a)) h = ground (
  arith,
  tunnel-SendsOnly env now u a (target_of r) (request_header r) s h,
  forward-SendsOnly env now u a (target_of r) r s h,
)

authorize-SendsOnly :
    (env : HttpEnv) (now : ℕ) (user pass : Bytes) (r : HttpRequest) (s : Server)
    → SendsOnly (request_header r) (authorize env now user pass r s)
unfolding authorize
authorize-SendsOnly env now user pass r s h =
    let (verdict, db) = verify_credentials env.compare user pass s.db in
    elim (Bool-cases verdict.1) [
      | inr bad ↦ rw (authorize, bad) (ground arith)
      | inl good ↦ elim (Option-cases verdict.0) [
        | inl e ↦ rw (authorize, good) (rw e (ground arith))
        | inr (u, e) ↦ elim (Bool-cases (allow_proxy_request s.limiter now u.username).1) [
          | inr limited ↦ rw (authorize, good) (rw e (rw limited (ground arith)))
          | inl passed ↦
              rw (authorize, good) (rw e (rw passed (with_agent-SendsOnly env now u r _ _ h)))
        ]
      ]
    ]

serve_http-SendsOnly :
    (env : HttpEnv) (now : ℕ) (r : HttpRequest) (s : Server)
    → SendsOnly (request_header r) (serve_http env now r s)
unfolding serve_http
serve_http-SendsOnly env now r s =
    elim (Option-cases (parse_proxy_auth (header_get r.header (codes "Proxy-Authorization")))) [
      | inl e ↦ rw (e, serve_http) (λ h q. ground arith)
      | inr ((user, pass), e) ↦ rw (e, serve_http) (authorize-SendsOnly env now user pass r s)
    ]

-- The two names that the code deletes again are in the list.
Listed : Bytes → Type 0
Listed name =
    (key : Bytes) → same (canonical_key name) key ≡ true → named_in hop_by_hop_headers key ≡ true

or-true : (a b : Bool) → b ≡ true → a || b ≡ true
or-true a b h = ground arith

named_in-append :
    (before after : List Bytes) (name key : Bytes)
    → same (canonical_key name) key ≡ true
    → named_in (before ++ (name ∷ after)) key ≡ true
named_in-append [] after name key e = rw e refl
named_in-append (b ∷ before) after name key e =
    or-true (same (canonical_key b) key) _ (named_in-append before after name key e)

authorization-Listed : Listed (codes "Proxy-Authorization")
unfolding Listed
authorization-Listed =
    named_in-append (take 3 hop_by_hop_headers) (drop 4 hop_by_hop_headers)
      (codes "Proxy-Authorization")

connection-Listed : Listed (codes "Proxy-Connection")
unfolding Listed
connection-Listed =
    named_in-append (take 4 hop_by_hop_headers) (drop 5 hop_by_hop_headers)
      (codes "Proxy-Connection")

authorization-hop : named_in hop_by_hop_headers (codes "Proxy-Authorization") ≡ true
unfolding same canonical_key is_token_byte capitalised
authorization-hop = refl

-- A deletion that the list has made already changes no field.
get-again :
    (name key : Bytes) (h before : Header) (options : List Bytes)
    → Listed name
    → get h key
      ≡ (if named_in options key || named_in hop_by_hop_headers key then none else get before key)
    → get (header_del h name) key
      ≡ (if named_in options key || named_in hop_by_hop_headers key then none else get before key)
unfolding Listed header_del
get-again name key h before options listed e = elim (Bool-cases (same (canonical_key name) key)) [
  | inr q ↦ rw (get-delete h (canonical_key name) key, q) e
  | inl q ↦
      rw (get-delete h (canonical_key name) key, q, or-true (named_in options key) _ (listed key q))
        refl
]

get-request_header :
    (r : HttpRequest) (key : Bytes)
    → get (request_header r) key ≡ (
        if named_in (first_connection_options r.header) key || named_in hop_by_hop_headers key
        then none
        else get r.header key)
unfolding request_header
get-request_header r key =
    get-again (codes "Proxy-Connection") key _ r.header (first_connection_options r.header)
      connection-Listed
      (get-again (codes "Proxy-Authorization") key (strip_hop_by_hop_headers r.header) r.header
        (first_connection_options r.header) authorization-Listed
        (get-strip_hop_by_hop_headers r.header key))

-- The header that `ServeHTTP` hands to `http.Request.Write` for a request that is sent on lacks
-- the hop-by-hop fields, so the proxy's credentials, and the fields that the first line of
-- Connection names; every other field is as the client sent it, those that only a further line of
-- Connection names too.
pub serve_http-sent_header :
    (env : HttpEnv) (now : ℕ) (r : HttpRequest) (s : Server) (h : Header)
    → (serve_http env now r s).sent_header ≡ some h
    → (get h (codes "Proxy-Authorization") ≡ none)
      × ((key : Bytes)
          → get h key ≡ (
              if named_in (first_connection_options r.header) key || named_in hop_by_hop_headers key
              then none
              else get r.header key))
serve_http-sent_header env now r s h sent =
    let e = serve_http-SendsOnly env now r s h sent in
    rw e (
      get-request_header r (codes "Proxy-Authorization")
          ∙ rw
              (or-true (named_in (first_connection_options r.header) (codes "Proxy-Authorization"))
                _ authorization-hop)
              refl,
      get-request_header r,
    )
