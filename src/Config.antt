-- ===== src/Config.antt =====
-- internal/config/config.go. The environment is a function that gives "" for what is not set.
use proxywi.Common.{
  ◌≡◌, inl, inr, Bool, true, false, ◌&&◌, ◌||◌, not, List, [], ◌∷◌, ◌++◌, arith, if◌then◌else◌,
  Bool-cases, All, Bytes, codes, same, is_empty, has_prefix, split, trim_space, to_lower, Result,
  ok, err,
}

abbrev pub Environ : Type 0
Environ = Bytes → Bytes

pub record ServerConfig : Type 0 where
  pub http_addr : Bytes
  pub socks_addr : Bytes
  pub main_addr : Bytes
  pub main_domain : Bytes
  pub data_dir : Bytes
  pub proxy_protocol : Bool
  pub admin_username : Bytes
  pub admin_password : Bytes

pub record ClientConfig : Type 0 where
  pub server : Bytes
  pub token : Bytes
  pub tls_insecure : Bool
  pub allowed_targets : List Bytes
  pub denied_targets : List Bytes

abbrev pub env : Environ → Bytes → Bytes → Bytes
env getenv key fallback = if not (is_empty (getenv key)) then getenv key else fallback

unfoldable pub bool_env : Environ → Bytes → Bool
bool_env getenv key =
    let v = to_lower (getenv key) in
    same v (codes "1") || same v (codes "true") || same v (codes "yes") || same v (codes "on")

-- The loop of `splitEnv`.
abbrev pub trimmed : List Bytes → List Bytes
trimmed [] = []
trimmed (p ∷ parts) =
    let rest = trimmed parts in let q = trim_space p in if not (is_empty q) then q ∷ rest else rest

-- nil is [].
unfoldable pub split_env : Bytes → List Bytes
split_env s = if is_empty s then [] else trimmed (split s b',')

unfoldable pub load_server : Environ → ServerConfig
unfolding bool_env
load_server getenv = record {
  http_addr = codes ":" ++ env getenv (codes "PROXYWI_PROXY_HTTP_PORT") (codes "8080");
  socks_addr = codes ":" ++ env getenv (codes "PROXYWI_PROXY_SOCKET_PORT") (codes "1080");
  main_addr = codes ":" ++ env getenv (codes "PROXYWI_PORT") (codes "3000");
  main_domain = env getenv (codes "PROXYWI_DOMAIN") [];
  data_dir = env getenv (codes "PROXYWI_DATA_DIR") (codes "./data");
  proxy_protocol = bool_env getenv (codes "PROXYWI_PROXY_PROTOCOL");
  admin_username = getenv (codes "ADMIN_USERNAME");
  admin_password = getenv (codes "ADMIN_PASSWORD");
}

pub data ConfigError : Type 0 where
  server_required token_required bad_scheme : ConfigError

unfoldable pub load_client : Environ → Result ConfigError ClientConfig
unfolding bool_env split_env
load_client getenv =
    let c : ClientConfig = record {
      server = getenv (codes "PROXYWI_SERVER");
      token = getenv (codes "PROXYWI_TOKEN");
      tls_insecure = bool_env getenv (codes "PROXYWI_TLS_INSECURE");
      allowed_targets = split_env (getenv (codes "PROXYWI_ALLOWED_TARGETS"));
      denied_targets = split_env (getenv (codes "PROXYWI_DENIED_TARGETS"));
    } in
    if is_empty c.server
    then err server_required
    else if is_empty c.token
    then err token_required
    else if not (has_prefix c.server (codes "ws://")) && not (has_prefix c.server (codes "wss://"))
    then err bad_scheme
    else ok c

trimmed-All : (parts : List Bytes) → All (λ s. is_empty s ≡ false) (trimmed parts)
trimmed-All [] = tt
trimmed-All (p ∷ parts) = elim (Bool-cases (is_empty (trim_space p))) [
  | inl e ↦ rw e (trimmed-All parts)
  | inr e ↦ rw e (e, trimmed-All parts)
]

split_env-All : (s : Bytes) → All (λ p. is_empty p ≡ false) (split_env s)
unfolding split_env
split_env-All s = elim (Bool-cases (is_empty s)) [
  | inl e ↦ rw e tt
  | inr e ↦ rw e (trimmed-All (split s b','))
]

-- A token, a server of one of the two schemes, and lists without an empty entry.
abbrev pub Usable : ClientConfig → Type 0
Usable c =
    (is_empty c.token ≡ false)
    × ((has_prefix c.server (codes "ws://") || has_prefix c.server (codes "wss://")) ≡ true)
    × All (λ s. is_empty s ≡ false) c.allowed_targets
    × All (λ s. is_empty s ≡ false) c.denied_targets

-- A configuration that `LoadClient` loads has a token and a server's URL of one of the two schemes,
-- and its lists of targets hold no empty entry.
pub load_client-Usable :
    (getenv : Environ) (c : ClientConfig) → load_client getenv ≡ ok c → Usable c
unfolding load_client
load_client-Usable getenv c h =
    let server = getenv (codes "PROXYWI_SERVER") in
    let token = getenv (codes "PROXYWI_TOKEN") in
    let schemes =
      not (has_prefix server (codes "ws://")) && not (has_prefix server (codes "wss://")) in
    elim (Bool-cases (is_empty server)) [
      | inl e ↦ absurd (cc (rw (load_client, e) at h))
      | inr e ↦ elim (Bool-cases (is_empty token)) [
        | inl f ↦ absurd (cc (rw (load_client, e, f) at h))
        | inr f ↦ elim (Bool-cases schemes) [
          | inl g ↦ absurd (cc (rw (load_client, e, f, g) at h))
          | inr g ↦
              let loaded = rw (load_client, e, f, g) at h in
              let scheme : (has_prefix server (codes "ws://") || has_prefix server (codes "wss://"))
                  ≡ true =
                ground (arith, g) in
              let same_server : server ≡ c.server = cc loaded in
              let same_token : token ≡ c.token = cc loaded in
              let allowed : split_env (getenv (codes "PROXYWI_ALLOWED_TARGETS"))
                  ≡ c.allowed_targets =
                cc loaded in
              let denied : split_env (getenv (codes "PROXYWI_DENIED_TARGETS")) ≡ c.denied_targets =
                cc loaded in
              (
                rw same_token at f,
                rw same_server at scheme,
                rw allowed at (split_env-All (getenv (codes "PROXYWI_ALLOWED_TARGETS"))),
                rw denied at (split_env-All (getenv (codes "PROXYWI_DENIED_TARGETS"))),
              )
        ]
      ]
    ]
