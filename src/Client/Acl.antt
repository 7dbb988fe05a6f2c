-- ===== src/Client/Acl.antt =====
-- internal/client/client.go: which targets an agent may dial. An address is its 4 or 16 bytes, as
-- `net.IP` and `netip.AddrFromSlice` have them.
pub mod Denied
use proxywi.Common.{
  ℕ, ◌+◌, ◌/◌, ◌%◌, Bool, true, false, ◌&&◌, ◌||◌, not, Option, none, some, List, [], ◌∷◌, ◌++◌,
  ◌==◌, if◌then◌else◌, length, take, any, Bytes, codes, same, is_empty, trim_space, to_lower,
}
use proxywi.Common.Hosts.{split_host}

pub record Prefix : Type 0 where
  pub addr : Bytes
  pub bits : ℕ

abbrev byte_bits : ℕ → List Bool
byte_bits n =
    (n / 128 % 2 == 1)
    ∷ (n / 64 % 2 == 1)
    ∷ (n / 32 % 2 == 1)
    ∷ (n / 16 % 2 == 1)
    ∷ (n / 8 % 2 == 1)
    ∷ (n / 4 % 2 == 1)
    ∷ (n / 2 % 2 == 1)
    ∷ (n % 2 == 1)
    ∷ []

abbrev pub bits_of : Bytes → List Bool
bits_of [] = []
bits_of (b ∷ bytes) = byte_bits b ++ bits_of bytes

abbrev same_bit : Bool → Bool → Bool
same_bit true b = b
same_bit false b = not b

abbrev pub same_bits : List Bool → List Bool → Bool
same_bits [] [] = true
same_bits [] (b ∷ bs) = false
same_bits (a ∷ xs) [] = false
same_bits (a ∷ xs) (b ∷ bs) = same_bit a b && same_bits xs bs

-- p.Contains(addr): addresses of the two families never match, not even an IPv4 address in its
-- IPv6 form.
abbrev pub contains : Prefix → Bytes → Bool
contains p addr =
    length p.addr == length addr
    && same_bits (take p.bits (bits_of p.addr)) (take p.bits (bits_of addr))

-- What is configured; `net/netip`'s parsers, none for an error; the resolver, none for an error.
pub record AclEnv : Type 0 where
  pub allowed_targets : List Bytes
  pub denied_targets : List Bytes
  pub parse_prefix : Bytes → Option Prefix
  pub parse_addr : Bytes → Option Bytes
  pub lookup_ip_addr : Bytes → Option (List Bytes)

abbrev pub default_denied_prefixes : List Bytes
default_denied_prefixes =
    codes "127.0.0.0/8"
    ∷ codes "10.0.0.0/8"
    ∷ codes "172.16.0.0/12"
    ∷ codes "192.168.0.0/16"
    ∷ codes "169.254.0.0/16"
    ∷ codes "224.0.0.0/4"
    ∷ codes "255.255.255.255/32"
    ∷ codes "::1/128"
    ∷ codes "fe80::/10"
    ∷ codes "ff00::/8"
    ∷ []

-- What an item names: a prefix, a single address as a prefix of all its bits, or none for a host.
abbrev pub prefix_of : AclEnv → Bytes → Option Prefix
prefix_of env item = elim (env.parse_prefix item) [
  | some p ↦ some p
  | none ↦ elim (env.parse_addr item) [
    | none ↦ none
    | some addr ↦ some (record { addr = addr; bits = length (bits_of addr) })
  ]
]

unfoldable pub parse_prefixes : AclEnv → List Bytes → List Prefix
parse_prefixes env [] = []
parse_prefixes env (item ∷ items) =
    let rest = parse_prefixes env items in
    let it = trim_space item in
    if is_empty it then rest else elim (prefix_of env it) [ none ↦ rest | some p ↦ p ∷ rest ]

-- The keys of the map of hosts.
unfoldable pub parse_hosts : AclEnv → List Bytes → List Bytes
parse_hosts env [] = []
parse_hosts env (item ∷ items) =
    let rest = parse_hosts env items in
    let it = trim_space item in
    if is_empty it
    then rest
    else elim (prefix_of env it) [ none ↦ to_lower it ∷ rest | some p ↦ rest ]

pub record TargetAcl : Type 0 where
  pub denied_nets : List Prefix
  pub allowed_nets : List Prefix
  pub allowed_hosts : List Bytes
  pub denied_hosts : List Bytes

abbrev pub or_default : List Prefix → List Prefix → List Prefix
or_default [] d = d
or_default (p ∷ ps) d = p ∷ ps

unfoldable pub init_acl : AclEnv → TargetAcl
unfolding parse_prefixes parse_hosts
init_acl env = record {
  denied_nets =
      or_default (parse_prefixes env env.denied_targets)
        (parse_prefixes env default_denied_prefixes);
  allowed_nets = parse_prefixes env env.allowed_targets;
  allowed_hosts = parse_hosts env env.allowed_targets;
  denied_hosts = parse_hosts env env.denied_targets;
}

abbrev pub has_host : List Bytes → Bytes → Bool
has_host hosts host = any (same host) hosts

abbrev pub in_any : List Prefix → Bytes → Bool
in_any nets addr = any (λ p. contains p addr) nets

-- `netip.AddrFromSlice` takes 4 or 16 bytes.
abbrev pub is_addr : Bytes → Bool
is_addr addr = length addr == 4 || length addr == 16

-- The loop over the addresses, for a host that is (not) allowed by its name.
unfoldable pub addresses_allowed : TargetAcl → Bool → List Bytes → Bool
addresses_allowed acl by_name [] = true
addresses_allowed acl by_name (addr ∷ addrs) =
    let rest = addresses_allowed acl by_name addrs in
    if not (is_addr addr)
    then rest
    else if in_any acl.allowed_nets addr
    then true
    else if in_any acl.denied_nets addr
    then by_name
    else rest

abbrev pub host_or : Option Bytes → Bytes → Bytes
host_or none target = target
host_or (some host) target = host

unfoldable pub host_of : Bytes → Bytes
host_of target = to_lower (trim_space (host_or (split_host target) target))

unfoldable pub is_target_allowed : AclEnv → Bytes → Bool
unfolding init_acl addresses_allowed host_of
is_target_allowed env target =
    let acl = init_acl env in
    let host = host_of target in
    if is_empty target
    then false
    else if has_host acl.allowed_hosts host
    then true
    else elim (env.lookup_ip_addr host) [
      | none ↦ not (has_host acl.denied_hosts host)
      | some addrs ↦ addresses_allowed acl (has_host acl.allowed_hosts host) addrs
    ]
