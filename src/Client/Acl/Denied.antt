-- ===== src/Client/Acl/Denied.antt =====
-- What the deny list of an agent keeps from being dialed, and what it does not.
use proxywi.Common.{
  ◌≡◌, refl, ◌≢◌, inl, inr, Bool, true, false, ◌||◌, not, some, List, [], ◌∷◌, arith, ◌==◌,
  Bool-cases, length, All, take, drop, replicate, ◌++◌, ◌&&◌, if◌then◌else◌, same, Bytes, is_empty,
}
use proxywi.Client.Acl.{
  AclEnv, Prefix, TargetAcl, init_acl, addresses_allowed, is_target_allowed, has_host, in_any,
  is_addr, host_of,
}

-- An address that no denied prefix contains, in the form that the resolver gives it in.
abbrev pub Outside : TargetAcl → Bytes → Type 0
Outside acl addr = (not (is_addr addr) || not (in_any acl.denied_nets addr)) ≡ true

-- ::ffff:a.b.c.d, an IPv4 address in its IPv6 form; and the IPv4 form of such an address.
abbrev pub is_mapped : Bytes → Bool
is_mapped addr = length addr == 16 && same (take 12 addr) (replicate 10 0 ++ (255 ∷ 255 ∷ []))

abbrev pub unmapped : Bytes → Bytes
unmapped addr = if is_mapped addr then drop 12 addr else addr

-- An address, of either family and in either form, that no denied prefix contains.
abbrev pub Undenied : TargetAcl → Bytes → Type 0
Undenied acl addr = (not (is_addr addr) || not (in_any acl.denied_nets (unmapped addr))) ≡ true

pub Outside-Undenied :
    (acl : TargetAcl) (addrs : List Bytes)
    → All (λ a. is_mapped a ≡ false) addrs
    → All (Outside acl) addrs
    → All (Undenied acl) addrs
Outside-Undenied acl [] plain h = tt
Outside-Undenied acl (a ∷ addrs) plain h = (rw plain.0 h.0, Outside-Undenied acl addrs plain.1 h.1)

allowed-Outside :
    (acl : TargetAcl) (by_name : Bool) (addrs : List Bytes)
    → acl.allowed_nets ≡ []
    → by_name ≡ false
    → addresses_allowed acl by_name addrs ≡ true
    → All (Outside acl) addrs
unfolding addresses_allowed
allowed-Outside acl by_name [] h n e = tt
allowed-Outside acl by_name (a ∷ addrs) h n e = elim (Bool-cases (is_addr a)) [
  | inr k ↦ (rw k refl, allowed-Outside acl by_name addrs h n (rw (addresses_allowed, k) at e))
  | inl k ↦ elim (Bool-cases (in_any acl.denied_nets a)) [
    | inl d ↦ absurd (cc (n, rw (addresses_allowed, k, h, d) at e))
    | inr d ↦ (
      rw (k, d) refl,
      allowed-Outside acl by_name addrs h n (rw (addresses_allowed, k, h, d) at e),
    )
  ]
]

-- Where nothing is allowed explicitly and the host of a target resolves, a target that is allowed
-- has no address that a denied prefix contains in the form that it has.
pub is_target_allowed_sound :
    (env : AclEnv) (target : Bytes) (addrs : List Bytes)
    → (init_acl env).allowed_nets ≡ []
    → (init_acl env).allowed_hosts ≡ []
    → env.lookup_ip_addr (host_of target) ≡ some addrs
    → is_target_allowed env target ≡ true
    → All (Outside (init_acl env)) addrs
unfolding is_target_allowed
is_target_allowed_sound env target addrs nets hosts found passed =
    let acl = init_acl env in
    elim (Bool-cases (is_empty target)) [
      | inl e ↦ absurd (cc (rw (is_target_allowed, e) at passed))
      | inr e ↦
          let by_name : has_host acl.allowed_hosts (host_of target) ≡ false = rw hosts refl in
          allowed-Outside acl (has_host acl.allowed_hosts (host_of target)) addrs nets by_name
            (rw (is_target_allowed, e, by_name, found) at passed)
    ]

outside-four :
    (nets : List Prefix) (addr : Bytes)
    → All (λ (p : Prefix). length p.addr ≡ 4) nets
    → length addr ≡ 16
    → in_any nets addr ≡ false
outside-four [] addr h l = refl
outside-four (p ∷ nets) addr h l =
    let apart : (length p.addr == length addr) ≡ false = ground (arith, h.0, l) in
    rw apart (outside-four nets addr h.1 l)

sixteen-allowed :
    (acl : TargetAcl) (addrs : List Bytes) (by_name : Bool)
    → All (λ (p : Prefix). length p.addr ≡ 4) acl.denied_nets
    → All (λ a. length a ≡ 16) addrs
    → addresses_allowed acl by_name addrs ≡ true
unfolding addresses_allowed
sixteen-allowed acl [] by_name four long = refl
sixteen-allowed acl (a ∷ addrs) by_name four long =
    let later = sixteen-allowed acl addrs by_name four long.1 in
    let outside = outside-four acl.denied_nets a four long.0 in
    elim (Bool-cases (is_addr a)) [
      | inr k ↦ rw (addresses_allowed, k) later
      | inl k ↦ elim (Bool-cases (in_any acl.allowed_nets a)) [
        | inl m ↦ rw (addresses_allowed, k, m) refl
        | inr m ↦ rw (addresses_allowed, k, m, outside) later
      ]
    ]

-- Where the resolver gives addresses in the form of 16 bytes and the denied prefixes are those of
-- IPv4, every target that is not empty passes, whatever its addresses are.
pub is_target_allowed-sixteen :
    (env : AclEnv) (target : Bytes) (addrs : List Bytes)
    → All (λ (p : Prefix). length p.addr ≡ 4) (init_acl env).denied_nets
    → All (λ a. length a ≡ 16) addrs
    → env.lookup_ip_addr (host_of target) ≡ some addrs
    → target ≢ []
    → is_target_allowed env target ≡ true
unfolding is_target_allowed
is_target_allowed-sixteen env [] addrs four long found given = absurd (given refl)
is_target_allowed-sixteen env (c ∷ target) addrs four long found given =
    let acl = init_acl env in
    let host = host_of (c ∷ target) in
    elim (Bool-cases (has_host acl.allowed_hosts host)) [
      | inl e ↦ rw (is_target_allowed, e) refl
      | inr e ↦
          rw (is_target_allowed, e, found)
            (sixteen-allowed acl addrs (has_host acl.allowed_hosts host) four long)
    ]
