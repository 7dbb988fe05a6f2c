-- ===== src/Server/Http/Stripping.antt =====
-- Which headers go on to the other side.
use proxywi.Common.{
  ◌≡◌, refl, ◌∙◌, inl, inr, Bool, ◌||◌, not, none, List, [], ◌∷◌, map, arith, if◌then◌else◌,
  Bool-cases, keep, any, Bytes, codes, same, is_empty, split, trim_space,
}
use proxywi.Common.{is_empty→nil}
use proxywi.Common.Map.{get, get-delete, bytes_eq}
use proxywi.Server.Http.Headers.{
  Header, canonical_key, header_get, header_del, hop_by_hop_headers, del_tokens, del_all,
  strip_hop_by_hop_headers,
}

-- The header that a list of names takes away.
abbrev pub named_in : List Bytes → Bytes → Bool
named_in names key = any (λ name. same (canonical_key name) key) names

-- The names between the commas of the first line of the Connection field, without blanks; RFC 9110
-- counts those of further lines too, which `Header.Get` does not see.
abbrev pub first_connection_options : Header → List Bytes
first_connection_options h =
    keep (λ name. not (is_empty name))
      (map trim_space (split (header_get h (codes "Connection")) b','))

get-del_all :
    (names : List Bytes) (h : Header) (key : Bytes)
    → get (del_all h names) key ≡ (if named_in names key then none else get h key)
unfolding del_all header_del
get-del_all [] h key = refl
get-del_all (name ∷ names) h key =
    ground (arith, get-del_all names (header_del h name) key, get-delete h (canonical_key name) key)

get-del_tokens :
    (tokens : List Bytes) (h : Header) (key : Bytes)
    → get (del_tokens h tokens) key ≡ (
        if named_in (keep (λ name. not (is_empty name)) (map trim_space tokens)) key
        then none
        else get h key)
unfolding del_tokens header_del
get-del_tokens [] h key = refl
get-del_tokens (token ∷ tokens) h key = elim (Bool-cases (is_empty (trim_space token))) [
  | inl e ↦ rw e (get-del_tokens tokens h key)
  | inr e ↦
      let rest = get-del_tokens tokens (header_del h (trim_space token)) key in
      let one = get-delete h (canonical_key (trim_space token)) key in
      rw e (ground (arith, rest, one))
]

-- What is left after the options and the list.
get-del_both :
    (tokens names : List Bytes) (h : Header) (key : Bytes)
    → get (del_all (del_tokens h tokens) names) key ≡ (
        if named_in (keep (λ name. not (is_empty name)) (map trim_space tokens)) key
          || named_in names key
        then none
        else get h key)
get-del_both tokens names h key =
    let after = get-del_all names (del_tokens h tokens) key in
    let before = get-del_tokens tokens h key in
    elim (Bool-cases (named_in names key)) [
      | inl e ↦ rw (after, e) (ground arith)
      | inr e ↦ rw (after, e) (before ∙ ground arith)
    ]

no_options : keep (λ name. not (is_empty name)) (map trim_space (split [] b',')) ≡ []
unfolding split trim_space
no_options = refl

-- `stripHopByHopHeaders` leaves a field exactly where neither the list of hop-by-hop headers nor an
-- option of the (first) Connection field names it, and then as it was.
pub get-strip_hop_by_hop_headers :
    (h : Header) (key : Bytes)
    → get (strip_hop_by_hop_headers h) key ≡ (
        if named_in (first_connection_options h) key || named_in hop_by_hop_headers key
        then none
        else get h key)
unfolding strip_hop_by_hop_headers
get-strip_hop_by_hop_headers h key =
    let c = header_get h (codes "Connection") in
    elim (Bool-cases (is_empty c)) [
      | inl e ↦ rw (is_empty→nil c e, no_options) (get-del_all hop_by_hop_headers h key)
      | inr e ↦ rw e (get-del_both (split c b',') hop_by_hop_headers h key)
    ]
