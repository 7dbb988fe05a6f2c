-- ===== src/Tests/Rows.antt =====
-- internal/storage/storage.go: admins, sessions and clients.
use proxywi.Common.{
  ℕ, zero, suc, ◌+◌, ◌-◌, ◌*◌, ◌/◌, ◌%◌, ◌^◌, ◌≤◌, ◌<◌, ◌≡◌, refl, sym, ap, ◌∙◌, ◌≢◌, ◌↔◌, ◌⊎◌, inl,
  inr, Bool, true, false, ◌&&◌, ◌||◌, not, Option, none, some, List, [], ◌∷◌, ◌++◌, map,
  append_assoc, append-nil, arith, ltb, leb, ◌==◌, if◌then◌else◌, ltb→lt, lt→ltb, leb→le, ==_iff,
  ==_refl, Bool-cases, Option-cases, length, take, drop, replicate, keep, first, any, All,
  length-append, take-append-drop, length-take, length-replicate, length-keep, length-drop,
  drop-drop, take-length_append, drop-length_append, All-append, All-keep, Bytes, codes, same,
  same_refl, same→eq, same_iff, is_empty, is_empty→nil, has_prefix, trim_prefix, index_byte, split,
  join, trim_space, to_lower, Result, ok, Result-cases,
}
use proxywi.Storage.Clients.{matches_client_name, normalize_legacy_client_names}
use proxywi.Storage.Clients.Names.{Named, normalize_legacy_client_names-Named}
use proxywi.Tests.Data.{filled}

-- A generator of the examples, which draws the name of a client first.
abbrev petname : ℕ → Bytes
petname zero = codes "mildly-brisk-otter"
petname (suc k) = codes "oddly-calm-heron"

petname-matches : (k : ℕ) → matches_client_name (petname k) ≡ true
unfolding matches_client_name proxywi.Common.split
petname-matches zero = refl
petname-matches (suc k) = refl

normalize_legacy_client_names-Named_example :
    ((normalize_legacy_client_names petname 0 filled).0 ≡ ok tt
      → Named (normalize_legacy_client_names petname 0 filled).1.clients)
    × (Named filled.clients → normalize_legacy_client_names petname 0 filled ≡ (ok tt, filled))
normalize_legacy_client_names-Named_example =
    normalize_legacy_client_names-Named petname 0 filled petname-matches refl
