-- ===== src/Tests/Operators.antt =====
-- cmd/proxywi-server: the admins of a database.
use proxywi.Common.{
  ℕ, zero, suc, ◌+◌, ◌-◌, ◌*◌, ◌/◌, ◌%◌, ◌^◌, ◌≤◌, ◌<◌, ◌≡◌, refl, sym, ap, ◌∙◌, ◌↔◌, ◌⊎◌, inl, inr,
  Bool, true, false, ◌&&◌, ◌||◌, not, Option, none, some, List, [], ◌∷◌, ◌++◌, map, append_assoc,
  append-nil, arith, ltb, leb, ◌==◌, if◌then◌else◌, ltb→lt, lt→ltb, leb→le, ==_iff, ==_refl,
  Bool-cases, Option-cases, length, take, drop, replicate, keep, first, any, All, length-append,
  take-append-drop, take_all, length-take, length-replicate, length-keep, length-drop, drop-drop,
  take-length_append, drop-length_append, All-append, All-keep, Bytes, codes, same, same_refl,
  same→eq, same_iff, is_empty, is_empty→nil, has_prefix, trim_prefix, index_byte, split, join,
  trim_space, to_lower, Result, ok, err, Result-cases,
}
use proxywi.Storage.Query.{unique}
use proxywi.Storage.Admins.{or_old, admin_by_username, list_admins, update_admin, rewrite_admins}
use proxywi.Server.Gui.Sessions.{redirected, post_login}
use proxywi.Command.Bootstrap.{created, first_email, unless_admins}
use proxywi.Storage.Admins.Names.{IsValid}
use proxywi.Command.AdminSet.{
  Flags, run_admin_set, pass_hash, pick_admin, set_admin, only_admin, named_admin, updated,
}
use proxywi.Command.AdminSet.Rewriting.{run_admin_set-Rewrote, Picked, Rewrote}
use proxywi.Command.AdminSet.Login.{run_admin_set-post_login}
use proxywi.Tests.Data.{root, filled, compare, add_hash, accepts}

valid : IsValid filled
unfolding unique proxywi.Common.same
valid = record { distinct = refl; below = (omega arith, tt); falling = (tt, tt) }

abbrev petname : ℕ → Bytes
petname k = codes "mildly-brisk-otter"

abbrev flags : Flags
flags = record { target = []; username = codes "chief"; email = []; password = codes "longer-pw" }

trimmed_name :
    trim_space (or_old flags.username root.username) ≡ or_old flags.username root.username
unfolding trim_space
trimmed_name = refl

rotated : (run_admin_set add_hash flags filled).0 ≡ ok root
unfolding run_admin_set set_admin pick_admin proxywi.Command.AdminSet.pass_hash
    proxywi.Storage.Admins.list_admins proxywi.Storage.Admins.update_admin unique
    proxywi.Common.same
rotated = refl

run_admin_set-post_login_example :
    (8 ≤ length flags.password)
    × ((post_login compare
          (codes "s2")
          (or_old flags.username root.username)
          flags.password
          5
          (run_admin_set add_hash flags filled).1).0
        ≡ record { reply = redirected (codes "/"); cookie = some (codes "s2") })
run_admin_set-post_login_example =
    run_admin_set-post_login compare add_hash flags root (codes "s2") 5 filled accepts
      (λ p e. absurd (cc e)) valid refl (λ e. absurd (cc e)) trimmed_name refl rotated

run_admin_set-Rewrote_example :
    Picked flags.target filled root
    × Rewrote add_hash flags root filled (run_admin_set add_hash flags filled).1
run_admin_set-Rewrote_example = run_admin_set-Rewrote add_hash flags root filled valid refl rotated
