-- ===== src/Tests/Users.antt =====
-- internal/server/gui/handlers.go: the users of the proxy.
use proxywi.Common.{
  ℕ, zero, suc, ◌+◌, ◌-◌, ◌*◌, ◌/◌, ◌%◌, ◌^◌, ◌≤◌, ◌<◌, ◌≡◌, refl, sym, ap, ◌∙◌, ◌≢◌, ◌↔◌, ◌⊎◌, inl,
  inr, Bool, true, false, ◌&&◌, ◌||◌, not, Option, none, some, List, [], ◌∷◌, ◌++◌, map,
  append_assoc, append-nil, arith, ltb, leb, ◌==◌, if◌then◌else◌, ltb→lt, lt→ltb, leb→le, ==_iff,
  ==_refl, Bool-cases, Option-cases, length, take, drop, replicate, keep, first, any, All,
  length-append, take-append-drop, take_all, length-take, length-replicate, length-keep,
  length-drop, drop-drop, take-length_append, drop-length_append, All-append, All-keep, Bytes,
  codes, same, same_refl, same→eq, same_iff, is_empty, is_empty→nil, has_prefix, trim_prefix,
  index_byte, split, join, trim_space, to_lower, Result, ok, err, Result-cases,
}
use proxywi.Common.Integers.{pos, parse_int}
use proxywi.Storage.Rows.{User}
use proxywi.Storage.Query.{unique}
use proxywi.Storage.Users.{
  create_user, user_by_username, update_user, delete_user, update_users, set_columns,
}
use proxywi.Storage.Users.Names.{IsValid}
use proxywi.Server.Gate.{verify_credentials}
use proxywi.Server.Gui.Sessions.{redirected}
use proxywi.Server.Gui.Access.{post_new_access, post_edit_access, post_delete_access}
use proxywi.Server.Gui.Access.Credentials.{
  post_new_access-verify_credentials, Edited, post_edit_access-verify_credentials,
  post_delete_access-verify_credentials,
}
use proxywi.Tests.Data.{ann, filled, compare, add_hash, accepts}

valid : IsValid filled
unfolding unique proxywi.Common.same
valid = record { distinct = refl; below = (omega arith, tt) }

one_parses : parse_int (codes "1") ≡ some (pos 1)
unfolding parse_int
one_parses = refl

bob_made :
    (post_new_access add_hash (codes " bob ") (codes "pw2") 5 filled).0
    ≡ redirected (codes "/access")
unfolding post_new_access proxywi.Storage.Users.create_user trim_space proxywi.Common.same
bob_made = refl

post_new_access-verify_credentials_example :
    (u : User) × ((verify_credentials compare
        (trim_space (codes " bob "))
        (codes "pw2")
        (post_new_access add_hash (codes " bob ") (codes "pw2") 5 filled).1).0
      ≡ (some u, true))
post_new_access-verify_credentials_example =
    post_new_access-verify_credentials compare add_hash (codes " bob ") (codes "pw2") 5 filled
      accepts refl bob_made

post_edit_access-verify_credentials_example :
    Edited compare add_hash
      (codes "anna")
      []
      (codes "pw")
      ann
      filled
      (post_edit_access add_hash (codes "1") (codes "anna") [] filled)
post_edit_access-verify_credentials_example =
    post_edit_access-verify_credentials compare add_hash (codes "1") (codes "anna") [] (codes "pw")
      1 ann filled valid refl one_parses refl

post_delete_access-verify_credentials_example :
    (verify_credentials compare ann.username
      (codes "pw")
      (post_delete_access (codes "1") filled).1).0
    ≡ (none, false)
post_delete_access-verify_credentials_example =
    post_delete_access-verify_credentials compare (codes "1") (codes "pw") 1 ann filled valid refl
      one_parses refl
