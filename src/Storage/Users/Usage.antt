-- ===== src/Storage/Users/Usage.antt =====
-- The usage counts of `UserUsageStats` of storage.go.
use proxywi.Common.{
  ℕ, ◌≡◌, refl, inl, inr, Bool, false, Option, none, some, List, [], ◌∷◌, arith, ltb, ◌==◌,
  if◌then◌else◌, ==_iff, Option-cases, length, keep,
}
use proxywi.Common.Map.{nat_eq, get, get-put}
use proxywi.Storage.Rows.{EventRow}
use proxywi.Storage.Users.{UserUsage, add_use, usage_stats}

abbrev pub by_user : ℕ → EventRow → Bool
by_user id e = elim e.user_id [ none ↦ false | some u ↦ u == id ]

abbrev pub latest : List EventRow → ℕ
latest [] = 0
latest (e ∷ events) = if ltb (latest events) e.ts then e.ts else latest events

abbrev pub summary : List EventRow → Option UserUsage
summary [] = none
summary (e ∷ events) =
    some (record { count = length (e ∷ events); last_used = latest (e ∷ events) })

summary-cons :
    (e : EventRow) (events : List EventRow)
    → some (add_use (summary events) e.ts) ≡ summary (e ∷ events)
summary-cons e [] = ground arith
summary-cons e (f ∷ events) = ground arith

-- A user's entry counts the events of that user and has the time of the latest; a user without
-- events has no entry.
pub get-usage_stats :
    (events : List EventRow) (id : ℕ)
    → get (usage_stats events) id ≡ summary (keep (by_user id) events)
unfolding usage_stats
get-usage_stats [] id = unfold get in refl
get-usage_stats (e ∷ events) id = elim (Option-cases e.user_id) [
  | inl n ↦ rw n (get-usage_stats events id)
  | inr (u, q) ↦ ground (
    arith,
    q,
    get-usage_stats events id,
    ==_iff u id,
    get-put (usage_stats events) u id (add_use (get (usage_stats events) u) e.ts),
    summary-cons e (keep (by_user id) events),
  )
]
