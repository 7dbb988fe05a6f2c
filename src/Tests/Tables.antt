-- ===== src/Tests/Tables.antt =====
-- internal/storage/storage.go: usage, metrics, events, retention and migrations.
use proxywi.Common.{
  ℕ, suc, ◌+◌, ◌<◌, ◌≡◌, refl, ◌⊎◌, Bool, true, Option, none, some, List, [], map, arith, ltb,
  if◌then◌else◌, keep, Bytes, ok,
}
use mathlib.Core.List.{Perm}
use proxywi.Storage.Rows.{EventRow}
use proxywi.Storage.Events.{ProxyEventFilter, joined, selected, count_proxy_events_filtered}
use proxywi.Storage.Events.Pages.{Sorted, pages_from, pages_complete}
use proxywi.Storage.Retention.{purge_old_data}
use proxywi.Storage.Retention.Kept.{purgeable, fresh_rows, purge_old_data-counts}
use proxywi.Storage.Migrations.{migration_floor, IsFloor, migration_floor-IsFloor}
use proxywi.Tests.Data.{filled}

-- A LIKE of the examples.
abbrev like : Bytes → Bytes → Bool
like text pattern = true

abbrev last_day : ProxyEventFilter
last_day = record { since = 0; user_id = 1; client_id = 0; search = [] }

two_events : (count_proxy_events_filtered like last_day filled).0 ≡ ok 2
unfolding count_proxy_events_filtered
two_events = refl

pages_complete_example :
    (rows : List EventRow) × Perm rows (keep (selected like last_day) filled.proxy_events)
    × Sorted rows
    × (pages_from like last_day 1 filled 2 0 ≡ map (joined filled) rows)
pages_complete_example =
    pages_complete like last_day 1 2 2 filled refl (omega arith) (omega arith) two_events
      (omega arith)

purge_old_data-counts_example :
    (purgeable (purge_old_data 100 150 filled).2 + (purge_old_data 100 150 filled).0
      ≡ purgeable filled)
    × (fresh_rows 100 150 (purge_old_data 100 150 filled).2 ≡ fresh_rows 100 150 filled)
purge_old_data-counts_example = purge_old_data-counts 100 150 filled

abbrev next : ℕ → Option ℕ
next v = if ltb v 3 then some (suc v) else none

next-rises : (v w : ℕ) → next v ≡ some w → v < w
next-rises v w e = ground arith

migration_floor-IsFloor_example :
    ((migration_floor (some 1) next 2 ≡ 0) × ((v : ℕ) → (some 1) ≡ some v → 2 < v))
    ⊎ IsFloor (some 1) next 2 (migration_floor (some 1) next 2)
migration_floor-IsFloor_example = migration_floor-IsFloor (some 1) next 2 next-rises
