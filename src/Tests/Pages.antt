-- ===== src/Tests/Pages.antt =====
-- internal/server/gui.
use proxywi.Common.{◌+◌, ◌*◌, ◌≤◌, ◌<◌, ◌≡◌, ◌↔◌, true}
use proxywi.Storage.Sessions.{delete_session, lookup_session}
use proxywi.Server.Gui.Logs.{logs_page_size, paginate, paginate_lem}

paginate_lem_example :
    let p = paginate 9 45 in
    (1 ≤ p.page)
    × (p.page ≤ p.total_pages)
    × (0 < 45 → p.offset < 45)
    × (45 ≤ p.total_pages * logs_page_size)
    × ((p.has_next ≡ true) ↔ (p.offset + logs_page_size < 45))
    × ((p.has_prev ≡ true) ↔ (0 < p.offset))
paginate_lem_example = paginate_lem 9 45
