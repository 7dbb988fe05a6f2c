-- ===== src/Server/Gui/View.antt =====
-- internal/server/gui/handlers.go: what the pages share.
use proxywi.Common.{ℕ, Option, none, some, List, [], ◌==◌, first, Bytes, Result, ok, err}
use proxywi.Storage.Rows.{Db, DbError, Admin}
use proxywi.Storage.Query.{query}

-- The values of a list, none where the query failed; and an option, `nil` where it failed.
abbrev pub listed : {A : Type 0} → Result DbError (List A) → List A
listed (ok xs) = xs
listed (err e) = []

abbrev pub found : {A : Type 0} → Result DbError (Option A) → Option A
found (ok o) = o
found (err e) = none

abbrev pub name_or_empty : Option Admin → Bytes
name_or_empty none = []
name_or_empty (some a) = a.username

-- The error of the query is dropped.
unfoldable pub admin_name : ℕ → Db → Bytes × Db
admin_name id db =
    let (r, db') = query (λ d. first (λ a. a.id == id) d.admins) db in
    (name_or_empty (found r), db')
