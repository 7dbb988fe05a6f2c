-- ===== src/Server/Gui/TokenLogs/Owned.antt =====
-- Whose requests the log of a token shows.
use proxywi.Common.{
  ℕ, zero, suc, ◌-◌, ◌≤◌, ◌≡◌, refl, sym, ap, ◌∙◌, ◌≢◌, inl, inr, Bool, true, some, List, [], ◌∷◌,
  map, arith, ltb, ◌==◌, ==_iff, Bool-cases, Option-cases, length, take, keep, any, All,
  length-take, Bytes,
}
use proxywi.Storage.Rows.{Db, EventRow}
use proxywi.Storage.Query.{query, next_fault}
use proxywi.Storage.Clients.{client_by_id}
use proxywi.Storage.Events.{selected, list_proxy_events_filtered, sort_events, insert_event, joined}
use proxywi.Server.Gui.View.{listed}
use proxywi.Server.Gui.Logs.{day}
use proxywi.Server.Gui.TokenLogs.{TokenLogView, view_own, own_filter, get_token_logs}

-- A stored event of the client, of the last 24 hours.
abbrev pub Own : ℕ → ℕ → EventRow → Type 0
Own client_id now e = (e.client_id ≡ some client_id) × (now - day ≤ e.ts)

All-insert :
    (P : EventRow → Type 0) (e : EventRow) (es : List EventRow)
    → P e
    → All P es
    → All P (insert_event e es)
unfolding insert_event
All-insert P e [] p h = (p, tt)
All-insert P e (f ∷ es) p h = ground (arith, All-insert P e es p h.1)

All-sort : (P : EventRow → Type 0) (es : List EventRow) → All P es → All P (sort_events es)
unfolding sort_events
All-sort P [] h = tt
All-sort P (e ∷ es) h = All-insert P e (sort_events es) h.0 (All-sort P es h.1)

All-take : (P : EventRow → Type 0) (n : ℕ) (es : List EventRow) → All P es → All P (take n es)
All-take P zero es h = tt
All-take P (suc n) [] h = tt
All-take P (suc n) (e ∷ es) h = (h.0, All-take P n es h.1)

-- A row of a list: what is true of it is true of one of them.
abbrev pub Stored : List EventRow → EventRow → Type 0
Stored rows e = (q : EventRow → Bool) → q e ≡ true → any q rows ≡ true

All-Stored-cons :
    (f : EventRow) (rows es : List EventRow) → All (Stored rows) es → All (Stored (f ∷ rows)) es
All-Stored-cons f rows [] h = tt
All-Stored-cons f rows (e ∷ es) h =
    (λ q t. let later = h.0 q t in ground (arith, later), All-Stored-cons f rows es h.1)

All-Stored : (rows : List EventRow) → All (Stored rows) rows
All-Stored [] = tt
All-Stored (e ∷ rows) = (λ q t. ground (arith, t), All-Stored-cons e rows rows (All-Stored rows))

module _ (like : Bytes → Bytes → Bool) (client_id now : ℕ) (given : client_id ≢ 0) where
  selected-Own :
      (e : EventRow) → selected like (own_filter client_id now) e ≡ true → Own client_id now e
  unfolding selected
  selected-Own e h =
      let pos : ltb 0 client_id ≡ true = ground (arith, given) in
      elim (Option-cases e.client_id) [
        | inl q ↦ absurd (ground (arith, q, pos))
        | inr (c, q) ↦ ground (arith, q, pos, ==_iff c client_id)
      ]

  keep-Own :
      (rows es : List EventRow)
      → All (Stored rows) es
      → All
          (λ e. Own client_id now e × Stored rows e)
          (keep (selected like (own_filter client_id now)) es)
  keep-Own rows [] h = tt
  keep-Own rows (e ∷ es) h = elim (Bool-cases (selected like (own_filter client_id now) e)) [
    | inl q ↦ rw q ((selected-Own e q, h.0), keep-Own rows es h.1)
    | inr q ↦ rw q (keep-Own rows es h.1)
  ]

  -- The events of the query, where it works.
  abbrev listed_rows : Db → List EventRow
  listed_rows db =
      take 200 (sort_events (keep (selected like (own_filter client_id now)) db.proxy_events))

  listed_rows-Own :
      (db : Db) → All (λ e. Own client_id now e × Stored db.proxy_events e) (listed_rows db)
  listed_rows-Own db =
      let P = λ (e : EventRow). Own client_id now e × Stored db.proxy_events e in
      let rows = keep (selected like (own_filter client_id now)) db.proxy_events in
      All-take P 200 (sort_events rows)
        (All-sort P rows (keep-Own db.proxy_events db.proxy_events (All-Stored db.proxy_events)))

  list_lem :
      (db : Db)
      → (es : List EventRow) × (listed
            (list_proxy_events_filtered like (own_filter client_id now) 200 0 db).0
          ≡ map (joined db) es)
        × All (λ e. Own client_id now e × Stored db.proxy_events e) es
        × (length es ≤ 200)
  unfolding list_proxy_events_filtered query
  list_lem db = elim (Bool-cases (next_fault db)) [
    | inl e ↦ rw e ([], refl, tt, omega arith)
    | inr e ↦ rw e (
      listed_rows db,
      refl,
      listed_rows-Own db,
      omega (
        arith,
        length-take 200
            (sort_events (keep (selected like (own_filter client_id now)) db.proxy_events)),
      ),
    )
  ]

events_kept : (id : ℕ) (db : Db) → (client_by_id id db).1.proxy_events ≡ db.proxy_events
unfolding client_by_id query
events_kept id db = ground arith

same_view :
    (d db : Db) (es : List EventRow)
    → map view_own (map (joined d) es) ≡ map (λ e. view_own (joined db e)) es
unfolding joined
same_view d db [] = refl
same_view d db (e ∷ es) = ap (λ vs. view_own (joined db e) ∷ vs) (same_view d db es)

-- Whatever the driver does, the log that is shown to the holder of a client's token has at most 200
-- rows, and each is a stored event of that client, of the last 24 hours.
pub get_token_logs-Own :
    (like : Bytes → Bytes → Bool) (client_id now : ℕ) (db : Db) (name : Bytes)
    → (views : List TokenLogView) → (get_token_logs like client_id now db).0 ≡ some (name, views)
    → (es : List EventRow) × (views ≡ map (λ e. view_own (joined db e)) es)
      × All (λ e. Own client_id now e × Stored db.proxy_events e) es
      × (length es ≤ 200)
unfolding get_token_logs
get_token_logs-Own like client_id now db name views shown = elim (Bool-cases (client_id == 0)) [
  | inl e ↦ absurd (cc (rw (get_token_logs, e) at shown))
  | inr e ↦
      let given : client_id ≢ 0 = λ z. absurd (ground (arith, z)) in
      let d = (client_by_id client_id db).1 in
      let (es, rows, own, few) = list_lem like client_id now given d in
      let all : map view_own
            (listed (list_proxy_events_filtered like (own_filter client_id now) 200 0 d).0)
          ≡ views =
        cc (rw (get_token_logs, e) at shown) in
      (
        es,
        sym all ∙ ap (map view_own) rows ∙ same_view d db es,
        rw (events_kept client_id db) at own,
        few,
      )
]
