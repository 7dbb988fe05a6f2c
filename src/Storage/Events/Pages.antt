-- ===== src/Storage/Events/Pages.antt =====
-- Pages of the request log.
use proxywi.Common.{
  ℕ, zero, suc, ◌+◌, ◌*◌, ◌≤◌, ◌<◌, ◌≡◌, refl, sym, ap, ◌∙◌, inl, inr, Bool, true, false, ◌||◌,
  List, [], ◌∷◌, ◌++◌, map, arith, ltb, ◌==◌, if◌then◌else◌, Bool-cases, length, take, drop, keep,
  All, take-append-drop, length-drop, drop-drop, Bytes, Result, ok, err,
}
use mathlib.Core.List.{Perm, map-append}
use mathlib.Core.List.Perm
use proxywi.Storage.Rows.{Db, DbError, EventRow}
use proxywi.Storage.Query.{query_lem}
use proxywi.Storage.Events.{
  ProxyEvent, ProxyEventFilter, newer, insert_event, sort_events, joined, selected,
  count_proxy_events_filtered, list_proxy_events_filtered,
}

abbrev pub Sorted : List EventRow → Type 0
Sorted [] = Unit
Sorted (e ∷ events) = All (λ f. newer f e ≡ false) events × Sorted events

newer_trans : (a b c : EventRow) → newer b a ≡ false → newer c b ≡ false → newer c a ≡ false
unfolding newer
newer_trans a b c p q = ground arith

newer_asym : (a b : EventRow) → newer a b ≡ true → newer b a ≡ false
unfolding newer
newer_asym a b p = ground arith

older-All :
    (e f : EventRow) (events : List EventRow)
    → newer f e ≡ false
    → All (λ g. newer g f ≡ false) events
    → All (λ g. newer g e ≡ false) events
older-All e f [] p h = tt
older-All e f (g ∷ events) p h = (newer_trans e f g p h.0, older-All e f events p h.1)

insert_event-All :
    (P : EventRow → Type 0) (e : EventRow) (events : List EventRow)
    → P e
    → All P events
    → All P (insert_event e events)
unfolding insert_event
insert_event-All P e [] p h = (p, tt)
insert_event-All P e (f ∷ events) p h = elim (Bool-cases (newer e f)) [
  | inl n ↦ rw n (p, h)
  | inr o ↦ rw o (h.0, insert_event-All P e events p h.1)
]

insert_event-Sorted :
    (e : EventRow) (events : List EventRow) → Sorted events → Sorted (insert_event e events)
unfolding insert_event
insert_event-Sorted e [] h = (tt, tt)
insert_event-Sorted e (f ∷ events) h = elim (Bool-cases (newer e f)) [
  | inl n ↦ rw n ((newer_asym e f n, older-All e f events (newer_asym e f n) h.0), h)
  | inr o ↦ rw o (insert_event-All _ e events o h.0, insert_event-Sorted e events h.1)
]

sort_events-Sorted : (events : List EventRow) → Sorted (sort_events events)
unfolding sort_events
sort_events-Sorted [] = tt
sort_events-Sorted (e ∷ events) =
    insert_event-Sorted e (sort_events events) (sort_events-Sorted events)

insert_event-perm :
    (e : EventRow) (events : List EventRow) → Perm (insert_event e events) (e ∷ events)
unfolding insert_event
insert_event-perm e [] = Perm.refl (e ∷ [])
insert_event-perm e (f ∷ events) =
    let swapped = Perm.trans (Perm.cons f (insert_event-perm e events)) (Perm.swap e f events) in
    ground (arith, Perm.refl (e ∷ f ∷ events), swapped)

sort_events-perm : (events : List EventRow) → Perm (sort_events events) events
unfolding sort_events
sort_events-perm [] = Perm.refl []
sort_events-perm (e ∷ events) =
    Perm.trans (insert_event-perm e (sort_events events)) (Perm.cons e (sort_events-perm events))

length-insert_event :
    (e : EventRow) (events : List EventRow) → length (insert_event e events) ≡ suc (length events)
unfolding insert_event
length-insert_event e [] = refl
length-insert_event e (f ∷ events) = ground (arith, length-insert_event e events)

length-sort_events : (events : List EventRow) → length (sort_events events) ≡ length events
unfolding sort_events
length-sort_events [] = refl
length-sort_events (e ∷ events) =
    length-insert_event e (sort_events events) ∙ ap suc (length-sort_events events)

-- The first `n` pages of `size` rows.
abbrev pub pages {ℓ} : {A : Type ℓ} → ℕ → ℕ → List A → List A
pages zero size rows = []
pages (suc n) size rows = take size rows ++ pages n size (drop size rows)

pages_lem :
    {A : Type 0} (n size : ℕ) (rows : List A) → length rows ≤ n * size → pages n size rows ≡ rows
pages_lem zero size [] h = refl
pages_lem zero size (x ∷ rows) h = absurd (omega arith)
pages_lem (suc n) size rows h =
    ap (◌++◌ (take size rows))
      (pages_lem n size (drop size rows) (grind (arith, length-drop size rows)))
    ∙ take-append-drop size rows

abbrev listed : Result DbError (List ProxyEvent) → List ProxyEvent
listed (ok rows) = rows
listed (err e) = []

module _ (like : Bytes → Bytes → Bool) (f : ProxyEventFilter) (size : ℕ) (db : Db) where
  -- `n` pages from the `k`-th on, one after the other.
  abbrev pub pages_from : ℕ → ℕ → List ProxyEvent
  pages_from zero k = []
  pages_from (suc n) k =
      listed (list_proxy_events_filtered like f size (k * size) db).0 ++ pages_from n (suc k)

  abbrev chosen : List EventRow
  chosen = sort_events (keep (selected like f) db.proxy_events)

  page_lem :
      (offset : ℕ)
      → db.faults ≡ []
      → 0 < size
      → size ≤ 1000
      → list_proxy_events_filtered like f size offset db
        ≡ (ok (map (joined db) (take size (drop offset chosen))), db)
  unfolding list_proxy_events_filtered
  page_lem offset h p q =
      let e : (if size == 0 || ltb 1000 size then 20 else size) ≡ size = ground arith in
      query_lem
        (λ d. map (joined d) (
          take (if size == 0 || ltb 1000 size then 20 else size)
            (drop offset (sort_events (keep (selected like f) d.proxy_events)))))
        db h
      ∙ ap (λ (n : ℕ). (ok (map (joined db) (take n (drop offset chosen))), db)) e

  pages_from_lem :
      (n k : ℕ)
      → db.faults ≡ []
      → 0 < size
      → size ≤ 1000
      → pages_from n k ≡ map (joined db) (pages n size (drop (k * size) chosen))
  pages_from_lem zero k h p q = refl
  pages_from_lem (suc n) k h p q =
      let e : k * size + size ≡ suc k * size = grind arith in
      let rest = drop (k * size) chosen in
      ap (λ r. listed r.0 ++ pages_from n (suc k)) (page_lem (k * size) h p q)
      ∙ ap (◌++◌ (map (joined db) (take size rest))) (
          pages_from_lem n (suc k) h p q
          ∙ ap (λ l. map (joined db) (pages n size l))
              (ap (λ o. drop o chosen) (sym e) ∙ sym (drop-drop size (k * size) chosen)))
      ∙ sym (map-append (joined db) (take size rest) (pages n size (drop size rest)))

counted_rows :
    (like : Bytes → Bytes → Bool) (f : ProxyEventFilter) (db : Db) (total : ℕ)
    → db.faults ≡ []
    → (count_proxy_events_filtered like f db).0 ≡ ok total
    → length (keep (selected like f) db.proxy_events) ≡ total
unfolding count_proxy_events_filtered
counted_rows like f db total h e =
    cc (query_lem (λ d. length (keep (selected like f) d.proxy_events)) db h, e)

-- With a working driver, the pages of `size` rows, from 1 to 1000 of them, and enough pages for
-- the count that `CountProxyEventsFiltered` gives, show together each event that the filter
-- selects once, newest first (by time, then by id), with the names of its user and client.
pub pages_complete :
    (like : Bytes → Bytes → Bool) (f : ProxyEventFilter) (size n total : ℕ) (db : Db)
    → db.faults ≡ []
    → 0 < size
    → size ≤ 1000
    → (count_proxy_events_filtered like f db).0 ≡ ok total
    → total ≤ n * size
    → (rows : List EventRow) × Perm rows (keep (selected like f) db.proxy_events)
      × Sorted rows
      × (pages_from like f size db n 0 ≡ map (joined db) rows)
pages_complete like f size n total db h p q counted enough =
    let found = keep (selected like f) db.proxy_events in
    let none_skipped : 0 * size ≡ 0 = omega arith in
    let same_total : length found ≡ total = counted_rows like f db total h counted in
    (
      sort_events found,
      sort_events-perm found,
      sort_events-Sorted found,
      pages_from_lem like f size db n 0 h p q
          ∙ ap (λ o. map (joined db) (pages n size (drop o (sort_events found)))) none_skipped
          ∙ ap (map (joined db)) (
              pages_lem n size (sort_events found)
                (omega (arith, length-sort_events found, same_total, enough))),
    )
