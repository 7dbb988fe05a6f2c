-- ===== src/Server/Hub/Delivery.antt =====
-- What a subscriber of hub.go is sent.
use proxywi.Common.{
  ℕ, ◌+◌, ◌≤◌, ◌≡◌, refl, sym, ap, ◌∙◌, inl, inr, none, some, List, [], ◌∷◌, ◌++◌, append_assoc,
  append-nil, arith, ltb, ◌==◌, if◌then◌else◌, ==_refl, Bool-cases, length, take, length-append,
  take-length_append, take_all,
}
use mathlib.Core.Path.{subst}
use proxywi.Common.Map.{Map, nat_eq, get, put, get-put, get-delete}
use proxywi.Server.Hub.{Event, Hub, buffer_size, offer, offer_all, publish, subscribe, unsubscribe}

get-offer_all :
    (e : Event) (subs : Map ℕ (List Event)) (ch : ℕ)
    → get (offer_all e subs) ch ≡ elim (get subs ch) [ none ↦ none | some b ↦ some (offer e b) ]
unfolding get
get-offer_all e [] ch = refl
get-offer_all e ((i, b) ∷ subs) ch = elim (Bool-cases (i == ch)) [
  | inl same_channel ↦ rw same_channel refl
  | inr other ↦ rw other (get-offer_all e subs ch)
]

-- Events published one after the other, each with what the clock says at its publication.
abbrev pub publish_all : Hub → List (ℕ × Event) → Hub
publish_all h [] = h
publish_all h ((now, e) ∷ events) = publish_all (publish h e now) events

-- The events, with the time of their own publication where they have none.
abbrev pub stamped : List (ℕ × Event) → List Event
stamped [] = []
stamped ((now, e) ∷ events) = (if e.ts == 0 then record e { ts = now } else e) ∷ stamped events

take_full : (n : ℕ) (xs ys : List Event) → length xs ≡ n → take n (xs ++ ys) ≡ xs
take_full n xs ys e = subst (λ k. take k (xs ++ ys) ≡ xs) e (take-length_append xs ys)

offer-take :
    (n : ℕ) (buffer events : List Event) (x : Event)
    → n ≡ buffer_size
    → length buffer ≤ buffer_size
    → take n (offer x buffer ++ events) ≡ take n (buffer ++ (x ∷ events))
offer-take n buffer events x e le = elim (Bool-cases (ltb (length buffer) buffer_size)) [
  | inl room ↦ rw room (ap (take n) (append_assoc buffer (x ∷ []) events))
  | inr full ↦
      let size : length buffer ≡ n = ground arith in
      rw full (take_full n buffer events size ∙ sym (take_full n buffer (x ∷ events) size))
]

offer-le :
    (buffer : List Event) (x : Event)
    → length buffer ≤ buffer_size
    → length (offer x buffer) ≤ buffer_size
offer-le buffer x le = ground (arith, length-append buffer (x ∷ []))

filled :
    (n : ℕ) (h : Hub) (ch : ℕ) (buffer : List Event) (events : List (ℕ × Event))
    → n ≡ buffer_size
    → get h.subs ch ≡ some buffer
    → length buffer ≤ buffer_size
    → get (publish_all h events).subs ch ≡ some (take n (buffer ++ stamped events))
filled n h ch buffer [] q e le =
    e
    ∙ ap some (sym (append-nil buffer))
    ∙ ap some (sym (take_all n (buffer ++ []) (omega (arith, length-append buffer []))))
filled n h ch buffer ((now, x) ∷ events) q e le =
    let x' : Event = if x.ts == 0 then record x { ts = now } else x in
    filled n (publish h x now) ch (offer x' buffer) events q
      (unfold publish in rw (get-offer_all x' h.subs ch, e)) (offer-le buffer x' le)
    ∙ ap some (offer-take n buffer (stamped events) x' q le)

-- A page that subscribes and reads nothing holds the first 64 of the events that are published
-- after, at any times, in the order of their publication, each with the time of its own publication
-- where it has none; later ones are dropped. After the page unsubscribes its channel is gone.
pub publish_all-subscribe :
    (h : Hub) (events : List (ℕ × Event))
    → (get (publish_all (subscribe h).0 events).subs (subscribe h).1
        ≡ some (take buffer_size (stamped events)))
      × (get (unsubscribe (publish_all (subscribe h).0 events) (subscribe h).1).subs (subscribe h).1
          ≡ none)
unfolding subscribe unsubscribe
publish_all-subscribe h events =
    let h' : Hub = record {
      subs = put h.subs h.next_channel [];
      next_channel = h.next_channel + 1;
    } in
    (
      filled buffer_size h' h.next_channel [] events refl
          (rw (get-put h.subs h.next_channel h.next_channel [], ==_refl h.next_channel))
          (omega arith),
      rw (
        get-delete (publish_all h' events).subs h.next_channel h.next_channel,
        ==_refl h.next_channel,
      ),
    )
