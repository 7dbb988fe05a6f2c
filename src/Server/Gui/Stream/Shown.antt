-- ===== src/Server/Gui/Stream/Shown.antt =====
-- What an event stream shows, and that its channel is gone afterwards.
use proxywi.Common.{
  ℕ, zero, suc, ◌≡◌, refl, sym, ap, true, Option, none, some, List, [], ◌∷◌, ◌++◌, if◌then◌else◌,
  ==_refl, take, Bytes, codes, ok,
}
use proxywi.Common.Map.{nat_eq, get, get-delete}
use proxywi.Server.Hub.{Event, Hub, subscribe, unsubscribe}
use proxywi.Server.Gui.Stream.{
  StreamStep, left, keepalive, closed, delivered, accepts_event, keepalive_comment, frame,
  write_all, stream_loop, stream,
}

-- The comments and the events of the accepted types, until the page leaves or the channel closes.
abbrev pub texts_of : (Event → Bytes) → Option (List Bytes) → List StreamStep → List Bytes
texts_of encode accept [] = []
texts_of encode accept (left ∷ steps) = []
texts_of encode accept (closed ∷ steps) = []
texts_of encode accept (keepalive ∷ steps) = keepalive_comment ∷ texts_of encode accept steps
texts_of encode accept (delivered e ∷ steps) =
    (if accepts_event accept e then frame encode e else []) ++ texts_of encode accept steps

write_all_lem :
    (writable : ℕ) (texts : List Bytes) (go_on : ℕ → List Bytes) (rest : List Bytes)
    → ((n : ℕ) → go_on n ≡ take n rest)
    → write_all writable texts go_on ≡ take writable (texts ++ rest)
write_all_lem writable [] go_on rest h = h writable
write_all_lem zero (text ∷ texts) go_on rest h = refl
write_all_lem (suc writable) (text ∷ texts) go_on rest h =
    ap (◌∷◌ text) (write_all_lem writable texts go_on rest h)

take_nil : (n : ℕ) → take {A = Bytes} n [] ≡ []
take_nil zero = refl
take_nil (suc n) = refl

stream_loop_lem :
    (encode : Event → Bytes) (accept : Option (List Bytes)) (steps : List StreamStep) (n : ℕ)
    → stream_loop encode accept n steps ≡ take n (texts_of encode accept steps)
unfolding stream_loop
stream_loop_lem encode accept [] n = sym (take_nil n)
stream_loop_lem encode accept (left ∷ steps) n = sym (take_nil n)
stream_loop_lem encode accept (closed ∷ steps) n = sym (take_nil n)
stream_loop_lem encode accept (keepalive ∷ steps) n =
    write_all_lem n (keepalive_comment ∷ []) _ _ (stream_loop_lem encode accept steps)
stream_loop_lem encode accept (delivered e ∷ steps) n =
    write_all_lem n (if accepts_event accept e then frame encode e else []) _ _
      (stream_loop_lem encode accept steps)

-- Where there is a hub and the connection can be flushed, an event stream writes, of the greeting,
-- the comments and the events of the accepted types, in the order in which they come, as many texts
-- as can be written, and no other; whatever others do to the hub meanwhile, its channel is gone
-- afterwards.
pub stream_lem :
    (encode : Event → Bytes) (accept : Option (List Bytes)) (writable : ℕ)
    → (steps : List StreamStep) (meanwhile : Hub → Hub) (hub : Hub)
    → let (shown, after) = stream encode accept true writable steps meanwhile (some hub) in
      (shown ≡ ok (take writable ((codes ": ok" ++ (10 ∷ 10 ∷ [])) ∷ texts_of encode accept steps)))
      × (h : Hub) × (after ≡ some h)
      × (get h.subs (subscribe hub).1 ≡ none)
unfolding stream unsubscribe
stream_lem encode accept writable steps meanwhile hub =
    let (hub', ch) = subscribe hub in
    let others = (meanwhile hub').subs in
    (
      ap ok (
          write_all_lem writable ((codes ": ok" ++ (10 ∷ 10 ∷ [])) ∷ []) _ _
            (stream_loop_lem encode accept steps)),
      unsubscribe (meanwhile hub') ch,
      refl,
      rw (get-delete others ch ch, ==_refl ch) refl,
    )
