-- ===== src/Server/Socks/Serve/Waiting.antt =====
-- The connection for which `Serve` waits.
use proxywi.Common.{
  ℕ, ◌≤◌, ◌<◌, ◌≡◌, refl, ◌≢◌, ◌⊎◌, inl, inr, true, Option, none, some, List, [], ◌∷◌, arith, ltb,
  ◌==◌, if◌then◌else◌, ==_refl, Bool-cases, length, All,
}
use proxywi.Common.Integers.{ℤ}
use proxywi.Server.Socks.Serve.{
  Pool, ServeEvent, admitted, finished, leave, serve_step, serve_run, new_pool, max_conns,
}
use proxywi.Server.Socks.Serve.Bounded.{leave-length, run-bounded, max_conns-pos}

-- Without the first occurrence of a connection.
abbrev pub without : ℕ → List ℕ → List ℕ
without c [] = []
without c (d ∷ ds) = if c == d then ds else d ∷ without c ds

abbrev Inside : List ℕ → ℕ → Type 0
Inside ds c = leave c ds ≡ some (without c ds)

Inside-later : (e : ℕ) (ds cs : List ℕ) → All (Inside ds) cs → All (Inside (e ∷ ds)) cs
Inside-later e ds [] h = tt
Inside-later e ds (c ∷ cs) h = elim (Bool-cases (c == e)) [
  | inl q ↦ (rw q refl, Inside-later e ds cs h.1)
  | inr q ↦ (rw (q, h.0) refl, Inside-later e ds cs h.1)
]

All-Inside : (ds : List ℕ) → All (Inside ds) ds
All-Inside [] = tt
All-Inside (d ∷ ds) = (rw (==_refl d) refl, Inside-later d ds ds (All-Inside ds))

module _ (places : ℕ) (waiting : Option ℕ) (handling : List ℕ) (c : ℕ) where
  abbrev pool : Pool
  pool = record { waiting = waiting; handling = handling }

  returned :
      (ds : List ℕ)
      → length handling ≤ places
      → waiting ≡ some c
      → All (Inside handling) ds
      → All
          (λ d.
            serve_run places pool (finished d ∷ admitted ∷ [])
            ≡ some (record { waiting = none; handling = c ∷ without d handling }))
          ds
  unfolding serve_run serve_step
  returned [] le w h = tt
  returned (d ∷ ds) le w h =
      let fewer = leave-length d handling (without d handling) h.0 in
      let room : ltb (length (without d handling)) places ≡ true = ground (arith, le, fewer) in
      (rw (serve_run, serve_step, h.0, w, room) refl, returned ds le w h.1)

room_or_handler :
    (places : ℕ) (waiting : Option ℕ) (handling : List ℕ) (c : ℕ)
    → 0 < places
    → waiting ≡ some c
    → (serve_step places (record { waiting = waiting; handling = handling }) admitted
        ≡ some (record { waiting = none; handling = c ∷ handling }))
      ⊎ (handling ≢ [])
unfolding serve_step
room_or_handler places waiting [] c some_place w =
    let room : ltb 0 places ≡ true = ground (arith, some_place) in
    inl (rw (serve_step, w, room) refl)
room_or_handler places waiting (d ∷ rest) c some_place w = inr (λ e. absurd cc)

-- However connections came and went: a connection that waits can get in now, or some handler runs;
-- and whichever of the running handlers returns, the connection can get in then.
pub serve_run-gets_in :
    (configured : ℤ) (events : List ServeEvent) (p : Pool) (c : ℕ)
    → serve_run (max_conns configured) new_pool events ≡ some p
    → p.waiting ≡ some c
    → ((serve_step (max_conns configured) p admitted
          ≡ some (record { waiting = none; handling = c ∷ p.handling }))
        ⊎ (p.handling ≢ []))
      × All
          (λ d.
            serve_run (max_conns configured) p (finished d ∷ admitted ∷ [])
            ≡ some (record { waiting = none; handling = c ∷ without d p.handling }))
          p.handling
serve_run-gets_in configured events p c h w =
    let places = max_conns configured in
    let le = run-bounded places new_pool p events (omega arith) h in
    (
      room_or_handler places p.waiting p.handling c (max_conns-pos configured) w,
      returned places p.waiting p.handling c p.handling le w (All-Inside p.handling),
    )
