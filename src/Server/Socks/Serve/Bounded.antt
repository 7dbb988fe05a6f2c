-- ===== src/Server/Socks/Serve/Bounded.antt =====
-- How many connections are handled at a time, and that those that wait get in.
use proxywi.Common.{
  ℕ, suc, ◌+◌, ◌≤◌, ◌<◌, ◌≡◌, refl, ap, ◌∙◌, inl, inr, Option, none, some, List, [], ◌∷◌, arith,
  ltb, ◌==◌, if◌then◌else◌, ltb→lt, ==_iff, Bool-cases, Option-cases, length,
}
use mathlib.Core.Path.{subst}
use proxywi.Common.Integers.{ℤ, pos, negsuc}
use proxywi.Server.Socks.Serve.{
  Pool, ServeEvent, accepted, admitted, finished, leave, serve_step, serve_run, new_pool, max_conns,
}

pub leave-length :
    (c : ℕ) (handling rest : List ℕ)
    → leave c handling ≡ some rest
    → length handling ≡ suc (length rest)
leave-length c [] rest h = absurd cc
leave-length c (d ∷ handling) rest h = elim (Bool-cases (c == d)) [
  | inl e ↦ let same_rest : handling ≡ rest = cc (rw e at h) in rw same_rest refl
  | inr e ↦ elim (Option-cases (leave c handling)) [
    | inl q ↦ absurd (cc (rw (e, q) at h))
    | inr (ds, q) ↦
        let same_rest : d ∷ ds ≡ rest = cc (rw (e, q) at h) in
        let later = leave-length c handling ds q in
        ap suc later ∙ ap (λ xs. suc (length xs)) same_rest
  ]
]

step-bounded :
    (places : ℕ) (p q : Pool) (e : ServeEvent)
    → length p.handling ≤ places
    → serve_step places p e ≡ some q
    → length q.handling ≤ places
unfolding serve_step
step-bounded places p q (accepted c) le h = elim (Option-cases p.waiting) [
  | inl w ↦
      let kept : p.handling ≡ q.handling = cc (rw (serve_step, w) at h) in
      subst (λ xs. length xs ≤ places) kept le
  | inr (d, w) ↦ absurd (cc (rw (serve_step, w) at h))
]
step-bounded places p q admitted le h = elim (Option-cases p.waiting) [
  | inl w ↦ absurd (cc (rw (serve_step, w) at h))
  | inr (c, w) ↦ elim (Bool-cases (ltb (length p.handling) places)) [
    | inr b ↦ absurd (cc (rw (serve_step, w, b) at h))
    | inl b ↦
        let one_more : c ∷ p.handling ≡ q.handling = cc (rw (serve_step, w, b) at h) in
        let room = ltb→lt (length p.handling) places b in
        subst (λ xs. length xs ≤ places) one_more (omega (arith, room))
  ]
]
step-bounded places p q (finished c) le h = elim (Option-cases (leave c p.handling)) [
  | inl w ↦ absurd (cc (rw (serve_step, w) at h))
  | inr (rest, w) ↦
      let fewer = leave-length c p.handling rest w in
      let left : rest ≡ q.handling = cc (rw (serve_step, w) at h) in
      subst (λ xs. length xs ≤ places) left (omega (arith, le, fewer))
]

pub run-bounded :
    (places : ℕ) (p q : Pool) (events : List ServeEvent)
    → length p.handling ≤ places
    → serve_run places p events ≡ some q
    → length q.handling ≤ places
unfolding serve_run
run-bounded places p q [] le h =
    let same_pool : p ≡ q = cc h in subst (λ (x : Pool). length x.handling ≤ places) same_pool le
run-bounded places p q (e ∷ events) le h = elim (Option-cases (serve_step places p e)) [
  | inl w ↦ absurd (cc (rw (serve_run, w) at h))
  | inr (p', w) ↦
      run-bounded places p' q events (step-bounded places p p' e le w) (rw (serve_run, w) at h)
]

pub max_conns-pos : (configured : ℤ) → 0 < max_conns configured
unfolding max_conns
max_conns-pos (pos n) = ground arith
max_conns-pos (negsuc n) = omega arith

-- How often a connection is in a list.
abbrev pub times : ℕ → List ℕ → ℕ
times c [] = 0
times c (d ∷ ds) = (if d == c then 1 else 0) + times c ds

abbrev pub waiting_of : Option ℕ → List ℕ
waiting_of none = []
waiting_of (some c) = c ∷ []

abbrev pub accepted_in : List ServeEvent → List ℕ
accepted_in [] = []
accepted_in (accepted c ∷ events) = c ∷ accepted_in events
accepted_in (admitted ∷ events) = accepted_in events
accepted_in (finished c ∷ events) = accepted_in events

abbrev pub finished_in : List ServeEvent → List ℕ
finished_in [] = []
finished_in (accepted c ∷ events) = finished_in events
finished_in (admitted ∷ events) = finished_in events
finished_in (finished c ∷ events) = c ∷ finished_in events

abbrev present : ℕ → Pool → ℕ
present c p = times c (waiting_of p.waiting) + times c p.handling

leave-times :
    (c d : ℕ) (handling rest : List ℕ)
    → leave d handling ≡ some rest
    → times c handling ≡ times c (d ∷ []) + times c rest
leave-times c d [] rest h = absurd cc
leave-times c d (e ∷ handling) rest h = elim (Bool-cases (d == e)) [
  | inl q ↦
      let same_rest : handling ≡ rest = cc (rw q at h) in
      let same_conn : d ≡ e = (==_iff d e).0 q in rw (same_rest, same_conn) (omega arith)
  | inr q ↦ elim (Option-cases (leave d handling)) [
    | inl r ↦ absurd (cc (rw (q, r) at h))
    | inr (ds, r) ↦
        let same_rest : e ∷ ds ≡ rest = cc (rw (q, r) at h) in
        let later = leave-times c d handling ds r in
        subst (λ xs. times c (e ∷ handling) ≡ times c (d ∷ []) + times c xs) same_rest
          (omega (arith, later))
  ]
]

step-present :
    (places c : ℕ) (p q : Pool) (e : ServeEvent)
    → serve_step places p e ≡ some q
    → times c (accepted_in (e ∷ [])) + present c p ≡ present c q + times c (finished_in (e ∷ []))
unfolding serve_step
step-present places c p q (accepted d) h = elim (Option-cases p.waiting) [
  | inl w ↦
      let after : record p { waiting = some d } ≡ q = cc (rw (serve_step, w) at h) in
      subst (λ (x : Pool). times c (d ∷ []) + present c p ≡ present c x + 0) after
        (rw w (omega arith))
  | inr (b, w) ↦ absurd (cc (rw (serve_step, w) at h))
]
step-present places c p q admitted h = elim (Option-cases p.waiting) [
  | inl w ↦ absurd (cc (rw (serve_step, w) at h))
  | inr (b, w) ↦ elim (Bool-cases (ltb (length p.handling) places)) [
    | inr k ↦ absurd (cc (rw (serve_step, w, k) at h))
    | inl k ↦
        let after : record { waiting = none; handling = b ∷ p.handling } ≡ q =
          cc (rw (serve_step, w, k) at h) in
        subst (λ (x : Pool). 0 + present c p ≡ present c x + 0) after (rw w (omega arith))
  ]
]
step-present places c p q (finished d) h = elim (Option-cases (leave d p.handling)) [
  | inl w ↦ absurd (cc (rw (serve_step, w) at h))
  | inr (rest, w) ↦
      let after : record p { handling = rest } ≡ q = cc (rw (serve_step, w) at h) in
      let fewer = leave-times c d p.handling rest w in
      subst (λ (x : Pool). 0 + present c p ≡ present c x + times c (d ∷ [])) after
        (omega (arith, fewer))
]

accepted_split :
    (c : ℕ) (e : ServeEvent) (events : List ServeEvent)
    → times c (accepted_in (e ∷ events))
      ≡ times c (accepted_in (e ∷ [])) + times c (accepted_in events)
accepted_split c (accepted d) events = omega arith
accepted_split c admitted events = omega arith
accepted_split c (finished d) events = omega arith

finished_split :
    (c : ℕ) (e : ServeEvent) (events : List ServeEvent)
    → times c (finished_in (e ∷ events))
      ≡ times c (finished_in (e ∷ [])) + times c (finished_in events)
finished_split c (accepted d) events = omega arith
finished_split c admitted events = omega arith
finished_split c (finished d) events = omega arith

run-present :
    (places c : ℕ) (p q : Pool) (events : List ServeEvent)
    → serve_run places p events ≡ some q
    → times c (accepted_in events) + present c p ≡ present c q + times c (finished_in events)
unfolding serve_run
run-present places c p q [] h =
    let same_pool : p ≡ q = cc h in
    subst (λ (x : Pool). 0 + present c p ≡ present c x + 0) same_pool (omega arith)
run-present places c p q (e ∷ events) h = elim (Option-cases (serve_step places p e)) [
  | inl w ↦ absurd (cc (rw (serve_run, w) at h))
  | inr (p', w) ↦
      let one = step-present places c p p' e w in
      let later = run-present places c p' q events (rw (serve_run, w) at h) in
      omega (arith, one, later, accepted_split c e events, finished_split c e events)
]

-- However connections come and go: no more are handled at a time than `MaxConns`, or 1000 where that
-- is not above zero; and each was accepted as often as it waits, is handled and has finished, taken
-- together, so that none is lost.
pub serve_run-bounded :
    (configured : ℤ) (events : List ServeEvent) (p : Pool) (c : ℕ)
    → serve_run (max_conns configured) new_pool events ≡ some p
    → (length p.handling ≤ max_conns configured)
      × (times c (accepted_in events)
          ≡ times c (waiting_of p.waiting) + times c p.handling + times c (finished_in events))
serve_run-bounded configured events p c h =
    let places = max_conns configured in
    let kept = run-present places c new_pool p events h in
    (run-bounded places new_pool p events (omega arith) h, omega (arith, kept))
