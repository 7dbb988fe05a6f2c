-- ===== src/Server/Registry/Fairness.antt =====
-- `PickNext` of registry.go against what the callers need: an agent that is online, and each in
-- its turn.
use proxywi.Common.{
  ℕ, zero, suc, ◌+◌, ◌≤◌, ◌<◌, ◌≡◌, refl, sym, ap, ◌∙◌, ◌≢◌, ◌⊎◌, inl, inr, false, Option, none,
  some, List, [], ◌∷◌, ◌++◌, map, arith, ◌==◌, Bool-cases, length, All, length-append, All-append,
  Result, ok, err,
}
use mathlib.Core.List.{Perm, perm_append_comm}
use mathlib.Core.List.Perm
use mathlib.Core.Path.{ap₂, subst}
use proxywi.Common.Map.{Map, IsMap, nat_eq, get, keys}
use proxywi.Server.Registry.{
  Agent, Registry, PickError, err_no_agents, sort_ids, choose, values, online, pick_next,
}
use proxywi.Server.Registry.Rotation.{
  Ascending-Split, Ascending, choose_next, choose_wrap, rounds, rounds-suc, rounds-cycle,
  sort_ids-Ascending, sort_ids-perm, length-sort_ids-keys, keys-ne, All-mono, Ascending-right,
  sort_ids-All, insert_id-All-inv, first_above-All,
}

abbrev pub picked : Result PickError (Option Agent) → Option Agent
picked (ok a) = a
picked (err e) = none

-- The answers of `n` calls in a row.
unfoldable pub picks : ℕ → Registry → List (Option Agent)
picks zero r = []
picks (suc n) r = picked (pick_next r).0 ∷ picks n (pick_next r).1

picks-rounds :
    (n : ℕ) (r : Registry)
    → (length r.agents == 0) ≡ false
    → picks n r ≡ map (get r.agents) (rounds n (sort_ids (keys r.agents)) r.last_picked_id)
unfolding picks pick_next
picks-rounds zero r h = unfold rounds in refl
picks-rounds (suc n) r h =
    rw (rounds-suc n (sort_ids (keys r.agents)) r.last_picked_id, h)
      (ap (◌∷◌ (get r.agents (choose (sort_ids (keys r.agents)) r.last_picked_id))) (
        picks-rounds n
          (record r { last_picked_id = choose (sort_ids (keys r.agents)) r.last_picked_id }) h))

get-cons :
    (m : Map ℕ Agent) (k : ℕ) (a : Agent) (l : List ℕ)
    → All (λ j. k ≢ j) l
    → map (get ((k, a) ∷ m)) l ≡ map (get m) l
get-cons m k a [] h = refl
get-cons m k a (j ∷ l) h = ap₂ ◌∷◌ (unfold get in ground arith) (get-cons m k a l h.1)

map-get-keys : (m : Map ℕ Agent) → IsMap m → map (get m) (keys m) ≡ map some (values m)
map-get-keys [] h = refl
map-get-keys ((k, a) ∷ m) h =
    ap₂ ◌∷◌ (unfold get in ground arith)
      (get-cons m k a (keys m) (keys-ne m k h.0) ∙ map-get-keys m h.1)

length-rotation :
    (m : Map ℕ Agent) (xs ys : List ℕ)
    → sort_ids (keys m) ≡ xs ++ ys
    → length m ≡ length ys + length xs
length-rotation m xs ys e = omega (arith, length-sort_ids-keys m, ap length e, length-append xs ys)

picks_perm :
    (agents : Map ℕ Agent) (last : ℕ)
    → IsMap agents
    → Perm
        (picks (length agents) (record { agents = agents; last_picked_id = last }))
        (map some (values agents))
picks_perm [] last m = unfold picks in Perm.refl []
picks_perm ((k, a) ∷ rest) last m =
    let agents : Map ℕ Agent = (k, a) ∷ rest in
    let r : Registry = record { agents = agents; last_picked_id = last } in
    let ids = sort_ids (keys agents) in
    let (xs, ys, eq, low, high) = Ascending-Split ids last (sort_ids-Ascending agents m) in
    let cycle : rounds (length agents) ids last ≡ ys ++ xs =
      rw (length-rotation agents xs ys eq, eq)
        (rounds-cycle xs ys last (rw eq at (sort_ids-Ascending agents m)) low high) in
    let reordered : Perm (ys ++ xs) (keys agents) =
      Perm.trans (perm_append_comm ys xs) (rw eq at (sort_ids-perm (keys agents))) in
    rw (picks-rounds (length agents) r (ground arith), cycle, sym (map-get-keys agents m))
      (Perm.map (get agents) reordered)

-- In a map without duplicate keys, whatever was picked before, as many calls of `PickNext` as
-- there are agents return each agent that is online once, when nobody joins or leaves meanwhile.
pub picks-perm-online :
    (r : Registry) → IsMap r.agents → Perm (picks (length r.agents) r) (map some (online r))
unfolding online
picks-perm-online r m = picks_perm r.agents r.last_picked_id m

-- The choice of an id, said without the sorted list: the least id above the last one, or, where
-- there is none, the least of all.
abbrev pub IsNext : List ℕ → ℕ → ℕ → Type 0
IsNext ids last next =
    ((last < next) × All (λ j. last < j → next ≤ j) ids)
    ⊎ (All (λ j. j ≤ last) ids × All (λ j. next ≤ j) ids)

least_above :
    (xs ys : List ℕ) (y last : ℕ)
    → All (λ x. x ≤ last) xs
    → All (λ z. y < z) ys
    → All (λ j. last < j → y ≤ j) (xs ++ (y ∷ ys))
least_above xs ys y last low high =
    All-append _ xs (y ∷ ys) (All-mono xs (λ x le lt. absurd (omega arith)) low)
      ((λ lt. omega arith), All-mono ys (λ z lt lt'. omega arith) high)

choose-IsNext :
    (ids : List ℕ) (last : ℕ) → Ascending ids → (0 < length ids) → IsNext ids last (choose ids last)
choose-IsNext ids last h p =
    let (xs, ys, eq, low, high) = Ascending-Split ids last h in go xs ys eq low high (rw eq at h)
  where
    go :
        (xs ys : List ℕ)
        → ids ≡ xs ++ ys
        → All (λ x. x ≤ last) xs
        → All (λ y. last < y) ys
        → Ascending (xs ++ ys)
        → IsNext ids last (choose ids last)
    go [] [] eq low high asc = absurd (omega (arith, ap length eq))
    go (x ∷ xs) [] eq low high asc =
        let le = All-append _ (x ∷ xs) [] low tt in
        rw eq (
          subst (IsNext ((x ∷ xs) ++ []) last) (sym (choose_wrap x (xs ++ []) last le))
            (inr (le, (omega arith, All-mono (xs ++ []) (λ j lt. omega arith) asc.0))))
    go xs (y ∷ ys) eq low high asc = rw eq (
        subst (IsNext (xs ++ (y ∷ ys)) last) (sym (choose_next xs y ys last low high.0))
          (inl (high.0, least_above xs ys y last low (Ascending-right xs (y ∷ ys) asc).0)))

unsorted : (P : ℕ → Type 0) (l : List ℕ) → All P (sort_ids l) → All P l
unfolding sort_ids
unsorted P [] h = tt
unsorted P (x ∷ l) h =
    let both = insert_id-All-inv P x (sort_ids l) h in (both.0, unsorted P l both.1)

IsNext-unsorted :
    (ids : List ℕ) (last next : ℕ) → IsNext (sort_ids ids) last next → IsNext ids last next
IsNext-unsorted ids last next (inl (lt, h)) = inl (lt, unsorted _ ids h)
IsNext-unsorted ids last next (inr (le, h)) = inr (unsorted _ ids le, unsorted _ ids h)

abbrev Present : Map ℕ Agent → ℕ → Type 0
Present m id = (a : Agent) × (get m id ≡ some a)

Present-cons :
    (m : Map ℕ Agent) (k : ℕ) (a : Agent) (id : ℕ) → Present m id → Present ((k, a) ∷ m) id
unfolding get
Present-cons m k a id (b, e) = elim (Bool-cases (k == id)) [
  | inl same_id ↦ (a, ground arith)
  | inr other ↦ (b, ground arith)
]

keys-Present : (m : Map ℕ Agent) → All (Present m) (keys m)
keys-Present [] = tt
keys-Present ((k, a) ∷ m) =
    ((a, unfold get in ground arith), All-mono (keys m) (Present-cons m k a) (keys-Present m))

choose-All :
    (P : ℕ → Type 0) (ids : List ℕ) (last : ℕ) → 0 < length ids → All P ids → P (choose ids last)
unfolding choose
choose-All P [] last p h = absurd (omega arith)
choose-All P (id ∷ ids) last p h = first_above-All P (id ∷ ids) last id h.0 h

-- In a map without duplicate keys, `PickNext` fails exactly when no agent is online, and then
-- changes nothing; otherwise it returns the agent of the id that follows the last one picked, in
-- the cyclic order of the ids, and records that id.
pub pick_next_lem :
    (r : Registry)
    → IsMap r.agents
    → ((online r ≡ []) × (pick_next r ≡ (err err_no_agents, r)))
      ⊎ ((a : Agent) × (next : ℕ) × (get r.agents next ≡ some a)
          × IsNext (keys r.agents) r.last_picked_id next
          × (pick_next r ≡ (ok (some a), record r { last_picked_id = next })))
unfolding pick_next online
pick_next_lem r m = by_agents r.agents refl
  where
    next : ℕ
    next = choose (sort_ids (keys r.agents)) r.last_picked_id

    by_agents :
        (agents : Map ℕ Agent)
        → r.agents ≡ agents
        → ((values r.agents ≡ []) × (pick_next r ≡ (err err_no_agents, r)))
          ⊎ ((a : Agent) × (next : ℕ) × (get r.agents next ≡ some a)
              × IsNext (keys r.agents) r.last_picked_id next
              × (pick_next r ≡ (ok (some a), record r { last_picked_id = next })))
    by_agents [] e = inl (ap values e, ground arith)
    by_agents ((k, b) ∷ rest) e =
        let nonempty : 0 < length (sort_ids (keys r.agents)) =
          omega (arith, length-sort_ids-keys r.agents, ap length e) in
        let (a, found) =
          choose-All (Present r.agents) (sort_ids (keys r.agents)) r.last_picked_id nonempty
            (sort_ids-All (Present r.agents) (keys r.agents) (keys-Present r.agents)) in
        inr (
          a,
          next,
          found,
          IsNext-unsorted (keys r.agents) r.last_picked_id next (
              choose-IsNext (sort_ids (keys r.agents)) r.last_picked_id
                (sort_ids-Ascending r.agents m) nonempty),
          ground (arith, found, ap length e),
        )
