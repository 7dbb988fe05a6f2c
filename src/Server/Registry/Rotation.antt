-- ===== src/Server/Registry/Rotation.antt =====
-- `PickNext` of registry.go goes round the agents in the order of their ids.
use proxywi.Common.{
  ℕ, zero, suc, ◌+◌, ◌≤◌, ◌<◌, ◌≡◌, refl, sym, ap, ◌∙◌, ◌≢◌, inl, inr, none, List, [], ◌∷◌, ◌++◌,
  append_assoc, append-nil, arith, ltb, if◌then◌else◌, ltb→lt, Bool-cases, length, All, All-append,
}
use mathlib.Core.List.{Perm}
use mathlib.Core.List.Perm
use mathlib.Core.Path.{subst}
use native.Mathlib.Nat.{zero-add, suc-add, add-zero}
use proxywi.Common.Map.{Map, IsMap, nat_eq, get, keys}
use proxywi.Server.Registry.{Agent, insert_id, sort_ids, first_above, choose}

abbrev pub Ascending : List ℕ → Type 0
Ascending [] = Unit
Ascending (x ∷ xs) = All (λ y. x < y) xs × Ascending xs

pub All-mono : {P Q : ℕ → Type 0} (xs : List ℕ) → ((x : ℕ) → P x → Q x) → All P xs → All Q xs
All-mono [] f h = tt
All-mono (x ∷ xs) f h = (f x h.0, All-mono xs f h.1)

insert_id-All : (P : ℕ → Type 0) (x : ℕ) (l : List ℕ) → P x → All P l → All P (insert_id x l)
unfolding insert_id
insert_id-All P x [] p h = (p, tt)
insert_id-All P x (y ∷ l) p h = ground (arith, insert_id-All P x l p h.1)

pub insert_id-All-inv :
    (P : ℕ → Type 0) (x : ℕ) (l : List ℕ) → All P (insert_id x l) → P x × All P l
unfolding insert_id
insert_id-All-inv P x [] h = (h.0, tt)
insert_id-All-inv P x (y ∷ l) h = elim (Bool-cases (ltb x y)) [
  | inl e ↦
      let kept : All P (x ∷ y ∷ l) =
        subst (λ b. All P (if b then x ∷ y ∷ l else y ∷ insert_id x l)) e h in
      (kept.0, kept.1)
  | inr e ↦
      let kept : All P (y ∷ insert_id x l) =
        subst (λ b. All P (if b then x ∷ y ∷ l else y ∷ insert_id x l)) e h in
      let rest = insert_id-All-inv P x l kept.1 in (rest.0, (kept.0, rest.1))
]

pub first_above-All :
    (P : ℕ → Type 0) (l : List ℕ) (last d : ℕ) → P d → All P l → P (first_above l last d)
unfolding first_above
first_above-All P [] last d p h = p
first_above-All P (x ∷ l) last d p h = elim (Bool-cases (ltb last x)) [
  | inl e ↦ rw e h.0
  | inr e ↦ rw e (first_above-All P l last d p h.1)
]

insert_id-Ascending :
    (x : ℕ) (l : List ℕ) → All (λ y. x ≢ y) l → Ascending l → Ascending (insert_id x l)
unfolding insert_id
insert_id-Ascending x [] d h = (tt, tt)
insert_id-Ascending x (y ∷ l) (ne, d) (above, h) = elim (Bool-cases (ltb x y)) [
  | inl e ↦
      rw e ((ltb→lt x y e, All-mono l (λ z lt. omega (arith, ltb→lt x y e)) above), (above, h))
  | inr e ↦ rw e (insert_id-All _ x l (ground arith) above, insert_id-Ascending x l d h)
]

pub keys-ne : (m : Map ℕ Agent) (k : ℕ) → get m k ≡ none → All (λ j. k ≢ j) (keys m)
unfolding get
keys-ne [] k h = tt
keys-ne ((j, a) ∷ m) k h = (ground arith, keys-ne m k (ground arith))

pub sort_ids-All : (P : ℕ → Type 0) (l : List ℕ) → All P l → All P (sort_ids l)
unfolding sort_ids
sort_ids-All P [] h = tt
sort_ids-All P (x ∷ l) h = insert_id-All P x (sort_ids l) h.0 (sort_ids-All P l h.1)

insert_id-length : (x : ℕ) (l : List ℕ) → length (insert_id x l) ≡ suc (length l)
unfolding insert_id
insert_id-length x [] = refl
insert_id-length x (y ∷ l) = ground (arith, insert_id-length x l)

pub length-sort_ids-keys : (m : Map ℕ Agent) → length (sort_ids (keys m)) ≡ length m
unfolding sort_ids
length-sort_ids-keys [] = refl
length-sort_ids-keys ((k, a) ∷ m) =
    insert_id-length k (sort_ids (keys m)) ∙ ap suc (length-sort_ids-keys m)

pub sort_ids-Ascending : (m : Map ℕ Agent) → IsMap m → Ascending (sort_ids (keys m))
unfolding sort_ids
sort_ids-Ascending [] h = tt
sort_ids-Ascending ((k, a) ∷ m) h =
    insert_id-Ascending k (sort_ids (keys m)) (sort_ids-All _ (keys m) (keys-ne m k h.0))
      (sort_ids-Ascending m h.1)

insert_id-perm : (x : ℕ) (l : List ℕ) → Perm (insert_id x l) (x ∷ l)
unfolding insert_id
insert_id-perm x [] = Perm.refl (x ∷ [])
insert_id-perm x (y ∷ l) =
    let swapped = Perm.trans (Perm.cons y (insert_id-perm x l)) (Perm.swap x y l) in
    ground (arith, Perm.refl (x ∷ y ∷ l), swapped)

pub sort_ids-perm : (l : List ℕ) → Perm (sort_ids l) l
unfolding sort_ids
sort_ids-perm [] = Perm.refl []
sort_ids-perm (x ∷ l) = Perm.trans (insert_id-perm x (sort_ids l)) (Perm.cons x (sort_ids-perm l))

-- The ids at most `last`, and those above it.
abbrev pub Split : List ℕ → ℕ → Type 0
Split l last =
    (xs : List ℕ) × (ys : List ℕ) × (l ≡ xs ++ ys) × All (λ x. x ≤ last) xs × All (λ y. last < y) ys

pub Ascending-Split : (l : List ℕ) (last : ℕ) → Ascending l → Split l last
Ascending-Split [] last h = ([], [], refl, tt, tt)
Ascending-Split (x ∷ l) last h = elim (Bool-cases (ltb last x)) [
  | inl e ↦
      let lt = ltb→lt last x e in
      ([], x ∷ l, refl, tt, (lt, All-mono l (λ y lt'. omega (arith, lt, lt')) h.0))
  | inr e ↦
      let (xs, ys, eq, low, high) = Ascending-Split l last h.1 in
      (x ∷ xs, ys, ap (◌∷◌ x) eq, (ground arith, low), high)
]

first_above-skip :
    (xs l : List ℕ) (last d : ℕ)
    → All (λ x. x ≤ last) xs
    → first_above (xs ++ l) last d ≡ first_above l last d
unfolding first_above
first_above-skip [] l last d h = refl
first_above-skip (x ∷ xs) l last d h = ground (arith, first_above-skip xs l last d h.1)

choose-default :
    (xs l : List ℕ) (x last : ℕ) → first_above ((x ∷ xs) ++ l) last x ≡ choose ((x ∷ xs) ++ l) last
unfolding choose
choose-default xs l x last = refl

-- The next id above `last`.
pub choose_next :
    (xs : List ℕ) (y : ℕ) (l : List ℕ) (last : ℕ)
    → All (λ x. x ≤ last) xs
    → last < y
    → choose (xs ++ (y ∷ l)) last ≡ y
unfolding choose
choose_next [] y l last h lt = unfold first_above in ground arith
choose_next (x ∷ xs) y l last h lt =
    first_above-skip (x ∷ xs) (y ∷ l) last x h ∙ (unfold first_above in ground arith)

-- No id is above `last`: back to the first one.
pub choose_wrap :
    (x : ℕ) (l : List ℕ) (last : ℕ) → All (λ y. y ≤ last) (x ∷ l) → choose (x ∷ l) last ≡ x
unfolding choose
choose_wrap x l last h =
    ap (λ m. first_above m last x) (sym (append-nil (x ∷ l)))
    ∙ first_above-skip (x ∷ l) [] last x h
    ∙ (unfold first_above in refl)

unfoldable pub rounds : ℕ → List ℕ → ℕ → List ℕ
rounds zero l last = []
rounds (suc n) l last = choose l last ∷ rounds n l (choose l last)

abbrev last_of : List ℕ → ℕ → ℕ
last_of [] d = d
last_of (x ∷ xs) d = last_of xs x

pub Ascending-right : (xs l : List ℕ) → Ascending (xs ++ l) → Ascending l
Ascending-right [] l h = h
Ascending-right (x ∷ xs) l h = Ascending-right xs l h.1

All-left : (P : ℕ → Type 0) (xs l : List ℕ) → All P (xs ++ l) → All P xs
All-left P [] l h = tt
All-left P (x ∷ xs) l h = (h.0, All-left P xs l h.1)

pub rounds-suc :
    (n : ℕ) (l : List ℕ) (last : ℕ)
    → rounds (suc n) l last ≡ choose l last ∷ rounds n l (choose l last)
unfolding rounds
rounds-suc n l last = refl

module _ (post : List ℕ) where
  -- From `last`, the ids `mid` that follow it are picked in turn.
  rounds-run :
      (pre mid : List ℕ) (m last : ℕ)
      → Ascending (pre ++ (mid ++ post))
      → All (λ x. x ≤ last) pre
      → All (λ y. last < y) mid
      → rounds (length mid + m) (pre ++ (mid ++ post)) last
        ≡ mid ++ rounds m (pre ++ (mid ++ post)) (last_of mid last)
  rounds-run pre [] m last h low high = rw zero-add
  rounds-run pre (b ∷ mid) m last h low high =
      let tail = Ascending-right pre (b ∷ (mid ++ post)) h in
      let shift = append_assoc pre (b ∷ []) (mid ++ post) in
      let low' =
        All-append _ pre (b ∷ []) (All-mono pre (λ x le. omega (arith, le, high.0)) low)
          (omega arith, tt) in
      let moved =
        rounds-run (pre ++ (b ∷ [])) mid m b (rw shift h) low' (All-left _ mid post tail.0) in
      let ih : rounds (length mid + m) (pre ++ (b ∷ (mid ++ post))) b
          ≡ mid ++ rounds m (pre ++ (b ∷ (mid ++ post))) (last_of mid b) =
        rw shift at moved in
      let chosen = choose_next pre b (mid ++ post) last low high.0 in
      rw (suc-add (length mid) m)
        (rounds-suc (length mid + m) (pre ++ (b ∷ (mid ++ post))) last ∙ rw chosen (ap (◌∷◌ b) ih))

last_of-ge :
    (ys : List ℕ) (d : ℕ)
    → Ascending ys
    → All (λ y. d < y) ys
    → (d ≤ last_of ys d) × All (λ y. y ≤ last_of ys d) ys
last_of-ge [] d h lt = (omega arith, tt)
last_of-ge (y ∷ ys) d h lt =
    let ih = last_of-ge ys y h.1 h.0 in (omega (arith, ih.0, lt.0), (ih.0, ih.1))

-- From any id, as many picks as there are ids give each of them once: those above it, then
-- those at most it, in ascending order.
pub rounds-cycle :
    (xs ys : List ℕ) (last : ℕ)
    → Ascending (xs ++ ys)
    → All (λ x. x ≤ last) xs
    → All (λ y. last < y) ys
    → rounds (length ys + length xs) (xs ++ ys) last ≡ ys ++ xs
rounds-cycle xs ys last h low high =
    ap (λ l. rounds (length ys + length xs) (xs ++ l) last) (sym (append-nil ys))
    ∙ rounds-run [] xs ys (length xs) last (rw append-nil h) low high
    ∙ ap (◌++◌ ys) (
        ap (λ l. rounds (length xs) (xs ++ l) (last_of ys last)) (append-nil ys)
        ∙ wrapped xs ys (last_of ys last) h
            (All-append _ xs ys (All-mono xs (λ x le. omega (arith, le, top.0)) low) top.1))
  where
    top : (last ≤ last_of ys last) × All (λ y. y ≤ last_of ys last) ys
    top = last_of-ge ys last (Ascending-right xs ys h) high

    wrapped :
        (xs ys : List ℕ) (top : ℕ)
        → Ascending (xs ++ ys)
        → All (λ y. y ≤ top) (xs ++ ys)
        → rounds (length xs) (xs ++ ys) top ≡ xs
    wrapped [] ys top h le = unfold rounds in refl
    wrapped (x ∷ xs) ys top h le =
        let run = rounds-run ys (x ∷ []) xs 0 x h (omega arith, tt) (All-left _ xs ys h.0) in
        unfold rounds in
        rw (choose_wrap x (xs ++ ys) top le) (
          ap (◌∷◌ x) (
            ap (λ n. rounds n (x ∷ (xs ++ ys)) x) (sym (add-zero (length xs)))
            ∙ run
            ∙ append-nil xs))
