-- ===== src/Server/Gui/Targets/Labels.antt =====
-- The labels of a host name, before and after the masking.
use proxywi.Common.{
  ℕ, zero, suc, ◌≡◌, refl, ap, ◌∙◌, inl, inr, Bool, true, false, ◌&&◌, List, [], ◌∷◌, ◌++◌, map,
  arith, leb, ◌==◌, if◌then◌else◌, ==_refl, Bool-cases, length, replicate, any, All, Bytes, split,
  join,
}
use proxywi.Common.{split-ne-nil}
use proxywi.Server.Gui.Targets.{mask_label}
use proxywi.Server.Gui.Targets.Masked.{masked, mask_label-masked, shown, shown-stars}

abbrev Free : ℕ → Bytes → Type 0
Free sep s = any (λ c. c == sep) s ≡ false

split-Free : (s : Bytes) (sep : ℕ) → All (Free sep) (split s sep)
unfolding split
split-Free [] sep = (refl, tt)
split-Free (c ∷ s) sep =
    let (p, ps, q) = split-ne-nil s sep in
    let ih = rw q at (split-Free s sep) in
    elim (Bool-cases (c == sep)) [
      | inl e ↦ rw (e, q) (refl, ih)
      | inr e ↦ rw (e, q) (rw (e, ih.0) refl, ih.1)
    ]

split-one : (p : Bytes) (sep : ℕ) → Free sep p → split p sep ≡ p ∷ []
unfolding split
split-one [] sep h = refl
split-one (c ∷ p) sep h = elim (Bool-cases (c == sep)) [
  | inl e ↦ absurd (cc (rw e at h))
  | inr e ↦ rw (e, split-one p sep (rw e at h)) refl
]

split-append : (p s : Bytes) (sep : ℕ) → Free sep p → split (p ++ (sep ∷ s)) sep ≡ p ∷ split s sep
unfolding split
split-append [] s sep h = rw (==_refl sep) refl
split-append (c ∷ p) s sep h = elim (Bool-cases (c == sep)) [
  | inl e ↦ absurd (cc (rw e at h))
  | inr e ↦ rw (e, split-append p s sep (rw e at h)) refl
]

-- Splitting what was joined gives the parts back, where none has the separator in it.
split-join :
    (p : Bytes) (ps : List Bytes) (sep : ℕ)
    → All (Free sep) (p ∷ ps)
    → split (join (p ∷ ps) sep) sep ≡ p ∷ ps
unfolding join
split-join p [] sep h = split-one p sep h.0
split-join p (q ∷ ps) sep h =
    split-append p (join (q ∷ ps) sep) sep h.0 ∙ ap (◌∷◌ p) (split-join q ps sep h.1)

stars-Free : (n : ℕ) → Free b'.' (replicate n b'*')
stars-Free zero = refl
stars-Free (suc n) = stars-Free n

mask_label-Free : (l : Bytes) → Free b'.' l → Free b'.' (mask_label l)
unfolding mask_label
mask_label-Free [] h = refl
mask_label-Free (a ∷ []) h = refl
mask_label-Free (a ∷ b ∷ []) h = refl
mask_label-Free (a ∷ b ∷ c ∷ []) h = ground arith
mask_label-Free (a ∷ b ∷ c ∷ d ∷ l) h = ground (arith, stars-Free (length (d ∷ l)))

mask_labels-Free : (ls : List Bytes) → All (Free b'.') ls → All (Free b'.') (map mask_label ls)
mask_labels-Free [] h = tt
mask_labels-Free (l ∷ ls) h = (mask_label-Free l h.0, mask_labels-Free ls h.1)

-- How many bytes of a label may be shown.
abbrev pub budget : ℕ → ℕ
budget n = if leb n 2 then 0 else if n == 3 then 2 else 3

-- As long as the label, each byte a star or the label's, and of the label's no more than that.
abbrev pub hides : Bytes → Bytes → Bool
hides out label = masked out label && leb (shown out) (budget (length label))

abbrev pub all_hide : List Bytes → List Bytes → Bool
all_hide [] [] = true
all_hide [] (l ∷ ls) = false
all_hide (o ∷ outs) [] = false
all_hide (o ∷ outs) (l ∷ ls) = hides o l && all_hide outs ls

mask_label-budget : (l : Bytes) → leb (shown (mask_label l)) (budget (length l)) ≡ true
unfolding mask_label
mask_label-budget [] = refl
mask_label-budget (a ∷ []) = refl
mask_label-budget (a ∷ b ∷ []) = refl
mask_label-budget (a ∷ b ∷ c ∷ []) = ground arith
mask_label-budget (a ∷ b ∷ c ∷ d ∷ l) = ground (arith, shown-stars (length (d ∷ l)))

mask_labels-hide : (ls : List Bytes) → all_hide (map mask_label ls) ls ≡ true
mask_labels-hide [] = refl
mask_labels-hide (l ∷ ls) = rw (mask_label-masked l, mask_label-budget l) (mask_labels-hide ls)

pub mask_host-hides :
    (host : Bytes)
    → all_hide (split (join (map mask_label (split host b'.')) b'.') b'.') (split host b'.') ≡ true
mask_host-hides host =
    let (p, ps, q) = split-ne-nil host b'.' in
    let free = rw q at (split-Free host b'.') in
    let again =
      split-join (mask_label p) (map mask_label ps) b'.' (mask_labels-Free (p ∷ ps) free) in
    rw (q, again) (mask_labels-hide (p ∷ ps))
