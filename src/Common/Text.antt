-- ===== src/Common/Text.antt =====
-- Go strings and byte slices as lists of byte values, and the functions of `strings` that the
-- source calls. `to_lower` and `trim_space` are those of ASCII text.
use Prim.Native.Nat.{ℕ, suc, ◌+◌}
use Prim.Native.Char.{code}
use Prim.Native.String.{String}
use mathlib.Core.Path.{◌≡◌, refl, ap, ◌∙◌}
use mathlib.Core.Logic.{◌↔◌, inl, inr}
use mathlib.Core.Bool.{Bool, true, false, ◌&&◌, ◌||◌}
use mathlib.Core.List.{List, [], ◌∷◌, ◌++◌, map}
use mathlib.Core.Option.{Option, none, some}
use native.Mathlib.Omega.{arith}
use proxywi.Common.Tests.{leb, ◌==◌, ==_iff, if◌then◌else◌, Bool-cases}
use proxywi.Common.Lists.{length, drop}

abbrev pub Bytes : Type 0
Bytes = List ℕ

-- The bytes of an ASCII literal.
abbrev pub codes : String → Bytes
codes String.[] = []
codes (String.◌∷◌ c s) = code c ∷ codes s

-- s == t
unfoldable pub same : Bytes → Bytes → Bool
same [] [] = true
same [] (y ∷ ys) = false
same (x ∷ xs) [] = false
same (x ∷ xs) (y ∷ ys) = x == y && same xs ys

pub same_refl : (xs : Bytes) → same xs xs ≡ true
unfolding same
same_refl [] = refl
same_refl (x ∷ xs) = ground (arith, same_refl xs)

pub same→eq : (xs ys : Bytes) → same xs ys ≡ true → xs ≡ ys
unfolding same
same→eq [] [] h = refl
same→eq [] (y ∷ ys) h = cc
same→eq (x ∷ xs) [] h = cc
same→eq (x ∷ xs) (y ∷ ys) h = ground (arith, same→eq xs ys)

pub same_iff : (xs ys : Bytes) → (same xs ys ≡ true) ↔ (xs ≡ ys)
same_iff xs ys = (same→eq xs ys, λ e. rw e (same_refl ys))

abbrev pub is_empty : Bytes → Bool
is_empty [] = true
is_empty (x ∷ xs) = false

pub is_empty→nil : (s : Bytes) → is_empty s ≡ true → s ≡ []
is_empty→nil [] h = refl
is_empty→nil (c ∷ s) h = absurd cc

-- strings.HasPrefix(s, p)
unfoldable pub has_prefix : Bytes → Bytes → Bool
has_prefix s [] = true
has_prefix [] (p ∷ ps) = false
has_prefix (c ∷ s) (p ∷ ps) = c == p && has_prefix s ps

-- strings.TrimPrefix(s, p)
unfoldable pub trim_prefix : Bytes → Bytes → Bytes
unfolding has_prefix
trim_prefix s p = if has_prefix s p then drop (length p) s else s

-- strings.IndexByte(s, c), `none` for -1
unfoldable pub index_byte : Bytes → ℕ → Option ℕ
index_byte [] c = none
index_byte (x ∷ xs) c =
    let rest = index_byte xs c in
    if x == c then some 0 else elim rest [ none ↦ none | some i ↦ some (suc i) ]

-- strings.LastIndex(s, sub), `none` for -1, where `sub` is not empty.
unfoldable pub last_index : Bytes → Bytes → Option ℕ
unfolding has_prefix
last_index [] sub = none
last_index (c ∷ s) sub =
    let rest = last_index s sub in
    elim rest [ some i ↦ some (suc i) | none ↦ if has_prefix (c ∷ s) sub then some 0 else none ]

split_head : ℕ → List Bytes → List Bytes
split_head c [] = (c ∷ []) ∷ []
split_head c (p ∷ ps) = (c ∷ p) ∷ ps

-- strings.Split(s, sep) for a separator of one byte: never empty
unfoldable pub split : Bytes → ℕ → List Bytes
unfolding split_head
split [] sep = [] ∷ []
split (c ∷ s) sep = let rest = split s sep in if c == sep then [] ∷ rest else split_head c rest

-- strings.Join(parts, sep) for a separator of one byte
unfoldable pub join : List Bytes → ℕ → Bytes
join [] sep = []
join (p ∷ []) sep = p
join (p ∷ q ∷ ps) sep = p ++ (sep ∷ join (q ∷ ps) sep)

abbrev pub is_space : ℕ → Bool
is_space c = c == 32 || (leb 9 c && leb c 13)

unfoldable pub trim_left : Bytes → Bytes
trim_left [] = []
trim_left (c ∷ s) = let rest = trim_left s in if is_space c then rest else c ∷ s

unfoldable pub trim_right : Bytes → Bytes
trim_right [] = []
trim_right (c ∷ s) = let rest = trim_right s in if is_space c && is_empty rest then [] else c ∷ rest

-- strings.TrimSpace(s)
unfoldable pub trim_space : Bytes → Bytes
unfolding trim_left trim_right
trim_space s = trim_right (trim_left s)

abbrev pub lower : ℕ → ℕ
lower c = if leb b'A' c && leb c b'Z' then c + 32 else c

-- strings.ToLower(s)
unfoldable pub to_lower : Bytes → Bytes
to_lower s = map lower s

pub split-ne-nil : (s : Bytes) (sep : ℕ) → (p : Bytes) × (ps : List Bytes) × (split s sep ≡ p ∷ ps)
unfolding split
split-ne-nil [] sep = ([], [], refl)
split-ne-nil (c ∷ s) sep = elim (Bool-cases (c == sep)) [
  | inl e ↦ rw e ([], split s sep, refl)
  | inr e ↦ let (p, ps, q) = split-ne-nil s sep in rw e (rw q ((c ∷ p), ps, refl))
]

join_head :
    (c : ℕ) (p : Bytes) (ps : List Bytes) (sep : ℕ)
    → join ((c ∷ p) ∷ ps) sep ≡ c ∷ join (p ∷ ps) sep
unfolding join
join_head c p [] sep = refl
join_head c p (q ∷ ps) sep = refl

-- Joining what a split cut gives the text back.
pub join-split : (s : Bytes) (sep : ℕ) → join (split s sep) sep ≡ s
unfolding split join
join-split [] sep = refl
join-split (c ∷ s) sep =
    let (p, ps, q) = split-ne-nil s sep in
    let ih : join (p ∷ ps) sep ≡ s = rw q at (join-split s sep) in
    elim (Bool-cases (c == sep)) [
      | inl e ↦ rw e (rw q (cc ((==_iff c sep).0 e, ih)))
      | inr e ↦ rw e (rw q (join_head c p ps sep ∙ ap (◌∷◌ c) ih))
    ]
