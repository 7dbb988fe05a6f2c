-- ===== src/Server/Gui/Targets/Masked.antt =====
-- What of a label the request log shows.
use proxywi.Common.{
  ℕ, zero, suc, ◌≡◌, refl, Bool, true, false, ◌&&◌, ◌||◌, not, [], ◌∷◌, arith, ◌==◌, length,
  replicate, keep, Bytes,
}
use proxywi.Server.Gui.Targets.{mask_label}

-- Each byte is a star or the byte at its place, and none is missing.
abbrev pub masked : Bytes → Bytes → Bool
masked [] [] = true
masked [] (c ∷ s) = false
masked (o ∷ out) [] = false
masked (o ∷ out) (c ∷ s) = (o == b'*' || o == c) && masked out s

masked-stars : (s : Bytes) → masked (replicate (length s) b'*') s ≡ true
masked-stars [] = refl
masked-stars (c ∷ s) = masked-stars s

pub mask_label-masked : (l : Bytes) → masked (mask_label l) l ≡ true
unfolding mask_label
mask_label-masked [] = refl
mask_label-masked (a ∷ []) = refl
mask_label-masked (a ∷ b ∷ []) = refl
mask_label-masked (a ∷ b ∷ c ∷ []) = ground arith
mask_label-masked (a ∷ b ∷ c ∷ d ∷ l) = ground (arith, masked-stars (d ∷ l))

abbrev pub shown : Bytes → ℕ
shown s = length (keep (λ c. not (c == b'*')) s)

pub shown-stars : (n : ℕ) → shown (replicate n b'*') ≡ 0
shown-stars zero = refl
shown-stars (suc n) = shown-stars n
