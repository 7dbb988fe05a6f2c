-- ===== src/Common/Map.antt =====
-- A Go map as an association list: no key stands twice, and the order is that of insertion.
use proxywi.Common.Tests.{◌==◌, ==_iff, if◌then◌else◌}
use proxywi.Common.Text.{Bytes, same, same_iff}
use mathlib.Core.Path.{◌≡◌, refl}
use mathlib.Core.Logic.{◌↔◌}
use mathlib.Core.Bool.{Bool, true}
use mathlib.Core.List.{List, [], ◌∷◌}
use mathlib.Core.Option.{Option, none, some}
use Prim.Native.Nat.{ℕ}
use native.Mathlib.Omega.{arith}

pub record Eq {ℓ} (K : Type ℓ) : Type ℓ where
  pub beq : K → K → Bool
  pub beq_iff : (a b : K) → (beq a b ≡ true) ↔ (a ≡ b)

instance abbrev pub nat_eq : Eq ℕ
nat_eq = record { beq = ◌==◌; beq_iff = ==_iff }

instance abbrev pub bytes_eq : Eq Bytes
bytes_eq = record { beq = same; beq_iff = same_iff }

abbrev pub Map {ℓ κ} : Type ℓ → Type κ → Type (ℓ ⊔ κ)
Map K V = List (K × V)

module _ {ℓ κ} {K : Type ℓ} {V : Type κ} ⦃e : Eq K⦄ where
  -- v, ok := m[k]
  unfoldable pub get : Map K V → K → Option V
  get [] k = none
  get ((j, v) ∷ m) k = let rest = get m k in if e.beq j k then some v else rest

  -- delete(m, k)
  unfoldable pub delete : Map K V → K → Map K V
  delete [] k = []
  delete ((j, v) ∷ m) k = let rest = delete m k in if e.beq j k then rest else (j, v) ∷ rest

  -- m[k] = v
  unfoldable pub put : Map K V → K → V → Map K V
  put [] k v = (k, v) ∷ []
  put ((j, w) ∷ m) k v = let rest = put m k v in if e.beq j k then (k, v) ∷ m else (j, w) ∷ rest

  pub get-put :
      (m : Map K V) (k j : K) (v : V) → get (put m k v) j ≡ (if e.beq k j then some v else get m j)
  unfolding get put
  get-put [] k j v = refl
  get-put ((i, w) ∷ m) k j v =
      ground (arith, get-put m k j v, e.beq_iff i k, e.beq_iff k j, e.beq_iff i j)

  pub get-delete :
      (m : Map K V) (k j : K) → get (delete m k) j ≡ (if e.beq k j then none else get m j)
  unfolding get delete
  get-delete [] k j = ground arith
  get-delete ((i, w) ∷ m) k j =
      ground (arith, get-delete m k j, e.beq_iff i k, e.beq_iff k j, e.beq_iff i j)

-- for k := range m
abbrev pub keys {ℓ κ} : {K : Type ℓ} {V : Type κ} → Map K V → List K
keys [] = []
keys ((k, v) ∷ m) = k ∷ keys m

module _ {ℓ κ} {K : Type ℓ} {V : Type κ} ⦃e : Eq K⦄ where
  -- No key stands twice.
  abbrev pub IsMap : Map K V → Type κ
  IsMap [] = Unit
  IsMap ((k, v) ∷ m) = (get m k ≡ none) × IsMap m

  pub put-IsMap : (m : Map K V) (k : K) (v : V) → IsMap m → IsMap (put m k v)
  unfolding put
  put-IsMap [] k v h = (unfold get in refl, tt)
  put-IsMap ((j, w) ∷ m) k v h =
      ground (arith, put-IsMap m k v h.1, get-put m k j v, e.beq_iff j k, e.beq_iff k j)

  pub delete-IsMap : (m : Map K V) (k : K) → IsMap m → IsMap (delete m k)
  unfolding delete
  delete-IsMap [] k h = tt
  delete-IsMap ((j, w) ∷ m) k h = ground (arith, delete-IsMap m k h.1, get-delete m k j)
