-- ===== src/Storage/Unique.antt =====
-- Rows of a table with a UNIQUE column.
use proxywi.Common.{
  ◌≡◌, refl, inl, inr, Bool, true, some, List, [], ◌∷◌, map, arith, Bool-cases, first, any, Bytes,
  same, same_refl, same→eq,
}
use proxywi.Storage.Query.{unique}

module _ {A : Type 0} (column : A → Bytes) (p : A → Bool) where
  pub column-present :
      (rows : List A) (x : A)
      → first p rows ≡ some x
      → any (same (column x)) (map column rows) ≡ true
  column-present [] x e = absurd cc
  column-present (y ∷ rows) x e = elim (Bool-cases (p y)) [
    | inl q ↦ let here : y ≡ x = cc (rw q at e) in rw (here, same_refl (column x)) refl
    | inr q ↦ let there = column-present rows x (rw q at e) in ground (arith, there)
  ]

  -- A row that some test finds first is also the first with its value in the column.
  pub first-column :
      (rows : List A) (x : A)
      → unique (map column rows) ≡ true
      → first p rows ≡ some x
      → first (λ y. same (column y) (column x)) rows ≡ some x
  first-column [] x distinct e = absurd cc
  first-column (y ∷ rows) x distinct e = elim (Bool-cases (p y)) [
    | inl q ↦ let here : y ≡ x = cc (rw q at e) in rw (here, same_refl (column x)) refl
    | inr q ↦
        let behind : first p rows ≡ some x = rw q at e in
        let later = first-column rows x (ground arith) behind in
        elim (Bool-cases (same (column y) (column x))) [
          | inr f ↦ rw f later
          | inl f ↦
              let equal = same→eq (column y) (column x) f in
              let twice : _ = rw (equal, column-present rows x behind) at distinct in absurd cc
        ]
  ]
