-- ===== src/Storage/Migrations.antt =====
-- `migrationFloor` of storage.go. The source of the migrations (golang-migrate) is a pair of calls:
-- `First`, and `Next` after a version; none is their error. Versions are unsigned.
use proxywi.Common.{
  ℕ, zero, suc, ◌+◌, ◌≤◌, ◌<◌, ◌≡◌, refl, ◌⊎◌, inl, inr, Option, none, some, arith, ltb,
  if◌then◌else◌, Bool-cases, Option-cases,
}

module _ (first_version : Option ℕ) (next_version : ℕ → Option ℕ) where
  -- The loop, with the number of rounds that are left.
  unfoldable pub climb : ℕ → ℕ → ℕ → ℕ
  climb zero target cur = cur
  climb (suc rounds) target cur = elim (next_version cur) [
    | none ↦ cur
    | some next ↦ if ltb target next then cur else climb rounds target next
  ]

  unfoldable pub migration_floor : ℕ → ℕ
  unfolding climb
  migration_floor target = elim first_version [
    | none ↦ 0
    | some cur ↦ if ltb target cur then 0 else climb (target + 1) target cur
  ]

  -- The versions that the source lists.
  pub data Listed : ℕ → Type 0 where
    at_first : (v : ℕ) → first_version ≡ some v → Listed v
    at_next : (v w : ℕ) → Listed v → next_version v ≡ some w → Listed w

  abbrev pub IsFloor : ℕ → ℕ → Type 0
  IsFloor target v = Listed v × (v ≤ target) × ((w : ℕ) → next_version v ≡ some w → target < w)

  module _ (rising : (v w : ℕ) → next_version v ≡ some w → v < w) where
    climb-IsFloor :
        (rounds target cur : ℕ)
        → Listed cur
        → cur ≤ target
        → target < cur + rounds
        → IsFloor target (climb rounds target cur)
    unfolding climb
    climb-IsFloor zero target cur l le lt = absurd (omega arith)
    climb-IsFloor (suc rounds) target cur l le lt = elim (Option-cases (next_version cur)) [
      | inl e ↦ rw (e, climb) (l, le, λ w q. cc (e, q))
      | inr (next, e) ↦ elim (Bool-cases (ltb target next)) [
        | inl above ↦ rw (e, climb) (rw above (l, le, λ w q. ground arith))
        | inr below ↦
            rw (e, climb)
              (rw below (
                climb-IsFloor rounds target next (at_next cur next l e) (ground arith)
                  (omega (arith, rising cur next e, lt))))
      ]
    ]

-- Where `Next` rises, the loop ends, and `migrationFloor` gives 0 where the source lists no version
-- up to the target, and otherwise a version that is listed, is at most the target, and has no
-- successor up to the target.
pub migration_floor-IsFloor :
    (first_version : Option ℕ) (next_version : ℕ → Option ℕ) (target : ℕ)
    → ((v w : ℕ) → next_version v ≡ some w → v < w)
    → ((migration_floor first_version next_version target ≡ 0)
        × ((v : ℕ) → first_version ≡ some v → target < v))
      ⊎ IsFloor first_version next_version target
          (migration_floor first_version next_version target)
unfolding migration_floor
migration_floor-IsFloor none next_version target rising = inl (refl, λ v e. cc)
migration_floor-IsFloor (some cur) next_version target rising = elim (Bool-cases (ltb target cur)) [
  | inl above ↦ inl (rw above refl, λ v e. ground arith)
  | inr below ↦ inr (
      rw below (
        climb-IsFloor (some cur) next_version rising (target + 1) target cur (at_first cur refl)
          (ground arith) (omega arith)))
]
