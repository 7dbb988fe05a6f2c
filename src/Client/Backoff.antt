-- ===== src/Client/Backoff.antt =====
-- cmd/proxywi-client/main.go: the loop that keeps the tunnel up. Times are in nanoseconds.
use proxywi.Common.{
  ℕ, suc, ◌*◌, ◌^◌, ◌≡◌, refl, sym, ap, inl, inr, List, [], ◌∷◌, arith, ltb, if◌then◌else◌,
  Bool-cases,
}
use native.Mathlib.Nat.{pow-suc}

abbrev pub second : ℕ
second = 1_000_000_000

-- One round, whose call of `Run` took `took`: how long the loop waits, and the backoff after it.
unfoldable pub round : ℕ → ℕ → ℕ × ℕ
round took backoff =
    let wait = if ltb (60 * second) took then second else backoff in
    let doubled = wait * 2 in (wait, (if ltb (30 * second) doubled then 30 * second else doubled))

-- The waits after calls of `Run` that took these times.
unfoldable pub waits : ℕ → List ℕ → List ℕ
unfolding round
waits backoff [] = []
waits backoff (took ∷ rounds) = let (wait, next) = round took backoff in wait ∷ waits next rounds

unfoldable pub run : List ℕ → List ℕ
unfolding waits
run rounds = waits second rounds

abbrev pub cap : ℕ → ℕ
cap t = if ltb (30 * second) t then 30 * second else t

-- The waits, said without the state: doubled at each round since the last long one, up to the cap.
unfoldable pub expected : ℕ → List ℕ → List ℕ
expected short [] = []
expected short (took ∷ rounds) =
    let since = if ltb (60 * second) took then 0 else short in
    cap (2 ^ since * second) ∷ expected (suc since) rounds

cap_step : (t : ℕ) → cap (cap t * 2) ≡ cap (t * 2)
cap_step t = ground arith

waits_lem :
    (short : ℕ) (rounds : List ℕ) → waits (cap (2 ^ short * second)) rounds ≡ expected short rounds
unfolding waits expected round
waits_lem short [] = refl
waits_lem short (took ∷ rounds) = elim (Bool-cases (ltb (60 * second) took)) [
  | inl e ↦ rw e (ap (◌∷◌ second) (waits_lem 1 rounds))
  | inr e ↦
      let doubled : 2 ^ suc short * second ≡ 2 ^ short * second * 2 =
        omega (arith, pow-suc 2 short) in
      rw e (
        ap (◌∷◌ (cap (2 ^ short * second)))
          (rw (cap_step (2 ^ short * second), sym doubled) (waits_lem (suc short) rounds)))
]

-- The waits are those of `expected`: 2^n seconds, at most 30, after a round, where n counts the
-- rounds since the last that took more than a minute, or since the start.
pub run_lem : (rounds : List ℕ) → run rounds ≡ expected 0 rounds
unfolding run
run_lem rounds = waits_lem 0 rounds
