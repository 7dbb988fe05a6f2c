-- ===== src/Server/Control/Reported.antt =====
-- The bytes that an agent reports and the bytes that the database holds for it.
use proxywi.Common.{
  ℕ, zero, suc, ◌+◌, ◌≡◌, refl, ◌≢◌, ◌⊎◌, inl, inr, Bool, true, false, List, [], ◌∷◌, arith, ◌==◌,
  ==_refl, Bool-cases, All, same,
}
use proxywi.Server.Registry.{Agent}
use proxywi.Server.Tunnel.{MetaMessage}
use proxywi.Server.State.{Server}
use proxywi.Server.Control.Meta.{MetaStep, received, ticked, is_metrics, read_meta_stream}
use proxywi.Client.Metrics.{
  sum_in, sum_out, Counters, meta_loop, meta_loop_totals, Grows, reported, ticks,
}
use proxywi.Server.Control.Totals.{stored, metric_bytes, stream-Adds}

abbrev pub messages : List (ℕ × MetaStep) → List MetaMessage
messages [] = []
messages ((now, ticked) ∷ steps) = messages steps
messages ((now, received m) ∷ steps) = m ∷ messages steps

-- A message of another kind carries no bytes.
abbrev Plain : List MetaMessage → Type 0
Plain l = All (λ m. (is_metrics m ≡ true) ⊎ ((m.bytes_in ≡ 0) × (m.bytes_out ≡ 0))) l

metric_bytes_sum :
    (steps : List (ℕ × MetaStep))
    → Plain (messages steps)
    → ((metric_bytes steps).0 ≡ sum_in (messages steps))
      × ((metric_bytes steps).1 ≡ sum_out (messages steps))
metric_bytes_sum [] p = (refl, refl)
metric_bytes_sum ((now, ticked) ∷ steps) p =
    let (ins, outs) = metric_bytes_sum steps p in (omega (arith, ins), omega (arith, outs))
metric_bytes_sum ((now, received m) ∷ steps) (inl q, p) =
    let (ins, outs) = metric_bytes_sum steps p in rw q (omega (arith, ins), omega (arith, outs))
metric_bytes_sum ((now, received m) ∷ steps) (inr (i, o), p) =
    let (ins, outs) = metric_bytes_sum steps p in
    elim (Bool-cases (is_metrics m)) [
      | inl q ↦ rw q (omega (arith, ins), omega (arith, outs))
      | inr q ↦ rw q (omega (arith, ins, i), omega (arith, outs, o))
    ]

ticks-Plain : (writable i o : ℕ) (readings : List Counters) → Plain (ticks writable i o readings)
unfolding ticks same
ticks-Plain writable i o [] = tt
ticks-Plain zero i o (c ∷ readings) = tt
ticks-Plain (suc writable) i o (c ∷ readings) =
    (inl refl, ticks-Plain writable c.bytes_in c.bytes_out readings)

meta_loop-Plain :
    (greets : Bool) (writable : ℕ) (readings : List Counters)
    → Plain (meta_loop greets writable readings)
unfolding meta_loop
meta_loop-Plain true writable readings = (inr (refl, refl), ticks-Plain writable 0 0 readings)
meta_loop-Plain false writable readings = ticks-Plain writable 0 0 readings

-- With a working driver: where what `readMetaStream` reads of an agent, between ticks of its ticker,
-- is what the agent's `metaLoop` writes, and the agent's counters only grow, the bytes that the
-- database holds for the agent's client grow by the last counters that were reported, and those of
-- other clients stay.
pub read_meta_stream-meta_loop :
    (a : Agent) (steps : List (ℕ × MetaStep)) (s : Server) (greets : Bool) (writable : ℕ)
    → (readings : List Counters) (other : ℕ) → s.db.faults ≡ []
    → messages steps ≡ meta_loop greets writable readings
    → Grows 0 0 readings
    → a.id ≢ other
    → let after = read_meta_stream a steps s in
      let sent = reported writable 0 0 readings in
      ((stored a.id after.db).0 ≡ sent.0 + (stored a.id s.db).0)
      × ((stored a.id after.db).1 ≡ sent.1 + (stored a.id s.db).1)
      × ((stored other after.db).0 ≡ (stored other s.db).0)
      × ((stored other after.db).1 ≡ (stored other s.db).1)
read_meta_stream-meta_loop a steps s greets writable readings other h said grows apart =
    let (fine, ins, outs) = stream-Adds a a.id steps s h in
    let (fine', ins', outs') = stream-Adds a other steps s h in
    let plain : Plain (messages steps) = rw said (meta_loop-Plain greets writable readings) in
    let (i, o) = metric_bytes_sum steps plain in
    let (ri, ro) = meta_loop_totals greets writable readings grows in
    let sum_i : sum_in (messages steps) ≡ (reported writable 0 0 readings).0 = rw said ri in
    let sum_o : sum_out (messages steps) ≡ (reported writable 0 0 readings).1 = rw said ro in
    let own = ==_refl a.id in
    let not_own : (a.id == other) ≡ false = ground (arith, apart) in
    let ins_own = rw own at ins in
    let outs_own = rw own at outs in
    let ins_other = rw not_own at ins' in
    let outs_other = rw not_own at outs' in
    (
      omega (arith, ins_own, i, sum_i),
      omega (arith, outs_own, o, sum_o),
      omega (arith, ins_other),
      omega (arith, outs_other),
    )
