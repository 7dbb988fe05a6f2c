-- ===== src/Client/Metrics.antt =====
-- internal/client/client.go: the counters of the streams, and `metaLoop`, which reports them.
use proxywi.Common.{
  ℕ, zero, suc, ◌+◌, ◌-◌, ◌≤◌, ◌≡◌, Bool, true, false, List, [], ◌∷◌, arith, if◌then◌else◌, codes,
}
use proxywi.Server.Tunnel.{MetaMessage}

-- Readings of the atomic counters at one tick.
pub record Counters : Type 0 where
  pub bytes_in : ℕ
  pub bytes_out : ℕ
  pub active_conns : ℕ

abbrev pub heartbeat : MetaMessage
heartbeat = record { type = codes "heartbeat"; bytes_in = 0; bytes_out = 0; active_conns = 0 }

-- The message of a tick; the counters only grow, so the differences are no negative numbers.
abbrev pub metrics_message : ℕ → ℕ → Counters → MetaMessage
metrics_message last_in last_out c = record {
  type = codes "metrics";
  bytes_in = c.bytes_in - last_in;
  bytes_out = c.bytes_out - last_out;
  active_conns = c.active_conns;
}

-- The messages of the ticks with these readings, of which the first `writable` can be written.
unfoldable pub ticks : ℕ → ℕ → ℕ → List Counters → List MetaMessage
ticks writable last_in last_out [] = []
ticks zero last_in last_out (c ∷ readings) = []
ticks (suc writable) last_in last_out (c ∷ readings) =
    metrics_message last_in last_out c ∷ ticks writable c.bytes_in c.bytes_out readings

-- The error of the first write is dropped.
unfoldable pub meta_loop : Bool → ℕ → List Counters → List MetaMessage
unfolding ticks
meta_loop greets writable readings =
    if greets then heartbeat ∷ ticks writable 0 0 readings else ticks writable 0 0 readings

abbrev pub sum_in : List MetaMessage → ℕ
sum_in [] = 0
sum_in (m ∷ messages) = m.bytes_in + sum_in messages

abbrev pub sum_out : List MetaMessage → ℕ
sum_out [] = 0
sum_out (m ∷ messages) = m.bytes_out + sum_out messages

-- The counters of one reading after another only grow.
abbrev pub Grows : ℕ → ℕ → List Counters → Type 0
Grows i o [] = Unit
Grows i o (c ∷ readings) =
    (i ≤ c.bytes_in) × (o ≤ c.bytes_out) × Grows c.bytes_in c.bytes_out readings

-- The last reading of which a message was written, or what stood before.
abbrev pub reported : ℕ → ℕ → ℕ → List Counters → ℕ × ℕ
reported writable i o [] = (i, o)
reported zero i o (c ∷ readings) = (i, o)
reported (suc writable) i o (c ∷ readings) = reported writable c.bytes_in c.bytes_out readings

ticks_totals :
    (writable i o : ℕ) (readings : List Counters)
    → Grows i o readings
    → (i + sum_in (ticks writable i o readings) ≡ (reported writable i o readings).0)
      × (o + sum_out (ticks writable i o readings) ≡ (reported writable i o readings).1)
unfolding ticks
ticks_totals writable i o [] g = (omega arith, omega arith)
ticks_totals zero i o (c ∷ readings) g = (omega arith, omega arith)
ticks_totals (suc writable) i o (c ∷ readings) g =
    let (gi, go, rest) = g in
    let (ti, to) = ticks_totals writable c.bytes_in c.bytes_out readings rest in
    (omega (arith, ti), omega (arith, to))

-- Where the counters only grow from one tick to the next, the byte counts of the messages that
-- were written add up to the counters of the last reading that was reported.
pub meta_loop_totals :
    (greets : Bool) (writable : ℕ) (readings : List Counters)
    → Grows 0 0 readings
    → (sum_in (meta_loop greets writable readings) ≡ (reported writable 0 0 readings).0)
      × (sum_out (meta_loop greets writable readings) ≡ (reported writable 0 0 readings).1)
unfolding meta_loop
meta_loop_totals true writable readings g =
    let (ti, to) = ticks_totals writable 0 0 readings g in (omega (arith, ti), omega (arith, to))
meta_loop_totals false writable readings g =
    let (ti, to) = ticks_totals writable 0 0 readings g in (omega (arith, ti), omega (arith, to))
