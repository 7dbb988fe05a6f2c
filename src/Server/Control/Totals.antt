-- ===== src/Server/Control/Totals.antt =====
-- What `readMetaStream` adds to the bytes that the database holds for a client.
use proxywi.Common.{
  ℕ, ◌+◌, ◌≡◌, refl, inl, inr, List, [], ◌∷◌, arith, ◌==◌, if◌then◌else◌, ==_iff, Bool-cases, Bytes,
}
use proxywi.Storage.Rows.{Db, MetricSample}
use proxywi.Storage.Clients.{mark_client_seen}
use proxywi.Storage.Metrics.{add_metric_sample, upsert, minute_of}
use proxywi.Server.Registry.{Agent}
use proxywi.Server.State.{Server, unix}
use proxywi.Server.Control.Meta.{
  MetaStep, received, ticked, is_metrics, on_event, meta_step, read_meta_stream,
}

module _ (of : MetricSample → ℕ) where
  -- What the samples of a client hold.
  abbrev pub held : ℕ → List MetricSample → ℕ
  held id [] = 0
  held id (m ∷ samples) = (if m.client_id == id then of m else 0) + held id samples

abbrev pub in_of : MetricSample → ℕ
in_of m = m.bytes_in

abbrev pub out_of : MetricSample → ℕ
out_of m = m.bytes_out

-- The bytes in and out that the database holds for a client.
abbrev pub stored : ℕ → Db → ℕ × ℕ
stored id db = (held in_of id db.metric_samples, held out_of id db.metric_samples)

held-upsert :
    (id : ℕ) (n : MetricSample) (samples : List MetricSample)
    → (held in_of id (upsert n samples)
        ≡ (if n.client_id == id then n.bytes_in else 0) + held in_of id samples)
      × (held out_of id (upsert n samples)
          ≡ (if n.client_id == id then n.bytes_out else 0) + held out_of id samples)
unfolding upsert
held-upsert id n [] = (refl, refl)
held-upsert id n (m ∷ samples) =
    ground (arith, held-upsert id n samples, ==_iff m.client_id n.client_id)

abbrev pub step_bytes : MetaStep → ℕ × ℕ
step_bytes ticked = (0, 0)
step_bytes (received m) = if is_metrics m then (m.bytes_in, m.bytes_out) else (0, 0)

-- The bytes of the messages that are metrics.
abbrev pub metric_bytes : List (ℕ × MetaStep) → ℕ × ℕ
metric_bytes [] = (0, 0)
metric_bytes ((now, e) ∷ steps) =
    ((step_bytes e).0 + (metric_bytes steps).0, (step_bytes e).1 + (metric_bytes steps).1)

abbrev pub Adds : ℕ → ℕ × ℕ → Db → Db → Type 0
Adds id bytes after db =
    (after.faults ≡ [])
    × ((stored id after).0 ≡ bytes.0 + (stored id db).0)
    × ((stored id after).1 ≡ bytes.1 + (stored id db).1)

seen-Adds :
    (id seen_id : ℕ) (version : Bytes) (now : ℕ) (db : Db)
    → db.faults ≡ []
    → Adds id (0, 0) (mark_client_seen seen_id version now db).1 db
unfolding mark_client_seen
seen-Adds id seen_id version now db h = ground arith

sampled :
    (client now bytes_in bytes_out conns : ℕ) (db : Db)
    → db.faults ≡ []
    → (add_metric_sample client now bytes_in bytes_out conns db).1 ≡ record db {
      metric_samples =
          upsert
            (record {
              client_id = client;
              bucket_ts = minute_of now;
              bytes_in = bytes_in;
              bytes_out = bytes_out;
              active_conns = conns;
            })
            db.metric_samples;
    }
unfolding add_metric_sample
sampled client now bytes_in bytes_out conns db h = ground arith

-- What counts for the client of an id.
abbrev pub for_client : ℕ → ℕ → ℕ × ℕ → ℕ × ℕ
for_client client id bytes = if client == id then bytes else (0, 0)

sample-Adds :
    (id client now bytes_in bytes_out conns : ℕ) (db : Db)
    → db.faults ≡ []
    → Adds id
        (for_client client id (bytes_in, bytes_out))
        (add_metric_sample client now bytes_in bytes_out conns db).1
        db
sample-Adds id client now bytes_in bytes_out conns db h =
    let n : MetricSample = record {
      client_id = client;
      bucket_ts = minute_of now;
      bytes_in = bytes_in;
      bytes_out = bytes_out;
      active_conns = conns;
    } in
    let (ins, outs) = held-upsert id n db.metric_samples in
    elim (Bool-cases (client == id)) [
      | inl e ↦
          rw (sampled client now bytes_in bytes_out conns db h, e) (h, rw e at ins, rw e at outs)
      | inr e ↦
          rw (sampled client now bytes_in bytes_out conns db h, e) (h, rw e at ins, rw e at outs)
    ]

step-Adds :
    (a : Agent) (id now : ℕ) (e : MetaStep) (s : Server)
    → s.db.faults ≡ []
    → Adds id (for_client a.id id (step_bytes e)) (meta_step a e now s).db s.db
unfolding meta_step on_event
step-Adds a id now ticked s h = elim (Bool-cases (a.id == id)) [
  | inl e ↦ rw e (seen-Adds id a.id a.agent_version (unix now) s.db h)
  | inr e ↦ rw e (seen-Adds id a.id a.agent_version (unix now) s.db h)
]
step-Adds a id now (received m) s h = elim (Bool-cases (is_metrics m)) [
  | inl e ↦
      rw (on_event, e) (sample-Adds id a.id (unix now) m.bytes_in m.bytes_out m.active_conns s.db h)
  | inr e ↦ elim (Bool-cases (a.id == id)) [
    | inl f ↦ rw (on_event, e, f) (h, omega arith, omega arith)
    | inr f ↦ rw (on_event, e, f) (h, omega arith, omega arith)
  ]
]

pub stream-Adds :
    (a : Agent) (id : ℕ) (steps : List (ℕ × MetaStep)) (s : Server)
    → s.db.faults ≡ []
    → Adds id (for_client a.id id (metric_bytes steps)) (read_meta_stream a steps s).db s.db
unfolding read_meta_stream
stream-Adds a id [] s h = elim (Bool-cases (a.id == id)) [
  | inl e ↦ rw e (h, omega arith, omega arith)
  | inr e ↦ rw e (h, omega arith, omega arith)
]
stream-Adds a id ((now, e) ∷ steps) s h =
    let (fine, ins, outs) = step-Adds a id now e s h in
    let (fine', ins', outs') = stream-Adds a id steps (meta_step a e now s) fine in
    elim (Bool-cases (a.id == id)) [
      | inl q ↦
          let i = rw q at ins in
          let i' = rw q at ins' in
          let o = rw q at outs in
          let o' = rw q at outs' in rw q (fine', omega (arith, i, i'), omega (arith, o, o'))
      | inr q ↦
          let i = rw q at ins in
          let i' = rw q at ins' in
          let o = rw q at outs in
          let o' = rw q at outs' in rw q (fine', omega (arith, i, i'), omega (arith, o, o'))
    ]
