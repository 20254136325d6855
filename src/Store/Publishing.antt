-- ===== src/Store/Publishing.antt =====
-- Publish: one event for each idempotency key, however often it is published.
use ubi_quic_e_xtreme_zero_t.Prelude.{
  if◌then◌else◌, Option-cases, find_where, any_where, teq_refl, result_cases, ok, ℕ, ◌≡◌, ◌⊎◌, inl,
  inr, Bool, true, false, some, List, [], ◌∷◌, ◌++◌, arith,
}
use ubi_quic_e_xtreme_zero_t.Prelude.Tables.{find_where-append, find_where-none, any_where_of_find}
use ubi_quic_e_xtreme_zero_t.Sql.{World, statement}
use ubi_quic_e_xtreme_zero_t.Json.{json_compact}
use ubi_quic_e_xtreme_zero_t.Envelope.{Envelope, Blob, marshal, unmarshal, validate}
use ubi_quic_e_xtreme_zero_t.Store.Rows.{
  Db, EventRow, new_event, insert_event, select_envelope, insert_history,
}
use ubi_quic_e_xtreme_zero_t.Store.{publish}
use ubi_quic_e_xtreme_zero_t.Store.Invariant.{IsConsistent, id_is, key_is}
use ubi_quic_e_xtreme_zero_t.Store.Run.{Op, publishes, step, run}
use ubi_quic_e_xtreme_zero_t.Store.Run.Rules.{step-invariant}
use ubi_quic_e_xtreme_zero_t.Store.Consistency.{IsConsistent-invariant}
use ubi_quic_e_xtreme_zero_t.Store.Lifecycle.Laws.{find_key-run, Moves-Follows}

-- What a success of Publish means: a new event under a key and an id that no event had, or the event that
-- the key already has, and then no event is touched.
abbrev pub PublishCases : Envelope → ℕ → Db → Envelope → Bool → Db → Type 0
PublishCases env now d e created d' =
    ((created ≡ true)
      × (e ≡ env)
      × (any_where (key_is env.idempotency_key) d.events ≡ false)
      × (any_where (id_is env.id) d.events ≡ false)
      × (raw : Blob) × (marshal env ≡ ok raw)
      × (d'.events ≡ d.events ++ new_event env raw now ∷ []))
    ⊎ ((created ≡ false)
        × (d'.events ≡ d.events)
        × (r : EventRow) × (find_where (key_is env.idempotency_key) d.events ≡ some r)
        × (unmarshal r.envelope ≡ ok e))

pub publish_ok :
    (env : Envelope) (now : ℕ) (w : World Db) (e : Envelope) (created : Bool)
    → (publish env now w).0 ≡ ok (e, created)
    → (validate env ≡ ok tt) × PublishCases env now w.db e created (publish env now w).1.db
unfolding publish statement insert_event select_envelope insert_history
publish_ok env now w e created h = elim (result_cases (marshal env)) [
  | inr (x, q) ↦ absurd (ground arith)
  | inl (raw, q) ↦ elim (Option-cases (find_where (key_is env.idempotency_key) w.db.events)) [
    | inl n ↦
        let free = find_where-none (key_is env.idempotency_key) w.db.events n in
        (ground arith, inl (ground arith, ground arith, free, ground arith, raw, q, ground arith))
    | inr (r, s) ↦
        let taken = any_where_of_find (key_is env.idempotency_key) w.db.events r s in
        (ground arith, inr (ground arith, ground arith, r, s, ground arith))
  ]
]

-- The envelope that a key's event holds after a success of Publish.
abbrev kept : Envelope → Bool → Envelope
kept e created = if created then record e { payload = json_compact e.payload } else e

published_row :
    (env : Envelope) (now : ℕ) (w : World Db) (e : Envelope) (created : Bool)
    → (publish env now w).0 ≡ ok (e, created)
    → (r : EventRow) × (find_where (key_is env.idempotency_key) (publish env now w).1.db.events
        ≡ some r)
      × (unmarshal r.envelope ≡ ok (kept e created))
unfolding new_event marshal unmarshal
published_row env now w e created h = elim (publish_ok env now w e created h).1 [
  | inl (c, q, free, fresh, raw, made, rows) ↦ (
    new_event env raw now,
    ground (
      arith,
      rows,
      find_where-append (key_is env.idempotency_key) w.db.events (new_event env raw now) free
          (teq_refl env.idempotency_key),
    ),
    ground arith,
  )
  | inr (c, rows, r, found, u) ↦ (r, ground arith, ground arith)
]

publish-IsConsistent :
    (env : Envelope) (now : ℕ) (w : World Db)
    → IsConsistent w.db
    → IsConsistent (publish env now w).1.db
unfolding step
publish-IsConsistent env now w = step-invariant IsConsistent-invariant w (now, publishes env)

-- Publishing is idempotent in the key: once a publication has succeeded, every later one with the same
-- idempotency key that succeeds, whatever else it carries and whatever happened in between, creates
-- nothing, touches no event and returns the envelope that was stored first.
pub publish_again :
    (env other : Envelope) (now later : ℕ) (w : World Db) (cs : List (ℕ × Op)) (e g : Envelope)
    (created again : Bool)
    → IsConsistent w.db
    → (publish env now w).0 ≡ ok (e, created)
    → other.idempotency_key ≡ env.idempotency_key
    → (publish other later (run (publish env now w).1 cs)).0 ≡ ok (g, again)
    → (again ≡ false)
      × (g ≡ (if created then record e { payload = json_compact e.payload } else e))
      × ((publish other later (run (publish env now w).1 cs)).1.db.events
          ≡ (run (publish env now w).1 cs).db.events)
publish_again env other now later w cs e g created again v p k q =
    let (r, here, u) = published_row env now w e created p in
    let w' = (publish env now w).1 in
    let (s, found, m) =
      find_key-run w' cs env.idempotency_key r (publish-IsConsistent env now w v) here in
    let f = Moves-Follows m in
    let taken = any_where_of_find (key_is env.idempotency_key) (run w' cs).db.events s found in
    elim (publish_ok other later (run w' cs) g again q).1 [
      | inl (c, d, free, fresh, raw, made, rows) ↦ absurd (ground arith)
      | inr (c, rows, t, found', u') ↦ (c, ground (arith, f.envelope), rows)
    ]
