-- ===== src/Server/Ingesting.antt =====
-- server.go: what ingest does with a new event, and with one that it has already.
use ubi_quic_e_xtreme_zero_t.Prelude.{
  Bool-cases, Text, result_cases, Error, Result, ok, err, ℕ, ◌+◌, ◌≡◌, refl, ap, ◌∙◌, ◌≢◌, ◌⊎◌, inl,
  inr, Bool, true, false, [], ◌∷◌, ◌++◌, arith,
}
use ubi_quic_e_xtreme_zero_t.Sql.{World, statement}
use ubi_quic_e_xtreme_zero_t.Envelope.{Envelope, Blob, marshal, is_empty}
use ubi_quic_e_xtreme_zero_t.Envelope.Validity.{is_empty_iff, validate_iff}
use ubi_quic_e_xtreme_zero_t.Store.Rows.{Db}
use ubi_quic_e_xtreme_zero_t.Store.{publish, enqueue_outbox, insert_outbox, outbox_row, no_bytes}
use ubi_quic_e_xtreme_zero_t.Store.Publishing.{publish_ok}
use ubi_quic_e_xtreme_zero_t.Transport.{IsTransport, Registry, get}
use ubi_quic_e_xtreme_zero_t.Hub.{Hub, publish_hub}
use ubi_quic_e_xtreme_zero_t.Server.{State, ingest, transport_of}

not_empty : (t : Text) → t ≢ [] → is_empty t ≡ false
not_empty t h = ground (arith, is_empty_iff t)

-- An event that the store has just made has an id and a JSON.
created_marshals :
    (env stored : Envelope) (now : ℕ) (w : World Db)
    → (publish env now w).0 ≡ ok (stored, true)
    → (raw : Blob) × (marshal stored ≡ ok raw)
      × (no_bytes raw ≡ false)
      × (is_empty stored.id ≡ false)
unfolding marshal no_bytes
created_marshals env stored now w h =
    let (valid, cases) = publish_ok env now w stored true h in
    elim cases [
      | inl (c, e, k, i, raw, m, d) ↦
          (raw, rw e m, ground (arith, m), rw e (not_empty env.id ((validate_iff env).0 valid).id))
      | inr r ↦ absurd (ground (arith, r.0))
    ]

enqueue_lem :
    (id transport : Text) (raw : Blob) (available : ℕ) (w : World Db)
    → is_empty id ≡ false
    → is_empty transport ≡ false
    → no_bytes raw ≡ false
    → w.faults ≡ []
    → (enqueue_outbox id transport raw available w).1.db.outbox
      ≡ w.db.outbox ++ outbox_row id transport raw available w.db.next_seq ∷ []
unfolding enqueue_outbox statement insert_outbox
enqueue_lem id transport raw available w h k n f = rw (h, k, n, f) refl

abbrev pub shown_to : Hub → Result (Envelope × Bool) → Hub
shown_to h (err x) = h
shown_to h (ok (stored, created)) = publish_hub stored h

module _ {T N : Type 0} (impl : IsTransport T N)
    (send : T → Envelope → N → Result (Unit {0}) × N) where
  -- An event that the store has just made, where its transport is known, is handed to that transport once, and
  -- to the hub. If the transport takes it, ingest returns it; if not, ingest returns the transport's
  -- error and, under a driver that does not fail, the outbox has one more record: of this event, its
  -- transport and its JSON, due a second later.
  pub ingest_created :
      (registry : Registry impl) (default_transport : Text) (env : Envelope) (transport : Text)
      (now later : ℕ) (s : State N) (t : T) (stored : Envelope)
      → (let name = transport_of default_transport transport in
          let w = (publish env now s.world).1 in
          let r = ingest impl send registry default_transport env transport now later s in
          let p = send t stored s.network in
          (publish env now s.world).0 ≡ ok (stored, true)
          → is_empty name ≡ false
          → get impl name registry ≡ ok t
          → w.faults ≡ []
          → (r.1.network ≡ p.1)
            × (r.1.hub ≡ publish_hub stored s.hub)
            × (((p.0 ≡ ok tt) × (r.0 ≡ ok (stored, true)) × (r.1.world ≡ w))
                ⊎ ((x : Error) × (p.0 ≡ err x)
                    × (r.0 ≡ err x)
                    × (raw : Blob) × (marshal stored ≡ ok raw)
                    × (r.1.world.db.outbox
                        ≡ w.db.outbox
                          ++ outbox_row stored.id name raw (later + 1000) w.db.next_seq ∷ []))))
  unfolding ingest
  ingest_created registry default_transport env transport now later s t stored h k g f =
      let (raw, m, n, i) = created_marshals env stored now s.world h in
      elim (result_cases (send t stored s.network).0) [
        | inl (u, q) ↦ rw (h, k, g, q) (refl, refl, inl (refl, refl, refl))
        | inr (x, q) ↦
            rw (h, k, g, q, m)
              (
                refl,
                refl,
                inr (
                  x,
                  refl,
                  refl,
                  raw,
                  refl,
                  enqueue_lem stored.id _ raw (later + 1000) _ i k n f,
                ),
              )
      ]

  -- Where the store makes no new event, since it refuses the envelope or has the event already, ingest returns what
  -- the store returns, hands nothing to a transport and leaves no record in the outbox. The hub gets the
  -- event that the store has already, and nothing that the store refuses.
  pub ingest_known :
      (registry : Registry impl) (default_transport : Text) (env : Envelope) (transport : Text)
      (now later : ℕ) (s : State N)
      → ((stored : Envelope) → (publish env now s.world).0 ≢ ok (stored, true))
      → (let p = publish env now s.world in
          let r = ingest impl send registry default_transport env transport now later s in
          (r.0 ≡ p.0)
          × (r.1.world ≡ p.1)
          × (r.1.network ≡ s.network)
          × (r.1.hub ≡ shown_to s.hub p.0))
  unfolding ingest
  ingest_known registry default_transport env transport now later s old =
      let name = transport_of default_transport transport in
      elim (result_cases (publish env now s.world).0) [
        | inr (x, h) ↦ rw h (refl, refl, refl, refl)
        | inl ((stored, created), h) ↦ elim (Bool-cases created) [
          | inl c ↦ absurd (old stored (h ∙ ap (λ b. ok (stored, b)) c))
          | inr c ↦ elim (Bool-cases (is_empty name)) [
            | inl k ↦ rw (h, c, k) (refl, refl, refl, refl)
            | inr k ↦ rw (h, c, k) (refl, refl, refl, refl)
          ]
        ]
      ]
