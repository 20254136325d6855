-- ===== src/Brokers/Settling.antt =====
-- transports_broker.go: which messages the adapters acknowledge.
use ubi_quic_e_xtreme_zero_t.Prelude.{
  Bool-cases, length, Text, result_cases, Result, ok, err, ℕ, suc, ◌+◌, ◌≡◌, refl, ap, ◌∙◌, ◌≢◌,
  ◌↔◌, ◌⊎◌, inl, inr, Bool, true, false, List, [], ◌∷◌, ◌++◌, arith,
}
use ubi_quic_e_xtreme_zero_t.Envelope.{Envelope, Blob, decode_envelope}
use ubi_quic_e_xtreme_zero_t.Secure.{Handler}
use ubi_quic_e_xtreme_zero_t.Brokers.Messages.{
  Settlement, untold, acked, nacked, is_other, on_nats, on_filtered, on_rabbit, kafka_loop, noted,
  nats_round, filtered_round, rabbit_round,
}

-- The message is an envelope of another event than the subscription's.
abbrev pub Skipped : Text → Result Envelope → Type 0
Skipped event (err x) = ⊥
Skipped event (ok env) = is_other event env ≡ true

-- It does not decode.
abbrev pub Undecoded : Result Envelope → Type 0
Undecoded (err x) = Unit
Undecoded (ok env) = ⊥

noted-append :
    {A : Type 0} (a : A) (s : Settlement) (xs ys : List A)
    → noted a s (xs ++ ys) ≡ noted a s xs ++ ys
noted-append a untold xs ys = refl
noted-append a acked xs ys = refl
noted-append a (nacked requeue) xs ys = refl

module _ {W : Type 0} where
  -- The message decodes to an envelope that the handler accepts.
  abbrev pub Handled : Handler W → Result Envelope → W → Type 0
  Handled h (err x) w = ⊥
  Handled h (ok env) w = (h env w).0 ≡ ok tt

  -- It decodes to an envelope that the handler fails on.
  abbrev pub Failed : Handler W → Result Envelope → W → Type 0
  Failed h (err x) w = ⊥
  Failed h (ok env) w = (h env w).0 ≢ ok tt

  nats_round-acked :
      (jet_stream : Bool) (h : Handler W) (d : Result Envelope) (w : W)
      → ((nats_round jet_stream h d w).0 ≡ acked) ↔ ((jet_stream ≡ true) × Handled h d w)
  nats_round-acked jet_stream h (err x) w = ground arith
  nats_round-acked jet_stream h (ok env) w = elim (result_cases (h env w).0) [
    | inl (u, r) ↦ ground (arith, r)
    | inr (x, r) ↦ ground (arith, r)
  ]

  filtered_round-acked :
      (event : Text) (h : Handler W) (d : Result Envelope) (w : W)
      → ((filtered_round event h d w).0 ≡ acked) ↔ (Handled h d w ⊎ Skipped event d)
  filtered_round-acked event h (err x) w = ground arith
  filtered_round-acked event h (ok env) w = elim (Bool-cases (is_other event env)) [
    | inl o ↦ rw o (λ _. inr refl, λ _. refl)
    | inr o ↦ elim (result_cases (h env w).0) [
      | inl (u, r) ↦ rw o (ground (arith, r))
      | inr (x, r) ↦ rw o (ground (arith, r))
    ]
  ]

  rabbit_round_lem :
      (h : Handler W) (d : Result Envelope) (w : W)
      → (((rabbit_round h d w).0 ≡ acked) ↔ Handled h d w)
        × (((rabbit_round h d w).0 ≡ nacked true) ↔ Failed h d w)
        × (((rabbit_round h d w).0 ≡ nacked false) ↔ Undecoded d)
  rabbit_round_lem h (err x) w = (ground arith, ground arith, (λ _. tt, λ _. refl))
  rabbit_round_lem h (ok env) w = elim (result_cases (h env w).0) [
    | inl (u, r) ↦ ground (arith, r)
    | inr (x, r) ↦ ground (arith, r)
  ]

  -- A message is acknowledged to NATS JetStream and RabbitMQ if and only if it decodes to a valid envelope and
  -- the handler returns no error on it; to plain NATS never; to Kafka and Redis Streams also if the
  -- envelope is of another event than the subscription's. RabbitMQ gets a message back into its queue
  -- if and only if the handler fails on it, and drops it if and only if it does not decode.
  pub acked_iff :
      (jet_stream : Bool) (event : Text) (h : Handler W) (b : Blob) (w : W)
      → (((on_nats jet_stream h b w).0 ≡ acked)
          ↔ ((jet_stream ≡ true) × Handled h (decode_envelope b) w))
        × (((on_filtered event h b w).0 ≡ acked)
            ↔ (Handled h (decode_envelope b) w ⊎ Skipped event (decode_envelope b)))
        × (((on_rabbit h b w).0 ≡ acked) ↔ Handled h (decode_envelope b) w)
        × (((on_rabbit h b w).0 ≡ nacked true) ↔ Failed h (decode_envelope b) w)
        × (((on_rabbit h b w).0 ≡ nacked false) ↔ Undecoded (decode_envelope b))
  unfolding on_nats on_filtered on_rabbit
  acked_iff jet_stream event h b w =
      let d = decode_envelope b in
      let rabbit = rabbit_round_lem h d w in
      (
        nats_round-acked jet_stream h d w,
        filtered_round-acked event h d w,
        rabbit.0,
        rabbit.1,
        rabbit.2,
      )

  -- The state in which the loop of Kafka leaves the program.
  abbrev pub after_loop : Text → Handler W → ℕ → List Blob → W → W
  after_loop event h offset bs w = (kafka_loop event h offset bs w).1

  -- Of any messages that the loop of Kafka reads, where the last one is acknowledged, its offset is committed, as
  -- the last of the commits and whatever happened to the messages before it.
  pub kafka_loop-append :
      (event : Text) (h : Handler W) (offset : ℕ) (bs : List Blob) (b : Blob) (w : W)
      → (on_filtered event h b (after_loop event h offset bs w)).0 ≡ acked
      → (kafka_loop event h offset (bs ++ b ∷ []) w).0
        ≡ (kafka_loop event h offset bs w).0 ++ (offset + length bs) ∷ []
  unfolding kafka_loop
  kafka_loop-append event h offset [] b w e =
      let here : offset ≡ offset + 0 = omega arith in rw (e, kafka_loop) (ap (λ o. o ∷ []) here)
  kafka_loop-append event h offset (c ∷ bs) b w e =
      let r = on_filtered event h c w in
      let count : suc offset + length bs ≡ offset + suc (length bs) = omega arith in
      ap (noted offset r.0) (kafka_loop-append event h (suc offset) bs b r.1 e)
      ∙ noted-append offset r.0 (kafka_loop event h (suc offset) bs r.1).0 _
      ∙ ap (λ o. noted offset r.0 (kafka_loop event h (suc offset) bs r.1).0 ++ o ∷ []) count
