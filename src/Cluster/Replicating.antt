-- ===== src/Cluster/Replicating.antt =====
-- cluster_raft.go: the envelope that Replicate publishes for a replica of a shard.
use ubi_quic_e_xtreme_zero_t.Prelude.{
  ltb, if◌then◌else◌, teq, Text, text, Result, ok, err, pos, ℕ, zero, suc, ◌+◌, ◌/◌, ◌%◌, ◌≡◌, refl,
  true, false, none, [], ◌∷◌, ◌++◌,
}
use ubi_quic_e_xtreme_zero_t.Json.{json_valid}
use ubi_quic_e_xtreme_zero_t.Event.{event_state}
use ubi_quic_e_xtreme_zero_t.Envelope.{Envelope, guarantee_processed, validate, is_empty}

pub record ReplicaApply : Type 0 where
  pub shard : ℕ
  pub key : Text
  pub fencing_token : ℕ
  pub payload : Text

digits : ℕ → ℕ → Text
digits zero n = []
digits (suc left) n =
    let before = digits left (n / 10) in (if ltb n 10 then [] else before) ++ (48 + n % 10) ∷ []

-- The verb %d, of a number of 64 bits: 20 digits at most.
unfoldable pub decimal : ℕ → Text
unfolding digits
decimal n = digits 20 n

-- The id, from the time in nanoseconds.
abbrev replica_id : ReplicaApply → ℕ → Text
replica_id apply nano = text "replica-" ++ (decimal nano ++ (text "-" ++ decimal apply.shard))

abbrev pub replica_key : ReplicaApply → Text
replica_key apply =
    text "replica:"
    ++ (decimal apply.shard
        ++ (text ":" ++ (apply.key ++ (text ":" ++ decimal apply.fencing_token))))

-- `raw` is the JSON of the apply.
unfoldable pub replica_envelope : ReplicaApply → Text → Text → ℕ → ℕ → Envelope
unfolding decimal
replica_envelope apply raw correlation nano now = record {
  id = replica_id apply nano;
  event = text "System.Replica.apply.request";
  correlation_id = correlation;
  causation_id = correlation;
  idempotency_key = replica_key apply;
  schema_id = text "System.Replica.apply.request@1";
  payload = raw;
  guarantee = guarantee_processed;
  created_at_ms = pos now;
  security = none;
}

-- Replicate, with the transport's Publish.
unfoldable pub replicate :
    {N : Type 0}
    → (Envelope → N → Result (Unit {0}) × N)
    → ReplicaApply
    → Result Text
    → Text
    → ℕ
    → ℕ
    → N
    → Result (Unit {0}) × N
unfolding replica_envelope
replicate publish apply (err x) correlation nano now n = (err x, n)
replicate publish apply (ok raw) correlation nano now n =
    publish (replica_envelope apply raw correlation nano now) n

-- The envelope of a replica is valid wherever there is a correlation id and its payload is JSON, and its idempotency key
-- does not depend on the time, so that the store keeps one event of any repetitions.
pub replica_envelope-validate :
    (apply : ReplicaApply) (raw correlation : Text) (nano later now : ℕ)
    → is_empty correlation ≡ false
    → is_empty raw ≡ false
    → json_valid raw ≡ true
    → (validate (replica_envelope apply raw correlation nano now) ≡ ok tt)
      × ((replica_envelope apply raw correlation later now).idempotency_key
          ≡ (replica_envelope apply raw correlation nano now).idempotency_key)
unfolding replica_envelope validate event_state is_empty teq
replica_envelope-validate apply raw correlation nano later now c r j = (rw (c, r, j) refl, refl)
