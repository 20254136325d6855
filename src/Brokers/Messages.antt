-- ===== src/Brokers/Messages.antt =====
-- transports_broker.go: what the adapters do with the messages that the brokers deliver: the calls of the handler,
-- and the acknowledgements.
use ubi_quic_e_xtreme_zero_t.Prelude.{
  if◌then◌else◌, teq, Text, text, Result, ok, err, ℕ, suc, Bool, true, false, not, ◌&&◌, Option,
  none, some, List, [], ◌∷◌,
}
use ubi_quic_e_xtreme_zero_t.Envelope.{Envelope, Blob, decode_envelope}
use ubi_quic_e_xtreme_zero_t.Secure.{Handler}

-- What the adapter tells the broker of a message.
pub data Settlement : Type 0 where
  untold acked : Settlement
  nacked : (requeue : Bool) → Settlement

-- `if err == nil { ack }`
abbrev pub ack_if : Bool → Result (Unit {0}) → Settlement
ack_if able (err x) = untold
ack_if able (ok u) = if able then acked else untold

abbrev ack_or_requeue : Result (Unit {0}) → Settlement
ack_or_requeue (err x) = nacked true
ack_or_requeue (ok u) = acked

-- Kafka and Redis Streams leave the choice of the events to the adapter.
abbrev pub is_other : Text → Envelope → Bool
is_other event env = not (teq event (text "*")) && not (teq env.event event)

abbrev pub noted : {A : Type 0} → A → Settlement → List A → List A
noted a untold acks = acks
noted a acked acks = a ∷ acks
noted a (nacked requeue) acks = acks

module _ {W : Type 0} where
  abbrev with_ack : (Result (Unit {0}) → Settlement) → Result (Unit {0}) × W → Settlement × W
  with_ack f r = (f r.0, r.1)

  abbrev pub nats_round : Bool → Handler W → Result Envelope → W → Settlement × W
  nats_round jet_stream h (err x) w = (untold, w)
  nats_round jet_stream h (ok env) w = with_ack (ack_if jet_stream) (h env w)

  -- The callback of NATS.
  unfoldable pub on_nats : Bool → Handler W → Blob → W → Settlement × W
  unfolding decode_envelope
  on_nats jet_stream h b w = nats_round jet_stream h (decode_envelope b) w

  abbrev pub filtered_round : Text → Handler W → Result Envelope → W → Settlement × W
  filtered_round event h (err x) w = (untold, w)
  filtered_round event h (ok env) w =
      if is_other event env then (acked, w) else with_ack (ack_if true) (h env w)

  -- A round of the loops of Kafka and of Redis Streams.
  unfoldable pub on_filtered : Text → Handler W → Blob → W → Settlement × W
  unfolding decode_envelope teq
  on_filtered event h b w = filtered_round event h (decode_envelope b) w

  abbrev pub rabbit_round : Handler W → Result Envelope → W → Settlement × W
  rabbit_round h (err x) w = (nacked false, w)
  rabbit_round h (ok env) w = with_ack ack_or_requeue (h env w)

  -- A round of the loop of RabbitMQ.
  unfoldable pub on_rabbit : Handler W → Blob → W → Settlement × W
  unfolding decode_envelope
  on_rabbit h b w = rabbit_round h (decode_envelope b) w

  abbrev pub mqtt_round : Handler W → Result Envelope → W → W
  mqtt_round h (err x) w = w
  mqtt_round h (ok env) w = (h env w).1

  -- The callback of MQTT: the error of the handler is dropped.
  unfoldable pub on_mqtt : Handler W → Blob → W → W
  unfolding decode_envelope
  on_mqtt h b w = mqtt_round h (decode_envelope b) w

  -- The loop of Kafka over the messages from an offset on: the offsets that it commits, in order.
  unfoldable pub kafka_loop : Text → Handler W → ℕ → List Blob → W → List ℕ × W
  unfolding on_filtered
  kafka_loop event h offset [] w = ([], w)
  kafka_loop event h offset (b ∷ bs) w =
      let r = on_filtered event h b w in
      let rest = kafka_loop event h (suc offset) bs r.1 in (noted offset r.0 rest.0, rest.1)

  -- The loop of Redis Streams over one batch: the messages that have an envelope, by their ids.
  unfoldable pub redis_loop : Text → Handler W → List (Text × Option Blob) → W → List Text × W
  unfolding on_filtered
  redis_loop event h [] w = ([], w)
  redis_loop event h ((id, none) ∷ ms) w = redis_loop event h ms w
  redis_loop event h ((id, some b) ∷ ms) w =
      let r = on_filtered event h b w in
      let rest = redis_loop event h ms r.1 in (noted id r.0 rest.0, rest.1)
