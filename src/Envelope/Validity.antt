-- ===== src/Envelope/Validity.antt =====
-- Which envelopes Validate accepts, and what the codec keeps of them.
use ubi_quic_e_xtreme_zero_t.Prelude.{
  leb, length, Text, result_cases, ok, ◌≡◌, refl, ap, ◌≢◌, ◌↔◌, inl, inr, true, false, [], ◌∷◌,
  arith,
}
use ubi_quic_e_xtreme_zero_t.Json.{json_valid, json_compact}
use ubi_quic_e_xtreme_zero_t.Json.Compacting.{json_valid-json_compact}
use ubi_quic_e_xtreme_zero_t.Event.{EventState, event_state, split, last, read_state}
use ubi_quic_e_xtreme_zero_t.Event.Pattern.{all_segments, matches_canonical-split}
use ubi_quic_e_xtreme_zero_t.Envelope.{
  Envelope, Blob, encoded, is_empty, known_guarantee, validate, encode_envelope, decode_envelope,
  marshal, unmarshal,
}

pub is_empty_iff : (t : Text) → (is_empty t ≡ true) ↔ (t ≡ [])
unfolding is_empty
is_empty_iff [] = ground arith
is_empty_iff (c ∷ cs) = ground arith

-- What an envelope must be, field by field.
pub record IsValid (e : Envelope) : Type 0 where
  pub id : e.id ≢ []
  pub idempotency_key : e.idempotency_key ≢ []
  pub schema_id : e.schema_id ≢ []
  pub correlation_id : e.correlation_id ≢ []
  pub segments : all_segments (split e.event) ≡ true
  pub three : leb 3 (length (split e.event)) ≡ true
  pub state : (s : EventState) × (read_state (last (split e.event)) ≡ ok s)
  pub guarantee : known_guarantee e.guarantee ≡ true
  pub payload : json_valid e.payload ≡ true
  pub some_payload : e.payload ≢ []

-- An event name has a state exactly when its parts are at least three segments and the last of them is
-- one of the three words.
pub event_state_iff :
    (event : Text) (s : EventState)
    → (event_state event ≡ ok s) ↔ (
        (all_segments (split event) ≡ true)
        × (leb 3 (length (split event)) ≡ true)
        × (read_state (last (split event)) ≡ ok s))
unfolding event_state
event_state_iff event s = ground (arith, matches_canonical-split event)

validate→IsValid : (e : Envelope) → validate e ≡ ok tt → IsValid e
unfolding validate
validate→IsValid e h = elim (result_cases (event_state e.event)) [
  | inl (s, q) ↦
      let parts = (event_state_iff e.event s).0 q in
      record {
        id = λ p. ground (arith, is_empty_iff e.id);
        idempotency_key = λ p. ground (arith, is_empty_iff e.idempotency_key);
        schema_id = λ p. ground (arith, is_empty_iff e.schema_id);
        correlation_id = λ p. ground (arith, is_empty_iff e.correlation_id);
        segments = parts.0;
        three = parts.1;
        state = (s, parts.2);
        guarantee = ground arith;
        payload = ground arith;
        some_payload = λ p. ground (arith, is_empty_iff e.payload);
      }
  | inr (x, q) ↦ absurd (ground arith)
]

IsValid→validate : (e : Envelope) → IsValid e → validate e ≡ ok tt
unfolding validate
IsValid→validate e v =
    let (s, q) = v.state in
    ground (
      arith,
      (event_state_iff e.event s).1 (v.segments, v.three, q),
      is_empty_iff e.id,
      is_empty_iff e.idempotency_key,
      is_empty_iff e.schema_id,
      is_empty_iff e.correlation_id,
      is_empty_iff e.payload,
      v.id,
      v.idempotency_key,
      v.schema_id,
      v.correlation_id,
      v.guarantee,
      v.payload,
      v.some_payload,
    )

-- Validate accepts an envelope exactly when it is valid in every field: the four identifiers are there,
-- the event is canonical and ends in a state, the guarantee is a known one and the payload is JSON.
pub validate_iff : (e : Envelope) → (validate e ≡ ok tt) ↔ IsValid e
validate_iff e = (validate→IsValid e, IsValid→validate e)

-- The envelope behind the codec: its payload in the compact form in which Marshal writes it.
abbrev pub as_sent : Envelope → Envelope
as_sent e = record e { payload = json_compact e.payload }

json_valid-nil : json_valid [] ≡ false
unfolding json_valid
json_valid-nil = refl

as_sent-IsValid : (e : Envelope) → IsValid e → IsValid (as_sent e)
as_sent-IsValid e v = record {
  id = v.id;
  idempotency_key = v.idempotency_key;
  schema_id = v.schema_id;
  correlation_id = v.correlation_id;
  segments = v.segments;
  three = v.three;
  state = v.state;
  guarantee = v.guarantee;
  payload = compact_valid;
  some_payload = λ p. ground (arith, compact_valid, json_valid-nil, ap json_valid p);
}
  where
    compact_valid : json_valid (json_compact e.payload) ≡ true
    compact_valid = json_valid-json_compact e.payload v.payload

pub encode-decode :
    (e : Envelope)
    → validate e ≡ ok tt
    → (b : Blob) × (encode_envelope e ≡ ok b) × (decode_envelope b ≡ ok (as_sent e))
unfolding encode_envelope decode_envelope marshal unmarshal
encode-decode e q =
    let v = (validate_iff e).0 q in
    let again = (validate_iff (as_sent e)).1 (as_sent-IsValid e v) in
    (
      encoded (as_sent e),
      rw (encode_envelope, q, marshal, v.payload) refl,
      rw (decode_envelope, again) refl,
    )

pub encoded_valid : (e : Envelope) (b : Blob) → encode_envelope e ≡ ok b → validate e ≡ ok tt
unfolding encode_envelope
encoded_valid e b h = elim (result_cases (validate e)) [
  | inl (u, q) ↦ q
  | inr (x, q) ↦ absurd (ground (arith, h, q))
]
