-- ===== src/Envelope.antt =====
-- model.go: envelopes, leases and control frames, with their checks. Bytes that hold an envelope as JSON
-- are represented by the envelope that json.Unmarshal makes of them.
pub mod Validity
use ubi_quic_e_xtreme_zero_t.Prelude.{
  ltb, ◌==◌, if◌then◌else◌, Text, required_fields, invalid_guarantee, invalid_payload,
  malformed_json, invalid_control_kind, required_control_fields, Result, ok, err, ℤ, ℕ, Bool, true,
  false, not, ◌||◌, Option, none, [], ◌∷◌,
}
use ubi_quic_e_xtreme_zero_t.Json.{json_valid, json_compact}
use ubi_quic_e_xtreme_zero_t.Event.{EventState, event_state}

pub data DeliveryGuarantee : Type 0 where
  guarantee_best_effort guarantee_received guarantee_processed : DeliveryGuarantee
  other_guarantee : Text → DeliveryGuarantee

pub data DeliveryState : Type 0 where
  published leased received settled_ok settled_error expired : DeliveryState

pub record HybridSignature : Type 0 where
  pub ed25519 : Text
  pub mldsa44 : Text

pub record ProofOfPossession : Type 0 where
  pub holder : Text
  pub created_at_ms : ℤ
  pub nonce : Text
  pub method : Text
  pub target : Text
  pub envelope_hash : Text
  pub signature : HybridSignature

pub record MessageSecurity : Type 0 where
  pub key_id : Text
  pub proof : ProofOfPossession

pub record Envelope : Type 0 where
  pub id : Text
  pub event : Text
  pub correlation_id : Text
  pub causation_id : Text
  pub idempotency_key : Text
  pub schema_id : Text
  pub payload : Text
  pub guarantee : DeliveryGuarantee
  pub created_at_ms : ℤ
  pub security : Option MessageSecurity

-- `s == ""`
unfoldable pub is_empty : Text → Bool
is_empty [] = true
is_empty (c ∷ cs) = false

pub known_guarantee : DeliveryGuarantee → Bool
known_guarantee (other_guarantee t) = false
known_guarantee guarantee_best_effort = true
known_guarantee guarantee_received = true
known_guarantee guarantee_processed = true

pub lacks_required : Envelope → Bool
unfolding is_empty
lacks_required e =
    is_empty e.id
    || (is_empty e.idempotency_key || (is_empty e.schema_id || is_empty e.correlation_id))

check_payload : Envelope → Result (Unit {0})
unfolding is_empty
check_payload e =
    if is_empty e.payload || not (json_valid e.payload) then err invalid_payload else ok tt

check_guarantee : Envelope → Result (Unit {0})
unfolding known_guarantee check_payload
check_guarantee e = if known_guarantee e.guarantee then check_payload e else err invalid_guarantee

check_event : Result EventState → Envelope → Result (Unit {0})
unfolding check_guarantee
check_event (err x) e = err x
check_event (ok s) e = check_guarantee e

-- Envelope.Validate
unfoldable pub validate : Envelope → Result (Unit {0})
unfolding lacks_required check_event
validate e = if lacks_required e then err required_fields else check_event (event_state e.event) e

pub data Blob : Type 0 where
  encoded : Envelope → Blob
  other_bytes : Text → Blob

unfoldable pub marshal : Envelope → Result Blob
marshal e =
    if json_valid e.payload
    then ok (encoded (record e { payload = json_compact e.payload }))
    else err malformed_json

unfoldable pub unmarshal : Blob → Result Envelope
unmarshal (encoded e) = ok e
unmarshal (other_bytes t) = err malformed_json

-- encodeEnvelope
unfoldable pub encode_envelope : Envelope → Result Blob
unfolding validate marshal
encode_envelope e = elim (validate e) [ err x ↦ err x | ok _ ↦ marshal e ]

-- decodeEnvelope
unfoldable pub decode_envelope : Blob → Result Envelope
unfolding unmarshal validate
decode_envelope b = elim (unmarshal b) [
  | err x ↦ err x
  | ok e ↦ elim (validate e) [ err x ↦ err x | ok _ ↦ ok e ]
]

-- Envelope.CanonicalBytes
unfoldable pub canonical_bytes : Envelope → Result Blob
unfolding validate marshal
canonical_bytes e = elim (validate e) [
  | err x ↦ err x
  | ok _ ↦ marshal (record e { security = none })
]

pub record Lease : Type 0 where
  pub event_id : Text
  pub worker_id : Text
  pub until_ms : ℕ
  pub attempt : ℕ
  pub fencing_token : ℕ

-- Lease.Active
unfoldable pub active : Lease → ℕ → Bool
active l now = ltb now l.until_ms

pub data ControlKind : Type 0 where
  control_received control_settled_ok control_settled_error control_lease_expired : ControlKind
  other_kind : Text → ControlKind

pub record ControlFrame : Type 0 where
  pub kind : ControlKind
  pub event_id : Text
  pub worker_id : Text
  pub fencing_token : ℕ
  pub at_ms : ℤ
  pub evidence : Text

known_kind : ControlKind → Bool
known_kind (other_kind t) = false
known_kind control_received = true
known_kind control_settled_ok = true
known_kind control_settled_error = true
known_kind control_lease_expired = true

-- ControlFrame.Validate
unfoldable pub validate_frame : ControlFrame → Result (Unit {0})
unfolding known_kind is_empty
validate_frame f =
    if known_kind f.kind
    then (if is_empty f.event_id || (is_empty f.worker_id || f.fencing_token == 0)
        then err required_control_fields
        else ok tt)
    else err invalid_control_kind

pub record ClaimedEvent : Type 0 where
  pub envelope : Envelope
  pub lease : Lease
  pub state : DeliveryState
