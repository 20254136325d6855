-- ===== src/Adapter.antt =====
-- generated/go/universal_adapter.go: the types of the universal adapter and its check of a mapping of event names.
use ubi_quic_e_xtreme_zero_t.Prelude.{
  if◌then◌else◌, teq, Text, teq_iff, teq_refl, result_cases, Error, Result, ok, err, ◌≡◌, refl, ap,
  ◌∙◌, ◌↔◌, inl, inr, Bool, Option, none, some, arith,
}

pub data Health : Type 0 where
  healthy degraded unhealthy : Health
  other_health : Text → Health

pub record AdapterEnvelope : Type 0 where
  pub canonical_event : Text
  pub message_id : Text
  pub interaction_id : Text
  pub correlation_id : Text
  pub payload : Text

pub record Delivery : Type 0 where
  pub delivery_id : Text
  pub canonical_event : Text
  pub transport_name : Text

pub record AdapterCapabilities : Type 0 where
  pub reliable : Bool
  pub ordered : Bool
  pub durable : Bool
  pub replay : Bool
  pub request_reply : Bool
  pub pub_sub : Bool

-- UniversalAdapter, over the state `W` of the adapter. An implementation maps between canonical events and the names
-- of its transport.
pub record UniversalAdapter (W : Type 0) : Type 0 where
  pub open_adapter : Text → W → Result (Unit {0}) × W
  pub close_adapter : W → Result (Unit {0}) × W
  pub publish_event : AdapterEnvelope → W → Result (Unit {0}) × W
  pub subscribe :
      Text → (AdapterEnvelope → Delivery → W → Result (Unit {0}) × W) → W → Result (Unit {0}) × W
  pub ack : Delivery → W → Result (Unit {0}) × W
  pub nack : Delivery → Text → W → Result (Unit {0}) × W
  pub health : W → Health
  pub capabilities : AdapterCapabilities
  pub map_canonical_to_transport : Text → Result Text
  pub map_transport_to_canonical : Text → Result Text

-- ErrMappingNotReversible
pub record MappingNotReversible : Type 0 where
  pub canonical : Text
  pub transport : Text
  pub restored : Text

pub data RoundTripError : Type 0 where
  from_adapter : Error → RoundTripError
  not_reversible : MappingNotReversible → RoundTripError

abbrev compare_restored : Text → Text → Result Text → Option RoundTripError
compare_restored canonical mapped (err x) = some (from_adapter x)
compare_restored canonical mapped (ok restored) =
    if teq restored canonical
    then none
    else some
        (not_reversible (record { canonical = canonical; transport = mapped; restored = restored }))

module _ {W : Type 0} (adapter : UniversalAdapter W) where
  abbrev restore_mapped : Text → Result Text → Option RoundTripError
  restore_mapped canonical (err x) = some (from_adapter x)
  restore_mapped canonical (ok mapped) =
      compare_restored canonical mapped (adapter.map_transport_to_canonical mapped)

  -- AssertCanonicalRoundTrip. `none` is a nil error.
  unfoldable pub assert_round_trip : Text → Option RoundTripError
  unfolding teq
  assert_round_trip canonical =
      restore_mapped canonical (adapter.map_canonical_to_transport canonical)

  -- The check passes for an event exactly when the adapter maps it to a name that it maps back to it.
  pub assert_round_trip_iff :
      (canonical : Text)
      → (assert_round_trip canonical ≡ none) ↔ (
          (mapped : Text) × (adapter.map_canonical_to_transport canonical ≡ ok mapped)
          × (adapter.map_transport_to_canonical mapped ≡ ok canonical))
  unfolding assert_round_trip
  assert_round_trip_iff canonical = (forth, back)
    where
      forth :
          assert_round_trip canonical ≡ none
          → (mapped : Text) × (adapter.map_canonical_to_transport canonical ≡ ok mapped)
            × (adapter.map_transport_to_canonical mapped ≡ ok canonical)
      forth h = elim (result_cases (adapter.map_canonical_to_transport canonical)) [
        | inr (x, e) ↦ absurd (ground (arith, h, e))
        | inl (mapped, e) ↦ elim (result_cases (adapter.map_transport_to_canonical mapped)) [
          | inr (x, f) ↦ absurd (ground (arith, h, e, f))
          | inl (restored, f) ↦
              (mapped, e, f ∙ ap ok (ground (arith, h, e, f, teq_iff restored canonical)))
        ]
      ]

      back :
          ((mapped : Text) × (adapter.map_canonical_to_transport canonical ≡ ok mapped)
            × (adapter.map_transport_to_canonical mapped ≡ ok canonical))
          → assert_round_trip canonical ≡ none
      back (mapped, e, f) = rw (e, f, teq_refl canonical) refl
