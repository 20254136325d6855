-- ===== src/Prelude/Errors.antt =====
-- Go's error results: a value, or the error that the function returns in its place.

use mathlib.Core.Path.{◌≡◌, refl}
use mathlib.Core.Logic.{◌⊎◌, inl, inr}

pub data Error : Type 0 where
  -- model.go
  required_fields invalid_canonical_event invalid_event_state invalid_guarantee invalid_payload :
      Error
  malformed_json invalid_control_kind required_control_fields : Error
  -- store.go
  driver_error constraint_error no_rows nothing_available stale_lease invalid_transition : Error
  worker_required invalid_outbox_record not_pending : Error
  -- transport.go and the adapters
  transport_name_required already_registered unknown_transport : Error
  no_durable_stage no_settlement_stage handler_required handler_error : Error
  reliable_required ordering_required durability_required replay_required : Error
  bidirectional_required groups_required streaming_required settlement_required : Error
  not_configured frame_too_large backpressure name_required tls_required network_error path_mismatch
        brokers_required proof_required missing_shard_key :
      Error
  -- crypto.go, dpop.go, secure_transport.go
  key_id_required secret_destroyed crypto_error binding_mismatch not_fresh hash_mismatch replayed :
      Error
  invalid_ed25519 invalid_mldsa ciphertext_short unsigned_envelope untrusted_holder : Error
  incomplete_claims invalid_typ invalid_jwk signature_count ath_mismatch : Error
  -- shard.go
  backend_required duplicate_backend unknown_backend invalid_migration invalid_migration_step :
      Error
  verification_failed after_cutover unsafe_identifier : Error
  -- cluster_raft.go
  not_leader unknown_op invalid_placement not_enough_nodes : Error

pub data Result {ℓ} (A : Type ℓ) : Type ℓ where
  ok : A → Result A
  err : Error → Result A

pub result_cases {ℓ} :
    {A : Type ℓ} (r : Result A) → ((a : A) × (r ≡ ok a)) ⊎ ((x : Error) × (r ≡ err x))
result_cases (ok a) = inl (a, refl)
result_cases (err x) = inr (x, refl)
