-- ===== src/Tests.antt =====
-- Fixtures of the tests and of the instances of the theorems at concrete inputs.
mod Store
mod Transport
mod Shard
mod Dpop
mod Crypto
mod Secure
mod Network
mod Server
mod Cluster
mod ShardSql
use ubi_quic_e_xtreme_zero_t.Prelude.{Text, text, pos, ℕ, none, []}
use ubi_quic_e_xtreme_zero_t.Envelope.{
  Envelope, guarantee_processed, ControlFrame, ControlKind, ClaimedEvent, leased,
}

-- testEnvelope of core_test.go
abbrev pub test_envelope : Text → Text → Envelope
test_envelope id key = record {
  id = id;
  event = text "Financial.createInvoice.request";
  correlation_id = text "corr-1";
  causation_id = text "cause-1";
  idempotency_key = key;
  schema_id = text "Financial.createInvoice.request@1";
  payload = text "{\"invoice\":\"A-1\"}";
  guarantee = guarantee_processed;
  created_at_ms = pos 5;
  security = none;
}

abbrev pub first_event : Envelope
first_event = test_envelope (text "evt-1") (text "idem-1")

abbrev pub worker_a : Text
worker_a = text "worker-a"

abbrev pub worker_b : Text
worker_b = text "worker-b"

abbrev pub test_frame : ControlKind → Text → ℕ → ControlFrame
test_frame kind worker token = record {
  kind = kind;
  event_id = text "evt-1";
  worker_id = worker;
  fencing_token = token;
  at_ms = pos 200;
  evidence = [];
}

abbrev pub test_claim : Text → ℕ → ℕ → ClaimedEvent
test_claim worker until token = record {
  envelope = first_event;
  lease = record {
    event_id = text "evt-1";
    worker_id = worker;
    until_ms = until;
    attempt = token;
    fencing_token = token;
  };
  state = leased;
}
