-- ===== src/Tests/Server.antt =====
-- The server over a network that counts, and an instance of each theorem on it.
use ubi_quic_e_xtreme_zero_t.Prelude.{
  All, take, first_by, update_where, teq, Text, text, Error, worker_required, network_error, Result,
  ok, err, pos, ℕ, ◌+◌, ◌*◌, ◌^◌, ◌≤◌, ◌<◌, ◌≡◌, refl, ◌⊎◌, true, false, none, some, List, [], ◌∷◌,
  ◌++◌, arith,
}
use ubi_quic_e_xtreme_zero_t.Json.{json_valid, json_compact}
use ubi_quic_e_xtreme_zero_t.Event.{event_state}
use ubi_quic_e_xtreme_zero_t.Sql.{statement}
use ubi_quic_e_xtreme_zero_t.Envelope.{
  Envelope, Blob, encoded, other_bytes, marshal, unmarshal, validate, is_empty,
}
use ubi_quic_e_xtreme_zero_t.Store.Rows.{
  update_events, empty_db, insert_event, insert_history, select_envelope,
}
use ubi_quic_e_xtreme_zero_t.Store.{
  requeue_expired, publish, enqueue_outbox, insert_outbox, no_bytes, outbox_row, set_delivered,
  milliseconds,
}
use ubi_quic_e_xtreme_zero_t.Store.Run.{Op, run, step, enqueues}
use ubi_quic_e_xtreme_zero_t.Store.Consistency.{run-IsConsistent}
use ubi_quic_e_xtreme_zero_t.Transport.{IsTransport, Registry, get}
use ubi_quic_e_xtreme_zero_t.Hub.{new_hub, subscribe_hub, publish_hub}
use ubi_quic_e_xtreme_zero_t.Hub.Bounded.{
  HubOp, observes, leaves, sends, takes, run_hub, Fitting, publish_each, waiting, run_hub-observed,
}
use ubi_quic_e_xtreme_zero_t.Server.{State, failed, ingest, tick, chosen_lease, handle_claim}
use ubi_quic_e_xtreme_zero_t.Server.Ingesting.{ingest_created, ingest_known, shown_to}
use ubi_quic_e_xtreme_zero_t.Server.Ticking.{Drained, tick_outbox}
use ubi_quic_e_xtreme_zero_t.Server.Leasing.{handle_claim-bounds}
use ubi_quic_e_xtreme_zero_t.Brokers.{memory_capabilities}
use ubi_quic_e_xtreme_zero_t.Tests.{first_event, worker_a}

-- Transports are their names. The network counts the envelopes.
abbrev named_only : IsTransport Text ℕ
named_only = record {
  name_of = λ t. t;
  capabilities_of = λ t. memory_capabilities;
  close = λ t n. (none, n);
}

abbrev takes_all : Text → Envelope → ℕ → Result (Unit {0}) × ℕ
takes_all t env n = (ok tt, n + 1)

abbrev takes_none : Text → Envelope → ℕ → Result (Unit {0}) × ℕ
takes_none t env n = (err network_error, n)

abbrev registry : Registry named_only
registry = (text "nats", text "nats") ∷ []

abbrev empty_state : State ℕ
empty_state = record { world = record { db = empty_db; faults = [] }; hub = new_hub; network = 0 }

abbrev nats : Text
nats = text "nats"

-- One line to unfold in a test of the server.
runs : ℕ
unfolding run step publish validate marshal unmarshal event_state json_valid json_compact is_empty
    teq statement insert_event insert_history select_envelope enqueue_outbox insert_outbox no_bytes
    get first_by
runs = 0

created : (publish first_event 100 empty_state.world).0 ≡ ok (first_event, true)
unfolding runs
created = refl

no_faults : (publish first_event 100 empty_state.world).1.faults ≡ []
unfolding runs
no_faults = refl

nats_registered : get named_only nats registry ≡ ok nats
unfolding runs
nats_registered = refl

ingest_created_example :
    (let w = (publish first_event 100 empty_state.world).1 in
      let r = ingest named_only takes_none registry nats first_event [] 100 101 empty_state in
      (r.1.network ≡ 0)
      × (r.1.hub ≡ publish_hub first_event new_hub)
      × (((takes_none nats first_event 0).0 ≡ ok tt)
            × (r.0 ≡ ok (first_event, true))
            × (r.1.world ≡ w)
          ⊎ ((x : Error) × ((takes_none nats first_event 0).0 ≡ err x)
              × (r.0 ≡ err x)
              × (raw : Blob) × (marshal first_event ≡ ok raw)
              × (r.1.world.db.outbox
                  ≡ w.db.outbox ++ outbox_row (text "evt-1") nats raw 1101 w.db.next_seq ∷ []))))
unfolding is_empty
ingest_created_example =
    ingest_created named_only takes_none registry nats first_event [] 100 101 empty_state nats
      first_event created refl nats_registered no_faults

abbrev with_first : State ℕ
with_first = record empty_state { world = (publish first_event 100 empty_state.world).1 }

again : (publish first_event 200 with_first.world).0 ≡ ok (first_event, false)
unfolding runs
again = refl

ingest_known_example :
    (let p = publish first_event 200 with_first.world in
      let r = ingest named_only takes_all registry nats first_event [] 200 201 with_first in
      (r.0 ≡ p.0) × (r.1.world ≡ p.1) × (r.1.network ≡ 0) × (r.1.hub ≡ shown_to new_hub p.0))
ingest_known_example =
    ingest_known named_only takes_all registry nats first_event [] 200 201 with_first
      (λ stored e. ground (arith, again, e))

-- Two records, of which the first has no envelope.
abbrev enqueued : List (ℕ × Op)
enqueued =
    (100, enqueues (text "evt-0") nats (other_bytes (text "x")) 100)
    ∷ (100, enqueues (text "evt-1") nats (encoded first_event) 100)
    ∷ []

abbrev with_outbox : State ℕ
with_outbox = record empty_state { world = run (record { db = empty_db; faults = [] }) enqueued }

outbox_faults : with_outbox.world.faults ≡ []
unfolding runs
outbox_faults = refl

tick_outbox_example :
    ((requeue_expired 200 with_outbox.world).1.db.outbox ≡ with_outbox.world.db.outbox)
    × Drained named_only takes_all registry 64 200
        (record with_outbox { world = (requeue_expired 200 with_outbox.world).1 })
        (tick named_only takes_all registry 200 with_outbox)
tick_outbox_example =
    tick_outbox named_only takes_all registry 200 with_outbox outbox_faults
      (run-IsConsistent [] enqueued)

-- The record that has an envelope is published.
ticked : (tick named_only takes_all registry 200 with_outbox).network ≡ 1
unfolding runs tick update_events set_delivered update_where
ticked = refl

abbrev one_record : List (ℕ × Op)
one_record = (100, enqueues (text "evt-1") nats (encoded first_event) 100) ∷ []

abbrev with_one : State ℕ
with_one = record empty_state { world = run (record { db = empty_db; faults = [] }) one_record }

handle_claim-bounds_example :
    ((9223372036855 * 1000000 < 2 ^ 63)
      × (milliseconds (chosen_lease (pos 5000000000) (some (pos 9223372036855))) ≡ 9223372036855))
    ⊎ ((2 ^ 63 ≤ 9223372036855 * 1000000)
        × (handle_claim (pos 5000000000) worker_a (some (pos 9223372036855)) 200 with_one
            ≡ (failed 409 worker_required, with_one)))
handle_claim-bounds_example =
    handle_claim-bounds (pos 5000000000) worker_a 9223372036855 200 with_one (omega arith)
      (omega arith)

abbrev observed : List HubOp
observed = observes 1 ∷ sends first_event ∷ sends first_event ∷ takes 0 ∷ leaves 0 ∷ []

run_hub-observed_example :
    All Fitting (run_hub new_hub observed).subs
    × (let s = subscribe_hub 1 (run_hub new_hub observed) in
        waiting s.0 (publish_each (first_event ∷ first_event ∷ []) s.1)
        ≡ some (take 1 (first_event ∷ first_event ∷ [])))
run_hub-observed_example = run_hub-observed observed 1 (first_event ∷ first_event ∷ [])
