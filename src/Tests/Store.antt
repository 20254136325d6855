-- ===== src/Tests/Store.antt =====
-- The control store at concrete inputs: the scenarios of core_test.go, and an instance of each theorem.
use ubi_quic_e_xtreme_zero_t.Prelude.{
  leb, length, All, find_where, any_where, count_where, first_by, update_where, teq, tlt, text,
  Error, nothing_available, worker_required, ok, err, ℤ, pos, negsuc, ℕ, ◌+◌, ◌≡◌, refl, ◌↔◌, ◌⊎◌,
  Bool, true, false, ◌&&◌, none, some, List, [], ◌∷◌,
}
use ubi_quic_e_xtreme_zero_t.Sql.{World, statement, transaction}
use ubi_quic_e_xtreme_zero_t.Json.{json_valid, json_compact}
use ubi_quic_e_xtreme_zero_t.Event.{event_state, matches_canonical, split}
use ubi_quic_e_xtreme_zero_t.Event.Pattern.{all_segments, matches_canonical-split}
use ubi_quic_e_xtreme_zero_t.Envelope.{
  ControlKind, validate_frame, Envelope, encoded, marshal, unmarshal, validate, validate_frame,
  is_empty, control_received, control_settled_ok, control_settled_error, settled_ok, ClaimedEvent,
}
use ubi_quic_e_xtreme_zero_t.Envelope.Validity.{validate_iff, IsValid}
use ubi_quic_e_xtreme_zero_t.Store.Rows.{
  Db, EventRow, OutboxRow, empty_db, older, is_waiting, is_held, is_after, insert_event,
  select_envelope, insert_history, claim_event, update_events, insert_settlement, has_expired,
}
use ubi_quic_e_xtreme_zero_t.Store.{
  publish, claim, mark_received, settle, state_of, requeue_expired, milliseconds, settle_body,
  enqueue_outbox, next_outbox, is_pending, no_bytes,
}
use ubi_quic_e_xtreme_zero_t.Store.Invariant.{IsConsistent, id_is}
use ubi_quic_e_xtreme_zero_t.Store.Run.{
  Op, publishes, claims, receives, settles, requeues, enqueues, step, run,
}
use ubi_quic_e_xtreme_zero_t.Store.Consistency.{run-IsConsistent}
use ubi_quic_e_xtreme_zero_t.Store.Lifecycle.{Evolves, Evolves-run}
use ubi_quic_e_xtreme_zero_t.Store.Lifecycle.Laws.{settled_forever}
use ubi_quic_e_xtreme_zero_t.Store.Claiming.{Claimed, waiting, claim_ok, claim_available}
use ubi_quic_e_xtreme_zero_t.Store.Publishing.{publish_again}
use ubi_quic_e_xtreme_zero_t.Store.Fencing.{stale_worker_fenced}
use ubi_quic_e_xtreme_zero_t.Store.Outcome.{SettleCases, settle_atomic, Holds, settle_iff}
use ubi_quic_e_xtreme_zero_t.Store.Maintenance.{requeue_expired_ok}
use ubi_quic_e_xtreme_zero_t.Tests.{
  first_event, test_envelope, test_frame, test_claim, worker_a, worker_b,
}

abbrev start : World Db
start = record { db = empty_db; faults = [] }

abbrev second : ℤ
second = pos 1000000000

-- One line to unfold in a test of the store.
runs : ℕ
unfolding run step publish claim mark_received settle requeue_expired transaction settle_body
    statement insert_event enqueue_outbox next_outbox no_bytes validate_frame validate event_state
    teq tlt older json_valid json_compact marshal insert_history select_envelope unmarshal
    claim_event first_by update_events update_where insert_settlement state_of is_empty
runs = 0

abbrev opened : List (ℕ × Op)
opened = (100, publishes first_event) ∷ []

abbrev duplicate : Envelope
duplicate = test_envelope (text "evt-duplicate") (text "idem-1")

-- TestDurableSettlementAndIdempotency
abbrev settled_history : List (ℕ × Op)
settled_history =
    (100, publishes first_event)
    ∷ (101, publishes duplicate)
    ∷ (102, claims worker_a second)
    ∷ (103, receives (test_frame control_received worker_a 1))
    ∷ (104, settles (test_frame control_settled_ok worker_a 1))
    ∷ []

durable_settlement : (state_of (text "evt-1") (run start settled_history)).0 ≡ ok settled_ok
unfolding runs
durable_settlement = refl

-- TestLeaseExpirationReassignsWithNewFence
abbrev lapse : List (ℕ × Op)
lapse = (2000, requeues) ∷ []

first_claim : (claim worker_a second 102 (run start opened)).0 ≡ ok (test_claim worker_a 1102 1)
unfolding runs
first_claim = refl

reassigned_claim :
    (claim worker_b second 2001 (run (claim worker_a second 102 (run start opened)).1 lapse)).0
    ≡ ok (test_claim worker_b 3001 2)
unfolding runs
reassigned_claim = refl

no_claim :
    (claim worker_b second 103 (claim worker_a second 102 (run start opened)).1).0
    ≡ err nothing_available
unfolding runs
no_claim = refl

zero_lease : (claim worker_b (negsuc 0) 103 (run start opened)).0 ≡ err worker_required
unfolding runs
zero_lease = refl

opened-IsConsistent : IsConsistent (run start opened).db
opened-IsConsistent = run-IsConsistent [] opened

validate_iff_example : IsValid first_event
unfolding runs
validate_iff_example = (validate_iff first_event).0 refl

run-IsConsistent_example :
    IsConsistent (run (record { db = empty_db; faults = false ∷ true ∷ [] }) settled_history).db
run-IsConsistent_example = run-IsConsistent (false ∷ true ∷ []) settled_history

Evolves-run_example :
    Evolves (run start opened).db.events (run (run start opened) settled_history).db.events
Evolves-run_example = Evolves-run (run start opened) settled_history opened-IsConsistent

abbrev settled_row : EventRow
settled_row = record {
  id = text "evt-1";
  idempotency_key = text "idem-1";
  event_name = text "Financial.createInvoice.request";
  envelope = encoded first_event;
  state = settled_ok;
  owner = none;
  lease_until_ms = none;
  attempt = 1;
  fencing_token = 1;
  created_at_ms = pos 5;
  updated_at_ms = 104;
}

settled_found :
    find_where (id_is (text "evt-1")) (run start settled_history).db.events ≡ some settled_row
unfolding runs
settled_found = refl

settled_forever_example :
    find_where
      (id_is (text "evt-1"))
      (run
        (run start settled_history)
        ((5000, requeues) ∷ (5001, claims worker_b second) ∷ [])).db.events
    ≡ some settled_row
settled_forever_example =
    settled_forever (run start settled_history)
      ((5000, requeues) ∷ (5001, claims worker_b second) ∷ []) (run-IsConsistent [] settled_history)
      (text "evt-1") settled_row settled_found refl

claim_ok_example :
    (v : Claimed worker_a
      (102 + milliseconds second)
      102
      (run start opened).db
      (claim worker_a second 102 (run start opened)).1.db
      (test_claim worker_a 1102 1))
    × All (λ r. is_waiting r.state ≡ true → older r v.row ≡ false) (run start opened).db.events
claim_ok_example =
    claim_ok worker_a second 102 (run start opened) (test_claim worker_a 1102 1) opened-IsConsistent
      first_claim

claim_available_example :
    let r = claim worker_a second 102 (record { db = (run start opened).db; faults = [] }) in
    ((any_where waiting (run start opened).db.events ≡ true) × (c : ClaimedEvent) × (r.0 ≡ ok c))
    ⊎ ((any_where waiting (run start opened).db.events ≡ false)
        × (r.0 ≡ err nothing_available)
        × (r.1.db ≡ (run start opened).db))
claim_available_example =
    claim_available worker_a second 102 (run start opened).db (λ e. cc) refl opened-IsConsistent

stale_worker_fenced_example :
    let z =
      run
        (claim worker_b second 2001 (run (claim worker_a second 102 (run start opened)).1 lapse)).1
        [] in
    ((x : Error) × ((settle (test_frame control_received worker_a 1) 2002 z).0 ≡ err x)
      × ((settle (test_frame control_received worker_a 1) 2002 z).1.db ≡ z.db))
    × ((x : Error) × ((mark_received (test_frame control_received worker_a 1) 2002 z).0 ≡ err x)
        × ((mark_received (test_frame control_received worker_a 1) 2002 z).1.db ≡ z.db))
stale_worker_fenced_example =
    stale_worker_fenced worker_a worker_b second second 102 2001 2002 (run start opened) lapse []
      (test_claim worker_a 1102 1) (test_claim worker_b 3001 2)
      (test_frame control_received worker_a 1) opened-IsConsistent first_claim reassigned_claim refl
      refl refl

settle_atomic_example :
    SettleCases
      (test_frame control_settled_ok worker_a 1)
      104
      (run start opened).db
      (settle (test_frame control_settled_ok worker_a 1) 104 (run start opened)).0
      (settle (test_frame control_settled_ok worker_a 1) 104 (run start opened)).1.db
settle_atomic_example =
    settle_atomic (test_frame control_settled_ok worker_a 1) 104 (run start opened)

abbrev held_history : List (ℕ × Op)
held_history = (100, publishes first_event) ∷ (102, claims worker_a second) ∷ []

settle_iff_example :
    ((settle
        (test_frame control_settled_error worker_a 1)
        104
        (record { db = (run start held_history).db; faults = [] })).0
      ≡ ok tt)
    ↔ (((◌≡◌ {A = ControlKind} control_settled_error control_settled_ok)
          ⊎ (◌≡◌ {A = ControlKind} control_settled_error control_settled_error))
        × (validate_frame (test_frame control_settled_error worker_a 1) ≡ ok tt)
        × (r : EventRow) × (find_where (id_is (text "evt-1")) (run start held_history).db.events
            ≡ some r)
        × Holds (test_frame control_settled_error worker_a 1) 104 r)
settle_iff_example =
    settle_iff (test_frame control_settled_error worker_a 1) 104 (run start held_history).db
      (run-IsConsistent [] held_history)

-- Both sides hold there.
held_settled :
    (settle
      (test_frame control_settled_error worker_a 1)
      104
      (record { db = (run start held_history).db; faults = [] })).0
    ≡ ok tt
unfolding runs
held_settled = refl

first_publish : (publish first_event 100 start).0 ≡ ok (first_event, true)
unfolding runs
first_publish = refl

second_publish :
    (publish duplicate 105 (run (publish first_event 100 start).1 lapse)).0
    ≡ ok (first_event, false)
unfolding runs
second_publish = refl

publish_again_example :
    (◌≡◌ {A = Bool} false false)
    × (first_event ≡ record first_event { payload = json_compact first_event.payload })
    × ((publish duplicate 105 (run (publish first_event 100 start).1 lapse)).1.db.events
        ≡ (run (publish first_event 100 start).1 lapse).db.events)
unfolding run
publish_again_example =
    publish_again first_event duplicate 100 105 start lapse first_event first_event true false
      (run-IsConsistent [] []) first_publish refl second_publish

-- A worker's lease that has run out, and the requeue that frees its event.
requeue_once :
    (requeue_expired 2000
      (run start ((100, publishes first_event) ∷ (102, claims worker_a second) ∷ []))).0
    ≡ ok 1
unfolding runs
requeue_once = refl

abbrev claimed_history : List (ℕ × Op)
claimed_history = (100, publishes first_event) ∷ (102, claims worker_a second) ∷ []

requeue_expired_ok_example :
    let w = run start claimed_history in
    let e = (requeue_expired 2000 w).1.db.events in
    (1 ≡ count_where (has_expired 2000) w.db.events)
    × (count_where (λ r. is_waiting r.state) e
        ≡ count_where (λ r. is_waiting r.state) w.db.events + 1)
    × All (λ r. is_held r.state ≡ true → is_after r.lease_until_ms 2000 ≡ true) e
requeue_expired_ok_example =
    requeue_expired_ok 2000 (run start claimed_history) 1 (run-IsConsistent [] claimed_history)
      requeue_once

abbrev outbox_history : List (ℕ × Op)
outbox_history = (100, enqueues (text "evt-1") (text "nats") (encoded first_event) 50) ∷ []

abbrev outbox_first : OutboxRow
outbox_first = record {
  seq = 1;
  event_id = text "evt-1";
  transport = text "nats";
  payload = encoded first_event;
  attempts = 0;
  available_at_ms = 50;
  delivered_at_ms = none;
}

outbox_next : (next_outbox 60 (run start outbox_history)).0 ≡ ok outbox_first
unfolding runs
outbox_next = refl

outbox_pending : any_where (is_pending 1) (run start outbox_history).db.outbox ≡ true
unfolding runs
outbox_pending = refl

matches_canonical-split_example :
    matches_canonical (text "A.b.ok")
    ≡ (all_segments (split (text "A.b.ok")) && leb 3 (length (split (text "A.b.ok"))))
matches_canonical-split_example = matches_canonical-split (text "A.b.ok")
