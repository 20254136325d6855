-- ===== src/Store.antt =====
-- store.go: the methods of ControlStore as computations over its database. `now` is the reading of
-- time.Now().UnixMilli() in a method that takes one.
pub mod Rows
pub mod Invariant
pub mod Settling
pub mod Run
pub mod Consistency
pub mod Lifecycle
pub mod Claiming
pub mod Outcome
pub mod Fencing
pub mod Publishing
pub mod Maintenance
use ubi_quic_e_xtreme_zero_t.Prelude.{
  ltb, leb, ◌==◌, if◌then◌else◌, find_where, count_where, first_by, update_where, teq, Text, Error,
  no_rows, nothing_available, stale_lease, invalid_transition, worker_required,
  invalid_outbox_record, not_pending, Result, ok, err, ℤ, pos, pos_part, ltz, ℕ, ◌+◌, ◌/◌, Bool,
  true, false, not, ◌&&◌, ◌||◌, Option, none, some, [], ◌∷◌, ◌++◌,
}
pub use ubi_quic_e_xtreme_zero_t.Sql.{rows_affected, rows_affected_or_zero}
use ubi_quic_e_xtreme_zero_t.Sql.{M, ◌>>=◌, ◌>>◌, pure, raise, lift, ignore, statement, transaction}
use ubi_quic_e_xtreme_zero_t.Envelope.{
  Envelope, Blob, other_bytes, marshal, unmarshal, validate, is_empty, ControlKind,
  control_received, control_settled_ok, control_settled_error, ControlFrame, validate_frame,
  ClaimedEvent, DeliveryState, published, leased, received, settled_ok, settled_error, expired,
}
use Rows.{
  Db, EventRow, OutboxRow, HistoryRow, SettlementRow, insert_event, select_envelope, insert_history,
  claim_event, can_receive, can_settle, has_expired, update_events, insert_settlement, is_none,
}

abbrev no_rows_as : {A : Type 0} → Error → Result A → Result A
no_rows_as e (ok a) = ok a
no_rows_as e (err no_rows) = err e
no_rows_as e (err x) = err x

-- `errors.Is(err, sql.ErrNoRows)`
abbrev pub on_no_rows : {A : Type 0} → Error → M Db A → M Db A
on_no_rows e m w = let r = m w in (no_rows_as e r.0, r.1)

published_entry : Text → ℕ → HistoryRow
published_entry id now = record {
  event_id = id;
  state = published;
  worker_id = none;
  fencing_token = none;
  at_ms = pos now;
  details = none;
}

fetch_existing : Envelope → M Db (Envelope × Bool)
fetch_existing env = do
  raw ← statement (select_envelope env.idempotency_key)
  existing ← lift (unmarshal raw)
  pure (existing, false)

record_published : Envelope → ℕ → M Db (Envelope × Bool)
unfolding published_entry
record_published env now = do
  ignore (statement (insert_history (published_entry env.id now)))
  pure (env, true)

unfoldable pub publish : Envelope → ℕ → M Db (Envelope × Bool)
unfolding fetch_existing record_published
publish env now = do
  lift (validate env)
  raw ← lift (marshal env)
  inserted ← statement (insert_event env raw now)
  n ← rows_affected inserted
  if n == 1 then record_published env now else fetch_existing env

unfoldable pub leased_entry : Envelope → Text → ℕ → ℕ → HistoryRow
leased_entry env worker fencing now = record {
  event_id = env.id;
  state = leased;
  worker_id = some worker;
  fencing_token = some fencing;
  at_ms = pos now;
  details = none;
}

unfoldable pub claimed_event : Envelope → Text → ℕ → EventRow → ClaimedEvent
claimed_event env worker until r = record {
  envelope = env;
  lease = record {
    event_id = env.id;
    worker_id = worker;
    until_ms = until;
    attempt = r.attempt;
    fencing_token = r.fencing_token;
  };
  state = r.state;
}

-- Duration.Milliseconds of a positive duration in nanoseconds.
unfoldable pub milliseconds : ℤ → ℕ
milliseconds lease = pos_part lease / 1000000

claim_row : Text → ℕ → ℕ → M Db ClaimedEvent
unfolding leased_entry claimed_event
claim_row worker until now = do
  r ← on_no_rows nothing_available (statement (claim_event worker until now))
  env ← lift (unmarshal r.envelope)
  ignore (statement (insert_history (leased_entry env worker r.fencing_token now)))
  pure (claimed_event env worker until r)

-- The lease is a time.Duration, in nanoseconds.
unfoldable pub claim : Text → ℤ → ℕ → M Db ClaimedEvent
unfolding claim_row milliseconds
claim worker lease now =
    if is_empty worker || not (ltz (pos 0) lease)
    then raise worker_required
    else claim_row worker (now + milliseconds lease) now

unfoldable pub control_entry : DeliveryState → ControlFrame → HistoryRow
control_entry s f = record {
  event_id = f.event_id;
  state = s;
  worker_id = some f.worker_id;
  fencing_token = some f.fencing_token;
  at_ms = f.at_ms;
  details = some f.evidence;
}

abbrev pub receive_row : ℕ → EventRow → EventRow
receive_row now r = record r { state = received; updated_at_ms = now }

require_one : ℕ → M Db (Unit {0})
require_one n = if n == 1 then pure tt else raise stale_lease

receive_event : ControlFrame → ℕ → M Db (Unit {0})
unfolding control_entry require_one
receive_event f now = do
  changed ← statement (update_events (can_receive f now) (receive_row now))
  n ← rows_affected_or_zero changed
  require_one n
  ignore (statement (insert_history (control_entry received f)))

abbrev is_receipt : ControlKind → Bool
is_receipt control_received = true
is_receipt _ = false

unfoldable pub mark_received : ControlFrame → ℕ → M Db (Unit {0})
unfolding receive_event
mark_received f now =
    if is_receipt f.kind
    then (do lift (validate_frame f); receive_event f now)
    else raise invalid_transition

abbrev settled_state : ControlKind → Option DeliveryState
settled_state control_settled_ok = some settled_ok
settled_state control_settled_error = some settled_error
settled_state _ = none

abbrev pub settle_row : DeliveryState → ℕ → EventRow → EventRow
settle_row target now r = record r {
  state = target;
  owner = none;
  lease_until_ms = none;
  updated_at_ms = now;
}

unfoldable pub settlement : ControlFrame → SettlementRow
settlement f = record {
  event_id = f.event_id;
  kind = f.kind;
  worker_id = f.worker_id;
  fencing_token = f.fencing_token;
  at_ms = f.at_ms;
  evidence = f.evidence;
}

-- The statements of Settle between BeginTx and Commit.
unfoldable pub settle_body : DeliveryState → ControlFrame → ℕ → M Db (Unit {0})
unfolding control_entry require_one settlement
settle_body target f now = do
  changed ← statement (update_events (can_settle f now) (settle_row target now))
  n ← rows_affected_or_zero changed
  require_one n
  statement (insert_settlement (settlement f))
  statement (insert_history (control_entry target f))

settle_to : Option DeliveryState → ControlFrame → ℕ → M Db (Unit {0})
settle_to none f now = raise invalid_transition
settle_to (some target) f now = do lift (validate_frame f); transaction (settle_body target f now)

unfoldable pub settle : ControlFrame → ℕ → M Db (Unit {0})
unfolding settle_to
settle f now = settle_to (settled_state f.kind) f now

abbrev pub expire_row : ℕ → EventRow → EventRow
expire_row now r = record r {
  state = expired;
  owner = none;
  lease_until_ms = none;
  updated_at_ms = now;
}

unfoldable pub requeue_expired : ℕ → M Db ℕ
requeue_expired now = do
  changed ← statement (update_events (has_expired now) (expire_row now))
  rows_affected changed

abbrev state_in : Option EventRow → Result DeliveryState
state_in none = err no_rows
state_in (some r) = ok r.state

-- ControlStore.State
unfoldable pub state_of : Text → M Db DeliveryState
state_of id = statement (λ d. (state_in (find_where (λ r. teq r.id id) d.events), d))

unfoldable pub no_bytes : Blob → Bool
no_bytes (other_bytes t) = is_empty t
no_bytes _ = false

unfoldable pub outbox_row : Text → Text → Blob → ℕ → ℕ → OutboxRow
outbox_row id transport payload available seq = record {
  seq = seq;
  event_id = id;
  transport = transport;
  payload = payload;
  attempts = 0;
  available_at_ms = available;
  delivered_at_ms = none;
}

unfoldable pub insert_outbox : Text → Text → Blob → ℕ → Db → Result (Unit {0}) × Db
unfolding outbox_row
insert_outbox id transport payload available d = (
  ok tt,
  record d {
    outbox = d.outbox ++ outbox_row id transport payload available d.next_seq ∷ [];
    next_seq = d.next_seq + 1;
  },
)

unfoldable pub enqueue_outbox : Text → Text → Blob → ℕ → M Db (Unit {0})
unfolding no_bytes insert_outbox is_empty
enqueue_outbox id transport payload available =
    if is_empty id || (is_empty transport || no_bytes payload)
    then raise invalid_outbox_record
    else statement (insert_outbox id transport payload available)

abbrev pub is_due : ℕ → OutboxRow → Bool
is_due now r = is_none r.delivered_at_ms && leb r.available_at_ms now

abbrev pub earlier : OutboxRow → OutboxRow → Bool
earlier r s = ltb r.seq s.seq

abbrev found : {A : Type 0} → Option A → Result A
found none = err no_rows
found (some a) = ok a

unfoldable pub next_outbox : ℕ → M Db OutboxRow
next_outbox now =
    on_no_rows nothing_available
      (statement (λ d. (found (first_by earlier (is_due now) d.outbox), d)))

abbrev pub is_pending : ℕ → OutboxRow → Bool
is_pending seq r = r.seq == seq && is_none r.delivered_at_ms

abbrev pub deliver_row : ℕ → OutboxRow → OutboxRow
deliver_row at r = record r { delivered_at_ms = some at }

unfoldable pub set_delivered : ℕ → ℕ → Db → Result ℕ × Db
set_delivered seq at d = (
  ok (count_where (is_pending seq) d.outbox),
  record d { outbox = update_where (is_pending seq) (deliver_row at) d.outbox },
)

unfoldable pub mark_outbox_delivered : ℕ → ℕ → M Db (Unit {0})
mark_outbox_delivered seq at = do
  changed ← statement (set_delivered seq at)
  n ← rows_affected_or_zero changed
  if n == 1 then pure tt else raise not_pending
