-- ===== src/Store/Rows.antt =====
-- store.go: the tables of the control store and its SQL statements. A NULL column is `none`, and a test on
-- NULL does not hold. SQLite is taken to do what these statements say; ids compare byte by byte.
use ubi_quic_e_xtreme_zero_t.Prelude.{
  ltb, leb, ◌==◌, if◌then◌else◌, find_where, any_where, count_where, first_by, update_where, teq,
  tlt, Text, constraint_error, no_rows, Result, ok, err, ℤ, ltz, eqz, ℕ, ◌+◌, Bool, true, false,
  ◌&&◌, ◌||◌, Option, none, some, List, [], ◌∷◌, ◌++◌,
}
use ubi_quic_e_xtreme_zero_t.Envelope.{
  Envelope, Blob, DeliveryState, published, leased, received, settled_ok, settled_error, expired,
  ControlKind, ControlFrame,
}

pub record EventRow : Type 0 where
  pub id : Text
  pub idempotency_key : Text
  pub event_name : Text
  pub envelope : Blob
  pub state : DeliveryState
  pub owner : Option Text
  pub lease_until_ms : Option ℕ
  pub attempt : ℕ
  pub fencing_token : ℕ
  pub created_at_ms : ℤ
  pub updated_at_ms : ℕ

pub record SettlementRow : Type 0 where
  pub event_id : Text
  pub kind : ControlKind
  pub worker_id : Text
  pub fencing_token : ℕ
  pub at_ms : ℤ
  pub evidence : Text

pub record HistoryRow : Type 0 where
  pub event_id : Text
  pub state : DeliveryState
  pub worker_id : Option Text
  pub fencing_token : Option ℕ
  pub at_ms : ℤ
  pub details : Option Text

pub record OutboxRow : Type 0 where
  pub seq : ℕ
  pub event_id : Text
  pub transport : Text
  pub payload : Blob
  pub attempts : ℕ
  pub available_at_ms : ℕ
  pub delivered_at_ms : Option ℕ

pub record Db : Type 0 where
  pub events : List EventRow
  pub settlements : List SettlementRow
  pub history : List HistoryRow
  pub outbox : List OutboxRow
  pub next_seq : ℕ

-- The tables as `migrate` creates them.
abbrev pub empty_db : Db
empty_db = record { events = []; settlements = []; history = []; outbox = []; next_seq = 1 }

abbrev pub is_text : Option Text → Text → Bool
is_text none t = false
is_text (some s) t = teq s t

abbrev pub is_after : Option ℕ → ℕ → Bool
is_after none now = false
is_after (some u) now = ltb now u

abbrev pub is_over : Option ℕ → ℕ → Bool
is_over none now = false
is_over (some u) now = leb u now

abbrev pub is_none : Option ℕ → Bool
is_none none = true
is_none (some n) = false

-- state IN ('published', 'expired')
abbrev pub is_waiting : DeliveryState → Bool
is_waiting published = true
is_waiting expired = true
is_waiting leased = false
is_waiting received = false
is_waiting settled_ok = false
is_waiting settled_error = false

-- state IN ('leased', 'received')
abbrev pub is_held : DeliveryState → Bool
is_held leased = true
is_held received = true
is_held published = false
is_held expired = false
is_held settled_ok = false
is_held settled_error = false

abbrev pub is_leased : DeliveryState → Bool
is_leased leased = true
is_leased published = false
is_leased expired = false
is_leased received = false
is_leased settled_ok = false
is_leased settled_error = false

-- ORDER BY created_at_ms, id
unfoldable pub older : EventRow → EventRow → Bool
older r s =
    ltz r.created_at_ms s.created_at_ms || eqz r.created_at_ms s.created_at_ms && tlt r.id s.id

unfoldable pub new_event : Envelope → Blob → ℕ → EventRow
new_event env raw now = record {
  id = env.id;
  idempotency_key = env.idempotency_key;
  event_name = env.event;
  envelope = raw;
  state = published;
  owner = none;
  lease_until_ms = none;
  attempt = 0;
  fencing_token = 0;
  created_at_ms = env.created_at_ms;
  updated_at_ms = now;
}

-- INSERT INTO events … ON CONFLICT(idempotency_key) DO NOTHING, with the rows affected. The conflict
-- target is tested before the primary key.
unfoldable pub insert_event : Envelope → Blob → ℕ → Db → Result ℕ × Db
unfolding new_event
insert_event env raw now d =
    if any_where (λ r. teq r.idempotency_key env.idempotency_key) d.events
    then (ok 0, d)
    else if any_where (λ r. teq r.id env.id) d.events
    then (err constraint_error, d)
    else (ok 1, record d { events = d.events ++ new_event env raw now ∷ [] })

abbrev envelope_of : Option EventRow → Result Blob
envelope_of none = err no_rows
envelope_of (some r) = ok r.envelope

unfoldable pub select_envelope : Text → Db → Result Blob × Db
select_envelope key d = (envelope_of (find_where (λ r. teq r.idempotency_key key) d.events), d)

unfoldable pub insert_history : HistoryRow → Db → Result (Unit {0}) × Db
insert_history h d = (ok tt, record d { history = d.history ++ h ∷ [] })

abbrev pub lease_row : Text → ℕ → ℕ → EventRow → EventRow
lease_row worker until now r = record r {
  state = leased;
  owner = some worker;
  lease_until_ms = some until;
  attempt = r.attempt + 1;
  fencing_token = r.fencing_token + 1;
  updated_at_ms = now;
}

-- The statement of Claim, with the row that RETURNING reads.
unfoldable pub claim_event : Text → ℕ → ℕ → Db → Result EventRow × Db
claim_event worker until now d = elim (first_by older (λ r. is_waiting r.state) d.events) [
  | none ↦ (err no_rows, d)
  | some c ↦ (
    ok (lease_row worker until now c),
    record d { events = update_where (λ r. teq r.id c.id) (lease_row worker until now) d.events },
  )
]

-- id=? AND owner=? AND fencing_token=?
abbrev pub is_holder : ControlFrame → EventRow → Bool
is_holder f r =
    teq r.id f.event_id && (is_text r.owner f.worker_id && r.fencing_token == f.fencing_token)

abbrev pub can_receive : ControlFrame → ℕ → EventRow → Bool
can_receive f now r = is_holder f r && (is_leased r.state && is_after r.lease_until_ms now)

abbrev pub can_settle : ControlFrame → ℕ → EventRow → Bool
can_settle f now r = is_holder f r && (is_held r.state && is_after r.lease_until_ms now)

abbrev pub has_expired : ℕ → EventRow → Bool
has_expired now r = is_held r.state && is_over r.lease_until_ms now

-- An UPDATE of the events, with the rows affected.
unfoldable pub update_events : (EventRow → Bool) → (EventRow → EventRow) → Db → Result ℕ × Db
update_events p f d = (ok (count_where p d.events), record d { events = update_where p f d.events })

-- INSERT INTO settlements … ON CONFLICT(event_id) DO NOTHING
unfoldable pub insert_settlement : SettlementRow → Db → Result (Unit {0}) × Db
insert_settlement s d =
    if any_where (λ r. teq r.event_id s.event_id) d.settlements
    then (ok tt, d)
    else (ok tt, record d { settlements = d.settlements ++ s ∷ [] })
