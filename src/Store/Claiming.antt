-- ===== src/Store/Claiming.antt =====
-- Claim: which event it takes, under which lease, and when there is none.
use ubi_quic_e_xtreme_zero_t.Prelude.{
  Bool-cases, Option-cases, All, any_where, first_by, update_where, tlt, Text, tlt_irrefl,
  tlt_trans, tlt_total, result_cases, nothing_available, ok, err, ℤ, pos, ltz, ℕ, ◌+◌, ◌≡◌, refl,
  ◌≢◌, ◌⊎◌, inl, inr, Bool, true, false, Option, some, [], ◌∷◌, arith,
}
use ubi_quic_e_xtreme_zero_t.Prelude.Tables.{
  first_by_least, first_by-none, first_by-any, All-first_by,
}
use ubi_quic_e_xtreme_zero_t.Sql.{World, statement}
use ubi_quic_e_xtreme_zero_t.Envelope.{
  Envelope, marshal, unmarshal, Lease, leased, ClaimedEvent, is_empty,
}
use ubi_quic_e_xtreme_zero_t.Store.Rows.{
  Db, EventRow, older, is_waiting, claim_event, lease_row, insert_history,
}
use ubi_quic_e_xtreme_zero_t.Store.{claim, milliseconds, claimed_event}
use ubi_quic_e_xtreme_zero_t.Store.Invariant.{IsConsistent, Stored, id_is}

pub older_irrefl : (r : EventRow) → older r r ≡ false
unfolding older
older_irrefl r = ground (arith, tlt_irrefl r.id)

pub older_asym : (r s : EventRow) → older r s ≡ true → older s r ≡ false
unfolding older
older_asym r s h = ground (arith, tlt_irrefl r.id, tlt_trans r.id s.id r.id)

tlt_between : (x y z : Text) → tlt x y ≡ true → (tlt x z ≡ true) ⊎ (tlt z y ≡ true)
tlt_between x y z h = elim (Bool-cases (tlt x z)) [
  | inl e ↦ inl e
  | inr e ↦ elim (Bool-cases (tlt z x)) [
    | inl d ↦ inr (tlt_trans z x y d h)
    | inr d ↦ inr (rw (← tlt_total x z e d) h)
  ]
]

pub older_between : (r s t : EventRow) → older r s ≡ true → (older r t ≡ true) ⊎ (older t s ≡ true)
unfolding older
older_between r s t h = ground (arith, tlt_between r.id s.id t.id)

abbrev pub waiting : EventRow → Bool
waiting r = is_waiting r.state

abbrev next_event : Db → Option EventRow
next_event d = first_by older waiting d.events

-- The lease that a claim of the row gives.
abbrev given : Text → ℕ → EventRow → Lease
given worker until r = record {
  event_id = r.id;
  worker_id = worker;
  until_ms = until;
  attempt = r.attempt + 1;
  fencing_token = r.fencing_token + 1;
}

-- What a claim that succeeds has done.
pub record Claimed (worker : Text) (until now : ℕ) (d e : Db) (c : ClaimedEvent) : Type 0 where
  pub row : EventRow
  pub found : first_by older waiting d.events ≡ some row
  pub envelope : unmarshal row.envelope ≡ ok c.envelope
  pub lease : c.lease ≡ given worker until row
  pub state : c.state ≡ leased
  pub events : e.events ≡ update_where (id_is row.id) (lease_row worker until now) d.events

Stored-id :
    (r : EventRow) (env : Envelope) → Stored r → unmarshal r.envelope ≡ ok env → env.id ≡ r.id
unfolding marshal unmarshal
Stored-id r env s h = let (e, valid, made, i, k) = s in ground arith

Stored-unmarshal : (r : EventRow) → Stored r → (env : Envelope) × (unmarshal r.envelope ≡ ok env)
unfolding marshal unmarshal
Stored-unmarshal r s =
    let (e, valid, made, i, k) = s in
    elim (result_cases (unmarshal r.envelope)) [
      | inl (env, u) ↦ (env, u)
      | inr (x, u) ↦ absurd (ground arith)
    ]

claim_found :
    (worker : Text) (lease : ℤ) (now : ℕ) (w : World Db) (c : ClaimedEvent)
    → (claim worker lease now w).0 ≡ ok c
    → (r : EventRow) × (next_event w.db ≡ some r)
      × (env : Envelope) × (unmarshal r.envelope ≡ ok env)
      × (c
          ≡ claimed_event env worker
              (now + milliseconds lease)
              (lease_row worker (now + milliseconds lease) now r))
      × ((claim worker lease now w).1.db.events
          ≡ update_where (id_is r.id) (lease_row worker (now + milliseconds lease) now) w.db.events)
unfolding claim claim_event statement insert_history
claim_found worker lease now w c h = elim (Option-cases (next_event w.db)) [
  | inl n ↦ absurd (ground arith)
  | inr (r, e) ↦ elim (result_cases (unmarshal r.envelope)) [
    | inl (env, u) ↦ (r, e, env, u, ground arith, ground arith)
    | inr (x, u) ↦ absurd (ground arith)
  ]
]

-- A claim that succeeds has leased the waiting event that comes first by creation time and id: the lease
-- runs from now for the requested time, under the event's next token and attempt, the envelope is the
-- stored one, no other row is touched, and no waiting event is older.
pub claim_ok :
    (worker : Text) (lease : ℤ) (now : ℕ) (w : World Db) (c : ClaimedEvent)
    → IsConsistent w.db
    → (claim worker lease now w).0 ≡ ok c
    → (v : Claimed worker (now + milliseconds lease) now w.db (claim worker lease now w).1.db c)
      × All (λ r. is_waiting r.state ≡ true → older r v.row ≡ false) w.db.events
unfolding claimed_event
claim_ok worker lease now w c v h =
    let (r, e, env, u, made, rows) = claim_found worker lease now w c h in
    let same = Stored-id r env (All-first_by older waiting Stored w.db.events r v.stored e) u in
    (
      record {
        row = r;
        found = e;
        envelope = ground (arith, u);
        lease = ground arith;
        state = ground arith;
        events = rows;
      },
      first_by_least older waiting older_irrefl older_asym older_between w.db.events r e,
    )

-- With a worker, a positive lease and a driver that does not fail, a claim succeeds exactly when some
-- event is waiting, and reports otherwise that there is nothing available and changes nothing.
pub claim_available :
    (worker : Text) (lease : ℤ) (now : ℕ) (d : Db)
    → worker ≢ []
    → ltz (pos 0) lease ≡ true
    → IsConsistent d
    → let r = claim worker lease now (record { db = d; faults = [] }) in
      ((any_where waiting d.events ≡ true) × (c : ClaimedEvent) × (r.0 ≡ ok c))
      ⊎ ((any_where waiting d.events ≡ false) × (r.0 ≡ err nothing_available) × (r.1.db ≡ d))
unfolding claim claim_event statement insert_history is_empty
claim_available [] lease now d h p v = absurd (h refl)
claim_available (b ∷ bs) lease now d h p v = elim (Option-cases (next_event d)) [
  | inl n ↦ inr (first_by-none older waiting d.events n, ground arith, ground arith)
  | inr (r, e) ↦
      let (env, u) = Stored-unmarshal r (All-first_by older waiting Stored d.events r v.stored e) in
      inl (
        first_by-any older waiting d.events r e,
        claimed_event env (b ∷ bs) (now + milliseconds lease)
            (lease_row (b ∷ bs) (now + milliseconds lease) now r),
        ground arith,
      )
]
