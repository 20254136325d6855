-- ===== src/Store/Invariant.antt =====
-- What every operation of the control store keeps, whatever calls of the driver fail.
use ubi_quic_e_xtreme_zero_t.Prelude.{
  ◌==◌, Bool-cases, Option-cases, All, any_where, count_where, first_by, update_where, All-append,
  All-map, teq, Text, teq_iff, teq_refl, ok, ℕ, ◌+◌, ◌≤◌, ◌<◌, ◌≡◌, refl, sym, ◌∙◌, inl, inr, Bool,
  true, false, not, ◌&&◌, ◌||◌, Option, none, some, List, [], ◌∷◌, arith,
}
use ubi_quic_e_xtreme_zero_t.Prelude.Tables.{
  count_where-append, count_where_none, count_where_disjoint, count_where-update_same,
  All-update_where, count_where-first_by, first_by-test, update_where_cong, All-count_zero,
}
use ubi_quic_e_xtreme_zero_t.Envelope.{
  validate, marshal, Envelope, Blob, ControlKind, control_settled_ok, control_settled_error,
  ControlFrame, DeliveryState, published, settled_ok, settled_error,
}
use ubi_quic_e_xtreme_zero_t.Store.Rows.{
  Db, OutboxRow, EventRow, SettlementRow, older, is_held, is_waiting, new_event, insert_event,
  claim_event, lease_row, can_receive, has_expired, update_events, insert_history, HistoryRow,
}
use ubi_quic_e_xtreme_zero_t.Store.{
  insert_outbox, outbox_row, set_delivered, is_pending, deliver_row, receive_row, expire_row,
}

abbrev pub is_some {ℓ} : {A : Type ℓ} → Option A → Bool
is_some none = false
is_some (some a) = true

abbrev pub is_published : DeliveryState → Bool
is_published published = true
is_published _ = false

-- Settled with success, or with an error.
abbrev pub settled_as : Bool → DeliveryState → Bool
settled_as true settled_ok = true
settled_as false settled_error = true
settled_as _ _ = false

abbrev pub settles_as : Bool → ControlKind → Bool
settles_as true control_settled_ok = true
settles_as false control_settled_error = true
settles_as _ _ = false

-- A row has an owner and a lease exactly while it is held, its attempts are its fencing token, and the
-- token is 0 exactly before the first lease.
pub record IsSound (r : EventRow) : Type 0 where
  pub counted : r.attempt ≡ r.fencing_token
  pub owned : is_some r.owner ≡ is_held r.state
  pub bounded : is_some r.lease_until_ms ≡ is_held r.state
  pub fresh : is_published r.state ≡ (r.fencing_token == 0)

abbrev pub id_is : Text → EventRow → Bool
id_is k r = teq r.id k

abbrev pub key_is : Text → EventRow → Bool
key_is k r = teq r.idempotency_key k

abbrev pub settlement_of : Bool → Text → SettlementRow → Bool
settlement_of good k s = teq s.event_id k && settles_as good s.kind

abbrev pub settled_event : Bool → Text → EventRow → Bool
settled_event good k r = teq r.id k && settled_as good r.state

-- The row holds the marshalled form of a valid envelope, under the envelope's own keys.
abbrev pub Stored : EventRow → Type 0
Stored r =
    (env : Envelope) × (validate env ≡ ok tt)
    × (marshal env ≡ ok r.envelope)
    × (env.id ≡ r.id)
    × (env.idempotency_key ≡ r.idempotency_key)

abbrev pub seq_is : ℕ → OutboxRow → Bool
seq_is k o = o.seq == k

-- Ids, idempotency keys and sequence numbers are unique, and every event that is settled with an outcome
-- has exactly one settlement, of that outcome.
pub record IsConsistent (d : Db) : Type 0 where
  pub rows : All IsSound d.events
  pub stored : All Stored d.events
  pub ids : (k : Text) → count_where (id_is k) d.events ≤ 1
  pub keys : (k : Text) → count_where (key_is k) d.events ≤ 1
  pub kinds :
      All
        (λ (s : SettlementRow). (settles_as true s.kind || settles_as false s.kind) ≡ true)
        d.settlements
  pub settled :
      (good : Bool) (k : Text)
      → count_where (settlement_of good k) d.settlements
        ≡ count_where (settled_event good k) d.events
  pub seqs : (k : ℕ) → count_where (seq_is k) d.outbox ≤ 1
  pub bounded : All (λ (o : OutboxRow). o.seq < d.next_seq) d.outbox

new_event-IsSound : (env : Envelope) (raw : Blob) (now : ℕ) → IsSound (new_event env raw now)
unfolding new_event
new_event-IsSound env raw now = ground arith

pub insert_event-IsConsistent :
    (env : Envelope) (raw : Blob) (now : ℕ) (d : Db)
    → validate env ≡ ok tt
    → marshal env ≡ ok raw
    → IsConsistent d
    → IsConsistent (insert_event env raw now d).1
unfolding insert_event new_event
insert_event-IsConsistent env raw now d valid made c =
    elim (Bool-cases (any_where (key_is env.idempotency_key) d.events)) [
      | inl e ↦ rw e c
      | inr e ↦ elim (Bool-cases (any_where (id_is env.id) d.events)) [
        | inl i ↦ rw (e, i) c
        | inr i ↦
            rw (e, i)
              (record {
                rows = All-append IsSound d.events _ c.rows (new_event-IsSound env raw now, tt);
                stored = All-append Stored d.events _ c.stored ((env, valid, made, refl, refl), tt);
                ids = λ k. ground (
                  arith,
                  count_where-append (id_is k) d.events (new_event env raw now ∷ []),
                  count_where_none (id_is env.id) d.events i,
                  teq_iff env.id k,
                  c.ids k,
                );
                keys = λ k. ground (
                  arith,
                  count_where-append (key_is k) d.events (new_event env raw now ∷ []),
                  count_where_none (key_is env.idempotency_key) d.events e,
                  teq_iff env.idempotency_key k,
                  c.keys k,
                );
                kinds = c.kinds;
                settled = λ good k. ground (
                  arith,
                  count_where-append (settled_event good k) d.events (new_event env raw now ∷ []),
                  c.settled good k,
                );
                seqs = c.seqs;
                bounded = c.bounded;
              })
      ]
    ]

-- An update that keeps the keys of a row and does not settle it.
module _ (p : EventRow → Bool) (f : EventRow → EventRow)
    (sound : (r : EventRow) → p r ≡ true → IsSound r → IsSound (f r))
    (same_stored : (r : EventRow) → Stored r → Stored (f r))
    (same_id : (r : EventRow) (k : Text) → p r ≡ true → id_is k (f r) ≡ id_is k r)
    (same_key : (r : EventRow) (k : Text) → p r ≡ true → key_is k (f r) ≡ key_is k r) where
  update-IsConsistent :
      (d : Db)
      → ((r : EventRow) (good : Bool)
          → p r ≡ true
          → settled_as good (f r).state ≡ settled_as good r.state)
      → IsConsistent d
      → IsConsistent (record d { events = update_where p f d.events })
  update-IsConsistent d same_outcome c = record {
    rows = All-update_where IsSound p f d.events sound c.rows;
    stored = All-update_where Stored p f d.events (λ r t. same_stored r) c.stored;
    ids = λ k. rw (count_where-update_same (id_is k) p f d.events (λ a. same_id a k)) (c.ids k);
    keys = λ k. rw (count_where-update_same (key_is k) p f d.events (λ a. same_key a k)) (c.keys k);
    kinds = c.kinds;
    settled = λ good k.
        c.settled good k
        ∙ sym (
            count_where-update_same (settled_event good k) p f d.events
              (λ a t. ground (arith, same_id a k t, same_outcome a good t)));
    seqs = c.seqs;
    bounded = c.bounded;
  }

-- The row that a claim finds is the only one with its id, so every row with the id is waiting.
pub claimed_waiting :
    (d : Db) (c : EventRow)
    → IsConsistent d
    → first_by older (λ r. is_waiting r.state) d.events ≡ some c
    → All (λ r. id_is c.id r ≡ (id_is c.id r && is_waiting r.state)) d.events
claimed_waiting d c v e =
    All-map (λ r. held r ≡ false) _ d.events (λ r h. ground arith)
      (All-count_zero held d.events (omega (arith, others, here, v.ids c.id)))
  where
    held : EventRow → Bool
    held r = id_is c.id r && not (is_waiting r.state)

    free : EventRow → Bool
    free r = id_is c.id r && is_waiting r.state

    here : 1 ≤ count_where free d.events
    here =
        count_where-first_by older (λ r. is_waiting r.state) free d.events c e
          (ground
            (arith, teq_refl c.id, first_by-test older (λ r. is_waiting r.state) d.events c e))

    others :
        count_where held d.events + count_where free d.events ≤ count_where (id_is c.id) d.events
    others =
        count_where_disjoint held free (id_is c.id) d.events (λ r t. ground arith)
          (λ r t. ground arith)

pub claim_event-IsConsistent :
    (worker : Text) (until now : ℕ) (d : Db)
    → IsConsistent d
    → IsConsistent (claim_event worker until now d).1
unfolding claim_event
claim_event-IsConsistent worker until now d v =
    elim (Option-cases (first_by older (λ r. is_waiting r.state) d.events)) [
      | inl n ↦ rw (n, claim_event) v
      | inr (c, e) ↦
          rw
            (
              e,
              claim_event,
              update_where_cong _ _ (lease_row worker until now) d.events (claimed_waiting d c v e),
            )
            (update-IsConsistent _ _ (λ r t s. ground arith) (λ r s. s) (λ r k t. refl)
              (λ r k t. refl) d (λ r good t. ground arith) v)
    ]

pub receive-IsConsistent :
    (f : ControlFrame) (now : ℕ) (d : Db)
    → IsConsistent d
    → IsConsistent (update_events (can_receive f now) (receive_row now) d).1
unfolding update_events
receive-IsConsistent f now d =
    update-IsConsistent (can_receive f now) (receive_row now) (λ r t s. ground arith) (λ r s. s)
      (λ r k t. refl) (λ r k t. refl) d (λ r good t. ground arith)

pub expire-IsConsistent :
    (now : ℕ) (d : Db)
    → IsConsistent d
    → IsConsistent (update_events (has_expired now) (expire_row now) d).1
unfolding update_events
expire-IsConsistent now d =
    update-IsConsistent (has_expired now) (expire_row now) (λ r t s. ground arith) (λ r s. s)
      (λ r k t. refl) (λ r k t. refl) d (λ r good t. ground arith)

-- Writing to the history touches nothing that is kept consistent.
pub history-IsConsistent :
    (h : HistoryRow) (d : Db) → IsConsistent d → IsConsistent (insert_history h d).1
unfolding insert_history
history-IsConsistent h d c = record {
  rows = c.rows;
  stored = c.stored;
  ids = c.ids;
  keys = c.keys;
  kinds = c.kinds;
  settled = c.settled;
  seqs = c.seqs;
  bounded = c.bounded;
}

fresh_seq :
    (k n : ℕ) (os : List OutboxRow)
    → All (λ (o : OutboxRow). o.seq < n) os
    → n ≤ k
    → count_where (seq_is k) os ≡ 0
fresh_seq k n [] h l = refl
fresh_seq k n (o ∷ os) h l = ground (arith, h.0, fresh_seq k n os h.1)

pub outbox-IsConsistent :
    (id transport : Text) (payload : Blob) (available : ℕ) (d : Db)
    → IsConsistent d
    → IsConsistent (insert_outbox id transport payload available d).1
unfolding insert_outbox
outbox-IsConsistent id transport payload available d c = record {
  rows = c.rows;
  stored = c.stored;
  ids = c.ids;
  keys = c.keys;
  kinds = c.kinds;
  settled = c.settled;
  seqs = λ k. ground (
    arith,
    c.seqs k,
    fresh_seq d.next_seq d.next_seq d.outbox c.bounded,
    count_where-append (seq_is k) d.outbox
        (outbox_row id transport payload available d.next_seq ∷ []),
  );
  bounded =
      All-append (λ (o : OutboxRow). o.seq < d.next_seq + 1) d.outbox _
        (All-map (λ (o : OutboxRow). o.seq < d.next_seq) _ d.outbox (λ o l. omega arith) c.bounded)
        (omega arith, tt);
}

pub delivered-IsConsistent :
    (seq at : ℕ) (d : Db) → IsConsistent d → IsConsistent (set_delivered seq at d).1
unfolding set_delivered
delivered-IsConsistent seq at d c = record {
  rows = c.rows;
  stored = c.stored;
  ids = c.ids;
  keys = c.keys;
  kinds = c.kinds;
  settled = c.settled;
  seqs = λ k.
      rw
        (count_where-update_same (seq_is k) (is_pending seq) (deliver_row at) d.outbox
          (λ o t. refl))
        (c.seqs k);
  bounded =
      All-update_where (λ (o : OutboxRow). o.seq < d.next_seq) (is_pending seq) (deliver_row at)
        d.outbox (λ o t l. l) c.bounded;
}
