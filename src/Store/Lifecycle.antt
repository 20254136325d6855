-- ===== src/Store/Lifecycle.antt =====
-- The delivery states as a state machine: how any history moves the rows of the events.
pub mod Laws
use ubi_quic_e_xtreme_zero_t.Prelude.{
  if◌then◌else◌, Bool-cases, Option-cases, any_where, first_by, update_where, Text, ok, ℕ, ◌≡◌,
  refl, inl, inr, Bool, true, false, none, some, List, [], ◌∷◌, ◌++◌, arith,
}
use ubi_quic_e_xtreme_zero_t.Prelude.Tables.{update_where_cong}
use ubi_quic_e_xtreme_zero_t.Sql.{World}
use ubi_quic_e_xtreme_zero_t.Envelope.{
  Envelope, Blob, ControlFrame, DeliveryState, published, settled_ok, settled_error,
}
use ubi_quic_e_xtreme_zero_t.Store.Rows.{
  Db, EventRow, older, is_held, is_waiting, is_leased, is_after, is_over, new_event, insert_event,
  claim_event, lease_row, can_receive, can_settle, has_expired, update_events, insert_history,
}
use ubi_quic_e_xtreme_zero_t.Store.{
  receive_row, settle_row, expire_row, settle_body, settled_state, insert_outbox, set_delivered,
}
use ubi_quic_e_xtreme_zero_t.Store.Invariant.{IsConsistent, id_is, key_is, claimed_waiting}
use ubi_quic_e_xtreme_zero_t.Store.Settling.{settle_body_ok, settled_db}
use ubi_quic_e_xtreme_zero_t.Store.Run.{Op, run}
use ubi_quic_e_xtreme_zero_t.Store.Run.Rules.{IsInvariant, run-invariant}
use ubi_quic_e_xtreme_zero_t.Store.Consistency.{IsConsistent-invariant}

abbrev pub is_settled : DeliveryState → Bool
is_settled settled_ok = true
is_settled settled_error = true
is_settled _ = false

-- One change of an event's row, with what has to hold before it.
pub data Move (r s : EventRow) : Type 0 where
  lease :
      (worker : Text) (until now : ℕ)
      → is_waiting r.state ≡ true
      → s ≡ lease_row worker until now r
      → Move r s
  receive :
      (now : ℕ)
      → is_leased r.state ≡ true
      → is_after r.lease_until_ms now ≡ true
      → s ≡ receive_row now r
      → Move r s
  settle :
      (target : DeliveryState) (now : ℕ)
      → is_held r.state ≡ true
      → is_after r.lease_until_ms now ≡ true
      → is_settled target ≡ true
      → s ≡ settle_row target now r
      → Move r s
  expire :
      (now : ℕ)
      → is_held r.state ≡ true
      → is_over r.lease_until_ms now ≡ true
      → s ≡ expire_row now r
      → Move r s

pub data Moves (r : EventRow) : EventRow → Type 0 where
  here : Moves r r
  next : {s t : EventRow} → Moves r s → Move s t → Moves r t

-- A row as Publish inserts it.
pub record IsNew (r : EventRow) : Type 0 where
  pub state : r.state ≡ published
  pub owner : r.owner ≡ none
  pub lease : r.lease_until_ms ≡ none
  pub attempt : r.attempt ≡ 0
  pub token : r.fencing_token ≡ 0

abbrev pub Born : EventRow → Type 0
Born s = (n : EventRow) × IsNew n × Moves n s

-- The rows of `new` are those of `old`, each moved along the machine, and then new ones.
abbrev pub Evolves : List EventRow → List EventRow → Type 0
Evolves [] [] = Unit
Evolves [] (s ∷ ss) = Born s × Evolves [] ss
Evolves (r ∷ rs) [] = ⊥
Evolves (r ∷ rs) (s ∷ ss) = Moves r s × Evolves rs ss

pub Evolves-refl : (rs : List EventRow) → Evolves rs rs
Evolves-refl [] = tt
Evolves-refl (r ∷ rs) = (here, Evolves-refl rs)

Evolves-append :
    (rs ss : List EventRow) (n : EventRow) → IsNew n → Evolves rs ss → Evolves rs (ss ++ n ∷ [])
Evolves-append [] [] n h e = ((n, h, here), tt)
Evolves-append [] (s ∷ ss) n h e = (e.0, Evolves-append [] ss n h e.1)
Evolves-append (r ∷ rs) [] n h e = elim e [ ]
Evolves-append (r ∷ rs) (s ∷ ss) n h e = (e.0, Evolves-append rs ss n h e.1)

module _ (p : EventRow → Bool) (f : EventRow → EventRow)
    (move : (r : EventRow) → p r ≡ true → Move r (f r)) where
  Moves-if : {r : EventRow} (s : EventRow) → Moves r s → Moves r (if p s then f s else s)
  Moves-if s m = elim (Bool-cases (p s)) [ inl e ↦ rw e (next m (move s e)) | inr e ↦ rw e m ]

  Born-if : (s : EventRow) → Born s → Born (if p s then f s else s)
  Born-if s (n, h, m) = (n, h, Moves-if s m)

  Evolves-update : (rs ss : List EventRow) → Evolves rs ss → Evolves rs (update_where p f ss)
  unfolding update_where
  Evolves-update [] [] e = tt
  Evolves-update [] (s ∷ ss) e = (Born-if s e.0, Evolves-update [] ss e.1)
  Evolves-update (r ∷ rs) [] e = elim e [ ]
  Evolves-update (r ∷ rs) (s ∷ ss) e = (Moves-if s e.0, Evolves-update rs ss e.1)

target_settled :
    (f : ControlFrame) (target : DeliveryState)
    → settled_state f.kind ≡ some target
    → is_settled target ≡ true
target_settled f target e = ground arith

-- Consistent tables whose events have evolved from `rs`.
pub record HasEvolved (rs : List EventRow) (d : Db) : Type 0 where
  pub consistent : IsConsistent d
  pub evolved : Evolves rs d.events

module _ (rs : List EventRow) where
  open IsConsistent-invariant use {
    inserts, leases, receipt, settling, expiry, logs, enqueues, delivers,
  }

  insert_evolved :
      (env : Envelope) (raw : Blob) (now : ℕ) (d : Db)
      → Evolves rs d.events
      → Evolves rs (insert_event env raw now d).1.events
  unfolding insert_event new_event
  insert_evolved env raw now d e =
      elim (Bool-cases (any_where (key_is env.idempotency_key) d.events)) [
        | inl k ↦ rw k e
        | inr k ↦ elim (Bool-cases (any_where (id_is env.id) d.events)) [
          | inl i ↦ rw (k, i) e
          | inr i ↦ rw (k, i) (Evolves-append rs d.events _ (ground arith) e)
        ]
      ]

  claim_evolved :
      (worker : Text) (until now : ℕ) (d : Db)
      → HasEvolved rs d
      → Evolves rs (claim_event worker until now d).1.events
  unfolding claim_event
  claim_evolved worker until now d h =
      elim (Option-cases (first_by older (λ r. is_waiting r.state) d.events)) [
        | inl n ↦ rw (n, claim_event) h.evolved
        | inr (c, e) ↦
            rw
              (
                e,
                claim_event,
                update_where_cong _ _ (lease_row worker until now) d.events
                    (claimed_waiting d c h.consistent e),
              )
              (Evolves-update _ _ (λ r t. lease worker until now (ground arith) refl) rs d.events
                h.evolved)
      ]

  settle_evolved :
      (target : DeliveryState) (f : ControlFrame) (now : ℕ) (w : World Db)
      → settled_state f.kind ≡ some target
      → Evolves rs w.db.events
      → (settle_body target f now w).0 ≡ ok tt
      → Evolves rs (settle_body target f now w).1.db.events
  unfolding settled_db
  settle_evolved target f now w kind e r =
      let (one, q) = settle_body_ok target f now w r in
      rw q (
        Evolves-update (can_settle f now) (settle_row target now)
          (λ r t.
            settle target now (ground arith) (ground arith) (target_settled f target kind) refl)
          rs w.db.events e)

  HasEvolved-invariant : IsInvariant (HasEvolved rs)
  unfolding update_events insert_history insert_outbox set_delivered
  HasEvolved-invariant = record {
    inserts = λ env raw now d valid made h. record {
      consistent = inserts env raw now d valid made h.consistent;
      evolved = insert_evolved env raw now d h.evolved;
    };
    leases = λ worker until now d h. record {
      consistent = leases worker until now d h.consistent;
      evolved = claim_evolved worker until now d h;
    };
    receipt = λ f now d h. record {
      consistent = receipt f now d h.consistent;
      evolved =
          Evolves-update (can_receive f now) (receive_row now)
            (λ r t. receive now (ground arith) (ground arith) refl) rs d.events h.evolved;
    };
    settling = λ target f now w kind h r. record {
      consistent = settling target f now w kind h.consistent r;
      evolved = settle_evolved target f now w kind h.evolved r;
    };
    expiry = λ now d h. record {
      consistent = expiry now d h.consistent;
      evolved =
          Evolves-update (has_expired now) (expire_row now)
            (λ r t. expire now (ground arith) (ground arith) refl) rs d.events h.evolved;
    };
    logs = λ e d h. record { consistent = logs e d h.consistent; evolved = h.evolved };
    enqueues = λ id transport payload available d h. record {
      consistent = enqueues id transport payload available d h.consistent;
      evolved = h.evolved;
    };
    delivers =
        λ seq at d h. record { consistent = delivers seq at d h.consistent; evolved = h.evolved };
  }

-- Any history, from consistent tables and with any failures, deletes no event: each row present before
-- moves only by leases, receipts, settlements and expiries whose guards hold, and every other row starts
-- as a fresh publication and moves the same way.
pub Evolves-run :
    (w : World Db) (cs : List (ℕ × Op))
    → IsConsistent w.db
    → Evolves w.db.events (run w cs).db.events
Evolves-run w cs c =
    (run-invariant (HasEvolved-invariant w.db.events) w cs
      (record { consistent = c; evolved = Evolves-refl w.db.events })).evolved
