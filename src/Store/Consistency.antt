-- ===== src/Store/Consistency.antt =====
-- The tables of the control store stay consistent, whatever happens.
use ubi_quic_e_xtreme_zero_t.Prelude.{ok, ℕ, ◌≡◌, refl, Bool, some, List, arith}
use ubi_quic_e_xtreme_zero_t.Sql.{World}
use ubi_quic_e_xtreme_zero_t.Envelope.{ControlFrame, DeliveryState}
use ubi_quic_e_xtreme_zero_t.Store.Rows.{Db, empty_db}
use ubi_quic_e_xtreme_zero_t.Store.{settled_state, settle_body}
use ubi_quic_e_xtreme_zero_t.Store.Invariant.{
  IsConsistent, insert_event-IsConsistent, claim_event-IsConsistent, receive-IsConsistent,
  expire-IsConsistent, history-IsConsistent, outbox-IsConsistent, delivered-IsConsistent,
}
use ubi_quic_e_xtreme_zero_t.Store.Settling.{settle_body_ok, settled_db-IsConsistent}
use ubi_quic_e_xtreme_zero_t.Store.Run.Rules.{IsInvariant, run-invariant}
use ubi_quic_e_xtreme_zero_t.Store.Run.{Op, run}
use ubi_quic_e_xtreme_zero_t.Store.Run.Rules.{IsInvariant, run-invariant}

settling-IsConsistent :
    (target : DeliveryState) (f : ControlFrame) (now : ℕ) (w : World Db)
    → settled_state f.kind ≡ some target
    → IsConsistent w.db
    → (settle_body target f now w).0 ≡ ok tt
    → IsConsistent (settle_body target f now w).1.db
settling-IsConsistent target f now w kind c r =
    let (one, e) = settle_body_ok target f now w r in
    rw e (settled_db-IsConsistent target f now w.db kind one c)

pub IsConsistent-invariant : IsInvariant IsConsistent
IsConsistent-invariant = record {
  inserts = insert_event-IsConsistent;
  leases = claim_event-IsConsistent;
  receipt = receive-IsConsistent;
  settling = settling-IsConsistent;
  expiry = expire-IsConsistent;
  logs = history-IsConsistent;
  enqueues = outbox-IsConsistent;
  delivers = delivered-IsConsistent;
}

IsConsistent-empty : IsConsistent empty_db
IsConsistent-empty = record {
  rows = tt;
  stored = tt;
  ids = λ k. omega arith;
  keys = λ k. omega arith;
  kinds = tt;
  settled = λ good k. refl;
  seqs = λ k. omega arith;
  bounded = tt;
}

-- From the empty tables, whatever the calls, their order and the failures of the driver: ids and
-- idempotency keys stay unique, every row is well formed and holds the envelope it was made of, a
-- settlement's kind is one of the two outcomes, for each outcome an event has exactly as many settlements
-- of that outcome (one or none) as rows settled with it, and the sequence numbers of the outbox are unique
-- and below the next one.
pub run-IsConsistent :
    (faults : List Bool) (cs : List (ℕ × Op))
    → IsConsistent (run (record { db = empty_db; faults = faults }) cs).db
run-IsConsistent faults cs = run-invariant IsConsistent-invariant _ cs IsConsistent-empty
