-- ===== src/Store/Maintenance.antt =====
-- RequeueExpired and the outbox.
use ubi_quic_e_xtreme_zero_t.Prelude.{
  if◌then◌else◌, All, any_where, count_where, first_by, update_where, not_pending, ok, err, ℕ, ◌+◌,
  ◌≡◌, refl, sym, subst, ◌⊎◌, true, false, some, List, [], ◌∷◌, arith,
}
use ubi_quic_e_xtreme_zero_t.Prelude.Tables.{
  update_where_none, count_where-update_zero, first_by-test, first_by_least, count_where_of_any,
  count_where_mono,
}
use ubi_quic_e_xtreme_zero_t.Sql.{World, statement}
use ubi_quic_e_xtreme_zero_t.Store.Rows.{
  Db, EventRow, OutboxRow, has_expired, is_held, is_waiting, is_after, update_events,
}
use ubi_quic_e_xtreme_zero_t.Store.{
  requeue_expired, expire_row, next_outbox, mark_outbox_delivered, set_delivered, is_due, earlier,
  is_pending, deliver_row,
}
use ubi_quic_e_xtreme_zero_t.Store.Invariant.{IsConsistent, IsSound, seq_is}

expired_held :
    (now : ℕ) (xs : List EventRow)
    → All IsSound xs
    → All
        (λ r. is_held r.state ≡ true → is_after r.lease_until_ms now ≡ true)
        (update_where (has_expired now) (expire_row now) xs)
unfolding update_where
expired_held now [] h = tt
expired_held now (r ∷ rs) h = (first h.0, expired_held now rs h.1)
  where
    first :
        IsSound r
        → is_held (if has_expired now r then expire_row now r else r).state ≡ true
        → is_after (if has_expired now r then expire_row now r else r).lease_until_ms now ≡ true
    first s k = ground (arith, s.bounded)

expired_waiting :
    (now : ℕ) (xs : List EventRow)
    → count_where (λ r. is_waiting r.state) (update_where (has_expired now) (expire_row now) xs)
      ≡ count_where (λ r. is_waiting r.state) xs + count_where (has_expired now) xs
unfolding update_where
expired_waiting now [] = refl
expired_waiting now (r ∷ rs) = ground (arith, expired_waiting now rs)

-- A requeue that succeeds reports how many leases had run out, makes exactly so many more events
-- available to claims, and leaves no event held under a lease that is not still running.
pub requeue_expired_ok :
    (now : ℕ) (w : World Db) (n : ℕ)
    → IsConsistent w.db
    → (requeue_expired now w).0 ≡ ok n
    → let e = (requeue_expired now w).1.db.events in
      (n ≡ count_where (has_expired now) w.db.events)
      × (count_where (λ r. is_waiting r.state) e
          ≡ count_where (λ r. is_waiting r.state) w.db.events + n)
      × All (λ r. is_held r.state ≡ true → is_after r.lease_until_ms now ≡ true) e
unfolding requeue_expired statement update_events
requeue_expired_ok now w n c h =
    let counted : n ≡ count_where (has_expired now) w.db.events = ground arith in
    let after : (requeue_expired now w).1.db.events
        ≡ update_where (has_expired now) (expire_row now) w.db.events =
      ground arith in
    (
      counted,
      rw (after, counted) (expired_waiting now w.db.events),
      subst (All (λ r. is_held r.state ≡ true → is_after r.lease_until_ms now ≡ true)) (sym after)
          (expired_held now w.db.events c.rows),
    )

pub earlier_between :
    (r s t : OutboxRow) → earlier r s ≡ true → (earlier r t ≡ true) ⊎ (earlier t s ≡ true)
earlier_between r s t h = ground arith

-- The outbox serves the due record with the least sequence number.
pub next_outbox_ok :
    (now : ℕ) (w : World Db) (r : OutboxRow)
    → (next_outbox now w).0 ≡ ok r
    → (is_due now r ≡ true)
      × All (λ s. is_due now s ≡ true → earlier s r ≡ false) w.db.outbox
      × ((next_outbox now w).1.db ≡ w.db)
unfolding next_outbox statement
next_outbox_ok now w r h =
    let found : first_by earlier (is_due now) w.db.outbox ≡ some r = ground arith in
    (
      first_by-test earlier (is_due now) w.db.outbox r found,
      first_by_least earlier (is_due now) (λ a. ground arith) (λ a b t. ground arith)
          earlier_between w.db.outbox r found,
      ground arith,
    )

-- A record that has been marked as delivered is no longer pending, so it is marked once: with consistent
-- tables the mark of a pending record succeeds under a driver that does not fail, and every later mark of
-- it is refused, and changes nothing.
pub mark_delivered_once :
    (seq at later : ℕ) (d : Db)
    → IsConsistent d
    → any_where (is_pending seq) d.outbox ≡ true
    → let w = (mark_outbox_delivered seq at (record { db = d; faults = [] })) in
      (w.0 ≡ ok tt)
      × ((mark_outbox_delivered seq later w.1).0 ≡ err not_pending)
      × ((mark_outbox_delivered seq later w.1).1.db.outbox ≡ w.1.db.outbox)
unfolding mark_outbox_delivered statement set_delivered
mark_delivered_once seq at later d c h =
    let here = count_where_of_any (is_pending seq) d.outbox h in
    let most = count_where_mono (is_pending seq) (seq_is seq) d.outbox (λ r t. ground arith) in
    let gone =
      count_where-update_zero (is_pending seq) (deliver_row at) d.outbox (λ r. ground arith) in
    (
      ground (arith, here, most, c.seqs seq),
      ground (arith, here, most, c.seqs seq, gone),
      ground (
        arith,
        here,
        most,
        c.seqs seq,
        gone,
        update_where_none (is_pending seq) (deliver_row later)
            (update_where (is_pending seq) (deliver_row at) d.outbox),
      ),
    )
