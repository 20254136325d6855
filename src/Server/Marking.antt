-- ===== src/Server/Marking.antt =====
-- server.go: the record of the outbox that a round takes, and what marking it changes.
use ubi_quic_e_xtreme_zero_t.Prelude.{
  ◌==◌, Bool-cases, count_where, first_by, update_where, nothing_available, ok, err, ℕ, suc, ◌+◌,
  ◌≡◌, refl, inl, inr, Bool, true, false, ◌&&◌, none, some, List, [], ◌∷◌, arith,
}
use ubi_quic_e_xtreme_zero_t.Prelude.Tables.{count_where-first_by, first_by-test, count_where_mono}
use ubi_quic_e_xtreme_zero_t.Sql.{World, statement}
use ubi_quic_e_xtreme_zero_t.Store.Rows.{Db, OutboxRow}
use ubi_quic_e_xtreme_zero_t.Store.{
  next_outbox, mark_outbox_delivered, set_delivered, is_due, is_pending, deliver_row, earlier,
}
use ubi_quic_e_xtreme_zero_t.Store.Invariant.{IsConsistent, seq_is}

count_where-update_removed :
    {A : Type 0} (q p : A → Bool) (f : A → A) (xs : List A)
    → ((a : A) → p a ≡ true → q (f a) ≡ false)
    → count_where q (update_where p f xs) + count_where (λ a. p a && q a) xs ≡ count_where q xs
unfolding update_where
count_where-update_removed q p f [] h = omega arith
count_where-update_removed q p f (x ∷ xs) h =
    ground (arith, count_where-update_removed q p f xs h, h x)

abbrev pub due_count : ℕ → Db → ℕ
due_count now d = count_where (is_due now) d.outbox

-- Marking the record that NextOutbox gives leaves one due record less.
pub marked_count :
    (now : ℕ) (d : Db) (r : OutboxRow)
    → IsConsistent d
    → first_by earlier (is_due now) d.outbox ≡ some r
    → suc (due_count now (set_delivered r.seq now d).1) ≡ due_count now d
unfolding set_delivered
marked_count now d r c found =
    let both : OutboxRow → Bool = λ s. is_pending r.seq s && is_due now s in
    let due = first_by-test earlier (is_due now) d.outbox r found in
    let least =
      count_where-first_by earlier (is_due now) both d.outbox r found (ground (arith, due)) in
    let most = count_where_mono both (seq_is r.seq) d.outbox (λ s t. ground arith) in
    let gone =
      count_where-update_removed (is_due now) (is_pending r.seq) (deliver_row now) d.outbox
        (λ s t. ground arith) in
    omega (arith, least, most, c.seqs r.seq, gone)

module _ (now : ℕ) (w : World Db) where
  pub next_outbox-some :
      (r : OutboxRow)
      → w.faults ≡ []
      → first_by earlier (is_due now) w.db.outbox ≡ some r
      → next_outbox now w ≡ (ok r, w)
  unfolding next_outbox statement
  next_outbox-some r f e = rw (f, e) refl

  pub next_outbox-none :
      w.faults ≡ []
      → first_by earlier (is_due now) w.db.outbox ≡ none
      → next_outbox now w ≡ (err nothing_available, w)
  unfolding next_outbox statement
  next_outbox-none f e = rw (f, e) refl

  pub marked :
      (seq : ℕ)
      → w.faults ≡ []
      → (mark_outbox_delivered seq now w).1
        ≡ record { db = (set_delivered seq now w.db).1; faults = [] }
  unfolding mark_outbox_delivered statement set_delivered
  marked seq f = elim (Bool-cases (count_where (is_pending seq) w.db.outbox == 1)) [
    | inl e ↦ rw (f, e) refl
    | inr e ↦ rw (f, e) refl
  ]
