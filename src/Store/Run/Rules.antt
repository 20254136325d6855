-- ===== src/Store/Run/Rules.antt =====
-- What every statement of the control store keeps, every history of it keeps.
use ubi_quic_e_xtreme_zero_t.Prelude.{
  Text, Error, ok, ℤ, ℕ, ◌≡◌, refl, Option, none, some, List, [], ◌∷◌,
}
use ubi_quic_e_xtreme_zero_t.Sql.{World, M, statement}
use ubi_quic_e_xtreme_zero_t.Sql.Keeps.{
  Keeps, Keeps-lift-bind, Keeps-statement, Keeps-transaction, Keeps-bind, Keeps-lift, keeps_rules,
}
use ubi_quic_e_xtreme_zero_t.Envelope.{
  validate, marshal, Envelope, Blob, ControlFrame, DeliveryState,
}
use ubi_quic_e_xtreme_zero_t.Store.Rows.{
  Db, HistoryRow, insert_event, select_envelope, insert_history, claim_event, can_receive,
  has_expired, update_events,
}
use ubi_quic_e_xtreme_zero_t.Store.{
  publish, claim, mark_received, settle, settle_to, settled_state, requeue_expired, state_of,
  enqueue_outbox, next_outbox, mark_outbox_delivered, settle_body, receive_row, expire_row,
  rows_affected, rows_affected_or_zero, on_no_rows, insert_outbox, set_delivered,
}
use ubi_quic_e_xtreme_zero_t.Store.Run.{
  Op, publishes, claims, receives, settles, requeues, reads_state, enqueues, reads_outbox, delivers,
  step, run,
}

-- Rules for the database layer's own combinators.
module _ {P : Db → Type 0} where
  pub Keeps-rows_affected : (n : ℕ) → Keeps P (rows_affected n)
  Keeps-rows_affected n = Keeps-statement _ (λ d h. h)

  pub Keeps-or_zero : (n : ℕ) → Keeps P (rows_affected_or_zero n)
  Keeps-or_zero n = record { across = λ w h. (Keeps-rows_affected n).across w h }

  pub Keeps-on_no_rows :
      {A : Type 0} (e : Error) (m : M Db A) → Keeps P m → Keeps P (on_no_rows e m)
  Keeps-on_no_rows e m k = record { across = k.across }

-- A property of the database that every statement of the store keeps.
pub record IsInvariant (P : Db → Type 0) : Type 0 where
  pub inserts :
      (env : Envelope) (raw : Blob) (now : ℕ) (d : Db)
      → validate env ≡ ok tt
      → marshal env ≡ ok raw
      → P d
      → P (insert_event env raw now d).1
  pub leases : (worker : Text) (until now : ℕ) (d : Db) → P d → P (claim_event worker until now d).1
  pub receipt :
      (f : ControlFrame) (now : ℕ) (d : Db)
      → P d
      → P (update_events (can_receive f now) (receive_row now) d).1
  pub settling :
      (target : DeliveryState) (f : ControlFrame) (now : ℕ) (w : World Db)
      → settled_state f.kind ≡ some target
      → P w.db
      → (settle_body target f now w).0 ≡ ok tt
      → P (settle_body target f now w).1.db
  pub expiry : (now : ℕ) (d : Db) → P d → P (update_events (has_expired now) (expire_row now) d).1
  pub logs : (h : HistoryRow) (d : Db) → P d → P (insert_history h d).1
  pub enqueues :
      (id transport : Text) (payload : Blob) (available : ℕ) (d : Db)
      → P d
      → P (insert_outbox id transport payload available d).1
  pub delivers : (seq at : ℕ) (d : Db) → P d → P (set_delivered seq at d).1

module _ {P : Db → Type 0} (inv : IsInvariant P) where
  history-Keeps : (h : HistoryRow) → Keeps P (statement (insert_history h))
  history-Keeps h = Keeps-statement _ (inv.logs h)

  select-Keeps : (key : Text) → Keeps P (statement (select_envelope key))
  unfolding select_envelope
  select-Keeps key = Keeps-statement _ (λ d p. p)

  insert-Keeps :
      (env : Envelope) (raw : Blob) (now : ℕ)
      → validate env ≡ ok tt
      → marshal env ≡ ok raw
      → Keeps P (statement (insert_event env raw now))
  insert-Keeps env raw now valid made =
      Keeps-statement _ (λ d h. inv.inserts env raw now d valid made h)

  publish-Keeps : (env : Envelope) (now : ℕ) → Keeps P (publish env now)
  unfolding publish
  publish-Keeps env now = Keeps-lift-bind (validate env) _ λ u valid.
      Keeps-lift-bind (marshal env) _ λ raw made.
        Keeps-bind _ _ (insert-Keeps env raw now valid made)
          λ n. search (keeps_rules, history-Keeps, select-Keeps, Keeps-rows_affected) depth 12

  claim_statement-Keeps :
      (worker : Text) (until now : ℕ) → Keeps P (statement (claim_event worker until now))
  claim_statement-Keeps worker until now = Keeps-statement _ (inv.leases worker until now)

  claim-Keeps : (worker : Text) (lease : ℤ) (now : ℕ) → Keeps P (claim worker lease now)
  unfolding claim
  claim-Keeps worker lease now =
      search (keeps_rules, history-Keeps, claim_statement-Keeps, Keeps-on_no_rows) depth 12

  receive-Keeps :
      (f : ControlFrame) (now : ℕ)
      → Keeps P (statement (update_events (can_receive f now) (receive_row now)))
  receive-Keeps f now = Keeps-statement _ (inv.receipt f now)

  mark_received-Keeps : (f : ControlFrame) (now : ℕ) → Keeps P (mark_received f now)
  unfolding mark_received
  mark_received-Keeps f now =
      search (keeps_rules, history-Keeps, receive-Keeps, Keeps-or_zero) depth 12

  settle_to-Keeps :
      (target : Option DeliveryState) (f : ControlFrame) (now : ℕ)
      → settled_state f.kind ≡ target
      → Keeps P (settle_to target f now)
  unfolding settle_to
  settle_to-Keeps none f now e = search keeps_rules
  settle_to-Keeps (some target) f now e =
      Keeps-bind _ _ (Keeps-lift _)
        (λ u. Keeps-transaction P _ (λ w a h r. inv.settling target f now w e h r))

  settle-Keeps : (f : ControlFrame) (now : ℕ) → Keeps P (settle f now)
  unfolding settle
  settle-Keeps f now = settle_to-Keeps _ f now refl

  requeue-Keeps : (now : ℕ) → Keeps P (requeue_expired now)
  unfolding requeue_expired
  requeue-Keeps now =
      Keeps-bind _ _ (Keeps-statement _ (inv.expiry now)) (λ n. Keeps-rows_affected n)

  outbox_statement-Keeps :
      (id transport : Text) (payload : Blob) (available : ℕ)
      → Keeps P (statement (insert_outbox id transport payload available))
  outbox_statement-Keeps id transport payload available =
      Keeps-statement _ (inv.enqueues id transport payload available)

  outbox-Keeps :
      (id transport : Text) (payload : Blob) (available : ℕ)
      → Keeps P (enqueue_outbox id transport payload available)
  unfolding enqueue_outbox
  outbox-Keeps id transport payload available = search (keeps_rules, outbox_statement-Keeps)

  delivered_statement-Keeps : (seq now : ℕ) → Keeps P (statement (set_delivered seq now))
  delivered_statement-Keeps seq now = Keeps-statement _ (inv.delivers seq now)

  delivered-Keeps : (seq now : ℕ) → Keeps P (mark_outbox_delivered seq now)
  unfolding mark_outbox_delivered
  delivered-Keeps seq now = search (keeps_rules, delivered_statement-Keeps, Keeps-or_zero) depth 12

  state-Keeps : (id : Text) → Keeps P (state_of id)
  unfolding state_of
  state-Keeps id = Keeps-statement _ (λ d p. p)

  next-Keeps : (now : ℕ) → Keeps P (next_outbox now)
  unfolding next_outbox
  next-Keeps now = Keeps-on_no_rows _ _ (Keeps-statement _ (λ d p. p))

  pub step-invariant : (w : World Db) (c : ℕ × Op) → P w.db → P (step w c).db
  unfolding step
  step-invariant w (now, publishes env) h = (publish-Keeps env now).across w h
  step-invariant w (now, claims worker lease) h = (claim-Keeps worker lease now).across w h
  step-invariant w (now, receives f) h = (mark_received-Keeps f now).across w h
  step-invariant w (now, settles f) h = (settle-Keeps f now).across w h
  step-invariant w (now, requeues) h = (requeue-Keeps now).across w h
  step-invariant w (now, reads_state id) h = (state-Keeps id).across w h
  step-invariant w (now, enqueues id transport payload available) h =
      (outbox-Keeps id transport payload available).across w h
  step-invariant w (now, reads_outbox) h = (next-Keeps now).across w h
  step-invariant w (now, delivers seq) h = (delivered-Keeps seq now).across w h

  -- Every history keeps an invariant of the statements.
  pub run-invariant : (w : World Db) (cs : List (ℕ × Op)) → P w.db → P (run w cs).db
  unfolding run
  run-invariant w [] h = h
  run-invariant w (c ∷ cs) h = run-invariant (step w c) cs (step-invariant w c h)
