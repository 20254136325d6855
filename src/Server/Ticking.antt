-- ===== src/Server/Ticking.antt =====
-- server.go: what a tick of RunMaintenance does with the outbox.
use ubi_quic_e_xtreme_zero_t.Prelude.{
  Option-cases, length, All, first_by, update_where, result_cases, Error, Result, ok, err, ℕ, zero,
  suc, ◌+◌, ◌≤◌, ◌≡◌, refl, ap, ◌∙◌, ◌⊎◌, inl, inr, true, false, none, some, List, [], ◌∷◌, arith,
}
use ubi_quic_e_xtreme_zero_t.Prelude.Tables.{
  All-first_by, All-update_where, first_by-test, first_by_least, first_by-none, count_where_none,
}
use ubi_quic_e_xtreme_zero_t.Prelude.Sorting.{Sorted}
use ubi_quic_e_xtreme_zero_t.Server.Marking.{
  due_count, marked_count, next_outbox-some, next_outbox-none, marked,
}
use ubi_quic_e_xtreme_zero_t.Sql.{World, statement}
use ubi_quic_e_xtreme_zero_t.Envelope.{Envelope, unmarshal}
use ubi_quic_e_xtreme_zero_t.Store.Rows.{Db, OutboxRow, update_events}
use ubi_quic_e_xtreme_zero_t.Store.{
  requeue_expired, set_delivered, is_due, is_pending, deliver_row, earlier,
}
use ubi_quic_e_xtreme_zero_t.Store.Invariant.{
  IsConsistent, delivered-IsConsistent, expire-IsConsistent,
}
use ubi_quic_e_xtreme_zero_t.Store.Maintenance.{earlier_between}
use ubi_quic_e_xtreme_zero_t.Transport.{IsTransport, Registry, get}
use ubi_quic_e_xtreme_zero_t.Server.{
  State, drain_outbox, tick, next_round, outbox_round, attempt_record, retry,
}

abbrev pub mark_all : ℕ → List OutboxRow → List OutboxRow → List OutboxRow
mark_all now [] outbox = outbox
mark_all now (r ∷ rs) outbox =
    mark_all now rs (update_where (is_pending r.seq) (deliver_row now) outbox)

module _ {T N : Type 0} (impl : IsTransport T N)
    (send : T → Envelope → N → Result (Unit {0}) × N) where
  abbrev hand_over : Result Envelope → Result T → N → Result (Unit {0}) × N
  hand_over (err x) t n = (ok tt, n)
  hand_over (ok env) (err x) n = (err x, n)
  hand_over (ok env) (ok t) n = send t env n

  -- What becomes of a record: Publish of its envelope on its transport, an error where the transport is not
  -- registered, and nothing where the payload is not an envelope.
  abbrev pub handed : Registry impl → OutboxRow → N → Result (Unit {0}) × N
  handed registry r n = hand_over (unmarshal r.payload) (get impl r.transport registry) n

  -- The network after the records.
  abbrev pub after_all : Registry impl → List OutboxRow → N → N
  after_all registry [] n = n
  after_all registry (r ∷ rs) n = after_all registry rs (handed registry r n).1

  -- No record is refused.
  abbrev pub Taken : Registry impl → List OutboxRow → N → Type 0
  Taken registry [] n = Unit
  Taken registry (r ∷ rs) n =
      ((handed registry r n).0 ≡ ok tt) × Taken registry rs (handed registry r n).1

  -- Why the loop over the outbox ends with the records: the rounds are used up, no record is due any more, or
  -- the first record that is due is refused.
  abbrev pub Ends : Registry impl → ℕ → ℕ → List OutboxRow → N → State N → Type 0
  Ends registry rounds now rows n t =
      ((length rows ≡ rounds) × (t.network ≡ after_all registry rows n))
      ⊎ ((due_count now t.world.db ≡ 0) × (t.network ≡ after_all registry rows n))
      ⊎ ((r : OutboxRow) × (x : Error) × (first_by earlier (is_due now) t.world.db.outbox ≡ some r)
          × ((handed registry r (after_all registry rows n)).0 ≡ err x)
          × (t.network ≡ (handed registry r (after_all registry rows n)).1))

  -- What the loop over the outbox makes of a state: the records that it is done with were due, in the order of
  -- their numbers, and none of them was refused; they and no others are marked.
  pub record Drained (registry : Registry impl) (rounds now : ℕ) (s t : State N) : Type 1 where
    pub rows : List OutboxRow
    pub bounded : length rows ≤ rounds
    pub due :
        (P : OutboxRow → Type 0)
        → All (λ r. is_due now r ≡ true → P r) s.world.db.outbox
        → All P rows
    pub order : Sorted earlier rows
    pub taken : Taken registry rows s.network
    pub marked : t.world.db ≡ record s.world.db { outbox = mark_all now rows s.world.db.outbox }
    pub count : length rows + due_count now t.world.db ≡ due_count now s.world.db
    pub hub : t.hub ≡ s.hub
    pub ends : Ends registry rounds now rows s.network t

  next_round-none :
      (registry : Registry impl) (now : ℕ) (s : State N)
      → s.world.faults ≡ []
      → first_by earlier (is_due now) s.world.db.outbox ≡ none
      → next_round impl send registry now s ≡ (false, s)
  unfolding next_round
  next_round-none registry now s f e =
      ap (λ next. outbox_round impl send registry next.0 now (record s { world = next.1 }))
        (next_outbox-none now s.world f e)

  next_round-some :
      (registry : Registry impl) (now : ℕ) (s : State N) (r : OutboxRow)
      → s.world.faults ≡ []
      → first_by earlier (is_due now) s.world.db.outbox ≡ some r
      → next_round impl send registry now s
        ≡ attempt_record impl send registry r (unmarshal r.payload) now s
  unfolding next_round
  next_round-some registry now s r f e =
      ap (λ next. outbox_round impl send registry next.0 now (record s { world = next.1 }))
        (next_outbox-some now s.world r f e)

  abbrev next_state : Registry impl → OutboxRow → ℕ → State N → State N
  next_state registry r now s = record {
    world = record { db = (set_delivered r.seq now s.world.db).1; faults = [] };
    hub = s.hub;
    network = (handed registry r s.network).1;
  }

  attempt_ok :
      (registry : Registry impl) (now : ℕ) (s : State N) (r : OutboxRow)
      → s.world.faults ≡ []
      → (handed registry r s.network).0 ≡ ok tt
      → attempt_record impl send registry r (unmarshal r.payload) now s
        ≡ (true, next_state registry r now s)
  attempt_ok registry now s r f h = elim (result_cases (unmarshal r.payload)) [
    | inr (x, q) ↦ rw q (rw (marked now s.world r.seq f) refl)
    | inl (env, q) ↦ elim (result_cases (get impl r.transport registry)) [
      | inr (x, g) ↦ absurd (ground (arith, h, q, g))
      | inl (t, g) ↦
          let takes : (send t env s.network).0 ≡ ok tt = ground (arith, h, q, g) in
          rw (q, g, retry, takes) (rw (marked now s.world r.seq f) refl)
    ]
  ]

  attempt_err :
      (registry : Registry impl) (now : ℕ) (s : State N) (r : OutboxRow) (x : Error)
      → (handed registry r s.network).0 ≡ err x
      → attempt_record impl send registry r (unmarshal r.payload) now s
        ≡ (false, record s { network = (handed registry r s.network).1 })
  attempt_err registry now s r x h = elim (result_cases (unmarshal r.payload)) [
    | inr (y, q) ↦ absurd (ground (arith, h, q))
    | inl (env, q) ↦ elim (result_cases (get impl r.transport registry)) [
      | inr (y, g) ↦ rw (q, g) refl
      | inl (t, g) ↦
          let fails : (send t env s.network).0 ≡ err x = ground (arith, h, q, g) in
          rw (q, g, retry, fails) refl
    ]
  ]

  module _ (registry : Registry impl) (now : ℕ) where
    Drained-nothing :
        (rounds : ℕ) (s t : State N)
        → t.world ≡ s.world
        → t.hub ≡ s.hub
        → Ends registry rounds now [] s.network t
        → Drained registry rounds now s t
    Drained-nothing rounds s t w h e = record {
      rows = [];
      bounded = omega arith;
      due = λ P a. tt;
      order = tt;
      taken = tt;
      marked = ap (λ z. z.db) w;
      count = omega (arith, ap (λ z. due_count now z.db) w);
      hub = h;
      ends = e;
    }

    -- Due rows of the outbox after a record is marked were due before.
    due_before :
        (P : OutboxRow → Type 0) (seq : ℕ) (rows : List OutboxRow)
        → All (λ r. is_due now r ≡ true → P r) rows
        → All
            (λ r. is_due now r ≡ true → P r)
            (update_where (is_pending seq) (deliver_row now) rows)
    due_before P seq rows h =
        All-update_where _ (is_pending seq) (deliver_row now) rows
          (λ r t k d. absurd (ground (arith, d))) h

    Drained-next :
        (rounds : ℕ) (s t : State N) (r : OutboxRow)
        → IsConsistent s.world.db
        → first_by earlier (is_due now) s.world.db.outbox ≡ some r
        → (handed registry r s.network).0 ≡ ok tt
        → Drained registry rounds now (next_state registry r now s) t
        → Drained registry (suc rounds) now s t
    unfolding set_delivered
    Drained-next rounds s t r c e h d = record {
      rows = r ∷ d.rows;
      bounded = omega (arith, d.bounded);
      due = λ P a. (
        All-first_by earlier (is_due now) _ s.world.db.outbox r a e
            (first_by-test earlier (is_due now) s.world.db.outbox r e),
        d.due P (due_before P r.seq s.world.db.outbox a),
      );
      order = (
        d.due (λ y. earlier y r ≡ false)
            (due_before _ r.seq s.world.db.outbox (
              first_by_least earlier (is_due now) (λ a. ground arith) (λ a b t. ground arith)
                earlier_between s.world.db.outbox r e)),
        d.order,
      );
      taken = (h, d.taken);
      marked = d.marked;
      count = omega (arith, d.count, marked_count now s.world.db r c e);
      hub = d.hub;
      ends = elim d.ends [
        | inl (n, q) ↦ inl (ap suc n, q)
        | inr (inl q) ↦ inr (inl q)
        | inr (inr q) ↦ inr (inr q)
      ];
    }

    drained :
        (rounds : ℕ) (s : State N)
        → s.world.faults ≡ []
        → IsConsistent s.world.db
        → Drained registry rounds now s (drain_outbox impl send registry rounds now s)
    unfolding drain_outbox
    drained zero s f c = Drained-nothing zero s s refl refl (inl (refl, refl))
    drained (suc rounds) s f c =
        elim (Option-cases (first_by earlier (is_due now) s.world.db.outbox)) [
          | inl e ↦
              let empty : due_count now s.world.db ≡ 0 =
                count_where_none (is_due now) s.world.db.outbox
                  (first_by-none earlier (is_due now) s.world.db.outbox e) in
              rw (next_round-none registry now s f e)
                (Drained-nothing (suc rounds) s s refl refl (inr (inl (empty, refl))))
          | inr (r, e) ↦ elim (result_cases (handed registry r s.network).0) [
            | inr (x, h) ↦
                rw (next_round-some registry now s r f e ∙ attempt_err registry now s r x h)
                  (Drained-nothing (suc rounds) s _ refl refl (inr (inr (r, x, e, h, refl))))
            | inl (u, h) ↦
                rw (next_round-some registry now s r f e ∙ attempt_ok registry now s r f h) (
                  Drained-next rounds s _ r c e h (
                    drained rounds (next_state registry r now s) refl
                      (delivered-IsConsistent r.seq now s.world.db c)))
          ]
        ]

  requeue_expired_outbox :
      (now : ℕ) (w : World Db)
      → w.faults ≡ []
      → IsConsistent w.db
      → ((requeue_expired now w).1.faults ≡ [])
        × IsConsistent (requeue_expired now w).1.db
        × ((requeue_expired now w).1.db.outbox ≡ w.db.outbox)
  unfolding requeue_expired statement update_events
  requeue_expired_outbox now w f c = rw f (refl, expire-IsConsistent now w.db c, refl)

  -- Under a driver that does not fail and with consistent tables, whatever the transports do: a tick requeues
  -- the expired events, which leaves the outbox as it is, and is then done with at most 64 of the due
  -- records, in the order of their numbers. Each record whose payload is an envelope is published once, on
  -- its own transport, which takes it; one whose payload is not is handed to nobody. These records and no
  -- others are marked as delivered, and the rest of the tables and the hub stay as they are. The tick ends
  -- when it is done with 64 records, when no record is due any more, or at the first due record whose
  -- transport is not registered or fails on it, which stays due, as do all records after it.
  pub tick_outbox :
      (registry : Registry impl) (now : ℕ) (s : State N)
      → s.world.faults ≡ []
      → IsConsistent s.world.db
      → ((requeue_expired now s.world).1.db.outbox ≡ s.world.db.outbox)
        × Drained registry 64 now
            (record s { world = (requeue_expired now s.world).1 })
            (tick impl send registry now s)
  unfolding tick
  tick_outbox registry now s f c =
      let (g, k, same) = requeue_expired_outbox now s.world f c in
      (same, drained registry now 64 (record s { world = (requeue_expired now s.world).1 }) g k)
