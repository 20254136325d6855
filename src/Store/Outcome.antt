-- ===== src/Store/Outcome.antt =====
-- Settle and MarkReceived: all or nothing, and for the current holder of the lease only.
use ubi_quic_e_xtreme_zero_t.Prelude.{
  ◌==◌, if◌then◌else◌, Bool-cases, Option-cases, find_where, count_where, update_where, All-map,
  teq_iff, teq_refl, result_cases, Error, stale_lease, invalid_transition, Result, ok, err, ℕ, ◌<◌,
  ◌≡◌, refl, sym, ap, ◌∙◌, ◌↔◌, ◌⊎◌, inl, inr, true, Option, none, some, List, [], arith,
}
use ubi_quic_e_xtreme_zero_t.Prelude.Tables.{
  only_row, count_where_zero, count_where_mono, All-count_zero, All-find_where, find_where-none,
  count_where_none,
}
use ubi_quic_e_xtreme_zero_t.Sql.{World, statement, transaction}
use ubi_quic_e_xtreme_zero_t.Sql.Keeps.{transaction_cases}
use ubi_quic_e_xtreme_zero_t.Envelope.{
  ControlFrame, ControlKind, settled_ok, settled_error, control_received, control_settled_ok,
  control_settled_error, DeliveryState, validate_frame,
}
use ubi_quic_e_xtreme_zero_t.Store.Rows.{
  Db, EventRow, is_held, can_receive, can_settle, update_events, insert_settlement, insert_history,
}
use ubi_quic_e_xtreme_zero_t.Store.{
  settle, settle_to, settle_body, settled_state, mark_received, receive_row,
}
use ubi_quic_e_xtreme_zero_t.Store.Invariant.{IsSound, IsConsistent, id_is, is_some}
use ubi_quic_e_xtreme_zero_t.Store.Settling.{settle_body_ok, settled_db}

-- What a call of Settle can come to.
abbrev pub SettleCases : ControlFrame → ℕ → Db → Result (Unit {0}) → Db → Type 0
SettleCases f now d r e =
    ((target : DeliveryState) × (settled_state f.kind ≡ some target)
      × (validate_frame f ≡ ok tt)
      × (count_where (can_settle f now) d.events ≡ 1)
      × (r ≡ ok tt)
      × (e ≡ settled_db target f now d))
    ⊎ ((x : Error) × (r ≡ err x) × (e ≡ d))

settle_to_cases :
    (target : Option DeliveryState) (f : ControlFrame) (now : ℕ) (w : World Db)
    → settled_state f.kind ≡ target
    → SettleCases f now w.db (settle_to target f now w).0 (settle_to target f now w).1.db
unfolding settle_to
settle_to_cases none f now w e = inr (invalid_transition, refl, refl)
settle_to_cases (some target) f now w e = elim (result_cases (validate_frame f)) [
  | inr (x, q) ↦ inr (x, ground arith, ground arith)
  | inl (u, q) ↦ elim (transaction_cases (settle_body target f now) w) [
    | inr (x, r, d) ↦ inr (x, ground arith, ground arith)
    | inl (u', r, b, d) ↦
        let (one, made) = settle_body_ok target f now _ b in
        inl (target, e, q, one, ground arith, ground arith)
  ]
]

-- Whatever calls of the driver fail, Settle either succeeds, and then the frame was valid, exactly one
-- event was held by its worker under its token and a running lease, and the event, its settlement and
-- the history were written together; or it returns an error and has changed nothing.
pub settle_atomic :
    (f : ControlFrame) (now : ℕ) (w : World Db)
    → SettleCases f now w.db (settle f now w).0 (settle f now w).1.db
unfolding settle
settle_atomic f now w = settle_to_cases (settled_state f.kind) f now w refl

settle_counted :
    (target : DeliveryState) (f : ControlFrame) (now : ℕ) (d : Db)
    → settled_state f.kind ≡ some target
    → validate_frame f ≡ ok tt
    → (settle f now (record { db = d; faults = [] })).0
      ≡ (if count_where (can_settle f now) d.events == 1 then ok tt else err stale_lease)
unfolding settle transaction settle_body statement update_events insert_settlement insert_history
settle_counted target f now d k v = ground arith

-- The event of the frame is leased to the frame's worker, under its token and until after the time.
pub record Holds (f : ControlFrame) (now : ℕ) (r : EventRow) : Type 0 where
  pub owner : r.owner ≡ some f.worker_id
  pub token : r.fencing_token ≡ f.fencing_token
  pub until : ℕ
  pub lease : r.lease_until_ms ≡ some until
  pub running : now < until

can_settle_iff :
    (f : ControlFrame) (now : ℕ) (r : EventRow)
    → IsSound r
    → r.id ≡ f.event_id
    → (can_settle f now r ≡ true) ↔ Holds f now r
can_settle_iff f now r s e = (forth, back)
  where
    forth : can_settle f now r ≡ true → Holds f now r
    forth h = elim (Option-cases r.owner) [
      | inl o ↦ absurd (ground (arith, h, o))
      | inr (worker, o) ↦ elim (Option-cases r.lease_until_ms) [
        | inl l ↦ absurd (ground (arith, h, l))
        | inr (u, l) ↦ record {
          owner = o ∙ ap some ((teq_iff worker f.worker_id).0 (ground (arith, h, o)));
          token = ground (arith, h);
          until = u;
          lease = l;
          running = ground (arith, h, l);
        }
      ]
    ]

    back : Holds f now r → can_settle f now r ≡ true
    back h =
        let held : is_held r.state ≡ true = sym s.bounded ∙ ap is_some h.lease in
        rw (e, teq_refl f.event_id, h.owner, teq_refl f.worker_id, h.token, held, h.lease)
          (ground (arith, h.running))

-- One event at most has the id.
settle_only :
    (f : ControlFrame) (now : ℕ) (d : Db) (r : EventRow)
    → IsConsistent d
    → find_where (id_is f.event_id) d.events ≡ some r
    → (count_where (can_settle f now) d.events ≡ 1) ↔ (can_settle f now r ≡ true)
settle_only f now d r c e = (forth, back)
  where
    forth : count_where (can_settle f now) d.events ≡ 1 → can_settle f now r ≡ true
    forth one = elim (Bool-cases (can_settle f now r)) [
      | inl t ↦ t
      | inr n ↦
          let no_row : count_where (can_settle f now) d.events ≡ 0 =
            count_where_zero (can_settle f now) d.events (
              All-map (λ s. id_is f.event_id s ≡ true → s ≡ r) _ d.events
                (λ s only. elim (Bool-cases (can_settle f now s)) [
                  | inl t ↦
                      absurd
                        (ground (arith, n, t, ap (can_settle f now) (only (ground (arith, t)))))
                  | inr t ↦ t
                ])
                (only_row (id_is f.event_id) d.events r (c.ids f.event_id) e)) in
          absurd (omega (arith, one, no_row))
    ]

    back : can_settle f now r ≡ true → count_where (can_settle f now) d.events ≡ 1
    back t =
        let most =
          count_where_mono (can_settle f now) (id_is f.event_id) d.events
            (λ s h. ground (arith, h)) in
        elim (Bool-cases (count_where (can_settle f now) d.events == 0)) [
          | inl z ↦
              let none_can = All-count_zero (can_settle f now) d.events (ground (arith, z)) in
              absurd
                (ground (arith, t, (All-find_where _ (id_is f.event_id) d.events r none_can e).0))
          | inr z ↦ ground (arith, z, most, c.ids f.event_id)
        ]

settling :
    (k : ControlKind) (target : DeliveryState)
    → settled_state k ≡ some target
    → (k ≡ control_settled_ok) ⊎ (k ≡ control_settled_error)
settling k target h = ground (arith, h)

target_of_kind :
    (k : ControlKind)
    → (k ≡ control_settled_ok) ⊎ (k ≡ control_settled_error)
    → (target : DeliveryState) × (settled_state k ≡ some target)
target_of_kind k (inl e) = (settled_ok, ap settled_state e)
target_of_kind k (inr e) = (settled_error, ap settled_state e)

-- With a driver that does not fail, Settle succeeds exactly for a valid frame of one of the two settling
-- kinds whose event is stored and leased to the frame's worker, under the frame's token and until after
-- the time of the call.
pub settle_iff :
    (f : ControlFrame) (now : ℕ) (d : Db)
    → IsConsistent d
    → ((settle f now (record { db = d; faults = [] })).0 ≡ ok tt) ↔ (
        ((f.kind ≡ control_settled_ok) ⊎ (f.kind ≡ control_settled_error))
        × (validate_frame f ≡ ok tt)
        × (r : EventRow) × (find_where (id_is f.event_id) d.events ≡ some r)
        × Holds f now r)
settle_iff f now d c = (forth, back)
  where
    forth :
        (settle f now (record { db = d; faults = [] })).0 ≡ ok tt
        → ((f.kind ≡ control_settled_ok) ⊎ (f.kind ≡ control_settled_error))
          × (validate_frame f ≡ ok tt)
          × (r : EventRow) × (find_where (id_is f.event_id) d.events ≡ some r)
          × Holds f now r
    forth h = elim (settle_atomic f now (record { db = d; faults = [] })) [
      | inr (x, e, kept) ↦ absurd (ground (arith, h, e))
      | inl (target, kind, valid, one, e, made) ↦
          elim (Option-cases (find_where (id_is f.event_id) d.events)) [
            | inl n ↦
                let least =
                  count_where_mono (can_settle f now) (id_is f.event_id) d.events
                    (λ s q. ground (arith, q)) in
                let zero_rows =
                  count_where_none (id_is f.event_id) d.events
                    (find_where-none (id_is f.event_id) d.events n) in
                absurd (omega (arith, one, least, zero_rows))
            | inr (r, q) ↦
                let (sound, same) = All-find_where IsSound (id_is f.event_id) d.events r c.rows q in
                (
                  settling f.kind target kind,
                  valid,
                  r,
                  q,
                  (can_settle_iff f now r sound ((teq_iff r.id f.event_id).0 same)).0
                      ((settle_only f now d r c q).0 one),
                )
          ]
    ]

    back :
        ((f.kind ≡ control_settled_ok) ⊎ (f.kind ≡ control_settled_error))
          × (validate_frame f ≡ ok tt)
          × (r : EventRow) × (find_where (id_is f.event_id) d.events ≡ some r)
          × Holds f now r
        → (settle f now (record { db = d; faults = [] })).0 ≡ ok tt
    back (k, valid, r, q, h) =
        let (sound, same) = All-find_where IsSound (id_is f.event_id) d.events r c.rows q in
        let one =
          (settle_only f now d r c q).1
            ((can_settle_iff f now r sound ((teq_iff r.id f.event_id).0 same)).1 h) in
        let (target, t) = target_of_kind f.kind k in
        settle_counted target f now d t valid ∙ ground (arith, one)

abbrev pub received_db : ControlFrame → ℕ → Db → List EventRow
received_db f now d = update_where (can_receive f now) (receive_row now) d.events

-- A receipt that is acknowledged has moved exactly one leased event, which its worker held under a running
-- lease. One that returns an error has changed no event, or has made the same update and then lost the
-- driver's report of the rows affected.
pub mark_received_cases :
    (f : ControlFrame) (now : ℕ) (w : World Db)
    → let r = mark_received f now w in
      ((r.0 ≡ ok tt)
        × (f.kind ≡ control_received)
        × (validate_frame f ≡ ok tt)
        × (count_where (can_receive f now) w.db.events ≡ 1)
        × (r.1.db.events ≡ received_db f now w.db))
      ⊎ ((x : Error) × (r.0 ≡ err x)
          × ((r.1.db.events ≡ w.db.events) ⊎ (r.1.db.events ≡ received_db f now w.db)))
unfolding mark_received statement update_events insert_history
mark_received_cases f now w = elim (result_cases (mark_received f now w).0) [
  | inl (u, e) ↦ inl (e, ground arith, ground arith, ground arith, ground arith)
  | inr (x, e) ↦ inr (x, e, ground arith)
]
