-- ===== src/Store/Settling.antt =====
-- The transaction of Settle: what its statements do together.
use ubi_quic_e_xtreme_zero_t.Prelude.{
  if◌then◌else◌, All, any_where, count_where, update_where, All-append, teq, Text, teq_iff, ok, ℕ,
  ◌≡◌, refl, Bool, true, false, ◌&&◌, ◌||◌, some, List, [], ◌∷◌, ◌++◌, arith,
}
use ubi_quic_e_xtreme_zero_t.Prelude.Tables.{
  count_where-append, count_where_disjoint, count_where-update_same, count_where-update_new,
  All-update_where, count_where_cong, count_where-and_const,
}
use ubi_quic_e_xtreme_zero_t.Sql.{World, statement}
use ubi_quic_e_xtreme_zero_t.Envelope.{ControlKind, ControlFrame, DeliveryState}
use ubi_quic_e_xtreme_zero_t.Store.Rows.{
  Db, SettlementRow, can_settle, update_events, insert_settlement, insert_history,
}
use ubi_quic_e_xtreme_zero_t.Store.{
  settle_row, settlement, settle_body, settled_state, control_entry,
}
use ubi_quic_e_xtreme_zero_t.Store.Invariant.{
  IsSound, IsConsistent, Stored, settled_as, settles_as, settlement_of, settled_event, id_is,
  key_is,
}

-- The database after the statements of the transaction.
unfoldable pub settled_db : DeliveryState → ControlFrame → ℕ → Db → Db
settled_db target f now d = record d {
  events = update_where (can_settle f now) (settle_row target now) d.events;
  settlements = (insert_settlement (settlement f) d).1.settlements;
  history = d.history ++ control_entry target f ∷ [];
}

-- The body succeeds only where exactly one row is held by the frame's worker under its token and a lease
-- that has not run out, and then all of its statements have been made.
pub settle_body_ok :
    (target : DeliveryState) (f : ControlFrame) (now : ℕ) (w : World Db)
    → (settle_body target f now w).0 ≡ ok tt
    → (count_where (can_settle f now) w.db.events ≡ 1)
      × ((settle_body target f now w).1.db ≡ settled_db target f now w.db)
unfolding settle_body statement settled_db update_events insert_settlement insert_history
settle_body_ok target f now w h = ground arith

no_settlement :
    (k : Text) (ss : List SettlementRow)
    → All (λ (s : SettlementRow). (settles_as true s.kind || settles_as false s.kind) ≡ true) ss
    → count_where (settlement_of true k) ss ≡ 0
    → count_where (settlement_of false k) ss ≡ 0
    → any_where (λ s. teq s.event_id k) ss ≡ false
no_settlement k [] a t e = refl
no_settlement k (s ∷ ss) a t e = ground (arith, a.0, no_settlement k ss a.1)

-- A frame kind and the state that it settles to.
target_outcome :
    (kind : ControlKind) (target : DeliveryState)
    → settled_state kind ≡ some target
    → (good : Bool) → settled_as good target ≡ settles_as good kind
target_outcome kind target e good = ground arith

target_kind :
    (kind : ControlKind) (target : DeliveryState)
    → settled_state kind ≡ some target
    → (settles_as true kind || settles_as false kind) ≡ true
target_kind kind target e = ground arith

module _ (target : DeliveryState) (f : ControlFrame) (now : ℕ) (d : Db)
    (kind : settled_state f.kind ≡ some target) (one : count_where (can_settle f now) d.events ≡ 1)
    (c : IsConsistent d) where
  not_settled : (good : Bool) → count_where (settlement_of good f.event_id) d.settlements ≡ 0
  not_settled good = omega (
    arith,
    one,
    c.ids f.event_id,
    c.settled good f.event_id,
    count_where_disjoint (can_settle f now) (settled_event good f.event_id) (id_is f.event_id)
        d.events (λ r t. ground arith) (λ r t. ground arith),
  )

  unsettled : any_where (λ s. teq s.event_id f.event_id) d.settlements ≡ false
  unsettled = no_settlement f.event_id d.settlements c.kinds (not_settled true) (not_settled false)

  -- The settlement that Settle writes is the first of its event.
  pub settlements-settled_db :
      (settled_db target f now d).settlements ≡ d.settlements ++ settlement f ∷ []
  unfolding settled_db insert_settlement settlement
  settlements-settled_db = ground (arith, unsettled)

  rows_settled :
      (good : Bool) (k : Text)
      → count_where
          (λ r. can_settle f now r && settled_event good k (settle_row target now r))
          d.events
        ≡ (if teq f.event_id k && settles_as good f.kind then 1 else 0)
  rows_settled good k = ground (
    arith,
    one,
    target_outcome f.kind target kind good,
    count_where-and_const (can_settle f now) (teq f.event_id k && settled_as good target) d.events,
    count_where_cong (λ r. can_settle f now r && settled_event good k (settle_row target now r))
        (λ r. can_settle f now r && (teq f.event_id k && settled_as good target)) d.events
        (λ r. ground (arith, teq_iff r.id f.event_id)),
  )

  pub settled_db-IsConsistent : IsConsistent (settled_db target f now d)
  unfolding settled_db settlement
  settled_db-IsConsistent = record {
    rows =
        All-update_where IsSound (can_settle f now) (settle_row target now) d.events
          (λ r t s. ground (arith, target_kind f.kind target kind)) c.rows;
    stored =
        All-update_where Stored (can_settle f now) (settle_row target now) d.events (λ r t s. s)
          c.stored;
    ids = λ k.
        rw
          (count_where-update_same (id_is k) (can_settle f now) (settle_row target now) d.events
            (λ r t. refl))
          (c.ids k);
    keys = λ k.
        rw
          (count_where-update_same (key_is k) (can_settle f now) (settle_row target now) d.events
            (λ r t. refl))
          (c.keys k);
    kinds = rw settlements-settled_db (
        All-append
          (λ (s : SettlementRow). (settles_as true s.kind || settles_as false s.kind) ≡ true)
          d.settlements _ c.kinds (target_kind f.kind target kind, tt));
    settled = λ good k. rw settlements-settled_db (
        ground (
          arith,
          c.settled good k,
          rows_settled good k,
          count_where-append (settlement_of good k) d.settlements (settlement f ∷ []),
          count_where-update_new (settled_event good k) (can_settle f now)
              (λ r. settled_event good k (settle_row target now r)) (settle_row target now) d.events
              (λ r t. ground arith),
        ));
    seqs = c.seqs;
    bounded = c.bounded;
  }
