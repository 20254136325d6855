-- ===== src/Store/Fencing.antt =====
-- Fencing tokens: a worker whose event has been leased again can no longer settle it or mark it as received.
use ubi_quic_e_xtreme_zero_t.Prelude.{
  Bool-cases, find_where, count_where, update_where, All-map, Text, teq_refl, result_cases, Error,
  ok, err, ℤ, ℕ, ◌+◌, ◌≤◌, ◌<◌, ◌≡◌, refl, ap, ◌≢◌, inl, inr, Bool, true, some, List, arith,
}
use ubi_quic_e_xtreme_zero_t.Prelude.Tables.{
  only_row, find_where-first_by, find_where-update_where, count_where_zero, update_where_none,
}
use ubi_quic_e_xtreme_zero_t.Sql.{World, statement}
use ubi_quic_e_xtreme_zero_t.Envelope.{ControlFrame, ClaimedEvent}
use ubi_quic_e_xtreme_zero_t.Store.Rows.{
  Db, EventRow, older, is_waiting, can_settle, can_receive, is_holder, lease_row, update_events,
  insert_history,
}
use ubi_quic_e_xtreme_zero_t.Store.{claim, settle, mark_received, receive_row, milliseconds}
use ubi_quic_e_xtreme_zero_t.Store.Invariant.{IsConsistent, id_is}
use ubi_quic_e_xtreme_zero_t.Store.Run.{Op, claims, step, run}
use ubi_quic_e_xtreme_zero_t.Store.Run.Rules.{step-invariant, run-invariant}
use ubi_quic_e_xtreme_zero_t.Store.Consistency.{IsConsistent-invariant}
use ubi_quic_e_xtreme_zero_t.Store.Lifecycle.Laws.{find-run, Moves-Follows}
use ubi_quic_e_xtreme_zero_t.Store.Claiming.{claim_ok}
use ubi_quic_e_xtreme_zero_t.Store.Outcome.{settle_atomic}

-- No event meets a test that asks for the frame's token on the frame's event.
none_meets :
    (p : EventRow → Bool) (f : ControlFrame) (w : World Db) (s : EventRow)
    → IsConsistent w.db
    → find_where (id_is f.event_id) w.db.events ≡ some s
    → s.fencing_token ≢ f.fencing_token
    → ((r : EventRow) → p r ≡ true → is_holder f r ≡ true)
    → count_where p w.db.events ≡ 0
none_meets p f w s c e h holds = count_where_zero p w.db.events (
    All-map (λ r. id_is f.event_id r ≡ true → r ≡ s) _ w.db.events
      (λ r only. elim (Bool-cases (p r)) [
        | inl t ↦
            let held = holds r t in
            let same : r ≡ s = only (ground (arith, held)) in
            absurd (ground (arith, held, ap (λ (z : EventRow). z.fencing_token) same))
        | inr t ↦ t
      ])
      (only_row (id_is f.event_id) w.db.events s (c.ids f.event_id) e))

-- A frame whose token is not the event's current one settles nothing.
pub settle_fenced :
    (f : ControlFrame) (now : ℕ) (w : World Db) (s : EventRow)
    → IsConsistent w.db
    → find_where (id_is f.event_id) w.db.events ≡ some s
    → s.fencing_token ≢ f.fencing_token
    → (x : Error) × ((settle f now w).0 ≡ err x) × ((settle f now w).1.db ≡ w.db)
settle_fenced f now w s c e h =
    let none_held = none_meets (can_settle f now) f w s c e h (λ r t. ground arith) in
    elim (settle_atomic f now w) [
      | inr r ↦ r
      | inl (target, k, v, one, r, d) ↦ absurd (omega (arith, one, none_held))
    ]

-- A receipt that no event meets.
receive_unmet :
    (f : ControlFrame) (now : ℕ) (w : World Db)
    → count_where (can_receive f now) w.db.events ≡ 0
    → (x : Error) × ((mark_received f now w).0 ≡ err x) × ((mark_received f now w).1.db ≡ w.db)
unfolding mark_received statement update_events insert_history
receive_unmet f now w h =
    let same = update_where_none (can_receive f now) (receive_row now) w.db.events h in
    let kept : record w.db {
      events = update_where (can_receive f now) (receive_row now) w.db.events;
    }
        ≡ w.db =
      ap (λ rows. record w.db { events = rows }) same in
    elim (result_cases (mark_received f now w).0) [
      | inl (u, e) ↦ absurd (ground (arith, h, e))
      | inr (x, e) ↦ (x, e, ground (arith, h, kept))
    ]

-- Nor does a receipt with such a token mark anything.
pub receive_fenced :
    (f : ControlFrame) (now : ℕ) (w : World Db) (s : EventRow)
    → IsConsistent w.db
    → find_where (id_is f.event_id) w.db.events ≡ some s
    → s.fencing_token ≢ f.fencing_token
    → (x : Error) × ((mark_received f now w).0 ≡ err x) × ((mark_received f now w).1.db ≡ w.db)
receive_fenced f now w s c e h =
    receive_unmet f now w (none_meets (can_receive f now) f w s c e h (λ r t. ground arith))

module _ (worker : Text) (lease : ℤ) (now : ℕ) (w : World Db) (c : ClaimedEvent)
    (v : IsConsistent w.db) (claimed : (claim worker lease now w).0 ≡ ok c) where
  abbrev after_claim : World Db
  after_claim = (claim worker lease now w).1

  after_claim-IsConsistent : IsConsistent after_claim.db
  unfolding step
  after_claim-IsConsistent = step-invariant IsConsistent-invariant w (now, claims worker lease) v

  -- The row before the claim, and after it under the token of the lease.
  claimed_row :
      (r : EventRow) × (find_where (id_is c.lease.event_id) w.db.events ≡ some r)
      × (c.lease.fencing_token ≡ r.fencing_token + 1)
      × (s : EventRow) × (find_where (id_is c.lease.event_id) after_claim.db.events ≡ some s)
      × (s.fencing_token ≡ c.lease.fencing_token)
  claimed_row =
      let (k, _) = claim_ok worker lease now w c v claimed in
      let there =
        find_where-first_by older (λ r. is_waiting r.state) (id_is k.row.id) w.db.events k.row
          (v.ids k.row.id) k.found (teq_refl k.row.id) in
      let next = lease_row worker (now + milliseconds lease) now in
      (
        k.row,
        ground (arith, there, k.lease),
        ground (arith, k.lease),
        next k.row,
        ground (
          arith,
          k.lease,
          k.events,
          find_where-update_where (id_is k.row.id) next w.db.events k.row (λ r. refl) there,
        ),
        ground (arith, k.lease),
      )

  -- The token of a lease is a lower bound of the event's token for ever after.
  token_grows :
      (cs : List (ℕ × Op))
      → (s : EventRow) × (find_where (id_is c.lease.event_id) (run after_claim cs).db.events
          ≡ some s)
        × (c.lease.fencing_token ≤ s.fencing_token)
  token_grows cs =
      let (r, before, t, s, here, q) = claimed_row in
      let (u, found, m) =
        find-run after_claim cs after_claim-IsConsistent c.lease.event_id s here in
      let f = Moves-Follows m in (u, found, omega (arith, f.token, q))

-- A later claim of the same event, after any history, gives a greater token.
pub claim-token-lt :
    (worker other : Text) (lease term : ℤ) (now later : ℕ) (w : World Db) (cs : List (ℕ × Op))
    (a b : ClaimedEvent)
    → IsConsistent w.db
    → (claim worker lease now w).0 ≡ ok a
    → (claim other term later (run (claim worker lease now w).1 cs)).0 ≡ ok b
    → b.lease.event_id ≡ a.lease.event_id
    → a.lease.fencing_token < b.lease.fencing_token
claim-token-lt worker other lease term now later w cs a b v p q e =
    let w' = (claim worker lease now w).1 in
    let v' =
      run-invariant IsConsistent-invariant w' cs
        (after_claim-IsConsistent worker lease now w a v p) in
    let (s, found, grown) = token_grows worker lease now w a v p cs in
    let (r, before, t, r', after, t') = claimed_row other term later (run w' cs) b v' q in
    ground (arith, found, before, e, t, grown)

-- Once an event has been leased again, a frame that carries the first lease's token is refused by Settle
-- and by MarkReceived in every later state of the store, whoever sends it and whenever, and changes
-- nothing.
pub stale_worker_fenced :
    (worker other : Text) (lease term : ℤ) (now later last : ℕ) (w : World Db)
    (cs ds : List (ℕ × Op)) (a b : ClaimedEvent) (f : ControlFrame)
    → IsConsistent w.db
    → (claim worker lease now w).0 ≡ ok a
    → (claim other term later (run (claim worker lease now w).1 cs)).0 ≡ ok b
    → b.lease.event_id ≡ a.lease.event_id
    → f.event_id ≡ a.lease.event_id
    → f.fencing_token ≡ a.lease.fencing_token
    → let z = run (claim other term later (run (claim worker lease now w).1 cs)).1 ds in
      ((x : Error) × ((settle f last z).0 ≡ err x) × ((settle f last z).1.db ≡ z.db))
      × ((x : Error) × ((mark_received f last z).0 ≡ err x)
          × ((mark_received f last z).1.db ≡ z.db))
stale_worker_fenced worker other lease term now later last w cs ds a b f v p q e i t =
    let w' = (claim worker lease now w).1 in
    let v' =
      run-invariant IsConsistent-invariant w' cs
        (after_claim-IsConsistent worker lease now w a v p) in
    let u = (claim other term later (run w' cs)).1 in
    let v'' =
      run-invariant IsConsistent-invariant u ds
        (after_claim-IsConsistent other term later (run w' cs) b v' q) in
    let (s, found, grown) = token_grows other term later (run w' cs) b v' q ds in
    let less = claim-token-lt worker other lease term now later w cs a b v p q e in
    let here : find_where (id_is f.event_id) (run u ds).db.events ≡ some s =
      ground (arith, i, e, found) in
    let differs : s.fencing_token ≢ f.fencing_token = omega (arith, less, grown, t) in
    (
      settle_fenced f last (run u ds) s v'' here differs,
      receive_fenced f last (run u ds) s v'' here differs,
    )
