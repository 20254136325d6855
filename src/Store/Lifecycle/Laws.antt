-- ===== src/Store/Lifecycle/Laws.antt =====
-- What a row keeps while it moves along the delivery states.
use ubi_quic_e_xtreme_zero_t.Prelude.{
  Bool-cases, find_where, Text, ℕ, ◌≤◌, ◌≡◌, refl, ap, subst, inl, inr, Bool, true, some, List, [],
  ◌∷◌, arith,
}
use ubi_quic_e_xtreme_zero_t.Sql.{World}
use ubi_quic_e_xtreme_zero_t.Store.Rows.{Db, EventRow, is_held}
use ubi_quic_e_xtreme_zero_t.Store.Invariant.{IsConsistent, id_is, key_is}
use ubi_quic_e_xtreme_zero_t.Store.Run.{Op, run}
use ubi_quic_e_xtreme_zero_t.Store.Lifecycle.{
  Move, lease, receive, settle, expire, Moves, here, next, Evolves, Evolves-run, is_settled,
}

-- `s` is a later form of the row `r`: the same event, under a token that has not fallen. While the token
-- is the same, a row that is held was held before, by the same owner and until the same time.
pub record Follows (r s : EventRow) : Type 0 where
  pub id : s.id ≡ r.id
  pub key : s.idempotency_key ≡ r.idempotency_key
  pub envelope : s.envelope ≡ r.envelope
  pub created : s.created_at_ms ≡ r.created_at_ms
  pub token : r.fencing_token ≤ s.fencing_token
  pub held : is_held s.state ≡ true → s.fencing_token ≡ r.fencing_token → is_held r.state ≡ true
  pub owner : is_held s.state ≡ true → s.fencing_token ≡ r.fencing_token → s.owner ≡ r.owner
  pub until :
      is_held s.state ≡ true
      → s.fencing_token ≡ r.fencing_token
      → s.lease_until_ms ≡ r.lease_until_ms

Follows-Move : {r s t : EventRow} → Follows r s → Move s t → Follows r t
Follows-Move f (lease worker until now w e) = ground arith
Follows-Move f (receive now h l e) = ground arith
Follows-Move f (settle target now h l d e) = ground arith
Follows-Move f (expire now h o e) = ground arith

pub Moves-Follows : {r s : EventRow} → Moves r s → Follows r s
Moves-Follows here = record {
  id = refl;
  key = refl;
  envelope = refl;
  created = refl;
  token = omega arith;
  held = λ h e. h;
  owner = λ h e. refl;
  until = λ h e. refl;
}
Moves-Follows (next m st) = Follows-Move (Moves-Follows m) st

settled-Move : {r s t : EventRow} → is_settled r.state ≡ true → s ≡ r → Move s t → t ≡ r
settled-Move h q (lease worker until now w e) = ground arith
settled-Move h q (receive now k l e) = ground arith
settled-Move h q (settle target now k l d e) = ground arith
settled-Move h q (expire now k o e) = ground arith

-- No move leaves a settled state.
pub settled-Moves : {r s : EventRow} → is_settled r.state ≡ true → Moves r s → s ≡ r
settled-Moves h here = refl
settled-Moves h (next m st) = settled-Move h (settled-Moves h m) st

-- A test that reads only what a row keeps finds the same row later on.
find-Evolves :
    (p : EventRow → Bool) (rs ss : List EventRow) (r : EventRow)
    → ((x y : EventRow) → Follows x y → p y ≡ p x)
    → Evolves rs ss
    → find_where p rs ≡ some r
    → (s : EventRow) × (find_where p ss ≡ some s) × Moves r s
find-Evolves p [] ss r k e h = absurd (ground arith)
find-Evolves p (x ∷ rs) [] r k e h = elim e [ ]
find-Evolves p (x ∷ rs) (y ∷ ss) r k e h =
    let same = k x y (Moves-Follows e.0) in
    elim (Bool-cases (p x)) [
      | inl t ↦
          let q : x ≡ r = ground arith in (y, ground (arith, same), subst (λ z. Moves z y) q e.0)
      | inr t ↦
          let (s, found, m) = find-Evolves p rs ss r k e.1 (ground arith) in
          (s, ground (arith, same), m)
    ]

module _ (w : World Db) (cs : List (ℕ × Op)) (c : IsConsistent w.db) (k : Text) (r : EventRow)
    (found : find_where (id_is k) w.db.events ≡ some r) where
  -- After any history an event that was there is still there, and has moved along the machine.
  pub find-run : (s : EventRow) × (find_where (id_is k) (run w cs).db.events ≡ some s) × Moves r s
  find-run =
      find-Evolves (id_is k) w.db.events (run w cs).db.events r (λ x y f. rw f.id)
        (Evolves-run w cs c) found

  -- A settled event keeps its whole row through every history: its state, its token and its envelope.
  pub settled_forever :
      is_settled r.state ≡ true → find_where (id_is k) (run w cs).db.events ≡ some r
  settled_forever h = let (s, e, m) = find-run in rw e (ap some (settled-Moves h m))

-- The same for the event under an idempotency key.
pub find_key-run :
    (w : World Db) (cs : List (ℕ × Op)) (k : Text) (r : EventRow)
    → IsConsistent w.db
    → find_where (key_is k) w.db.events ≡ some r
    → (s : EventRow) × (find_where (key_is k) (run w cs).db.events ≡ some s) × Moves r s
find_key-run w cs k r c found =
    find-Evolves (key_is k) w.db.events (run w cs).db.events r (λ x y f. rw f.key)
      (Evolves-run w cs c) found
