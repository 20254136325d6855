-- ===== src/Cluster/Raft/Reaping.antt =====
-- cluster_raft.go: what ReapStale leaves in the state machine.
use ubi_quic_e_xtreme_zero_t.Prelude.{
  if◌then◌else◌, Bool-cases, All, teq, tlt, Text, text, teq_refl, teq-false, tlt_irrefl, tlt_trans,
  Result, ok, err, ℤ, ◌≡◌, refl, sym, ap, ◌∙◌, subst, inl, inr, true, false, List, [], ◌∷◌, ◌++◌,
  map, arith,
}
use mathlib.Core.List.{append_assoc}
use ubi_quic_e_xtreme_zero_t.Cluster.{ClusterNode, ClusterCommand, put_node, run_command}
use ubi_quic_e_xtreme_zero_t.Cluster.Machine.{IsMap, OwnKeys, Increasing, put_node-Increasing}
use ubi_quic_e_xtreme_zero_t.Cluster.Raft.{
  Raft, has_lapsed, and_then, upsert_node, reap_loop, reap_stale,
}

-- The nodes as they are to be: those whose heartbeat is too old are not healthy.
abbrev pub reaped : ℤ → List (Text × ClusterNode) → List (Text × ClusterNode)
reaped cutoff [] = []
reaped cutoff (e ∷ es) =
    (if has_lapsed cutoff e.1 then (e.0, record e.1 { healthy = false }) else e) ∷ reaped cutoff es

-- What is documented of a committed entry: this member's state machine has applied it, and nothing else since.
pub record IsCommitting {R : Type 0} (raft : Raft R) : Type 0 where
  pub applied :
      (c : ClusterCommand) (r : R)
      → (raft.apply_command c r).0 ≡ ok tt
      → raft.machine (raft.apply_command c r).1 ≡ (run_command c (raft.machine r)).1

All-middle : {A : Type 0} (P : A → Type 0) (xs ys : List A) (a : A) → All P (xs ++ a ∷ ys) → P a
All-middle P [] ys a h = h.0
All-middle P (x ∷ xs) ys a h = All-middle P xs ys a h.1

-- An upsert of an id that is there replaces its node in place.
put_node-present :
    (id : Text) (n m : ClusterNode) (front rest : List (Text × ClusterNode))
    → Increasing (front ++ (id, n) ∷ rest)
    → put_node id m (front ++ (id, n) ∷ rest) ≡ front ++ (id, m) ∷ rest
unfolding put_node
put_node-present id n m [] rest h = rw (teq_refl id) refl
put_node-present id n m (e ∷ front) rest h =
    let below : tlt e.0 id ≡ true = All-middle _ front rest (id, n) h.0 in
    let differs : teq e.0 id ≡ false =
      teq-false e.0 id (λ same. ground (arith, below, ap (λ v. tlt v id) same, tlt_irrefl id)) in
    let above : tlt id e.0 ≡ false =
      ground (arith, below, tlt_trans e.0 id e.0 below, tlt_irrefl e.0) in
    rw (differs, above) (ap (λ es. e ∷ es) (put_node-present id n m front rest h.1))

module _ {R : Type 0} (raft : Raft R) (law : IsCommitting raft) (cutoff : ℤ) where
  upsert_ok :
      (n : ClusterNode) (r : R)
      → (upsert_node raft n r).0 ≡ ok tt
      → (raft.machine (upsert_node raft n r).1).nodes ≡ put_node n.id n (raft.machine r).nodes
  unfolding upsert_node run_command teq
  upsert_ok n r h = elim (Bool-cases (raft.is_leader r)) [
    | inl e ↦
        let c : ClusterCommand = record { op = text "upsert"; node = n } in
        let sent : upsert_node raft n r ≡ raft.apply_command c r = rw e refl in
        ap (λ p. (raft.machine p.1).nodes) sent
        ∙ ap (λ s. s.nodes) (law.applied c r (sym (ap (λ p. p.0) sent) ∙ h))
    | inr e ↦ absurd (ground (arith, h, e))
  ]

  and_then_ok :
      (p : Result (Unit {0}) × R) (k : R → Result (Unit {0}) × R)
      → (and_then raft p k).0 ≡ ok tt
      → (p.0 ≡ ok tt) × (and_then raft p k ≡ k p.1)
  and_then_ok (ok u, r) k h = (refl, refl)
  and_then_ok (err x, r) k h = absurd (ground (arith, h))

  reap_loop_ok :
      (front rest : List (Text × ClusterNode)) (r : R)
      → (raft.machine r).nodes ≡ front ++ rest
      → Increasing (front ++ rest)
      → OwnKeys rest
      → (reap_loop raft cutoff rest r).0 ≡ ok tt
      → (raft.machine (reap_loop raft cutoff rest r).1).nodes ≡ front ++ reaped cutoff rest
  unfolding reap_loop
  reap_loop_ok front [] r m i k h = m
  reap_loop_ok front (e ∷ es) r m i k h = elim (Bool-cases (has_lapsed cutoff e.1)) [
    | inl a ↦
        let down : ClusterNode = record e.1 { healthy = false } in
        let p = upsert_node raft down r in
        let opened : reap_loop raft cutoff (e ∷ es) r ≡ and_then raft p (reap_loop raft cutoff es) =
          rw a refl in
        let (fine, next) =
          and_then_ok p (reap_loop raft cutoff es) (sym (ap (λ v. v.0) opened) ∙ h) in
        let placed_at : (raft.machine p.1).nodes ≡ front ++ (e.0, down) ∷ es =
          upsert_ok down r fine
          ∙ ap (put_node e.1.id down) m
          ∙ ap (λ id. put_node id down (front ++ e ∷ es)) (sym k.0)
          ∙ put_node-present e.0 e.1 down front es i in
        let ordered : Increasing (front ++ (e.0, down) ∷ es) =
          subst Increasing (put_node-present e.0 e.1 down front es i)
            (put_node-Increasing e.0 down (front ++ e ∷ es) i) in
        let f : Text × ClusterNode = (e.0, down) in
        let split = append_assoc front (f ∷ []) es in
        let rest =
          reap_loop_ok (front ++ f ∷ []) es p.1 (placed_at ∙ sym split)
            (subst Increasing (sym split) ordered) k.1 (sym (ap (λ v. v.0) (opened ∙ next)) ∙ h) in
        ap (λ v. (raft.machine v.1).nodes) (opened ∙ next)
        ∙ rest
        ∙ append_assoc front (f ∷ []) (reaped cutoff es)
        ∙ rw a refl
    | inr a ↦
        let split = append_assoc front (e ∷ []) es in
        let same : reap_loop raft cutoff (e ∷ es) r ≡ reap_loop raft cutoff es r = rw a refl in
        let rest =
          reap_loop_ok (front ++ e ∷ []) es r (m ∙ sym split) (subst Increasing (sym split) i) k.1
            (sym (ap (λ v. v.0) same) ∙ h) in
        ap (λ v. (raft.machine v.1).nodes) same
        ∙ rest
        ∙ append_assoc front (e ∷ []) (reaped cutoff es)
        ∙ rw a refl
  ]

  -- Where the library's commits reach the state machine of this member with no other entry in between, and the map
  -- holds each node under its own id, a call of ReapStale that succeeds leaves the same nodes in the map,
  -- those that were healthy with a heartbeat before the cutoff marked as not healthy, and no other
  -- changed.
  pub reap_stale_ok :
      (r : R)
      → IsMap (raft.machine r)
      → (reap_stale raft cutoff r).0 ≡ ok tt
      → (raft.machine (reap_stale raft cutoff r).1).nodes ≡ reaped cutoff (raft.machine r).nodes
  unfolding reap_stale
  reap_stale_ok r map h = elim (Bool-cases (raft.is_leader r)) [
    | inl e ↦
        let nodes = (raft.machine r).nodes in
        let led : reap_stale raft cutoff r ≡ reap_loop raft cutoff nodes r = rw e refl in
        ap (λ p. (raft.machine p.1).nodes) led
        ∙ reap_loop_ok [] nodes r refl map.order map.keys (sym (ap (λ p. p.0) led) ∙ h)
    | inr e ↦ absurd (ground (arith, h, e))
  ]
