-- ===== src/Cluster/Machine.antt =====
-- cluster_raft.go: what the state machine keeps, whatever the log and wherever it is restored from a snapshot.
use ubi_quic_e_xtreme_zero_t.Prelude.{
  if◌then◌else◌, Bool-cases, All, find_where, count_where, filter_where, All-map, All-filter_where,
  teq, tlt, Text, text, teq_iff, tlt_trans, tlt_total, Result, ok, err, ◌+◌, ◌%◌, ◌^◌, ◌<◌, ◌≡◌,
  refl, sym, ap, ◌∙◌, inl, inr, Bool, true, false, Option, none, some, List, [], ◌∷◌, ◌++◌, arith,
}
use ubi_quic_e_xtreme_zero_t.Cluster.{
  ClusterNode, ClusterState, ClusterCommand, new_cluster, put_node, delete_node, run_command,
  apply_entry, restore, snapshot, next_epoch,
}

-- A node of the map is under its own id, and the keys increase.
abbrev pub OwnKeys : List (Text × ClusterNode) → Type 0
OwnKeys es = All (λ (e : Text × ClusterNode). e.0 ≡ e.1.id) es

abbrev pub Increasing : List (Text × ClusterNode) → Type 0
Increasing [] = Unit
Increasing (e ∷ es) = All (λ (f : Text × ClusterNode). tlt e.0 f.0 ≡ true) es × Increasing es

pub record IsMap (s : ClusterState) : Type 0 where
  pub keys : OwnKeys s.nodes
  pub order : Increasing s.nodes

put_node-OwnKeys :
    (n : ClusterNode) (es : List (Text × ClusterNode)) → OwnKeys es → OwnKeys (put_node n.id n es)
unfolding put_node
put_node-OwnKeys n [] h = (refl, tt)
put_node-OwnKeys n (e ∷ es) h = elim (Bool-cases (teq e.0 n.id)) [
  | inl a ↦ rw a (refl, h.1)
  | inr a ↦ elim (Bool-cases (tlt n.id e.0)) [
    | inl b ↦ rw (a, b) (refl, h)
    | inr b ↦ rw (a, b) (h.0, put_node-OwnKeys n es h.1)
  ]
]

put_node-All :
    (P : Text × ClusterNode → Type 0) (id : Text) (n : ClusterNode) (es : List (Text × ClusterNode))
    → P (id, n)
    → All P es
    → All P (put_node id n es)
unfolding put_node
put_node-All P id n [] p h = (p, tt)
put_node-All P id n (e ∷ es) p h = elim (Bool-cases (teq e.0 id)) [
  | inl a ↦ rw a (p, h.1)
  | inr a ↦ elim (Bool-cases (tlt id e.0)) [
    | inl b ↦ rw (a, b) (p, h)
    | inr b ↦ rw (a, b) (h.0, put_node-All P id n es p h.1)
  ]
]

pub put_node-Increasing :
    (id : Text) (n : ClusterNode) (es : List (Text × ClusterNode))
    → Increasing es
    → Increasing (put_node id n es)
unfolding put_node
put_node-Increasing id n [] h = (tt, tt)
put_node-Increasing id n (e ∷ es) h = elim (Bool-cases (teq e.0 id)) [
  | inl a ↦
      let same : e.0 ≡ id = (teq_iff e.0 id).0 a in
      rw a (All-map _ _ es (λ f k. ap (λ v. tlt v f.0) (sym same) ∙ k) h.0, h.1)
  | inr a ↦ elim (Bool-cases (tlt id e.0)) [
    | inl b ↦ rw (a, b) ((b, All-map _ _ es (λ f k. tlt_trans id e.0 f.0 b k) h.0), h)
    | inr b ↦
        rw (a, b)
          (
            put_node-All _ id n es (ground (arith, a, b, tlt_total e.0 id, teq_iff e.0 id)) h.0,
            put_node-Increasing id n es h.1,
          )
  ]
]

filter_where-Increasing :
    (p : Text × ClusterNode → Bool) (es : List (Text × ClusterNode))
    → Increasing es
    → Increasing (filter_where p es)
filter_where-Increasing p [] h = tt
filter_where-Increasing p (e ∷ es) h = elim (Bool-cases (p e)) [
  | inl a ↦ rw a (All-filter_where _ p es h.0, filter_where-Increasing p es h.1)
  | inr a ↦ rw a (filter_where-Increasing p es h.1)
]

run_command-IsMap : (c : ClusterCommand) (s : ClusterState) → IsMap s → IsMap (run_command c s).1
unfolding run_command delete_node
run_command-IsMap c s m = elim (Bool-cases (teq c.op (text "upsert"))) [
  | inl a ↦ rw a (record {
    keys = put_node-OwnKeys c.node s.nodes m.keys;
    order = put_node-Increasing c.node.id c.node s.nodes m.order;
  })
  | inr a ↦ elim (Bool-cases (teq c.op (text "delete"))) [
    | inl b ↦
        rw (a, b)
          (record {
            keys = All-filter_where _ _ s.nodes m.keys;
            order = filter_where-Increasing _ s.nodes m.order;
          })
    | inr b ↦ rw (a, b) m
  ]
]

-- The state after the entries of a log.
unfoldable pub replay_log : List (Result ClusterCommand) → ClusterState → ClusterState
replay_log [] s = s
replay_log (e ∷ es) s = replay_log es (apply_entry e s).1

replay_log-IsMap :
    (es : List (Result ClusterCommand)) (s : ClusterState) → IsMap s → IsMap (replay_log es s)
unfolding replay_log apply_entry
replay_log-IsMap [] s m = m
replay_log-IsMap (err x ∷ es) s m = replay_log-IsMap es s m
replay_log-IsMap (ok c ∷ es) s m = replay_log-IsMap es _ (run_command-IsMap c s m)

abbrev value_of : Option (Text × ClusterNode) → Option ClusterNode
value_of none = none
value_of (some e) = some e.1

-- nodes[id]
abbrev pub node_of : Text → List (Text × ClusterNode) → Option ClusterNode
node_of id es = value_of (find_where (λ e. teq e.0 id) es)

abbrev is_upsert : ClusterCommand → Bool
is_upsert c = teq c.op (text "upsert")

abbrev is_delete : ClusterCommand → Bool
is_delete c = teq c.op (text "delete")

-- What one entry of the log says of an id, where `old` is known of it.
abbrev pub told : Text → Result ClusterCommand → Option ClusterNode → Option ClusterNode
told id (err x) old = old
told id (ok c) old =
    if teq c.node.id id
    then (if is_upsert c then some c.node else if is_delete c then none else old)
    else old

-- What a log says of an id: its last upsert, unless a delete follows.
abbrev pub last_told : Text → List (Result ClusterCommand) → Option ClusterNode → Option ClusterNode
last_told id [] old = old
last_told id (e ∷ es) old = last_told id es (told id e old)

abbrev pub is_accepted : Result ClusterCommand → Bool
is_accepted (err x) = false
is_accepted (ok c) = if is_upsert c then true else is_delete c

other : (x id k : Text) → teq x id ≡ false → teq x k ≡ true → teq id k ≡ false
other x id k a c = ground (arith, a, c, teq_iff x k, teq_iff id k, teq_iff x id)

put_node-node_of :
    (id k : Text) (n : ClusterNode) (es : List (Text × ClusterNode))
    → node_of k (put_node id n es) ≡ (if teq id k then some n else node_of k es)
unfolding put_node
put_node-node_of id k n [] = ground arith
put_node-node_of id k n (e ∷ es) = elim (Bool-cases (teq e.0 id)) [
  | inl a ↦
      let same : teq e.0 k ≡ teq id k = ap (λ v. teq v k) ((teq_iff e.0 id).0 a) in
      rw (a, same) (ground arith)
  | inr a ↦ elim (Bool-cases (tlt id e.0)) [
    | inl b ↦ rw (a, b) (ground arith)
    | inr b ↦
        let rest = put_node-node_of id k n es in
        elim (Bool-cases (teq e.0 k)) [
          | inl c ↦ rw (a, b, c, other e.0 id k a c) refl
          | inr c ↦ rw (a, b, c) rest
        ]
  ]
]

delete_node-node_of :
    (id k : Text) (es : List (Text × ClusterNode))
    → node_of k (delete_node id es) ≡ (if teq id k then none else node_of k es)
unfolding delete_node
delete_node-node_of id k [] = ground arith
delete_node-node_of id k (e ∷ es) = elim (Bool-cases (teq e.0 id)) [
  | inl a ↦
      let same : teq e.0 k ≡ teq id k = ap (λ v. teq v k) ((teq_iff e.0 id).0 a) in
      elim (Bool-cases (teq id k)) [
        | inl c ↦ rw (a, c) (delete_node-node_of id k es ∙ rw c refl)
        | inr c ↦ rw (a, same, c) (delete_node-node_of id k es ∙ rw c refl)
      ]
  | inr a ↦ elim (Bool-cases (teq e.0 k)) [
    | inl c ↦ rw (a, c, other e.0 id k a c) refl
    | inr c ↦ rw (a, c) (delete_node-node_of id k es)
  ]
]

run_command-node_of :
    (id : Text) (c : ClusterCommand) (s : ClusterState)
    → node_of id (run_command c s).1.nodes ≡ told id (ok c) (node_of id s.nodes)
unfolding run_command
run_command-node_of id c s = elim (Bool-cases (is_upsert c)) [
  | inl a ↦ rw a (put_node-node_of c.node.id id c.node s.nodes)
  | inr a ↦ elim (Bool-cases (is_delete c)) [
    | inl b ↦ rw (a, b) (delete_node-node_of c.node.id id s.nodes)
    | inr b ↦ rw (a, b) (ground arith)
  ]
]

replay_log-node_of :
    (id : Text) (es : List (Result ClusterCommand)) (s : ClusterState)
    → node_of id (replay_log es s).nodes ≡ last_told id es (node_of id s.nodes)
unfolding replay_log apply_entry
replay_log-node_of id [] s = refl
replay_log-node_of id (err x ∷ es) s = replay_log-node_of id es s
replay_log-node_of id (ok c ∷ es) s =
    replay_log-node_of id es (run_command c s).1 ∙ ap (last_told id es) (run_command-node_of id c s)

run_command-epoch :
    (c : ClusterCommand) (s : ClusterState)
    → (run_command c s).1.epoch ≡ (if is_accepted (ok c) then next_epoch s.epoch else s.epoch)
unfolding run_command
run_command-epoch c s = elim (Bool-cases (is_upsert c)) [
  | inl a ↦ rw a refl
  | inr a ↦ elim (Bool-cases (is_delete c)) [ inl b ↦ rw (a, b) refl | inr b ↦ rw (a, b) refl ]
]

replay_log-epoch :
    (es : List (Result ClusterCommand)) (s : ClusterState)
    → s.epoch < 2 ^ 64
    → (replay_log es s).epoch ≡ (s.epoch + count_where is_accepted es) % 2 ^ 64
unfolding replay_log apply_entry
replay_log-epoch [] s h = omega (arith, h)
replay_log-epoch (err x ∷ es) s h = replay_log-epoch es s h
replay_log-epoch (ok c ∷ es) s h =
    let now = run_command-epoch c s in
    elim (Bool-cases (is_accepted (ok c))) [
      | inl a ↦
          let next : (run_command c s).1.epoch ≡ (s.epoch + 1) % 2 ^ 64 = now ∙ rw a refl in
          rw a (replay_log-epoch es _ (omega (arith, next)) ∙ omega (arith, next))
      | inr a ↦
          let same : (run_command c s).1.epoch ≡ s.epoch = now ∙ rw a refl in
          rw a (replay_log-epoch es _ (omega (arith, same, h)) ∙ omega (arith, same))
    ]

replay_log-append :
    (xs ys : List (Result ClusterCommand)) (s : ClusterState)
    → replay_log (xs ++ ys) s ≡ replay_log ys (replay_log xs s)
unfolding replay_log
replay_log-append [] ys s = refl
replay_log-append (x ∷ xs) ys s = replay_log-append xs ys (apply_entry x s).1

-- Whatever entries the log has, one that does not decode and one with an unknown operation change nothing; a node is known by
-- what the last upsert of its id says, and unknown if a delete follows or there is none; the epoch is the
-- number of the upserts and deletes, modulo 2^64. Each node is under its own id. A member that restores
-- a snapshot after some entries, from any state, and then applies the others has the same state.
pub replay_log_lem :
    (xs ys : List (Result ClusterCommand)) (t : ClusterState) (id : Text)
    → (let s = replay_log (xs ++ ys) new_cluster in
        (node_of id s.nodes ≡ last_told id (xs ++ ys) none)
        × (s.epoch ≡ count_where is_accepted (xs ++ ys) % 2 ^ 64)
        × IsMap s
        × (replay_log ys (restore (snapshot (replay_log xs new_cluster)) t).1 ≡ s))
unfolding restore
replay_log_lem xs ys t id = (
  replay_log-node_of id (xs ++ ys) new_cluster,
  replay_log-epoch (xs ++ ys) new_cluster (omega arith) ∙ omega arith,
  replay_log-IsMap (xs ++ ys) new_cluster (record { keys = tt; order = tt }),
  sym (replay_log-append xs ys new_cluster),
)
