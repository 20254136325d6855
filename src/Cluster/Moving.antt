-- ===== src/Cluster/Moving.antt =====
-- cluster_raft.go: what a placement becomes when a node leaves the cluster.
use ubi_quic_e_xtreme_zero_t.Prelude.{
  ltb, ◌==◌, Bool-cases, length, take, drop, filter_where, filter_where-append, take-drop,
  take-append_more, length-filter_where, teq, tlt, Text, text, tlt_irrefl, tlt_trans, tlt_total, ok,
  ℤ, pos, pos_part, ltz, ℕ, zero, suc, ◌%◌, ◌≤◌, ◌≡◌, refl, sym, ap, ◌∙◌, inl, inr, Bool, true,
  false, not, ◌||◌, List, [], ◌∷◌, ◌++◌, arith,
}
use ubi_quic_e_xtreme_zero_t.Prelude.Sorting.{sort_by, filter_where-sort_by, length-sort_by}
use ubi_quic_e_xtreme_zero_t.Cluster.{
  ClusterNode, ClusterState, ClusterCommand, ReplicaPlacement, list_nodes, healthy_nodes,
  is_healthy, outranks, ranked, placement, before_id, delete_node, run_command, values, fnv64,
}
use ubi_quic_e_xtreme_zero_t.Cluster.Placing.{outranks_asym, outranks_neg, length-take}
use ubi_quic_e_xtreme_zero_t.Cluster.Machine.{OwnKeys, IsMap}

abbrev pub is_not : Text → ClusterNode → Bool
is_not id n = not (teq n.id id)

before_id_asym : (a b : ClusterNode) → before_id a b ≡ true → before_id b a ≡ false
before_id_asym a b h = ground (arith, h, tlt_trans a.id b.id a.id h, tlt_irrefl a.id)

before_id_neg :
    (a b c : ClusterNode) → before_id b a ≡ false → before_id c b ≡ false → before_id c a ≡ false
before_id_neg a b c h k = elim (Bool-cases (tlt c.id a.id)) [
  | inr e ↦ e
  | inl e ↦ elim (Bool-cases (tlt a.id b.id)) [
    | inl f ↦ ground (arith, tlt_trans c.id a.id b.id e f, k)
    | inr f ↦
        let same = tlt_total a.id b.id f h in ground (arith, k, sym (ap (λ v. tlt c.id v) same), e)
  ]
]

values-delete_node :
    (id : Text) (es : List (Text × ClusterNode))
    → OwnKeys es
    → values (delete_node id es) ≡ filter_where (is_not id) (values es)
unfolding delete_node
values-delete_node id [] h = refl
values-delete_node id (e ∷ es) h =
    let own : teq e.0 id ≡ teq e.1.id id = ap (λ k. teq k id) h.0 in
    elim (Bool-cases (teq e.1.id id)) [
      | inl f ↦ rw (own, f) (values-delete_node id es h.1)
      | inr f ↦ rw (own, f) (ap (λ ns. e.1 ∷ ns) (values-delete_node id es h.1))
    ]

length-take_most : {A : Type 0} (n : ℕ) (xs : List A) → length (take n xs) ≤ n
length-take_most n [] = omega arith
length-take_most zero (x ∷ xs) = omega arith
length-take_most (suc n) (x ∷ xs) = omega (arith, length-take_most n xs)

module _ {A : Type 0} (p : A → Bool) where
  filter_where_comm :
      (q : A → Bool) (xs : List A)
      → filter_where p (filter_where q xs) ≡ filter_where q (filter_where p xs)
  filter_where_comm q [] = refl
  filter_where_comm q (x ∷ xs) = ground (arith, filter_where_comm q xs)

  take-filter_where :
      (n : ℕ) (xs : List A)
      → (rest : List A) × (take n (filter_where p xs) ≡ filter_where p (take n xs) ++ rest)
  take-filter_where n xs =
      let front = filter_where p (take n xs) in
      let short : length front ≤ n =
        omega (arith, length-filter_where p (take n xs), length-take_most n xs) in
      (
        _,
        ap (λ ys. take n (filter_where p ys)) (take-drop n xs)
            ∙ ap (take n) (filter_where-append p (take n xs) (drop n xs))
            ∙ take-append_more n front (filter_where p (drop n xs)) short,
      )

abbrev pub departure : ClusterNode → ClusterCommand
departure n = record { op = text "delete"; node = n }

ranked-departure :
    (key : Text) (n : ClusterNode) (s : ClusterState)
    → IsMap s
    → (healthy_nodes (run_command (departure n) s).1 ≡ filter_where (is_not n.id) (healthy_nodes s))
      × (ranked key (run_command (departure n) s).1 ≡ filter_where (is_not n.id) (ranked key s))
unfolding ranked list_nodes run_command teq
ranked-departure key n s m =
    let keep = is_not n.id in
    let listed =
      ap (sort_by before_id) (values-delete_node n.id s.nodes m.keys)
      ∙ sym (filter_where-sort_by before_id before_id_asym before_id_neg keep (values s.nodes)) in
    let healthy =
      ap (filter_where is_healthy) listed
      ∙ filter_where_comm is_healthy keep (sort_by before_id (values s.nodes)) in
    (
      healthy,
      ap (sort_by (outranks key)) healthy
          ∙ sym (filter_where-sort_by (outranks key) (outranks_asym key) (outranks_neg key) keep _),
    )

placement_ok :
    (key : Text) (shard_count : ℕ) (replication : ℤ) (s : ClusterState) (p : ReplicaPlacement)
    → placement key shard_count replication s ≡ ok p
    → (p.nodes ≡ take (pos_part replication) (ranked key s))
      × (p.shard ≡ fnv64 key % shard_count)
      × (pos_part replication ≤ length (healthy_nodes s))
unfolding placement
placement_ok key shard_count replication s p h =
    elim (Bool-cases (shard_count == 0 || not (ltz (pos 0) replication))) [
      | inl e ↦ absurd (ground (arith, h, e))
      | inr e ↦ elim (Bool-cases (ltb (length (healthy_nodes s)) (pos_part replication))) [
        | inl f ↦ absurd (ground (arith, h, e, f))
        | inr f ↦ (ground (arith, h, e, f), ground (arith, h, e, f), ground (arith, f))
      ]
    ]

length-placement :
    (key : Text) (shard_count : ℕ) (replication : ℤ) (s : ClusterState) (p : ReplicaPlacement)
    → placement key shard_count replication s ≡ ok p
    → length p.nodes ≡ pos_part replication
unfolding ranked
length-placement key shard_count replication s p h =
    let (nodes, shard, enough) = placement_ok key shard_count replication s p h in
    ap length nodes
    ∙ length-take (pos_part replication) (ranked key s)
        (omega (arith, enough, length-sort_by (outranks key) (healthy_nodes s)))

-- In a state that holds each node under its own id, where a node leaves the cluster and enough healthy nodes are left,
-- a key keeps its shard and all the nodes of its placement but the one that left, in the same order,
-- and has as many nodes as before: any new ones follow those that stay.
pub placement-departure :
    (key : Text) (shard_count : ℕ) (replication : ℤ) (n : ClusterNode) (s : ClusterState)
    (p q : ReplicaPlacement)
    → IsMap s
    → placement key shard_count replication s ≡ ok p
    → placement key shard_count replication (run_command (departure n) s).1 ≡ ok q
    → (q.shard ≡ p.shard)
      × (length q.nodes ≡ length p.nodes)
      × (added : List ClusterNode) × (q.nodes ≡ filter_where (is_not n.id) p.nodes ++ added)
placement-departure key shard_count replication n s p q m h k =
    let (before_nodes, before_shard, enough) = placement_ok key shard_count replication s p h in
    let (after_nodes, after_shard, still) =
      placement_ok key shard_count replication (run_command (departure n) s).1 q k in
    let k' = pos_part replication in
    let (added, moved) = take-filter_where (is_not n.id) k' (ranked key s) in
    (
      after_shard ∙ sym before_shard,
      length-placement key shard_count replication _ q k
          ∙ sym (length-placement key shard_count replication s p h),
      added,
      after_nodes
          ∙ ap (take k') (ranked-departure key n s m).1
          ∙ moved
          ∙ ap (λ ns. filter_where (is_not n.id) ns ++ added) (sym before_nodes),
    )
