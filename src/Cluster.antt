-- ===== src/Cluster.antt =====
-- cluster_raft.go: the state machine of the cluster's nodes, its snapshots, the operations of RaftCluster over the
-- library hashicorp/raft, which is a parameter, and the placement of shards. A log entry and a snapshot
-- are what json.Unmarshal makes of their bytes. Go's map is its entries in the order of their keys.
pub mod Machine
pub mod Placing
pub mod Moving
pub mod Raft
pub mod Replicating
use ubi_quic_e_xtreme_zero_t.Prelude.{
  ltb, ◌==◌, if◌then◌else◌, length, take, filter_where, teq, tlt, Text, text, unknown_op,
  invalid_placement, not_enough_nodes, Result, ok, err, ℤ, pos, pos_part, ltz, ℕ, ◌+◌, ◌*◌, ◌%◌,
  ◌^◌, Bool, not, ◌||◌, List, [], ◌∷◌, ◌++◌,
}
use ubi_quic_e_xtreme_zero_t.Prelude.Sorting.{sort_by}
use Prim.Native.Nat.{bit_xor}

pub record ClusterNode : Type 0 where
  pub id : Text
  pub address : Text
  pub healthy : Bool
  pub last_heartbeat_ms : ℤ

pub record ClusterState : Type 0 where
  pub epoch : ℕ
  pub nodes : List (Text × ClusterNode)

pub record ClusterCommand : Type 0 where
  pub op : Text
  pub node : ClusterNode

-- newClusterFSM
abbrev pub new_cluster : ClusterState
new_cluster = record { epoch = 0; nodes = [] }

-- nodes[id] = n
unfoldable pub put_node : Text → ClusterNode → List (Text × ClusterNode) → List (Text × ClusterNode)
put_node id n [] = (id, n) ∷ []
put_node id n (e ∷ es) =
    let rest = put_node id n es in
    if teq e.0 id then (id, n) ∷ es else if tlt id e.0 then (id, n) ∷ e ∷ es else e ∷ rest

-- delete(nodes, id)
unfoldable pub delete_node : Text → List (Text × ClusterNode) → List (Text × ClusterNode)
delete_node id es = filter_where (λ e. not (teq e.0 id)) es

-- Epoch++ of a uint64.
abbrev pub next_epoch : ℕ → ℕ
next_epoch epoch = (epoch + 1) % 2 ^ 64

unfoldable pub run_command : ClusterCommand → ClusterState → Result (Unit {0}) × ClusterState
unfolding put_node delete_node teq
run_command c s =
    if teq c.op (text "upsert")
    then (ok tt, record { epoch = next_epoch s.epoch; nodes = put_node c.node.id c.node s.nodes })
    else if teq c.op (text "delete")
    then (ok tt, record { epoch = next_epoch s.epoch; nodes = delete_node c.node.id s.nodes })
    else (err unknown_op, s)

-- Apply
unfoldable pub apply_entry : Result ClusterCommand → ClusterState → Result (Unit {0}) × ClusterState
unfolding run_command
apply_entry (err x) s = (err x, s)
apply_entry (ok c) s = run_command c s

-- Restore, of the state that Decode reads.
unfoldable pub restore : Result ClusterState → ClusterState → Result (Unit {0}) × ClusterState
restore (err x) s = (err x, s)
restore (ok state) s = (ok tt, state)

-- Snapshot: the state that the bytes stand for.
abbrev pub snapshot : ClusterState → Result ClusterState
snapshot s = ok s

abbrev pub before_id : ClusterNode → ClusterNode → Bool
before_id a b = tlt a.id b.id

abbrev pub values : List (Text × ClusterNode) → List ClusterNode
values [] = []
values (e ∷ es) = e.1 ∷ values es

-- RaftCluster.State
unfoldable pub list_nodes : ClusterState → List ClusterNode
unfolding sort_by
list_nodes s = sort_by before_id (values s.nodes)

-- fnv64, from the hash of the bytes before.
unfoldable pub fnv_from : ℕ → Text → ℕ
fnv_from h [] = h
fnv_from h (c ∷ cs) = fnv_from (bit_xor h c * 1099511628211 % 2 ^ 64) cs

unfoldable pub fnv64 : Text → ℕ
unfolding fnv_from
fnv64 s = fnv_from 14695981039346656037 s

unfoldable pub rendezvous_score : Text → Text → ℕ
unfolding fnv64
rendezvous_score key node = fnv64 (key ++ 0 ∷ node)

pub record ReplicaPlacement : Type 0 where
  pub epoch : ℕ
  pub shard : ℕ
  pub nodes : List ClusterNode

-- The order of `scores`: the greatest score first.
abbrev pub outranks : Text → ClusterNode → ClusterNode → Bool
outranks key a b = ltb (rendezvous_score key b.id) (rendezvous_score key a.id)

abbrev pub is_healthy : ClusterNode → Bool
is_healthy n = n.healthy

abbrev pub healthy_nodes : ClusterState → List ClusterNode
healthy_nodes s = filter_where is_healthy (list_nodes s)

-- The healthy nodes by their scores.
unfoldable pub ranked : Text → ClusterState → List ClusterNode
unfolding rendezvous_score sort_by list_nodes
ranked key s = sort_by (outranks key) (healthy_nodes s)

-- Placement. `replication` is an int and `shard_count` a uint32.
unfoldable pub placement : Text → ℕ → ℤ → ClusterState → Result ReplicaPlacement
unfolding ranked fnv64 list_nodes
placement key shard_count replication s =
    if shard_count == 0 || not (ltz (pos 0) replication)
    then err invalid_placement
    else if ltb (length (healthy_nodes s)) (pos_part replication)
    then err not_enough_nodes
    else ok (record {
      epoch = s.epoch;
      shard = fnv64 key % shard_count;
      nodes = take (pos_part replication) (ranked key s);
    })
