-- ===== src/Tests/Cluster.antt =====
-- A cluster of three nodes, and an instance of each theorem on it.
use ubi_quic_e_xtreme_zero_t.Prelude.{
  length, count_where, filter_where, teq, tlt, Text, text, malformed_json, invalid_placement,
  not_enough_nodes, Result, ok, err, pos, ltz, ℕ, ◌%◌, ◌^◌, ◌≤◌, ◌<◌, ◌≡◌, refl, ◌⊎◌, true, false,
  none, List, [], ◌∷◌, ◌++◌,
}
use ubi_quic_e_xtreme_zero_t.Prelude.Sorting.{sort_by}
use ubi_quic_e_xtreme_zero_t.Cluster.{
  ClusterNode, ClusterState, ClusterCommand, ReplicaPlacement, new_cluster, put_node, delete_node,
  run_command, apply_entry, restore, snapshot, list_nodes, healthy_nodes, fnv64, fnv_from,
  rendezvous_score, ranked, placement,
}
use ubi_quic_e_xtreme_zero_t.Cluster.Machine.{
  IsMap, replay_log, node_of, last_told, is_accepted, replay_log_lem,
}
use ubi_quic_e_xtreme_zero_t.Cluster.Placing.{Placed, placement_cases}
use ubi_quic_e_xtreme_zero_t.Cluster.Moving.{departure, is_not, placement-departure}
use ubi_quic_e_xtreme_zero_t.Cluster.Raft.{Raft, upsert_node, reap_loop, reap_stale}
use ubi_quic_e_xtreme_zero_t.Cluster.Raft.Reaping.{reaped, IsCommitting, reap_stale_ok}

abbrev node : Text → ℕ → ClusterNode
node id heartbeat = record {
  id = id;
  address = text "host:1";
  healthy = true;
  last_heartbeat_ms = pos heartbeat;
}

abbrev upsert : ClusterNode → Result ClusterCommand
upsert n = ok (record { op = text "upsert"; node = n })

abbrev log : List (Result ClusterCommand)
log =
    upsert (node (text "c") 30)
    ∷ upsert (node (text "a") 10)
    ∷ err malformed_json
    ∷ upsert (node (text "b") 20)
    ∷ []

abbrev more : List (Result ClusterCommand)
more = ok (departure (node (text "c") 30)) ∷ []

abbrev three : ClusterState
three = record {
  epoch = 3;
  nodes =
      (text "a", node (text "a") 10)
      ∷ (text "b", node (text "b") 20)
      ∷ (text "c", node (text "c") 30)
      ∷ [];
}

three-IsMap : IsMap three
unfolding tlt
three-IsMap = record {
  keys = (refl, (refl, (refl, tt)));
  order = ((refl, (refl, tt)), ((refl, tt), (tt, tt)));
}

log_test : replay_log log new_cluster ≡ three
unfolding replay_log apply_entry run_command put_node delete_node teq tlt
log_test = refl

-- The hash of the empty text and of "a", as the definition of FNV-1a has them.
fnv_test : (fnv64 [] ≡ 14695981039346656037) × (fnv64 (text "a") ≡ 12638187200555641996)
unfolding fnv64 fnv_from
fnv_test = (refl, refl)

replay_log_lem_example :
    (let s = replay_log (log ++ more) new_cluster in
      (node_of (text "c") s.nodes ≡ last_told (text "c") (log ++ more) none)
      × (s.epoch ≡ count_where is_accepted (log ++ more) % 2 ^ 64)
      × IsMap s
      × (replay_log more (restore (snapshot (replay_log log new_cluster)) new_cluster).1 ≡ s))
replay_log_lem_example = replay_log_lem log more new_cluster (text "c")

placement_cases_example :
    (((◌≡◌ {A = ℕ} 16 0) ⊎ (ltz (pos 0) (pos 2) ≡ false))
      × (placement (text "key") 16 (pos 2) three ≡ err invalid_placement))
    ⊎ ((0 < 16)
        × (ltz (pos 0) (pos 2) ≡ true)
        × (length (healthy_nodes three) < 2)
        × (placement (text "key") 16 (pos 2) three ≡ err not_enough_nodes))
    ⊎ ((0 < 16)
        × (ltz (pos 0) (pos 2) ≡ true)
        × (2 ≤ length (healthy_nodes three))
        × (p : ReplicaPlacement) × (placement (text "key") 16 (pos 2) three ≡ ok p)
        × Placed (text "key") 16 (pos 2) three p)
placement_cases_example = placement_cases (text "key") 16 (pos 2) three

abbrev pair_of : ClusterNode → ClusterNode → ℕ → ReplicaPlacement
pair_of x y epoch = record { epoch = epoch; shard = fnv64 (text "key") % 16; nodes = x ∷ y ∷ [] }

before :
    placement (text "key") 16 (pos 2) three
    ≡ ok (pair_of (node (text "c") 30) (node (text "b") 20) 3)
unfolding placement ranked list_nodes sort_by rendezvous_score fnv64 fnv_from tlt
before = refl

after :
    placement (text "key") 16 (pos 2) (run_command (departure (node (text "c") 30)) three).1
    ≡ ok (pair_of (node (text "b") 20) (node (text "a") 10) 4)
unfolding placement ranked list_nodes sort_by rendezvous_score fnv64 fnv_from tlt teq run_command
    delete_node
after = refl

placement-departure_example :
    (fnv64 (text "key") % 16 ≡ fnv64 (text "key") % 16)
    × (◌≡◌ {A = ℕ} 2 2)
    × (added : List ClusterNode) × (node (text "b") 20 ∷ node (text "a") 10 ∷ []
        ≡ filter_where (is_not (text "c")) (node (text "c") 30 ∷ node (text "b") 20 ∷ []) ++ added)
placement-departure_example =
    placement-departure (text "key") 16 (pos 2) (node (text "c") 30) three
      (pair_of (node (text "c") 30) (node (text "b") 20) 3)
      (pair_of (node (text "b") 20) (node (text "a") 10) 4) three-IsMap before after

-- A cluster of one member, which leads and commits at once.
abbrev single : Raft ClusterState
single = record {
  is_leader = λ s. true;
  servers = λ s. ok [];
  remove_server = λ id s. (ok tt, s);
  add_voter = λ id address s. (ok tt, s);
  apply_command = λ c s. run_command c s;
  machine = λ s. s;
}

single-IsCommitting : IsCommitting single
single-IsCommitting = record { applied = λ c s h. refl }

reaped_now : (reap_stale single (pos 15) three).0 ≡ ok tt
unfolding reap_stale reap_loop upsert_node run_command put_node teq tlt
reaped_now = refl

reap_stale_ok_example : (reap_stale single (pos 15) three).1.nodes ≡ reaped (pos 15) three.nodes
reap_stale_ok_example =
    reap_stale_ok single single-IsCommitting (pos 15) three three-IsMap reaped_now
