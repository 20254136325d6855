-- ===== src/Cluster/Raft.antt =====
-- cluster_raft.go: the operations of RaftCluster. The library raft is a parameter: who leads, the servers of its
-- configuration, and the changes that it commits, each of which may fail.
pub mod Reaping
use ubi_quic_e_xtreme_zero_t.Prelude.{
  if◌then◌else◌, teq, Text, text, not_leader, Result, ok, err, ℤ, pos, ltz, Bool, true, false, ◌&&◌,
  ◌||◌, List, [], ◌∷◌,
}
use ubi_quic_e_xtreme_zero_t.Cluster.{ClusterNode, ClusterState, ClusterCommand}

-- The calls of the library, on the state `R` of the cluster, and the state machine of this member.
pub record Raft (R : Type 0) : Type 0 where
  pub is_leader : R → Bool
  pub servers : R → Result (List (Text × Text))
  pub remove_server : Text → R → Result (Unit {0}) × R
  pub add_voter : Text → Text → R → Result (Unit {0}) × R
  pub apply_command : ClusterCommand → R → Result (Unit {0}) × R
  pub machine : R → ClusterState

abbrev alive : Text → Text → ℤ → ClusterNode
alive id address now = record {
  id = id;
  address = address;
  healthy = true;
  last_heartbeat_ms = now;
}

abbrev only_id : Text → ClusterNode
only_id id = record { id = id; address = []; healthy = false; last_heartbeat_ms = pos 0 }

-- The test of ReapStale, with the time before which a heartbeat is too old.
abbrev pub has_lapsed : ℤ → ClusterNode → Bool
has_lapsed cutoff n = n.healthy && ltz n.last_heartbeat_ms cutoff

module _ {R : Type 0} (raft : Raft R) where
  open raft use {is_leader, servers, remove_server, add_voter, apply_command, machine}

  abbrev as_leader : (R → Result (Unit {0}) × R) → R → Result (Unit {0}) × R
  as_leader m r = if is_leader r then m r else (err not_leader, r)

  -- `if err := …; err != nil { return err }`
  abbrev pub and_then : Result (Unit {0}) × R → (R → Result (Unit {0}) × R) → Result (Unit {0}) × R
  and_then (err x, r) k = (err x, r)
  and_then (ok u, r) k = k r

  -- UpsertNode
  unfoldable pub upsert_node : ClusterNode → R → Result (Unit {0}) × R
  upsert_node n r = as_leader (apply_command (record { op = text "upsert"; node = n })) r

  -- Heartbeat
  unfoldable pub heartbeat : Text → Text → ℤ → R → Result (Unit {0}) × R
  unfolding upsert_node
  heartbeat id address now r = upsert_node (alive id address now) r

  -- Remove
  unfoldable pub remove_node : Text → R → Result (Unit {0}) × R
  remove_node id r =
      as_leader
        (λ s.
          and_then (remove_server id s)
            (apply_command (record { op = text "delete"; node = only_id id })))
        r

  -- The loop of Join over the servers, and what follows it.
  unfoldable pub join_loop : Text → Text → ℤ → List (Text × Text) → R → Result (Unit {0}) × R
  unfolding upsert_node teq
  join_loop id address now [] r =
      and_then (add_voter id address r) (upsert_node (alive id address now))
  join_loop id address now (srv ∷ srvs) r =
      let rest = join_loop id address now srvs in
      if teq srv.0 id || teq srv.1 address
      then (if teq srv.0 id && teq srv.1 address
          then (ok tt, r)
          else and_then (remove_server srv.0 r) rest)
      else rest r

  abbrev join_servers : Text → Text → ℤ → Result (List (Text × Text)) → R → Result (Unit {0}) × R
  join_servers id address now (err x) r = (err x, r)
  join_servers id address now (ok srvs) r = join_loop id address now srvs r

  -- Join
  unfoldable pub join : Text → Text → ℤ → R → Result (Unit {0}) × R
  unfolding join_loop
  join id address now r = as_leader (λ s. join_servers id address now (servers s) s) r

  -- The loop of ReapStale over the copy of the nodes, in the order of their keys.
  unfoldable pub reap_loop : ℤ → List (Text × ClusterNode) → R → Result (Unit {0}) × R
  unfolding upsert_node
  reap_loop cutoff [] r = (ok tt, r)
  reap_loop cutoff (e ∷ es) r =
      let rest = reap_loop cutoff es in
      if has_lapsed cutoff e.1
      then and_then (upsert_node (record e.1 { healthy = false }) r) rest
      else rest r

  -- ReapStale
  unfoldable pub reap_stale : ℤ → R → Result (Unit {0}) × R
  unfolding reap_loop
  reap_stale cutoff r = as_leader (λ s. reap_loop cutoff (machine s).nodes s) r
