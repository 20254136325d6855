-- ===== src/Cluster/Placing.antt =====
-- cluster_raft.go: which nodes Placement selects.
use ubi_quic_e_xtreme_zero_t.Prelude.{
  ltb, ◌==◌, Bool-cases, length, All, take, drop, count_where, filter_where, Text,
  invalid_placement, not_enough_nodes, ok, err, ℤ, pos, pos_part, ltz, ℕ, zero, suc, ◌+◌, ◌%◌, ◌^◌,
  ◌≤◌, ◌<◌, ◌≡◌, refl, ◌∙◌, ◌⊎◌, inl, inr, Bool, true, false, not, ◌||◌, List, [], ◌∷◌, arith,
}
use native.Mathlib.Nat.{mod-lt}
use ubi_quic_e_xtreme_zero_t.Prelude.Sorting.{
  Sorted, All-sort_by, count_where-sort_by, length-sort_by, sort_by-Sorted,
}
use ubi_quic_e_xtreme_zero_t.Cluster.{
  ClusterNode, ClusterState, ReplicaPlacement, list_nodes, healthy_nodes, is_healthy, fnv64,
  fnv_from, outranks, ranked, placement,
}

fnv_from-bound : (cs : Text) (h : ℕ) → h < 2 ^ 64 → fnv_from h cs < 2 ^ 64
unfolding fnv_from
fnv_from-bound [] h k = k
fnv_from-bound (c ∷ cs) h k = fnv_from-bound cs _ (omega arith)

fnv64-bound : (s : Text) → fnv64 s < 2 ^ 64
unfolding fnv64
fnv64-bound s = fnv_from-bound s _ (omega arith)

pub outranks_asym :
    (key : Text) (a b : ClusterNode) → outranks key a b ≡ true → outranks key b a ≡ false
outranks_asym key a b h = ground (arith, h)

pub outranks_neg :
    (key : Text) (a b c : ClusterNode)
    → outranks key b a ≡ false
    → outranks key c b ≡ false
    → outranks key c a ≡ false
outranks_neg key a b c h k = ground (arith, h, k)

module _ {A : Type 0} where
  All-take : (P : A → Type 0) (n : ℕ) (xs : List A) → All P xs → All P (take n xs)
  All-take P n [] h = tt
  All-take P zero (x ∷ xs) h = tt
  All-take P (suc n) (x ∷ xs) h = (h.0, All-take P n xs h.1)

  All-drop : (P : A → Type 0) (n : ℕ) (xs : List A) → All P xs → All P (drop n xs)
  All-drop P n [] h = tt
  All-drop P zero (x ∷ xs) h = h
  All-drop P (suc n) (x ∷ xs) h = All-drop P n xs h.1

  pub length-take : (n : ℕ) (xs : List A) → n ≤ length xs → length (take n xs) ≡ n
  length-take n [] h = ground (arith, h)
  length-take zero (x ∷ xs) h = refl
  length-take (suc n) (x ∷ xs) h = ground (arith, length-take n xs (omega (arith, h)))

  -- No taken element ranks behind one that is left.
  take-Sorted :
      (before : A → A → Bool) (n : ℕ) (xs : List A)
      → Sorted before xs
      → All (λ x. All (λ y. before y x ≡ false) (drop n xs)) (take n xs)
  take-Sorted before n [] s = tt
  take-Sorted before zero (x ∷ xs) s = tt
  take-Sorted before (suc n) (x ∷ xs) s = (All-drop _ n xs s.0, take-Sorted before n xs s.1)

  count_where-take :
      (p : A → Bool) (n : ℕ) (xs : List A)
      → count_where p (take n xs) + count_where p (drop n xs) ≡ count_where p xs
  count_where-take p n [] = omega arith
  count_where-take p zero (x ∷ xs) = omega arith
  count_where-take p (suc n) (x ∷ xs) = ground (arith, count_where-take p n xs)

All-healthy : (ns : List ClusterNode) → All (λ n. n.healthy ≡ true) (filter_where is_healthy ns)
All-healthy [] = tt
All-healthy (n ∷ ns) = elim (Bool-cases n.healthy) [
  | inl e ↦ simp e (refl, All-healthy ns)
  | inr e ↦ rw e (All-healthy ns)
]

-- What a placement promises: its shard is one of those there are, it has as many nodes as asked for, all of them
-- healthy; with the others they are the healthy nodes of the state, and no other outranks one of them.
pub record Placed (key : Text) (shard_count : ℕ) (replication : ℤ) (s : ClusterState)
    (p : ReplicaPlacement) : Type 0 where
  pub epoch : p.epoch ≡ s.epoch
  pub shard : p.shard < shard_count
  pub size : length p.nodes ≡ pos_part replication
  pub healthy : All (λ n. n.healthy ≡ true) p.nodes
  pub others : List ClusterNode
  pub partition :
      (q : ClusterNode → Bool)
      → count_where q p.nodes + count_where q others ≡ count_where q (healthy_nodes s)
  pub best : All (λ n. All (λ m. outranks key m n ≡ false) others) p.nodes

placed :
    (key : Text) (shard_count : ℕ) (replication : ℤ) (s : ClusterState)
    → 0 < shard_count
    → pos_part replication ≤ length (healthy_nodes s)
    → Placed key shard_count replication s (record {
      epoch = s.epoch;
      shard = fnv64 key % shard_count;
      nodes = take (pos_part replication) (ranked key s);
    })
unfolding ranked
placed key shard_count replication s h k =
    let n = pos_part replication in
    let healthy = healthy_nodes s in
    let sorted = sort_by-Sorted (outranks key) (outranks_asym key) (outranks_neg key) healthy in
    record {
      epoch = refl;
      shard = mod-lt (fnv64 key) h;
      size = length-take n (ranked key s) (omega (arith, k, length-sort_by (outranks key) healthy));
      healthy = All-take _ n _ (All-sort_by (outranks key) _ healthy (All-healthy (list_nodes s)));
      others = drop n (ranked key s);
      partition =
          λ q. count_where-take q n (ranked key s) ∙ count_where-sort_by (outranks key) q healthy;
      best = take-Sorted (outranks key) n (ranked key s) sorted;
    }

-- Placement refuses no shards and a replication that is not above zero, and else a replication above the number of the
-- healthy nodes. In every other case it returns a placement: with the epoch of the state, a shard below
-- the number of shards, and as many nodes as the replication, which are healthy and such that no healthy
-- node that is left out has a greater score than one of them.
pub placement_cases :
    (key : Text) (shard_count : ℕ) (replication : ℤ) (s : ClusterState)
    → (((shard_count ≡ 0) ⊎ (ltz (pos 0) replication ≡ false))
        × (placement key shard_count replication s ≡ err invalid_placement))
      ⊎ ((0 < shard_count)
          × (ltz (pos 0) replication ≡ true)
          × (length (healthy_nodes s) < pos_part replication)
          × (placement key shard_count replication s ≡ err not_enough_nodes))
      ⊎ ((0 < shard_count)
          × (ltz (pos 0) replication ≡ true)
          × (pos_part replication ≤ length (healthy_nodes s))
          × (p : ReplicaPlacement) × (placement key shard_count replication s ≡ ok p)
          × Placed key shard_count replication s p)
unfolding placement
placement_cases key shard_count replication s =
    elim (Bool-cases (shard_count == 0 || not (ltz (pos 0) replication))) [
      | inl e ↦ inl (ground (arith, e), rw e refl)
      | inr e ↦ elim (Bool-cases (ltb (length (healthy_nodes s)) (pos_part replication))) [
        | inl f ↦
            inr (inl (ground (arith, e), ground (arith, e), ground (arith, f), rw (e, f) refl))
        | inr f ↦ inr (
            inr (
              ground (arith, e),
              ground (arith, e),
              ground (arith, f),
              _,
              rw (e, f) refl,
              placed key shard_count replication s (ground (arith, e)) (ground (arith, f)),
            ))
      ]
    ]
