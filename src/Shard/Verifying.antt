-- ===== src/Shard/Verifying.antt =====
-- shard.go: what a Verify that succeeds has seen and done.
use ubi_quic_e_xtreme_zero_t.Prelude.{
  Option-cases, find_where, update_where, teq, Text, result_cases, ok, ℕ, ◌≡◌, inl, inr, ◌&&◌, some,
  List, [], ◌∷◌, arith,
}
use ubi_quic_e_xtreme_zero_t.Sql.{World, statement}
use ubi_quic_e_xtreme_zero_t.Shard.Rows.{
  migration_verify, migration_cutover, ShardMigration, ShardBackend, Shards, with_id, is_in,
  moved_to,
}
use ubi_quic_e_xtreme_zero_t.Shard.{verify_migration, get_migration, set_state, is_backend}

module _ {W : Type 0} (bs : List (ShardBackend W)) where
  -- The two counts that Verify compares, taken one after the other.
  pub record Compared (m : ShardMigration) (src dst : ShardBackend W) (d : Shards W) : Type 0 where
    pub documents : ℕ
    pub of_source : (src.count_range m.range_start m.range_end d.stores).0 ≡ ok documents
    pub of_destination :
        (dst.count_range m.range_start m.range_end
          (src.count_range m.range_start m.range_end d.stores).1).0
        ≡ ok documents

  -- A Verify that succeeds has found the migration in the state verify, both of its backends and equal
  -- counts of the range in the two; it moves the migration to cutover and changes no other.
  pub verify_migration_ok :
      (id : Text) (now : ℕ) (w : World (Shards W))
      → (verify_migration bs id now w).0 ≡ ok tt
      → (m : ShardMigration) × (src : ShardBackend W) × (dst : ShardBackend W) × (find_where
            (with_id id)
            w.db.migrations
          ≡ some m)
        × (m.state ≡ migration_verify)
        × (find_where (is_backend m.source) bs ≡ some src)
        × (find_where (is_backend m.destination) bs ≡ some dst)
        × Compared m src dst w.db
        × ((verify_migration bs id now w).1.db.migrations
            ≡ update_where
                (λ n. teq n.id id && is_in (migration_verify ∷ []) n.state)
                (moved_to migration_cutover m.checkpoint now)
                w.db.migrations)
  unfolding verify_migration get_migration set_state statement
  verify_migration_ok id now w h = elim (Option-cases (find_where (with_id id) w.db.migrations)) [
    | inl e ↦ absurd (ground arith)
    | inr (m, e) ↦ elim (Option-cases (find_where (is_backend m.source) bs)) [
      | inl f ↦ absurd (ground arith)
      | inr (src, f) ↦ elim (Option-cases (find_where (is_backend m.destination) bs)) [
        | inl g ↦ absurd (ground arith)
        | inr (dst, g) ↦
            elim (result_cases (src.count_range m.range_start m.range_end w.db.stores).0) [
              | inr (x, a) ↦ absurd (ground arith)
              | inl (n, a) ↦
                  elim (result_cases
                    (dst.count_range m.range_start m.range_end
                      (src.count_range m.range_start m.range_end w.db.stores).1).0) [
                        | inr (x, b) ↦ absurd (ground arith)
                        | inl (k, b) ↦ (
                          m,
                          src,
                          dst,
                          e,
                          ground arith,
                          f,
                          g,
                          record { documents = n; of_source = a; of_destination = ground arith },
                          ground arith,
                        )
                      ]
            ]
      ]
    ]
  ]
