-- ===== src/Shard/Undoing.antt =====
-- shard.go: what a second Rollback does.
use ubi_quic_e_xtreme_zero_t.Prelude.{
  All, find_where, count_where, All-map, Text, invalid_migration_step, ok, err, ℕ, ◌≤◌, ◌≡◌, refl,
  Bool, true, false, ◌&&◌, some, List, [], ◌∷◌, arith,
}
use ubi_quic_e_xtreme_zero_t.Prelude.Tables.{only_row}
use ubi_quic_e_xtreme_zero_t.Sql.{statement}
use ubi_quic_e_xtreme_zero_t.Shard.Rows.{
  migration_rolled_back, ShardMigration, ShardBackend, Shards, with_id, before_cutover, is_in,
}
use ubi_quic_e_xtreme_zero_t.Shard.{rollback, get_migration, set_state, is_backend}

count_where_none_of :
    (p q : ShardMigration → Bool) (ms : List ShardMigration)
    → All (λ m. p m ≡ true → q m ≡ false) ms
    → count_where (λ m. p m && q m) ms ≡ 0
count_where_none_of p q [] h = refl
count_where_none_of p q (m ∷ ms) h = ground (arith, h.0, count_where_none_of p q ms h.1)

module _ {W : Type 0} (bs : List (ShardBackend W)) where
  -- A Rollback of a migration that is rolled back already, where no call of the driver fails, returns an
  -- error, and all the same has called DeleteRange of the destination for the range of the migration,
  -- whose effect on the stores it leaves.
  pub rollback_again_deletes :
      (id : Text) (now : ℕ) (d : Shards W) (m : ShardMigration) (b : ShardBackend W)
      → count_where (with_id id) d.migrations ≤ 1
      → find_where (with_id id) d.migrations ≡ some m
      → m.state ≡ migration_rolled_back
      → find_where (is_backend m.destination) bs ≡ some b
      → (b.delete_range m.range_start m.range_end d.stores).0 ≡ ok tt
      → ((rollback bs id now (record { db = d; faults = [] })).0 ≡ err invalid_migration_step)
        × ((rollback bs id now (record { db = d; faults = [] })).1.db.stores
            ≡ (b.delete_range m.range_start m.range_end d.stores).1)
  unfolding rollback get_migration set_state statement
  rollback_again_deletes id now d m b one f s g h =
      let none_left =
        count_where_none_of (with_id id) (λ n. is_in before_cutover n.state) d.migrations
          (All-map _ _ d.migrations (λ n k e. ground (arith, k e))
            (only_row (with_id id) d.migrations m one f)) in
      (ground (arith, none_left), ground (arith, none_left))
