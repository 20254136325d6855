-- ===== src/Tests/Shard.antt =====
-- A migration between two toy stores, and an instance of each theorem.
use ubi_quic_e_xtreme_zero_t.Prelude.{
  length, find_where, any_where, count_where, update_where, teq, tlt, Text, text, ok, ℕ, ◌≤◌, ◌≡◌,
  refl, true, ◌&&◌, some, List, [], ◌∷◌, ◌++◌, arith,
}
use ubi_quic_e_xtreme_zero_t.Sql.{World, statement}
use ubi_quic_e_xtreme_zero_t.Transport.{insert_text}
use ubi_quic_e_xtreme_zero_t.Transport.Names.{Increasing, is_name}
use ubi_quic_e_xtreme_zero_t.Shard.Rows.{
  migration_backfill, migration_verify, ShardBatch, is_in, moved_to, MigrationState,
  migration_cutover, migration_complete, migration_rolled_back, ShardMigration, ShardDocument,
  ShardBackend, Shards, with_id, all_targets,
}
use ubi_quic_e_xtreme_zero_t.Shard.{
  create_migration, enable_dual_write, begin_backfill, backfill_step, verify_migration,
  complete_migration, rollback, targets_for_write, get_migration, set_state, is_backend,
}
use ubi_quic_e_xtreme_zero_t.Shard.Progress.{Continues}
use ubi_quic_e_xtreme_zero_t.Shard.Run.{
  Call, creates, enables, begins, verifies, backfills, completes, call, run_calls, Continues-run,
}
use ubi_quic_e_xtreme_zero_t.Shard.Targets.{sends, targets_for_write_ok}
use ubi_quic_e_xtreme_zero_t.Shard.Verifying.{Compared, verify_migration_ok}
use ubi_quic_e_xtreme_zero_t.Shard.Backfilling.{Copied, advanced, backfill_step_ok}

-- The documents of the two stores.
abbrev Stores : Type 0
Stores = List ShardDocument × List ShardDocument

-- Export gives everything at once.
abbrev left : ShardBackend Stores
left = record {
  backend_id = text "left";
  export_range =
      λ start end after limit w. (ok (record { documents = w.0; next = []; done = true }), w);
  import_documents = λ ds w. (ok tt, (w.0 ++ ds, w.1));
  count_range = λ start end w. (ok (length w.0), w);
  delete_range = λ start end w. (ok tt, ([], w.1));
}

abbrev right : ShardBackend Stores
right = record {
  backend_id = text "right";
  export_range =
      λ start end after limit w. (ok (record { documents = w.1; next = []; done = true }), w);
  import_documents = λ ds w. (ok tt, (w.0, w.1 ++ ds));
  count_range = λ start end w. (ok (length w.1), w);
  delete_range = λ start end w. (ok tt, (w.0, []));
}

abbrev backends : List (ShardBackend Stores)
backends = left ∷ right ∷ []

abbrev in_state : MigrationState → ShardMigration
in_state s = record {
  id = text "m";
  source = text "left";
  destination = text "right";
  range_start = text "a";
  range_end = text "n";
  state = s;
  checkpoint = [];
  updated_at_ms = 7;
}

abbrev document : ShardDocument
document = record { key = text "b"; data_json = text "{}" }

abbrev with_migration : MigrationState → Shards Stores
with_migration s = record { migrations = in_state s ∷ []; stores = (document ∷ [], document ∷ []) }

abbrev start : World (Shards Stores)
start = record { db = record { migrations = []; stores = (document ∷ [], []) }; faults = [] }

abbrev calls : List (ℕ × Call)
calls =
    (7, creates (in_state migration_complete))
    ∷ (7, enables (text "m"))
    ∷ (7, begins (text "m"))
    ∷ (7, backfills (text "m") 10)
    ∷ (7, verifies (text "m"))
    ∷ []

-- One line to unfold in a test of the coordinator.
runs : ℕ
unfolding call run_calls create_migration enable_dual_write begin_backfill backfill_step
    verify_migration complete_migration rollback targets_for_write get_migration set_state statement
    teq tlt update_where all_targets insert_text
runs = 0

cutover_test : (run_calls backends start calls).db ≡ with_migration migration_cutover
unfolding runs
cutover_test = refl

Continues-run_example :
    Continues
      (in_state migration_cutover ∷ [])
      (run_calls backends
        (record { db = with_migration migration_cutover; faults = [] })
        ((8, completes (text "m") true) ∷ [])).db.migrations
Continues-run_example =
    Continues-run backends (record { db = with_migration migration_cutover; faults = [] })
      ((8, completes (text "m") true) ∷ [])

found : (s : MigrationState) → find_where (with_id (text "m")) (in_state s ∷ []) ≡ some (in_state s)
unfolding teq
found s = refl

abbrev cut_over : World (Shards Stores)
cut_over = record { db = with_migration migration_cutover; faults = [] }

sent : (targets_for_write (text "b") cut_over).0 ≡ ok (text "right" ∷ [])
unfolding runs
sent = refl

targets_for_write_ok_example :
    ((targets_for_write (text "b") cut_over).1.db ≡ cut_over.db)
    × Increasing (text "right" ∷ [])
    × ((b : Text)
        → any_where (is_name b) (text "right" ∷ [])
          ≡ any_where (sends (text "b") b) cut_over.db.migrations)
targets_for_write_ok_example = targets_for_write_ok (text "b") cut_over (text "right" ∷ []) sent

right_found : find_where (λ b. teq b.backend_id (text "right")) backends ≡ some right
unfolding teq
right_found = refl

one_migration : count_where (with_id (text "m")) (in_state migration_rolled_back ∷ []) ≤ 1
one_migration = ground arith

abbrev to_verify : World (Shards Stores)
to_verify = record { db = with_migration migration_verify; faults = [] }

verifies_well : (verify_migration backends (text "m") 8 to_verify).0 ≡ ok tt
unfolding runs
verifies_well = refl

verify_migration_ok_example :
    (m : ShardMigration) × (src : ShardBackend Stores) × (dst : ShardBackend Stores) × (find_where
        (with_id (text "m"))
        to_verify.db.migrations
      ≡ some m)
    × (m.state ≡ migration_verify)
    × (find_where (is_backend m.source) backends ≡ some src)
    × (find_where (is_backend m.destination) backends ≡ some dst)
    × Compared backends m src dst to_verify.db
    × ((verify_migration backends (text "m") 8 to_verify).1.db.migrations
        ≡ update_where
            (λ n. teq n.id (text "m") && is_in (migration_verify ∷ []) n.state)
            (moved_to migration_cutover m.checkpoint 8)
            to_verify.db.migrations)
verify_migration_ok_example = verify_migration_ok backends (text "m") 8 to_verify verifies_well

abbrev to_backfill : World (Shards Stores)
to_backfill = record {
  db = record { migrations = in_state migration_backfill ∷ []; stores = (document ∷ [], []) };
  faults = [];
}

backfills_well : (backfill_step backends (text "m") 10 8 to_backfill).0 ≡ ok true
unfolding runs
backfills_well = refl

backfill_step_ok_example :
    (m : ShardMigration) × (src : ShardBackend Stores) × (dst : ShardBackend Stores)
    × (batch : ShardBatch) × (find_where (with_id (text "m")) to_backfill.db.migrations ≡ some m)
    × (m.state ≡ migration_backfill)
    × (find_where (is_backend m.source) backends ≡ some src)
    × (find_where (is_backend m.destination) backends ≡ some dst)
    × Copied backends m src dst 10 batch to_backfill.db.stores
        (backfill_step backends (text "m") 10 8 to_backfill).1.db.stores
    × (true ≡ batch.done)
    × ((backfill_step backends (text "m") 10 8 to_backfill).1.db.migrations
        ≡ advanced backends (text "m") batch 8 to_backfill.db.migrations)
backfill_step_ok_example = backfill_step_ok backends (text "m") 10 8 to_backfill true backfills_well
