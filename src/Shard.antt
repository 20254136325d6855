-- ===== src/Shard.antt =====
-- shard.go: the coordinator of shard migrations, over its table and over an interface of shard backends.
pub mod Rows
pub mod Progress
pub mod Run
pub mod Targets
pub mod Undoing
pub mod Verifying
pub mod Backfilling
use ubi_quic_e_xtreme_zero_t.Prelude.{
  ◌==◌, if◌then◌else◌, find_where, any_where, count_where, update_where, teq, Text,
  constraint_error, backend_required, duplicate_backend, unknown_backend, invalid_migration,
  invalid_migration_step, verification_failed, after_cutover, Result, ok, err, ℕ, Bool, true, false,
  ◌&&◌, ◌||◌, Option, none, some, List, [], ◌∷◌, ◌++◌,
}
use ubi_quic_e_xtreme_zero_t.Sql.{
  M, ◌>>=◌, ◌>>◌, lift, pure, raise, statement, rows_affected_or_zero,
}
use Rows.{
  MigrationState, ShardBackend, ShardBatch, ShardDocument, ShardMigration, Shards, all_targets,
  at_backfill, batch_limit, before_cutover, is_in, is_invalid, is_state, migration_of, moved_to,
  with_id, migration_backfill, migration_complete, migration_cutover, migration_dual_write,
  migration_planned, migration_rolled_back, migration_verify,
}

module _ {W : Type 0} where
  abbrev pub update_migrations :
      (ShardMigration → Bool) → (ShardMigration → ShardMigration) → Shards W → Result ℕ × Shards W
  update_migrations p f d =
      (ok (count_where p d.migrations), record d { migrations = update_where p f d.migrations })

  -- Get
  unfoldable pub get_migration : Text → M (Shards W) ShardMigration
  get_migration id = statement (λ d. (migration_of (find_where (with_id id) d.migrations), d))

  unfoldable pub set_state :
      Text → List MigrationState → MigrationState → Text → ℕ → M (Shards W) (Unit {0})
  set_state id from to checkpoint now = do
    changed ←
        statement
          (update_migrations (λ m. teq m.id id && is_in from m.state) (moved_to to checkpoint now))
    n ← rows_affected_or_zero changed
    if n == 1 then pure tt else raise invalid_migration_step

  unfoldable pub enable_dual_write : Text → ℕ → M (Shards W) (Unit {0})
  unfolding set_state
  enable_dual_write id now = set_state id (migration_planned ∷ []) migration_dual_write [] now

  unfoldable pub begin_backfill : Text → ℕ → M (Shards W) (Unit {0})
  unfolding set_state
  begin_backfill id now = set_state id (migration_dual_write ∷ []) migration_backfill [] now

  abbrev pub is_backend : Text → ShardBackend W → Bool
  is_backend id b = teq b.backend_id id

  abbrev backend_of : Option (ShardBackend W) → Result (ShardBackend W)
  backend_of none = err unknown_backend
  backend_of (some b) = ok b

  -- Register, with `none` for a nil backend.
  unfoldable pub register_backend :
      Option (ShardBackend W) → List (ShardBackend W) → Result (Unit {0}) × List (ShardBackend W)
  register_backend none bs = (err backend_required, bs)
  register_backend (some b) bs =
      if teq b.backend_id []
      then (err backend_required, bs)
      else if any_where (is_backend b.backend_id) bs
      then (err duplicate_backend, bs)
      else (ok tt, bs ++ b ∷ [])

  -- The lookup in the map `backends`.
  abbrev pub backend : Text → List (ShardBackend W) → M (Shards W) (ShardBackend W)
  backend id bs = lift (backend_of (find_where (is_backend id) bs))

  -- A call of a backend.
  abbrev pub on_stores : {A : Type 0} → (W → Result A × W) → M (Shards W) A
  on_stores f w = let r = f w.db.stores in (r.0, record w { db = record w.db { stores = r.1 } })

  abbrev pub insert_migration : ShardMigration → Shards W → Result (Unit {0}) × Shards W
  insert_migration m d =
      if any_where (with_id m.id) d.migrations
      then (err constraint_error, d)
      else (ok tt, record d { migrations = d.migrations ++ m ∷ [] })

  -- Create
  unfoldable pub create_migration :
      List (ShardBackend W) → ShardMigration → ℕ → M (Shards W) (Unit {0})
  create_migration bs m now = if is_invalid m then raise invalid_migration else do
    _ ← backend m.source bs
    _ ← backend m.destination bs
    statement (insert_migration (moved_to migration_planned [] now m))

  abbrev require_state : Bool → M (Shards W) (Unit {0})
  require_state b = if b then pure tt else raise invalid_migration_step

  abbrev pub import_batch : ShardBackend W → List ShardDocument → M (Shards W) (Unit {0})
  import_batch b [] = pure tt
  import_batch b (x ∷ xs) = on_stores (b.import_documents (x ∷ xs))

  abbrev keep_checkpoint : Text → ShardBatch → ℕ → M (Shards W) Bool
  keep_checkpoint id batch now = do
    _ ← statement (
        update_migrations (at_backfill id)
          (λ m. record m { checkpoint = batch.next; updated_at_ms = now }))
    pure false

  abbrev finish_backfill : Text → ShardBatch → ℕ → M (Shards W) Bool
  finish_backfill id batch now = do
    set_state id (migration_backfill ∷ []) migration_verify batch.next now
    pure true

  unfoldable pub backfill_step : List (ShardBackend W) → Text → ℕ → ℕ → M (Shards W) Bool
  unfolding get_migration set_state
  backfill_step bs id limit now = do
    m ← get_migration id
    require_state (is_state m.state migration_backfill)
    src ← backend m.source bs
    dst ← backend m.destination bs
    batch ← on_stores (src.export_range m.range_start m.range_end m.checkpoint (batch_limit limit))
    import_batch dst batch.documents
    if batch.done then finish_backfill id batch now else keep_checkpoint id batch now

  abbrev require_equal : ℕ → ℕ → M (Shards W) (Unit {0})
  require_equal a b = if a == b then pure tt else raise verification_failed

  -- Verify
  unfoldable pub verify_migration : List (ShardBackend W) → Text → ℕ → M (Shards W) (Unit {0})
  unfolding get_migration set_state
  verify_migration bs id now = do
    m ← get_migration id
    require_state (is_state m.state migration_verify)
    src ← backend m.source bs
    dst ← backend m.destination bs
    a ← on_stores (src.count_range m.range_start m.range_end)
    b ← on_stores (dst.count_range m.range_start m.range_end)
    require_equal a b
    set_state id (migration_verify ∷ []) migration_cutover m.checkpoint now

  abbrev delete_source : List (ShardBackend W) → ShardMigration → M (Shards W) (Unit {0})
  delete_source bs m = do
    src ← backend m.source bs
    on_stores (src.delete_range m.range_start m.range_end)

  -- Complete
  unfoldable pub complete_migration :
      List (ShardBackend W) → Text → Bool → ℕ → M (Shards W) (Unit {0})
  unfolding get_migration set_state
  complete_migration bs id deletes now = do
    m ← get_migration id
    require_state (is_state m.state migration_cutover)
    if deletes then delete_source bs m else pure tt
    set_state id (migration_cutover ∷ []) migration_complete m.checkpoint now

  abbrev refuse_after_cutover : MigrationState → M (Shards W) (Unit {0})
  refuse_after_cutover s =
      if is_state s migration_cutover || is_state s migration_complete
      then raise after_cutover
      else pure tt

  -- Rollback
  unfoldable pub rollback : List (ShardBackend W) → Text → ℕ → M (Shards W) (Unit {0})
  unfolding get_migration set_state
  rollback bs id now = do
    m ← get_migration id
    refuse_after_cutover m.state
    dst ← backend m.destination bs
    on_stores (dst.delete_range m.range_start m.range_end)
    set_state id before_cutover migration_rolled_back m.checkpoint now

  -- TargetsForWrite, for a query that the driver fails as a whole or not at all.
  unfoldable pub targets_for_write : Text → M (Shards W) (List Text)
  unfolding all_targets
  targets_for_write key = statement (λ d. (ok (all_targets key d.migrations), d))
