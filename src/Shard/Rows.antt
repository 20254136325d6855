-- ===== src/Shard/Rows.antt =====
-- shard.go: migrations and their table's statements, the interface of shard backends, and the targets of a
-- write.
use ubi_quic_e_xtreme_zero_t.Prelude.{
  if◌then◌else◌, any_where, teq, tlt, Text, no_rows, Result, ok, err, ℕ, zero, suc, Bool, true,
  false, not, ◌&&◌, ◌||◌, Option, none, some, List, [], ◌∷◌,
}
use ubi_quic_e_xtreme_zero_t.Transport.{insert_text}

pub data MigrationState : Type 0 where
  migration_planned migration_dual_write migration_backfill migration_verify : MigrationState
  migration_cutover migration_complete migration_rolled_back : MigrationState

pub record ShardDocument : Type 0 where
  pub key : Text
  pub data_json : Text

pub record ShardBatch : Type 0 where
  pub documents : List ShardDocument
  pub next : Text
  pub done : Bool

pub record ShardMigration : Type 0 where
  pub id : Text
  pub source : Text
  pub destination : Text
  pub range_start : Text
  pub range_end : Text
  pub state : MigrationState
  pub checkpoint : Text
  pub updated_at_ms : ℕ

-- The interface ShardBackend. Its operations act on the state `W` of all the stores.
pub record ShardBackend (W : Type 0) : Type 0 where
  pub backend_id : Text
  pub export_range : Text → Text → Text → ℕ → W → Result ShardBatch × W
  pub import_documents : List ShardDocument → W → Result (Unit {0}) × W
  pub count_range : Text → Text → W → Result ℕ × W
  pub delete_range : Text → Text → W → Result (Unit {0}) × W

-- The table shard_migrations, and the stores behind the backends.
pub record Shards (W : Type 0) : Type 0 where
  pub migrations : List ShardMigration
  pub stores : W

abbrev pub is_state : MigrationState → MigrationState → Bool
is_state migration_planned migration_planned = true
is_state migration_dual_write migration_dual_write = true
is_state migration_backfill migration_backfill = true
is_state migration_verify migration_verify = true
is_state migration_cutover migration_cutover = true
is_state migration_complete migration_complete = true
is_state migration_rolled_back migration_rolled_back = true
is_state _ _ = false

-- state IN (…)
abbrev pub is_in : List MigrationState → MigrationState → Bool
is_in from s = any_where (is_state s) from

abbrev pub moved_to : MigrationState → Text → ℕ → ShardMigration → ShardMigration
moved_to to checkpoint now m = record m { state = to; checkpoint = checkpoint; updated_at_ms = now }

abbrev pub migration_of : Option ShardMigration → Result ShardMigration
migration_of none = err no_rows
migration_of (some m) = ok m

abbrev pub with_id : Text → ShardMigration → Bool
with_id id m = teq m.id id

abbrev pub is_invalid : ShardMigration → Bool
is_invalid m =
    teq m.id [] || (teq m.source [] || (teq m.destination [] || teq m.source m.destination))

abbrev pub at_backfill : Text → ShardMigration → Bool
at_backfill id m = teq m.id id && is_state m.state migration_backfill

-- A limit that is not positive is 0 here.
abbrev pub batch_limit : ℕ → ℕ
batch_limit zero = 500
batch_limit (suc n) = suc n

abbrev pub before_cutover : List MigrationState
before_cutover =
    migration_planned ∷ migration_dual_write ∷ migration_backfill ∷ migration_verify ∷ []

-- The backends that a write of a key in the range of a migration goes to.
abbrev pub targets_of : MigrationState → ShardMigration → List Text
targets_of migration_planned m = m.source ∷ []
targets_of migration_dual_write m = m.source ∷ m.destination ∷ []
targets_of migration_backfill m = m.source ∷ m.destination ∷ []
targets_of migration_verify m = m.source ∷ m.destination ∷ []
targets_of migration_cutover m = m.destination ∷ []
targets_of migration_complete m = m.destination ∷ []
targets_of migration_rolled_back m = []

-- key < start || key >= end is false.
abbrev pub covers : Text → ShardMigration → Bool
covers key m = not (tlt key m.range_start || not (tlt key m.range_end))

-- The set `set`, kept in increasing order.
abbrev pub add_target : Text → List Text → List Text
add_target t us = if any_where (λ u. teq u t) us then us else insert_text t us

abbrev pub add_targets : List Text → List Text → List Text
add_targets [] us = us
add_targets (t ∷ ts) us = add_target t (add_targets ts us)

unfoldable pub all_targets : Text → List ShardMigration → List Text
all_targets key [] = []
all_targets key (m ∷ ms) =
    let rest = all_targets key ms in
    if covers key m then add_targets (targets_of m.state m) rest else rest
