-- ===== src/Shard/Backfilling.antt =====
-- shard.go: what a BackfillStep that succeeds has seen and done.
use ubi_quic_e_xtreme_zero_t.Prelude.{
  if◌then◌else◌, Option-cases, find_where, update_where, teq, Text, result_cases, Result, ok, ℕ,
  ◌≡◌, inl, inr, Bool, ◌&&◌, some, List, [], ◌∷◌, arith,
}
use ubi_quic_e_xtreme_zero_t.Sql.{World, statement}
use ubi_quic_e_xtreme_zero_t.Shard.Rows.{
  migration_backfill, migration_verify, ShardMigration, ShardDocument, ShardBatch, ShardBackend,
  Shards, with_id, is_in, moved_to, at_backfill, batch_limit,
}
use ubi_quic_e_xtreme_zero_t.Shard.{backfill_step, get_migration, set_state, is_backend}

module _ {W : Type 0} (bs : List (ShardBackend W)) where
  -- No import is called for an empty batch.
  abbrev pub after_import : ShardBackend W → List ShardDocument → W → Result (Unit {0}) × W
  after_import b [] s = (ok tt, s)
  after_import b (d ∷ ds) s = b.import_documents (d ∷ ds) s

  abbrev exported : ShardBackend W → ShardMigration → ℕ → W → Result ShardBatch × W
  exported src m limit s =
      src.export_range m.range_start m.range_end m.checkpoint (batch_limit limit) s

  -- The batch that a step takes from the source, and its import.
  pub record Copied (m : ShardMigration) (src dst : ShardBackend W) (limit : ℕ) (batch : ShardBatch)
      (before after : W) : Type 0 where
    pub batch_of : (exported src m limit before).0 ≡ ok batch
    pub imports : (after_import dst batch.documents (exported src m limit before).1).0 ≡ ok tt
    pub stores : (after_import dst batch.documents (exported src m limit before).1).1 ≡ after

  abbrev pub advanced : Text → ShardBatch → ℕ → List ShardMigration → List ShardMigration
  advanced id batch now ms =
      if batch.done
      then update_where (λ n. teq n.id id && is_in (migration_backfill ∷ []) n.state)
          (moved_to migration_verify batch.next now) ms
      else update_where (at_backfill id)
          (λ n. record n { checkpoint = batch.next; updated_at_ms = now }) ms

  -- A BackfillStep that succeeds has found the migration in the state backfill and both of its backends,
  -- has exported the batch after the checkpoint from the source and imported it into the destination; its
  -- result says whether the batch was the last. The migration moves to verify then, and otherwise keeps
  -- its state and gets the checkpoint of the batch; no other migration changes.
  pub backfill_step_ok :
      (id : Text) (limit now : ℕ) (w : World (Shards W)) (finished : Bool)
      → (backfill_step bs id limit now w).0 ≡ ok finished
      → (m : ShardMigration) × (src : ShardBackend W) × (dst : ShardBackend W)
        × (batch : ShardBatch) × (find_where (with_id id) w.db.migrations ≡ some m)
        × (m.state ≡ migration_backfill)
        × (find_where (is_backend m.source) bs ≡ some src)
        × (find_where (is_backend m.destination) bs ≡ some dst)
        × Copied m src dst limit batch w.db.stores (backfill_step bs id limit now w).1.db.stores
        × (finished ≡ batch.done)
        × ((backfill_step bs id limit now w).1.db.migrations
            ≡ advanced id batch now w.db.migrations)
  unfolding backfill_step get_migration set_state statement
  backfill_step_ok id limit now w finished h =
      elim (Option-cases (find_where (with_id id) w.db.migrations)) [
        | inl e ↦ absurd (ground arith)
        | inr (m, e) ↦ elim (Option-cases (find_where (is_backend m.source) bs)) [
          | inl f ↦ absurd (ground arith)
          | inr (src, f) ↦ elim (Option-cases (find_where (is_backend m.destination) bs)) [
            | inl g ↦ absurd (ground arith)
            | inr (dst, g) ↦ elim (result_cases (exported src m limit w.db.stores).0) [
              | inr (x, a) ↦ absurd (ground arith)
              | inl (batch, a) ↦ (
                m,
                src,
                dst,
                batch,
                e,
                ground arith,
                f,
                g,
                record { batch_of = a; imports = ground arith; stores = ground arith },
                ground arith,
                ground arith,
              )
            ]
          ]
        ]
      ]
