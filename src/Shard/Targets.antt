-- ===== src/Shard/Targets.antt =====
-- shard.go: which backends a write goes to.
use ubi_quic_e_xtreme_zero_t.Prelude.{
  Bool-cases, any_where, teq, tlt, Text, teq_iff, ok, ◌≡◌, refl, subst, inl, inr, Bool, true, false,
  not, ◌&&◌, ◌||◌, List, [], ◌∷◌, arith,
}
use ubi_quic_e_xtreme_zero_t.Sql.{World, statement}
use ubi_quic_e_xtreme_zero_t.Transport.{insert_text}
use ubi_quic_e_xtreme_zero_t.Transport.Names.{Increasing, is_name, Increasing-insert_text}
use ubi_quic_e_xtreme_zero_t.Shard.Rows.{
  MigrationState, migration_planned, migration_dual_write, migration_backfill, migration_verify,
  migration_cutover, migration_complete, migration_rolled_back, ShardMigration, Shards, targets_of,
  covers, add_target, add_targets, all_targets,
}
use ubi_quic_e_xtreme_zero_t.Shard.{targets_for_write}

-- Writes go to the source of a migration in the state.
abbrev pub writes_source : MigrationState → Bool
writes_source migration_planned = true
writes_source migration_dual_write = true
writes_source migration_backfill = true
writes_source migration_verify = true
writes_source migration_cutover = false
writes_source migration_complete = false
writes_source migration_rolled_back = false

-- Writes go to its destination.
abbrev pub writes_destination : MigrationState → Bool
writes_destination migration_planned = false
writes_destination migration_dual_write = true
writes_destination migration_backfill = true
writes_destination migration_verify = true
writes_destination migration_cutover = true
writes_destination migration_complete = true
writes_destination migration_rolled_back = false

-- The migration sends writes of the key to the backend.
abbrev pub sends : Text → Text → ShardMigration → Bool
sends key b m =
    not (tlt key m.range_start)
    && tlt key m.range_end
    && ((writes_source m.state && teq m.source b)
        || (writes_destination m.state && teq m.destination b))

targets_of_lem :
    (b : Text) (state : MigrationState) (m : ShardMigration)
    → any_where (is_name b) (targets_of state m) ≡ (
        (writes_source state && teq m.source b)
        || (writes_destination state && teq m.destination b))
targets_of_lem b migration_planned m = ground arith
targets_of_lem b migration_dual_write m = ground arith
targets_of_lem b migration_backfill m = ground arith
targets_of_lem b migration_verify m = ground arith
targets_of_lem b migration_cutover m = ground arith
targets_of_lem b migration_complete m = ground arith
targets_of_lem b migration_rolled_back m = ground arith

sends_lem :
    (key b : Text) (m : ShardMigration)
    → sends key b m ≡ (covers key m && any_where (is_name b) (targets_of m.state m))
sends_lem key b m = ground (arith, targets_of_lem b m.state m)

any_where-insert_text :
    (p : Text → Bool) (t : Text) (us : List Text)
    → any_where p (insert_text t us) ≡ (p t || any_where p us)
unfolding insert_text
any_where-insert_text p t [] = ground arith
any_where-insert_text p t (u ∷ us) = ground (arith, any_where-insert_text p t us)

-- A name that is there already changes nothing.
named_already :
    (b t : Text) (us : List Text)
    → any_where (is_name t) us ≡ true
    → teq t b ≡ true
    → any_where (is_name b) us ≡ true
named_already b t us h e = subst (λ v. any_where (is_name v) us ≡ true) ((teq_iff t b).0 e) h

add_target_lem :
    (b t : Text) (us : List Text)
    → any_where (is_name b) (add_target t us) ≡ (teq t b || any_where (is_name b) us)
add_target_lem b t us = elim (Bool-cases (any_where (is_name t) us)) [
  | inl e ↦ rw e (ground (arith, named_already b t us e))
  | inr e ↦ rw e (any_where-insert_text (is_name b) t us)
]

add_targets_lem :
    (b : Text) (ts us : List Text)
    → any_where (is_name b) (add_targets ts us)
      ≡ (any_where (is_name b) ts || any_where (is_name b) us)
add_targets_lem b [] us = ground arith
add_targets_lem b (t ∷ ts) us =
    ground (arith, add_target_lem b t (add_targets ts us), add_targets_lem b ts us)

all_targets_lem :
    (key b : Text) (ms : List ShardMigration)
    → any_where (is_name b) (all_targets key ms) ≡ any_where (sends key b) ms
unfolding all_targets
all_targets_lem key b [] = refl
all_targets_lem key b (m ∷ ms) = elim (Bool-cases (covers key m)) [
  | inl e ↦ rw e (
      ground (
        arith,
        sends_lem key b m,
        add_targets_lem b (targets_of m.state m) (all_targets key ms),
        all_targets_lem key b ms,
      ))
  | inr e ↦ rw e (ground (arith, sends_lem key b m, all_targets_lem key b ms))
]

Increasing-add_target : (t : Text) (us : List Text) → Increasing us → Increasing (add_target t us)
Increasing-add_target t us h = elim (Bool-cases (any_where (is_name t) us)) [
  | inl e ↦ rw e h
  | inr e ↦ rw e (Increasing-insert_text t us e h)
]

Increasing-add_targets : (ts us : List Text) → Increasing us → Increasing (add_targets ts us)
Increasing-add_targets [] us h = h
Increasing-add_targets (t ∷ ts) us h =
    Increasing-add_target t (add_targets ts us) (Increasing-add_targets ts us h)

Increasing-all_targets : (key : Text) (ms : List ShardMigration) → Increasing (all_targets key ms)
unfolding all_targets
Increasing-all_targets key [] = tt
Increasing-all_targets key (m ∷ ms) = elim (Bool-cases (covers key m)) [
  | inl e ↦ rw e (Increasing-add_targets (targets_of m.state m) _ (Increasing-all_targets key ms))
  | inr e ↦ rw e (Increasing-all_targets key ms)
]

-- TargetsForWrite, when it succeeds, changes nothing and returns backends in increasing order, each once:
-- exactly those that some migration whose range covers the key sends its writes to in its state: the
-- source in planned, dual_write, backfill and verify, the destination in dual_write, backfill, verify,
-- cutover and complete, and none once it is rolled back.
pub targets_for_write_ok :
    {W : Type 0} (key : Text) (w : World (Shards W)) (bs : List Text)
    → (targets_for_write key w).0 ≡ ok bs
    → ((targets_for_write key w).1.db ≡ w.db)
      × Increasing bs
      × ((b : Text) → any_where (is_name b) bs ≡ any_where (sends key b) w.db.migrations)
unfolding targets_for_write statement
targets_for_write_ok key w bs h =
    let made : all_targets key w.db.migrations ≡ bs = ground arith in
    (
      ground arith,
      subst Increasing made (Increasing-all_targets key w.db.migrations),
      λ b.
          subst (λ v. any_where (is_name b) v ≡ any_where (sends key b) w.db.migrations) made
            (all_targets_lem key b w.db.migrations),
    )
