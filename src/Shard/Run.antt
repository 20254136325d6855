-- ===== src/Shard/Run.antt =====
-- shard.go: sequences of calls of the coordinator.
use ubi_quic_e_xtreme_zero_t.Prelude.{
  Bool-cases, find_where, any_where, teq, Text, ℕ, ◌≡◌, refl, sym, subst, inl, inr, Bool, true,
  ◌||◌, some, List, [], ◌∷◌, arith,
}
use ubi_quic_e_xtreme_zero_t.Sql.{World, statement}
use ubi_quic_e_xtreme_zero_t.Sql.Keeps.{Keeps, Keeps-statement, keeps_rules}
use ubi_quic_e_xtreme_zero_t.Shard.Rows.{
  MigrationState, migration_planned, migration_dual_write, migration_complete,
  migration_rolled_back, ShardMigration, ShardBackend, Shards, with_id, is_state,
}
use ubi_quic_e_xtreme_zero_t.Shard.{
  enable_dual_write, begin_backfill, create_migration, backfill_step, verify_migration,
  complete_migration, rollback, targets_for_write, insert_migration,
}
use ubi_quic_e_xtreme_zero_t.Shard.Progress.{
  Edge, enable, begin, backfilled, verified, completed, rolled_back, Edges, here, next, Progresses,
  Continues, Continues-refl, Continues-append, Edge-from, Ahead, Keeps-set_state,
  backfill_step-Keeps, verify_migration-Keeps, complete_migration-Keeps, rollback-Keeps,
}

pub data Call : Type 0 where
  creates : ShardMigration → Call
  enables begins verifies rolls_back targets : Text → Call
  backfills : Text → ℕ → Call
  completes : Text → Bool → Call

abbrev is_finished : MigrationState → Bool
is_finished s = is_state s migration_complete || is_state s migration_rolled_back

finished-Edge : {s t : MigrationState} → is_finished s ≡ true → Edge s t → ⊥
finished-Edge h enable = ground arith
finished-Edge h begin = ground arith
finished-Edge h backfilled = ground arith
finished-Edge h verified = ground arith
finished-Edge h completed = ground arith
finished-Edge h (rolled_back e) = ground arith

finished-Edges : {s t : MigrationState} → is_finished s ≡ true → Edges s t → t ≡ s
finished-Edges h here = refl
finished-Edges h (next es e) =
    absurd (finished-Edge (subst (λ u. is_finished u ≡ true) (sym (finished-Edges h es)) h) e)

find-Continues :
    (id : Text) (old new : List ShardMigration) (m : ShardMigration)
    → Continues old new
    → find_where (with_id id) old ≡ some m
    → (n : ShardMigration) × (find_where (with_id id) new ≡ some n) × Progresses m n
find-Continues id [] new m c f = absurd (ground arith)
find-Continues id (x ∷ xs) [] m c f = absurd c
find-Continues id (x ∷ xs) (y ∷ ys) m c f = elim (Bool-cases (teq x.id id)) [
  | inl e ↦
      let same : x ≡ m = ground arith in
      (y, ground (arith, c.0.id), subst (λ v. Progresses v y) same c.0)
  | inr e ↦
      let rest = find-Continues id xs ys m c.1 (ground arith) in
      (rest.0, ground (arith, c.0.id, rest.1), rest.2)
]

-- The calls that a coordinator with the backends `bs` answers, each at a reading of the clock.
module _ {W : Type 0} (bs : List (ShardBackend W)) where
  unfoldable pub call : ℕ → Call → World (Shards W) → World (Shards W)
  call now (creates m) w = (create_migration bs m now w).1
  call now (enables id) w = (enable_dual_write id now w).1
  call now (begins id) w = (begin_backfill id now w).1
  call now (verifies id) w = (verify_migration bs id now w).1
  call now (rolls_back id) w = (rollback bs id now w).1
  call now (targets key) w = (targets_for_write key w).1
  call now (backfills id limit) w = (backfill_step bs id limit now w).1
  call now (completes id deletes) w = (complete_migration bs id deletes now w).1

  unfoldable pub run_calls : World (Shards W) → List (ℕ × Call) → World (Shards W)
  run_calls w [] = w
  run_calls w (c ∷ cs) = run_calls (call c.0 c.1 w) cs

  module _ (old : List ShardMigration) where
    insert-Keeps : (m : ShardMigration) → Keeps (Ahead {W = W} old) (statement (insert_migration m))
    insert-Keeps m = Keeps-statement _ λ d h.
        elim (Bool-cases (any_where (with_id m.id) d.migrations)) [
          | inl e ↦ rw e h
          | inr e ↦ rw e (Continues-append old d.migrations m h)
        ]

    create-Keeps : (m : ShardMigration) (now : ℕ) → Keeps (Ahead old) (create_migration bs m now)
    unfolding create_migration
    create-Keeps m now = search (keeps_rules, insert-Keeps) depth 20

    targets-Keeps : (key : Text) → Keeps (Ahead old) (targets_for_write {W = W} key)
    unfolding targets_for_write
    targets-Keeps key = Keeps-statement _ (λ d h. h)

    enable-Keeps : (id : Text) (now : ℕ) → Keeps (Ahead old) (enable_dual_write {W = W} id now)
    unfolding enable_dual_write
    enable-Keeps id now =
        Keeps-set_state old id (migration_planned ∷ []) _ [] now (Edge-from enable)

    begin-Keeps : (id : Text) (now : ℕ) → Keeps (Ahead old) (begin_backfill {W = W} id now)
    unfolding begin_backfill
    begin-Keeps id now =
        Keeps-set_state old id (migration_dual_write ∷ []) _ [] now (Edge-from begin)

    call-Ahead :
        (now : ℕ) (c : Call) (w : World (Shards W)) → Ahead old w.db → Ahead old (call now c w).db
    unfolding call
    call-Ahead now (creates m) w h = (create-Keeps m now).across w h
    call-Ahead now (enables id) w h = (enable-Keeps id now).across w h
    call-Ahead now (begins id) w h = (begin-Keeps id now).across w h
    call-Ahead now (verifies id) w h = (verify_migration-Keeps old bs id now).across w h
    call-Ahead now (rolls_back id) w h = (rollback-Keeps old bs id now).across w h
    call-Ahead now (targets key) w h = (targets-Keeps key).across w h
    call-Ahead now (backfills id limit) w h = (backfill_step-Keeps old bs id limit now).across w h
    call-Ahead now (completes id deletes) w h =
        (complete_migration-Keeps old bs id deletes now).across w h

    run_calls-Ahead :
        (cs : List (ℕ × Call)) (w : World (Shards W))
        → Ahead old w.db
        → Ahead old (run_calls w cs).db
    unfolding run_calls
    run_calls-Ahead [] w h = h
    run_calls-Ahead (c ∷ cs) w h = run_calls-Ahead cs (call c.0 c.1 w) (call-Ahead c.0 c.1 w h)

  -- Whatever the calls, their order and the failures of the driver and of the backends: every migration
  -- keeps its id, its stores and its range, no migration is lost, and its state moves only along
  -- planned, dual_write, backfill, verify, cutover, complete, or from one of the first four to
  -- rolled_back.
  pub Continues-run :
      (w : World (Shards W)) (cs : List (ℕ × Call))
      → Continues w.db.migrations (run_calls w cs).db.migrations
  Continues-run w cs = run_calls-Ahead w.db.migrations cs w (Continues-refl w.db.migrations)

  -- A migration that is complete or rolled back stays so.
  pub finished_forever :
      (w : World (Shards W)) (cs : List (ℕ × Call)) (id : Text) (m : ShardMigration)
      → find_where (with_id id) w.db.migrations ≡ some m
      → (is_state m.state migration_complete || is_state m.state migration_rolled_back) ≡ true
      → (n : ShardMigration) × (find_where (with_id id) (run_calls w cs).db.migrations ≡ some n)
        × (n.state ≡ m.state)
  finished_forever w cs id m f h =
      let found =
        find-Continues id w.db.migrations (run_calls w cs).db.migrations m (Continues-run w cs) f in
      (found.0, found.1, finished-Edges h found.2.states)
