-- ===== src/Shard/Progress.antt =====
-- shard.go: a migration as a state machine, and that every operation of the coordinator moves along it.
use ubi_quic_e_xtreme_zero_t.Prelude.{
  Bool-cases, and_true, update_where, teq, Text, Result, ok, ℕ, ◌≡◌, refl, sym, subst, inl, inr,
  Bool, true, ◌&&◌, List, [], ◌∷◌, ◌++◌, arith,
}
use ubi_quic_e_xtreme_zero_t.Sql.{statement, rows_affected_or_zero}
use ubi_quic_e_xtreme_zero_t.Sql.Keeps.{Keeps, Keeps-lift, Keeps-statement, Keeps-bind, keeps_rules}
use ubi_quic_e_xtreme_zero_t.Shard.Rows.{
  MigrationState, migration_planned, migration_dual_write, migration_backfill, migration_verify,
  migration_cutover, migration_complete, migration_rolled_back, ShardMigration, ShardBackend,
  Shards, is_in, is_state, moved_to, before_cutover, at_backfill, ShardDocument,
}
use ubi_quic_e_xtreme_zero_t.Shard.{
  update_migrations, get_migration, set_state, backfill_step, import_batch, verify_migration,
  complete_migration, rollback, on_stores,
}

-- One transition of a migration.
pub data Edge : MigrationState → MigrationState → Type 0 where
  enable : Edge migration_planned migration_dual_write
  begin : Edge migration_dual_write migration_backfill
  backfilled : Edge migration_backfill migration_verify
  verified : Edge migration_verify migration_cutover
  completed : Edge migration_cutover migration_complete
  rolled_back : {s : MigrationState} → is_in before_cutover s ≡ true → Edge s migration_rolled_back

pub data Edges (s : MigrationState) : MigrationState → Type 0 where
  here : Edges s s
  next : {t u : MigrationState} → Edges s t → Edge t u → Edges s u

-- A later form of a migration: the same stores and range, in a state that the machine reaches.
pub record Progresses (m n : ShardMigration) : Type 0 where
  pub id : n.id ≡ m.id
  pub source : n.source ≡ m.source
  pub destination : n.destination ≡ m.destination
  pub range_start : n.range_start ≡ m.range_start
  pub range_end : n.range_end ≡ m.range_end
  pub states : Edges m.state n.state

-- The migrations of `new` are those of `old`, each in a later form, and then new ones.
abbrev pub Continues : List ShardMigration → List ShardMigration → Type 0
Continues [] new = Unit
Continues (m ∷ ms) [] = ⊥
Continues (m ∷ ms) (n ∷ ns) = Progresses m n × Continues ms ns

-- An update that moves a row by an edge, or keeps its state.
abbrev pub IsMove : (ShardMigration → Bool) → (ShardMigration → ShardMigration) → Type 0
IsMove p f = (m n : ShardMigration) → p n ≡ true → Progresses m n → Progresses m (f n)

Continues-update :
    (p : ShardMigration → Bool) (f : ShardMigration → ShardMigration)
    → IsMove p f
    → (old new : List ShardMigration) → Continues old new
    → Continues old (update_where p f new)
unfolding update_where
Continues-update p f k [] new h = tt
Continues-update p f k (m ∷ ms) [] h = h
Continues-update p f k (m ∷ ms) (n ∷ ns) h = elim (Bool-cases (p n)) [
  | inl e ↦ rw e (k m n e h.0, Continues-update p f k ms ns h.1)
  | inr e ↦ rw e (h.0, Continues-update p f k ms ns h.1)
]

pub Continues-append :
    (old new : List ShardMigration) (m : ShardMigration)
    → Continues old new
    → Continues old (new ++ m ∷ [])
Continues-append [] new m h = tt
Continues-append (x ∷ xs) [] m h = absurd h
Continues-append (x ∷ xs) (n ∷ ns) m h = (h.0, Continues-append xs ns m h.1)

pub Continues-refl : (ms : List ShardMigration) → Continues ms ms
Continues-refl [] = tt
Continues-refl (m ∷ ms) = (
  record {
    id = refl;
    source = refl;
    destination = refl;
    range_start = refl;
    range_end = refl;
    states = here;
  },
  Continues-refl ms,
)

-- A set_state from the states of `from` to `to` moves by an edge.
IsMove-moved_to :
    (id : Text) (from : List MigrationState) (to : MigrationState) (checkpoint : Text) (now : ℕ)
    → ((s : MigrationState) → is_in from s ≡ true → Edge s to)
    → IsMove (λ m. teq m.id id && is_in from m.state) (moved_to to checkpoint now)
IsMove-moved_to id from to checkpoint now k m n e h = record {
  id = h.id;
  source = h.source;
  destination = h.destination;
  range_start = h.range_start;
  range_end = h.range_end;
  states = next h.states (k n.state (and_true (teq n.id id) (is_in from n.state) e).1);
}

is_state-≡ : (s t : MigrationState) → is_state s t ≡ true → s ≡ t
is_state-≡ s t h = ground arith

-- The edges of a set_state from one state.
pub Edge-from :
    {s t : MigrationState} → Edge s t → (u : MigrationState) → is_in (s ∷ []) u ≡ true → Edge u t
Edge-from {s} {t} e u h = subst (λ v. Edge v t) (sym (is_state-≡ u s (ground arith))) e

-- The update of a BackfillStep that is not the last keeps the state.
IsMove-checkpoint :
    (id upto : Text) (now : ℕ)
    → IsMove (at_backfill id) (λ m. record m { checkpoint = upto; updated_at_ms = now })
IsMove-checkpoint id upto now m n e h = record {
  id = h.id;
  source = h.source;
  destination = h.destination;
  range_start = h.range_start;
  range_end = h.range_end;
  states = h.states;
}

module _ {W : Type 0} (old : List ShardMigration) where
  -- The migrations of `d` continue the old ones.
  abbrev pub Ahead : Shards W → Type 0
  Ahead d = Continues old d.migrations

  Keeps-on_stores : {A : Type 0} (f : W → Result A × W) → Keeps Ahead (on_stores f)
  Keeps-on_stores f = record { across = λ w h. h }

  Keeps-changed : (n : ℕ) → Keeps Ahead (rows_affected_or_zero n)
  unfolding statement
  Keeps-changed n = record { across = λ w h. ground arith }

  Keeps-update :
      (p : ShardMigration → Bool) (f : ShardMigration → ShardMigration)
      → IsMove p f
      → Keeps Ahead (statement (update_migrations p f))
  Keeps-update p f k =
      Keeps-statement (update_migrations p f) (λ d h. Continues-update p f k old d.migrations h)

  pub Keeps-set_state :
      (id : Text) (from : List MigrationState) (to : MigrationState) (checkpoint : Text) (now : ℕ)
      → ((s : MigrationState) → is_in from s ≡ true → Edge s to)
      → Keeps Ahead (set_state id from to checkpoint now)
  unfolding set_state
  Keeps-set_state id from to checkpoint now k =
      Keeps-bind _ _ (Keeps-update _ _ (IsMove-moved_to id from to checkpoint now k))
        (λ n. search (keeps_rules, Keeps-changed) depth 12)

  pub Keeps-get : (id : Text) → Keeps Ahead (get_migration id)
  unfolding get_migration
  Keeps-get id = Keeps-statement _ (λ d h. h)

  Keeps-checkpoint :
      (id upto : Text) (now : ℕ)
      → Keeps Ahead (
          statement (
            update_migrations
              (at_backfill id)
              (λ m. record m { checkpoint = upto; updated_at_ms = now })))
  Keeps-checkpoint id upto now = Keeps-update _ _ (IsMove-checkpoint id upto now)

  Keeps-backfilled :
      (id checkpoint : Text) (now : ℕ)
      → Keeps Ahead (set_state id (migration_backfill ∷ []) migration_verify checkpoint now)
  Keeps-backfilled id checkpoint now = Keeps-set_state id _ _ checkpoint now (Edge-from backfilled)

  Keeps-verified :
      (id checkpoint : Text) (now : ℕ)
      → Keeps Ahead (set_state id (migration_verify ∷ []) migration_cutover checkpoint now)
  Keeps-verified id checkpoint now = Keeps-set_state id _ _ checkpoint now (Edge-from verified)

  Keeps-completed :
      (id checkpoint : Text) (now : ℕ)
      → Keeps Ahead (set_state id (migration_cutover ∷ []) migration_complete checkpoint now)
  Keeps-completed id checkpoint now = Keeps-set_state id _ _ checkpoint now (Edge-from completed)

  Keeps-rolled_back :
      (id checkpoint : Text) (now : ℕ)
      → Keeps Ahead (set_state id before_cutover migration_rolled_back checkpoint now)
  Keeps-rolled_back id checkpoint now = Keeps-set_state id _ _ checkpoint now (λ s h. rolled_back h)

  pub import_batch-Keeps :
      (b : ShardBackend W) (ds : List ShardDocument) → Keeps Ahead (import_batch b ds)
  import_batch-Keeps b [] = Keeps-lift (ok tt)
  import_batch-Keeps b (d ∷ ds) = Keeps-on_stores _

  pub backfill_step-Keeps :
      (bs : List (ShardBackend W)) (id : Text) (limit now : ℕ)
      → Keeps Ahead (backfill_step bs id limit now)
  unfolding backfill_step
  backfill_step-Keeps bs id limit now =
      search
        (
          keeps_rules, Keeps-get, Keeps-on_stores, import_batch-Keeps, Keeps-backfilled,
          Keeps-checkpoint,
        )
        depth 20

  pub verify_migration-Keeps :
      (bs : List (ShardBackend W)) (id : Text) (now : ℕ) → Keeps Ahead (verify_migration bs id now)
  unfolding verify_migration
  verify_migration-Keeps bs id now =
      search (keeps_rules, Keeps-get, Keeps-on_stores, Keeps-verified) depth 20

  pub complete_migration-Keeps :
      (bs : List (ShardBackend W)) (id : Text) (deletes : Bool) (now : ℕ)
      → Keeps Ahead (complete_migration bs id deletes now)
  unfolding complete_migration
  complete_migration-Keeps bs id deletes now =
      search (keeps_rules, Keeps-get, Keeps-on_stores, Keeps-completed) depth 20

  pub rollback-Keeps :
      (bs : List (ShardBackend W)) (id : Text) (now : ℕ) → Keeps Ahead (rollback bs id now)
  unfolding rollback
  rollback-Keeps bs id now =
      search (keeps_rules, Keeps-get, Keeps-on_stores, Keeps-rolled_back) depth 20
