-- ===== src/Sql.antt =====
-- database/sql as the program uses it: statements over a database value, each of which the driver may
-- fail, and transactions that keep all of their statements or none (store.go, shard.go).
pub mod Keeps
use ubi_quic_e_xtreme_zero_t.Prelude.{
  if◌then◌else◌, Error, driver_error, Result, ok, err, ℕ, Bool, false, List, [], ◌∷◌,
}

-- The database, and which of the coming calls of the driver fail. An empty list: no call fails.
pub record World (D : Type 0) : Type 0 where
  pub db : D
  pub faults : List Bool

abbrev pub M : Type 0 → Type 0 → Type 0
M D A = World D → Result A × World D

abbrev pub next_fault : List Bool → Bool
next_fault [] = false
next_fault (b ∷ bs) = b

abbrev pub later_faults : List Bool → List Bool
later_faults [] = []
later_faults (b ∷ bs) = bs

abbrev continue : {D A B : Type 0} → Result A → (A → M D B) → M D B
continue (ok a) f w = f a w
continue (err e) f w = (err e, w)

infixl 5 ◌>>=◌ ◌>>◌
abbrev pub ◌>>=◌ : {D A B : Type 0} → M D A → (A → M D B) → M D B
◌>>=◌ m f w = let r = m w in continue r.0 f r.1

abbrev pub ◌>>◌ : {D B : Type 0} → M D (Unit {0}) → M D B → M D B
m >> k = m >>= λ _. k

abbrev pub lift : {D A : Type 0} → Result A → M D A
lift r w = (r, w)

abbrev pub pure : {D A : Type 0} → A → M D A
pure a = lift (ok a)

abbrev pub raise : {D A : Type 0} → Error → M D A
raise e = lift (err e)

-- `_, _ = db.ExecContext(…)`: the error is dropped.
abbrev pub ignore : {D A : Type 0} → M D A → M D (Unit {0})
ignore m w = (ok tt, (m w).1)

-- One call of ExecContext, or of QueryRowContext with Scan.
unfoldable pub statement : {D A : Type 0} → (D → Result A × D) → M D A
statement f w =
    if next_fault w.faults
    then (err driver_error, record w { faults = later_faults w.faults })
    else (let r = f w.db in (r.0, record { db = r.1; faults = later_faults w.faults }))

-- res.RowsAffected(), which may fail.
abbrev pub rows_affected : {D : Type 0} → ℕ → M D ℕ
rows_affected n = statement (λ d. (ok n, d))

abbrev or_zero : Result ℕ → Result ℕ
or_zero (ok n) = ok n
or_zero (err e) = ok 0

-- `n, _ := res.RowsAffected()`
abbrev pub rows_affected_or_zero : {D : Type 0} → ℕ → M D ℕ
rows_affected_or_zero n w = let r = rows_affected n w in (or_zero r.0, r.1)

-- Commit may fail; the deferred Rollback undoes the statements of every body that is not committed.
unfoldable pub commit : {D A : Type 0} → D → Result A → World D → Result A × World D
commit d (ok a) w =
    if next_fault w.faults
    then (err driver_error, record { db = d; faults = later_faults w.faults })
    else (ok a, record w { faults = later_faults w.faults })
commit d (err e) w = (err e, record w { db = d })

-- BeginTx, the statements of the body, and Commit.
unfoldable pub transaction : {D A : Type 0} → M D A → M D A
unfolding commit
transaction body w =
    if next_fault w.faults
    then (err driver_error, record w { faults = later_faults w.faults })
    else (let r = body (record w { faults = later_faults w.faults }) in commit w.db r.0 r.1)
