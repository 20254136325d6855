-- ===== src/Sql/Keeps.antt =====
-- What a computation keeps of the database: one rule for each way to build it.
use ubi_quic_e_xtreme_zero_t.Prelude.{
  if◌then◌else◌, Bool-cases, result_cases, Error, driver_error, Result, ok, err, ◌≡◌, refl, ◌⊎◌,
  inl, inr, Bool, true, false, ◌||◌, arith,
}
use ubi_quic_e_xtreme_zero_t.Sql.{
  World, M, next_fault, later_faults, ◌>>=◌, lift, ignore, statement, commit, transaction,
}

-- Every call of `m` that starts from a database with `P` leaves one with `P`, also where it fails.
pub record Keeps {D A : Type 0} (P : D → Type 0) (m : M D A) : Type 0 where
  pub across : (w : World D) → P w.db → P (m w).1.db

module _ {D A : Type 0} {P : D → Type 0} where
  -- A result that is known already; `pure` and `raise` are such.
  pub Keeps-lift : (r : Result A) → Keeps P (lift {D = D} r)
  Keeps-lift r = record { across = λ v before. before }

  pub Keeps-statement : (f : D → Result A × D) → ((d : D) → P d → P (f d).1) → Keeps P (statement f)
  unfolding statement
  Keeps-statement f k = record { across = λ v before. ground (arith, k v.db before) }

  pub Keeps-ignore : (m : M D A) → Keeps P m → Keeps P (ignore m)
  Keeps-ignore m k = record { across = k.across }

  -- Both branches keep it; which one is taken does not matter.
  pub Keeps-if : (b : Bool) (m n : M D A) → Keeps P m → Keeps P n → Keeps P (if b then m else n)
  Keeps-if b m n km kn = elim b as (λ c. Keeps P (if c then m else n)) [ true ↦ km | false ↦ kn ]

module _ {D A B : Type 0} {P : D → Type 0} where
  -- The rest may use that `r` was a success.
  pub Keeps-lift-bind :
      (r : Result A) (rest : A → M D B)
      → ((a : A) → r ≡ ok a → Keeps P (rest a))
      → Keeps P (lift r >>= rest)
  Keeps-lift-bind (err x) rest k = Keeps-lift (err x)
  Keeps-lift-bind (ok a) rest k = record { across = (k a refl).across }

  pub Keeps-bind :
      (m : M D A) (rest : A → M D B)
      → Keeps P m
      → ((a : A) → Keeps P (rest a))
      → Keeps P (m >>= rest)
  Keeps-bind m rest first k = record {
    across = λ v before.
        let (r, v') = m v in
        (Keeps-lift-bind r rest (λ a made. k a)).across v' (first.across v before);
  }

module _ {D A : Type 0} (P : D → Type 0) where
  commit_keeps :
      (d : D) (r : Result A) (w : World D)
      → P d
      → ((a : A) → r ≡ ok a → P w.db)
      → P (commit d r w).1.db
  unfolding commit
  commit_keeps d (ok a) w h k = ground (arith, k a refl)
  commit_keeps d (err e) w h k = h

  -- Whatever the driver does, a transaction keeps what its successful bodies keep.
  pub Keeps-transaction :
      (m : M D A)
      → ((w : World D) (a : A) → P w.db → (m w).0 ≡ ok a → P (m w).1.db)
      → Keeps P (transaction m)
  unfolding transaction
  Keeps-transaction m k = record {
    across = λ w h. elim (Bool-cases (next_fault w.faults)) [
      | inl e ↦ rw e h
      | inr e ↦
          let v : World D = record w { faults = later_faults w.faults } in
          rw e (commit_keeps w.db (m v).0 (m v).1 h (λ a. k v a h))
    ];
  }

pub ruleset keeps_rules = (Keeps-lift, Keeps-ignore, Keeps-if, Keeps-bind)

-- A transaction has either made all that its body makes, or returned an error and changed nothing.
pub transaction_cases :
    {D A : Type 0} (m : M D A) (w : World D)
    → let v : World D = record w { faults = later_faults w.faults } in
      ((a : A) × ((transaction m w).0 ≡ ok a)
        × ((m v).0 ≡ ok a)
        × ((transaction m w).1.db ≡ (m v).1.db))
      ⊎ ((x : Error) × ((transaction m w).0 ≡ err x) × ((transaction m w).1.db ≡ w.db))
unfolding transaction
transaction_cases m w =
    let v = record w { faults = later_faults w.faults } in
    elim (result_cases (m v).0) [
      | inl (a, e) ↦ elim (Bool-cases (next_fault w.faults || next_fault (m v).1.faults)) [
        | inl q ↦ inr (driver_error, ground arith, ground arith)
        | inr q ↦ inl (a, ground arith, e, ground arith)
      ]
      | inr (x, e) ↦ elim (Bool-cases (next_fault w.faults)) [
        | inl q ↦ inr (driver_error, ground arith, ground arith)
        | inr q ↦ inr (x, ground arith, ground arith)
      ]
    ]
