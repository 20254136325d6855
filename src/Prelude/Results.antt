-- ===== src/Prelude/Results.antt =====
-- `do` blocks of results: `if err != nil { return err }` after every call.
use mathlib.Core.Bool.{Bool}
use ubi_quic_e_xtreme_zero_t.Prelude.Bools.{if◌then◌else◌}
use ubi_quic_e_xtreme_zero_t.Prelude.Errors.{Error, Result, ok, err}

infixl 5 ◌>>=◌ ◌>>◌
abbrev pub ◌>>=◌ {ℓ κ} : {A : Type ℓ} {B : Type κ} → Result A → (A → Result B) → Result B
ok a >>= f = f a
err x >>= f = err x

abbrev pub ◌>>◌ {κ} : {B : Type κ} → Result (Unit {0}) → Result B → Result B
r >> k = r >>= λ _. k

-- `if !b { return x }`
abbrev pub demand : Bool → Error → Result (Unit {0})
demand b x = if b then ok tt else err x
