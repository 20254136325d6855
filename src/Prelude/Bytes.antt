-- ===== src/Prelude/Bytes.antt =====
-- A Go string is its sequence of bytes, compared byte by byte.
use Prim.Native.Nat.{ℕ}
use Prim.Native.Char.{code}
use Prim.Native.String.{String}
use mathlib.Core.Path.{◌≡◌, refl}
use mathlib.Core.Logic.{◌↔◌, ◌≢◌}
use mathlib.Core.Bool.{Bool, true, false, ◌&&◌}
use mathlib.Core.List.{List, [], ◌∷◌}
use native.Mathlib.Omega.{arith}
use ubi_quic_e_xtreme_zero_t.Prelude.Bools.{ltb, ◌==◌, if◌then◌else◌}

abbrev pub Text : Type 0
Text = List ℕ

-- The bytes of an ASCII literal.
abbrev pub text : String → Text
text String.[] = []
text (String.◌∷◌ c s) = code c ∷ text s

unfoldable pub teq : Text → Text → Bool
teq [] [] = true
teq [] (b ∷ y) = false
teq (a ∷ x) [] = false
teq (a ∷ x) (b ∷ y) = a == b && teq x y

unfoldable pub tlt : Text → Text → Bool
tlt [] [] = false
tlt [] (b ∷ y) = true
tlt (a ∷ x) [] = false
tlt (a ∷ x) (b ∷ y) = if ltb a b then true else if a == b then tlt x y else false

pub teq_iff : (x y : Text) → (teq x y ≡ true) ↔ (x ≡ y)
unfolding teq
teq_iff [] [] = ground arith
teq_iff [] (b ∷ y) = ground arith
teq_iff (a ∷ x) [] = ground arith
teq_iff (a ∷ x) (b ∷ y) = ground (arith, teq_iff x y)

pub teq_refl : (x : Text) → teq x x ≡ true
teq_refl x = (teq_iff x x).1 refl

pub teq-false : (x y : Text) → x ≢ y → teq x y ≡ false
teq-false x y h = ground (arith, teq_iff x y)

pub tlt_irrefl : (x : Text) → tlt x x ≡ false
unfolding tlt
tlt_irrefl [] = refl
tlt_irrefl (a ∷ x) = ground (arith, tlt_irrefl x)

pub tlt_trans : (x y z : Text) → tlt x y ≡ true → tlt y z ≡ true → tlt x z ≡ true
unfolding tlt
tlt_trans [] [] z h k = ground arith
tlt_trans [] (b ∷ y) [] h k = ground arith
tlt_trans [] (b ∷ y) (c ∷ z) h k = refl
tlt_trans (a ∷ x) [] z h k = ground arith
tlt_trans (a ∷ x) (b ∷ y) [] h k = ground arith
tlt_trans (a ∷ x) (b ∷ y) (c ∷ z) h k = ground (arith, tlt_trans x y z)

-- Two texts of which neither is below the other are equal.
pub tlt_total : (x y : Text) → tlt x y ≡ false → tlt y x ≡ false → x ≡ y
unfolding tlt
tlt_total [] [] h k = refl
tlt_total [] (b ∷ y) h k = ground arith
tlt_total (a ∷ x) [] h k = ground arith
tlt_total (a ∷ x) (b ∷ y) h k = ground (arith, tlt_total x y)
