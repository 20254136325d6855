-- ===== src/Json/Scanning.antt =====
-- The steps of the scanner of encoding/json, as the compaction sees them.
use ubi_quic_e_xtreme_zero_t.Prelude.{
  leb, ◌==◌, if◌then◌else◌, Bool-cases, Text, ℕ, zero, suc, ◌≡◌, refl, ◌⊎◌, inl, inr, Bool, true,
  false, not, ◌&&◌, ◌||◌, some, List, [], ◌∷◌, arith,
}
use ubi_quic_e_xtreme_zero_t.Json.{
  Frame, object_key, object_value, array_value, Mode, begin_value, begin_value_or_empty,
  begin_string, begin_string_or_empty, end_value, end_top, in_string, in_escape, in_hex, minus,
  int_zero, int_digits, dot, fraction, exponent, exponent_sign, exponent_digits, literal, Scanner,
  is_space, is_digit, is_hex, is_exponent, is_escaped, to, push, pop, after_value, before_value,
  before_string, empty_object, after_int, exponent_digit, step, ended,
}

-- The flags of the compaction in a mode.
abbrev pub within : Mode → Bool
within in_string = true
within in_escape = true
within (in_hex n) = true
within _ = false

abbrev pub escaped : Mode → Bool
escaped in_escape = true
escaped _ = false

-- A number or a literal may end here.
abbrev pub may_end : Mode → Bool
may_end int_zero = true
may_end int_digits = true
may_end fraction = true
may_end exponent_digits = true
may_end (literal []) = true
may_end end_value = true
may_end _ = false

abbrev pub is_html : ℕ → Bool
is_html c = c == b'<' || (c == b'>' || c == b'&')

abbrev is_letter : ℕ → Bool
is_letter c = leb b'a' c && leb c b'z'

abbrev all_letters : Text → Bool
all_letters [] = true
all_letters (d ∷ ds) = is_letter d && all_letters ds

abbrev pub is_plain : Mode → Bool
is_plain (literal ds) = all_letters ds
is_plain _ = true

abbrev pub at_end : List Frame → Mode
at_end [] = end_top
at_end (f ∷ fs) = end_value

abbrev Moves : Mode → List Frame → ℕ → Scanner → Type 0
Moves m fs c t =
    (is_plain t.mode ≡ true)
    × (within t.mode
        ≡ (if escaped m then within m else if c == 34 then not (within m) else within m))
    × (escaped t.mode ≡ (within m && (c == 92 && not (escaped m))))
    × (is_html c ≡ true → (m ≡ in_string) × (t ≡ record { mode = in_string; stack = fs }))
    × (within m ≡ false
        → is_space c ≡ true
        → (t ≡ record { mode = m; stack = fs })
          ⊎ ((may_end m ≡ true) × (t ≡ record { mode = at_end fs; stack = fs })))

after_value-Moves :
    (m : Mode) (fs : List Frame) (c : ℕ) (t : Scanner)
    → within m ≡ false
    → escaped m ≡ false
    → (is_space c ≡ true → (m ≡ at_end fs) ⊎ (may_end m ≡ true))
    → after_value fs c ≡ some t
    → Moves m fs c t
unfolding after_value pop to is_space
after_value-Moves m [] c t w e k h = ground (arith, w, e, k, h)
after_value-Moves m (object_key ∷ fs) c t w e k h = ground (arith, w, e, k, h)
after_value-Moves m (object_value ∷ []) c t w e k h = ground (arith, w, e, k, h)
after_value-Moves m (object_value ∷ (f ∷ fs)) c t w e k h = ground (arith, w, e, k, h)
after_value-Moves m (array_value ∷ []) c t w e k h = ground (arith, w, e, k, h)
after_value-Moves m (array_value ∷ (f ∷ fs)) c t w e k h = ground (arith, w, e, k, h)

before_value-Moves :
    (m : Mode) (fs : List Frame) (c : ℕ) (t : Scanner)
    → is_plain m ≡ true
    → within m ≡ false
    → escaped m ≡ false
    → before_value m fs c ≡ some t
    → Moves m fs c t
unfolding before_value push to is_space is_digit
before_value-Moves m fs c t p w e h = ground (arith, p, w, e, h)

module _ {A : Type 0} where
  if_true : (b : Bool) (x y : A) {z : A} → b ≡ true → (if b then x else y) ≡ z → x ≡ z
  if_true b x y q h = ground (arith, q, h)

  if_false : (b : Bool) (x y : A) {z : A} → b ≡ false → (if b then x else y) ≡ z → y ≡ z
  if_false b x y q h = ground (arith, q, h)

pub step_Moves :
    (m : Mode) (fs : List Frame) (c : ℕ) (t : Scanner)
    → is_plain m ≡ true
    → step m fs c ≡ some t
    → Moves m fs c t
unfolding step before_value push to before_string empty_object pop after_int exponent_digit is_space
    is_digit is_hex is_exponent is_escaped
step_Moves in_string fs c t p h = ground (arith, h)
step_Moves in_escape fs c t p h = ground (arith, h)
step_Moves (in_hex zero) fs c t p h = ground (arith, h)
step_Moves (in_hex (suc n)) fs c t p h = ground (arith, h)
step_Moves begin_value fs c t p h = before_value-Moves begin_value fs c t refl refl refl h
step_Moves begin_string fs c t p h = ground (arith, h)
step_Moves minus fs c t p h = ground (arith, h)
step_Moves begin_value_or_empty fs c t p h = elim (Bool-cases (c == b']')) [
  | inl q ↦
      after_value-Moves begin_value_or_empty fs c t refl refl (λ s. absurd (ground (arith, s, q)))
        (if_true _ _ _ q h)
  | inr q ↦ before_value-Moves begin_value_or_empty fs c t refl refl refl (if_false _ _ _ q h)
]
step_Moves end_value fs c t p h = ground (arith, h, p, after_value-Moves end_value fs c t)
step_Moves int_zero fs c t p h = ground (arith, h, p, after_value-Moves int_zero fs c t)
step_Moves int_digits fs c t p h = ground (arith, h, p, after_value-Moves int_digits fs c t)
step_Moves fraction fs c t p h = ground (arith, h, p, after_value-Moves fraction fs c t)
step_Moves exponent_digits fs c t p h =
    ground (arith, h, p, after_value-Moves exponent_digits fs c t)
step_Moves (literal []) fs c t p h = ground (arith, h, p, after_value-Moves (literal []) fs c t)
step_Moves begin_string_or_empty [] c t p h = ground (arith, h)
step_Moves begin_string_or_empty (f ∷ []) c t p h = ground (arith, h)
step_Moves begin_string_or_empty (f ∷ g ∷ fs) c t p h = ground (arith, h)
step_Moves dot fs c t p h = ground (arith, h, p)
step_Moves exponent fs c t p h = ground (arith, h, p)
step_Moves exponent_sign fs c t p h = ground (arith, h, p)
step_Moves end_top fs c t p h = ground (arith, h, p)
step_Moves (literal (d ∷ ds)) fs c t p h = ground (arith, h, p)

-- The compaction drops the spaces after a number, whose end the scanner then sees at the next byte.
pub lag_step :
    (m : Mode) (fs : List Frame) (c : ℕ) (t : Scanner)
    → may_end m ≡ true
    → is_space c ≡ false
    → step (at_end fs) fs c ≡ some t
    → step m fs c ≡ some t
unfolding step after_value to pop after_int is_space is_digit is_exponent
lag_step end_value [] c t k n h = ground (arith, n, h)
lag_step int_zero [] c t k n h = ground (arith, n, h)
lag_step int_digits [] c t k n h = ground (arith, n, h)
lag_step fraction [] c t k n h = ground (arith, n, h)
lag_step exponent_digits [] c t k n h = ground (arith, n, h)
lag_step (literal []) [] c t k n h = ground (arith, n, h)
lag_step end_value (f ∷ fs) c t k n h = h
lag_step int_zero (object_key ∷ fs) c t k n h = ground (arith, n, h)
lag_step int_zero (object_value ∷ fs) c t k n h = ground (arith, n, h)
lag_step int_zero (array_value ∷ fs) c t k n h = ground (arith, n, h)
lag_step int_digits (object_key ∷ fs) c t k n h = ground (arith, n, h)
lag_step int_digits (object_value ∷ fs) c t k n h = ground (arith, n, h)
lag_step int_digits (array_value ∷ fs) c t k n h = ground (arith, n, h)
lag_step fraction (object_key ∷ fs) c t k n h = ground (arith, n, h)
lag_step fraction (object_value ∷ fs) c t k n h = ground (arith, n, h)
lag_step fraction (array_value ∷ fs) c t k n h = ground (arith, n, h)
lag_step exponent_digits (object_key ∷ fs) c t k n h = ground (arith, n, h)
lag_step exponent_digits (object_value ∷ fs) c t k n h = ground (arith, n, h)
lag_step exponent_digits (array_value ∷ fs) c t k n h = ground (arith, n, h)
lag_step (literal []) (f ∷ fs) c t k n h = h
lag_step begin_value fs c t k n h = absurd (ground (arith, k))
lag_step begin_value_or_empty fs c t k n h = absurd (ground (arith, k))
lag_step begin_string fs c t k n h = absurd (ground (arith, k))
lag_step begin_string_or_empty fs c t k n h = absurd (ground (arith, k))
lag_step end_top fs c t k n h = absurd (ground (arith, k))
lag_step in_string fs c t k n h = absurd (ground (arith, k))
lag_step in_escape fs c t k n h = absurd (ground (arith, k))
lag_step (in_hex i) fs c t k n h = absurd (ground (arith, k))
lag_step minus fs c t k n h = absurd (ground (arith, k))
lag_step dot fs c t k n h = absurd (ground (arith, k))
lag_step exponent fs c t k n h = absurd (ground (arith, k))
lag_step exponent_sign fs c t k n h = absurd (ground (arith, k))
lag_step (literal (d ∷ ds)) fs c t k n h = absurd (ground (arith, k))

-- At the end of the input.
pub lag_ended :
    (m : Mode) (fs : List Frame)
    → may_end m ≡ true
    → ended (step (at_end fs) fs 32) ≡ true
    → ended (step m fs 32) ≡ true
unfolding step after_value to pop after_int is_space is_digit is_exponent ended
lag_ended m (object_key ∷ fs) k h = absurd (ground (arith, h))
lag_ended m (object_value ∷ fs) k h = absurd (ground (arith, h))
lag_ended m (array_value ∷ fs) k h = absurd (ground (arith, h))
lag_ended end_value [] k h = refl
lag_ended int_zero [] k h = refl
lag_ended int_digits [] k h = refl
lag_ended fraction [] k h = refl
lag_ended exponent_digits [] k h = refl
lag_ended (literal []) [] k h = refl
lag_ended begin_value [] k h = absurd (ground (arith, k))
lag_ended begin_value_or_empty [] k h = absurd (ground (arith, k))
lag_ended begin_string [] k h = absurd (ground (arith, k))
lag_ended begin_string_or_empty [] k h = absurd (ground (arith, k))
lag_ended end_top [] k h = absurd (ground (arith, k))
lag_ended in_string [] k h = absurd (ground (arith, k))
lag_ended in_escape [] k h = absurd (ground (arith, k))
lag_ended (in_hex i) [] k h = absurd (ground (arith, k))
lag_ended minus [] k h = absurd (ground (arith, k))
lag_ended dot [] k h = absurd (ground (arith, k))
lag_ended exponent [] k h = absurd (ground (arith, k))
lag_ended exponent_sign [] k h = absurd (ground (arith, k))
lag_ended (literal (d ∷ ds)) [] k h = absurd (ground (arith, k))
