-- ===== src/Json.antt =====
-- encoding/json as model.go uses it: json.Valid, and the compact form in which json.Marshal writes a
-- RawMessage. The scanner has the modes, the stack and the depth limit of Go's own.
pub mod Scanning
pub mod Compacting
use ubi_quic_e_xtreme_zero_t.Prelude.{
  ltb, leb, ◌==◌, if◌then◌else◌, length, Text, text, ℕ, zero, suc, ◌≡◌, refl, Bool, true, false,
  not, ◌&&◌, ◌||◌, Option, none, some, List, [], ◌∷◌, ◌++◌,
}

pub data Frame : Type 0 where
  object_key object_value array_value : Frame

pub data Mode : Type 0 where
  begin_value begin_value_or_empty begin_string begin_string_or_empty : Mode
  end_value end_top in_string in_escape : Mode
  in_hex : ℕ → Mode
  minus int_zero int_digits dot fraction exponent exponent_sign exponent_digits : Mode
  literal : Text → Mode

pub record Scanner : Type 0 where
  pub mode : Mode
  pub stack : List Frame

pub is_space : ℕ → Bool
is_space c = c == 32 || (c == 9 || (c == 10 || c == 13))

is_digit : ℕ → Bool
is_digit c = leb b'0' c && leb c b'9'

is_hex : ℕ → Bool
unfolding is_digit
is_hex c = is_digit c || (leb b'a' c && leb c b'f' || leb b'A' c && leb c b'F')

is_exponent : ℕ → Bool
is_exponent c = c == b'e' || c == b'E'

is_escaped : ℕ → Bool
is_escaped c =
    c == b'b'
    || (c == b'f'
        || (c == b'n' || (c == b'r' || (c == b't' || (c == 92 || (c == b'/' || c == 34))))))

to : Mode → List Frame → Option Scanner
to m fs = some (record { mode = m; stack = fs })

max_depth : ℕ
max_depth = 10000

-- The test of the depth follows the append of the frame.
push : Mode → Frame → List Frame → Option Scanner
unfolding to max_depth
push m f fs = if ltb (length fs) max_depth then to m (f ∷ fs) else none

pop : List Frame → Option Scanner
unfolding to
pop [] = to end_top []
pop (f ∷ fs) = to end_value (f ∷ fs)

after_value : List Frame → ℕ → Option Scanner
unfolding to pop is_space
after_value [] c = if is_space c then to end_top [] else none
after_value (object_key ∷ fs) c =
    if is_space c
    then to end_value (object_key ∷ fs)
    else if c == b':'
    then to begin_value (object_value ∷ fs)
    else none
after_value (object_value ∷ fs) c =
    if is_space c
    then to end_value (object_value ∷ fs)
    else if c == b','
    then to begin_string (object_key ∷ fs)
    else if c == b'}'
    then pop fs
    else none
after_value (array_value ∷ fs) c =
    if is_space c
    then to end_value (array_value ∷ fs)
    else if c == b','
    then to begin_value (array_value ∷ fs)
    else if c == b']'
    then pop fs
    else none

before_value : Mode → List Frame → ℕ → Option Scanner
unfolding to push is_space is_digit
before_value m fs c =
    if is_space c
    then to m fs
    else if c == b'{'
    then push begin_string_or_empty object_key fs
    else if c == b'['
    then push begin_value_or_empty array_value fs
    else if c == 34
    then to in_string fs
    else if c == b'-'
    then to minus fs
    else if c == b'0'
    then to int_zero fs
    else if c == b't'
    then to (literal (text "rue")) fs
    else if c == b'f'
    then to (literal (text "alse")) fs
    else if c == b'n'
    then to (literal (text "ull")) fs
    else if is_digit c
    then to int_digits fs
    else none

before_string : Mode → List Frame → ℕ → Option Scanner
unfolding to is_space
before_string m fs c = if is_space c then to m fs else if c == 34 then to in_string fs else none

-- The `}` of an empty object is read as after a value.
empty_object : List Frame → Option Scanner
unfolding pop
empty_object [] = none
empty_object (f ∷ fs) = pop fs

after_int : List Frame → ℕ → Option Scanner
unfolding to after_value is_exponent
after_int fs c =
    if c == b'.' then to dot fs else if is_exponent c then to exponent fs else after_value fs c

exponent_digit : List Frame → ℕ → Option Scanner
unfolding to is_digit
exponent_digit fs c = if is_digit c then to exponent_digits fs else none

pub step : Mode → List Frame → ℕ → Option Scanner
unfolding to before_value before_string after_value empty_object after_int exponent_digit is_space
    is_digit is_hex is_exponent is_escaped
step begin_value fs c = before_value begin_value fs c
step begin_value_or_empty fs c =
    if c == b']' then after_value fs c else before_value begin_value_or_empty fs c
step begin_string fs c = before_string begin_string fs c
step begin_string_or_empty fs c =
    if c == b'}' then empty_object fs else before_string begin_string_or_empty fs c
step end_value fs c = after_value fs c
step end_top fs c = if is_space c then to end_top fs else none
step in_string fs c =
    if c == 34
    then to end_value fs
    else if c == 92
    then to in_escape fs
    else if ltb c 32
    then none
    else to in_string fs
step in_escape fs c =
    if is_escaped c then to in_string fs else if c == b'u' then to (in_hex 3) fs else none
step (in_hex zero) fs c = if is_hex c then to in_string fs else none
step (in_hex (suc n)) fs c = if is_hex c then to (in_hex n) fs else none
step minus fs c =
    if c == b'0' then to int_zero fs else if is_digit c then to int_digits fs else none
step int_zero fs c = after_int fs c
step int_digits fs c = if is_digit c then to int_digits fs else after_int fs c
step dot fs c = if is_digit c then to fraction fs else none
step fraction fs c =
    if is_digit c
    then to fraction fs
    else if is_exponent c
    then to exponent fs
    else after_value fs c
step exponent fs c = if c == b'+' || c == b'-' then to exponent_sign fs else exponent_digit fs c
step exponent_sign fs c = exponent_digit fs c
step exponent_digits fs c = if is_digit c then to exponent_digits fs else after_value fs c
step (literal []) fs c = after_value fs c
step (literal (d ∷ ds)) fs c = if c == d then to (literal ds) fs else none

scan : Option Scanner → Text → Option Scanner
unfolding step
scan none cs = none
scan (some s) [] = some s
scan (some s) (c ∷ cs) = scan (step s.mode s.stack c) cs

pub ended : Option Scanner → Bool
ended none = false
ended (some s) = elim s.mode [ end_top ↦ true | _ ↦ false ]

-- At the end of the input Go's scanner reads one more space.
unfoldable pub json_valid : Text → Bool
unfolding scan ended
json_valid t = ended (scan (some (record { mode = begin_value; stack = [] })) (t ++ 32 ∷ []))

-- Spaces outside strings go, and `<`, `>` and `&` are written as escapes.
-- The flags: inside a string, behind a backslash.
compact_from : Bool → Bool → Text → Text
unfolding is_space
compact_from s e [] = []
compact_from s e (c ∷ cs) =
    let rest =
      compact_from (if e then s else if c == 34 then not s else s) (s && (c == 92 && not e)) cs in
    if c == b'<'
    then text "\\u003c" ++ rest
    else if c == b'>'
    then text "\\u003e" ++ rest
    else if c == b'&'
    then text "\\u0026" ++ rest
    else if not s && is_space c
    then rest
    else c ∷ rest

unfoldable pub json_compact : Text → Text
unfolding compact_from
json_compact = compact_from false false

accepts :
    (json_valid (text "{\"a\": [1, -0.5e+3, true, null, \"x\\u00ffy\"], \"b\": {}}") ≡ true)
    × (json_valid (text " [] ") ≡ true)
    × (json_valid (text "{\"a\":01}") ≡ false)
    × (json_valid (text "[1,]") ≡ false)
    × (json_valid (text "{") ≡ false)
    × (json_valid (text "") ≡ false)
unfolding json_valid
accepts = (refl, refl, refl, refl, refl, refl)

compacts : json_compact (text "{ \"a b\": \"<\" }") ≡ text "{\"a b\":\"\\u003c\"}"
unfolding json_compact
compacts = refl
