-- ===== src/Json/Compacting.antt =====
-- encoding/json: the compact form of valid JSON is valid.
use ubi_quic_e_xtreme_zero_t.Prelude.{
  ◌==◌, if◌then◌else◌, Bool-cases, Option-cases, Text, text, ℕ, ◌≡◌, refl, sym, ap, ◌∙◌, subst, ◌⊎◌,
  inl, inr, Bool, true, false, not, ◌&&◌, Option, none, some, List, [], ◌∷◌, ◌++◌, arith,
}
use ubi_quic_e_xtreme_zero_t.Json.Scanning.{
  within, escaped, may_end, is_html, is_plain, at_end, step_Moves, lag_step, lag_ended,
}
use ubi_quic_e_xtreme_zero_t.Json.{
  Frame, Mode, begin_value, in_string, Scanner, is_space, is_digit, is_hex, is_escaped, to, step,
  scan, ended, json_valid, compact_from, json_compact,
}

-- The mode of the scanner of the compact form, beside that of the scanner of the text.
abbrev Beside : Mode → List Frame → Mode → Type 0
Beside m fs n = (m ≡ n) ⊎ ((m ≡ at_end fs) × (may_end n ≡ true))

outside_end : (fs : List Frame) → within (at_end fs) ≡ false
outside_end [] = refl
outside_end (f ∷ fs) = refl

abbrev accepted : Mode → List Frame → Text → Bool
accepted m fs cs = ended (scan (some (record { mode = m; stack = fs })) (cs ++ 32 ∷ []))

accepted_next :
    (m : Mode) (fs : List Frame) (c : ℕ) (t : Scanner) (cs : Text)
    → step m fs c ≡ some t
    → accepted m fs (c ∷ cs) ≡ accepted t.mode t.stack cs
unfolding scan
accepted_next m fs c t cs h = ap (λ o. ended (scan o (cs ++ 32 ∷ []))) h

accepted-none :
    (m : Mode) (fs : List Frame) (c : ℕ) (cs : Text)
    → step m fs c ≡ none
    → accepted m fs (c ∷ cs) ≡ false
unfolding scan ended
accepted-none m fs c cs h = ap (λ o. ended (scan o (cs ++ 32 ∷ []))) h

scan-nil : (o : Option Scanner) → scan o [] ≡ o
unfolding scan
scan-nil none = refl
scan-nil (some s) = refl

-- The end of the input, whose last byte is read as a space.
accepted_end :
    (m n : Mode) (fs : List Frame)
    → Beside m fs n
    → accepted m fs [] ≡ true
    → accepted n fs [] ≡ true
unfolding scan
accepted_end m n fs (inl e) h = subst (λ k. accepted k fs [] ≡ true) e h
accepted_end m n fs (inr (e, k)) h =
    ap ended (scan-nil (step n fs 32))
    ∙ lag_ended n fs k (
        ap ended (sym (scan-nil (step (at_end fs) fs 32)))
        ∙ subst (λ v. accepted v fs [] ≡ true) e h)

-- What the compaction writes for a byte, before the rest.
abbrev written : Bool → ℕ → Text → Text
written s c rest =
    if c == b'<'
    then text "\\u003c" ++ rest
    else if c == b'>'
    then text "\\u003e" ++ rest
    else if c == b'&'
    then text "\\u0026" ++ rest
    else if not s && is_space c
    then rest
    else c ∷ rest

compact_cons :
    (s e : Bool) (c : ℕ) (cs : Text) (u v : Bool)
    → u ≡ (if e then s else if c == 34 then not s else s)
    → v ≡ (s && (c == 92 && not e))
    → compact_from s e (c ∷ cs) ≡ written s c (compact_from u v cs)
unfolding compact_from
compact_cons s e c cs u v p q =
    sym (ap (λ (f : Bool × Bool). written s c (compact_from f.0 f.1 cs)) (λ i. (p i, q i)))

written_html :
    (s : Bool) (c : ℕ) (fs : List Frame) (rest : Text)
    → is_html c ≡ true
    → accepted in_string fs (written s c rest) ≡ accepted in_string fs rest
unfolding scan step to is_hex is_digit is_escaped
written_html s c fs rest h = elim (Bool-cases (c == b'<')) [
  | inl q ↦ rw q refl
  | inr q ↦ elim (Bool-cases (c == b'>')) [
    | inl r ↦ rw (q, r) refl
    | inr r ↦ let third : (c == b'&') ≡ true = ground (arith, h, q, r) in rw (q, r, third) refl
  ]
]

written_space :
    (s : Bool) (c : ℕ) (rest : Text)
    → is_html c ≡ false
    → (not s && is_space c) ≡ true
    → written s c rest ≡ rest
written_space s c rest h k = ground (arith, h, k)

written_other :
    (s : Bool) (c : ℕ) (rest : Text)
    → is_html c ≡ false
    → (not s && is_space c) ≡ false
    → written s c rest ≡ c ∷ rest
written_other s c rest h k = ground (arith, h, k)

-- A byte that is kept takes both scanners to the same mode.
kept_step :
    (m n : Mode) (fs : List Frame) (c : ℕ) (t : Scanner)
    → Beside m fs n
    → (not (within m) && is_space c) ≡ false
    → step m fs c ≡ some t
    → step n fs c ≡ some t
kept_step m n fs c t (inl e) z q = subst (λ k. step k fs c ≡ some t) e q
kept_step m n fs c t (inr (e, k)) z q =
    lag_step n fs c t k (ground (arith, z, ap within e, outside_end fs))
      (subst (λ v. step v fs c ≡ some t) e q)

-- A space that is dropped leaves the scanner of the compact form where it is.
dropped :
    (m n : Mode) (fs : List Frame) (t : Scanner)
    → Beside m fs n
    → ((t ≡ record { mode = m; stack = fs })
        ⊎ ((may_end m ≡ true) × (t ≡ record { mode = at_end fs; stack = fs })))
    → Beside t.mode t.stack n × (t.stack ≡ fs)
dropped m n fs t b (inl e) =
    (subst (λ (v : Scanner). Beside v.mode v.stack n) (sym e) b, ap (λ (v : Scanner). v.stack) e)
dropped m n fs t b (inr (k, e)) = (
  subst (λ (v : Scanner). Beside v.mode v.stack n) (sym e) (inr (refl, lagging b)),
  ap (λ (v : Scanner). v.stack) e,
)
  where
    lagging : Beside m fs n → may_end n ≡ true
    lagging (inl same) = subst (λ v. may_end v ≡ true) same k
    lagging (inr (_, l)) = l

in_string-Beside : (n : Mode) (fs : List Frame) → Beside in_string fs n → in_string ≡ n
in_string-Beside n fs (inl e) = e
in_string-Beside n fs (inr (e, k)) = absurd (ground (arith, ap within e, outside_end fs))

compact_accepted :
    (cs : Text) (m n : Mode) (fs : List Frame)
    → is_plain m ≡ true
    → Beside m fs n
    → accepted m fs cs ≡ true
    → accepted n fs (compact_from (within m) (escaped m) cs) ≡ true
unfolding compact_from
compact_accepted [] m n fs p b h = accepted_end m n fs b h
compact_accepted (c ∷ cs) m n fs p b h = elim (Option-cases (step m fs c)) [
  | inl q ↦ absurd (ground (arith, h, accepted-none m fs c cs q))
  | inr (t, q) ↦
      let (plain, inside, behind, html, space) = step_Moves m fs c t p q in
      let rest = compact_from (within t.mode) (escaped t.mode) cs in
      let left : accepted t.mode t.stack cs ≡ true = sym (accepted_next m fs c t cs q) ∙ h in
      ap (accepted n fs) (compact_cons (within m) (escaped m) c cs _ _ inside behind)
      ∙ elim (Bool-cases (is_html c)) [
        | inl y ↦
            let (at, after) = html y in
            let same : in_string ≡ n = in_string-Beside n fs (subst (λ v. Beside v fs n) at b) in
            ap (λ v. accepted v fs (written (within m) c rest)) (sym same)
            ∙ written_html (within m) c fs rest y
            ∙ ap (λ (v : Scanner). accepted v.mode v.stack rest) (sym after)
            ∙ compact_accepted cs t.mode t.mode t.stack plain (inl refl) left
        | inr y ↦ elim (Bool-cases (not (within m) && is_space c)) [
          | inl z ↦
              let (beside, kept) =
                dropped m n fs t b (space (ground (arith, z)) (ground (arith, z))) in
              ap (accepted n fs) (written_space (within m) c rest y z)
              ∙ ap (λ k. accepted n k rest) (sym kept)
              ∙ compact_accepted cs t.mode n t.stack plain beside left
          | inr z ↦
              ap (accepted n fs) (written_other (within m) c rest y z)
              ∙ accepted_next n fs c t rest (kept_step m n fs c t b z q)
              ∙ compact_accepted cs t.mode t.mode t.stack plain (inl refl) left
        ]
      ]
]

-- The compact form of valid JSON is valid.
pub json_valid-json_compact : (t : Text) → json_valid t ≡ true → json_valid (json_compact t) ≡ true
unfolding json_valid json_compact
json_valid-json_compact t h = compact_accepted t begin_value begin_value [] refl (inl refl) h
