-- ===== src/Event/Pattern.antt =====
-- The pattern of canonical events read as a statement about the segments of the name.
use ubi_quic_e_xtreme_zero_t.Prelude.{
  leb, length, Text, ℕ, ◌+◌, ◌≡◌, refl, ◌≢◌, ◌⊎◌, inl, inr, Bool, true, false, ◌&&◌, List, [], ◌∷◌,
  arith,
}
use ubi_quic_e_xtreme_zero_t.Event.{
  is_letter, is_name_char, canonical_from, matches_canonical, prefix_first, split,
}

abbrev pub name_tail : Text → Bool
name_tail [] = true
name_tail (c ∷ cs) = is_name_char c && name_tail cs

-- A letter, then letters, digits, `_` and `-`.
abbrev pub is_segment : Text → Bool
is_segment [] = false
is_segment (c ∷ cs) = is_letter c && name_tail cs

abbrev pub all_segments : List Text → Bool
all_segments [] = true
all_segments (s ∷ ss) = is_segment s && all_segments ss

-- The rest of a segment that has begun, and the segments behind it.
abbrev rest_ok : List Text → Bool
rest_ok [] = false
rest_ok (s ∷ ss) = name_tail s && all_segments ss

-- Well-formed segments, and enough of them with those before.
abbrev counted : Bool → ℕ → List Text → Bool
counted true dots ss = rest_ok ss && leb 3 (dots + length ss)
counted false dots ss = all_segments ss && leb 3 (dots + length ss)

dot_name_char : is_name_char b'.' ≡ false
unfolding is_name_char
dot_name_char = refl

dot_letter : is_letter b'.' ≡ false
unfolding is_letter
dot_letter = refl

counted_dot :
    (dots : ℕ) (ss : List Text) → counted false (dots + 1) ss ≡ counted true dots ([] ∷ ss)
counted_dot dots ss = ground arith

counted_name :
    (c dots : ℕ) (ss : List Text)
    → counted true dots (prefix_first c ss) ≡ (is_name_char c && counted true dots ss)
unfolding prefix_first
counted_name c dots [] = ground arith
counted_name c dots (s ∷ ss) = ground arith

counted_letter :
    (c dots : ℕ) (ss : List Text)
    → counted false dots (prefix_first c ss) ≡ (is_letter c && counted true dots ss) ⊎ (ss ≡ [])
unfolding prefix_first
counted_letter c dots [] = inr refl
counted_letter c dots (s ∷ ss) = inl (ground arith)

split-ne-nil : (cs : Text) → split cs ≢ []
unfolding split prefix_first
split-ne-nil [] e = cc
split-ne-nil (c ∷ cs) e = ground (arith, split-ne-nil cs)

canonical_from_lem :
    (begun : Bool) (dots : ℕ) (cs : Text)
    → canonical_from begun dots cs ≡ counted begun dots (split cs)
unfolding canonical_from split
canonical_from_lem true dots [] = ground arith
canonical_from_lem false dots [] = ground arith
canonical_from_lem false dots (c ∷ cs) = ground (
  arith,
  canonical_from_lem true dots cs,
  counted_letter c dots (split cs),
  split-ne-nil cs,
  dot_letter,
)
canonical_from_lem true dots (c ∷ cs) = ground (
  arith,
  canonical_from_lem false (dots + 1) cs,
  canonical_from_lem true dots cs,
  counted_dot dots (split cs),
  counted_name c dots (split cs),
)

-- The compiled pattern accepts an event name exactly when its dot-separated parts are at least three
-- and each is a segment.
pub matches_canonical-split :
    (event : Text)
    → matches_canonical event ≡ (all_segments (split event) && leb 3 (length (split event)))
unfolding matches_canonical
matches_canonical-split event = ground (arith, canonical_from_lem false 0 event)
