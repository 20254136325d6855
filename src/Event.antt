-- ===== src/Event.antt =====
-- model.go: the canonical event names and the state in which a name ends.
pub mod Pattern
use ubi_quic_e_xtreme_zero_t.Prelude.{
  leb, ◌==◌, if◌then◌else◌, teq, Text, text, invalid_canonical_event, invalid_event_state, Result,
  ok, err, ℕ, ◌+◌, ◌≡◌, refl, Bool, true, false, ◌&&◌, ◌||◌, List, [], ◌∷◌,
}

pub data EventState : Type 0 where
  state_request state_ok state_error : EventState

pub is_letter : ℕ → Bool
is_letter c = leb b'A' c && leb c b'Z' || leb b'a' c && leb c b'z'

pub is_name_char : ℕ → Bool
unfolding is_letter
is_name_char c = is_letter c || (leb b'0' c && leb c b'9' || (c == b'_' || c == b'-'))

-- The automaton of `canonicalEventPattern`: whether a segment has begun, and the dots read so far.
canonical_from : Bool → ℕ → Text → Bool
canonical_from begun dots [] = begun && leb 2 dots
canonical_from false dots (c ∷ cs) = is_letter c && canonical_from true dots cs
canonical_from true dots (c ∷ cs) = elim (c == b'.') [
  | true ↦ canonical_from false (dots + 1) cs
  | false ↦ is_name_char c && canonical_from true dots cs
]

unfoldable pub matches_canonical : Text → Bool
unfolding canonical_from is_name_char
matches_canonical = canonical_from false 0

prefix_first : ℕ → List Text → List Text
prefix_first c [] = []
prefix_first c (s ∷ ss) = (c ∷ s) ∷ ss

-- strings.Split(s, ".")
unfoldable pub split : Text → List Text
unfolding prefix_first
split [] = [] ∷ []
split (c ∷ cs) = let rest = split cs in if c == b'.' then [] ∷ rest else prefix_first c rest

-- parts[len(parts)-1]
unfoldable pub last : List Text → Text
last [] = []
last (s ∷ []) = s
last (s ∷ t ∷ ss) = last (t ∷ ss)

unfoldable pub read_state : Text → Result EventState
read_state s =
    if teq s (text "request")
    then ok state_request
    else if teq s (text "ok")
    then ok state_ok
    else if teq s (text "error")
    then ok state_error
    else err invalid_event_state

-- Envelope.State
unfoldable pub event_state : Text → Result EventState
unfolding matches_canonical split last read_state
event_state event =
    if matches_canonical event then read_state (last (split event)) else err invalid_canonical_event

event_state_test :
    (event_state (text "Financial.createInvoice.ok") ≡ ok state_ok)
    × (event_state (text "A.b.c.error") ≡ ok state_error)
    × (event_state (text "A.request") ≡ err invalid_canonical_event)
    × (event_state (text "A..request") ≡ err invalid_canonical_event)
    × (event_state (text "A.b.done") ≡ err invalid_event_state)
unfolding event_state teq
event_state_test = (refl, refl, refl, refl, refl)
