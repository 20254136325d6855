-- ===== src/Transport/Satisfying.antt =====
-- transport.go: Satisfies against the list of the capabilities.
use ubi_quic_e_xtreme_zero_t.Prelude.{
  find_where, Error, reliable_required, ordering_required, durability_required, replay_required,
  bidirectional_required, groups_required, streaming_required, settlement_required, Result, ok, err,
  ◌≡◌, Bool, not, ◌&&◌, Option, none, some, List, [], ◌∷◌, arith,
}
use ubi_quic_e_xtreme_zero_t.Transport.{Capabilities, Requirement, satisfies}

pub data Capability : Type 0 where
  reliable ordered durable replay bidirectional consumer_groups streaming execution_settlement :
      Capability

-- In the order in which Satisfies asks for them.
abbrev pub capabilities : List Capability
capabilities =
    reliable ∷ ordered ∷ durable ∷ replay ∷ bidirectional ∷ consumer_groups ∷ streaming
    ∷ execution_settlement ∷ []

abbrev pub has : Capabilities → Capability → Bool
has c reliable = c.reliable
has c ordered = c.ordered
has c durable = c.durable
has c replay = c.replay
has c bidirectional = c.bidirectional
has c consumer_groups = c.consumer_groups
has c streaming = c.streaming
has c execution_settlement = c.execution_settlement

abbrev pub refusal : Capability → Error
refusal reliable = reliable_required
refusal ordered = ordering_required
refusal durable = durability_required
refusal replay = replay_required
refusal bidirectional = bidirectional_required
refusal consumer_groups = groups_required
refusal streaming = streaming_required
refusal execution_settlement = settlement_required

abbrev pub lacks : Capabilities → Requirement → Capability → Bool
lacks c r k = has r k && not (has c k)

abbrev pub verdict : Option Capability → Result (Unit {0})
verdict none = ok tt
verdict (some k) = err (refusal k)

-- Satisfies accepts exactly when no required capability is missing, and its error otherwise names the
-- first capability, in the order of the fields, that is required and missing.
pub satisfies_first :
    (c : Capabilities) (r : Requirement)
    → satisfies c r ≡ verdict (find_where (lacks c r) capabilities)
unfolding satisfies
satisfies_first c r = ground arith
