-- ===== src/Transport.antt =====
-- transport.go: what a transport can do, the registry of transports by name, and the routes over it.
pub mod Satisfying
pub mod Routes
pub mod Names
use ubi_quic_e_xtreme_zero_t.Prelude.{
  if◌then◌else◌, find_where, any_where, teq, tlt, Text, Error, transport_name_required,
  already_registered, unknown_transport, no_durable_stage, no_settlement_stage, reliable_required,
  ordering_required, durability_required, replay_required, bidirectional_required, groups_required,
  streaming_required, settlement_required, Result, ok, err, Bool, false, not, ◌&&◌, ◌||◌, Option,
  none, some, List, [], ◌∷◌, ◌++◌,
}

pub record Capabilities : Type 0 where
  pub reliable : Bool
  pub ordered : Bool
  pub durable : Bool
  pub replay : Bool
  pub bidirectional : Bool
  pub consumer_groups : Bool
  pub streaming : Bool
  pub execution_settlement : Bool

-- Requirement has the fields of Capabilities.
abbrev pub Requirement : Type 0
Requirement = Capabilities

-- One early return of Satisfies, with what follows it.
abbrev ask_for : Bool → Bool → Error → Result (Unit {0}) → Result (Unit {0})
ask_for needed given x rest = if needed && not given then err x else rest

unfoldable pub satisfies : Capabilities → Requirement → Result (Unit {0})
satisfies c r = ask_for r.reliable c.reliable reliable_required (
    ask_for r.ordered c.ordered ordering_required (
      ask_for r.durable c.durable durability_required (
        ask_for r.replay c.replay replay_required (
          ask_for r.bidirectional c.bidirectional bidirectional_required (
            ask_for r.consumer_groups c.consumer_groups groups_required (
              ask_for r.streaming c.streaming streaming_required (
                ask_for r.execution_settlement c.execution_settlement settlement_required
                  (ok tt))))))))

-- The part of the interface Transport that the registry calls. Close acts on the state `W` of the
-- program; a transport keeps its name and its capabilities.
pub record IsTransport (T W : Type 0) : Type 0 where
  pub name_of : T → Text
  pub capabilities_of : T → Capabilities
  pub close : T → W → Option Error × W

pub record Route : Type 0 where
  pub ingress : Text
  pub backbone : Text
  pub egress : Text
  pub requires : Requirement

-- Sorted insertion: sort.Strings.
unfoldable pub insert_text : Text → List Text → List Text
insert_text t [] = t ∷ []
insert_text t (u ∷ us) = let rest = insert_text t us in if tlt u t then u ∷ rest else t ∷ u ∷ us

-- hasDurable and hasSettlement
abbrev pub Stages : Type 0
Stages = Bool × Bool

abbrev pub note : Capabilities → Stages → Stages
note c s = (s.0 || c.durable, s.1 || c.execution_settlement)

abbrev next : Result Stages → (Stages → Result Stages) → Result Stages
next (err x) k = err x
next (ok s) k = k s

abbrev pub stage_names : Route → List Text
stage_names p = p.ingress ∷ p.backbone ∷ p.egress ∷ []

-- The tests that follow the loop of ValidateRoute.
abbrev pub check_stages : Requirement → Result Stages → Result (Unit {0})
check_stages q (err x) = err x
check_stages q (ok s) =
    if q.durable && not s.0
    then err no_durable_stage
    else if q.execution_settlement && not s.1
    then err no_settlement_stage
    else ok tt

module _ {T W : Type 0} (impl : IsTransport T W) where
  open impl use {name_of, capabilities_of, close}

  -- The map `transports`, its entries in the order in which they were made.
  abbrev pub Registry : Type 0
  Registry = List (Text × T)

  abbrev pub named : Text → Text × T → Bool
  named n e = teq e.0 n

  abbrev add : T → Registry → Result (Unit {0}) × Registry
  add t r =
      if teq (name_of t) []
      then (err transport_name_required, r)
      else if any_where (named (name_of t)) r
      then (err already_registered, r)
      else (ok tt, r ++ (name_of t, t) ∷ [])

  -- `none` is a nil transport.
  unfoldable pub register : Option T → Registry → Result (Unit {0}) × Registry
  register none r = (err transport_name_required, r)
  register (some t) r = add t r

  abbrev entry : Option (Text × T) → Result T
  entry none = err unknown_transport
  entry (some e) = ok e.1

  unfoldable pub get : Text → Registry → Result T
  get n r = entry (find_where (named n) r)

  -- The loop of Close, over the map in the order that `range` takes.
  unfoldable pub close_all : Option Error → List (Text × T) → W → Option Error × W
  close_all first [] w = (first, w)
  close_all first (e ∷ es) w =
      let r = close e.1 w in close_all (elim first [ none ↦ r.0 | some x ↦ some x ]) es r.1

  unfoldable pub names : Registry → List Text
  names [] = []
  names (e ∷ es) = insert_text e.0 (names es)

  abbrev pub visit : Result T → Stages → Result Stages
  visit (err x) s = err x
  visit (ok t) s = ok (note (capabilities_of t) s)

  -- The loop of ValidateRoute.
  unfoldable pub stages : Registry → List Text → Stages → Result Stages
  stages r [] s = ok s
  stages r (n ∷ ns) s = next (if teq n [] then ok s else visit (get n r) s) (stages r ns)

  unfoldable pub validate_route : Registry → Route → Result (Unit {0})
  validate_route r p = check_stages p.requires (stages r (stage_names p) (false, false))
