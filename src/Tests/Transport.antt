-- ===== src/Tests/Transport.antt =====
-- The registry at concrete transports, and an instance of each theorem.
use ubi_quic_e_xtreme_zero_t.Prelude.{
  any_where, teq, tlt, Text, text, no_durable_stage, ok, err, ℕ, ◌+◌, ◌≡◌, refl, ◌↔◌, Bool, true,
  false, none, some, [], ◌∷◌, arith,
}
use ubi_quic_e_xtreme_zero_t.Transport.{
  Capabilities, Route, Registry, IsTransport, register, get, names, insert_text, validate_route,
  stages, stage_names, satisfies,
}
use ubi_quic_e_xtreme_zero_t.Transport.Routes.{validate_route_iff, is_unknown, can}
use ubi_quic_e_xtreme_zero_t.Transport.Names.{register_cases, IsUnique}

abbrev capable : Bool → Bool → Bool → Capabilities
capable durable replays settling = record {
  reliable = true;
  ordered = true;
  durable = durable;
  replay = replays;
  bidirectional = true;
  consumer_groups = false;
  streaming = true;
  execution_settlement = settling;
}

-- A transport of a name and its capabilities. Its state counts the closed ones.
abbrev Stub : Type 0
Stub = Text × Capabilities

abbrev stub : IsTransport Stub ℕ
stub = record { name_of = λ t. t.0; capabilities_of = λ t. t.1; close = λ t n. (none, n + 1) }

abbrev memory : Stub
memory = (text "memory", capable false false false)

abbrev nats : Stub
nats = (text "nats", capable true true true)

abbrev registry : Registry stub
registry = (text "nats", nats) ∷ (text "memory", memory) ∷ []

abbrev route : Route
route = record {
  ingress = text "memory";
  backbone = text "nats";
  egress = [];
  requires = capable true false true;
}

-- One line to unfold in a test of the registry.
runs : ℕ
unfolding register get names insert_text validate_route stages satisfies teq tlt
runs = 0

register_test : (register stub (some memory) ((text "nats", nats) ∷ [])).1 ≡ registry
unfolding runs
register_test = refl

names_test : names stub registry ≡ text "memory" ∷ text "nats" ∷ []
unfolding runs
names_test = refl

route_test : validate_route stub registry (record route { backbone = [] }) ≡ err no_durable_stage
unfolding runs
route_test = refl

validate_route_iff_example : (validate_route stub registry route ≡ ok tt) ↔ (
    (any_where (is_unknown stub registry) (stage_names route) ≡ false)
    × (true ≡ true → any_where (can stub (λ c. c.durable) registry) (stage_names route) ≡ true)
    × (true ≡ true
        → any_where (can stub (λ c. c.execution_settlement) registry) (stage_names route) ≡ true))
validate_route_iff_example = validate_route_iff stub registry route

one_transport-IsUnique : IsUnique stub ((text "nats", nats) ∷ [])
one_transport-IsUnique n = ground arith

registry-IsUnique : IsUnique stub registry
unfolding runs
registry-IsUnique = (register_cases stub memory ((text "nats", nats) ∷ []) one_transport-IsUnique).0
