-- ===== src/Memory.antt =====
-- transports_broker.go: the transport inside one process, and the names that the brokers use.
use ubi_quic_e_xtreme_zero_t.Prelude.{
  ◌==◌, if◌then◌else◌, filter_where, teq, Text, text, handler_required, Result, ok, err, ℕ, ◌+◌,
  Bool, not, ◌||◌, Option, none, some, List, [], ◌∷◌, ◌++◌,
}
use ubi_quic_e_xtreme_zero_t.Envelope.{Envelope, validate}
use ubi_quic_e_xtreme_zero_t.Secure.{Handler}

pub record MemorySub (W : Type 0) : Type 0 where
  pub id : ℕ
  pub event : Text
  pub handler : Handler W

-- The map `subs`, and the next id.
pub record MemoryTransport (W : Type 0) : Type 0 where
  pub next : ℕ
  pub subs : List (MemorySub W)

abbrev wildcard : Text
wildcard = text "*"

abbrev drop_last_dot : Text → Text
drop_last_dot [] = []
drop_last_dot (c ∷ []) = if c == b'.' then [] else c ∷ []
drop_last_dot (c ∷ d ∷ ds) = c ∷ drop_last_dot (d ∷ ds)

-- canonicalSubject
unfoldable pub canonical_subject : Text → Text → Text
canonical_subject [] event = event
canonical_subject (c ∷ cs) event = drop_last_dot (c ∷ cs) ++ (text "." ++ event)

module _ {W : Type 0} where
  abbrev pub new_memory : MemoryTransport W
  new_memory = record { next = 0; subs = [] }

  -- Subscribe, with the id of the subscription.
  unfoldable pub subscribe_memory :
      Text → Option (Handler W) → MemoryTransport W → Result ℕ × MemoryTransport W
  subscribe_memory event none m = (err handler_required, m)
  subscribe_memory event (some h) m = (
    ok m.next,
    record {
      next = m.next + 1;
      subs = m.subs ++ record { id = m.next; event = event; handler = h } ∷ [];
    },
  )

  -- Close of a subscription.
  unfoldable pub unsubscribe_memory : ℕ → MemoryTransport W → MemoryTransport W
  unsubscribe_memory id m = record m { subs = filter_where (λ s. not (s.id == id)) m.subs }

  -- Close
  unfoldable pub close_memory : MemoryTransport W → MemoryTransport W
  close_memory m = record m { subs = [] }

  abbrev pub is_for : Envelope → MemorySub W → Bool
  is_for env s = teq s.event wildcard || teq s.event env.event

  abbrev after : Result (Unit {0}) × W → (W → Result (Unit {0}) × W) → Result (Unit {0}) × W
  after (err x, w) k = (err x, w)
  after (ok u, w) k = k w

  -- The loop of Publish over the subscriptions, in the order that `range` takes.
  unfoldable pub deliver : List (MemorySub W) → Envelope → W → Result (Unit {0}) × W
  deliver [] env w = (ok tt, w)
  deliver (s ∷ ss) env w =
      let rest = deliver ss env in if is_for env s then after (s.handler env w) rest else rest w

  -- Publish, with the order in which `range` visits the map.
  unfoldable pub publish_memory : List (MemorySub W) → Envelope → W → Result (Unit {0}) × W
  unfolding deliver validate
  publish_memory order env w = elim (validate env) [
    | err x ↦ (err x, w)
    | ok u ↦ deliver order env w
  ]
