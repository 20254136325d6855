-- ===== src/Handlers.antt =====
-- tcp.go, quic.go, grpc.go, transports_broker.go: the handlers of a transport's subscriptions. A map from an
-- event to its slots; a slot is nil once its subscription is closed.
pub mod SlotLaws
pub mod Refinement
pub mod Dispatching
use ubi_quic_e_xtreme_zero_t.Prelude.{
  if◌then◌else◌, length, nth, update_nth, teq, Text, text, Result, ok, err, ℕ, zero, suc, ◌-◌, ◌*◌,
  Bool, true, false, Option, none, some, List, [], ◌∷◌, ◌++◌,
}
use ubi_quic_e_xtreme_zero_t.Envelope.{Envelope}
use ubi_quic_e_xtreme_zero_t.Secure.{Handler}

abbrev pub Slots : Type 0 → Type 0
Slots H = List (Text × List (Option H))

-- funcSubscription, with the captured event and index of its close function; `closed` is its sync.Once.
pub record Subscription : Type 0 where
  pub event : Text
  pub idx : ℕ
  pub closed : Bool

-- The map of the handlers, and the subscriptions that have been given out, the oldest first.
pub record Table (H : Type 0) : Type 0 where
  pub slots : Slots H
  pub subscriptions : List Subscription

abbrev pub new_table : {H : Type 0} → Table H
new_table = record { slots = []; subscriptions = [] }

abbrev pub mark_closed : Subscription → Subscription
mark_closed s = record s { closed = true }

module _ {H : Type 0} where
  -- handlers[event], which is nil where the event has no entry.
  unfoldable pub slots_of : Text → Slots H → List (Option H)
  slots_of event [] = []
  slots_of event (e ∷ es) = if teq e.0 event then e.1 else slots_of event es

  -- handlers[event] = hs
  unfoldable pub put_slots : Text → List (Option H) → Slots H → Slots H
  put_slots event hs [] = (event, hs) ∷ []
  put_slots event hs (e ∷ es) =
      let rest = put_slots event hs es in if teq e.0 event then (event, hs) ∷ es else e ∷ rest

  -- hs[idx] = nil, if idx < len(hs)
  unfoldable pub clear_slot : ℕ → List (Option H) → List (Option H)
  clear_slot idx [] = []
  clear_slot zero (h ∷ hs) = none ∷ hs
  clear_slot (suc idx) (h ∷ hs) = h ∷ clear_slot idx hs

  -- Subscribe, after its checks. `none` is a nil handler.
  unfoldable pub add_handler : Text → Option H → Table H → Table H
  add_handler event h t =
      let hs = slots_of event t.slots ++ h ∷ [] in
      record {
        slots = put_slots event hs t.slots;
        subscriptions =
            t.subscriptions ++ record { event = event; idx = length hs - 1; closed = false } ∷ [];
      }

  abbrev pub clear_of : Subscription → Slots H → Slots H
  clear_of s slots = put_slots s.event (clear_slot s.idx (slots_of s.event slots)) slots

  abbrev pub close_found : Option Subscription → Slots H → Slots H
  close_found none slots = slots
  close_found (some s) slots = if s.closed then slots else clear_of s slots

  -- Close of the subscription that was given out as the k-th.
  unfoldable pub close_subscription : ℕ → Table H → Table H
  close_subscription k t = record {
    slots = close_found (nth k t.subscriptions) t.slots;
    subscriptions = update_nth k mark_closed t.subscriptions;
  }

-- The handlers that dispatch copies, in the order of its loop.
unfoldable pub selected : {H : Type 0} → Text → Slots H → List (Option H)
selected event slots = slots_of event slots ++ slots_of (text "*") slots

module _ {W : Type 0} where
  abbrev pub call_slot : Option (Handler W) → Envelope → W → W
  call_slot none env w = w
  call_slot (some h) env w = (h env w).1

  -- The loop of dispatch in tcp.go and quic.go: the handlers' errors are dropped.
  unfoldable pub call_slots : List (Option (Handler W)) → Envelope → W → W
  call_slots [] env w = w
  call_slots (h ∷ hs) env w = call_slots hs env (call_slot h env w)

  unfoldable pub dispatch : Slots (Handler W) → Envelope → W → W
  unfolding selected
  dispatch slots env w = call_slots (selected env.event slots) env w

  abbrev pub call_or_skip : Option (Handler W) → Envelope → W → Result (Unit {0}) × W
  call_or_skip none env w = (ok tt, w)
  call_or_skip (some h) env w = h env w

  abbrev pub next_unless :
      Result (Unit {0}) × W → (W → Result (Unit {0}) × W) → Result (Unit {0}) × W
  next_unless (err x, w) k = (err x, w)
  next_unless (ok u, w) k = k w

  -- The loop of dispatch in grpc.go, which stops at the first error.
  unfoldable pub call_until_error : List (Option (Handler W)) → Envelope → W → Result (Unit {0}) × W
  call_until_error [] env w = (ok tt, w)
  call_until_error (h ∷ hs) env w = next_unless (call_or_skip h env w) (call_until_error hs env)

  unfoldable pub dispatch_until_error : Slots (Handler W) → Envelope → W → Result (Unit {0}) × W
  unfolding selected
  dispatch_until_error slots env w = call_until_error (selected env.event slots) env w
