-- ===== src/Hub.antt =====
-- server.go: the hub, which copies each event to the channels of the observers that are connected.
pub mod Bounded
use ubi_quic_e_xtreme_zero_t.Prelude.{
  ltb, ◌==◌, if◌then◌else◌, length, nth, drop, find_where, filter_where, update_where, teq, Text,
  text, ℕ, ◌+◌, ◌*◌, ◌%◌, ◌^◌, Bool, not, ◌||◌, Option, none, some, List, [], ◌∷◌, ◌++◌,
}
use ubi_quic_e_xtreme_zero_t.Envelope.{Envelope}

-- A buffered channel: what was sent and not received yet.
pub record Channel : Type 0 where
  pub id : ℕ
  pub buffer : ℕ
  pub queue : List Envelope

pub record Hub : Type 0 where
  pub next_id : ℕ
  pub subs : List Channel

-- NewHub
abbrev pub new_hub : Hub
new_hub = record { next_id = 0; subs = [] }

abbrev pub channel_is : ℕ → Channel → Bool
channel_is id c = c.id == id

-- Subscribe. The id is a uint64.
unfoldable pub subscribe_hub : ℕ → Hub → ℕ × Hub
subscribe_hub buffer h = (
  h.next_id,
  record {
    next_id = (h.next_id + 1) % 2 ^ 64;
    subs =
        filter_where (λ c. not (channel_is h.next_id c)) h.subs
        ++ record { id = h.next_id; buffer = buffer; queue = [] } ∷ [];
  },
)

-- Unsubscribe
unfoldable pub unsubscribe_hub : ℕ → Hub → Hub
unsubscribe_hub id h = record h { subs = filter_where (λ c. not (channel_is id c)) h.subs }

-- `select { case ch <- env: default: }`
abbrev pub offer : Envelope → Channel → Channel
offer env c = if ltb (length c.queue) c.buffer then record c { queue = c.queue ++ env ∷ [] } else c

abbrev offer_each : Envelope → List Channel → List Channel
offer_each env [] = []
offer_each env (c ∷ cs) = offer env c ∷ offer_each env cs

-- Publish
unfoldable pub publish_hub : Envelope → Hub → Hub
publish_hub env h = record h { subs = offer_each env h.subs }

abbrev pub without_first : Channel → Channel
without_first c = record c { queue = drop 1 c.queue }

-- `<-ch`, by the observer of the channel of an id: the oldest event that waits there.
unfoldable pub receive_hub : ℕ → Hub → Option Envelope × Hub
receive_hub id h = (
  elim (find_where (channel_is id) h.subs) [ none ↦ none | some c ↦ nth 0 c.queue ],
  record h { subs = update_where (channel_is id) without_first h.subs },
)

-- The test of handleSSE, on the value of the query parameter `event`.
unfoldable pub is_shown : Text → Envelope → Bool
unfolding teq
is_shown shown_event env =
    teq shown_event [] || (teq shown_event (text "*") || teq shown_event env.event)
