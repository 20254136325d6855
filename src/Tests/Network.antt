-- ===== src/Tests/Network.antt =====
-- Transports at concrete subscriptions, frames and messages, and an instance of each theorem on them.
use ubi_quic_e_xtreme_zero_t.Prelude.{
  teq, Text, text, handler_error, ok, err, ℕ, ◌+◌, ◌≡◌, refl, ◌↔◌, ◌⊎◌, true, false, some, List, [],
  ◌∷◌, arith,
}
use ubi_quic_e_xtreme_zero_t.Envelope.{
  Blob, encoded, validate, marshal, encode_envelope, decode_envelope, is_empty,
}
use ubi_quic_e_xtreme_zero_t.Json.{json_valid, json_compact}
use ubi_quic_e_xtreme_zero_t.Event.{event_state}
use ubi_quic_e_xtreme_zero_t.Secure.{Handler}
use ubi_quic_e_xtreme_zero_t.Handlers.{new_table, dispatch, dispatch_until_error}
use ubi_quic_e_xtreme_zero_t.Handlers.Refinement.{TableOp, opens, closes, run_table, entries_after}
use ubi_quic_e_xtreme_zero_t.Handlers.Dispatching.{call_each, call_in_turn, audience, dispatch-run}
use ubi_quic_e_xtreme_zero_t.Tcp.{
  Wire, TcpConfig, TcpTransport, serve, handle_tcp, publish_tcp, put_u32,
}
use ubi_quic_e_xtreme_zero_t.Tcp.Framing.{
  serve_enough, written, dispatch_all, Fits, written-handle_tcp,
}
use ubi_quic_e_xtreme_zero_t.Brokers.Messages.{acked, nacked, on_nats, on_filtered, on_rabbit}
use ubi_quic_e_xtreme_zero_t.Brokers.Settling.{Handled, Failed, Skipped, Undecoded, acked_iff}
use ubi_quic_e_xtreme_zero_t.Tests.{first_event}

-- Counts the envelopes.
abbrev counting : Handler ℕ
counting env n = (ok tt, n + 1)

abbrev refusing : Handler ℕ
refusing env n = (err handler_error, n + 10)

-- A subscription that is closed twice, one to another event, and two that stay.
abbrev calls : List (TableOp (Handler ℕ))
calls =
    opens first_event.event (some counting)
    ∷ opens (text "*") (some counting)
    ∷ opens first_event.event (some refusing)
    ∷ opens (text "Other") (some refusing)
    ∷ closes 0
    ∷ closes 0
    ∷ []

dispatch-run_example :
    (dispatch (run_table new_table calls).slots first_event 0
      ≡ call_each (audience first_event.event (entries_after [] calls)) first_event 0)
    × (dispatch_until_error (run_table new_table calls).slots first_event 0
        ≡ call_in_turn (audience first_event.event (entries_after [] calls)) first_event 0)
dispatch-run_example = dispatch-run calls first_event 0

called_test : call_each (audience first_event.event (entries_after [] calls)) first_event 0 ≡ 11
unfolding teq
called_test = refl

-- A codec for the JSON of the first event.
abbrev first_json : Blob
first_json = encoded (record first_event { payload = text "{\"invoice\":\"A-1\"}" })

abbrev wire : Wire
wire = record { bytes_of = λ b. text "{}"; blob_of = λ t. first_json }

abbrev sender : TcpConfig
sender = record {
  name = text "tcp";
  peer_addr = text "peer:1";
  listen_addr = [];
  max_frame = 16777216;
}

abbrev receiver : TcpTransport ℕ
receiver = record { config = sender; listening = true; handlers = run_table new_table calls }

abbrev two_frames : Text
two_frames = 0 ∷ 0 ∷ 0 ∷ 2 ∷ 123 ∷ 125 ∷ 0 ∷ 0 ∷ 0 ∷ 2 ∷ 123 ∷ 125 ∷ []

first_encoded : encode_envelope first_event ≡ ok first_json
unfolding encode_envelope validate marshal event_state json_valid json_compact is_empty teq
first_encoded = refl

first_Fits : Fits wire first_event
first_Fits b e = (ground (arith, first_encoded, e), omega arith, omega arith)

two_written : written wire sender (first_event ∷ first_event ∷ []) ≡ ok two_frames
unfolding publish_tcp put_u32 is_empty
two_written = rw first_encoded refl

serve_enough_example :
    serve wire 12 16777216 receiver.handlers.slots two_frames 0
    ≡ serve wire 100 16777216 receiver.handlers.slots two_frames 0
serve_enough_example =
    serve_enough wire 16777216 receiver.handlers.slots 12 100 two_frames 0 (omega arith)
      (omega arith)

written-handle_tcp_example :
    handle_tcp wire receiver two_frames 0
    ≡ dispatch_all receiver.handlers.slots (first_event ∷ first_event ∷ []) 0
written-handle_tcp_example =
    written-handle_tcp wire receiver sender (first_event ∷ first_event ∷ []) two_frames 0
      (first_Fits, (first_Fits, tt)) (omega arith) two_written

acked_iff_example :
    (((on_nats true counting first_json 0).0 ≡ acked)
      ↔ ((true ≡ true) × Handled counting (decode_envelope first_json) 0))
    × (((on_filtered first_event.event counting first_json 0).0 ≡ acked) ↔ (
        Handled counting (decode_envelope first_json) 0
        ⊎ Skipped first_event.event (decode_envelope first_json)))
    × (((on_rabbit counting first_json 0).0 ≡ acked)
        ↔ Handled counting (decode_envelope first_json) 0)
    × (((on_rabbit counting first_json 0).0 ≡ nacked true)
        ↔ Failed counting (decode_envelope first_json) 0)
    × (((on_rabbit counting first_json 0).0 ≡ nacked false)
        ↔ Undecoded (decode_envelope first_json))
acked_iff_example = acked_iff true first_event.event counting first_json 0
