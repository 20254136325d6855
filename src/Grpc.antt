-- ===== src/Grpc.antt =====
-- grpc.go: the gRPC transport. The library grpc-go is a parameter: the results of its calls. A message is
-- the JSON that the codec makes of it.
use ubi_quic_e_xtreme_zero_t.Prelude.{
  ltb, if◌then◌else◌, length, Text, handler_required, not_configured, backpressure, Result, ok, err,
  ℕ, Bool, Option, none, some, List, [], ◌∷◌, ◌++◌,
}
use ubi_quic_e_xtreme_zero_t.Prelude.Results.{◌>>=◌, ◌>>◌, demand}
use ubi_quic_e_xtreme_zero_t.Envelope.{Envelope, Blob, validate, marshal, unmarshal}
use ubi_quic_e_xtreme_zero_t.Secure.{Handler}
use ubi_quic_e_xtreme_zero_t.Handlers.{Slots, Table, add_handler, dispatch_until_error}

-- Publish: the message that Invoke sends, once the peer has answered without an error.
unfoldable pub publish_grpc : Bool → Result (Unit {0}) → Envelope → Result Blob
unfolding validate marshal
publish_grpc has_peer invoke env = do
  demand has_peer not_configured
  validate env
  b ← marshal env
  invoke
  ok b

module _ {W : Type 0} where
  -- Subscribe without a peer: a handler of this process.
  unfoldable pub subscribe_local :
      Text → Option (Handler W) → Table (Handler W) → Result (Unit {0}) × Table (Handler W)
  subscribe_local event none t = (err handler_required, t)
  subscribe_local event (some h) t = (ok tt, add_handler event (some h) t)

  abbrev accept_envelope : Result Envelope → Slots (Handler W) → W → Result (Unit {0}) × W
  accept_envelope (err x) slots w = (err x, w)
  accept_envelope (ok env) slots w = elim (validate env) [
    | err x ↦ (err x, w)
    | ok u ↦ dispatch_until_error slots env w
  ]

  -- grpcPublishHandler, without an interceptor.
  unfoldable pub publish_handler : Blob → Table (Handler W) → W → Result (Unit {0}) × W
  unfolding unmarshal validate dispatch_until_error
  publish_handler b t w = accept_envelope (unmarshal b) t.slots w

  -- The loop of Subscribe over the messages of a peer: it ends at a message that does not decode and at
  -- the first error of the handler.
  unfoldable pub receive_messages : Handler W → List Blob → W → W
  unfolding unmarshal
  receive_messages h [] w = w
  receive_messages h (b ∷ bs) w = elim (unmarshal b) [
    | err x ↦ w
    | ok env ↦
        let done = h env w in elim done.0 [ err x ↦ done.1 | ok u ↦ receive_messages h bs done.1 ]
  ]

-- The channel of a subscriber of grpcSubscribeHandler: 64 envelopes at most.
abbrev pub channel_size : ℕ
channel_size = 64

-- The handler that fills it.
unfoldable pub offer_to_channel : Handler (List Envelope)
offer_to_channel env ch =
    if ltb (length ch) channel_size then (ok tt, ch ++ env ∷ []) else (err backpressure, ch)
