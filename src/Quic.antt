-- ===== src/Quic.antt =====
-- quic.go: the QUIC transport. The library quic-go is a parameter: the results of its calls. A stream is
-- the JSON that it carries.
use ubi_quic_e_xtreme_zero_t.Prelude.{
  if◌then◌else◌, Text, not_configured, name_required, tls_required, Result, ok, err, ℕ, Bool, true,
  false, not, ◌||◌, Option, List, [], ◌∷◌,
}
use ubi_quic_e_xtreme_zero_t.Prelude.Results.{◌>>=◌, ◌>>◌, demand}
use ubi_quic_e_xtreme_zero_t.Envelope.{Envelope, Blob, validate, marshal, unmarshal, is_empty}
use ubi_quic_e_xtreme_zero_t.Secure.{Handler}
use ubi_quic_e_xtreme_zero_t.Transport.{Capabilities}
use ubi_quic_e_xtreme_zero_t.Handlers.{
  Slots, Table, new_table, add_handler, close_subscription, dispatch,
}

-- A TLS configuration counts as present or nil.
pub record QuicConfig : Type 0 where
  pub name : Text
  pub peer_addr : Text
  pub listen_addr : Text
  pub client_tls : Bool
  pub server_tls : Bool

pub record QuicTransport (W : Type 0) : Type 0 where
  pub config : QuicConfig
  pub listening : Bool
  pub handlers : Table (Handler W)

abbrev listener_of : Text → Bool → Result (Unit {0}) → Result Bool
listener_of [] tls listen = ok false
listener_of (c ∷ cs) tls listen = do demand tls tls_required; listen; ok true

module _ {W : Type 0} where
  -- NewQUICTransport, with the result of quic.ListenAddr.
  unfoldable pub new_quic : QuicConfig → Result (Unit {0}) → Result (QuicTransport W)
  unfolding is_empty
  new_quic c listen = do
    demand (not (is_empty c.name)) name_required
    demand (c.client_tls || is_empty c.peer_addr) tls_required
    listening ← listener_of c.listen_addr c.server_tls listen
    ok (record { config = c; listening = listening; handlers = new_table })

  -- Subscribe. `none` is a nil handler, which is not refused here.
  unfoldable pub subscribe_quic :
      Text → Option (Handler W) → QuicTransport W → Result (Unit {0}) × QuicTransport W
  subscribe_quic event h q =
      if q.listening
      then (ok tt, record q { handlers = add_handler event h q.handlers })
      else (err not_configured, q)

  -- Close of the k-th subscription.
  unfoldable pub unsubscribe_quic : ℕ → QuicTransport W → QuicTransport W
  unsubscribe_quic k q = record q { handlers = close_subscription k q.handlers }

  abbrev receive_from : Result Envelope → Slots (Handler W) → W → W
  receive_from (err x) slots w = w
  receive_from (ok env) slots w = elim (validate env) [ err x ↦ w | ok u ↦ dispatch slots env w ]

  -- The goroutine of one stream.
  unfoldable pub handle_stream : Blob → QuicTransport W → W → W
  unfolding unmarshal validate dispatch
  handle_stream b q w = receive_from (unmarshal b) q.handlers.slots w

  -- The streams of one connection, in the order in which their goroutines dispatch.
  unfoldable pub handle_conn : List Blob → QuicTransport W → W → W
  unfolding handle_stream
  handle_conn [] q w = w
  handle_conn (b ∷ bs) q w = handle_conn bs q (handle_stream b q w)

abbrev pub quic_capabilities : Capabilities
quic_capabilities = record {
  reliable = true;
  ordered = true;
  durable = false;
  replay = false;
  bidirectional = true;
  consumer_groups = false;
  streaming = true;
  execution_settlement = false;
}

-- The results of DialAddr, OpenStreamSync, the write of Encode and Close.
pub record QuicCalls : Type 0 where
  pub dial : Result (Unit {0})
  pub open_stream : Result (Unit {0})
  pub write : Result (Unit {0})
  pub close_stream : Result (Unit {0})

-- Publish, with the stream that the peer can read to its end: none where the write is cancelled.
unfoldable pub publish_quic : QuicConfig → QuicCalls → Envelope → Result Blob
unfolding is_empty validate marshal
publish_quic c calls env = do
  demand (not (is_empty c.peer_addr)) not_configured
  validate env
  calls.dial
  calls.open_stream
  b ← marshal env
  calls.write
  calls.close_stream
  ok b
