-- ===== src/Tcp.antt =====
-- tcp.go: frames of an envelope's bytes behind their length, and the loops that write and read them. The
-- bytes that JSON is written in are a parameter, as are the results of the calls of the network.
pub mod Framing
use ubi_quic_e_xtreme_zero_t.Prelude.{
  ltb, leb, ◌==◌, if◌then◌else◌, length, Text, handler_required, not_configured, frame_too_large,
  name_required, Result, ok, err, ℕ, zero, suc, ◌+◌, ◌*◌, ◌/◌, ◌%◌, ◌^◌, Bool, true, false, not,
  ◌||◌, Option, none, some, [], ◌∷◌, ◌++◌,
}
use ubi_quic_e_xtreme_zero_t.Prelude.Results.{◌>>=◌, ◌>>◌, demand}
use ubi_quic_e_xtreme_zero_t.Envelope.{Envelope, Blob, encode_envelope, decode_envelope, is_empty}
use ubi_quic_e_xtreme_zero_t.Secure.{Handler}
use ubi_quic_e_xtreme_zero_t.Handlers.{Slots, Table, new_table, add_handler, dispatch}

-- What a byte slice is as JSON, and the bytes of some JSON.
pub record Wire : Type 0 where
  pub bytes_of : Blob → Text
  pub blob_of : Text → Blob

-- The dialer and the TLS configurations belong to the calls of the network.
pub record TcpConfig : Type 0 where
  pub name : Text
  pub peer_addr : Text
  pub listen_addr : Text
  pub max_frame : ℕ

pub record TcpTransport (W : Type 0) : Type 0 where
  pub config : TcpConfig
  pub listening : Bool
  pub handlers : Table (Handler W)

-- 16 << 20 where none is given.
abbrev pub frame_limit : ℕ → ℕ
frame_limit zero = 16777216
frame_limit (suc n) = suc n

abbrev u32 : ℕ
u32 = 2 ^ 32

-- binary.BigEndian.PutUint32, of a number below 2^32.
unfoldable pub put_u32 : ℕ → Text
put_u32 n = n / 16777216 ∷ n / 65536 % 256 ∷ n / 256 % 256 ∷ n % 256 ∷ []

-- binary.BigEndian.Uint32, of four bytes.
unfoldable pub read_u32 : Text → ℕ
read_u32 (a ∷ b ∷ c ∷ d ∷ []) = a * 16777216 + b * 65536 + c * 256 + d
read_u32 _ = 0

-- io.ReadFull: the bytes, and what follows them.
unfoldable pub read_full : ℕ → Text → Option (Text × Text)
read_full zero bytes = some ([], bytes)
read_full (suc n) [] = none
read_full (suc n) (b ∷ bytes) = elim (read_full n bytes) [
  | none ↦ none
  | some r ↦ some (b ∷ r.0, r.1)
]

-- The reads of one round of handleConn's loop: the frame and what follows it, or none where the loop ends.
unfoldable pub next_frame : ℕ → Text → Option (Text × Text)
unfolding read_full read_u32
next_frame max bytes = elim (read_full 4 bytes) [
  | none ↦ none
  | some header ↦
      let n = read_u32 header.0 in
      elim (n == 0 || ltb max n) [ true ↦ none | false ↦ read_full n header.1 ]
]

abbrev pub dispatch_decoded : {W : Type 0} → Slots (Handler W) → Result Envelope → W → W
dispatch_decoded slots (err x) w = w
dispatch_decoded slots (ok env) w = dispatch slots env w

module _ (wire : Wire) where
  -- Publish, with the results of the dial and of the two writes: the bytes that the peer gets.
  unfoldable pub publish_tcp :
      TcpConfig → Result (Unit {0}) → Result (Unit {0}) → Result (Unit {0}) → Envelope → Result Text
  unfolding is_empty encode_envelope put_u32
  publish_tcp c dial write_header write_body env = do
    demand (not (is_empty c.peer_addr)) not_configured
    b ← encode_envelope env
    let raw = wire.bytes_of b
    demand (leb (length raw % u32) c.max_frame) frame_too_large
    dial
    write_header
    write_body
    ok (put_u32 (length raw % u32) ++ raw)

  module _ {W : Type 0} where
    -- NewTCPTransport, with the result of the listen call.
    unfoldable pub new_tcp : TcpConfig → Result (Unit {0}) → Result (TcpTransport W)
    unfolding is_empty
    new_tcp c listen = do
      demand (not (is_empty c.name)) name_required
      if is_empty c.listen_addr then ok tt else listen
      ok (record {
        config = record c { max_frame = frame_limit c.max_frame };
        listening = not (is_empty c.listen_addr);
        handlers = new_table;
      })

    abbrev subscribe_checked :
        Text → Option (Handler W) → TcpTransport W → Result (Unit {0}) × TcpTransport W
    subscribe_checked event none t = (err handler_required, t)
    subscribe_checked event (some h) t =
        (ok tt, record t { handlers = add_handler event (some h) t.handlers })

    -- Subscribe
    unfoldable pub subscribe_tcp :
        Text → Option (Handler W) → TcpTransport W → Result (Unit {0}) × TcpTransport W
    subscribe_tcp event h t =
        if t.listening then subscribe_checked event h t else (err not_configured, t)

    -- The loop of handleConn on what the peer sends until it closes.
    unfoldable pub serve : ℕ → ℕ → Slots (Handler W) → Text → W → W
    unfolding next_frame decode_envelope dispatch
    serve zero max slots bytes w = w
    serve (suc fuel) max slots bytes w = elim (next_frame max bytes) [
      | none ↦ w
      | some r ↦
          serve fuel max slots r.1 (dispatch_decoded slots (decode_envelope (wire.blob_of r.0)) w)
    ]

    -- handleConn
    unfoldable pub handle_tcp : TcpTransport W → Text → W → W
    unfolding serve
    handle_tcp t bytes w = serve (length bytes) t.config.max_frame t.handlers.slots bytes w
