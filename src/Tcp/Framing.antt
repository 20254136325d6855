-- ===== src/Tcp/Framing.antt =====
-- tcp.go: what the receiver makes of the frames that a sender writes, and that its loop comes to an end.
use ubi_quic_e_xtreme_zero_t.Prelude.{
  ltb, ◌==◌, Bool-cases, Option-cases, length, All, length-append, Text, result_cases, Result, ok,
  ℕ, zero, suc, ◌+◌, ◌%◌, ◌^◌, ◌≤◌, ◌<◌, ◌≡◌, refl, ap, ◌∙◌, inl, inr, false, ◌||◌, some, List, [],
  ◌∷◌, ◌++◌, arith,
}
use ubi_quic_e_xtreme_zero_t.Prelude.Results.{◌>>=◌}
use ubi_quic_e_xtreme_zero_t.Envelope.{Envelope, Blob, encode_envelope, decode_envelope}
use ubi_quic_e_xtreme_zero_t.Envelope.Validity.{as_sent, encode-decode, encoded_valid}
use ubi_quic_e_xtreme_zero_t.Secure.{Handler}
use ubi_quic_e_xtreme_zero_t.Handlers.{Slots, dispatch}
use ubi_quic_e_xtreme_zero_t.Tcp.{
  Wire, TcpConfig, TcpTransport, put_u32, read_u32, read_full, publish_tcp, next_frame,
  dispatch_decoded, serve, handle_tcp,
}

read_u32-put_u32 : (n : ℕ) → n < 2 ^ 32 → read_u32 (put_u32 n) ≡ n
unfolding read_u32 put_u32
read_u32-put_u32 n h = omega (arith, h)

read_full-append : (xs ys : Text) → read_full (length xs) (xs ++ ys) ≡ some (xs, ys)
unfolding read_full
read_full-append [] ys = refl
read_full-append (x ∷ xs) ys = rw (read_full-append xs ys)

-- What is left is shorter by what was read.
read_full-length :
    (n : ℕ) (bytes : Text) (r : Text × Text)
    → read_full n bytes ≡ some r
    → length bytes ≡ n + length r.1
unfolding read_full
read_full-length zero bytes r e = ground (arith, e)
read_full-length (suc n) [] r e = ground (arith, e)
read_full-length (suc n) (b ∷ bytes) r e = elim (Option-cases (read_full n bytes)) [
  | inl q ↦ ground (arith, e, q)
  | inr (r', q) ↦ ground (arith, e, q, read_full-length n bytes r' q)
]

next_frame-length :
    (max : ℕ) (bytes : Text) (r : Text × Text)
    → next_frame max bytes ≡ some r
    → 4 + length r.1 ≤ length bytes
unfolding next_frame
next_frame-length max bytes r e = elim (Option-cases (read_full 4 bytes)) [
  | inl q ↦ ground (arith, e, q)
  | inr (r', q) ↦ elim (Bool-cases (read_u32 r'.0 == 0 || ltb max (read_u32 r'.0))) [
    | inl f ↦ ground (arith, e, q, f)
    | inr f ↦
        let left : read_full (read_u32 r'.0) r'.1 ≡ some r = ground (arith, e, q, f) in
        omega (arith, read_full-length 4 bytes r' q, read_full-length _ r'.1 r left)
  ]
]

next_frame_of :
    (max n : ℕ) (bytes header rest : Text) (r : Text × Text)
    → read_full 4 bytes ≡ some (header, rest)
    → read_u32 header ≡ n
    → 0 < n
    → n ≤ max
    → read_full n rest ≡ some r
    → next_frame max bytes ≡ some r
unfolding next_frame
next_frame_of max n bytes header rest r e f h k g =
    let fits : (n == 0 || ltb max n) ≡ false = ground (arith, h, k) in
    rw (e, next_frame, f, fits) (rw f g)

next_frame-put_u32 :
    (max : ℕ) (raw rest : Text)
    → 0 < length raw
    → length raw ≤ max
    → length raw < 2 ^ 32
    → next_frame max (put_u32 (length raw) ++ raw ++ rest) ≡ some (raw, rest)
unfolding put_u32
next_frame-put_u32 max raw rest h k l =
    next_frame_of max (length raw) _ (put_u32 (length raw)) (raw ++ rest) _
      (read_full-append (put_u32 (length raw)) (raw ++ rest)) (read_u32-put_u32 (length raw) l) h k
      (read_full-append raw rest)

module _ (wire : Wire) {W : Type 0} (max : ℕ) (slots : Slots (Handler W)) where
  -- The loop of handleConn ends: each round takes four bytes at least, so that any fuel of at least as many
  -- rounds as there are bytes gives the same result.
  pub serve_enough :
      (fuel more : ℕ) (bytes : Text) (w : W)
      → length bytes ≤ fuel
      → length bytes ≤ more
      → serve wire fuel max slots bytes w ≡ serve wire more max slots bytes w
  unfolding serve
  serve_enough zero zero bytes w h k = refl
  serve_enough zero (suc more) bytes w h k = elim (Option-cases (next_frame max bytes)) [
    | inl q ↦ rw (q, serve) refl
    | inr (r, q) ↦ absurd (omega (arith, h, next_frame-length max bytes r q))
  ]
  serve_enough (suc fuel) zero bytes w h k = elim (Option-cases (next_frame max bytes)) [
    | inl q ↦ rw (q, serve) refl
    | inr (r, q) ↦ absurd (omega (arith, k, next_frame-length max bytes r q))
  ]
  serve_enough (suc fuel) (suc more) bytes w h k = elim (Option-cases (next_frame max bytes)) [
    | inl q ↦ rw (q, serve) refl
    | inr (r, q) ↦
        let shorter = next_frame-length max bytes r q in
        rw (q, serve)
          (serve_enough fuel more r.1 _ (omega (arith, h, shorter)) (omega (arith, k, shorter)))
  ]

  serve_step :
      (fuel : ℕ) (bytes : Text) (r : Text × Text) (w : W)
      → next_frame max bytes ≡ some r
      → serve wire (suc fuel) max slots bytes w
        ≡ serve wire fuel max slots r.1
            (dispatch_decoded slots (decode_envelope (wire.blob_of r.0)) w)
  unfolding serve
  serve_step fuel bytes r w q = rw (q, serve) refl

  -- The loop on a frame that fits, and then on what follows it.
  serve-frame :
      (raw rest : Text) (w : W)
      → 0 < length raw
      → length raw ≤ max
      → length raw < 2 ^ 32
      → (let bytes = put_u32 (length raw) ++ raw ++ rest in
          serve wire (length bytes) max slots bytes w
          ≡ serve wire
              (length rest)
              max
              slots
              rest
              (dispatch_decoded slots (decode_envelope (wire.blob_of raw)) w))
  unfolding put_u32
  serve-frame raw rest w h k l =
      let fuel = suc (suc (suc (length (raw ++ rest)))) in
      serve_step fuel _ (raw, rest) w (next_frame-put_u32 max raw rest h k l)
      ∙ serve_enough fuel (length rest) rest _ (omega (arith, length-append raw rest)) (omega arith)

-- What Publish writes, where it succeeds.
publish_tcp_ok :
    (wire : Wire) (c : TcpConfig) (dial header body : Result (Unit {0})) (env : Envelope)
    (bytes : Text)
    → publish_tcp wire c dial header body env ≡ ok bytes
    → (b : Blob) × (encode_envelope env ≡ ok b)
      × (length (wire.bytes_of b) % 2 ^ 32 ≤ c.max_frame)
      × (bytes ≡ put_u32 (length (wire.bytes_of b) % 2 ^ 32) ++ wire.bytes_of b)
unfolding publish_tcp
publish_tcp_ok wire c dial header body env bytes e = elim (result_cases (encode_envelope env)) [
  | inl (b, q) ↦ (b, q, ground (arith, e, q), ground (arith, e, q))
  | inr (x, q) ↦ absurd (ground (arith, e, q))
]

-- The bytes of one Publish after another.
abbrev pub written : Wire → TcpConfig → List Envelope → Result Text
written wire c [] = ok []
written wire c (env ∷ envs) = publish_tcp wire c (ok tt) (ok tt) (ok tt) env >>= λ frame.
    written wire c envs >>= λ frames. ok (frame ++ frames)

-- The dispatches of the envelopes, with their payloads in compact form.
abbrev pub dispatch_all : {W : Type 0} → Slots (Handler W) → List Envelope → W → W
dispatch_all slots [] w = w
dispatch_all slots (env ∷ envs) w = dispatch_all slots envs (dispatch slots (as_sent env) w)

-- The bytes of the envelope's JSON read back as that JSON. They are one at least, and 32 bits hold their number.
abbrev pub Fits : Wire → Envelope → Type 0
Fits wire env =
    (b : Blob)
    → encode_envelope env ≡ ok b
    → (wire.blob_of (wire.bytes_of b) ≡ b)
      × (0 < length (wire.bytes_of b))
      × (length (wire.bytes_of b) < 2 ^ 32)

written_cons :
    (wire : Wire) (c : TcpConfig) (env : Envelope) (envs : List Envelope) (bytes : Text)
    → written wire c (env ∷ envs) ≡ ok bytes
    → (frame frames : Text) × (publish_tcp wire c (ok tt) (ok tt) (ok tt) env ≡ ok frame)
      × (written wire c envs ≡ ok frames)
      × (bytes ≡ frame ++ frames)
written_cons wire c env envs bytes e =
    elim (result_cases (publish_tcp wire c (ok tt) (ok tt) (ok tt) env)) [
      | inl (frame, q) ↦ elim (result_cases (written wire c envs)) [
        | inl (frames, r) ↦ (frame, frames, q, r, ground (arith, e, q, r))
        | inr (x, r) ↦ absurd (ground (arith, e, q, r))
      ]
      | inr (x, q) ↦ absurd (ground (arith, e, q))
    ]

module _ (wire : Wire) {W : Type 0} (t : TcpTransport W) where
  -- Where the bytes of an envelope's JSON read back as that JSON, the receiver's loop on the frames that Publish
  -- writes for any envelopes, one after another, dispatches exactly these envelopes, in order, each with its
  -- payload in compact form and all else as it was, if the frame limit of the receiver is not below that
  -- of the sender, and each JSON has a byte at least and less than 2^32 bytes.
  pub written-handle_tcp :
      (c : TcpConfig) (envs : List Envelope) (bytes : Text) (w : W)
      → All (Fits wire) envs
      → c.max_frame ≤ t.config.max_frame
      → written wire c envs ≡ ok bytes
      → handle_tcp wire t bytes w ≡ dispatch_all t.handlers.slots envs w
  unfolding handle_tcp put_u32 serve
  written-handle_tcp c [] bytes w fits limit e =
      let empty : bytes ≡ [] = ground (arith, e) in rw (empty, serve) refl
  written-handle_tcp c (env ∷ envs) bytes w fits limit e =
      let (frame, frames, p, q, join) = written_cons wire c env envs bytes e in
      let (b, enc, size, made) = publish_tcp_ok wire c (ok tt) (ok tt) (ok tt) env frame p in
      let (back, some_bytes, short) = fits.0 b enc in
      let raw = wire.bytes_of b in
      let slots = t.handlers.slots in
      let max = t.config.max_frame in
      let whole : length raw % 2 ^ 32 ≡ length raw = omega (arith, short) in
      let small : length raw ≤ max = omega (arith, size, short, limit) in
      let all : bytes ≡ put_u32 (length raw) ++ raw ++ frames =
        join ∙ ap (λ f. f ++ frames) (made ∙ ap (λ n. put_u32 n ++ raw) whole) in
      let decoded : decode_envelope (wire.blob_of raw) ≡ ok (as_sent env) =
        let (c, same, decodes) = encode-decode env (encoded_valid env b enc) in
        rw back (ground (arith, enc, same, decodes)) in
      ap (λ read. serve wire (length read) max slots read w) all
      ∙ serve-frame wire max slots raw frames w some_bytes small short
      ∙ ap (λ d. serve wire (length frames) max slots frames (dispatch_decoded slots d w)) decoded
      ∙ written-handle_tcp c envs frames _ fits.1 limit q
