-- ===== src/Crypto/Pop.antt =====
-- crypto.go: NewPoP and VerifyPoP. Clock readings and skews are nanoseconds, as in time.Time; a skew is
-- not negative and small enough that doubling it does not overflow.
use ubi_quic_e_xtreme_zero_t.Prelude.{
  teq, Text, text, binding_mismatch, not_fresh, hash_mismatch, Result, ok, err, pos, ℕ, ◌/◌, ◌&&◌,
  ◌++◌,
}
use ubi_quic_e_xtreme_zero_t.Prelude.Results.{◌>>=◌, ◌>>◌, demand}
use ubi_quic_e_xtreme_zero_t.Envelope.{Envelope, ProofOfPossession, HybridSignature}
use ubi_quic_e_xtreme_zero_t.Replay.{Replay, is_fresh, remember}
use ubi_quic_e_xtreme_zero_t.Crypto.{
  Scheme, Keys, PublicBundle, UnsignedPop, encoded_pop, hex, sign, verify_hybrid, digest_hex,
}

-- Nanoseconds of a millisecond.
abbrev pub milli : ℕ
milli = 1000000

-- The unsigned part that VerifyPoP rebuilds.
abbrev pub unsigned_part : ProofOfPossession → UnsignedPop
unsigned_part p = record {
  holder = p.holder;
  created_at_ms = p.created_at_ms;
  nonce = p.nonce;
  method = p.method;
  target = p.target;
  envelope_hash = p.envelope_hash;
}

abbrev pub signed_with : UnsignedPop → HybridSignature → ProofOfPossession
signed_with u sig = record {
  holder = u.holder;
  created_at_ms = u.created_at_ms;
  nonce = u.nonce;
  method = u.method;
  target = u.target;
  envelope_hash = u.envelope_hash;
  signature = sig;
}

-- proof.Holder + ":" + proof.Nonce
abbrev pub replay_key : ProofOfPossession → Text
replay_key p = p.holder ++ (text ":" ++ p.nonce)

module _ (s : Scheme) where
  abbrev pub unsigned_pop : Keys → Text → Text → Text → Text → ℕ → UnsignedPop
  unsigned_pop k method target hash random now = record {
    holder = k.key_id;
    created_at_ms = pos (now / milli);
    nonce = hex random;
    method = method;
    target = target;
    envelope_hash = hash;
  }

  -- NewPoP, with the 24 bytes that rand.Read fills in, or its error.
  unfoldable pub new_pop :
      Keys → Text → Text → Envelope → Result Text → ℕ → Result ProofOfPossession
  new_pop k method target env random now = do
    hash ← digest_hex s env
    nonce ← random
    let unsigned = unsigned_pop k method target hash nonce now
    sig ← sign s k (encoded_pop unsigned)
    ok (signed_with unsigned sig)

  -- What VerifyPoP tests before it takes the lock of the replay cache.
  unfoldable pub check_pop :
      PublicBundle → ProofOfPossession → Text → Text → Envelope → ℕ → ℕ → Result (Unit {0})
  check_pop peer p method target env now skew = do
    demand (teq p.holder peer.key_id && (teq p.method method && teq p.target target))
        binding_mismatch
    demand (is_fresh milli p.created_at_ms skew now) not_fresh
    hash ← digest_hex s env
    demand (teq hash p.envelope_hash) hash_mismatch
    verify_hybrid s peer (encoded_pop (unsigned_part p)) p.signature

  abbrev guarded :
      Result (Unit {0}) → Result (Unit {0}) × Replay → Replay → Result (Unit {0}) × Replay
  guarded (ok u) m r = m
  guarded (err x) m r = (err x, r)

  unfoldable pub verify_pop :
      PublicBundle
      → ProofOfPossession
      → Text
      → Text
      → Envelope
      → ℕ
      → ℕ
      → Replay
      → Result (Unit {0}) × Replay
  unfolding check_pop
  verify_pop peer p method target env now skew r =
      guarded (check_pop peer p method target env now skew)
        (remember milli skew now (replay_key p) p.created_at_ms r) r
