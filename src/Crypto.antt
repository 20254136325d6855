-- ===== src/Crypto.antt =====
-- crypto.go: the keys of a node, hybrid signatures, and the digest of an envelope (model.go). The
-- primitives of the crypto packages are a parameter.
pub mod Pop
pub mod Replaying
pub mod Acceptance
pub mod RoundTrip
pub mod Session
pub mod Agreement
use ubi_quic_e_xtreme_zero_t.Prelude.{
  ltb, ◌==◌, if◌then◌else◌, length, teq, Text, text, key_id_required, invalid_ed25519,
  invalid_mldsa, Result, ok, err, ℤ, ℕ, ◌+◌, ◌/◌, ◌%◌, Bool, not, ◌||◌, [], ◌∷◌,
}
use ubi_quic_e_xtreme_zero_t.Prelude.Results.{◌>>=◌, ◌>>◌}
use ubi_quic_e_xtreme_zero_t.Envelope.{Envelope, Blob, HybridSignature, canonical_bytes}

-- A proof without its signature.
pub record UnsignedPop : Type 0 where
  pub holder : Text
  pub created_at_ms : ℤ
  pub nonce : Text
  pub method : Text
  pub target : Text
  pub envelope_hash : Text

-- Bytes to be signed: the JSON of a proof is represented by the proof.
pub data Message : Type 0 where
  encoded_pop : UnsignedPop → Message
  other_message : Text → Message

-- crypto/ed25519, crypto/mldsa and crypto/sha256. A private key is given by its bytes.
pub record Scheme : Type 0 where
  pub ed25519_public : Text → Text
  pub ed25519_sign : Text → Message → Text
  pub ed25519_verify : Text → Message → Text → Bool
  pub mldsa_public : Text → Text
  pub mldsa_sign : Text → Message → Text → Result Text
  pub mldsa_parse : Text → Result (Unit {0})
  pub mldsa_verify : Text → Message → Text → Text → Result (Unit {0})
  pub x25519_public : Text → Text
  pub mlkem_public : Text → Text
  pub sha256 : Blob → Text

pub record PublicBundle : Type 0 where
  pub key_id : Text
  pub ed25519 : Text
  pub mldsa44 : Text
  pub x25519 : Text
  pub mlkem768 : Text

-- CryptoProvider, without its replay cache.
pub record Keys : Type 0 where
  pub key_id : Text
  pub ed_public : Text
  pub ed_private : Text
  pub ml_private : Text
  pub x_private : Text
  pub kem_private : Text

abbrev pub mldsa_context : Text
mldsa_context = text "ubiq-envelope-v1"

abbrev hex_digit : ℕ → ℕ
hex_digit n = if ltb n 10 then 48 + n else 87 + n

-- hex.EncodeToString, and the verb %x.
unfoldable pub hex : Text → Text
hex [] = []
hex (b ∷ bs) = hex_digit (b / 16) ∷ hex_digit (b % 16) ∷ hex bs

module _ (s : Scheme) where
  -- NewCryptoProvider, with the four private keys that are drawn.
  unfoldable pub new_provider :
      Text → Result Text → Result Text → Result Text → Result Text → Result Keys
  new_provider key_id ed ml x kem = if teq key_id [] then err key_id_required else do
    ed_key ← ed
    ml_key ← ml
    x_key ← x
    kem_key ← kem
    ok (record {
      key_id = key_id;
      ed_public = s.ed25519_public ed_key;
      ed_private = ed_key;
      ml_private = ml_key;
      x_private = x_key;
      kem_private = kem_key;
    })

  unfoldable pub public_bundle : Keys → PublicBundle
  public_bundle k = record {
    key_id = k.key_id;
    ed25519 = k.ed_public;
    mldsa44 = s.mldsa_public k.ml_private;
    x25519 = s.x25519_public k.x_private;
    mlkem768 = s.mlkem_public k.kem_private;
  }

  unfoldable pub sign : Keys → Message → Result HybridSignature
  sign k m = do
    ml ← s.mldsa_sign k.ml_private m mldsa_context
    ok (record { ed25519 = s.ed25519_sign k.ed_private m; mldsa44 = ml })

  abbrev as_invalid_mldsa : Result (Unit {0}) → Result (Unit {0})
  as_invalid_mldsa (ok u) = ok tt
  as_invalid_mldsa (err x) = err invalid_mldsa

  -- VerifyHybrid: both signatures.
  unfoldable pub verify_hybrid : PublicBundle → Message → HybridSignature → Result (Unit {0})
  verify_hybrid peer m sig =
      if not (length peer.ed25519 == 32) || not (s.ed25519_verify peer.ed25519 m sig.ed25519)
      then err invalid_ed25519
      else do
        s.mldsa_parse peer.mldsa44
        as_invalid_mldsa (s.mldsa_verify peer.mldsa44 m sig.mldsa44 mldsa_context)

  -- Envelope.DigestHex
  unfoldable pub digest_hex : Envelope → Result Text
  unfolding hex
  digest_hex env = do b ← canonical_bytes env; ok (hex (s.sha256 b))
