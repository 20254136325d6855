-- ===== src/Crypto/Session.antt =====
-- crypto.go: secrets, the hybrid key exchange, and sealing with a session's key. That Establish and Accept
-- overwrite their intermediate keys is not modelled.
use ubi_quic_e_xtreme_zero_t.Prelude.{
  ltb, if◌then◌else◌, length, take, drop, Text, text, secret_destroyed, ciphertext_short, Result,
  ok, err, ℕ, Bool, true, false, [], ◌∷◌, ◌++◌,
}
use ubi_quic_e_xtreme_zero_t.Prelude.Results.{◌>>=◌, ◌>>◌}
use ubi_quic_e_xtreme_zero_t.Crypto.{Keys, PublicBundle}

-- crypto/ecdh, crypto/mlkem, crypto/hkdf and chacha20poly1305. The shared key of an encapsulation comes
-- before its ciphertext.
pub record Exchange : Type 0 where
  pub x25519_parse : Text → Result (Unit {0})
  pub ecdh : Text → Text → Result Text
  pub mlkem_parse : Text → Result (Unit {0})
  pub encapsulate : Text → Text → Text × Text
  pub decapsulate : Text → Text → Result Text
  pub hkdf : Text → Text → ℕ → Result Text
  pub aead_parse : Text → Result (Unit {0})
  pub aead_seal : Text → Text → Text → Text → Text
  pub aead_open : Text → Text → Text → Text → Result Text

-- `backing` is the array behind the slice `material`.
pub record Secret : Type 0 where
  pub backing : Text
  pub material : Text
  pub destroyed : Bool

abbrev pub zero_bytes : Text → Text
zero_bytes [] = []
zero_bytes (b ∷ bs) = 0 ∷ zero_bytes bs

unfoldable pub new_secret : Text → Secret
new_secret key = record { backing = key; material = key; destroyed = false }

-- Secret.Use, for a function that leaves the bytes as they are.
unfoldable pub use_secret : {A : Type 0} → Secret → (Text → Result A) → Result A
use_secret s f = if s.destroyed then err secret_destroyed else f s.material

unfoldable pub destroy : Secret → Secret
destroy s =
    if s.destroyed
    then s
    else record { backing = zero_bytes s.material; material = []; destroyed = true }

pub record SessionOffer : Type 0 where
  pub ephemeral_x25519 : Text
  pub mlkem_ciphertext : Text

abbrev pub session_info : Text
session_info = text "ubiq-hybrid-x25519-mlkem768-v1"

abbrev pub nonce_size : ℕ
nonce_size = 24

module _ (x25519_public : Text → Text) (x : Exchange) where
  abbrev pub session_key : Text → Text → Result Text
  session_key classical pq = x.hkdf (classical ++ pq) session_info 32

  -- Establish, with the ephemeral private key and the randomness of the encapsulation.
  unfoldable pub establish : PublicBundle → Result Text → Text → Result (SessionOffer × Secret)
  unfolding new_secret
  establish peer random seed = do
    x.x25519_parse peer.x25519
    ephemeral ← random
    classical ← x.ecdh ephemeral peer.x25519
    x.mlkem_parse peer.mlkem768
    let shared = x.encapsulate peer.mlkem768 seed
    key ← session_key classical shared.0
    ok (
      record { ephemeral_x25519 = x25519_public ephemeral; mlkem_ciphertext = shared.1 },
      new_secret key,
    )

  unfoldable pub accept : Keys → SessionOffer → Result Secret
  unfolding new_secret
  accept k offer = do
    x.x25519_parse offer.ephemeral_x25519
    classical ← x.ecdh k.x_private offer.ephemeral_x25519
    pq ← x.decapsulate k.kem_private offer.mlkem_ciphertext
    key ← session_key classical pq
    ok (new_secret key)

module _ (x : Exchange) where
  -- Seal, with the 24 bytes that rand.Read fills in, or its error.
  unfoldable pub seal : Secret → Result Text → Text → Text → Result Text
  unfolding use_secret
  seal secret random plaintext aad = use_secret secret (λ key. do
    x.aead_parse key
    nonce ← random
    ok (nonce ++ x.aead_seal key nonce plaintext aad))

  abbrev pub open_with : Text → Text → Text → Result Text
  open_with key ciphertext aad =
      if ltb (length ciphertext) nonce_size
      then err ciphertext_short
      else x.aead_open key (take nonce_size ciphertext) (drop nonce_size ciphertext) aad

  -- Open
  unfoldable pub open_sealed : Secret → Text → Text → Result Text
  unfolding use_secret
  open_sealed secret ciphertext aad =
      use_secret secret (λ key. x.aead_parse key >> open_with key ciphertext aad)
