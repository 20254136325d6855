-- ===== src/Crypto/Agreement.antt =====
-- crypto.go: two nodes that exchange an offer have the same key, what one seals the other opens, and a
-- destroyed secret is of no use.
use ubi_quic_e_xtreme_zero_t.Prelude.{
  Bool-cases, length, take-append, drop-append, length-append, Text, result_cases, secret_destroyed,
  Result, ok, err, ◌≡◌, refl, inl, inr, false, ◌++◌, arith,
}
use ubi_quic_e_xtreme_zero_t.Crypto.{Scheme, Keys, public_bundle}
use ubi_quic_e_xtreme_zero_t.Crypto.Session.{
  Exchange, Secret, SessionOffer, zero_bytes, new_secret, use_secret, destroy, establish, accept,
  seal, open_sealed, nonce_size, session_key,
}

-- What the packages document: both sides of a key exchange compute one shared key, and an authenticated
-- ciphertext opens under the key, nonce and associated data of its sealing.
pub record IsExchange (s : Scheme) (x : Exchange) : Type 0 where
  pub x25519_parses : (k : Text) → x.x25519_parse (s.x25519_public k) ≡ ok tt
  pub ecdh_agrees : (a b : Text) → x.ecdh a (s.x25519_public b) ≡ x.ecdh b (s.x25519_public a)
  pub decapsulates :
      (k seed : Text)
      → x.decapsulate k (x.encapsulate (s.mlkem_public k) seed).1
        ≡ ok (x.encapsulate (s.mlkem_public k) seed).0
  pub opens :
      (key nonce plaintext aad : Text)
      → x.aead_open key nonce (x.aead_seal key nonce plaintext aad) aad ≡ ok plaintext

module _ (s : Scheme) (x : Exchange) (sound : IsExchange s x) where
  open sound use {x25519_parses, ecdh_agrees, decapsulates, opens}

  accept-establish :
      (k : Keys) (random : Result Text) (seed : Text) (offer : SessionOffer) (secret : Secret)
      → establish s.x25519_public x (public_bundle s k) random seed ≡ ok (offer, secret)
      → accept s.x25519_public x k offer ≡ ok secret
  unfolding establish accept public_bundle new_secret
  accept-establish k random seed offer secret h =
      let parses = x25519_parses k.x_private in
      elim (result_cases random) [
        | inr (y, e) ↦ absurd (ground arith)
        | inl (ephemeral, e) ↦
            elim (result_cases (x.ecdh ephemeral (s.x25519_public k.x_private))) [
              | inr (y, f) ↦ absurd (ground arith)
              | inl (classical, f) ↦
                  elim (result_cases (x.mlkem_parse (s.mlkem_public k.kem_private))) [
                    | inr (y, g) ↦ absurd (ground arith)
                    | inl (u, g) ↦
                        let shared = x.encapsulate (s.mlkem_public k.kem_private) seed in
                        elim (result_cases (session_key s.x25519_public x classical shared.0)) [
                          | inr (y, q) ↦ absurd (ground arith)
                          | inl (key, q) ↦
                              let sent : offer.ephemeral_x25519 ≡ s.x25519_public ephemeral =
                                ground arith in
                              let wrapped : offer.mlkem_ciphertext ≡ shared.1 = ground arith in
                              let kept : secret ≡ new_secret key = ground arith in
                              rw
                                (
                                  sent,
                                  wrapped,
                                  kept,
                                  x25519_parses ephemeral,
                                  ecdh_agrees k.x_private ephemeral,
                                  f,
                                  decapsulates k.kem_private seed,
                                  q,
                                )
                                refl
                        ]
                  ]
            ]
      ]

  open-seal :
      (secret : Secret) (nonce plaintext aad sealed : Text)
      → length nonce ≡ nonce_size
      → seal x secret (ok nonce) plaintext aad ≡ ok sealed
      → open_sealed x secret sealed aad ≡ ok plaintext
  unfolding seal open_sealed use_secret
  open-seal secret nonce plaintext aad sealed size h =
      let key = secret.material in
      elim (Bool-cases secret.destroyed) [
        | inl e ↦ absurd (ground arith)
        | inr e ↦ elim (result_cases (x.aead_parse key)) [
          | inr (y, f) ↦ absurd (ground arith)
          | inl (u, f) ↦
              let body = x.aead_seal key nonce plaintext aad in
              let made : sealed ≡ nonce ++ body = ground arith in
              rw
                (
                  e,
                  f,
                  made,
                  take-append 24 nonce body size,
                  drop-append 24 nonce body size,
                  opens key nonce plaintext aad,
                )
                (ground (arith, length-append nonce body, size))
        ]
      ]

  -- When Establish, for the public keys of a node, gives an offer and a secret, Accept gives that node the
  -- same secret for the offer; and what is sealed with the one, Open returns with the other, for the same
  -- associated data.
  pub session_round_trip :
      (k : Keys) (random : Result Text) (seed : Text) (offer : SessionOffer) (secret : Secret)
      (nonce plaintext aad sealed : Text)
      → establish s.x25519_public x (public_bundle s k) random seed ≡ ok (offer, secret)
      → length nonce ≡ nonce_size
      → seal x secret (ok nonce) plaintext aad ≡ ok sealed
      → (other : Secret) × (accept s.x25519_public x k offer ≡ ok other)
        × (open_sealed x other sealed aad ≡ ok plaintext)
  session_round_trip k random seed offer secret nonce plaintext aad sealed h size q = (
    secret,
    accept-establish k random seed offer secret h,
    open-seal secret nonce plaintext aad sealed size q,
  )

-- Destroy overwrites the bytes of a secret that is in use with zeros, and after it Use, Seal and Open are
-- refused, also when Destroy is called again.
pub destroy_cases :
    (x : Exchange) (secret : Secret) (random : Result Text) (t aad : Text)
    → (destroy (destroy secret) ≡ destroy secret)
      × (secret.destroyed ≡ false → (destroy secret).backing ≡ zero_bytes secret.material)
      × (seal x (destroy secret) random t aad ≡ err secret_destroyed)
      × (open_sealed x (destroy secret) t aad ≡ err secret_destroyed)
unfolding destroy seal open_sealed use_secret
destroy_cases x secret random t aad = elim (Bool-cases secret.destroyed) [
  | inl e ↦ (ground arith, λ q. ground arith, ground arith, ground arith)
  | inr e ↦ (ground arith, λ q. ground arith, ground arith, ground arith)
]
