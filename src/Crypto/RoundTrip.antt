-- ===== src/Crypto/RoundTrip.antt =====
-- crypto.go: VerifyPoP accepts what NewPoP makes.
use ubi_quic_e_xtreme_zero_t.Prelude.{
  length, any_where, Text, result_cases, Result, ok, pos, ℕ, ◌+◌, ◌/◌, ◌≤◌, ◌≡◌, refl, subst, inl,
  inr, true, false, arith,
}
use ubi_quic_e_xtreme_zero_t.Envelope.{Envelope, ProofOfPossession, HybridSignature}
use ubi_quic_e_xtreme_zero_t.Replay.{Replay, is_fresh, purge, has_key}
use ubi_quic_e_xtreme_zero_t.Crypto.{
  Scheme, Keys, Message, digest_hex, verify_hybrid, encoded_pop, sign, public_bundle, new_provider,
  mldsa_context,
}
use ubi_quic_e_xtreme_zero_t.Crypto.Pop.{
  milli, replay_key, verify_pop, new_pop, unsigned_pop, signed_with,
}
use ubi_quic_e_xtreme_zero_t.Crypto.Acceptance.{IsAcceptable, verify_pop_iff}

-- What the signature packages document: a public key has its size and parses, and verifies what its private
-- key signs.
pub record IsSound (s : Scheme) : Type 0 where
  pub ed25519_size : (k : Text) → length (s.ed25519_public k) ≡ 32
  pub ed25519_verifies :
      (k : Text) (m : Message) → s.ed25519_verify (s.ed25519_public k) m (s.ed25519_sign k m) ≡ true
  pub mldsa_parses : (k : Text) → s.mldsa_parse (s.mldsa_public k) ≡ ok tt
  pub mldsa_verifies :
      (k : Text) (m : Message) (context sig : Text)
      → s.mldsa_sign k m context ≡ ok sig
      → s.mldsa_verify (s.mldsa_public k) m sig context ≡ ok tt

module _ (s : Scheme) (sound : IsSound s) where
  open sound use {ed25519_size, ed25519_verifies, mldsa_parses, mldsa_verifies}

  verify_hybrid-sign :
      (k : Keys) (m : Message) (sig : HybridSignature)
      → k.ed_public ≡ s.ed25519_public k.ed_private
      → sign s k m ≡ ok sig
      → verify_hybrid s (public_bundle s k) m sig ≡ ok tt
  unfolding sign verify_hybrid public_bundle
  verify_hybrid-sign k m sig e h = elim (result_cases (s.mldsa_sign k.ml_private m mldsa_context)) [
    | inl (ml, q) ↦
        let first : sig.ed25519 ≡ s.ed25519_sign k.ed_private m = ground arith in
        let second : sig.mldsa44 ≡ ml = ground arith in
        rw
          (
            first,
            second,
            e,
            ed25519_size k.ed_private,
            ed25519_verifies k.ed_private m,
            mldsa_parses k.ml_private,
            mldsa_verifies k.ml_private m mldsa_context ml q,
          )
          refl
    | inr (x, q) ↦ absurd (ground arith)
  ]

  new_provider-public :
      (id : Text) (ed ml x kem : Result Text) (k : Keys)
      → new_provider s id ed ml x kem ≡ ok k
      → k.ed_public ≡ s.ed25519_public k.ed_private
  unfolding new_provider
  new_provider-public id ed ml x kem k h = ground arith

  fresh_in_time :
      (made now skew : ℕ)
      → made ≤ now + skew
      → now + milli ≤ made + skew
      → is_fresh milli (pos (made / milli)) skew now ≡ true
  fresh_in_time made now skew h k = ground arith

  -- The steps of a NewPoP that makes a proof.
  record Made (k : Keys) (method target : Text) (env : Envelope) (made : ℕ) (p : ProofOfPossession)
      : Type 0 where
    hash : Text
    nonce : Text
    sig : HybridSignature
    hashed : digest_hex s env ≡ ok hash
    signed : sign s k (encoded_pop (unsigned_pop s k method target hash nonce made)) ≡ ok sig
    made_of : signed_with (unsigned_pop s k method target hash nonce made) sig ≡ p

  new_pop-Made :
      (k : Keys) (method target : Text) (env : Envelope) (random : Result Text) (made : ℕ)
      (p : ProofOfPossession)
      → new_pop s k method target env random made ≡ ok p
      → Made k method target env made p
  unfolding new_pop
  new_pop-Made k method target env random made p h = elim (result_cases (digest_hex s env)) [
    | inl (hash, e) ↦ elim (result_cases random) [
      | inl (nonce, f) ↦
          elim (result_cases
            (sign s k (encoded_pop (unsigned_pop s k method target hash nonce made)))) [
              | inl (sig, g) ↦ record {
                hash = hash;
                nonce = nonce;
                sig = sig;
                hashed = e;
                signed = g;
                made_of = ground arith;
              }
              | inr (x, g) ↦ absurd (ground arith)
            ]
      | inr (x, f) ↦ absurd (ground arith)
    ]
    | inr (x, e) ↦ absurd (ground arith)
  ]

  Made-IsAcceptable :
      (k : Keys) (method target : Text) (env : Envelope) (made now skew : ℕ) (p : ProofOfPossession)
      → k.ed_public ≡ s.ed25519_public k.ed_private
      → Made k method target env made p
      → is_fresh milli (pos (made / milli)) skew now ≡ true
      → IsAcceptable s (public_bundle s k) p method target env now skew
  unfolding public_bundle
  Made-IsAcceptable k method target env made now skew p e w f =
      subst (λ v. IsAcceptable s (public_bundle s k) v method target env now skew) w.made_of
        (record {
          holder = refl;
          method_bound = refl;
          target_bound = refl;
          fresh = f;
          hash = w.hashed;
          signed =
              verify_hybrid-sign k
                (encoded_pop (unsigned_pop s k method target w.hash w.nonce made)) w.sig e w.signed;
        })

  -- A proof that NewPoP makes of an envelope, with the keys of NewCryptoProvider, is accepted by VerifyPoP
  -- with the public keys of the maker, for the same method, target and envelope, when the clock of the
  -- verifier is within the skew of the maker's (less the millisecond that the proof's time is rounded by)
  -- and the cache, without its stale entries, does not have the proof's key.
  pub new_pop_accepted :
      (id : Text) (ed ml x kem : Result Text) (k : Keys) (method target : Text) (env : Envelope)
      (random : Result Text) (made now skew : ℕ) (r : Replay) (p : ProofOfPossession)
      → new_provider s id ed ml x kem ≡ ok k
      → new_pop s k method target env random made ≡ ok p
      → made ≤ now + skew
      → now + milli ≤ made + skew
      → any_where (has_key (replay_key p)) (purge milli skew now r) ≡ false
      → (verify_pop s (public_bundle s k) p method target env now skew r).0 ≡ ok tt
  new_pop_accepted id ed ml x kem k method target env random made now skew r p made_by h early late
        free =
      (verify_pop_iff s (public_bundle s k) p method target env now skew r).1 (
        Made-IsAcceptable k method target env made now skew p
            (new_provider-public id ed ml x kem k made_by)
            (new_pop-Made k method target env random made p h)
            (fresh_in_time made now skew early late),
        free,
      )
