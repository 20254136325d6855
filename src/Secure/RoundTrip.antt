-- ===== src/Secure/RoundTrip.antt =====
-- secure_transport.go: what one node publishes, the handler of another that trusts it is called with.
use ubi_quic_e_xtreme_zero_t.Prelude.{
  any_where, Text, result_cases, Result, ok, ℕ, ◌+◌, ◌≤◌, ◌≡◌, ap, inl, inr, false, some, arith,
}
use ubi_quic_e_xtreme_zero_t.Envelope.{Envelope, MessageSecurity, ProofOfPossession}
use ubi_quic_e_xtreme_zero_t.Replay.{purge, has_key}
use ubi_quic_e_xtreme_zero_t.Crypto.{Scheme, Keys, public_bundle, new_provider}
use ubi_quic_e_xtreme_zero_t.Crypto.Pop.{milli, replay_key, new_pop}
use ubi_quic_e_xtreme_zero_t.Crypto.RoundTrip.{IsSound, new_pop_accepted}
use ubi_quic_e_xtreme_zero_t.Secure.{
  TrustStore, Handler, Receiver, resolve, target_of, publish_method, unsigned, secured, receive,
}

module _ (s : Scheme) (sound : IsSound s) {W : Type 0} (store : TrustStore) (name : Text)
    (freshness : ℕ) (h : Handler W) where
  -- The proof that Publish attaches.
  secured-proof :
      (k : Keys) (env : Envelope) (random : Result Text) (made : ℕ) (sent : Envelope)
      → secured s k name env random made ≡ ok sent
      → (p : ProofOfPossession) × (new_pop s k publish_method
            (target_of name)
            (unsigned env)
            random
            made
          ≡ ok p)
        × (sent ≡ record env { security = some (record { key_id = k.key_id; proof = p }) })
  unfolding secured public_bundle
  secured-proof k env random made sent e =
      elim (result_cases (new_pop s k publish_method (target_of name) (unsigned env) random made)) [
        | inl (p, f) ↦ (p, f, ground arith)
        | inr (x, f) ↦ absurd (ground arith)
      ]

  -- An envelope that a node publishes, with the keys of NewCryptoProvider, is handled by a subscriber on the
  -- same transport whose trust store resolves the node's key id to the node's public keys, when the two
  -- clocks differ by no more than the freshness (less the millisecond of rounding) and the cache does not
  -- have the proof: the handler gets the envelope as it was published, without its signature, and its
  -- result is the result.
  pub publish_received :
      (id : Text) (ed ml x kem : Result Text) (k : Keys) (env sent : Envelope)
      (random : Result Text) (made now : ℕ) (w : Receiver W)
      → new_provider s id ed ml x kem ≡ ok k
      → secured s k name env random made ≡ ok sent
      → resolve k.key_id store ≡ some (public_bundle s k)
      → made ≤ now + freshness
      → now + milli ≤ made + freshness
      → ((m : MessageSecurity)
          → sent.security ≡ some m
          → any_where (has_key (replay_key m.proof)) (purge milli freshness now w.cache) ≡ false)
      → ((receive s store name freshness h sent now w).0 ≡ (h (unsigned env) w.app).0)
        × ((receive s store name freshness h sent now w).1.app ≡ (h (unsigned env) w.app).1)
  unfolding receive
  publish_received id ed ml x kem k env sent random made now w from e known early late free =
      let (p, f, shape) = secured-proof k env random made sent e in
      let m : MessageSecurity = record { key_id = k.key_id; proof = p } in
      let accepted =
        new_pop_accepted s sound id ed ml x kem k publish_method (target_of name) (unsigned env)
          random made now freshness w.cache p from f early late
          (free m (ap (λ v. v.security) shape)) in
      rw shape (ground (arith, known, accepted))
