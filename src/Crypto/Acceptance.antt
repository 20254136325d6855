-- ===== src/Crypto/Acceptance.antt =====
-- crypto.go: which proofs VerifyPoP accepts, and that it accepts those that NewPoP makes.
use ubi_quic_e_xtreme_zero_t.Prelude.{
  and_true, any_where, teq, Text, teq_iff, teq_refl, result_cases, Error, Result, ok, err, ℕ, ◌≡◌,
  refl, ap, ◌∙◌, ◌↔◌, inl, inr, Bool, true, false, ◌&&◌, arith,
}
use ubi_quic_e_xtreme_zero_t.Prelude.Results.{◌>>=◌, ◌>>◌, demand}
use ubi_quic_e_xtreme_zero_t.Envelope.{Envelope, ProofOfPossession}
use ubi_quic_e_xtreme_zero_t.Replay.{Replay, is_fresh, remember, purge, has_key}
use ubi_quic_e_xtreme_zero_t.Crypto.{Scheme, PublicBundle, digest_hex, verify_hybrid, encoded_pop}
use ubi_quic_e_xtreme_zero_t.Crypto.Pop.{milli, replay_key, check_pop, verify_pop, unsigned_part}

demand_then :
    (b : Bool) (x : Error) (k : Result (Unit {0}))
    → ((demand b x >> k) ≡ ok tt) ↔ ((b ≡ true) × (k ≡ ok tt))
demand_then true x k = ground arith
demand_then false x k = ground arith

digest_then :
    (m : Result Text) (f : Text → Result (Unit {0}))
    → (m >>= f) ≡ ok tt
    → (a : Text) × (m ≡ ok a) × (f a ≡ ok tt)
digest_then (ok a) f h = (a, refl, h)
digest_then (err x) f h = absurd (ground arith)

and_intro : (a b : Bool) → a ≡ true → b ≡ true → (a && b) ≡ true
and_intro a b h k = ground arith

module _ (s : Scheme) where
  -- What a proof must be to be accepted for a request at a reading of the clock.
  pub record IsAcceptable (peer : PublicBundle) (p : ProofOfPossession) (method target : Text)
      (env : Envelope) (now skew : ℕ) : Type 0 where
    pub holder : p.holder ≡ peer.key_id
    pub method_bound : p.method ≡ method
    pub target_bound : p.target ≡ target
    pub fresh : is_fresh milli p.created_at_ms skew now ≡ true
    pub hash : digest_hex s env ≡ ok p.envelope_hash
    pub signed : verify_hybrid s peer (encoded_pop (unsigned_part p)) p.signature ≡ ok tt

  check_pop_iff :
      (peer : PublicBundle) (p : ProofOfPossession) (method target : Text) (env : Envelope)
      (now skew : ℕ)
      → (check_pop s peer p method target env now skew ≡ ok tt)
        ↔ IsAcceptable peer p method target env now skew
  unfolding check_pop
  check_pop_iff peer p method target env now skew = (
    λ h.
        let bound = (demand_then _ _ _).0 h in
        let fresh = (demand_then _ _ _).0 bound.1 in
        let digest = digest_then (digest_hex s env) _ fresh.1 in
        let hash = (demand_then _ _ _).0 digest.2 in
        let names = and_true (teq p.holder peer.key_id) _ bound.0 in
        let rest = and_true (teq p.method method) (teq p.target target) names.1 in
        record {
          holder = (teq_iff p.holder peer.key_id).0 names.0;
          method_bound = (teq_iff p.method method).0 rest.0;
          target_bound = (teq_iff p.target target).0 rest.1;
          fresh = fresh.0;
          hash = digest.1 ∙ ap ok ((teq_iff digest.0 p.envelope_hash).0 hash.0);
          signed = hash.1;
        },
    λ a. (demand_then _ _ _).1 (
      and_intro (teq p.holder peer.key_id) _ ((teq_iff p.holder peer.key_id).1 a.holder) (
          and_intro (teq p.method method) (teq p.target target)
            ((teq_iff p.method method).1 a.method_bound)
            ((teq_iff p.target target).1 a.target_bound)),
      (demand_then _ _ _).1
          (a.fresh, rw a.hash ((demand_then _ _ _).1 (teq_refl p.envelope_hash, a.signed))),
    ),
  )

  -- VerifyPoP accepts a proof exactly when the proof is bound to the peer, the method and the target, is
  -- fresh, holds the digest of the envelope and both signatures of the peer, and the cache, without its
  -- stale entries, does not have the proof's key.
  pub verify_pop_iff :
      (peer : PublicBundle) (p : ProofOfPossession) (method target : Text) (env : Envelope)
      (now skew : ℕ) (r : Replay)
      → ((verify_pop s peer p method target env now skew r).0 ≡ ok tt) ↔ (
          IsAcceptable peer p method target env now skew
          × (any_where (has_key (replay_key p)) (purge milli skew now r) ≡ false))
  unfolding verify_pop remember
  verify_pop_iff peer p method target env now skew r =
      elim (result_cases (check_pop s peer p method target env now skew)) [
        | inl (u, e) ↦ rw e (
          λ h. ((check_pop_iff peer p method target env now skew).0 e, ground arith),
          λ a. ground arith,
        )
        | inr (x, e) ↦ rw e (
          λ h. absurd (ground arith),
          λ a. absurd (
              refused (check_pop s peer p method target env now skew) x e
                ((check_pop_iff peer p method target env now skew).1 a.0)),
        )
      ]
    where
      refused : (v : Result (Unit {0})) (x : Error) → v ≡ err x → v ≡ ok tt → ⊥
      refused v x e h = ground arith
