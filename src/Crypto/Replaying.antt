-- ===== src/Crypto/Replaying.antt =====
-- crypto.go: VerifyPoP accepts a proof once.
use ubi_quic_e_xtreme_zero_t.Prelude.{
  Bool-cases, All, Text, result_cases, replayed, Result, ok, err, ℤ, ℕ, ◌+◌, ◌≤◌, ◌≡◌, refl, sym,
  ap, ◌∙◌, subst, ◌≢◌, inl, inr, true, List, [], ◌∷◌, arith,
}
use ubi_quic_e_xtreme_zero_t.Envelope.{Envelope, ProofOfPossession}
use ubi_quic_e_xtreme_zero_t.Prelude.Results.{◌>>◌}
use ubi_quic_e_xtreme_zero_t.Replay.{Replay, is_fresh}
use ubi_quic_e_xtreme_zero_t.Replay.Once.{IsVerifier, admit, admit_all, admit_once}
use ubi_quic_e_xtreme_zero_t.Crypto.{Scheme, PublicBundle}
use ubi_quic_e_xtreme_zero_t.Crypto.Pop.{milli, replay_key, check_pop, verify_pop}

-- One call of VerifyPoP.
pub record Attempt : Type 0 where
  pub peer : PublicBundle
  pub proof : ProofOfPossession
  pub method : Text
  pub target : Text
  pub env : Envelope
  pub now : ℕ

pair_eq : {k l : Text} {a b : ℤ} → k ≡ l → a ≡ b → ◌≡◌ {A = Text × ℤ} (k, a) (l, b)
pair_eq {k} {l} {a} {b} e f = ground (arith, e, f)

module _ (s : Scheme) (skew : ℕ) where
  unfoldable pub verify : Attempt → Replay → Result (Unit {0}) × Replay
  verify a r = verify_pop s a.peer a.proof a.method a.target a.env a.now skew r

  -- The cache after some calls.
  unfoldable pub verify_all : List Attempt → Replay → Replay
  verify_all [] r = r
  verify_all (a ∷ rest) r = verify_all rest (verify a r).1

  -- The readings of the clock that the calls before a call at `later` use.
  abbrev pub Before : ℕ → List Attempt → Type 0
  Before later calls = All (λ a. a.now ≤ later + skew) calls

  -- What passes the tests is fresh.
  check_pop-fresh :
      (a : Attempt)
      → check_pop s a.peer a.proof a.method a.target a.env a.now skew ≡ ok tt
      → is_fresh milli a.proof.created_at_ms skew a.now ≡ true
  unfolding check_pop
  check_pop-fresh a h = elim (Bool-cases (is_fresh milli a.proof.created_at_ms skew a.now)) [
    | inl e ↦ e
    | inr e ↦ absurd (ground arith)
  ]

  -- VerifyPoP as a verifier with a cache.
  abbrev pop_test : Attempt → Result (Text × ℤ)
  pop_test a =
      check_pop s a.peer a.proof a.method a.target a.env a.now skew
      >> ok (replay_key a.proof, a.proof.created_at_ms)

  pop_test_iff :
      (a : Attempt) (e : Text × ℤ)
      → pop_test a ≡ ok e
      → (check_pop s a.peer a.proof a.method a.target a.env a.now skew ≡ ok tt)
        × ((replay_key a.proof, a.proof.created_at_ms) ≡ e)
  pop_test_iff a e h =
      elim (result_cases (check_pop s a.peer a.proof a.method a.target a.env a.now skew)) [
        | inl (u, q) ↦ (q, ground arith)
        | inr (x, q) ↦ absurd (ground arith)
      ]

  abbrev pop_verifier : IsVerifier Attempt milli skew
  pop_verifier = record {
    unit_positive = omega arith;
    test = pop_test;
    now_of = λ a. a.now;
    test_fresh = λ a key at h.
        let (checked, e) = pop_test_iff a (key, at) h in
        subst (λ v. is_fresh milli v.1 skew a.now ≡ true) e (check_pop-fresh a checked);
  }

  verify-admit : (a : Attempt) (r : Replay) → verify a r ≡ admit pop_verifier a r
  unfolding verify verify_pop admit
  verify-admit a r =
      elim (result_cases (check_pop s a.peer a.proof a.method a.target a.env a.now skew)) [
        | inl (u, e) ↦ rw e refl
        | inr (x, e) ↦ rw e refl
      ]

  verify_all-admit_all :
      (calls : List Attempt) (r : Replay) → verify_all calls r ≡ admit_all pop_verifier calls r
  unfolding verify_all admit_all
  verify_all-admit_all [] r = refl
  verify_all-admit_all (a ∷ rest) r =
      verify_all-admit_all rest (verify a r).1
      ∙ ap (λ v. admit_all pop_verifier rest v.1) (verify-admit a r)

  accepted_test :
      (a : Attempt) (r : Replay)
      → (verify a r).0 ≡ ok tt
      → pop_test a ≡ ok (replay_key a.proof, a.proof.created_at_ms)
  unfolding verify verify_pop
  accepted_test a r h =
      elim (result_cases (check_pop s a.peer a.proof a.method a.target a.env a.now skew)) [
        | inl (u, e) ↦ rw e refl
        | inr (x, e) ↦ absurd (ground arith)
      ]

  -- After VerifyPoP has accepted a proof, it accepts no proof of the same holder, nonce and creation time:
  -- with no other signature, peer, method, target or envelope, and not after any number of other calls,
  -- provided that the calls use one skew and that no call in between read a clock more than that skew
  -- ahead of the last call's.
  pub no_replay :
      (first again : Attempt) (between : List Attempt) (r : Replay)
      → replay_key again.proof ≡ replay_key first.proof
      → again.proof.created_at_ms ≡ first.proof.created_at_ms
      → (verify first r).0 ≡ ok tt
      → Before again.now between
      → (verify again (verify_all between (verify first r).1)).0 ≢ ok tt
  no_replay first again between r same_key same_time h b q =
      let reached = verify_all between (verify first r).1 in
      let same : reached ≡ admit_all pop_verifier between (admit pop_verifier first r).1 =
        verify_all-admit_all between (verify first r).1
        ∙ ap (λ v. admit_all pop_verifier between v.1) (verify-admit first r) in
      let refused =
        admit_once pop_verifier first again between (replay_key first.proof)
          first.proof.created_at_ms r (accepted_test first r h)
          (subst (λ e. pop_test again ≡ ok e) (pair_eq same_key same_time)
            (accepted_test again reached q))
          (ap (λ v. v.0) (sym (verify-admit first r)) ∙ h) b in
      let answer : (verify again reached).0 ≡ err replayed =
        ap (λ v. v.0) (verify-admit again reached)
        ∙ ap (λ c. (admit pop_verifier again c).0) same
        ∙ refused in
      ground (arith, answer, q)
