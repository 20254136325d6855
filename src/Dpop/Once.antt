-- ===== src/Dpop/Once.antt =====
-- dpop.go: a token is accepted once.
use ubi_quic_e_xtreme_zero_t.Prelude.{
  All, Text, text, result_cases, replayed, Result, ok, err, ℤ, ◌+◌, ◌≤◌, ◌≡◌, refl, sym, ap, ◌∙◌,
  ◌≢◌, inl, inr, true, List, [], ◌∷◌, ◌++◌, arith,
}
use ubi_quic_e_xtreme_zero_t.Prelude.Results.{◌>>=◌}
use ubi_quic_e_xtreme_zero_t.Replay.{Replay, is_fresh}
use ubi_quic_e_xtreme_zero_t.Replay.Once.{IsVerifier, admit, admit_all, admit_once}
use ubi_quic_e_xtreme_zero_t.Dpop.{
  Jose, DpopRequest, second, dpop_skew, check_dpop, verify_dpop, only_header, public_key,
}

module _ (j : Jose) (max_skew : ℤ) where
  -- The key and the time in the cache depend on the token alone.
  entry_of : Text → Result (Text × ℤ)
  entry_of token = do
    headers ← j.parse_signed token
    header ← only_header headers
    key ← public_key header.jwk
    payload ← j.verify_payload token key.key
    c ← j.claims_of payload
    raw ← key.marshalled
    ok (j.sha256_base64 raw ++ (text ":" ++ c.jti), c.iat)

  check_dpop-entry :
      (q : DpopRequest) (e : Text × ℤ)
      → check_dpop j max_skew q ≡ ok e
      → (entry_of q.token ≡ ok e) × (is_fresh second e.1 (dpop_skew max_skew) q.now ≡ true)
  unfolding check_dpop entry_of
  check_dpop-entry q e h = elim (result_cases (j.parse_signed q.token)) [
    | inr (x, a) ↦ absurd (ground arith)
    | inl (headers, a) ↦ elim (result_cases (only_header headers)) [
      | inr (x, b) ↦ absurd (ground arith)
      | inl (header, b) ↦ elim (result_cases (public_key header.jwk)) [
        | inr (x, c) ↦ absurd (ground arith)
        | inl (key, c) ↦ elim (result_cases (j.verify_payload q.token key.key)) [
          | inr (x, d) ↦ absurd (ground arith)
          | inl (payload, d) ↦ elim (result_cases (j.claims_of payload)) [
            | inr (x, f) ↦ absurd (ground arith)
            | inl (claims, f) ↦ elim (result_cases key.marshalled) [
              | inr (x, g) ↦ absurd (ground arith)
              | inl (raw, g) ↦ (ground arith, ground arith)
            ]
          ]
        ]
      ]
    ]
  ]

  abbrev dpop_verifier : IsVerifier DpopRequest second (dpop_skew max_skew)
  dpop_verifier = record {
    unit_positive = omega arith;
    test = check_dpop j max_skew;
    now_of = λ q. q.now;
    test_fresh = λ q key at h. (check_dpop-entry q (key, at) h).1;
  }

  -- The cache after some requests.
  unfoldable pub verify_requests : List DpopRequest → Replay → Replay
  verify_requests [] r = r
  verify_requests (q ∷ qs) r = verify_requests qs (verify_dpop j max_skew q r).1

  verify_dpop-admit :
      (q : DpopRequest) (r : Replay) → verify_dpop j max_skew q r ≡ admit dpop_verifier q r
  unfolding verify_dpop admit
  verify_dpop-admit q r = elim (result_cases (check_dpop j max_skew q)) [
    | inl (e, a) ↦ rw a refl
    | inr (x, a) ↦ rw a refl
  ]

  verify_requests-admit_all :
      (qs : List DpopRequest) (r : Replay) → verify_requests qs r ≡ admit_all dpop_verifier qs r
  unfolding verify_requests admit_all
  verify_requests-admit_all [] r = refl
  verify_requests-admit_all (q ∷ qs) r =
      verify_requests-admit_all qs (verify_dpop j max_skew q r).1
      ∙ ap (λ v. admit_all dpop_verifier qs v.1) (verify_dpop-admit q r)

  accepted_test :
      (q : DpopRequest) (r : Replay)
      → (verify_dpop j max_skew q r).0 ≡ ok tt
      → (e : Text × ℤ) × (check_dpop j max_skew q ≡ ok e)
  unfolding verify_dpop
  accepted_test q r h = elim (result_cases (check_dpop j max_skew q)) [
    | inl (e, a) ↦ (e, a)
    | inr (x, a) ↦ absurd (ground arith)
  ]

  -- After Verify has accepted a token it accepts it no more, for no method, target or access token and not
  -- after any number of other requests, provided that no reading of the clock in between was more
  -- than the skew ahead of the last.
  pub token_once :
      (first again : DpopRequest) (between : List DpopRequest) (r : Replay)
      → again.token ≡ first.token
      → (verify_dpop j max_skew first r).0 ≡ ok tt
      → All (λ q. q.now ≤ again.now + dpop_skew max_skew) between
      → (verify_dpop j max_skew again
          (verify_requests between (verify_dpop j max_skew first r).1)).0
        ≢ ok tt
  token_once first again between r same h b q =
      let reached = verify_requests between (verify_dpop j max_skew first r).1 in
      let one = accepted_test first r h in
      let two = accepted_test again reached q in
      let equal : ◌≡◌ {A = Result (Text × ℤ)} (ok two.0) (ok one.0) =
        sym (check_dpop-entry again two.0 two.1).0
        ∙ ap entry_of same
        ∙ (check_dpop-entry first one.0 one.1).0 in
      let there : reached ≡ admit_all dpop_verifier between (admit dpop_verifier first r).1 =
        verify_requests-admit_all between (verify_dpop j max_skew first r).1
        ∙ ap (λ v. admit_all dpop_verifier between v.1) (verify_dpop-admit first r) in
      let refused =
        admit_once dpop_verifier first again between one.0.0 one.0.1 r one.1 (two.1 ∙ equal)
          (ap (λ v. v.0) (sym (verify_dpop-admit first r)) ∙ h) b in
      let answer : (verify_dpop j max_skew again reached).0 ≡ err replayed =
        ap (λ v. v.0) (verify_dpop-admit again reached)
        ∙ ap (λ c. (admit dpop_verifier again c).0) there
        ∙ refused in
      ground (arith, answer, q)
