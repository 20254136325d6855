-- ===== src/Command/Guarding.antt =====
-- cmd/ubiqd/main.go: which requests reach the handler behind the middleware.
use ubi_quic_e_xtreme_zero_t.Prelude.{
  if◌then◌else◌, Bool-cases, All, Result, ok, err, ℤ, ℕ, ◌+◌, ◌≤◌, ◌≡◌, refl, sym, ap, ◌∙◌, ◌≢◌,
  inl, inr, Bool, false, not, ◌||◌, List, [], ◌∷◌,
}
use ubi_quic_e_xtreme_zero_t.Envelope.{is_empty}
use ubi_quic_e_xtreme_zero_t.Replay.{Replay}
use ubi_quic_e_xtreme_zero_t.Dpop.{Jose, DpopRequest, verify_dpop, dpop_skew}
use ubi_quic_e_xtreme_zero_t.Dpop.Once.{verify_requests, token_once}
use ubi_quic_e_xtreme_zero_t.Command.{
  HttpRequest, HttpHandler, is_health_check, dpop_request, dpop_middleware, verified,
}

abbrev pub is_guarded : HttpRequest → Bool
is_guarded q = not (is_health_check q)

-- What the verifier sees of some requests, each with the reading of the clock.
abbrev pub seen_requests : List (HttpRequest × ℕ) → List DpopRequest
seen_requests [] = []
seen_requests (e ∷ es) =
    if is_health_check e.0 || is_empty e.0.dpop
    then seen_requests es
    else dpop_request e.0 e.1 ∷ seen_requests es

module _ (j : Jose) (max_skew : ℤ) {W : Type 0} (next : HttpHandler W) where
  -- The requests that come one after another.
  unfoldable pub serve_requests : List (HttpRequest × ℕ) → Replay × W → Replay × W
  serve_requests [] s = s
  serve_requests (e ∷ es) s = serve_requests es (dpop_middleware j max_skew next e.0 e.1 s).1

  verified-cache :
      (q : HttpRequest) (v : Result (Unit {0}) × Replay) (w : W)
      → (verified j max_skew next q v w).1.0 ≡ v.1
  verified-cache q (err x, cache) w = refl
  verified-cache q (ok u, cache) w = refl

  dpop_middleware-cache :
      (q : HttpRequest) (now : ℕ) (s : Replay × W)
      → (dpop_middleware j max_skew next q now s).1.0 ≡ (
          if is_health_check q || is_empty q.dpop
          then s.0
          else (verify_dpop j max_skew (dpop_request q now) s.0).1)
  unfolding dpop_middleware
  dpop_middleware-cache q now s = elim (Bool-cases (is_health_check q)) [
    | inl a ↦ rw a refl
    | inr a ↦ elim (Bool-cases (is_empty q.dpop)) [
      | inl b ↦ rw (a, b) refl
      | inr b ↦ rw (a, b) (verified-cache q (verify_dpop j max_skew (dpop_request q now) s.0) s.1)
    ]
  ]

  serve_requests-cache :
      (es : List (HttpRequest × ℕ)) (s : Replay × W)
      → (serve_requests es s).0 ≡ verify_requests j max_skew (seen_requests es) s.0
  unfolding serve_requests verify_requests
  serve_requests-cache [] s = refl
  serve_requests-cache (e ∷ es) s =
      let now = dpop_middleware-cache e.0 e.1 s in
      let rest = serve_requests-cache es (dpop_middleware j max_skew next e.0 e.1 s).1 in
      elim (Bool-cases (is_health_check e.0 || is_empty e.0.dpop)) [
        | inl a ↦
            let kept : (dpop_middleware j max_skew next e.0 e.1 s).1.0 ≡ s.0 = now ∙ rw a refl in
            rest ∙ ap (verify_requests j max_skew (seen_requests es)) kept ∙ rw a refl
        | inr a ↦
            let checked : (dpop_middleware j max_skew next e.0 e.1 s).1.0
                ≡ (verify_dpop j max_skew (dpop_request e.0 e.1) s.0).1 =
              now ∙ rw a refl in
            rest ∙ ap (verify_requests j max_skew (seen_requests es)) checked ∙ rw a refl
      ]

  verified_err :
      (q : HttpRequest) (v : Result (Unit {0}) × Replay) (w : W)
      → v.0 ≢ ok tt
      → ((verified j max_skew next q v w).0.status ≡ 401)
        × ((verified j max_skew next q v w).1.1 ≡ w)
  verified_err q (err x, cache) w h = (refl, refl)
  verified_err q (ok u, cache) w h = absurd (h refl)

  refused :
      (q : HttpRequest) (now : ℕ) (s : Replay × W)
      → is_health_check q ≡ false
      → (verify_dpop j max_skew (dpop_request q now) s.0).0 ≢ ok tt
      → ((dpop_middleware j max_skew next q now s).0.status ≡ 401)
        × ((dpop_middleware j max_skew next q now s).1.1 ≡ s.1)
  unfolding dpop_middleware
  refused q now s a h = elim (Bool-cases (is_empty q.dpop)) [
    | inl b ↦ rw (a, b) (refl, refl)
    | inr b ↦ rw (a, b) (verified_err q (verify_dpop j max_skew (dpop_request q now) s.0) s.1 h)
  ]

  All-seen_requests :
      (limit : ℕ) (es : List (HttpRequest × ℕ))
      → All (λ (e : HttpRequest × ℕ). e.1 ≤ limit) es
      → All (λ (d : DpopRequest). d.now ≤ limit) (seen_requests es)
  All-seen_requests limit [] h = tt
  All-seen_requests limit (e ∷ es) h =
      elim (Bool-cases (is_health_check e.0 || is_empty e.0.dpop)) [
        | inl a ↦ rw a (All-seen_requests limit es h.1)
        | inr a ↦ rw a (h.0, All-seen_requests limit es h.1)
      ]

  -- A proof opens the server once: where a request has been let through with a proof, after any other requests whose
  -- clock is not later than that of the repetition by more than the skew, a request with the same proof
  -- that is no health check gets status 401, and the application behind does not run.
  pub proof_once :
      (first again : HttpRequest) (now later : ℕ) (between : List (HttpRequest × ℕ))
      (s : Replay × W)
      → is_health_check first ≡ false
      → is_health_check again ≡ false
      → is_empty first.dpop ≡ false
      → again.dpop ≡ first.dpop
      → (verify_dpop j max_skew (dpop_request first now) s.0).0 ≡ ok tt
      → All (λ (e : HttpRequest × ℕ). e.1 ≤ later + dpop_skew max_skew) between
      → (let t = serve_requests between (dpop_middleware j max_skew next first now s).1 in
          ((dpop_middleware j max_skew next again later t).0.status ≡ 401)
          × ((dpop_middleware j max_skew next again later t).1.1 ≡ t.1))
  proof_once first again now later between s f g e same h b =
      let s' = (dpop_middleware j max_skew next first now s).1 in
      let t = serve_requests between s' in
      let begun : s'.0 ≡ (verify_dpop j max_skew (dpop_request first now) s.0).1 =
        dpop_middleware-cache first now s ∙ rw (f, e) refl in
      let cache =
        serve_requests-cache between s'
        ∙ ap (verify_requests j max_skew (seen_requests between)) begun in
      let replayed =
        token_once j max_skew (dpop_request first now) (dpop_request again later)
          (seen_requests between) s.0 same h (All-seen_requests _ between b) in
      refused again later t g (λ r.
        replayed
          (ap (λ c. (verify_dpop j max_skew (dpop_request again later) c).0) (sym cache) ∙ r))
