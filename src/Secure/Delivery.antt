-- ===== src/Secure/Delivery.antt =====
-- secure_transport.go: what a subscriber's handler is called with.
use ubi_quic_e_xtreme_zero_t.Prelude.{
  Option-cases, All, any_where, All-append, Text, result_cases, ok, ℕ, ◌+◌, ◌≤◌, ◌≡◌, refl, sym, ap,
  ◌∙◌, subst, ◌≢◌, ◌⊎◌, inl, inr, false, none, some, List, [], ◌∷◌, ◌++◌, arith,
}
use ubi_quic_e_xtreme_zero_t.Envelope.{Envelope, MessageSecurity}
use ubi_quic_e_xtreme_zero_t.Replay.{Replay, purge, has_key}
use ubi_quic_e_xtreme_zero_t.Crypto.{Scheme, PublicBundle}
use ubi_quic_e_xtreme_zero_t.Crypto.Pop.{milli, replay_key, verify_pop}
use ubi_quic_e_xtreme_zero_t.Crypto.Acceptance.{IsAcceptable, verify_pop_iff}
use ubi_quic_e_xtreme_zero_t.Crypto.Replaying.{Attempt, verify, verify_all, no_replay}
use ubi_quic_e_xtreme_zero_t.Secure.{
  TrustStore, Handler, Receiver, resolve, target_of, publish_method, unsigned, receive,
}

module _ (s : Scheme) {W : Type 0} (store : TrustStore) (name : Text) (freshness : ℕ)
    (h : Handler W) where
  -- The envelope carries an acceptable proof of a holder whom the store trusts, not seen before.
  abbrev pub IsAuthentic : Envelope → ℕ → Replay → Type 0
  IsAuthentic env now cache =
      (m : MessageSecurity) × (peer : PublicBundle) × (env.security ≡ some m)
      × (resolve m.key_id store ≡ some peer)
      × IsAcceptable s peer m.proof publish_method (target_of name) (unsigned env) now freshness
      × (any_where (has_key (replay_key m.proof)) (purge milli freshness now cache) ≡ false)

  unknown_holder :
      (env : Envelope) (now : ℕ) (cache : Replay) (m : MessageSecurity)
      → env.security ≡ some m
      → resolve m.key_id store ≡ none
      → ¬ IsAuthentic env now cache
  unknown_holder env now cache m e f a =
      let mine : a.0 ≡ m = ground (arith, e, a.2) in
      ground (arith, f, ap (λ v. resolve v.key_id store) mine, a.2)

  -- VerifyPoP accepts the proof of an authentic envelope.
  authentic_accepted :
      (env : Envelope) (now : ℕ) (cache : Replay) (m : MessageSecurity) (peer : PublicBundle)
      → env.security ≡ some m
      → resolve m.key_id store ≡ some peer
      → IsAuthentic env now cache
      → (verify_pop s peer m.proof publish_method
          (target_of name)
          (unsigned env)
          now
          freshness
          cache).0
        ≡ ok tt
  authentic_accepted env now cache m peer e f (n, holder, en, fn, g, k) =
      let mine : n ≡ m = ground (arith, e, en) in
      let its : holder ≡ peer = ground (arith, f, fn, ap (λ v. resolve v.key_id store) mine) in
      rw (← mine, ← its)
        ((verify_pop_iff s holder n.proof publish_method (target_of name) (unsigned env) now
            freshness cache).1
          (g, k))

  -- A subscriber's handler is called, once and with the envelope less its signature, when the envelope
  -- carries an acceptable proof of a trusted holder that the cache does not have, and its result is the
  -- result then; for every other envelope, and for these only, the result is an error and the handler is
  -- not called.
  pub receive_cases :
      (env : Envelope) (now : ℕ) (w : Receiver W)
      → (IsAuthentic env now w.cache
          × ((receive s store name freshness h env now w).0 ≡ (h (unsigned env) w.app).0)
          × ((receive s store name freshness h env now w).1.app ≡ (h (unsigned env) w.app).1))
        ⊎ ((¬ IsAuthentic env now w.cache)
            × ((receive s store name freshness h env now w).0 ≢ ok tt)
            × ((receive s store name freshness h env now w).1.app ≡ w.app))
  unfolding receive
  receive_cases env now w = elim (Option-cases env.security) [
    | inl e ↦ inr ((λ a. ground (arith, e, a.2)), (λ q. ground arith), ground arith)
    | inr (m, e) ↦ elim (Option-cases (resolve m.key_id store)) [
      | inl f ↦
          inr ((λ a. unknown_holder env now w.cache m e f a), (λ q. ground arith), ground arith)
      | inr (peer, f) ↦
          elim (result_cases
            (verify_pop s peer m.proof publish_method (target_of name) (unsigned env) now freshness
              w.cache).0) [
                | inl (u, g) ↦
                    let both =
                      (verify_pop_iff s peer m.proof publish_method (target_of name) (unsigned env)
                          now freshness w.cache).0
                        g in
                    inl ((m, peer, e, f, both.0, both.1), ground arith, ground arith)
                | inr (x, g) ↦ inr (
                  (λ a. ground (arith, g, authentic_accepted env now w.cache m peer e f a)),
                  (λ q. ground arith),
                  ground arith,
                )
              ]
    ]
  ]

  -- The call of VerifyPoP for an envelope of a peer.
  abbrev attempt : PublicBundle → MessageSecurity → Envelope → ℕ → Attempt
  attempt peer m env now = record {
    peer = peer;
    proof = m.proof;
    method = publish_method;
    target = target_of name;
    env = unsigned env;
    now = now;
  }

  -- A subscription's calls, each with an envelope and a reading of the clock.
  unfoldable pub receive_all : List (Envelope × ℕ) → Receiver W → Receiver W
  receive_all [] w = w
  receive_all (d ∷ ds) w = receive_all ds (receive s store name freshness h d.0 d.1 w).1

  abbrev pub ReadBefore : ℕ → List (Envelope × ℕ) → Type 0
  ReadBefore later ds = All (λ d. d.1 ≤ later + freshness) ds

  -- The calls of VerifyPoP that some calls of the subscription make.
  abbrev Verifies : ℕ → Replay → Replay → Type 0
  Verifies later before after =
      (calls : List Attempt) × (verify_all s freshness calls before ≡ after)
      × All (λ a. a.now ≤ later + freshness) calls

  receive-Verifies :
      (later : ℕ) (env : Envelope) (now : ℕ) (w : Receiver W)
      → now ≤ later + freshness
      → Verifies later w.cache (receive s store name freshness h env now w).1.cache
  unfolding receive verify_all verify
  receive-Verifies later env now w b = elim (Option-cases env.security) [
    | inl e ↦ ([], ground arith, tt)
    | inr (m, e) ↦ elim (Option-cases (resolve m.key_id store)) [
      | inl f ↦ ([], ground arith, tt)
      | inr (peer, f) ↦
          elim (result_cases
            (verify_pop s peer m.proof publish_method (target_of name) (unsigned env) now freshness
              w.cache).0) [
                | inl (u, g) ↦ (attempt peer m env now ∷ [], ground arith, (b, tt))
                | inr (x, g) ↦ (attempt peer m env now ∷ [], ground arith, (b, tt))
              ]
    ]
  ]

  verify_all-append :
      (xs ys : List Attempt) (r : Replay)
      → verify_all s freshness (xs ++ ys) r
        ≡ verify_all s freshness ys (verify_all s freshness xs r)
  unfolding verify_all
  verify_all-append [] ys r = refl
  verify_all-append (x ∷ xs) ys r = verify_all-append xs ys (verify s freshness x r).1

  receive_all-Verifies :
      (later : ℕ) (ds : List (Envelope × ℕ)) (w : Receiver W)
      → ReadBefore later ds
      → Verifies later w.cache (receive_all ds w).cache
  unfolding receive_all verify_all
  receive_all-Verifies later [] w b = ([], refl, tt)
  receive_all-Verifies later (d ∷ ds) w b =
      let first = receive-Verifies later d.0 d.1 w b.0 in
      let rest = receive_all-Verifies later ds (receive s store name freshness h d.0 d.1 w).1 b.1 in
      (
        first.0 ++ rest.0,
        verify_all-append first.0 rest.0 w.cache
            ∙ ap (verify_all s freshness rest.0) first.1
            ∙ rest.1,
        All-append (λ a. a.now ≤ later + freshness) first.0 rest.0 first.2 rest.2,
      )

  -- An authentic envelope is verified, and leaves the cache of that call.
  authentic_verified :
      (env : Envelope) (now : ℕ) (w : Receiver W) (a : IsAuthentic env now w.cache)
      → ((verify s freshness (attempt a.1 a.0 env now) w.cache).0 ≡ ok tt)
        × ((receive s store name freshness h env now w).1.cache
            ≡ (verify s freshness (attempt a.1 a.0 env now) w.cache).1)
  unfolding receive verify
  authentic_verified env now w (m, peer, e, f, g, k) =
      let accepted =
        (verify_pop_iff s peer m.proof publish_method (target_of name) (unsigned env) now freshness
            w.cache).1
          (g, k) in
      (accepted, ground (arith, accepted))

  -- After an envelope has been handled, no envelope with a proof of the same holder, nonce and creation time
  -- is handled: neither a copy of it, nor another envelope with its signature, and not after any number
  -- of other envelopes, whatever the handler returned for the first; provided that no reading of the clock in
  -- between was more than the freshness ahead of the last.
  pub handled_once :
      (env again : Envelope) (now later : ℕ) (between : List (Envelope × ℕ))
      (w reached : Receiver W) (m other : MessageSecurity)
      → env.security ≡ some m
      → again.security ≡ some other
      → replay_key other.proof ≡ replay_key m.proof
      → other.proof.created_at_ms ≡ m.proof.created_at_ms
      → IsAuthentic env now w.cache
      → ReadBefore later between
      → receive_all between (receive s store name freshness h env now w).1 ≡ reached
      → ((receive s store name freshness h again later reached).0 ≢ ok tt)
        × ((receive s store name freshness h again later reached).1.app ≡ reached.app)
  handled_once env again now later between w reached m other em eo same_key same_time a b e =
      elim (receive_cases again later reached) [
        | inl (c, _, _) ↦
            let mine : a.0 ≡ m = ground arith in
            let its : c.0 ≡ other = ground arith in
            let made = authentic_verified env now w a in
            let calls =
              receive_all-Verifies later between (receive s store name freshness h env now w).1 b in
            let cache : reached.cache
                ≡ verify_all s freshness calls.0
                    (verify s freshness (attempt a.1 a.0 env now) w.cache).1 =
              ap (λ v. v.cache) (sym e)
              ∙ sym calls.1
              ∙ ap (verify_all s freshness calls.0) made.1 in
            absurd (
              no_replay s freshness (attempt a.1 a.0 env now) (attempt c.1 c.0 again later) calls.0
                w.cache (rw (mine, its) same_key) (rw (mine, its) same_time) made.0 calls.2
                (subst (λ r. (verify s freshness (attempt c.1 c.0 again later) r).0 ≡ ok tt) cache
                  (authentic_verified again later reached c).0))
        | inr (_, refused, kept) ↦ (refused, kept)
      ]
