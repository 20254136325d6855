-- ===== src/Replay/Once.antt =====
-- The argument that crypto.go and dpop.go share: a verifier that remembers what it accepts accepts it once.
use ubi_quic_e_xtreme_zero_t.Prelude.{
  All, any_where, Text, result_cases, replayed, Result, ok, err, ℤ, ℕ, ◌+◌, ◌≤◌, ◌≡◌, subst, inl,
  inr, true, false, List, [], ◌∷◌, arith,
}
use ubi_quic_e_xtreme_zero_t.Replay.{Replay, is_fresh, is_stale, remember}
use ubi_quic_e_xtreme_zero_t.Replay.Laws.{
  is_entry, not_stale, any_where-remember, remember_entry, remember_refused,
}

-- A verifier of requests `A`: the key and the time of a request that passes its tests, and the reading of
-- the clock that a request is verified at. What passes is fresh.
pub record IsVerifier (A : Type 0) (unit skew : ℕ) : Type 0 where
  pub unit_positive : 1 ≤ unit
  pub test : A → Result (Text × ℤ)
  pub now_of : A → ℕ
  pub test_fresh :
      (a : A) (key : Text) (at : ℤ)
      → test a ≡ ok (key, at)
      → is_fresh unit at skew (now_of a) ≡ true

module _ {A : Type 0} {unit skew : ℕ} (v : IsVerifier A unit skew) where
  open v use {unit_positive, test, now_of, test_fresh}

  abbrev pub settle_test : ℕ → Result (Text × ℤ) → Replay → Result (Unit {0}) × Replay
  settle_test now (err x) r = (err x, r)
  settle_test now (ok e) r = remember unit skew now e.0 e.1 r

  -- The tests, and then the cache.
  unfoldable pub admit : A → Replay → Result (Unit {0}) × Replay
  admit a r = settle_test (now_of a) (test a) r

  unfoldable pub admit_all : List A → Replay → Replay
  admit_all [] r = r
  admit_all (a ∷ rest) r = admit_all rest (admit a r).1

  admit_keeps :
      (key : Text) (at : ℤ) (a : A) (r : Replay)
      → is_stale unit skew (now_of a) (key, at) ≡ false
      → any_where (is_entry key at) r ≡ true
      → any_where (is_entry key at) (admit a r).1 ≡ true
  unfolding admit
  admit_keeps key at a r h k = elim (result_cases (test a)) [
    | inl (e, q) ↦ rw q (any_where-remember unit skew (now_of a) key at e.0 e.1 r h k)
    | inr (x, q) ↦ rw q k
  ]

  admit_all_keeps :
      (key : Text) (at : ℤ) (later : ℕ) (calls : List A) (r : Replay)
      → is_fresh unit at skew later ≡ true
      → All (λ a. now_of a ≤ later + skew) calls
      → any_where (is_entry key at) r ≡ true
      → any_where (is_entry key at) (admit_all calls r) ≡ true
  unfolding admit_all
  admit_all_keeps key at later [] r f b k = k
  admit_all_keeps key at later (a ∷ rest) r f b k =
      let still = not_stale unit skew (now_of a) later (key, at) f b.0 unit_positive in
      admit_all_keeps key at later rest (admit a r).1 f b.1 (admit_keeps key at a r still k)

  admitted_entry :
      (a : A) (key : Text) (at : ℤ) (r : Replay)
      → test a ≡ ok (key, at)
      → (admit a r).0 ≡ ok tt
      → any_where (is_entry key at) (admit a r).1 ≡ true
  unfolding admit
  admitted_entry a key at r q h = rw q (
      remember_entry unit skew (now_of a) key at r
        (subst (λ t. (settle_test (now_of a) t r).0 ≡ ok tt) q h))

  -- A request whose key and time have been accepted is refused.
  pub admit_once :
      (first again : A) (between : List A) (key : Text) (at : ℤ) (r : Replay)
      → test first ≡ ok (key, at)
      → test again ≡ ok (key, at)
      → (admit first r).0 ≡ ok tt
      → All (λ a. now_of a ≤ now_of again + skew) between
      → (admit again (admit_all between (admit first r).1)).0 ≡ err replayed
  unfolding admit
  admit_once first again between key at r p q h b =
      let fresh = test_fresh again key at q in
      let kept =
        admit_all_keeps key at (now_of again) between (admit first r).1 fresh b
          (admitted_entry first key at r p h) in
      let still =
        not_stale unit skew (now_of again) (now_of again) (key, at) fresh (omega arith)
          unit_positive in
      rw q (
        remember_refused unit skew (now_of again) key at at (admit_all between (admit first r).1)
          still kept)
