-- ===== src/Replay/Laws.antt =====
-- The cache of seen proofs keeps an entry for as long as its proof can be fresh.
use ubi_quic_e_xtreme_zero_t.Prelude.{
  Bool-cases, any_where, filter_where, teq, Text, teq_refl, replayed, ok, err, ℤ, eqz, eqz_iff, ℕ,
  ◌+◌, ◌≤◌, ◌≡◌, refl, inl, inr, Bool, true, false, not, ◌&&◌, [], ◌∷◌, arith,
}
use ubi_quic_e_xtreme_zero_t.Prelude.Tables.{any_where-append}
use ubi_quic_e_xtreme_zero_t.Replay.{Replay, is_fresh, is_stale, purge, has_key, remember}

-- The entry of one proof.
abbrev pub is_entry : Text → ℤ → Text × ℤ → Bool
is_entry key at e = teq e.0 key && eqz e.1 at

-- An entry that is fresh at one reading of the clock is not stale at any reading up to one skew later.
pub not_stale :
    (unit skew now later : ℕ) (e : Text × ℤ)
    → is_fresh unit e.1 skew later ≡ true
    → now ≤ later + skew
    → 1 ≤ unit
    → is_stale unit skew now e ≡ false
not_stale unit skew now later e h k u = ground arith

any_where-filter_where :
    (p q : Text × ℤ → Bool) (r : Replay)
    → ((e : Text × ℤ) → p e ≡ true → q e ≡ true)
    → any_where p r ≡ true
    → any_where p (filter_where q r) ≡ true
any_where-filter_where p q [] h k = k
any_where-filter_where p q (e ∷ es) h k = elim (Bool-cases (p e)) [
  | inl s ↦ rw (h e s, s) refl
  | inr s ↦ ground (arith, any_where-filter_where p q es h)
]

-- While an entry is not stale, the purge keeps it.
any_where-purge :
    (unit skew now : ℕ) (key : Text) (at : ℤ) (r : Replay)
    → is_stale unit skew now (key, at) ≡ false
    → any_where (is_entry key at) r ≡ true
    → any_where (is_entry key at) (purge unit skew now r) ≡ true
unfolding purge
any_where-purge unit skew now key at r s h =
    any_where-filter_where (is_entry key at) (λ e. not (is_stale unit skew now e)) r
      (λ e q. ground (arith, eqz_iff e.1 at, s)) h

pub any_where-remember :
    (unit skew now : ℕ) (key : Text) (at : ℤ) (other : Text) (made : ℤ) (r : Replay)
    → is_stale unit skew now (key, at) ≡ false
    → any_where (is_entry key at) r ≡ true
    → any_where (is_entry key at) (remember unit skew now other made r).1 ≡ true
unfolding remember
any_where-remember unit skew now key at other made r s h =
    let kept = any_where-purge unit skew now key at r s h in
    elim (Bool-cases (any_where (has_key other) (purge unit skew now r))) [
      | inl q ↦ rw q kept
      | inr q ↦
          rw
            (
              q,
              any_where-append (is_entry key at) (purge unit skew now r) ((other, made) ∷ []),
              kept,
            )
            refl
    ]

-- A key that is remembered has its entry.
pub remember_entry :
    (unit skew now : ℕ) (key : Text) (at : ℤ) (r : Replay)
    → (remember unit skew now key at r).0 ≡ ok tt
    → any_where (is_entry key at) (remember unit skew now key at r).1 ≡ true
unfolding remember
remember_entry unit skew now key at r h =
    elim (Bool-cases (any_where (has_key key) (purge unit skew now r))) [
      | inl q ↦ absurd (ground arith)
      | inr q ↦
          rw (q, any_where-append (is_entry key at) (purge unit skew now r) ((key, at) ∷ []))
            (ground (arith, teq_refl key, eqz_iff at at))
    ]

any_where_key :
    (key : Text) (at : ℤ) (r : Replay)
    → any_where (is_entry key at) r ≡ true
    → any_where (has_key key) r ≡ true
any_where_key key at [] h = h
any_where_key key at (e ∷ es) h = ground (arith, any_where_key key at es)

-- A key whose entry is not stale is refused.
pub remember_refused :
    (unit skew now : ℕ) (key : Text) (at : ℤ) (made : ℤ) (r : Replay)
    → is_stale unit skew now (key, at) ≡ false
    → any_where (is_entry key at) r ≡ true
    → (remember unit skew now key made r).0 ≡ err replayed
unfolding remember
remember_refused unit skew now key at made r s h =
    rw (any_where_key key at (purge unit skew now r) (any_where-purge unit skew now key at r s h))
      refl
