-- ===== src/Replay.antt =====
-- The cache of seen proofs that crypto.go and dpop.go keep: a map from a key to the time at which the
-- proof says it was made. Clock readings and allowed skews are nanoseconds; a proof's time is counted in
-- units of `unit` nanoseconds.
pub mod Laws
pub mod Once
use ubi_quic_e_xtreme_zero_t.Prelude.{
  ltb, leb, if◌then◌else◌, any_where, filter_where, teq, Text, replayed, Result, ok, err, ℤ,
  pos_part, neg_part, ℕ, ◌+◌, ◌*◌, Bool, not, ◌||◌, List, [], ◌∷◌, ◌++◌,
}

abbrev pub Replay : Type 0
Replay = List (Text × ℤ)

-- now.Sub(at) > skew
abbrev pub is_past : ℕ → ℤ → ℕ → ℕ → Bool
is_past unit at skew now = ltb (pos_part at * unit + skew) (now + neg_part at * unit)

-- now.Sub(at) < -skew
abbrev pub is_future : ℕ → ℤ → ℕ → ℕ → Bool
is_future unit at skew now = ltb (now + skew + neg_part at * unit) (pos_part at * unit)

abbrev pub is_fresh : ℕ → ℤ → ℕ → ℕ → Bool
is_fresh unit at skew now = not (is_future unit at skew now || is_past unit at skew now)

-- at < cutoff, where the cutoff is now - 2 * skew rounded down to the unit: at + 1 is at most that.
abbrev pub is_stale : ℕ → ℕ → ℕ → Text × ℤ → Bool
is_stale unit skew now e = leb (pos_part e.1 * unit + unit + 2 * skew) (now + neg_part e.1 * unit)

unfoldable pub purge : ℕ → ℕ → ℕ → Replay → Replay
purge unit skew now r = filter_where (λ e. not (is_stale unit skew now e)) r

abbrev pub has_key : Text → Text × ℤ → Bool
has_key key e = teq e.0 key

-- The purge of the old entries, the test of the key, and its entry.
unfoldable pub remember : ℕ → ℕ → ℕ → Text → ℤ → Replay → Result (Unit {0}) × Replay
unfolding purge
remember unit skew now key at r =
    let kept = purge unit skew now r in
    if any_where (has_key key) kept then (err replayed, kept) else (ok tt, kept ++ (key, at) ∷ [])
