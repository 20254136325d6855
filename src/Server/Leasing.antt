-- ===== src/Server/Leasing.antt =====
-- server.go: the lease that a client asks for in `lease_ms`.
use ubi_quic_e_xtreme_zero_t.Prelude.{
  ltb, Bool-cases, Text, worker_required, err, ℤ, pos, negsuc, ltz, ℕ, ◌-◌, ◌*◌, ◌%◌, ◌^◌, ◌≤◌, ◌<◌,
  ◌≡◌, refl, ap, ◌∙◌, ◌⊎◌, inl, inr, true, false, some, arith,
}
use ubi_quic_e_xtreme_zero_t.Sql.{World}
use ubi_quic_e_xtreme_zero_t.Envelope.{is_empty}
use ubi_quic_e_xtreme_zero_t.Store.Rows.{Db}
use ubi_quic_e_xtreme_zero_t.Store.{milliseconds, claim}
use ubi_quic_e_xtreme_zero_t.Server.{
  State, failed, claim_reply, lease_of, chosen_lease, handle_claim,
}

chosen_lease-lease_of :
    (default_lease : ℤ) (v : ℕ) → 0 < v → chosen_lease default_lease (some (pos v)) ≡ lease_of v
unfolding chosen_lease
chosen_lease-lease_of default_lease v h =
    let above : ltz (pos 0) (pos v) ≡ true = ground (arith, h) in rw above refl

lease_of_small : (v : ℕ) → v * 1000000 < 2 ^ 63 → lease_of v ≡ pos (v * 1000000)
unfolding lease_of
lease_of_small v h =
    let whole : v * 1000000 % 2 ^ 64 ≡ v * 1000000 = omega (arith, h) in
    let low : ltb (v * 1000000) (2 ^ 63) ≡ true = ground (arith, h) in rw (whole, low) refl

lease_of_large :
    (v : ℕ)
    → 2 ^ 63 ≤ v * 1000000
    → v * 1000000 < 2 ^ 64
    → lease_of v ≡ negsuc (2 ^ 64 - 1 - v * 1000000)
unfolding lease_of
lease_of_large v h k =
    let whole : v * 1000000 % 2 ^ 64 ≡ v * 1000000 = omega (arith, k) in
    let high : ltb (v * 1000000) (2 ^ 63) ≡ false = ground (arith, h) in rw (whole, high) refl

claim_negative :
    (worker : Text) (n now : ℕ) (w : World Db)
    → claim worker (negsuc n) now w ≡ (err worker_required, w)
unfolding claim
claim_negative worker n now w =
    let below : ltz (pos 0) (negsuc n) ≡ false = ground arith in
    elim (Bool-cases (is_empty worker)) [ inl e ↦ rw e refl | inr e ↦ rw (e, below) refl ]

-- A number of milliseconds above zero is the lease that the store gets, while its nanoseconds fit in 63 bits. From
-- there to 64 bits, the multiplication wraps to a negative duration: the claim is refused with status
-- 409, though a worker is given and the number is above zero, and no row changes.
pub handle_claim-bounds :
    {N : Type 0} (default_lease : ℤ) (worker : Text) (v now : ℕ) (s : State N)
    → 0 < v
    → v * 1000000 < 2 ^ 64
    → ((v * 1000000 < 2 ^ 63) × (milliseconds (chosen_lease default_lease (some (pos v))) ≡ v))
      ⊎ ((2 ^ 63 ≤ v * 1000000)
          × (handle_claim default_lease worker (some (pos v)) now s
              ≡ (failed 409 worker_required, s)))
unfolding handle_claim milliseconds
handle_claim-bounds default_lease worker v now s h k =
    let given = chosen_lease-lease_of default_lease v h in
    elim (Bool-cases (ltb (v * 1000000) (2 ^ 63))) [
      | inl e ↦
          let small : v * 1000000 < 2 ^ 63 = ground (arith, e) in
          inl (small, ap milliseconds (given ∙ lease_of_small v small) ∙ omega arith)
      | inr e ↦
          let large : 2 ^ 63 ≤ v * 1000000 = ground (arith, e) in
          inr (
            large,
            ap
                  (λ l.
                    let r = claim worker l now s.world in
                    (claim_reply r.0, record s { world = r.1 }))
                  (given ∙ lease_of_large v large k)
                ∙ ap (λ r. (claim_reply r.0, record s { world = r.1 }))
                    (claim_negative worker _ now s.world),
          )
    ]
