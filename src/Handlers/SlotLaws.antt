-- ===== src/Handlers/SlotLaws.antt =====
-- The map of the handlers read at one event.
use ubi_quic_e_xtreme_zero_t.Prelude.{
  if◌then◌else◌, Bool-cases, length, teq, Text, teq_iff, teq_refl, ℕ, zero, suc, ◌<◌, ◌≡◌, refl, ap,
  inl, inr, false, Option, List, [], ◌∷◌, ◌++◌, arith,
}
use ubi_quic_e_xtreme_zero_t.Handlers.{Slots, slots_of, put_slots, clear_slot}

module _ {H : Type 0} where
  pub slots_of-put_same :
      (event : Text) (hs : List (Option H)) (slots : Slots H)
      → slots_of event (put_slots event hs slots) ≡ hs
  unfolding slots_of put_slots
  slots_of-put_same event hs [] = rw (teq_refl event) refl
  slots_of-put_same event hs (e ∷ es) = elim (Bool-cases (teq e.0 event)) [
    | inl q ↦ rw (q, teq_refl event) refl
    | inr q ↦ rw (q, q) (slots_of-put_same event hs es)
  ]

  pub slots_of-put_other :
      (event other : Text) (hs : List (Option H)) (slots : Slots H)
      → teq event other ≡ false
      → slots_of other (put_slots event hs slots) ≡ slots_of other slots
  unfolding slots_of put_slots
  slots_of-put_other event other hs [] d = rw d refl
  slots_of-put_other event other hs (e ∷ es) d = elim (Bool-cases (teq e.0 event)) [
    | inl q ↦
        let e_other : teq e.0 other ≡ false = rw ((teq_iff e.0 event).0 q) d in
        rw (q, d, e_other) refl
    | inr q ↦
        rw q (ap (λ v. if teq e.0 other then e.1 else v) (slots_of-put_other event other hs es d))
  ]

  pub clear_slot-append :
      (idx : ℕ) (hs ks : List (Option H))
      → idx < length hs
      → clear_slot idx (hs ++ ks) ≡ clear_slot idx hs ++ ks
  unfolding clear_slot
  clear_slot-append idx [] ks h = absurd (omega (arith, h))
  clear_slot-append zero (x ∷ hs) ks h = refl
  clear_slot-append (suc idx) (x ∷ hs) ks h =
      ap (λ v. x ∷ v) (clear_slot-append idx hs ks (omega (arith, h)))
