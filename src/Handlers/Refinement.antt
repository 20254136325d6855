-- ===== src/Handlers/Refinement.antt =====
-- The table of handlers against the plain list of its subscriptions.
use ubi_quic_e_xtreme_zero_t.Prelude.{
  if◌then◌else◌, Bool-cases, length, nth, update_nth, count_where, length-append, teq, Text,
  teq_iff, teq_refl, ℕ, zero, suc, ◌+◌, ◌-◌, ◌≡◌, refl, sym, ap, ◌∙◌, subst, inl, inr, Bool, true,
  false, not, Option, none, some, List, [], ◌∷◌, ◌++◌, arith,
}
use mathlib.Core.List.{append-nil, append_assoc}
use ubi_quic_e_xtreme_zero_t.Handlers.{
  Slots, Subscription, Table, new_table, slots_of, put_slots, clear_slot, add_handler, mark_closed,
  close_subscription, close_found,
}
use ubi_quic_e_xtreme_zero_t.Handlers.SlotLaws.{slots_of-put_same, slots_of-put_other}

pub data TableOp (H : Type 0) : Type 0 where
  opens : Text → Option H → TableOp H
  closes : ℕ → TableOp H

-- A subscription as its subscriber sees it.
pub record Entry (H : Type 0) : Type 0 where
  pub event : Text
  pub handler : Option H
  pub open_still : Bool

abbrev seen_of : Text → List Text → ℕ
seen_of event seen = count_where (λ t. teq t event) seen

module _ {H : Type 0} where
  abbrev shut : Entry H → Entry H
  shut e = record e { open_still = false }

  abbrev opened : Text → Option H → Entry H
  opened event h = record { event = event; handler = h; open_still = true }

  abbrev pub subscribed : List (Entry H) → TableOp H → List (Entry H)
  subscribed es (opens event h) = es ++ opened event h ∷ []
  subscribed es (closes k) = update_nth k shut es

  -- The subscriptions after some operations, in the order in which they were made.
  abbrev pub entries_after : List (Entry H) → List (TableOp H) → List (Entry H)
  entries_after es [] = es
  entries_after es (o ∷ os) = entries_after (subscribed es o) os

  abbrev pub step_table : Table H → TableOp H → Table H
  step_table t (opens event h) = add_handler event h t
  step_table t (closes k) = close_subscription k t

  unfoldable pub run_table : Table H → List (TableOp H) → Table H
  run_table t [] = t
  run_table t (o ∷ os) = run_table (step_table t o) os

  abbrev pub slot_of : Entry H → Option H
  slot_of e = if e.open_still then e.handler else none

  -- The slots of one event.
  abbrev pub slots_for : Text → List (Entry H) → List (Option H)
  slots_for event [] = []
  slots_for event (e ∷ es) =
      if teq e.event event then slot_of e ∷ slots_for event es else slots_for event es

  -- The subscriptions that were given out, after those of the events `seen`.
  abbrev given : List Text → List (Entry H) → List Subscription
  given seen [] = []
  given seen (e ∷ es) =
      record { event = e.event; idx = seen_of e.event seen; closed = not e.open_still }
      ∷ given (e.event ∷ seen) es

  pub record Shows (t : Table H) (es : List (Entry H)) : Type 0 where
    pub slots : (event : Text) → slots_of event t.slots ≡ slots_for event es
    pub subscriptions : t.subscriptions ≡ given [] es

  slots_for-append :
      (event : Text) (es fs : List (Entry H))
      → slots_for event (es ++ fs) ≡ slots_for event es ++ slots_for event fs
  slots_for-append event [] fs = refl
  slots_for-append event (e ∷ es) fs = elim (Bool-cases (teq e.event event)) [
    | inl q ↦ rw q (ap (λ v. slot_of e ∷ v) (slots_for-append event es fs))
    | inr q ↦ rw q (slots_for-append event es fs)
  ]

  abbrev numbered : Entry H → ℕ → Subscription
  numbered e n = record { event = e.event; idx = n; closed = not e.open_still }

  given-snoc :
      (seen : List Text) (es : List (Entry H)) (e : Entry H)
      → given seen (es ++ e ∷ [])
        ≡ given seen es ++ numbered e (length (slots_for e.event es) + seen_of e.event seen) ∷ []
  given-snoc seen [] e = ap (λ n. numbered e n ∷ []) (omega arith)
  given-snoc seen (x ∷ es) e =
      ap (λ v. numbered x (seen_of x.event seen) ∷ v)
        (given-snoc (x.event ∷ seen) es e
          ∙ ap (λ n. given (x.event ∷ seen) es ++ numbered e n ∷ []) (ground arith))

  given-shut :
      (seen : List Text) (k : ℕ) (es : List (Entry H))
      → update_nth k mark_closed (given seen es) ≡ given seen (update_nth k shut es)
  given-shut seen k [] = refl
  given-shut seen zero (e ∷ es) = refl
  given-shut seen (suc k) (e ∷ es) =
      ap (λ v. numbered e (seen_of e.event seen) ∷ v) (given-shut (e.event ∷ seen) k es)

  clear_slot-at :
      (xs ys : List (Option H)) (h : Option H) (n : ℕ)
      → length xs ≡ n
      → clear_slot n (xs ++ h ∷ ys) ≡ xs ++ none ∷ ys
  unfolding clear_slot
  clear_slot-at [] ys h zero e = refl
  clear_slot-at [] ys h (suc n) e = absurd (omega (arith, e))
  clear_slot-at (x ∷ xs) ys h zero e = absurd (omega (arith, e))
  clear_slot-at (x ∷ xs) ys h (suc n) e =
      ap (λ v. x ∷ v) (clear_slot-at xs ys h n (omega (arith, e)))

  -- `front` gives the slots of an event that stand before those of the entries still to come.
  abbrev longer : (Text → List (Option H)) → Entry H → Text → List (Option H)
  longer front e event = front event ++ (if teq e.event event then slot_of e ∷ [] else [])

  longer_lem :
      (front : Text → List (Option H)) (e : Entry H) (es : List (Entry H)) (event : Text)
      → front event ++ slots_for event (e ∷ es) ≡ longer front e event ++ slots_for event es
  longer_lem front e es event = elim (Bool-cases (teq e.event event)) [
    | inl q ↦ rw q (sym (append_assoc (front event) (slot_of e ∷ []) (slots_for event es)))
    | inr q ↦ rw q (ap (λ v. v ++ slots_for event es) (sym (append-nil (front event))))
  ]

  length-longer :
      (front : Text → List (Option H)) (e : Entry H) (seen : List Text) (event : Text)
      → length (front event) ≡ seen_of event seen
      → length (longer front e event) ≡ seen_of event (e.event ∷ seen)
  length-longer front e seen event h = elim (Bool-cases (teq e.event event)) [
    | inl q ↦ rw q (omega (arith, h, length-append (front event) (slot_of e ∷ [])))
    | inr q ↦ rw q (omega (arith, h, length-append (front event) []))
  ]

  abbrev with_slot : Entry H → List (Entry H) → Bool → Text → Bool → List (Option H)
  with_slot e es b event t =
      if t then (if b then e.handler else none) ∷ slots_for event es else slots_for event es

  abbrev emptied : Slots H → List Text → Entry H → Slots H
  emptied slots seen e =
      put_slots e.event (clear_slot (seen_of e.event seen) (slots_of e.event slots)) slots

  -- Closing the first of the entries to come.
  close_first :
      (slots : Slots H) (seen : List Text) (front : Text → List (Option H)) (e : Entry H)
      (es : List (Entry H))
      → ((event : Text) → slots_of event slots ≡ front event ++ slots_for event (e ∷ es))
      → ((event : Text) → length (front event) ≡ seen_of event seen)
      → (event : Text)
      → slots_of event (close_found (some (numbered e (seen_of e.event seen))) slots)
        ≡ front event ++ slots_for event (shut e ∷ es)
  close_first slots seen front e es h l event = elim (Bool-cases e.open_still) [
    | inr c ↦ rw c (
        subst
          (λ b. slots_of event slots ≡ front event ++ with_slot e es b event (teq e.event event)) c
          (h event))
    | inl c ↦ elim (Bool-cases (teq e.event event)) [
      | inl q ↦
          rw (c, q)
            (subst (λ v. slots_of v (emptied slots seen e) ≡ front v ++ none ∷ slots_for v es)
              ((teq_iff e.event event).0 q) cleared)
      | inr q ↦ rw (c, q) (slots_of-put_other e.event event _ slots q ∙ found event false q)
    ]
  ]
    where
      found :
          (event : Text) (t : Bool)
          → teq e.event event ≡ t
          → slots_of event slots ≡ front event ++ with_slot e es e.open_still event t
      found event t q =
          subst (λ b. slots_of event slots ≡ front event ++ with_slot e es e.open_still event b) q
            (h event)

      cleared :
          slots_of e.event (emptied slots seen e) ≡ front e.event ++ none ∷ slots_for e.event es
      cleared =
          slots_of-put_same e.event _ slots
          ∙ ap (clear_slot (seen_of e.event seen)) (found e.event true (teq_refl e.event))
          ∙ clear_slot-at (front e.event) (slots_for e.event es) (slot_of e) _ (l e.event)

  close_slots :
      (slots : Slots H) (k : ℕ) (seen : List Text) (front : Text → List (Option H))
      (es : List (Entry H))
      → ((event : Text) → slots_of event slots ≡ front event ++ slots_for event es)
      → ((event : Text) → length (front event) ≡ seen_of event seen)
      → (event : Text)
      → slots_of event (close_found (nth k (given seen es)) slots)
        ≡ front event ++ slots_for event (update_nth k shut es)
  close_slots slots k seen front [] h l event = h event
  close_slots slots zero seen front (e ∷ es) h l event = close_first slots seen front e es h l event
  close_slots slots (suc k) seen front (e ∷ es) h l event =
      close_slots slots k (e.event ∷ seen) (longer front e) es (λ v. h v ∙ longer_lem front e es v)
        (λ v. length-longer front e seen v (l v)) event
      ∙ sym (longer_lem front e (update_nth k shut es) event)

  Shows-closes :
      (t : Table H) (es : List (Entry H)) (k : ℕ)
      → Shows t es
      → Shows (close_subscription k t) (update_nth k shut es)
  unfolding close_subscription
  Shows-closes t es k s = record {
    slots = λ event.
        ap (λ v. slots_of event (close_found (nth k v) t.slots)) s.subscriptions
        ∙ close_slots t.slots k [] (λ v. []) es s.slots (λ v. refl) event;
    subscriptions = ap (update_nth k mark_closed) s.subscriptions ∙ given-shut [] k es;
  }

  opened_slots :
      (t : Table H) (es : List (Entry H)) (event : Text) (h : Option H)
      → Shows t es
      → (other : Text)
      → slots_of other (put_slots event (slots_of event t.slots ++ h ∷ []) t.slots)
        ≡ slots_for other (subscribed es (opens event h))
  opened_slots t es event h s other = elim (Bool-cases (teq event other)) [
    | inl q ↦
        subst
          (λ v.
            slots_of v (put_slots event (slots_of event t.slots ++ h ∷ []) t.slots)
            ≡ slots_for v (subscribed es (opens event h)))
          ((teq_iff event other).0 q)
          (slots_of-put_same event _ t.slots
            ∙ ap (λ v. v ++ h ∷ []) (s.slots event)
            ∙ sym (slots_for-append event es _ ∙ rw (teq_refl event) refl))
    | inr q ↦
        slots_of-put_other event other _ t.slots q
        ∙ s.slots other
        ∙ sym (slots_for-append other es _ ∙ rw q (append-nil (slots_for other es)))
  ]

  Shows-opens :
      (t : Table H) (es : List (Entry H)) (event : Text) (h : Option H)
      → Shows t es
      → Shows (add_handler event h t) (subscribed es (opens event h))
  unfolding add_handler
  Shows-opens t es event h s =
      let idx : length (slots_of event t.slots ++ h ∷ []) - 1
          ≡ length (slots_for event es) + seen_of event [] =
        omega (arith, ap length (s.slots event), length-append (slots_of event t.slots) (h ∷ [])) in
      record {
        slots = opened_slots t es event h s;
        subscriptions =
            ap
              (λ v.
                v ++ numbered (opened event h) (length (slots_of event t.slots ++ h ∷ []) - 1) ∷ [])
              s.subscriptions
            ∙ ap (λ n. given [] es ++ numbered (opened event h) n ∷ []) idx
            ∙ sym (given-snoc [] es (opened event h));
      }

  pub Shows-run :
      (os : List (TableOp H)) (t : Table H) (es : List (Entry H))
      → Shows t es
      → Shows (run_table t os) (entries_after es os)
  unfolding run_table
  Shows-run [] t es s = s
  Shows-run (opens event h ∷ os) t es s =
      Shows-run os (add_handler event h t) (subscribed es (opens event h))
        (Shows-opens t es event h s)
  Shows-run (closes k ∷ os) t es s =
      Shows-run os (close_subscription k t) (update_nth k shut es) (Shows-closes t es k s)

  pub Shows-empty : Shows (new_table {H = H}) []
  unfolding slots_of
  Shows-empty = record { slots = λ event. refl; subscriptions = refl }
