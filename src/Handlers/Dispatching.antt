-- ===== src/Handlers/Dispatching.antt =====
-- What dispatch calls, after any subscriptions and closes.
use ubi_quic_e_xtreme_zero_t.Prelude.{
  if◌then◌else◌, Bool-cases, teq, Text, text, Result, ok, err, ◌≡◌, refl, ap, ◌∙◌, inl, inr, Option,
  none, some, List, [], ◌∷◌, ◌++◌,
}
use ubi_quic_e_xtreme_zero_t.Envelope.{Envelope}
use ubi_quic_e_xtreme_zero_t.Secure.{Handler}
use ubi_quic_e_xtreme_zero_t.Handlers.{
  new_table, slots_of, selected, call_slots, dispatch, call_until_error, dispatch_until_error,
  next_unless,
}
use ubi_quic_e_xtreme_zero_t.Handlers.Refinement.{
  Entry, TableOp, entries_after, run_table, slots_for, slot_of, Shows-run, Shows-empty,
}

abbrev handler_list : {H : Type 0} → Option H → List H → List H
handler_list none hs = hs
handler_list (some h) hs = h ∷ hs

-- The handlers of the open subscriptions to an event, the oldest first.
abbrev pub open_handlers : {H : Type 0} → Text → List (Entry H) → List H
open_handlers event [] = []
open_handlers event (e ∷ es) =
    if teq e.event event
    then handler_list (if e.open_still then e.handler else none) (open_handlers event es)
    else open_handlers event es

-- The handlers that an envelope is for.
abbrev pub audience : {H : Type 0} → Text → List (Entry H) → List H
audience event es = open_handlers event es ++ open_handlers (text "*") es

module _ {W : Type 0} where
  abbrev pub call_each : List (Handler W) → Envelope → W → W
  call_each [] env w = w
  call_each (h ∷ hs) env w = call_each hs env (h env w).1

  abbrev pub call_in_turn : List (Handler W) → Envelope → W → Result (Unit {0}) × W
  call_in_turn [] env w = (ok tt, w)
  call_in_turn (h ∷ hs) env w = next_unless (h env w) (call_in_turn hs env)

  abbrev present : List (Option (Handler W)) → List (Handler W)
  present [] = []
  present (h ∷ hs) = handler_list h (present hs)

  call_slots_lem :
      (hs : List (Option (Handler W))) (env : Envelope) (w : W)
      → call_slots hs env w ≡ call_each (present hs) env w
  unfolding call_slots
  call_slots_lem [] env w = refl
  call_slots_lem (none ∷ hs) env w = call_slots_lem hs env w
  call_slots_lem (some h ∷ hs) env w = call_slots_lem hs env (h env w).1

  next_unless_cong :
      (r : Result (Unit {0}) × W) (k l : W → Result (Unit {0}) × W)
      → ((w : W) → k w ≡ l w)
      → next_unless r k ≡ next_unless r l
  next_unless_cong (err x, w) k l h = refl
  next_unless_cong (ok u, w) k l h = h w

  call_until_error_lem :
      (hs : List (Option (Handler W))) (env : Envelope) (w : W)
      → call_until_error hs env w ≡ call_in_turn (present hs) env w
  unfolding call_until_error
  call_until_error_lem [] env w = refl
  call_until_error_lem (none ∷ hs) env w = call_until_error_lem hs env w
  call_until_error_lem (some h ∷ hs) env w =
      next_unless_cong (h env w) _ _ (λ v. call_until_error_lem hs env v)

  present-append :
      (xs ys : List (Option (Handler W))) → present (xs ++ ys) ≡ present xs ++ present ys
  present-append [] ys = refl
  present-append (none ∷ xs) ys = present-append xs ys
  present-append (some h ∷ xs) ys = ap (λ v. h ∷ v) (present-append xs ys)

  present-slots_for :
      (event : Text) (es : List (Entry (Handler W)))
      → present (slots_for event es) ≡ open_handlers event es
  present-slots_for event [] = refl
  present-slots_for event (e ∷ es) = elim (Bool-cases (teq e.event event)) [
    | inl q ↦ rw q (ap (handler_list (slot_of e)) (present-slots_for event es))
    | inr q ↦ rw q (present-slots_for event es)
  ]

  selected_lem :
      (event : Text) (os : List (TableOp (Handler W)))
      → present (selected event (run_table new_table os).slots)
        ≡ audience event (entries_after [] os)
  unfolding selected
  selected_lem event os =
      let shown = Shows-run os new_table [] Shows-empty in
      let es = entries_after [] os in
      let part : (e : Text)
          → present (slots_of e (run_table new_table os).slots) ≡ open_handlers e es =
        λ e. ap present (shown.slots e) ∙ present-slots_for e es in
      present-append (slots_of event _) (slots_of (text "*") _)
      ∙ ap (λ v. v ++ present (slots_of (text "*") (run_table new_table os).slots)) (part event)
      ∙ ap (λ v. open_handlers event es ++ v) (part (text "*"))

  -- After any subscriptions and closes, also closes that are repeated, dispatch calls the handlers of the
  -- subscriptions that are still open: those to the event of the envelope in the order in which they
  -- were made, and then those to every event. TCP and QUIC call them all, whatever they return; gRPC stops
  -- at the first that fails and returns its error.
  pub dispatch-run :
      (os : List (TableOp (Handler W))) (env : Envelope) (w : W)
      → (dispatch (run_table new_table os).slots env w
          ≡ call_each (audience env.event (entries_after [] os)) env w)
        × (dispatch_until_error (run_table new_table os).slots env w
            ≡ call_in_turn (audience env.event (entries_after [] os)) env w)
  unfolding dispatch dispatch_until_error
  dispatch-run os env w =
      let chosen = selected_lem env.event os in
      (
        call_slots_lem _ env w ∙ ap (λ hs. call_each hs env w) chosen,
        call_until_error_lem _ env w ∙ ap (λ hs. call_in_turn hs env w) chosen,
      )
