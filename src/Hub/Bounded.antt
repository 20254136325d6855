-- ===== src/Hub/Bounded.antt =====
-- server.go: what an observer of the hub gets.
use ubi_quic_e_xtreme_zero_t.Prelude.{
  ltb, Bool-cases, length, All, take, drop, find_where, any_where, filter_where, length-append,
  All-append, All-filter_where, take_zero, ℕ, zero, suc, ◌+◌, ◌≤◌, ◌≡◌, refl, sym, ap, ◌∙◌, inl,
  inr, true, false, not, Option, none, some, List, [], ◌∷◌, ◌++◌, arith,
}
use ubi_quic_e_xtreme_zero_t.Prelude.Tables.{All-update_where, find_where-append}
use mathlib.Core.List.{append-nil, append_assoc}
use ubi_quic_e_xtreme_zero_t.Envelope.{Envelope}
use ubi_quic_e_xtreme_zero_t.Hub.{
  Channel, Hub, new_hub, channel_is, subscribe_hub, unsubscribe_hub, offer, offer_each, publish_hub,
  without_first, receive_hub,
}

pub data HubOp : Type 0 where
  observes : ℕ → HubOp
  leaves : ℕ → HubOp
  sends : Envelope → HubOp
  takes : ℕ → HubOp

abbrev pub step_hub : Hub → HubOp → Hub
step_hub h (observes buffer) = (subscribe_hub buffer h).1
step_hub h (leaves id) = unsubscribe_hub id h
step_hub h (sends env) = publish_hub env h
step_hub h (takes id) = (receive_hub id h).1

unfoldable pub run_hub : Hub → List HubOp → Hub
run_hub h [] = h
run_hub h (o ∷ os) = run_hub (step_hub h o) os

abbrev pub Fitting : Channel → Type 0
Fitting c = length c.queue ≤ c.buffer

offer-Fitting : (env : Envelope) (c : Channel) → Fitting c → Fitting (offer env c)
offer-Fitting env c h = elim (Bool-cases (ltb (length c.queue) c.buffer)) [
  | inl e ↦ rw e (ground (arith, e, length-append c.queue (env ∷ [])))
  | inr e ↦ rw e h
]

All-offer_each :
    (env : Envelope) (cs : List Channel) → All Fitting cs → All Fitting (offer_each env cs)
All-offer_each env [] h = tt
All-offer_each env (c ∷ cs) h = (offer-Fitting env c h.0, All-offer_each env cs h.1)

length-drop : {A : Type 0} (xs : List A) → length (drop 1 xs) ≤ length xs
length-drop [] = omega arith
length-drop (x ∷ []) = omega arith
length-drop (x ∷ y ∷ xs) = omega arith

step_hub-Fitting : (o : HubOp) (h : Hub) → All Fitting h.subs → All Fitting (step_hub h o).subs
unfolding subscribe_hub unsubscribe_hub publish_hub receive_hub
step_hub-Fitting (observes buffer) h f =
    All-append Fitting _ _ (All-filter_where Fitting _ h.subs f) (omega arith, tt)
step_hub-Fitting (leaves id) h f = All-filter_where Fitting _ h.subs f
step_hub-Fitting (sends env) h f = All-offer_each env h.subs f
step_hub-Fitting (takes id) h f =
    All-update_where Fitting (channel_is id) without_first h.subs
      (λ c e fits. omega (arith, fits, length-drop c.queue)) f

run_hub-Fitting : (h : Hub) (os : List HubOp) → All Fitting h.subs → All Fitting (run_hub h os).subs
unfolding run_hub
run_hub-Fitting h [] f = f
run_hub-Fitting h (o ∷ os) f = run_hub-Fitting (step_hub h o) os (step_hub-Fitting o h f)

any_where-filter_not :
    (id : ℕ) (cs : List Channel)
    → any_where (channel_is id) (filter_where (λ c. not (channel_is id c)) cs) ≡ false
any_where-filter_not id [] = refl
any_where-filter_not id (c ∷ cs) = elim (Bool-cases (channel_is id c)) [
  | inl e ↦ rw e (any_where-filter_not id cs)
  | inr e ↦ rw (e, e) (any_where-filter_not id cs)
]

abbrev offer_to : Envelope → Option Channel → Option Channel
offer_to env none = none
offer_to env (some c) = some (offer env c)

offer-channel_is :
    (id : ℕ) (env : Envelope) (c : Channel) → channel_is id (offer env c) ≡ channel_is id c
offer-channel_is id env c = elim (Bool-cases (ltb (length c.queue) c.buffer)) [
  | inl e ↦ rw e refl
  | inr e ↦ rw e refl
]

find_where-offer_each :
    (id : ℕ) (env : Envelope) (cs : List Channel)
    → find_where (channel_is id) (offer_each env cs) ≡ offer_to env (find_where (channel_is id) cs)
find_where-offer_each id env [] = refl
find_where-offer_each id env (c ∷ cs) = elim (Bool-cases (channel_is id c)) [
  | inl e ↦ rw (offer-channel_is id env c, e) refl
  | inr e ↦ rw (offer-channel_is id env c, e) (find_where-offer_each id env cs)
]

abbrev pub publish_each : List Envelope → Hub → Hub
publish_each [] h = h
publish_each (env ∷ envs) h = publish_each envs (publish_hub env h)

-- What waits for the observer of an id.
abbrev pub waiting : ℕ → Hub → Option (List Envelope)
waiting id h = elim (find_where (channel_is id) h.subs) [ none ↦ none | some c ↦ some c.queue ]

abbrev offered : List Envelope → Channel → Channel
offered [] c = c
offered (env ∷ envs) c = offered envs (offer env c)

find_where-publish_each :
    (id : ℕ) (envs : List Envelope) (h : Hub) (c : Channel)
    → find_where (channel_is id) h.subs ≡ some c
    → find_where (channel_is id) (publish_each envs h).subs ≡ some (offered envs c)
unfolding publish_hub
find_where-publish_each id [] h c e = e
find_where-publish_each id (env ∷ envs) h c e =
    find_where-publish_each id envs (publish_hub env h) (offer env c)
      (find_where-offer_each id env h.subs ∙ ap (offer_to env) e)

offered-queue :
    (room : ℕ) (envs : List Envelope) (c : Channel)
    → c.buffer ≡ length c.queue + room
    → (offered envs c).queue ≡ c.queue ++ take room envs
offered-queue room [] c e = sym (append-nil c.queue)
offered-queue zero (env ∷ envs) c e =
    let full : ltb (length c.queue) c.buffer ≡ false = ground (arith, e) in
    rw (offered, full) (offered-queue zero envs c e ∙ ap (λ v. c.queue ++ v) (take_zero envs))
offered-queue (suc room) (env ∷ envs) c e =
    let free : ltb (length c.queue) c.buffer ≡ true = ground (arith, e) in
    rw (offered, free)
      (offered-queue room envs (record c { queue = c.queue ++ env ∷ [] })
          (omega (arith, e, length-append c.queue (env ∷ [])))
        ∙ append_assoc c.queue (env ∷ []) (take room envs))

-- From a new hub, whatever observers come and go, take and are sent, no channel ever holds more events than its
-- buffer. An observer that subscribes then, and takes nothing while some events are published, finds
-- the first of them, in order, as many as its buffer holds; the others are lost to it.
pub run_hub-observed :
    (os : List HubOp) (buffer : ℕ) (envs : List Envelope)
    → All Fitting (run_hub new_hub os).subs
      × (let s = subscribe_hub buffer (run_hub new_hub os) in
          waiting s.0 (publish_each envs s.1) ≡ some (take buffer envs))
unfolding subscribe_hub
run_hub-observed os buffer envs =
    let h = run_hub new_hub os in
    let c : Channel = record { id = h.next_id; buffer = buffer; queue = [] } in
    let mine : channel_is h.next_id c ≡ true = ground arith in
    let found : find_where (channel_is h.next_id) (subscribe_hub buffer h).1.subs ≡ some c =
      find_where-append (channel_is h.next_id) _ c (any_where-filter_not h.next_id h.subs) mine in
    (
      run_hub-Fitting new_hub os tt,
      ap (λ o. elim o [ none ↦ none | some d ↦ some d.queue ])
            (find_where-publish_each h.next_id envs (subscribe_hub buffer h).1 c found)
          ∙ ap some (offered-queue buffer envs c (omega arith)),
    )
