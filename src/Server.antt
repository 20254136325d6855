-- ===== src/Server.antt =====
-- server.go: the HTTP handlers, the subscriptions to transports and the maintenance loop, over the control store, the
-- registry and the hub. A request is what Decode and the URL give, a reply its status and body. The
-- transports' Publish is a parameter, over the state of the network.
pub mod Ingesting
pub mod Marking
pub mod Ticking
pub mod Leasing
use ubi_quic_e_xtreme_zero_t.Prelude.{
  ltb, if◌then◌else◌, teq, Text, Error, nothing_available, path_mismatch, Result, ok, err, ℤ, pos,
  negsuc, pos_part, ltz, eqz, ℕ, zero, suc, ◌+◌, ◌-◌, ◌*◌, ◌%◌, ◌^◌, Bool, true, false, not, ◌&&◌,
  Option, none, some, [],
}
use ubi_quic_e_xtreme_zero_t.Sql.{World}
use ubi_quic_e_xtreme_zero_t.Envelope.{
  Envelope, Blob, other_bytes, marshal, unmarshal, is_empty, ControlFrame, control_received,
  ClaimedEvent,
}
use ubi_quic_e_xtreme_zero_t.Store.Rows.{Db, OutboxRow}
use ubi_quic_e_xtreme_zero_t.Store.{
  publish, claim, mark_received, settle, requeue_expired, enqueue_outbox, next_outbox,
  mark_outbox_delivered,
}
use ubi_quic_e_xtreme_zero_t.Transport.{IsTransport, Registry, get}
use ubi_quic_e_xtreme_zero_t.Hub.{Hub, publish_hub}

-- The state that the handlers share: the database, the hub, and the network behind the transports.
pub record State (N : Type 0) : Type 0 where
  pub world : World Db
  pub hub : Hub
  pub network : N

pub data Body : Type 0 where
  no_body : Body
  event_body : Envelope → Body
  claim_body : ClaimedEvent → Body
  error_body : Error → Body

pub record Reply : Type 0 where
  pub status : ℕ
  pub body : Body

abbrev no_content : Reply
no_content = record { status = 204; body = no_body }

-- writeError
abbrev pub failed : ℕ → Error → Reply
failed status x = record { status = status; body = error_body x }

-- int64(n) of a number of 64 bits.
abbrev pub wrap_int64 : ℕ → ℤ
wrap_int64 n = if ltb n (2 ^ 63) then pos n else negsuc (2 ^ 64 - 1 - n)

-- time.Duration(v) * time.Millisecond, for v > 0.
unfoldable pub lease_of : ℕ → ℤ
lease_of v = wrap_int64 (v * 1000000 % 2 ^ 64)

-- The lease of handleClaim, from what Sscan makes of `lease_ms`.
unfoldable pub chosen_lease : ℤ → Option ℤ → ℤ
unfolding lease_of
chosen_lease default_lease none = default_lease
chosen_lease default_lease (some v) = if ltz (pos 0) v then lease_of (pos_part v) else default_lease

-- `if frame.AtMS == 0 { frame.AtMS = now }`
abbrev pub dated : ℕ → ControlFrame → ControlFrame
dated now f = record f { at_ms = if eqz f.at_ms (pos 0) then pos now else f.at_ms }

abbrev raw_of : Result Blob → Blob
raw_of (err x) = other_bytes []
raw_of (ok b) = b

abbrev pub publish_reply : Result (Envelope × Bool) → Reply
publish_reply (err x) = failed 502 x
publish_reply (ok (stored, created)) = record {
  status = if created then 202 else 200;
  body = event_body stored;
}

-- The record that ingest leaves for the maintenance loop, a second later.
abbrev pub keep : Envelope → Text → ℕ → World Db → World Db
keep stored name later w =
    (enqueue_outbox stored.id name (raw_of (marshal stored)) (later + 1000) w).1

-- The transport of a request: the one that it names, or DefaultTransport.
abbrev pub transport_of : Text → Text → Text
transport_of default_transport name = if is_empty name then default_transport else name

module _ {T N : Type 0} (impl : IsTransport T N)
    (send : T → Envelope → N → Result (Unit {0}) × N) where
  abbrev pub sent_on :
      Envelope → Text → ℕ → Result (Unit {0}) → State N → Result (Envelope × Bool) × State N
  sent_on stored name later (ok u) s = (ok (stored, true), s)
  sent_on stored name later (err x) s = (err x, record s { world = keep stored name later s.world })

  abbrev pub forward : Envelope → Text → ℕ → Result T → State N → Result (Envelope × Bool) × State N
  forward stored name later (err x) s = (err x, s)
  forward stored name later (ok t) s =
      let r = send t stored s.network in sent_on stored name later r.0 (record s { network = r.1 })

  abbrev pub ingested :
      Registry impl
      → Text
      → ℕ
      → Result (Envelope × Bool)
      → State N
      → Result (Envelope × Bool) × State N
  ingested registry name later (err x) s = (err x, s)
  ingested registry name later (ok (stored, created)) s =
      let shown = record s { hub = publish_hub stored s.hub } in
      if not (is_empty name) && created
      then forward stored name later (get impl name registry) shown
      else (ok (stored, created), shown)

  -- ingest, with the readings of the clock by the store's Publish and for the outbox.
  unfoldable pub ingest :
      Registry impl → Text → Envelope → Text → ℕ → ℕ → State N → Result (Envelope × Bool) × State N
  unfolding is_empty publish publish_hub get enqueue_outbox marshal
  ingest registry default_transport env transport now later s =
      let r = publish env now s.world in
      ingested registry (transport_of default_transport transport) later r.0
        (record s { world = r.1 })

  -- handlePublish, of the event in the path and the body as an envelope.
  unfoldable pub handle_publish :
      Registry impl → Text → Text → Text → Result Envelope → ℕ → ℕ → State N → Reply × State N
  unfolding ingest teq
  handle_publish registry default_transport path_event transport (err x) now later s =
      (failed 400 x, s)
  handle_publish registry default_transport path_event transport (ok env) now later s =
      if teq env.event path_event
      then (let r = ingest registry default_transport env transport now later s in
          (publish_reply r.0, r.1))
      else (failed 400 path_mismatch, s)

  -- The handler that BindTransport subscribes.
  unfoldable pub bound_handler : ℕ → Envelope → State N → Result (Unit {0}) × State N
  unfolding publish publish_hub
  bound_handler now env s =
      let r = publish env now s.world in
      elim r.0 [
        | err x ↦ (err x, record s { world = r.1 })
        | ok e ↦ (ok tt, record s { world = r.1; hub = publish_hub env s.hub })
      ]

  abbrev pub delivered_at : OutboxRow → ℕ → State N → State N
  delivered_at r now s = record s { world = (mark_outbox_delivered r.seq now s.world).1 }

  -- Publish of a record's envelope: whether the loop goes on, which it does only with a record that the
  -- transport took.
  abbrev pub retry : Result T → Envelope → OutboxRow → ℕ → State N → Bool × State N
  retry (err x) env r now s = (false, s)
  retry (ok t) env r now s =
      let p = send t env s.network in
      let after = record s { network = p.1 } in
      elim p.0 [ err x ↦ (false, after) | ok u ↦ (true, delivered_at r now after) ]

  -- One round of the loop over the outbox, on the record that NextOutbox gives.
  abbrev pub attempt_record :
      Registry impl → OutboxRow → Result Envelope → ℕ → State N → Bool × State N
  attempt_record registry r (err x) now s = (true, delivered_at r now s)
  attempt_record registry r (ok env) now s = retry (get impl r.transport registry) env r now s

  abbrev pub outbox_round : Registry impl → Result OutboxRow → ℕ → State N → Bool × State N
  outbox_round registry (err x) now s = (false, s)
  outbox_round registry (ok r) now s = attempt_record registry r (unmarshal r.payload) now s

  unfoldable pub next_round : Registry impl → ℕ → State N → Bool × State N
  unfolding next_outbox mark_outbox_delivered unmarshal get
  next_round registry now s =
      let next = next_outbox now s.world in
      outbox_round registry next.0 now (record s { world = next.1 })

  abbrev pub goes_on : Bool × State N → (State N → State N) → State N
  goes_on (true, s) k = k s
  goes_on (false, s) k = s

  -- The loop of one tick over the outbox, with the rounds that are left.
  unfoldable pub drain_outbox : Registry impl → ℕ → ℕ → State N → State N
  unfolding next_round
  drain_outbox registry zero now s = s
  drain_outbox registry (suc rounds) now s =
      goes_on (next_round registry now s) (drain_outbox registry rounds now)

  -- One tick of RunMaintenance.
  unfoldable pub tick : Registry impl → ℕ → State N → State N
  unfolding requeue_expired drain_outbox
  tick registry now s =
      drain_outbox registry 64 now (record s { world = (requeue_expired now s.world).1 })

abbrev pub claim_reply : Result ClaimedEvent → Reply
claim_reply (err nothing_available) = no_content
claim_reply (err x) = failed 409 x
claim_reply (ok c) = record { status = 200; body = claim_body c }

abbrev pub control_reply : Result (Unit {0}) → Reply
control_reply (err x) = failed 409 x
control_reply (ok u) = no_content

module _ {N : Type 0} where
  -- handleClaim
  unfoldable pub handle_claim : ℤ → Text → Option ℤ → ℕ → State N → Reply × State N
  unfolding claim chosen_lease
  handle_claim default_lease worker lease_ms now s =
      let r = claim worker (chosen_lease default_lease lease_ms) now s.world in
      (claim_reply r.0, record s { world = r.1 })

  -- handleReceived. The frame is dated before the store reads its clock.
  unfoldable pub handle_received : Result ControlFrame → ℕ → ℕ → State N → Reply × State N
  unfolding mark_received
  handle_received (err x) at now s = (failed 400 x, s)
  handle_received (ok f) at now s =
      let r = mark_received (dated at (record f { kind = control_received })) now s.world in
      (control_reply r.0, record s { world = r.1 })

  -- handleSettle
  unfoldable pub handle_settle : Result ControlFrame → ℕ → ℕ → State N → Reply × State N
  unfolding settle
  handle_settle (err x) at now s = (failed 400 x, s)
  handle_settle (ok f) at now s =
      let r = settle (dated at f) now s.world in (control_reply r.0, record s { world = r.1 })
