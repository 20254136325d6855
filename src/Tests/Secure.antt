-- ===== src/Tests/Secure.antt =====
-- A subscriber that trusts Alice, and an instance of each theorem on secure delivery.
use ubi_quic_e_xtreme_zero_t.Prelude.{
  any_where, text, handler_error, ok, err, pos, ℕ, ◌+◌, ◌≡◌, refl, ◌≢◌, ◌⊎◌, inl, inr, false, some,
  [], ◌∷◌, arith,
}
use ubi_quic_e_xtreme_zero_t.Envelope.{Envelope, MessageSecurity}
use ubi_quic_e_xtreme_zero_t.Replay.{purge, has_key}
use ubi_quic_e_xtreme_zero_t.Crypto.{public_bundle}
use ubi_quic_e_xtreme_zero_t.Crypto.Pop.{milli, replay_key}
use ubi_quic_e_xtreme_zero_t.Secure.{
  TrustStore, Handler, Receiver, resolve, target_of, secured, receive,
}
use ubi_quic_e_xtreme_zero_t.Secure.Delivery.{IsAuthentic, receive_cases, receive_all, handled_once}
use ubi_quic_e_xtreme_zero_t.Secure.RoundTrip.{publish_received}
use ubi_quic_e_xtreme_zero_t.Tests.{first_event}
use ubi_quic_e_xtreme_zero_t.Tests.Crypto.{toy, toy-IsSound, alice, alice_made, alice_proof, runs}

abbrev store : TrustStore
store = public_bundle toy alice ∷ []

-- Counts the envelopes, and fails on each.
abbrev failing : Handler ℕ
failing env n = (err handler_error, n + 1)

abbrev fresh : Receiver ℕ
fresh = record { cache = []; app = 0 }

abbrev minute : ℕ
minute = 60000000000

abbrev security_of_alice : MessageSecurity
security_of_alice = record { key_id = text "alice"; proof = alice_proof }

abbrev sent : Envelope
sent = record first_event { security = some security_of_alice }

abbrev after_first : Receiver ℕ
after_first = record { cache = (text "alice:0b", pos 5) ∷ []; app = 1 }

first_received :
    (receive toy store (text "memory") minute failing sent 5000000 fresh).1 ≡ after_first
unfolding runs receive resolve target_of
first_received = refl

sent_by_alice : secured toy alice (text "memory") first_event (ok (11 ∷ [])) 5400000 ≡ ok sent
unfolding runs secured target_of
sent_by_alice = refl

alice_known : resolve (text "alice") store ≡ some (public_bundle toy alice)
unfolding runs resolve
alice_known = refl

authentic : IsAuthentic toy store (text "memory") minute failing sent 5000000 []
unfolding runs receive resolve target_of
authentic = elim (receive_cases toy store (text "memory") minute failing sent 5000000 fresh) [
  | inl a ↦ a.0
  | inr r ↦ absurd (ground (arith, r.2))
]

receive_cases_example :
    (IsAuthentic toy store (text "memory") minute failing sent 5000000 []
      × ((receive toy store (text "memory") minute failing sent 5000000 fresh).0
          ≡ err handler_error)
      × ((receive toy store (text "memory") minute failing sent 5000000 fresh).1.app ≡ 1))
    ⊎ ((¬ IsAuthentic toy store (text "memory") minute failing sent 5000000 [])
        × ((receive toy store (text "memory") minute failing sent 5000000 fresh).0 ≢ ok tt)
        × ((receive toy store (text "memory") minute failing sent 5000000 fresh).1.app ≡ 0))
receive_cases_example = receive_cases toy store (text "memory") minute failing sent 5000000 fresh

no_calls :
    receive_all toy store
      (text "memory")
      minute
      failing
      []
      (receive toy store (text "memory") minute failing sent 5000000 fresh).1
    ≡ after_first
unfolding receive_all
no_calls = first_received

handled_once_example :
    ((receive toy store (text "memory") minute failing sent 9000000 after_first).0 ≢ ok tt)
    × ((receive toy store (text "memory") minute failing sent 9000000 after_first).1.app ≡ 1)
handled_once_example =
    handled_once toy store (text "memory") minute failing sent sent 5000000 9000000 [] fresh
      after_first security_of_alice security_of_alice refl refl refl refl authentic tt no_calls

unseen :
    (m : MessageSecurity)
    → sent.security ≡ some m
    → any_where (has_key (replay_key m.proof)) (purge milli minute 5000000 []) ≡ false
unfolding runs
unseen m e = refl

publish_received_example :
    ((receive toy store (text "memory") minute failing sent 5000000 fresh).0 ≡ err handler_error)
    × ((receive toy store (text "memory") minute failing sent 5000000 fresh).1.app ≡ 1)
publish_received_example =
    publish_received toy toy-IsSound store (text "memory") minute failing (text "alice")
      (ok (1 ∷ [])) (ok (2 ∷ [])) (ok (3 ∷ [])) (ok (4 ∷ [])) alice first_event sent (ok (11 ∷ []))
      5400000 5000000 fresh alice_made sent_by_alice alice_known (ground arith) (ground arith)
      unseen
