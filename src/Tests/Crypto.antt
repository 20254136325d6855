-- ===== src/Tests/Crypto.antt =====
-- Signatures, proofs and sessions with toy primitives, and an instance of each theorem.
use ubi_quic_e_xtreme_zero_t.Prelude.{
  if◌then◌else◌, drop, any_where, teq, Text, text, crypto_error, replayed, ok, err, pos, ℕ, zero,
  suc, ◌+◌, ◌*◌, ◌≡◌, refl, ap, ◌≢◌, ◌↔◌, false, [], ◌∷◌, ◌++◌, arith,
}
use ubi_quic_e_xtreme_zero_t.Json.{json_valid, json_compact}
use ubi_quic_e_xtreme_zero_t.Event.{event_state}
use ubi_quic_e_xtreme_zero_t.Envelope.{
  ProofOfPossession, canonical_bytes, validate, marshal, is_empty,
}
use ubi_quic_e_xtreme_zero_t.Replay.{remember, purge, has_key}
use ubi_quic_e_xtreme_zero_t.Crypto.{
  Scheme, Keys, public_bundle, new_provider, sign, verify_hybrid, digest_hex, hex,
}
use ubi_quic_e_xtreme_zero_t.Crypto.Pop.{milli, new_pop, verify_pop, check_pop, replay_key}
use ubi_quic_e_xtreme_zero_t.Crypto.Acceptance.{IsAcceptable, verify_pop_iff}
use ubi_quic_e_xtreme_zero_t.Crypto.Replaying.{Attempt, verify, verify_all, no_replay}
use ubi_quic_e_xtreme_zero_t.Crypto.RoundTrip.{IsSound}
use ubi_quic_e_xtreme_zero_t.Crypto.Session.{
  Exchange, Secret, SessionOffer, new_secret, use_secret, destroy, establish, accept, seal,
  open_sealed,
}
use ubi_quic_e_xtreme_zero_t.Crypto.Agreement.{IsExchange, session_round_trip}
use ubi_quic_e_xtreme_zero_t.Tests.{first_event}

abbrev zeros : ℕ → Text
zeros zero = []
zeros (suc n) = 0 ∷ zeros n

-- Every node signs with the same word.
abbrev pub toy : Scheme
toy = record {
  ed25519_public = λ k. zeros 32;
  ed25519_sign = λ k m. text "ed";
  ed25519_verify = λ k m sig. teq sig (text "ed");
  mldsa_public = λ k. k;
  mldsa_sign = λ k m context. ok (text "ml");
  mldsa_parse = λ k. ok tt;
  mldsa_verify = λ k m sig context. if teq sig (text "ml") then ok tt else err crypto_error;
  x25519_public = λ k. k;
  mlkem_public = λ k. k;
  sha256 = λ b. 7 ∷ [];
}

pub toy-IsSound : IsSound toy
unfolding teq
toy-IsSound = record {
  ed25519_size = λ k. refl;
  ed25519_verifies = λ k m. refl;
  mldsa_parses = λ k. refl;
  mldsa_verifies = λ k m context sig h. ground arith;
}

abbrev total : Text → ℕ
total [] = 0
total (b ∷ bs) = b + total bs

abbrev toy_exchange : Exchange
toy_exchange = record {
  x25519_parse = λ k. ok tt;
  ecdh = λ a b. ok ((total a + total b) ∷ []);
  mlkem_parse = λ k. ok tt;
  encapsulate = λ k seed. (seed, 9 ∷ seed);
  decapsulate = λ k c. ok (drop 1 c);
  hkdf = λ key info size. ok key;
  aead_parse = λ key. ok tt;
  aead_seal = λ key nonce t aad. t;
  aead_open = λ key nonce t aad. ok t;
}

drop_one : (b : ℕ) (t : Text) → drop 1 (b ∷ t) ≡ t
drop_one b [] = refl
drop_one b (c ∷ t) = refl

toy-IsExchange : IsExchange toy toy_exchange
toy-IsExchange = record {
  x25519_parses = λ k. refl;
  ecdh_agrees = λ a b. ap (λ n. ok (n ∷ [])) (omega arith);
  decapsulates = λ k seed. ap ok (drop_one 9 seed);
  opens = λ key nonce t aad. refl;
}

abbrev pub alice : Keys
alice = record {
  key_id = text "alice";
  ed_public = zeros 32;
  ed_private = 1 ∷ [];
  ml_private = 2 ∷ [];
  x_private = 3 ∷ [];
  kem_private = 4 ∷ [];
}

-- A proof of Alice for the first event, made at 5 ms.
abbrev pub alice_proof : ProofOfPossession
alice_proof = record {
  holder = text "alice";
  created_at_ms = pos 5;
  nonce = text "0b";
  method = text "PUBLISH";
  target = text "ubiq://transport/memory";
  envelope_hash = text "07";
  signature = record { ed25519 = text "ed"; mldsa44 = text "ml" };
}

abbrev at : ℕ → Attempt
at ms = record {
  peer = public_bundle toy alice;
  proof = alice_proof;
  method = text "PUBLISH";
  target = text "ubiq://transport/memory";
  env = first_event;
  now = ms * milli;
}

abbrev minute : ℕ
minute = 60000000000

-- One line to unfold in a test of the proofs.
unfoldable pub runs : ℕ
unfolding verify verify_all verify_pop check_pop remember purge new_pop new_provider public_bundle
    sign verify_hybrid digest_hex hex canonical_bytes validate marshal event_state teq json_valid
    json_compact is_empty new_secret use_secret destroy establish accept seal open_sealed
runs = 0

replayed_test : (verify toy minute (at 6) ((text "alice:0b", pos 5) ∷ [])).0 ≡ err replayed
unfolding runs
replayed_test = refl

accepted : (verify toy minute (at 5) []).0 ≡ ok tt
unfolding runs
accepted = refl

no_replay_example :
    (verify toy minute (at 9) (verify_all toy minute (at 6 ∷ []) (verify toy minute (at 5) []).1)).0
    ≢ ok tt
no_replay_example =
    no_replay toy minute (at 5) (at 9) (at 6 ∷ []) [] refl refl accepted (ground arith, tt)

verify_pop_iff_example :
    ((verify_pop toy
        (public_bundle toy alice)
        alice_proof
        (text "PUBLISH")
        (text "ubiq://transport/memory")
        first_event
        5000000
        minute
        []).0
      ≡ ok tt)
    ↔ (IsAcceptable toy
          (public_bundle toy alice)
          alice_proof
          (text "PUBLISH")
          (text "ubiq://transport/memory")
          first_event
          5000000
          minute
        × (any_where (has_key (replay_key alice_proof)) (purge milli minute 5000000 []) ≡ false))
verify_pop_iff_example =
    verify_pop_iff toy (public_bundle toy alice) alice_proof (text "PUBLISH")
      (text "ubiq://transport/memory") first_event 5000000 minute []

pub alice_made :
    new_provider toy (text "alice") (ok (1 ∷ [])) (ok (2 ∷ [])) (ok (3 ∷ [])) (ok (4 ∷ []))
    ≡ ok alice
unfolding runs
alice_made = refl

proof_made :
    new_pop toy alice
      (text "PUBLISH")
      (text "ubiq://transport/memory")
      first_event
      (ok (11 ∷ []))
      5400000
    ≡ ok alice_proof
unfolding runs
proof_made = refl

nothing_seen : any_where (has_key (replay_key alice_proof)) (purge milli minute 5000000 []) ≡ false
unfolding runs
nothing_seen = refl

abbrev offer : SessionOffer
offer = record { ephemeral_x25519 = 5 ∷ []; mlkem_ciphertext = 9 ∷ 6 ∷ [] }

abbrev shared : Secret
shared = record { backing = 8 ∷ 6 ∷ []; material = 8 ∷ 6 ∷ []; destroyed = false }

established :
    establish toy.x25519_public toy_exchange (public_bundle toy alice) (ok (5 ∷ [])) (6 ∷ [])
    ≡ ok (offer, shared)
unfolding runs
established = refl

sealed :
    seal toy_exchange shared (ok (zeros 24)) (text "secret") [] ≡ ok (zeros 24 ++ text "secret")
unfolding runs
sealed = refl

session_round_trip_example :
    (other : Secret) × (accept toy.x25519_public toy_exchange alice offer ≡ ok other)
    × (open_sealed toy_exchange other (zeros 24 ++ text "secret") [] ≡ ok (text "secret"))
session_round_trip_example =
    session_round_trip toy toy_exchange toy-IsExchange alice (ok (5 ∷ [])) (6 ∷ []) offer shared
      (zeros 24) (text "secret") [] (zeros 24 ++ text "secret") established refl sealed
