-- ===== src/Secure.antt =====
-- secure_transport.go: the trust store, and the transport that signs what it publishes and verifies what
-- it receives. The transport inside is a parameter through its name and its Publish.
pub mod Delivery
pub mod RoundTrip
use ubi_quic_e_xtreme_zero_t.Prelude.{
  find_where, teq, Text, text, unsigned_envelope, untrusted_holder, Result, ok, err, ℤ, pos, negsuc,
  ℕ, zero, suc, Bool, Option, none, some, List, ◌∷◌, ◌++◌,
}
use ubi_quic_e_xtreme_zero_t.Prelude.Results.{◌>>=◌, ◌>>◌}
use ubi_quic_e_xtreme_zero_t.Envelope.{Envelope, MessageSecurity}
use ubi_quic_e_xtreme_zero_t.Replay.{Replay}
use ubi_quic_e_xtreme_zero_t.Crypto.{Scheme, Keys, PublicBundle, public_bundle}
use ubi_quic_e_xtreme_zero_t.Crypto.Pop.{new_pop, verify_pop}

-- StaticTrustStore: the map `peers`, the latest bundle of a key id first.
abbrev pub TrustStore : Type 0
TrustStore = List PublicBundle

abbrev pub has_id : Text → PublicBundle → Bool
has_id id p = teq p.key_id id

unfoldable pub trust : PublicBundle → TrustStore → TrustStore
trust p store = p ∷ store

unfoldable pub resolve : Text → TrustStore → Option PublicBundle
resolve id store = find_where (has_id id) store

-- The freshness that WrapSecureTransport keeps, in nanoseconds: two minutes for one that is not positive.
unfoldable pub kept_freshness : ℤ → ℕ
kept_freshness (pos zero) = 120000000000
kept_freshness (pos (suc n)) = suc n
kept_freshness (negsuc n) = 120000000000

unfoldable pub target_of : Text → Text
target_of name = text "ubiq://transport/" ++ name

abbrev pub publish_method : Text
publish_method = text "PUBLISH"

abbrev pub unsigned : Envelope → Envelope
unsigned env = record env { security = none }

-- What a subscription changes: the replay cache of the provider, and the state of its handler.
pub record Receiver (W : Type 0) : Type 0 where
  pub cache : Replay
  pub app : W

abbrev pub Handler : Type 0 → Type 0
Handler W = Envelope → W → Result (Unit {0}) × W

module _ (s : Scheme) where
  -- What Publish hands to the transport inside.
  unfoldable pub secured : Keys → Text → Envelope → Result Text → ℕ → Result Envelope
  unfolding target_of
  secured k name env random now = do
    proof ← new_pop s k publish_method (target_of name) (unsigned env) random now
    ok (record env {
      security = some (record { key_id = (public_bundle s k).key_id; proof = proof });
    })

  module _ {W : Type 0} (store : TrustStore) (name : Text) (freshness : ℕ) (h : Handler W) where
    abbrev handle : Envelope → W → Replay → Result (Unit {0}) → Result (Unit {0}) × Receiver W
    handle env app cache (err x) = (err x, record { cache = cache; app = app })
    handle env app cache (ok u) =
        let done = h (unsigned env) app in (done.0, record { cache = cache; app = done.1 })

    abbrev verify_from :
        Option PublicBundle
        → MessageSecurity
        → Envelope
        → ℕ
        → Receiver W
        → Result (Unit {0}) × Receiver W
    verify_from none m env now w = (err untrusted_holder, w)
    verify_from (some peer) m env now w =
        let checked =
          verify_pop s peer m.proof publish_method (target_of name) (unsigned env) now freshness
            w.cache in
        handle env w.app checked.1 checked.0

    abbrev receive_as :
        Option MessageSecurity → Envelope → ℕ → Receiver W → Result (Unit {0}) × Receiver W
    receive_as none env now w = (err unsigned_envelope, w)
    receive_as (some m) env now w = verify_from (resolve m.key_id store) m env now w

    -- The function that Subscribe gives to the transport inside.
    unfoldable pub receive : Envelope → ℕ → Receiver W → Result (Unit {0}) × Receiver W
    unfolding resolve target_of
    receive env now w = receive_as env.security env now w
