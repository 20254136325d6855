-- ===== src/Tests/Dpop.antt =====
-- A DPoP token for a request, and an instance of the theorem on it.
use ubi_quic_e_xtreme_zero_t.Prelude.{
  teq, text, binding_mismatch, ok, err, pos, ℕ, ◌+◌, ◌*◌, ◌≡◌, refl, ◌≢◌, true, false, some, [],
  ◌∷◌, ◌++◌, arith,
}
use ubi_quic_e_xtreme_zero_t.Replay.{remember, purge}
use ubi_quic_e_xtreme_zero_t.Dpop.{
  Jwk, Claims, Jose, DpopRequest, second, check_dpop, verify_dpop, fold_case, dpop_skew,
}
use ubi_quic_e_xtreme_zero_t.Envelope.{is_empty}
use ubi_quic_e_xtreme_zero_t.Server.{no_body}
use ubi_quic_e_xtreme_zero_t.Command.{
  HttpRequest, HttpHandler, is_health_check, dpop_request, dpop_middleware, access_of,
  has_prefix_folded, trim_space, trim_left, trim_right,
}
use ubi_quic_e_xtreme_zero_t.Command.Guarding.{serve_requests, proof_once}
use ubi_quic_e_xtreme_zero_t.Dpop.Once.{verify_requests, token_once}

abbrev jwk : Jwk
jwk = record { key = text "k"; is_valid = true; is_public = true; marshalled = ok (text "{}") }

abbrev claims : Claims
claims = record {
  jti = text "1";
  htm = text "post";
  htu = text "https://ubiq/events";
  iat = pos 100;
  ath = [];
}

-- Every token has the same claims.
abbrev jose : Jose
jose = record {
  parse_signed = λ t. ok (record { jwk = some jwk; typ = some (text "DPoP+jwt") } ∷ []);
  verify_payload = λ t k. ok t;
  claims_of = λ t. ok claims;
  sha256_base64 = λ t. text "h";
}

-- The same for tokens that are bound to an access token.
abbrev keyed : Jose
keyed = record jose { claims_of = λ t. ok (record claims { ath = text "h" }) }

abbrev at : ℕ → DpopRequest
at s = record {
  token = text "t";
  method = text "POST";
  target = text "https://ubiq/events";
  access_token = [];
  now = s * second;
}

-- One line to unfold in a test of the verifier.
runs : ℕ
unfolding verify_dpop verify_requests check_dpop fold_case dpop_skew teq remember purge
runs = 0

accepted : (verify_dpop jose (pos 0) (at 101) []).0 ≡ ok tt
unfolding runs
accepted = refl

bound_test :
    (verify_dpop jose (pos 0) (record (at 101) { method = text "PUT" }) []).0 ≡ err binding_mismatch
unfolding runs
bound_test = refl

kelvin_test : fold_case (text "Ma" ++ 226 ∷ 132 ∷ 170 ∷ text "E") ≡ text "make"
unfolding runs
kelvin_test = refl

token_once_example :
    (verify_dpop jose
      (pos 0)
      (at 120)
      (verify_requests jose (pos 0) (at 110 ∷ []) (verify_dpop jose (pos 0) (at 101) []).1)).0
    ≢ ok tt
token_once_example =
    token_once jose (pos 0) (at 101) (at 120) (at 110 ∷ []) [] refl accepted (ground arith, tt)

-- The application behind the middleware counts the requests.
abbrev counted : HttpHandler ℕ
counted q n = (record { status = 200; body = no_body }, n + 1)

abbrev events_request : HttpRequest
events_request = record {
  method = text "POST";
  host = text "ubiq";
  path = text "/events";
  dpop = text "t";
  authorization = text "Bearer abc";
}

abbrev health_request : HttpRequest
health_request = record events_request { method = text "GET"; path = text "/healthz"; dpop = [] }

token_taken : access_of (text "Bearer  abc ") ≡ text "abc"
unfolding access_of has_prefix_folded trim_space trim_left trim_right is_empty
token_taken = refl

proof_accepted :
    (verify_dpop keyed (pos 0) (dpop_request events_request (101 * second)) []).0 ≡ ok tt
unfolding runs access_of
proof_accepted = refl

not_health : is_health_check events_request ≡ false
unfolding teq
not_health = refl

with_proof : is_empty events_request.dpop ≡ false
unfolding is_empty
with_proof = refl

proof_once_example :
    (let begun = (dpop_middleware keyed (pos 0) counted events_request (101 * second) ([], 0)).1 in
      let t = serve_requests keyed (pos 0) counted ((health_request, 110 * second) ∷ []) begun in
      ((dpop_middleware keyed (pos 0) counted events_request (120 * second) t).0.status ≡ 401)
      × ((dpop_middleware keyed (pos 0) counted events_request (120 * second) t).1.1 ≡ t.1))
proof_once_example =
    proof_once keyed (pos 0) counted events_request events_request (101 * second) (120 * second)
      ((health_request, 110 * second) ∷ []) ([], 0) not_health not_health with_proof refl
      proof_accepted (ground arith, tt)
