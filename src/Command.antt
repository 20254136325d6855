-- ===== src/Command.antt =====
-- cmd/ubiqd/main.go: the middleware that asks for a proof of possession with each HTTP request, the readings of the
-- environment and of the trust file. Texts of headers and of the environment are ASCII.
pub mod Guarding
use ubi_quic_e_xtreme_zero_t.Prelude.{
  leb, ◌==◌, if◌then◌else◌, drop, any_where, teq, Text, text, proof_required, Result, ok, err, ℤ, ℕ,
  ◌+◌, Bool, true, false, ◌&&◌, ◌||◌, List, [], ◌∷◌, ◌++◌,
}
use ubi_quic_e_xtreme_zero_t.Envelope.{is_empty}
use ubi_quic_e_xtreme_zero_t.Crypto.{PublicBundle}
use ubi_quic_e_xtreme_zero_t.Replay.{Replay}
use ubi_quic_e_xtreme_zero_t.Dpop.{Jose, DpopRequest, verify_dpop}
use ubi_quic_e_xtreme_zero_t.Secure.{TrustStore, trust}
use ubi_quic_e_xtreme_zero_t.Server.{Reply, failed}

pub record HttpRequest : Type 0 where
  pub method : Text
  pub host : Text
  pub path : Text
  pub dpop : Text
  pub authorization : Text

abbrev lower_byte : ℕ → ℕ
lower_byte c = if leb b'A' c && leb c b'Z' then c + 32 else c

-- strings.HasPrefix(strings.ToLower(s), p)
unfoldable pub has_prefix_folded : Text → Text → Bool
has_prefix_folded [] s = true
has_prefix_folded (p ∷ ps) [] = false
has_prefix_folded (p ∷ ps) (c ∷ cs) = lower_byte c == p && has_prefix_folded ps cs

abbrev is_space : ℕ → Bool
is_space c = c == 32 || (leb 9 c && leb c 13)

unfoldable pub trim_left : Text → Text
trim_left [] = []
trim_left (c ∷ cs) = if is_space c then trim_left cs else c ∷ cs

unfoldable pub trim_right : Text → Text
trim_right [] = []
trim_right (c ∷ cs) =
    let rest = trim_right cs in if is_space c && is_empty rest then [] else c ∷ rest

-- strings.TrimSpace
unfoldable pub trim_space : Text → Text
unfolding trim_left trim_right
trim_space s = trim_right (trim_left s)

-- The access token of the header Authorization.
unfoldable pub access_of : Text → Text
unfolding has_prefix_folded trim_space
access_of auth = if has_prefix_folded (text "bearer ") auth then trim_space (drop 7 auth) else []

abbrev pub is_health_check : HttpRequest → Bool
is_health_check q = teq q.method (text "GET") && teq q.path (text "/healthz")

abbrev pub dpop_request : HttpRequest → ℕ → DpopRequest
dpop_request q now = record {
  token = q.dpop;
  method = q.method;
  target = text "https://" ++ (q.host ++ q.path);
  access_token = access_of q.authorization;
  now = now;
}

-- A handler behind the middleware, over the state of the application.
abbrev pub HttpHandler : Type 0 → Type 0
HttpHandler W = HttpRequest → W → Reply × W

abbrev unauthorized : Reply
unauthorized = failed 401 proof_required

module _ (j : Jose) (max_skew : ℤ) {W : Type 0} (next : HttpHandler W) where
  abbrev pass : HttpRequest → Replay → W → Reply × (Replay × W)
  pass q cache w = let r = next q w in (r.0, (cache, r.1))

  abbrev pub verified : HttpRequest → Result (Unit {0}) × Replay → W → Reply × (Replay × W)
  verified q (err x, cache) w = (failed 401 x, (cache, w))
  verified q (ok u, cache) w = pass q cache w

  -- dpopMiddleware
  unfoldable pub dpop_middleware : HttpRequest → ℕ → Replay × W → Reply × (Replay × W)
  unfolding verify_dpop access_of is_empty teq
  dpop_middleware q now s =
      if is_health_check q
      then pass q s.0 s.1
      else if is_empty q.dpop
      then (unauthorized, s)
      else verified q (verify_dpop j max_skew (dpop_request q now) s.0) s.1

-- strings.Split(v, ",")
unfoldable pub split_commas : Text → List Text
split_commas [] = [] ∷ []
split_commas (c ∷ cs) = begin_with c (split_commas cs)
  where
    begin_with : ℕ → List Text → List Text
    begin_with c [] = []
    begin_with c (p ∷ ps) = if c == b',' then [] ∷ p ∷ ps else (c ∷ p) ∷ ps

abbrev trimmed_parts : List Text → List Text
trimmed_parts [] = []
trimmed_parts (p ∷ ps) =
    let rest = trimmed_parts ps in if is_empty (trim_space p) then rest else trim_space p ∷ rest

-- csvEnv, of the variable's value.
unfoldable pub csv_env : Text → List Text
unfolding split_commas trim_space is_empty
csv_env v = if is_empty (trim_space v) then [] else trimmed_parts (split_commas (trim_space v))

-- envDefault
unfoldable pub env_default : Text → Text → Text
unfolding is_empty
env_default v d = if is_empty v then d else v

-- envBool, with what strconv.ParseBool accepts.
abbrev truths : List Text
truths = text "1" ∷ text "t" ∷ text "T" ∷ text "true" ∷ text "TRUE" ∷ text "True" ∷ []

abbrev falsehoods : List Text
falsehoods = text "0" ∷ text "f" ∷ text "F" ∷ text "false" ∷ text "FALSE" ∷ text "False" ∷ []

unfoldable pub env_bool : Text → Bool → Bool
unfolding is_empty teq
env_bool v d =
    if is_empty v
    then d
    else if any_where (teq v) truths
    then true
    else if any_where (teq v) falsehoods
    then false
    else d

abbrev trust_each : List PublicBundle → TrustStore → TrustStore
trust_each [] store = store
trust_each (p ∷ ps) store = trust_each ps (trust p store)

-- loadTrust, of the bundles that the file's JSON holds.
unfoldable pub load_trust : Result (List PublicBundle) → TrustStore → Result (Unit {0}) × TrustStore
unfolding trust
load_trust (err x) store = (err x, store)
load_trust (ok peers) store = (ok tt, trust_each peers store)
