-- ===== src/Dpop.antt =====
-- dpop.go: the verifier of DPoP proofs. The JOSE library, SHA-256 and base64 are a parameter; times of a
-- proof are seconds.
pub mod Once
use ubi_quic_e_xtreme_zero_t.Prelude.{
  leb, ◌==◌, if◌then◌else◌, teq, Text, text, binding_mismatch, not_fresh, incomplete_claims,
  invalid_typ, invalid_jwk, signature_count, ath_mismatch, Result, ok, err, ℤ, pos, negsuc, eqz, ℕ,
  zero, suc, ◌+◌, Bool, true, not, ◌&&◌, ◌||◌, Option, none, some, List, [], ◌∷◌, ◌++◌,
}
use ubi_quic_e_xtreme_zero_t.Prelude.Results.{◌>>=◌, ◌>>◌, demand}
use ubi_quic_e_xtreme_zero_t.Replay.{Replay, is_past, is_future, remember}

-- An embedded key, with what the library says of it and the JSON it marshals to.
pub record Jwk : Type 0 where
  pub key : Text
  pub is_valid : Bool
  pub is_public : Bool
  pub marshalled : Result Text

pub record JwsHeader : Type 0 where
  pub jwk : Option Jwk
  pub typ : Option Text

pub record Claims : Type 0 where
  pub jti : Text
  pub htm : Text
  pub htu : Text
  pub iat : ℤ
  pub ath : Text

-- go-jose, and what the verifier does to the bytes it gives: a parsed token is the list of the headers of its
-- signatures, with the function that verifies it under a key.
pub record Jose : Type 0 where
  pub parse_signed : Text → Result (List JwsHeader)
  pub verify_payload : Text → Text → Result Text
  pub claims_of : Text → Result Claims
  pub sha256_base64 : Text → Text

abbrev pub second : ℕ
second = 1000000000

-- MaxSkew, in nanoseconds: five minutes for one that is not positive.
unfoldable pub dpop_skew : ℤ → ℕ
dpop_skew (pos zero) = 300000000000
dpop_skew (pos (suc n)) = suc n
dpop_skew (negsuc n) = 300000000000

abbrev lower : ℕ → ℕ
lower b = if leb 65 b && leb b 90 then b + 32 else b

-- The letters of strings.EqualFold against ASCII: the upper case ones, the long s (U+017F) and the sign of
-- the kelvin (U+212A).
abbrev join_folded : ℕ → Text → Text
join_folded a [] = lower a ∷ []
join_folded a (b ∷ []) = if a == 197 && b == 191 then 115 ∷ [] else lower a ∷ b ∷ []
join_folded a (b ∷ c ∷ rest) =
    if a == 197 && b == 191
    then 115 ∷ c ∷ rest
    else if a == 226 && (b == 132 && c == 170)
    then 107 ∷ rest
    else lower a ∷ b ∷ c ∷ rest

unfoldable pub fold_case : Text → Text
fold_case [] = []
fold_case (a ∷ rest) = join_folded a (fold_case rest)

abbrev equal_fold : Text → Text → Bool
equal_fold s t = teq (fold_case s) (fold_case t)

abbrev pub only_header : List JwsHeader → Result JwsHeader
only_header [] = err signature_count
only_header (h ∷ []) = ok h
only_header (h ∷ i ∷ hs) = err signature_count

abbrev pub public_key : Option Jwk → Result Jwk
public_key none = err invalid_jwk
public_key (some k) = if k.is_valid && k.is_public then ok k else err invalid_jwk

abbrev typ_allowed : Option Text → Bool
typ_allowed none = true
typ_allowed (some t) = equal_fold t (text "dpop+jwt")

abbrev is_complete : Claims → Bool
is_complete c = not (teq c.jti [] || (teq c.htm [] || (teq c.htu [] || eqz c.iat (pos 0))))

-- A request, with the reading of the clock.
pub record DpopRequest : Type 0 where
  pub token : Text
  pub method : Text
  pub target : Text
  pub access_token : Text
  pub now : ℕ

module _ (j : Jose) (max_skew : ℤ) where
  abbrev is_current : ℤ → ℕ → Bool
  is_current iat now =
      not (
        is_past second iat (dpop_skew max_skew) now
        || is_future second iat (dpop_skew max_skew) now)

  abbrev ath_allowed : Claims → Text → Bool
  ath_allowed c access_token = teq access_token [] || teq c.ath (j.sha256_base64 access_token)

  -- What Verify tests before it takes the lock: the key and the time that it looks up.
  unfoldable pub check_dpop : DpopRequest → Result (Text × ℤ)
  unfolding dpop_skew fold_case
  check_dpop q = do
    headers ← j.parse_signed q.token
    header ← only_header headers
    key ← public_key header.jwk
    demand (typ_allowed header.typ) invalid_typ
    payload ← j.verify_payload q.token key.key
    c ← j.claims_of payload
    demand (is_complete c) incomplete_claims
    demand (equal_fold c.htm q.method && teq c.htu q.target) binding_mismatch
    demand (is_current c.iat q.now) not_fresh
    demand (ath_allowed c q.access_token) ath_mismatch
    raw ← key.marshalled
    ok (j.sha256_base64 raw ++ (text ":" ++ c.jti), c.iat)

  abbrev looked_up : ℕ → Result (Text × ℤ) → Replay → Result (Unit {0}) × Replay
  looked_up now (err x) r = (err x, r)
  looked_up now (ok e) r = remember second (dpop_skew max_skew) now e.0 e.1 r

  -- Verify
  unfoldable pub verify_dpop : DpopRequest → Replay → Result (Unit {0}) × Replay
  unfolding check_dpop
  verify_dpop q r = looked_up q.now (check_dpop q) r
