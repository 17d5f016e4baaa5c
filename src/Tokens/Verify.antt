-- ===== src/Tokens/Verify.antt =====
-- internal/tokens/tokens.go: the two-layer verification that a resource runs.
pub mod Layers
pub mod Chain
pub mod Minted
pub mod Replay
use signet_ps.Base.{
  if◌then◌else◌, ℤ, pos, ◌-ℤ◌, ltb_ℤ, wrap64, Text, codes, text_eq, text_ne, Result, ok, err, ◌>>=◌,
  ◌>>◌, fail_if, or_fail, wrap_err, Bool, true, false, not, ◌||◌, Option, [], ◌∷◌, ◌++◌,
}
use signet_ps.Std.Decimal.{show_int}
use signet_ps.Std.Strings.{equal_fold}
use signet_ps.Env.{Env}
use signet_ps.Attest.{PersonServerAuthorization, AgentGrant}
use signet_ps.Attest.Verify as AttestVerify
use signet_ps.Attest.Verify.{Error, unix, verify_psa, verify_agent_grant}
use signet_ps.Tokens.{AuthClaims, thumbprint}
use signet_ps.Tokens.Jwt.{JwtError, JwksResolver, parse_and_check_sig}
use signet_ps.Tokens.Jwt.Claims.{JwtHeader}

-- `AttestationResolver`; `none` is an error
pub record AttestationResolver : Type 0 where
  pub psa : Text → Option PersonServerAuthorization
  pub agent_grant : Text → Text → Option AgentGrant

-- `ReplayCache.SeenJTI`, which tests and records, on a cache of type `R`
abbrev pub ReplayCache : Type 0 → Type 0
ReplayCache R = R → Text → ℤ → Bool × R

pub data VerifyError : Type 0 where
  jwt : JwtError → VerifyError
  aud_mismatch expired_or_overlong cnf_mismatch jti_replay : VerifyError
  psa_unresolved issuer_key_unresolved grant_unresolved sub_not_root : VerifyError
  attestation : AttestVerify.Error → VerifyError

-- `now` is what the clock of the token layer reads, in nanoseconds; the chain has its own.
pub record Verifier (R : Type 0) : Type 0 where
  pub keys : JwksResolver
  pub attest : AttestationResolver
  pub chain : AttestVerify.Verifier
  pub replay : ReplayCache R
  pub now : ℤ

unfoldable pub caip_eq : Env → Text → Text → Bool
caip_eq env = equal_fold env.unicode_fold

-- an overflow of `claims.Exp - claims.Iat` wraps around
unfoldable pub is_stale : ℤ → AuthClaims → Bool
is_stale now c = not (ltb_ℤ now c.exp) || ltb_ℤ (pos 86400) (wrap64 (c.exp -ℤ c.iat))

module _ (env : Env) {R : Type 0} where
  check_parsed :
      Verifier R
      → Text
      → Text
      → JwtHeader × AuthClaims
      → Result VerifyError (JwtHeader × AuthClaims)
  unfolding is_stale
  check_parsed v aud request_sig_key_thumb (hdr, claims) = do
    fail_if (text_ne claims.aud aud) aud_mismatch
    fail_if (is_stale (unix v.now) claims) expired_or_overlong
    fail_if (text_ne (thumbprint env claims.cnf) request_sig_key_thumb) cnf_mismatch
    ok (hdr, claims)

  -- the checks of Layer 1 before the replay cache
  unfoldable pub check_claims :
      Verifier R → Text → Text → Text → Result VerifyError (JwtHeader × AuthClaims)
  unfolding check_parsed
  check_claims v raw aud request_sig_key_thumb = do
    parsed ← wrap_err jwt (parse_and_check_sig env v.keys raw (codes "auth+jwt"))
    check_parsed v aud request_sig_key_thumb parsed

  spend : Bool × R → JwtHeader × AuthClaims → Result VerifyError (JwtHeader × AuthClaims) × R
  spend (true, cache) hc = (err jti_replay, cache)
  spend (false, cache) hc = (ok hc, cache)

  spend_checked :
      Verifier R
      → R
      → Result VerifyError (JwtHeader × AuthClaims)
      → Result VerifyError (JwtHeader × AuthClaims) × R
  unfolding spend
  spend_checked v cache (err e) = (err e, cache)
  spend_checked v cache (ok (hdr, claims)) =
      spend (v.replay cache claims.jti claims.exp) (hdr, claims)

  unfoldable pub verify_layer1 :
      Verifier R → R → Text → Text → Text → Result VerifyError (JwtHeader × AuthClaims) × R
  unfolding spend_checked
  verify_layer1 v cache raw aud request_sig_key_thumb =
      spend_checked v cache (check_claims v raw aud request_sig_key_thumb)

  -- Layer 2, run if the token carries a `psa` claim
  unfoldable pub verify_layer2 : Verifier R → JwtHeader × AuthClaims → Result VerifyError AuthClaims
  verify_layer2 v (hdr, claims) = if text_eq claims.psa [] then ok claims else do
    psa ← or_fail (v.attest.psa claims.psa) psa_unresolved
    jwk ← or_fail (v.keys claims.iss hdr.kid) issuer_key_unresolved
    wrap_err attestation (verify_psa env v.chain psa claims.iss (thumbprint env jwk))
    fail_if
        (not (
          caip_eq env (codes "eip155:" ++ (show_int psa.registry_chain ++ b':' ∷ psa.root))
            claims.sub))
        sub_not_root
    grant ← or_fail (v.attest.agent_grant claims.iss claims.ag_s256) grant_unresolved
    wrap_err attestation
        (verify_agent_grant env v.chain grant psa.root claims.agent (thumbprint env claims.cnf))
    ok claims

  after_layer1 :
      Verifier R
      → Result VerifyError (JwtHeader × AuthClaims) × R
      → Result VerifyError AuthClaims × R
  after_layer1 v (r, cache) = (r >>= verify_layer2 v, cache)

  unfoldable pub verify : Verifier R → R → Text → Text → Text → Result VerifyError AuthClaims × R
  unfolding after_layer1
  verify v cache raw aud request_sig_key_thumb =
      after_layer1 v (verify_layer1 v cache raw aud request_sig_key_thumb)

  vanilla : Result VerifyError (JwtHeader × AuthClaims) × R → Result VerifyError AuthClaims × R
  vanilla (r, cache) = ((r >>= λ (hdr, claims). ok claims), cache)

  unfoldable pub verify_vanilla :
      Verifier R → R → Text → Text → Text → Result VerifyError AuthClaims × R
  unfolding vanilla
  verify_vanilla v cache raw aud request_sig_key_thumb =
      vanilla (verify_layer1 v cache raw aud request_sig_key_thumb)
