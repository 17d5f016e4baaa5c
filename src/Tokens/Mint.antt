-- ===== src/Tokens/Mint.antt =====
-- internal/tokens/tokens.go: Mint, which keeps an issuer within the authorization that it holds.
pub mod Envelope
pub mod Times
use signet_ps.Base.{
  if◌then◌else◌, ℤ, pos, ◌+ℤ◌, ◌*ℤ◌, ltb_ℤ, eqb_ℤ, wrap64, Map, Bytes, Text, codes, text_eq,
  contains, Result, ok, ◌>>=◌, ◌>>◌, fail_if, or_fail, Bool, true, false, not, ◌&&◌, ◌||◌, Option,
  none, some, List, [], ◌∷◌, ◌++◌,
}
use signet_ps.Std.Decimal.{show_int, set_string}
use signet_ps.Std.Hex.{hex_encode}
use signet_ps.Env.{elems, Env}
use signet_ps.Attest.{Scope, PersonServerAuthorization, AgentGrant}
use signet_ps.Attest.Content.{psa_json, agent_grant_json, content_hash}
use signet_ps.Attest.Verify.{unix}
use signet_ps.Tokens.{
  Jwk, MissionRef, StepUp, Vouched, AuthClaims, ResourceClaims, IssuerKey, thumbprint, big_or_zero,
}
use signet_ps.Tokens.Jwt.{has_key_size, sign_jwt}

-- `claims` is a Go map; a TTL is a time.Duration, an int64 of nanoseconds.
pub record MintInput : Type 0 where
  pub psa : PersonServerAuthorization
  pub psa_blob_url : Text
  pub grant : AgentGrant
  pub resource : ResourceClaims
  pub agent_id : Text
  pub agent_key : Jwk
  pub mission : Option MissionRef
  pub step_up : Option StepUp
  pub claims : Map Vouched
  pub ttl : ℤ

pub data MintError : Type 0 where
  issuer_key_not_covered claim_not_allowed : MintError
  bad_amount exceeds_cap step_up_required : MintError
  -- not an error that Mint returns: ed25519.Sign panics at a private key of another length than 64
  sign_panics : MintError

abbrev second : ℤ
second = pos 1000000000

abbrev pub hour : ℤ
hour = pos 3600000000000

-- `time.Duration(MaxTokenTTLSeconds) * time.Second`, in int64
unfoldable pub max_ttl : Scope → ℤ
max_ttl s = wrap64 (s.max_token_ttl_seconds *ℤ second)

unfoldable pub clamp_ttl : Scope → ℤ → ℤ
unfolding max_ttl
clamp_ttl s ttl =
    let granted = if ltb_ℤ (max_ttl s) ttl then max_ttl s else ttl in
    if ltb_ℤ hour granted then hour else granted

-- the loop over `in.Claims`
unfoldable pub claims_allowed : List Text → Map Vouched → Bool
claims_allowed allowed [] = true
claims_allowed allowed ((name, v) ∷ m) =
    if contains allowed name then claims_allowed allowed m else false

is_nil : Option StepUp → Bool
is_nil none = true
is_nil (some s) = false

check_amount : Scope → ℤ → Option StepUp → Result MintError (Unit {0})
unfolding is_nil
check_amount s amt su = do
  let cap = big_or_zero s.payment_cap_wei
  fail_if (eqb_ℤ cap (pos 0) || ltb_ℤ cap amt) exceeds_cap
  let threshold = big_or_zero s.step_up_above_wei
  fail_if (ltb_ℤ (pos 0) threshold && ltb_ℤ threshold amt && is_nil su) step_up_required

unfoldable pub check_payment_envelope : Scope → Text → Option StepUp → Result MintError (Unit {0})
unfolding check_amount
check_payment_envelope s amount_wei su =
    if text_eq amount_wei []
    then ok tt
    else do amt ← or_fail (set_string amount_wei) bad_amount; check_amount s amt su

apply_one : AuthClaims → Text × Vouched → AuthClaims
apply_one c (name, v) =
    if text_eq name (codes "name")
    then record c { name = some v }
    else if text_eq name (codes "email")
    then record c { email = some v }
    else if text_eq name (codes "kyc")
    then record c { kyc = some v }
    else c

unfoldable pub apply_vouched : AuthClaims → Map Vouched → AuthClaims
unfolding apply_one
apply_vouched c [] = c
apply_vouched c (nv ∷ m) = apply_vouched (apply_one c nv) m

module _ (env : Env) where
  -- the claims of a token minted at `now`, whose id is made of the 16 bytes `rand`
  unfoldable pub minted_claims : MintInput → ℤ → Bytes → AuthClaims
  unfolding clamp_ttl
  minted_claims inp now rand = record {
    iss = inp.psa.issuer;
    dwk = codes "aauth-issuer.json";
    aud = inp.resource.iss;
    jti = hex_encode rand;
    agent = inp.agent_id;
    cnf = inp.agent_key;
    iat = unix now;
    exp = unix (now +ℤ clamp_ttl inp.psa.scope inp.ttl);
    sub = codes "eip155:" ++ (show_int inp.psa.registry_chain ++ b':' ∷ inp.psa.root);
    mission = inp.mission;
    psa = inp.psa_blob_url ++ (codes "#s256=" ++ content_hash env (psa_json inp.psa));
    ag_s256 = content_hash env (agent_grant_json inp.grant);
    step_up = inp.step_up;
    name = none;
    email = none;
    kyc = none;
  }

  unfoldable pub mint : IssuerKey → MintInput → ℤ → Bytes → Result MintError Text
  unfolding minted_claims has_key_size
  mint key inp now rand = do
    fail_if (not (contains (elems inp.psa.key_thumbprints) (thumbprint env key.pub_jwk)))
        issuer_key_not_covered
    fail_if (not (claims_allowed (elems inp.psa.scope.allowed_claims) inp.claims)) claim_not_allowed
    check_payment_envelope inp.psa.scope inp.resource.amount_wei inp.step_up
    fail_if (not (has_key_size key)) sign_panics
    ok (sign_jwt env key (codes "auth+jwt") (apply_vouched (minted_claims inp now rand) inp.claims))
