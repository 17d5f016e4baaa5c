-- ===== src/Resd/Handlers.antt =====
-- cmd/resd/main.go: challenge and whoami.
pub mod Challenge
pub mod Asked
pub mod Once
pub mod Anchored
use signet_ps.Base.{
  if◌then◌else◌, ℤ, pos, ◌+ℤ◌, Map, Bytes, Text, codes, text_eq, Result, ok, err, wrap_err, Bool,
  some, List, [], ◌∷◌, ◌++◌,
}
use signet_ps.Std.Hex.{hex_encode}
use signet_ps.Std.Strings.{trim_space}
use signet_ps.Std.Base64.{raw_url_encode}
use signet_ps.Env.{text, obj, end, field, Env}
use signet_ps.Attest.Verify.{unix}
use signet_ps.Tokens.{AuthClaims, ResourceClaims}
use signet_ps.Tokens.Verify.{VerifyError, verify, verify_vanilla, Verifier}
use signet_ps.Server.Helpers.{resource_json}
use signet_ps.Resd.Refs.{bearer}
use signet_ps.Std.Strings.{split}
use signet_ps.Resd.Resolvers.{Web, verifier_at}

pub record Resource : Type 0 where
  pub self : Text
  pub priv : Bytes
  pub require_key_rooted : Bool
  pub amount : Text
  pub scope : List Text

-- what main makes of the flags, with the private key that ed25519.GenerateKey made
unfoldable pub resource_of_flags : Text → Bool → Text → Text → Bytes → Resource
resource_of_flags port require_key_rooted amount scope rpriv = record {
  self = codes "http://localhost:" ++ port;
  priv = rpriv;
  require_key_rooted = require_key_rooted;
  amount = amount;
  scope = split b',' scope;
}

pub data Refusal : Type 0 where
  invalid : VerifyError → Refusal
  not_key_rooted : Refusal

-- the replies of whoami; a welcome names the subject, the agent, the issuer and the chain. The
-- flag, which the replies repeat, is left out.
pub data Answer : Type 0 where
  missing_token : Answer
  forbidden : Refusal → Answer
  welcome : Text → Text → Text → Text → Answer

-- what the resource requires, with an id of 16 random bytes, for five minutes
unfoldable pub required : Resource → ℤ → Bytes → ResourceClaims
required rs now rand = record {
  iss = rs.self;
  jti = hex_encode rand;
  iat = unix now;
  exp = unix (now +ℤ pos 300000000000);
  scope = some rs.scope;
  amount_wei = rs.amount;
}

-- a token without a chain is refused
anchored : Result VerifyError AuthClaims × Map ℤ → Result Refusal AuthClaims × Map ℤ
anchored (err e, seen) = (err (invalid e), seen)
anchored (ok c, seen) = (if text_eq c.psa [] then err not_key_rooted else ok c, seen)

plain : Result VerifyError AuthClaims × Map ℤ → Result Refusal AuthClaims × Map ℤ
plain (r, seen) = (wrap_err invalid r, seen)

chain_of_claims : AuthClaims → Text
chain_of_claims c = if text_eq c.psa [] then codes "vanilla" else codes "verified"

whoami_reply : Result Refusal AuthClaims × Map ℤ → Answer × Map ℤ
unfolding chain_of_claims
whoami_reply (err e, seen) = (forbidden e, seen)
whoami_reply (ok c, seen) = (welcome c.sub c.agent c.iss (chain_of_claims c), seen)

module _ (env : Env) where
  -- the header is a map, whose keys are written in order
  unfoldable pub sign_resource_token : Bytes → ResourceClaims → Text
  sign_resource_token priv claims =
      let hdr = env.marshal (
        obj (
          field (codes "alg") (text (codes "EdDSA")) (
            field (codes "kid") (text (codes "resd"))
              (field (codes "typ") (text (codes "aa-resource+jwt")) end)))) in
      let body = env.marshal (resource_json env claims) in
      let signing = raw_url_encode hdr ++ b'.' ∷ raw_url_encode body in
      signing ++ b'.' ∷ raw_url_encode (env.ed25519_sign priv signing)

  unfoldable pub challenge : Resource → ℤ → Bytes → Text × ResourceClaims
  unfolding sign_resource_token required
  challenge rs now rand = (sign_resource_token rs.priv (required rs now rand), required rs now rand)

  -- the part of whoami that verifies
  unfoldable pub admit :
      Web → Resource → Map ℤ → ℤ → Text → Text → Result Refusal AuthClaims × Map ℤ
  unfolding anchored plain
  admit web rs seen now tok thumb =
      if rs.require_key_rooted
      then anchored (verify env (verifier_at env web now) seen tok rs.self thumb)
      else plain (verify_vanilla env (verifier_at env web now) seen tok rs.self thumb)

  -- with the values of the headers Authorization and X-Dev-Agent-Thumb
  unfoldable pub whoami : Web → Resource → Map ℤ → ℤ → Text → Text → Answer × Map ℤ
  unfolding whoami_reply
  whoami web rs seen now authorization agent_thumb =
      let tok = bearer env.unicode_trim authorization in
      if text_eq tok []
      then (missing_token, seen)
      else whoami_reply (admit web rs seen now tok (trim_space env.unicode_trim agent_thumb))
