-- ===== src/Tests/Tokens.antt =====
-- A token: minted from the fixture's attestations, signed, and shown at a resource.

use signet_ps.Attest.Address.{addr_eq}
use signet_ps.Attest.Digest.{psa_digest, agent_grant_digest}
use signet_ps.Attest.Verify.Meaning.{verify_psa_iff, verify_agent_grant_iff}
use signet_ps.Tokens.Verify.Layers.{Layer1Holds}
use signet_ps.Std.Hex.{AreBytes}
use signet_ps.Base.{
  if◌then◌else◌, replicate, ℤ, pos, ◌+ℤ◌, ◌-ℤ◌, ◌*ℤ◌, ◌≤ℤ◌, wrap64, floor_div, Bytes, Text, codes,
  text_eq, text_eq_refl, contains, contains-iff-In, ok, ◌≡◌, refl, ◌↔◌, inr, true, false, none,
  some, List, [], ◌∷◌, arith,
}
use signet_ps.Env.{Json, null, text, num, real, bool, arr, obj, end, field, elems, Env}
use signet_ps.Std.Base64.{raw_url_encode, raw_url_decode}
use signet_ps.Attest.Verify.{unix, is_eoa_sig, verify_root_sig, verify_psa, verify_agent_grant}
use signet_ps.Tokens.{AuthClaims, thumbprint, big_or_zero}
use signet_ps.Tokens.Jwt.{malformed, JwksResolver, split3, sign_jwt, parse_and_check_sig}
use signet_ps.Tokens.Jwt.Claims.{header_json, claims_json}
use signet_ps.Tokens.Jwt.Signed.{auth_header, CanSign, parse_and_check_sig-sign_jwt}
use signet_ps.Tokens.Mint.{MintInput, max_ttl, clamp_ttl, apply_vouched, minted_claims, mint}
use signet_ps.Tokens.Mint.Envelope.{InEnvelope, mint_complete, mint_iff}
use signet_ps.Tokens.Mint.Times.{final_claims, lifetime_bounds}
use signet_ps.Tokens.Verify.{
  ReplayCache, jwt, Verifier, check_claims, verify_layer1, verify_layer2, verify,
}
use signet_ps.Tokens.Verify.Chain.{
  IsAccepted, verify_iff, failure_spends_nothing, layer2_spends_too,
}
use signet_ps.Tokens.Verify.Minted.{Resolves, minted_is_accepted}
use signet_ps.Std.Strings.{split}
use signet_ps.Std.Decimal.{set_string}
use signet_ps.Attest.Content.{content_hash}
use signet_ps.Tests.Fixture.{marshal, env_of, env, agent_key, issuer_key, psa, grant, chain}

abbrev input : MintInput
input = record {
  psa = psa;
  psa_blob_url = codes "https://ps/psa";
  grant = grant;
  resource = record {
    iss = codes "https://r";
    jti = codes "j";
    iat = pos 0;
    exp = pos 5000;
    scope = none;
    amount_wei = codes "50";
  };
  agent_id = codes "aauth:a@x";
  agent_key = agent_key;
  mission = none;
  step_up = some (record { digest = codes "d"; sig = codes "s" });
  claims = (codes "name", record { value = codes "Ada"; provenance = codes "p" }) ∷ [];
  ttl = pos 60000000000;
}

abbrev minting : ℤ
minting = pos 1000000000000

abbrev sixteen : Bytes
sixteen = replicate 16 1

abbrev pub claims : AuthClaims
claims = final_claims env input minting sixteen

-- the environment whose parser knows this token
abbrev pub token_env : Env
token_env =
    env_of (header_json (auth_header env issuer_key (codes "auth+jwt"))) (claims_json claims)

abbrev pub key_of : JwksResolver
key_of iss kid = some issuer_key.pub_jwk

-- a cache that has seen the ids of a list
abbrev seen : ReplayCache (List Text)
seen cache jti exp = if contains cache jti then (true, cache) else (false, jti ∷ cache)

pub marshal_AreBytes : (j : Json) → AreBytes (marshal j)
unfolding text_eq
marshal_AreBytes null = omega arith
marshal_AreBytes (text t) = omega arith
marshal_AreBytes (num n) = omega arith
marshal_AreBytes (real t) = omega arith
marshal_AreBytes (bool b) = omega arith
marshal_AreBytes (arr xs) = omega arith
marshal_AreBytes (obj end) = omega arith
marshal_AreBytes (obj (field k null fs)) = omega arith
marshal_AreBytes (obj (field k (text t) fs)) = ground arith
marshal_AreBytes (obj (field k (num n) fs)) = omega arith
marshal_AreBytes (obj (field k (real t) fs)) = omega arith
marshal_AreBytes (obj (field k (bool b) fs)) = omega arith
marshal_AreBytes (obj (field k (arr xs) fs)) = omega arith
marshal_AreBytes (obj (field k (obj gs) fs)) = omega arith

abbrev resource : Verifier (List Text)
resource = record {
  keys = key_of;
  attest = record { psa = λ t. some psa; agent_grant = λ iss s256. some grant };
  chain = chain;
  replay = seen;
  now = pos 1010000000000;
}

pub can_sign : CanSign token_env issuer_key (codes "auth+jwt") claims
unfolding raw_url_decode text_eq header_json claims_json minted_claims clamp_ttl max_ttl
    apply_vouched unix floor_div wrap64 ◌*ℤ◌ ◌+ℤ◌
can_sign = record {
  private_size = refl;
  public = replicate 32 0;
  encoded = refl;
  public_size = refl;
  verifies = λ m. refl;
  sig_bytes = λ m. omega arith;
  json_bytes = marshal_AreBytes;
  header_readable = refl;
  claims_readable = refl;
  iat_fits = (omega arith, omega arith);
  exp_fits = (omega arith, omega arith);
}

parse_and_check_sig-sign_jwt_example :
    parse_and_check_sig token_env key_of
      (sign_jwt token_env issuer_key (codes "auth+jwt") claims)
      (codes "auth+jwt")
    ≡ ok (auth_header token_env issuer_key (codes "auth+jwt"), claims)
parse_and_check_sig-sign_jwt_example =
    parse_and_check_sig-sign_jwt token_env key_of issuer_key (codes "auth+jwt") claims can_sign refl

mint_iff_example :
    ((raw : Text) × (mint env issuer_key input minting sixteen ≡ ok raw))
    ↔ InEnvelope env issuer_key input
mint_iff_example = mint_iff env issuer_key input minting sixteen

lifetime_bounds_example :
    let c = final_claims env input minting sixteen in
    (c.exp ≤ℤ c.iat +ℤ pos 3600) × (c.exp ≤ℤ c.iat +ℤ pos 600)
lifetime_bounds_example = lifetime_bounds env input minting sixteen 600 refl

failure_spends_nothing_example :
    (verify env resource [] (codes "a.b") (codes "https://r") (codes "t")).1 ≡ []
unfolding verify_layer1 check_claims parse_and_check_sig split3 split
failure_spends_nothing_example =
    failure_spends_nothing env resource [] (codes "a.b") (codes "https://r") (codes "t")
      (jwt malformed) refl (λ e. cc)

in_envelope : InEnvelope token_env issuer_key input
unfolding contains text_eq set_string big_or_zero thumbprint raw_url_encode
in_envelope = record {
  covered =
      (contains-iff-In (elems psa.key_thumbprints) (thumbprint token_env issuer_key.pub_jwk)).0
        refl;
  allowed = ((contains-iff-In (elems psa.scope.allowed_claims) (codes "name")).0 refl, tt);
  payment =
      inr
        (pos 50, refl, record { paying = λ e. cc; capped = omega arith; stepped_up = λ a b e. cc });
  private_size = refl;
}

abbrev auth_token : Text
auth_token = sign_jwt token_env issuer_key (codes "auth+jwt") claims

minted : mint token_env issuer_key input minting sixteen ≡ ok auth_token
unfolding header_json claims_json sign_jwt
minted = mint_complete token_env issuer_key input minting sixteen in_envelope

resolves : Resolves token_env resource issuer_key input minting sixteen claims
unfolding verify_psa verify_agent_grant thumbprint text_eq unix floor_div contains raw_url_encode
    psa_digest agent_grant_digest verify_root_sig is_eoa_sig addr_eq
resolves = record {
  psa = refl;
  issuer_key = refl;
  grant = refl;
  psa_holds =
      (verify_psa_iff token_env chain psa (codes "https://ps")
          (thumbprint token_env issuer_key.pub_jwk)).0
        refl;
  grant_holds =
      (verify_agent_grant_iff token_env chain grant (codes "0xab") (codes "aauth:a@x")
          (thumbprint token_env agent_key)).0
        refl;
}

minted_is_accepted_example :
    (verify token_env resource [] auth_token (codes "https://r") (thumbprint token_env agent_key)).0
    ≡ ok claims
unfolding unix floor_div ◌+ℤ◌ ◌*ℤ◌ wrap64 clamp_ttl max_ttl minted_claims apply_vouched text_eq
    content_hash contains
minted_is_accepted_example =
    minted_is_accepted token_env resource issuer_key input minting sixteen [] auth_token 600 minted
      can_sign text_eq_refl resolves refl (omega arith) (omega arith) refl

layer1_holds :
    Layer1Holds token_env resource auth_token
      (codes "https://r")
      (thumbprint token_env agent_key)
      (auth_header token_env issuer_key (codes "auth+jwt"))
      claims
unfolding unix floor_div ◌+ℤ◌ ◌-ℤ◌ ◌*ℤ◌ wrap64 clamp_ttl max_ttl minted_claims apply_vouched text_eq
layer1_holds = record {
  parsed =
      parse_and_check_sig-sign_jwt token_env key_of issuer_key (codes "auth+jwt") claims can_sign
        refl;
  for_aud = refl;
  unexpired = omega arith;
  short = omega arith;
  holder = refl;
}

layer2_spends_too_example :
    verify token_env resource [] auth_token (codes "https://r") (thumbprint token_env agent_key) ≡ (
      verify_layer2 token_env resource
          (auth_header token_env issuer_key (codes "auth+jwt"), claims),
      (resource.replay [] claims.jti claims.exp).1,
    )
unfolding contains
layer2_spends_too_example =
    layer2_spends_too token_env resource [] auth_token (codes "https://r")
      (thumbprint token_env agent_key) (auth_header token_env issuer_key (codes "auth+jwt")) claims
      layer1_holds refl

verify_iff_example :
    ((verify token_env resource [] auth_token
        (codes "https://r")
        (thumbprint token_env agent_key)).0
      ≡ ok claims)
    ↔ IsAccepted token_env resource [] auth_token
        (codes "https://r")
        (thumbprint token_env agent_key)
        claims
verify_iff_example =
    verify_iff token_env resource [] auth_token (codes "https://r") (thumbprint token_env agent_key)
      claims
