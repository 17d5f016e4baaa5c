-- ===== src/Tests/Testutil.antt =====
-- The fixtures with a wallet that signs with a constant, and the fakes.
use signet_ps.Std.Hex.{AreBytes}
use signet_ps.Env.Decode.{get_text, get_struct, names}
use signet_ps.Std.Strings.{equal_fold}
use signet_ps.Base.{
  ◌==◌, if◌then◌else◌, replicate, pos, ◌+ℤ◌, ◌*ℤ◌, wrap64, floor_div, Bytes, codes, text_eq, ok, ℕ,
  ◌%◌, ◌≡◌, refl, subst, ◌↔◌, Option, none, some, List, [], ◌∷◌, arith,
}
use signet_ps.Std.Base64.{raw_url_decode}
use signet_ps.Env.{Json, obj, field, Env}
use signet_ps.Attest.{PersonServerAuthorization}
use signet_ps.Attest.Digest.{psa_digest}
use signet_ps.Attest.Verify as AttestVerify
use signet_ps.Attest.Verify.{Verifier, unix, normalize_v, verify_psa}
use signet_ps.Devtool.Accepted.{IsRootKey}
use signet_ps.Tokens.Jwt.{JwksResolver, parse_and_check_sig}
use signet_ps.Tokens.Jwt.Claims.{JwtHeader, header_json, claims_json, header_of_json}
use signet_ps.Tokens.Jwt.Signed.{auth_header, CanSign}
use signet_ps.Tokens.Mint.{max_ttl, clamp_ttl, apply_vouched, minted_claims}
use signet_ps.Testutil.Keys.{Ed25519Keys, root_key, addr_of, issuer_thumb, fixture_now}
use signet_ps.Testutil.Fixtures.{
  fixture_issuer, apply_opts, with_psa_nonce, default_psa, sign_psa_as, valid_psa,
}
use signet_ps.Testutil.Fixtures.Verdict.{fixture_root, IsGoodPsa, valid_psa_verdict}
use signet_ps.Testutil.Registry.{revoked_registry, err_registry, fake_is_revoked}
use signet_ps.Testutil.Registry.Refines.{
  RegistryCall, revoking, asking, fake_answers, memory_answers, held,
  fake_answers-eq-memory_answers,
}
use signet_ps.Testutil.Resolvers.{issuer_kid}
use signet_ps.Testutil.Jwts.{map_json, default_jwt_header, sign_jwt_raw}
use signet_ps.Testutil.Jwts.Forged.{forged_is_taken_iff}
use signet_ps.Tests.Devtool.{key_signature, wallet, signature_bytes, some_injective}
use signet_ps.Tests.Tokens.{claims}
use signet_ps.Tests.Fixture.{env, issuer_key}

abbrev fixture_priv : Bytes
fixture_priv = 9 ∷ []

abbrev ed : Ed25519Keys
ed = record { new_key_from_seed = λ s. s; public = λ k. replicate 32 0 }

fixture_key : IsRootKey env wallet (fixture_root env wallet fixture_priv) fixture_priv
unfolding normalize_v addr_of
fixture_key = record {
  opens = refl;
  owns = refl;
  size = λ digest sig h. ground (arith, h);
  low_v = λ digest sig h. cc;
  recovers = λ digest sig h. refl;
  bytes = λ digest sig h. subst (λ (x : Bytes). AreBytes x) (some_injective h) signature_bytes;
}

-- revoked under another nonce
abbrev verifier : AttestVerify.Verifier
verifier = record {
  registry = λ c a r n. (fake_is_revoked (revoked_registry r 7) c a r n).0;
  erc1271 = none;
  now = fixture_now;
}

abbrev nonce_eight : PersonServerAuthorization
nonce_eight = record (default_psa (addr_of env wallet fixture_priv) (issuer_thumb env ed)) {
  nonce = 8;
  signature = some key_signature;
}

valid_psa_verdict_example :
    (verify_psa env verifier nonce_eight fixture_issuer (issuer_thumb env ed) ≡ ok tt)
    ↔ IsGoodPsa env wallet verifier
        (addr_of env wallet fixture_priv)
        (apply_opts
          (with_psa_nonce 8 ∷ [])
          (default_psa (addr_of env wallet fixture_priv) (issuer_thumb env ed)))
        fixture_issuer
        (issuer_thumb env ed)
unfolding valid_psa root_key sign_psa_as apply_opts with_psa_nonce default_psa psa_digest
valid_psa_verdict_example =
    valid_psa_verdict env wallet ed fixture_priv verifier (with_psa_nonce 8 ∷ []) nonce_eight
      fixture_issuer (issuer_thumb env ed) fixture_key refl refl

abbrev two_calls : List RegistryCall
two_calls = revoking (codes "r") 1 ∷ asking (pos 1) [] (codes "r") 1 ∷ []

fake_answers-eq-memory_answers_example :
    fake_answers two_calls (err_registry none) ≡ memory_answers two_calls (held (err_registry none))
unfolding err_registry
fake_answers-eq-memory_answers_example =
    fake_answers-eq-memory_answers two_calls (err_registry none) refl

-- a JSON value of a token by its first two keys
tag : Json → ℕ
unfolding text_eq
tag (obj (field j x (field k y fs))) =
    if text_eq j (codes "alg") then (if text_eq k (codes "kid") then 3 else 1) else 2
tag j = 2

abbrev read_back : Bytes → Option Json
unfolding header_json claims_json map_json default_jwt_header
read_back [] = none
read_back (b ∷ bs) =
    if b == 1
    then some (header_json (auth_header env issuer_key (codes "auth+jwt")))
    else if b == 3
    then some (map_json default_jwt_header)
    else some (claims_json claims)

abbrev forging_env : Env
unfolding tag
forging_env = record env { marshal = λ j. (tag j % 4) ∷ []; unmarshal = read_back }

forging : CanSign forging_env issuer_key (codes "auth+jwt") claims
unfolding raw_url_decode text_eq header_json claims_json minted_claims clamp_ttl max_ttl
    apply_vouched unix floor_div wrap64 ◌*ℤ◌ ◌+ℤ◌ tag read_back
forging = record {
  private_size = refl;
  public = replicate 32 0;
  encoded = refl;
  public_size = refl;
  verifies = λ m. refl;
  sig_bytes = λ m. omega arith;
  json_bytes = λ j. omega arith;
  header_readable = refl;
  claims_readable = refl;
  iat_fits = (omega arith, omega arith);
  exp_fits = (omega arith, omega arith);
}

abbrev fixture_keys : JwksResolver
fixture_keys iss kid = some issuer_key.pub_jwk

abbrev default_header : JwtHeader
default_header = record { alg = codes "EdDSA"; typ = codes "auth+jwt"; kid = issuer_kid }

forged_is_taken_iff_example :
    (parse_and_check_sig forging_env fixture_keys
        (sign_jwt_raw forging_env issuer_key.priv default_jwt_header (claims_json claims))
        (codes "auth+jwt")
      ≡ ok (default_header, claims))
    ↔ ((default_header.alg ≡ codes "EdDSA") × (default_header.typ ≡ codes "auth+jwt"))
unfolding read_back tag text_eq map_json default_jwt_header header_of_json get_struct get_text names
    equal_fold
forged_is_taken_iff_example =
    forged_is_taken_iff forging_env fixture_keys issuer_key (codes "auth+jwt") default_jwt_header
      default_header claims forging refl refl refl
