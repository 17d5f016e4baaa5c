-- ===== src/Tokens/Jwt.antt =====
-- internal/tokens/tokens.go and helpers.go: the compact JWT, signed and parsed.
pub mod Claims
pub mod RoundTrip
pub mod Signed
use signet_ps.Base.{
  ◌==◌, length, Text, codes, text_ne, Result, ok, err, ◌>>=◌, ◌>>◌, fail_if, or_fail, not, ◌||◌,
  Bool, Option, List, [], ◌∷◌, ◌++◌,
}
use signet_ps.Std.Strings.{split}
use signet_ps.Std.Base64.{raw_url_encode, raw_url_decode}
use signet_ps.Env.{Json, Env}
use signet_ps.Tokens.{Jwk, AuthClaims, IssuerKey}
use Claims.{JwtHeader, header_json, header_of_json, claims_json, claims_of_json}

pub data JwtError : Type 0 where
  malformed bad_segment bad_alg_or_typ : JwtError
  unknown_key bad_issuer_key bad_signature : JwtError

-- `JWKSResolver.Key`: an issuer and a key id; `none` is an error
abbrev pub JwksResolver : Type 0
JwksResolver = Text → Text → Option Jwk

three : List Text → Result JwtError (Text × Text × Text)
three (a ∷ b ∷ c ∷ []) = ok (a, b, c)
three _ = err malformed

-- the three segments of a compact JWT, in a tuple
unfoldable pub split3 : Text → Result JwtError (Text × Text × Text)
unfolding three
split3 raw = three (split b'.' raw)

-- ed25519.Sign panics at a private key that has not `ed25519.PrivateKeySize` bytes
unfoldable pub has_key_size : IssuerKey → Bool
has_key_size key = length key.priv == 64

module _ (env : Env) where
  -- signJWT, for the claims of an auth token and a key that can sign
  unfoldable pub sign_jwt : IssuerKey → Text → AuthClaims → Text
  sign_jwt key typ claims =
      let h =
        env.marshal (header_json (record { alg = codes "EdDSA"; typ = typ; kid = key.kid })) in
      let c = env.marshal (claims_json claims) in
      let signing = raw_url_encode h ++ b'.' ∷ raw_url_encode c in
      signing ++ b'.' ∷ raw_url_encode (env.ed25519_sign key.priv signing)

  unfoldable pub decode_seg : {A : Type 0} → (Json → Option A) → Text → Result JwtError A
  decode_seg get seg = do
    raw ← or_fail (raw_url_decode seg) bad_segment
    j ← or_fail (env.unmarshal raw) bad_segment
    or_fail (get j) bad_segment

  -- parseAndCheckSig, for auth claims
  unfoldable pub parse_and_check_sig :
      JwksResolver → Text → Text → Result JwtError (JwtHeader × AuthClaims)
  unfolding split3 decode_seg
  parse_and_check_sig keys raw want_typ = do
    (head, body, tail) ← split3 raw
    hdr ← decode_seg (header_of_json env) head
    fail_if (text_ne hdr.alg (codes "EdDSA") || text_ne hdr.typ want_typ) bad_alg_or_typ
    claims ← decode_seg (claims_of_json env) body
    jwk ← or_fail (keys claims.iss hdr.kid) unknown_key
    key ← or_fail (raw_url_decode jwk.x) bad_issuer_key
    fail_if (not (length key == 32)) bad_issuer_key
    sig ← or_fail (raw_url_decode tail) bad_signature
    fail_if (not (env.ed25519_verify key (head ++ b'.' ∷ body) sig)) bad_signature
    ok (hdr, claims)
