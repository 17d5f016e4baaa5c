-- ===== src/Tokens/Jwt/Signed.antt =====
-- A JWT that sign_jwt makes is parsed and checked back into the claims that were signed.
use signet_ps.Base.{
  length, IsInt64, Bytes, Text, codes, text_eq, text_eq_refl, ok, ◌≡◌, ap, ◌∙◌, true, Option, some,
  ◌∷◌, ◌++◌, append_assoc,
}
use signet_ps.Std.Hex.{AreBytes}
use signet_ps.Std.Strings.{split, Lacks, split-Lacks, split-append}
use signet_ps.Std.Base64.{raw_url_encode, raw_url_decode}
use signet_ps.Std.Base64.RoundTrip.{raw_url_decode-raw_url_encode, raw_url_encode-Lacks}
use signet_ps.Env.{Json, Env}
use signet_ps.Tokens.{AuthClaims, IssuerKey}
use signet_ps.Tokens.Jwt.Claims.{
  JwtHeader, header_json, claims_json, header_of_json, claims_of_json,
}
use signet_ps.Tokens.Jwt.RoundTrip.{header_of_json-header_json, claims_of_json-claims_json}
use signet_ps.Tokens.Jwt.{JwksResolver, split3, sign_jwt, decode_seg, parse_and_check_sig, three}

pub split3_segments :
    (a b c : Text)
    → Lacks b'.' a
    → Lacks b'.' b
    → Lacks b'.' c
    → split3 ((a ++ b'.' ∷ b) ++ b'.' ∷ c) ≡ ok (a, b, c)
unfolding split3
split3_segments a b c ha hb hc = ap three (
    ap (split b'.') (append_assoc a (b'.' ∷ b) (b'.' ∷ c))
    ∙ (split-append b'.' a (b ++ b'.' ∷ c) ha
        ∙ ap (λ t. a ∷ t) (split-append b'.' b c hb ∙ ap (λ t. b ∷ t) (split-Lacks b'.' c hc))))

module _ (env : Env) where
  -- parsing the text of this JSON value gives it back
  abbrev pub IsReadable : Json → Type 0
  IsReadable j = env.unmarshal (env.marshal j) ≡ some j

  abbrev pub auth_header : IssuerKey → Text → JwtHeader
  auth_header key typ = record { alg = codes "EdDSA"; typ = typ; kid = key.kid }

  -- The key is an Ed25519 key pair whose private part has 64 bytes, encoded as a JWK; the encoders
  -- yield bytes; and the header and the claims are readable and their times are of type int64.
  pub record CanSign (key : IssuerKey) (typ : Text) (claims : AuthClaims) : Type 0 where
    pub private_size : length key.priv ≡ 64
    pub public : Bytes
    pub encoded : raw_url_decode key.pub_jwk.x ≡ some public
    pub public_size : length public ≡ 32
    pub verifies : (m : Bytes) → env.ed25519_verify public m (env.ed25519_sign key.priv m) ≡ true
    pub sig_bytes : (m : Bytes) → AreBytes (env.ed25519_sign key.priv m)
    pub json_bytes : (j : Json) → AreBytes (env.marshal j)
    pub header_readable : IsReadable (header_json (auth_header key typ))
    pub claims_readable : IsReadable (claims_json claims)
    pub iat_fits : IsInt64 claims.iat
    pub exp_fits : IsInt64 claims.exp

  pub decode_seg_lem :
      {A : Type 0} (get : Json → Option A) (j : Json) {a : A}
      → ((i : Json) → AreBytes (env.marshal i))
      → IsReadable j
      → get j ≡ some a
      → decode_seg env get (raw_url_encode (env.marshal j)) ≡ ok a
  unfolding decode_seg
  decode_seg_lem get j h r e = rw (raw_url_decode-raw_url_encode (env.marshal j) (h j), r, e)

  -- What an issuer that can sign signs, a verifier that knows the issuer's key under its id parses
  -- back: the header and the claims, whole.
  pub parse_and_check_sig-sign_jwt :
      (keys : JwksResolver) (key : IssuerKey) (typ : Text) (claims : AuthClaims)
      → CanSign key typ claims
      → keys claims.iss key.kid ≡ some key.pub_jwk
      → parse_and_check_sig env keys (sign_jwt env key typ claims) typ
        ≡ ok (auth_header key typ, claims)
  unfolding parse_and_check_sig sign_jwt text_eq
  parse_and_check_sig-sign_jwt keys key typ claims h e =
      let hd = raw_url_encode (env.marshal (header_json (auth_header key typ))) in
      let bd = raw_url_encode (env.marshal (claims_json claims)) in
      let sg = env.ed25519_sign key.priv (hd ++ b'.' ∷ bd) in
      rw (
        split3_segments hd bd (raw_url_encode sg) (raw_url_encode-Lacks _) (raw_url_encode-Lacks _)
            (raw_url_encode-Lacks _),
        decode_seg_lem (header_of_json env) _ h.json_bytes h.header_readable
            (header_of_json-header_json env _),
        text_eq_refl typ,
        decode_seg_lem (claims_of_json env) _ h.json_bytes h.claims_readable
            (claims_of_json-claims_json env claims h.iat_fits h.exp_fits),
        e,
        h.encoded,
        h.public_size,
        raw_url_decode-raw_url_encode sg (h.sig_bytes _),
        h.verifies (hd ++ b'.' ∷ bd),
      )
