-- ===== src/Testutil/Jwts/Forged.antt =====
-- internal/testutil/tokens.go: what a verifier makes of a forged JWT, and DecodeClaims of a good one.
use signet_ps.Std.Base64.RoundTrip.{
  raw_url_decode-raw_url_encode, raw_url_encode-Lacks, raw_url_encode-is_ascii,
}
use signet_ps.Tokens.Jwt.{bad_alg_or_typ, JwksResolver, sign_jwt, parse_and_check_sig}
use signet_ps.Tokens.Jwt.Claims.{
  JwtHeader, header_json, claims_json, header_of_json, claims_of_json,
}
use signet_ps.Tokens.Jwt.Signed.{split3_segments, IsReadable, auth_header, CanSign, decode_seg_lem}
use signet_ps.Base.{
  Bool-cases, Map, Bytes, Text, codes, text_eq, text_eq_iff, text_ne, eq_of_text_ne, ok, err, ◌≡◌,
  refl, ap, ◌∙◌, ◌↔◌, inl, inr, true, false, ◌||◌, some, [], ◌∷◌, ◌++◌, append_assoc, arith,
}
use signet_ps.Std.Strings.{split, split-Lacks, split-append, is_ascii}
use signet_ps.Std.Base64.{raw_url_encode, raw_url_decode}
use signet_ps.Env.{Json, Env}
use signet_ps.Tokens.{AuthClaims, IssuerKey}
use signet_ps.Tokens.Jwt.RoundTrip.{claims_of_json-claims_json}
use signet_ps.Testutil.Jwts.{map_json, b64, sign_jwt_raw, split_dot, decode_claims, three_parts}
use signet_ps.Testutil.Jwts.Split.{split_dot-eq-split}

is_ascii-append : (s t : Text) → is_ascii s ≡ true → is_ascii t ≡ true → is_ascii (s ++ t) ≡ true
unfolding is_ascii
is_ascii-append [] t h k = k
is_ascii-append (a ∷ s) t h k = ground (arith, is_ascii-append s t)

-- three encoded segments, dots between them
abbrev compact : Bytes → Bytes → Bytes → Text
compact h c sig = (raw_url_encode h ++ b'.' ∷ raw_url_encode c) ++ b'.' ∷ raw_url_encode sig

compact-is_ascii : (h c sig : Bytes) → is_ascii (compact h c sig) ≡ true
unfolding is_ascii
compact-is_ascii h c sig =
    is_ascii-append (raw_url_encode h ++ b'.' ∷ raw_url_encode c) (b'.' ∷ raw_url_encode sig)
      (is_ascii-append (raw_url_encode h) (b'.' ∷ raw_url_encode c) (raw_url_encode-is_ascii h)
        (raw_url_encode-is_ascii c))
      (raw_url_encode-is_ascii sig)

split_dot-compact :
    (h c sig : Bytes)
    → split_dot (compact h c sig) ≡ raw_url_encode h ∷ raw_url_encode c ∷ raw_url_encode sig ∷ []
split_dot-compact h c sig =
    split_dot-eq-split (compact h c sig) (compact-is_ascii h c sig)
    ∙ (ap (split b'.')
          (append_assoc (raw_url_encode h) (b'.' ∷ raw_url_encode c) (b'.' ∷ raw_url_encode sig))
        ∙ (split-append b'.' (raw_url_encode h) _ (raw_url_encode-Lacks h)
            ∙ ap (λ t. raw_url_encode h ∷ t)
                (split-append b'.' (raw_url_encode c) _ (raw_url_encode-Lacks c)
                  ∙ ap (λ t. raw_url_encode c ∷ t)
                      (split-Lacks b'.' (raw_url_encode sig) (raw_url_encode-Lacks sig)))))

module _ (env : Env) where
  decode_claims_lem :
      (raw a b c : Text) (body : Bytes) (j : Json)
      → split_dot raw ≡ a ∷ b ∷ c ∷ []
      → raw_url_decode b ≡ some body
      → env.unmarshal body ≡ some j
      → decode_claims env raw ≡ claims_of_json env j
  unfolding decode_claims three_parts
  decode_claims_lem raw a b c body j h k l = ground (arith, h, k, l)

  -- DecodeClaims reads back the claims of every token that an issuer that can sign signed.
  pub decode_claims-sign_jwt :
      (key : IssuerKey) (typ : Text) (claims : AuthClaims)
      → CanSign env key typ claims
      → decode_claims env (sign_jwt env key typ claims) ≡ some claims
  unfolding sign_jwt
  decode_claims-sign_jwt key typ claims h =
      let hd = env.marshal (header_json (auth_header env key typ)) in
      let bd = env.marshal (claims_json claims) in
      let signing = raw_url_encode hd ++ b'.' ∷ raw_url_encode bd in
      decode_claims_lem (sign_jwt env key typ claims) _ (raw_url_encode bd) _ bd
        (claims_json claims) (split_dot-compact hd bd (env.ed25519_sign key.priv signing))
        (raw_url_decode-raw_url_encode bd (h.json_bytes (claims_json claims))) h.claims_readable
      ∙ claims_of_json-claims_json env claims h.iat_fits h.exp_fits

  module _ (keys : JwksResolver) (key : IssuerKey) (want_typ : Text) (hdr : Map Json)
      (h : JwtHeader) (claims : AuthClaims) (good : CanSign env key want_typ claims)
      (readable : IsReadable env (map_json hdr)) (read : header_of_json env (map_json hdr) ≡ some h)
      (known : keys claims.iss h.kid ≡ some key.pub_jwk) where
    forged_refused :
        text_ne h.alg (codes "EdDSA") || text_ne h.typ want_typ ≡ true
        → parse_and_check_sig env keys (sign_jwt_raw env key.priv hdr (claims_json claims)) want_typ
          ≡ err bad_alg_or_typ
    unfolding parse_and_check_sig sign_jwt_raw b64
    forged_refused e =
        let hd = raw_url_encode (env.marshal (map_json hdr)) in
        let bd = raw_url_encode (env.marshal (claims_json claims)) in
        let sg = env.ed25519_sign key.priv (hd ++ b'.' ∷ bd) in
        rw
          (
            split3_segments hd bd (raw_url_encode sg) (raw_url_encode-Lacks _)
                (raw_url_encode-Lacks _) (raw_url_encode-Lacks _),
            decode_seg_lem env (header_of_json env) (map_json hdr) good.json_bytes readable read,
            e,
          )
          refl

    forged_taken :
        text_ne h.alg (codes "EdDSA") || text_ne h.typ want_typ ≡ false
        → parse_and_check_sig env keys (sign_jwt_raw env key.priv hdr (claims_json claims)) want_typ
          ≡ ok (h, claims)
    unfolding parse_and_check_sig sign_jwt_raw b64
    forged_taken e =
        let hd = raw_url_encode (env.marshal (map_json hdr)) in
        let bd = raw_url_encode (env.marshal (claims_json claims)) in
        let sg = env.ed25519_sign key.priv (hd ++ b'.' ∷ bd) in
        rw (
          split3_segments hd bd (raw_url_encode sg) (raw_url_encode-Lacks _)
              (raw_url_encode-Lacks _) (raw_url_encode-Lacks _),
          decode_seg_lem env (header_of_json env) (map_json hdr) good.json_bytes readable read,
          e,
          decode_seg_lem env (claims_of_json env) _ good.json_bytes good.claims_readable
              (claims_of_json-claims_json env claims good.iat_fits good.exp_fits),
          known,
          good.encoded,
          good.public_size,
          raw_url_decode-raw_url_encode sg (good.sig_bytes _),
          good.verifies (hd ++ b'.' ∷ bd),
        )

    -- A token that SignJWTRaw made of any header that JSON reads back, with the key of an issuer
    -- that can sign and that the verifier finds under the kid of the header, is parsed with its
    -- claims exactly if its alg is EdDSA and its typ the wanted one.
    pub forged_is_taken_iff :
        (parse_and_check_sig env keys (sign_jwt_raw env key.priv hdr (claims_json claims)) want_typ
          ≡ ok (h, claims))
        ↔ ((h.alg ≡ codes "EdDSA") × (h.typ ≡ want_typ))
    unfolding text_eq
    forged_is_taken_iff =
        elim (Bool-cases (text_ne h.alg (codes "EdDSA") || text_ne h.typ want_typ)) [
          | inl e ↦ (
            λ taken. absurd (ground (arith, taken, forged_refused e)),
            λ same.
                absurd (
                  ground (arith, e, text_eq_iff h.alg (codes "EdDSA"), text_eq_iff h.typ want_typ)),
          )
          | inr e ↦ (
            λ _. (
              eq_of_text_ne h.alg (codes "EdDSA") (ground (arith, e)),
              eq_of_text_ne h.typ want_typ (ground (arith, e)),
            ),
            λ _. forged_taken e,
          )
        ]
