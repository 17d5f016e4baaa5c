-- ===== src/Tokens/Verify/Layers.antt =====
-- What the two layers accept, stated without their control flow.
use signet_ps.Attest.Verify.Meaning.{
  PsaHolds, GrantHolds, verify_psa_sound, verify_psa_complete, verify_agent_grant_sound,
  verify_agent_grant_complete,
}
use signet_ps.Base.{
  Bool-cases, Option-cases, pos, ◌-ℤ◌, ◌≤ℤ◌, ◌<ℤ◌, wrap64, Text, codes, text_eq, text_eq_iff, ok,
  wrap_err, >>=-eq-ok, wrap_err-eq-ok, ◌≡◌, subst, ◌⊎◌, inl, inr, true, false, some, [], ◌∷◌, ◌++◌,
  arith,
}
use signet_ps.Std.Decimal.{show_int}
use signet_ps.Env.{Env}
use signet_ps.Attest.{PersonServerAuthorization, AgentGrant}
use signet_ps.Attest.Verify.{unix}
use signet_ps.Tokens.{Jwk, AuthClaims, thumbprint}
use signet_ps.Tokens.Jwt.{parse_and_check_sig}
use signet_ps.Tokens.Jwt.Claims.{JwtHeader}
use signet_ps.Tokens.Verify.{jwt, Verifier, caip_eq, check_claims, verify_layer2, check_parsed}

module _ (env : Env) {R : Type 0} where
  -- Layer 1: a signed token for this audience, in time, held by the signer of the request.
  pub record Layer1Holds (v : Verifier R) (raw aud thumb : Text) (hdr : JwtHeader) (c : AuthClaims)
      : Type 0 where
    pub parsed : parse_and_check_sig env v.keys raw (codes "auth+jwt") ≡ ok (hdr, c)
    pub for_aud : c.aud ≡ aud
    pub unexpired : unix v.now <ℤ c.exp
    pub short : wrap64 (c.exp -ℤ c.iat) ≤ℤ pos 86400
    pub holder : thumbprint env c.cnf ≡ thumb

  check_parsed_sound :
      (v : Verifier R) (aud thumb : Text) (hdr hdr' : JwtHeader) (c c' : AuthClaims)
      → check_parsed env v aud thumb (hdr', c') ≡ ok (hdr, c)
      → (hdr' ≡ hdr)
        × (c' ≡ c)
        × (c'.aud ≡ aud)
        × (unix v.now <ℤ c'.exp)
        × (wrap64 (c'.exp -ℤ c'.iat) ≤ℤ pos 86400)
        × (thumbprint env c'.cnf ≡ thumb)
  unfolding check_parsed
  check_parsed_sound v aud thumb hdr hdr' c c' h = (
    ground arith,
    ground arith,
    ground (arith, text_eq_iff c'.aud aud),
    ground arith,
    ground arith,
    ground (arith, text_eq_iff (thumbprint env c'.cnf) thumb),
  )

  check_parsed_complete :
      (v : Verifier R) (raw aud thumb : Text) (hdr : JwtHeader) (c : AuthClaims)
      → Layer1Holds v raw aud thumb hdr c
      → check_parsed env v aud thumb (hdr, c) ≡ ok (hdr, c)
  unfolding check_parsed
  check_parsed_complete v raw aud thumb hdr c h = ground (
    arith,
    text_eq_iff c.aud aud,
    text_eq_iff (thumbprint env c.cnf) thumb,
    h.for_aud,
    h.unexpired,
    h.short,
    h.holder,
  )

  pub check_claims_sound :
      (v : Verifier R) (raw aud thumb : Text) (hdr : JwtHeader) (c : AuthClaims)
      → check_claims env v raw aud thumb ≡ ok (hdr, c)
      → Layer1Holds v raw aud thumb hdr c
  unfolding check_claims
  check_claims_sound v raw aud thumb hdr c h =
      let ((hdr', c'), e, k) =
        >>=-eq-ok (wrap_err jwt (parse_and_check_sig env v.keys raw (codes "auth+jwt")))
          (check_parsed env v aud thumb) h in
      let p = wrap_err-eq-ok jwt (parse_and_check_sig env v.keys raw (codes "auth+jwt")) e in
      let (eh, ec, a, u, s, t) = check_parsed_sound v aud thumb hdr hdr' c c' k in
      subst (λ (x : JwtHeader). Layer1Holds v raw aud thumb x c) eh
        (subst (λ (y : AuthClaims). Layer1Holds v raw aud thumb hdr' y) ec
          (record { parsed = p; for_aud = a; unexpired = u; short = s; holder = t }))

  pub check_claims_complete :
      (v : Verifier R) (raw aud thumb : Text) (hdr : JwtHeader) (c : AuthClaims)
      → Layer1Holds v raw aud thumb hdr c
      → check_claims env v raw aud thumb ≡ ok (hdr, c)
  unfolding check_claims
  check_claims_complete v raw aud thumb hdr c h =
      rw h.parsed (check_parsed_complete v raw aud thumb hdr c h)

  -- Layer 2: the signer of the token holds an authorization of the root that the subject names, and
  -- the agent holds a grant of that root.
  pub record Layer2Holds (v : Verifier R) (hdr : JwtHeader) (c : AuthClaims) : Type 0 where
    pub psa : PersonServerAuthorization
    pub grant : AgentGrant
    pub jwk : Jwk
    pub psa_resolved : v.attest.psa c.psa ≡ some psa
    pub key_resolved : v.keys c.iss hdr.kid ≡ some jwk
    pub psa_holds : PsaHolds env v.chain psa c.iss (thumbprint env jwk)
    pub sub_is_root :
        caip_eq env (codes "eip155:" ++ (show_int psa.registry_chain ++ b':' ∷ psa.root)) c.sub
        ≡ true
    pub grant_resolved : v.attest.agent_grant c.iss c.ag_s256 ≡ some grant
    pub grant_holds : GrantHolds env v.chain grant psa.root c.agent (thumbprint env c.cnf)

  pub verify_layer2_complete :
      (v : Verifier R) (hdr : JwtHeader) (c : AuthClaims)
      → (c.psa ≡ []) ⊎ Layer2Holds v hdr c
      → verify_layer2 env v (hdr, c) ≡ ok c
  unfolding verify_layer2
  verify_layer2_complete v hdr c (inl e) = ground (arith, text_eq_iff c.psa [], e)
  verify_layer2_complete v hdr c (inr h) = ground (
    arith,
    h.psa_resolved,
    h.key_resolved,
    verify_psa_complete env v.chain h.psa c.iss (thumbprint env h.jwk) h.psa_holds,
    h.sub_is_root,
    h.grant_resolved,
    verify_agent_grant_complete env v.chain h.grant h.psa.root c.agent (thumbprint env c.cnf)
        h.grant_holds,
  )

  verify_layer2_claims :
      (v : Verifier R) (hdr : JwtHeader) (c d : AuthClaims)
      → verify_layer2 env v (hdr, c) ≡ ok d
      → c ≡ d
  unfolding verify_layer2
  verify_layer2_claims v hdr c d h = ground arith

  verify_layer2_resolved :
      (v : Verifier R) (hdr : JwtHeader) (c d : AuthClaims)
      → text_eq c.psa [] ≡ false
      → verify_layer2 env v (hdr, c) ≡ ok d
      → (psa : PersonServerAuthorization) × (jwk : Jwk) × (grant : AgentGrant) × (v.attest.psa c.psa
          ≡ some psa)
        × (v.keys c.iss hdr.kid ≡ some jwk)
        × (v.attest.agent_grant c.iss c.ag_s256 ≡ some grant)
  unfolding verify_layer2
  verify_layer2_resolved v hdr c d n h = elim (Option-cases (v.attest.psa c.psa)) [
    | inl e ↦ absurd (ground (arith, e))
    | inr (psa, e) ↦ elim (Option-cases (v.keys c.iss hdr.kid)) [
      | inl f ↦ absurd (ground (arith, e, f))
      | inr (jwk, f) ↦ elim (Option-cases (v.attest.agent_grant c.iss c.ag_s256)) [
        | inl g ↦ absurd (ground (arith, e, f, g))
        | inr (grant, g) ↦ (psa, jwk, grant, e, f, g)
      ]
    ]
  ]

  pub verify_layer2_sound :
      (v : Verifier R) (hdr : JwtHeader) (c d : AuthClaims)
      → verify_layer2 env v (hdr, c) ≡ ok d
      → (c ≡ d) × ((c.psa ≡ []) ⊎ Layer2Holds v hdr c)
  unfolding verify_layer2
  verify_layer2_sound v hdr c d h = elim (Bool-cases (text_eq c.psa [])) [
    | inl y ↦ (verify_layer2_claims v hdr c d h, inl ((text_eq_iff c.psa []).0 y))
    | inr n ↦
        let (psa, jwk, grant, e, f, g) = verify_layer2_resolved v hdr c d n h in
        (
          verify_layer2_claims v hdr c d h,
          inr (record {
            psa = psa;
            grant = grant;
            jwk = jwk;
            psa_resolved = e;
            key_resolved = f;
            psa_holds =
                verify_psa_sound env v.chain psa c.iss (thumbprint env jwk)
                  (ground (arith, e, f, n));
            sub_is_root = ground (arith, e, f, n);
            grant_resolved = g;
            grant_holds =
                verify_agent_grant_sound env v.chain grant psa.root c.agent (thumbprint env c.cnf)
                  (ground (arith, e, f, g, n));
          }),
        )
  ]
