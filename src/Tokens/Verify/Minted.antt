-- ===== src/Tokens/Verify/Minted.antt =====
-- A token that Mint issues is accepted by the enhanced verifier.
use signet_ps.Tokens.{Jwk, AuthClaims, IssuerKey, thumbprint}
use signet_ps.Tokens.Mint.Times.{
  SameCore, apply_vouched_core, final_claims, final_iat, lifetime_bounds,
}
use signet_ps.Tokens.Jwt.Signed.{auth_header, CanSign, parse_and_check_sig-sign_jwt}
use signet_ps.Tokens.Jwt.{sign_jwt, parse_and_check_sig}
use signet_ps.Base.{
  ℤ, pos, ◌+ℤ◌, ◌-ℤ◌, ◌≤ℤ◌, ◌<ℤ◌, int_laws, wrap64, wrap64_fits, Bytes, Text, codes, text_eq_refl,
  ok, ℕ, ◌≡◌, sym, ap, subst, inr, true, false, some, ◌∷◌, ◌++◌, map, arith,
}
use signet_ps.Std.Decimal.{show_int}
use signet_ps.Std.Strings.{lower, equal_fold}
use signet_ps.Env.{Env}
use signet_ps.Attest.Verify.{unix}
use signet_ps.Attest.Verify.Meaning.{PsaHolds, GrantHolds}
use signet_ps.Tokens.Mint.{MintInput, minted_claims, mint}
use signet_ps.Tokens.Mint.Envelope.{mint_complete, mint_iff}
use signet_ps.Tokens.Verify.{Verifier, caip_eq, verify}
use signet_ps.Tokens.Verify.Layers.{Layer1Holds, Layer2Holds}
use signet_ps.Tokens.Verify.Chain.{verify_complete}

-- Between 0 and a day a difference of two int64 is what it seems.
short_lived :
    (iat exp now : ℤ)
    → iat ≤ℤ now
    → now <ℤ exp
    → exp ≤ℤ iat +ℤ pos 3600
    → wrap64 (exp -ℤ iat) ≤ℤ pos 86400
short_lived iat exp now h k l =
    subst (λ (x : ℤ). x ≤ℤ pos 86400)
      (sym (wrap64_fits (exp -ℤ iat) (omega int_laws, omega int_laws))) (omega int_laws)

caip_eq_refl :
    (env : Env) (s : Text) → ((t : Text) → env.unicode_fold t t ≡ true) → caip_eq env s s ≡ true
unfolding caip_eq equal_fold
caip_eq_refl env s h = ground (arith, h s, text_eq_refl (map lower s))

module _ (env : Env) {R : Type 0} (v : Verifier R) (key : IssuerKey) (inp : MintInput) (now : ℤ)
    (rand : Bytes) where
  -- What the resource resolves is what the issuer minted from, and it holds.
  pub record Resolves (c : AuthClaims) : Type 0 where
    pub psa : v.attest.psa c.psa ≡ some inp.psa
    pub issuer_key : v.keys c.iss key.kid ≡ some key.pub_jwk
    pub grant : v.attest.agent_grant c.iss c.ag_s256 ≡ some inp.grant
    pub psa_holds : PsaHolds env v.chain inp.psa inp.psa.issuer (thumbprint env key.pub_jwk)
    pub grant_holds :
        GrantHolds env v.chain inp.grant inp.psa.root inp.agent_id (thumbprint env inp.agent_key)

  abbrev signed : AuthClaims
  signed = final_claims env inp now rand

  core : SameCore signed (minted_claims env inp now rand)
  core = apply_vouched_core (minted_claims env inp now rand) inp.claims

  signed_iss : signed.iss ≡ inp.psa.issuer
  unfolding minted_claims
  signed_iss = ap (λ (c : AuthClaims). c.iss) core

  signed_aud : signed.aud ≡ inp.resource.iss
  unfolding minted_claims
  signed_aud = ap (λ (c : AuthClaims). c.aud) core

  signed_agent : signed.agent ≡ inp.agent_id
  unfolding minted_claims
  signed_agent = ap (λ (c : AuthClaims). c.agent) core

  signed_cnf : signed.cnf ≡ inp.agent_key
  unfolding minted_claims
  signed_cnf = ap (λ (c : AuthClaims). c.cnf) core

  signed_sub :
      signed.sub ≡ codes "eip155:" ++ (show_int inp.psa.registry_chain ++ b':' ∷ inp.psa.root)
  unfolding minted_claims
  signed_sub = ap (λ (c : AuthClaims). c.sub) core

  minted_token :
      (raw : Text)
      → mint env key inp now rand ≡ ok raw
      → raw ≡ sign_jwt env key (codes "auth+jwt") signed
  minted_token raw h =
      let same = mint_complete env key inp now rand ((mint_iff env key inp now rand).0 (raw, h)) in
      ground (arith, h, same)

  layer1_of_minted :
      (raw : Text) (k : ℕ)
      → mint env key inp now rand ≡ ok raw
      → CanSign env key (codes "auth+jwt") signed
      → Resolves signed
      → inp.psa.scope.max_token_ttl_seconds ≡ pos k
      → unix now ≤ℤ unix v.now
      → unix v.now <ℤ signed.exp
      → Layer1Holds env v raw inp.resource.iss
          (thumbprint env inp.agent_key)
          (auth_header env key (codes "auth+jwt"))
          signed
  layer1_of_minted raw k h s r e early late = record {
    parsed =
        subst
          (λ t.
            parse_and_check_sig env v.keys t (codes "auth+jwt")
            ≡ ok (auth_header env key (codes "auth+jwt"), signed))
          (sym (minted_token raw h))
          (parse_and_check_sig-sign_jwt env v.keys key (codes "auth+jwt") signed s r.issuer_key);
    for_aud = signed_aud;
    unexpired = late;
    short =
        short_lived signed.iat signed.exp (unix v.now)
          (subst (λ (x : ℤ). x ≤ℤ unix v.now) (sym (final_iat env inp now rand)) early) late
          (lifetime_bounds env inp now rand k e).0;
    holder = ap (thumbprint env) signed_cnf;
  }

  layer2_of_minted :
      ((t : Text) → env.unicode_fold t t ≡ true)
      → Resolves signed
      → Layer2Holds env v (auth_header env key (codes "auth+jwt")) signed
  layer2_of_minted fold r = record {
    psa = inp.psa;
    grant = inp.grant;
    jwk = key.pub_jwk;
    psa_resolved = r.psa;
    key_resolved = r.issuer_key;
    psa_holds =
        subst (λ t. PsaHolds env v.chain inp.psa t (thumbprint env key.pub_jwk)) (sym signed_iss)
          r.psa_holds;
    sub_is_root =
        subst
          (λ t.
            caip_eq env
              (codes "eip155:" ++ (show_int inp.psa.registry_chain ++ b':' ∷ inp.psa.root)) t
            ≡ true)
          (sym signed_sub) (caip_eq_refl env _ fold);
    grant_resolved = r.grant;
    grant_holds =
        subst (λ t. GrantHolds env v.chain inp.grant inp.psa.root t (thumbprint env signed.cnf))
          (sym signed_agent)
          (subst
            (λ (j : Jwk).
              GrantHolds env v.chain inp.grant inp.psa.root inp.agent_id (thumbprint env j))
            (sym signed_cnf) r.grant_holds);
  }

  -- A token that Mint returns passes the enhanced verifier of its resource, shown by the agent's
  -- key, with the claims that were minted, if the issuer can sign, the resource resolves the key
  -- and the attestations it was minted from and they hold there, folding compares a text equal to
  -- itself, the granted lifetime is not negative, the clock is between minting and expiry, and the
  -- id was not seen before.
  pub minted_is_accepted :
      (cache : R) (raw : Text) (k : ℕ)
      → mint env key inp now rand ≡ ok raw
      → CanSign env key (codes "auth+jwt") signed
      → ((t : Text) → env.unicode_fold t t ≡ true)
      → Resolves signed
      → inp.psa.scope.max_token_ttl_seconds ≡ pos k
      → unix now ≤ℤ unix v.now
      → unix v.now <ℤ signed.exp
      → (v.replay cache signed.jti signed.exp).0 ≡ false
      → (verify env v cache raw inp.resource.iss (thumbprint env inp.agent_key)).0 ≡ ok signed
  minted_is_accepted cache raw k h s fold r e early late fresh =
      verify_complete env v cache raw inp.resource.iss (thumbprint env inp.agent_key) signed (
        auth_header env key (codes "auth+jwt"),
        layer1_of_minted raw k h s r e early late,
        fresh,
        inr (layer2_of_minted fold r),
      )
