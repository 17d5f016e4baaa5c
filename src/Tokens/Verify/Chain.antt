-- ===== src/Tokens/Verify/Chain.antt =====
-- The verifier as a whole: what it accepts, when it spends a token's id, and how it relates to the
-- vanilla verifier.
use signet_ps.Base.{
  Text, Result, ok, err, ◌≡◌, refl, subst, ◌≢◌, ◌↔◌, ◌⊎◌, inl, inr, false, [], arith,
}
use signet_ps.Env.{Env}
use signet_ps.Tokens.{AuthClaims}
use signet_ps.Tokens.Jwt.Claims.{JwtHeader}
use signet_ps.Tokens.Verify.{
  VerifyError, jti_replay, Verifier, check_claims, verify_layer1, verify_layer2, verify,
  verify_vanilla, spend_checked, after_layer1, vanilla,
}
use signet_ps.Tokens.Verify.Layers.{
  Layer1Holds, check_claims_sound, check_claims_complete, Layer2Holds, verify_layer2_complete,
  verify_layer2_sound,
}

module _ (env : Env) {R : Type 0} where
  -- The token passes both layers and its id was not seen before.
  abbrev pub IsAccepted : Verifier R → R → Text → Text → Text → AuthClaims → Type 0
  IsAccepted v cache raw aud thumb c =
      (hdr : JwtHeader) × Layer1Holds env v raw aud thumb hdr c
      × ((v.replay cache c.jti c.exp).0 ≡ false)
      × ((c.psa ≡ []) ⊎ Layer2Holds env v hdr c)

  spend_cases :
      (v : Verifier R) (cache : R) (hdr : JwtHeader) (c : AuthClaims)
      → ((v.replay cache c.jti c.exp).0 ≡ false
          → spend_checked env v cache (ok (hdr, c)) ≡ (ok (hdr, c), (v.replay cache c.jti c.exp).1))
  unfolding spend_checked
  spend_cases v cache hdr c e = ground (arith, e)

  spend_sound :
      (v : Verifier R) (cache : R) (hdr hdr' : JwtHeader) (c c' : AuthClaims)
      → (spend_checked env v cache (ok (hdr, c))).0 ≡ ok (hdr', c')
      → (hdr ≡ hdr') × (c ≡ c') × ((v.replay cache c.jti c.exp).0 ≡ false)
  unfolding spend_checked
  spend_sound v cache hdr hdr' c c' h = (ground arith, ground arith, ground arith)

  check_cases :
      (v : Verifier R) (raw aud thumb : Text)
      → ((hdr : JwtHeader) × (c : AuthClaims) × (check_claims env v raw aud thumb ≡ ok (hdr, c)))
        ⊎ ((e : VerifyError) × (check_claims env v raw aud thumb ≡ err e))
  check_cases v raw aud thumb = go (check_claims env v raw aud thumb) refl
    where
      go :
          (r : Result VerifyError (JwtHeader × AuthClaims))
          → check_claims env v raw aud thumb ≡ r
          → ((hdr : JwtHeader) × (c : AuthClaims) × (check_claims env v raw aud thumb
                ≡ ok (hdr, c)))
            ⊎ ((e : VerifyError) × (check_claims env v raw aud thumb ≡ err e))
      go (ok (hdr, c)) e = inl (hdr, c, e)
      go (err x) e = inr (x, e)

  layer1_sound :
      (v : Verifier R) (cache : R) (raw aud thumb : Text) (hdr : JwtHeader) (c : AuthClaims)
      → (verify_layer1 env v cache raw aud thumb).0 ≡ ok (hdr, c)
      → Layer1Holds env v raw aud thumb hdr c × ((v.replay cache c.jti c.exp).0 ≡ false)
  unfolding verify_layer1
  layer1_sound v cache raw aud thumb hdr c h = elim (check_cases v raw aud thumb) [
    | inr (x, e) ↦ absurd (ground (arith, e))
    | inl (hdr', c', e) ↦
        let (eh, ec, fresh) = spend_sound v cache hdr' hdr c' c (rw e at h) in
        (
          check_claims_sound env v raw aud thumb hdr c (cc e),
          subst (λ (x : AuthClaims). (v.replay cache x.jti x.exp).0 ≡ false) ec fresh,
        )
  ]

  layer1_complete :
      (v : Verifier R) (cache : R) (raw aud thumb : Text) (hdr : JwtHeader) (c : AuthClaims)
      → Layer1Holds env v raw aud thumb hdr c
      → (v.replay cache c.jti c.exp).0 ≡ false
      → verify_layer1 env v cache raw aud thumb ≡ (ok (hdr, c), (v.replay cache c.jti c.exp).1)
  unfolding verify_layer1
  layer1_complete v cache raw aud thumb hdr c h fresh =
      rw (check_claims_complete env v raw aud thumb hdr c h) (spend_cases v cache hdr c fresh)

  result_pair :
      (x : Result VerifyError (JwtHeader × AuthClaims) × R) (v : Verifier R) (c : AuthClaims)
      → (after_layer1 env v x).0 ≡ ok c
      → (hdr : JwtHeader) × (d : AuthClaims) × (x.0 ≡ ok (hdr, d))
        × (verify_layer2 env v (hdr, d) ≡ ok c)
  unfolding after_layer1
  result_pair (ok (hdr, d), cache) v c h = (hdr, d, refl, h)
  result_pair (err e, cache) v c h = cc

  verify_sound :
      (v : Verifier R) (cache : R) (raw aud thumb : Text) (c : AuthClaims)
      → (verify env v cache raw aud thumb).0 ≡ ok c
      → IsAccepted v cache raw aud thumb c
  unfolding verify
  verify_sound v cache raw aud thumb c h =
      let (hdr, d, e, f) = result_pair (verify_layer1 env v cache raw aud thumb) v c h in
      let (same, two) = verify_layer2_sound env v hdr d c f in
      let (one, fresh) = layer1_sound v cache raw aud thumb hdr d e in
      subst (IsAccepted v cache raw aud thumb) same (hdr, one, fresh, two)

  pub verify_complete :
      (v : Verifier R) (cache : R) (raw aud thumb : Text) (c : AuthClaims)
      → IsAccepted v cache raw aud thumb c
      → (verify env v cache raw aud thumb).0 ≡ ok c
  unfolding verify after_layer1
  verify_complete v cache raw aud thumb c (hdr, one, fresh, two) =
      rw (layer1_complete v cache raw aud thumb hdr c one fresh)
        (verify_layer2_complete env v hdr c two)

  -- The enhanced verifier returns claims exactly if they are those of a signed, unexpired token for
  -- this audience, whose expiry is at most 24 hours after its issue (the difference taken as an
  -- int64), held by the key that signed the request, with an id not seen before, which names no
  -- authorization, or else one that holds for the issuer's key, with a subject that is its root and
  -- a grant of that root that holds for the agent and its key.
  pub verify_iff :
      (v : Verifier R) (cache : R) (raw aud thumb : Text) (c : AuthClaims)
      → ((verify env v cache raw aud thumb).0 ≡ ok c) ↔ IsAccepted v cache raw aud thumb c
  verify_iff v cache raw aud thumb c =
      (verify_sound v cache raw aud thumb c, verify_complete v cache raw aud thumb c)

  -- A presentation that fails Layer 1 for any other reason than replay leaves the replay cache as
  -- it was.
  pub failure_spends_nothing :
      (v : Verifier R) (cache : R) (raw aud thumb : Text) (e : VerifyError)
      → (verify_layer1 env v cache raw aud thumb).0 ≡ err e
      → e ≢ jti_replay
      → (verify env v cache raw aud thumb).1 ≡ cache
  unfolding verify verify_layer1 after_layer1
  failure_spends_nothing v cache raw aud thumb e h n = elim (check_cases v raw aud thumb) [
    | inr (x, p) ↦ rw p
    | inl (hdr, c, p) ↦ absurd (ground (arith, p))
  ]

  -- A token that passes Layer 1 with an id not seen before spends the id, whatever Layer 2 then
  -- says.
  pub layer2_spends_too :
      (v : Verifier R) (cache : R) (raw aud thumb : Text) (hdr : JwtHeader) (c : AuthClaims)
      → Layer1Holds env v raw aud thumb hdr c
      → (v.replay cache c.jti c.exp).0 ≡ false
      → verify env v cache raw aud thumb
        ≡ (verify_layer2 env v (hdr, c), (v.replay cache c.jti c.exp).1)
  unfolding verify after_layer1
  layer2_spends_too v cache raw aud thumb hdr c one fresh =
      rw (layer1_complete v cache raw aud thumb hdr c one fresh)

  -- Whatever the enhanced verifier accepts, the vanilla one accepts, with the same claims and the
  -- same cache afterwards.
  pub verify-vanilla :
      (v : Verifier R) (cache : R) (raw aud thumb : Text) (c : AuthClaims)
      → (verify env v cache raw aud thumb).0 ≡ ok c
      → verify_vanilla env v cache raw aud thumb ≡ (ok c, (verify env v cache raw aud thumb).1)
  unfolding verify verify_vanilla after_layer1 vanilla
  verify-vanilla v cache raw aud thumb c h =
      let (hdr, one, fresh, two) =
        verify_sound v cache raw aud thumb c (unfold verify after_layer1 in h) in
      rw (layer1_complete v cache raw aud thumb hdr c one fresh)
