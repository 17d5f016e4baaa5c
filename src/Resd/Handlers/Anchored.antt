-- ===== src/Resd/Handlers/Anchored.antt =====
-- What the flag that demands the chain changes.
use mathlib.Core.Path.{fun_ext}
use signet_ps.Base.{
  ℤ, Map, lookup, Text, text_eq_iff, Result, ok, err, Bool-cases, Option-cases, none, ◌≡◌, ◌≢◌, ◌↔◌,
  refl, inl, inr, true, false, [], arith,
}
use signet_ps.Env.{Env}
use signet_ps.Tokens.{AuthClaims}
use signet_ps.Tokens.Jwt.Claims.{JwtHeader}
use signet_ps.Tokens.Verify.{VerifyError, verify, verify_vanilla}
use signet_ps.Tokens.Verify.Layers.{Layer1Holds, Layer2Holds}
use signet_ps.Tokens.Verify.Chain.{verify_iff, verify-vanilla}
use signet_ps.Resd.Resolvers.{Web, resolve_key, seen_jti, verifier_at}
use signet_ps.Resd.Handlers.{Resource, anchored, plain, admit, whoami}
use signet_ps.Resd.Refs.{bearer}
use signet_ps.Std.Strings.{trim_space}
use signet_ps.Tokens.Verify.Replay.{vanilla_keys_only}
use signet_ps.Resd.Handlers.Once.{admit-cases}

seen_jti_fresh :
    (seen : Map ℤ) (jti : Text) (exp : ℤ)
    → (seen_jti seen jti exp).0 ≡ false
    → lookup jti seen ≡ none
unfolding seen_jti
seen_jti_fresh seen jti exp h = elim (Option-cases (lookup jti seen)) [
  | inl e ↦ e
  | inr (x, e) ↦ absurd (ground (arith, e, h))
]

pub seen_jti_unseen :
    (seen : Map ℤ) (jti : Text) (exp : ℤ)
    → lookup jti seen ≡ none
    → (seen_jti seen jti exp).0 ≡ false
unfolding seen_jti
seen_jti_unseen seen jti exp h = ground (arith, h)

module _ (env : Env) where
  -- The claims are those of an unused token that passes Layer 1, and whose chain holds.
  abbrev pub IsAnchored : Web → Resource → Map ℤ → ℤ → Text → Text → AuthClaims → Type 0
  IsAnchored web rs seen now tok thumb c =
      (hdr : JwtHeader) × Layer1Holds env (verifier_at env web now) tok rs.self thumb hdr c
      × (lookup c.jti seen ≡ none)
      × (c.psa ≢ [])
      × Layer2Holds env (verifier_at env web now) hdr c

  admit_sound :
      (web : Web) (rs : Resource) (seen : Map ℤ) (now : ℤ) (tok thumb : Text) (c : AuthClaims)
      → rs.require_key_rooted ≡ true
      → (admit env web rs seen now tok thumb).0 ≡ ok c
      → IsAnchored web rs seen now tok thumb c
  unfolding verifier_at
  admit_sound web rs seen now tok thumb c y h =
      elim (admit-cases env web rs seen now tok thumb c h) [
        | inr (n, _) ↦ absurd (ground (arith, n, y))
        | inl (_, k, some_psa) ↦
            let (hdr, one, fresh, two) =
              (verify_iff env (verifier_at env web now) seen tok rs.self thumb c).0 k in
            elim two [
              | inl e ↦ absurd (some_psa e)
              | inr holds ↦ (hdr, one, seen_jti_fresh seen c.jti c.exp fresh, some_psa, holds)
            ]
      ]

  anchored_reply :
      (r : Result VerifyError AuthClaims × Map ℤ) (c : AuthClaims)
      → r.0 ≡ ok c
      → c.psa ≢ []
      → (anchored r).0 ≡ ok c
  unfolding anchored
  anchored_reply (err e, seen) c h n = cc
  anchored_reply (ok d, seen) c h n = ground (arith, text_eq_iff d.psa [])

  admit_complete :
      (web : Web) (rs : Resource) (seen : Map ℤ) (now : ℤ) (tok thumb : Text) (c : AuthClaims)
      → rs.require_key_rooted ≡ true
      → IsAnchored web rs seen now tok thumb c
      → (admit env web rs seen now tok thumb).0 ≡ ok c
  unfolding admit anchored verifier_at
  admit_complete web rs seen now tok thumb c y (hdr, one, fresh, some_psa, two) =
      let k =
        (verify_iff env (verifier_at env web now) seen tok rs.self thumb c).1
          (hdr, one, seen_jti_unseen seen c.jti c.exp fresh, inr two) in
      rw y
        (anchored_reply (verify env (verifier_at env web now) seen tok rs.self thumb) c k some_psa)

  -- With the flag, the resource admits exactly the claims of a token with an id not seen before
  -- that passes Layer 1 there, names an authorization, and whose chain from the root holds.
  pub admit-iff-IsAnchored :
      (web : Web) (rs : Resource) (seen : Map ℤ) (now : ℤ) (tok thumb : Text) (c : AuthClaims)
      → rs.require_key_rooted ≡ true
      → ((admit env web rs seen now tok thumb).0 ≡ ok c) ↔ IsAnchored web rs seen now tok thumb c
  admit-iff-IsAnchored web rs seen now tok thumb c y =
      (admit_sound web rs seen now tok thumb c y, admit_complete web rs seen now tok thumb c y)

  -- What the enhanced verifier accepts, chain included, the resource admits with and without the flag.
  pub admit_verified :
      (web : Web) (rs : Resource) (seen : Map ℤ) (now : ℤ) (tok thumb : Text) (c : AuthClaims)
      → c.psa ≢ []
      → (verify env (verifier_at env web now) seen tok rs.self thumb).0 ≡ ok c
      → (admit env web rs seen now tok thumb).0 ≡ ok c
  unfolding admit plain
  admit_verified web rs seen now tok thumb c n h =
      let v = verifier_at env web now in
      elim (Bool-cases rs.require_key_rooted) [
        | inl y ↦ rw y (anchored_reply (verify env v seen tok rs.self thumb) c h n)
        | inr y ↦ ground (arith, y, verify-vanilla env v seen tok rs.self thumb c h)
      ]

  admit_keys_only :
      (web web' : Web) (rs : Resource) (seen : Map ℤ) (now : ℤ) (tok thumb : Text)
      → rs.require_key_rooted ≡ false
      → ((iss kid : Text) → resolve_key env web iss kid ≡ resolve_key env web' iss kid)
      → admit env web rs seen now tok thumb ≡ admit env web' rs seen now tok thumb
  unfolding admit verifier_at
  admit_keys_only web web' rs seen now tok thumb n same =
      let k : resolve_key env web ≡ resolve_key env web' =
        fun_ext (λ iss. fun_ext (λ kid. same iss kid)) in
      let e : verify_vanilla env (verifier_at env web now) seen tok rs.self thumb
          ≡ verify_vanilla env (verifier_at env web' now) seen tok rs.self thumb =
        vanilla_keys_only env (verifier_at env web now) (verifier_at env web' now) seen tok rs.self
          thumb k refl refl in
      ground (arith, n, e)

  -- Without the flag, the resource's reply is the same whatever attestations the web serves: it
  -- depends on the web only by the issuer's key.
  pub whoami_keys_only :
      (web web' : Web) (rs : Resource) (seen : Map ℤ) (now : ℤ) (authorization agent_thumb : Text)
      → rs.require_key_rooted ≡ false
      → ((iss kid : Text) → resolve_key env web iss kid ≡ resolve_key env web' iss kid)
      → whoami env web rs seen now authorization agent_thumb
        ≡ whoami env web' rs seen now authorization agent_thumb
  unfolding whoami
  whoami_keys_only web web' rs seen now authorization agent_thumb n same =
      let tok = bearer env.unicode_trim authorization in
      ground (
        arith,
        n,
        admit_keys_only web web' rs seen now tok (trim_space env.unicode_trim agent_thumb) n same,
      )
