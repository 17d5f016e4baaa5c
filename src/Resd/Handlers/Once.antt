-- ===== src/Resd/Handlers/Once.antt =====
-- A token opens the resource once.
use signet_ps.Base.{
  wrap_err-eq-ok, ◌⊎◌, ℤ, Map, lookup, lookup-insert, Text, text_eq, text_eq_refl, text_eq_iff,
  Result, ok, err, Bool-cases, Option-cases, some, ◌≡◌, ◌≢◌, refl, subst, inl, inr, true, false, [],
  arith,
}
use signet_ps.Std.Strings.{trim_space}
use signet_ps.Env.{Env}
use signet_ps.Tokens.{AuthClaims}
use signet_ps.Tokens.Jwt.Claims.{JwtHeader}
use signet_ps.Tokens.Verify.{VerifyError, verify_layer1, verify, verify_vanilla}
use signet_ps.Tokens.Verify.Replay.{
  verify_cache, vanilla_cache, verify-layer1, vanilla-layer1, IsReplayCache, Presented, none_yet,
  then_one, accepted_once,
}
use signet_ps.Resd.Refs.{bearer}
use signet_ps.Resd.Resolvers.{Web, seen_jti, verifier_at}
use signet_ps.Resd.Handlers.{
  Resource, Refusal, invalid, anchored, plain, admit, whoami_reply, whoami,
}

-- the id has been seen
abbrev pub IsSeen : Map ℤ → Text → Type 0
IsSeen seen jti = (exp : ℤ) × (lookup jti seen ≡ some exp)

seen_jti_records : (seen : Map ℤ) (jti : Text) (exp : ℤ) → IsSeen (seen_jti seen jti exp).1 jti
unfolding seen_jti
seen_jti_records seen jti exp = elim (Option-cases (lookup jti seen)) [
  | inl e ↦ (exp, ground (arith, e, lookup-insert jti jti exp seen, text_eq_refl jti))
  | inr (x, e) ↦ (x, ground (arith, e))
]

seen_jti_keeps :
    (seen : Map ℤ) (jti old : Text) (exp : ℤ)
    → IsSeen seen old
    → IsSeen (seen_jti seen jti exp).1 old
unfolding seen_jti
seen_jti_keeps seen jti old exp (x, h) = elim (Option-cases (lookup jti seen)) [
  | inr (y, e) ↦ (x, ground (arith, e, h))
  | inl e ↦ elim (Bool-cases (text_eq jti old)) [
    | inl y ↦ (exp, ground (arith, e, y, lookup-insert jti old exp seen))
    | inr n ↦ (x, ground (arith, e, n, h, lookup-insert jti old exp seen))
  ]
]

seen_jti_lem : IsReplayCache IsSeen seen_jti
unfolding seen_jti
seen_jti_lem = record {
  refuses = λ seen jti exp (x, h). ground (arith, h);
  records = seen_jti_records;
  keeps = seen_jti_keeps;
}

module _ (env : Env) where
  -- Requests to whoami, of anyone at any times, between two states of the cache.
  pub data Visited (rs : Resource) : Map ℤ → Map ℤ → Type 0 where
    no_visit : {seen : Map ℤ} → Visited rs seen seen
    then_visit :
        {before seen : Map ℤ} (web : Web) (now : ℤ) (authorization agent_thumb : Text)
        → Visited rs before seen
        → Visited rs before (whoami env web rs seen now authorization agent_thumb).1

  anchored_ok :
      (r : Result VerifyError AuthClaims × Map ℤ) (c : AuthClaims)
      → (anchored r).0 ≡ ok c
      → (r.0 ≡ ok c) × (c.psa ≢ [])
  unfolding anchored
  anchored_ok (err e, seen) c h = cc
  anchored_ok (ok d, seen) c h = ground (arith, text_eq_iff d.psa [])

  anchored_cache : (r : Result VerifyError AuthClaims × Map ℤ) → (anchored r).1 ≡ r.1
  unfolding anchored
  anchored_cache (err e, seen) = refl
  anchored_cache (ok d, seen) = refl

  -- what admit says, by the flag
  pub admit-cases :
      (web : Web) (rs : Resource) (seen : Map ℤ) (now : ℤ) (tok thumb : Text) (c : AuthClaims)
      → (admit env web rs seen now tok thumb).0 ≡ ok c
      → ((rs.require_key_rooted ≡ true)
          × ((verify env (verifier_at env web now) seen tok rs.self thumb).0 ≡ ok c)
          × (c.psa ≢ []))
        ⊎ ((rs.require_key_rooted ≡ false)
            × ((verify_vanilla env (verifier_at env web now) seen tok rs.self thumb).0 ≡ ok c))
  unfolding admit plain
  admit-cases web rs seen now tok thumb c h =
      let v = verifier_at env web now in
      elim (Bool-cases rs.require_key_rooted) [
        | inl y ↦
            let (k, n) =
              anchored_ok (verify env v seen tok rs.self thumb) c (ground (arith, y, h)) in
            inl (y, k, n)
        | inr n ↦ inr (
          n,
          wrap_err-eq-ok invalid (verify_vanilla env v seen tok rs.self thumb).0
              (ground (arith, n, h)),
        )
      ]

  admit_layer1 :
      (web : Web) (rs : Resource) (seen : Map ℤ) (now : ℤ) (tok thumb : Text) (c : AuthClaims)
      → (admit env web rs seen now tok thumb).0 ≡ ok c
      → (hdr : JwtHeader) × ((verify_layer1 env (verifier_at env web now) seen tok rs.self thumb).0
          ≡ ok (hdr, c))
  admit_layer1 web rs seen now tok thumb c h =
      let v = verifier_at env web now in
      elim (admit-cases web rs seen now tok thumb c h) [
        | inl (_, k, _) ↦ verify-layer1 env v seen tok rs.self thumb c k
        | inr (_, k) ↦ vanilla-layer1 env v seen tok rs.self thumb c k
      ]

  admit_cache :
      (web : Web) (rs : Resource) (seen : Map ℤ) (now : ℤ) (tok thumb : Text)
      → (admit env web rs seen now tok thumb).1
        ≡ (verify_layer1 env (verifier_at env web now) seen tok rs.self thumb).1
  unfolding admit plain
  admit_cache web rs seen now tok thumb = elim (Bool-cases rs.require_key_rooted) [
    | inl y ↦ ground (
      arith,
      y,
      anchored_cache (verify env (verifier_at env web now) seen tok rs.self thumb),
      verify_cache env (verifier_at env web now) seen tok rs.self thumb,
    )
    | inr n ↦ ground (arith, n, vanilla_cache env (verifier_at env web now) seen tok rs.self thumb)
  ]

  verifier_laws : (web : Web) (now : ℤ) → IsReplayCache IsSeen (verifier_at env web now).replay
  unfolding verifier_at
  verifier_laws web now = seen_jti_lem

  reply_cache : (r : Result Refusal AuthClaims × Map ℤ) → (whoami_reply r).1 ≡ r.1
  unfolding whoami_reply
  reply_cache (ok c, seen) = refl
  reply_cache (err e, seen) = refl

  visit :
      (web : Web) (rs : Resource) (before seen : Map ℤ) (now : ℤ) (authorization agent_thumb : Text)
      → Presented env IsSeen before seen
      → Presented env IsSeen before (whoami env web rs seen now authorization agent_thumb).1
  unfolding whoami
  visit web rs before seen now authorization agent_thumb v =
      let tok = bearer env.unicode_trim authorization in
      let thumb = trim_space env.unicode_trim agent_thumb in
      elim (Bool-cases (text_eq tok [])) [
        | inl y ↦ rw y v
        | inr n ↦
            rw
              (
                n,
                reply_cache (admit env web rs seen now tok thumb),
                admit_cache web rs seen now tok thumb,
              )
              (then_one (verifier_at env web now) tok rs.self thumb v (verifier_laws web now))
      ]

  Visited-Presented :
      {rs : Resource} {before after : Map ℤ}
      → Visited rs before after
      → Presented env IsSeen before after
  Visited-Presented no_visit = none_yet
  Visited-Presented {rs} (then_visit web now authorization agent_thumb v) =
      visit web rs _ _ now authorization agent_thumb (Visited-Presented v)

  -- The ids of two tokens that the resource admits one after the other differ, whatever requests
  -- reach it between the two, and whatever the web and the clock say to each.
  pub admitted_once :
      (web web' : Web) (rs : Resource) (seen later : Map ℤ) (now now' : ℤ)
      (tok tok' thumb thumb' : Text) (c d : AuthClaims)
      → (admit env web rs seen now tok thumb).0 ≡ ok c
      → Visited rs (admit env web rs seen now tok thumb).1 later
      → (admit env web' rs later now' tok' thumb').0 ≡ ok d
      → c.jti ≢ d.jti
  admitted_once web web' rs seen later now now' tok tok' thumb thumb' c d h between k =
      let v = verifier_at env web now in
      let (hdr, one) = admit_layer1 web rs seen now tok thumb c h in
      let (hdr', two) = admit_layer1 web' rs later now' tok' thumb' d k in
      accepted_once env IsSeen v (verifier_at env web' now') seen later tok tok' rs.self rs.self
        thumb thumb' hdr hdr' c d (verifier_laws web now) (verifier_laws web' now') one
        (subst (λ (x : Map ℤ). Presented env IsSeen x later) (admit_cache web rs seen now tok thumb)
          (Visited-Presented between))
        two
