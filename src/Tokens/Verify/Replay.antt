-- ===== src/Tokens/Verify/Replay.antt =====
-- The replay cache over a sequence of presentations, for a cache that records what it is asked about.
use mathlib.Core.Path.{fun_ext}
use signet_ps.Base.{
  Text, Bool, Result, ok, err, ℤ, ◌≡◌, refl, ap, sym, subst, ◌≢◌, ◌∙◌, true, false, arith,
}
use signet_ps.Env.{Env}
use signet_ps.Tokens.{AuthClaims}
use signet_ps.Tokens.Jwt.Claims.{JwtHeader}
use signet_ps.Tokens.Verify.Layers.{verify_layer2_sound}
use signet_ps.Tokens.Verify.{
  VerifyError, ReplayCache, Verifier, check_claims, verify_layer1, verify, verify_vanilla,
  check_parsed, spend, spend_checked, after_layer1, vanilla,
}

-- What the cache answers follows what it has seen, and it forgets nothing.
pub record IsReplayCache {R : Type 0} (Seen : R → Text → Type 0) (replay : ReplayCache R)
    : Type 0 where
  pub refuses :
      (cache : R) (jti : Text) (exp : ℤ) → Seen cache jti → (replay cache jti exp).0 ≡ true
  pub records : (cache : R) (jti : Text) (exp : ℤ) → Seen (replay cache jti exp).1 jti
  pub keeps :
      (cache : R) (jti old : Text) (exp : ℤ) → Seen cache old → Seen (replay cache jti exp).1 old

module _ (env : Env) {R : Type 0} where
  spend_cache :
      (answer : Bool × R) (hc : JwtHeader × AuthClaims) → (spend env answer hc).1 ≡ answer.1
  unfolding spend
  spend_cache (true, cache) hc = refl
  spend_cache (false, cache) hc = refl

  spend_ok :
      (answer : Bool × R) (hc hd : JwtHeader × AuthClaims)
      → (spend env answer hc).0 ≡ ok hd
      → (answer.0 ≡ false) × (hc ≡ hd)
  unfolding spend
  spend_ok (true, cache) hc hd h = cc
  spend_ok (false, cache) hc hd h = (refl, cc)

  after_layer1_ok :
      (v : Verifier R) (r : Result VerifyError (JwtHeader × AuthClaims) × R) (c : AuthClaims)
      → (after_layer1 env v r).0 ≡ ok c
      → (hdr : JwtHeader) × (r.0 ≡ ok (hdr, c))
  unfolding after_layer1
  after_layer1_ok v (ok (hdr, d), cache) c h =
      (hdr, ap (λ (x : AuthClaims). ok (hdr, x)) (verify_layer2_sound env v hdr d c h).0)
  after_layer1_ok v (err e, cache) c h = cc

  vanilla_ok :
      (v : Verifier R) (r : Result VerifyError (JwtHeader × AuthClaims) × R) (c : AuthClaims)
      → (vanilla env r).0 ≡ ok c
      → (hdr : JwtHeader) × (r.0 ≡ ok (hdr, c))
  unfolding vanilla
  vanilla_ok v (ok (hdr, d), cache) c h = (hdr, cc)
  vanilla_ok v (err e, cache) c h = cc

  -- Both verifiers stand on Layer 1, for what they accept and for what they leave in the cache.
  pub verify-layer1 :
      (v : Verifier R) (cache : R) (raw aud thumb : Text) (c : AuthClaims)
      → (verify env v cache raw aud thumb).0 ≡ ok c
      → (hdr : JwtHeader) × ((verify_layer1 env v cache raw aud thumb).0 ≡ ok (hdr, c))
  unfolding verify
  verify-layer1 v cache raw aud thumb c h =
      after_layer1_ok v (verify_layer1 env v cache raw aud thumb) c h

  pub vanilla-layer1 :
      (v : Verifier R) (cache : R) (raw aud thumb : Text) (c : AuthClaims)
      → (verify_vanilla env v cache raw aud thumb).0 ≡ ok c
      → (hdr : JwtHeader) × ((verify_layer1 env v cache raw aud thumb).0 ≡ ok (hdr, c))
  unfolding verify_vanilla
  vanilla-layer1 v cache raw aud thumb c h =
      vanilla_ok v (verify_layer1 env v cache raw aud thumb) c h

  pub verify_cache :
      (v : Verifier R) (cache : R) (raw aud thumb : Text)
      → (verify env v cache raw aud thumb).1 ≡ (verify_layer1 env v cache raw aud thumb).1
  unfolding verify after_layer1
  verify_cache v cache raw aud thumb = refl

  pub vanilla_cache :
      (v : Verifier R) (cache : R) (raw aud thumb : Text)
      → (verify_vanilla env v cache raw aud thumb).1 ≡ (verify_layer1 env v cache raw aud thumb).1
  unfolding verify_vanilla vanilla
  vanilla_cache v cache raw aud thumb = refl

  parsed_keys_only :
      (v w : Verifier R) (aud thumb : Text) (hc : JwtHeader × AuthClaims)
      → v.now ≡ w.now
      → check_parsed env v aud thumb hc ≡ check_parsed env w aud thumb hc
  unfolding check_parsed
  parsed_keys_only v w aud thumb (hdr, c) n = rw n refl

  checked_keys_only :
      (v w : Verifier R) (cache : R) (r : Result VerifyError (JwtHeader × AuthClaims))
      → v.replay ≡ w.replay
      → spend_checked env v cache r ≡ spend_checked env w cache r
  unfolding spend_checked
  checked_keys_only v w cache (err e) p = refl
  checked_keys_only v w cache (ok (hdr, c)) p = rw p refl

  claims_keys_only :
      (v w : Verifier R) (raw aud thumb : Text)
      → v.keys ≡ w.keys
      → v.now ≡ w.now
      → check_claims env v raw aud thumb ≡ check_claims env w raw aud thumb
  unfolding check_claims
  claims_keys_only v w raw aud thumb k n =
      rw (k, fun_ext (λ (hc : JwtHeader × AuthClaims). parsed_keys_only v w aud thumb hc n)) refl

  -- The vanilla verifier reads of its fields only the keys, the clock and the cache.
  pub vanilla_keys_only :
      (v w : Verifier R) (cache : R) (raw aud thumb : Text)
      → v.keys ≡ w.keys
      → v.now ≡ w.now
      → v.replay ≡ w.replay
      → verify_vanilla env v cache raw aud thumb ≡ verify_vanilla env w cache raw aud thumb
  unfolding verify_vanilla verify_layer1
  vanilla_keys_only v w cache raw aud thumb k n r = ap (vanilla env) (
      checked_keys_only v w cache (check_claims env v raw aud thumb) r
      ∙ ap (spend_checked env w cache) (claims_keys_only v w raw aud thumb k n))

module _ (env : Env) {R : Type 0} (Seen : R → Text → Type 0) where
  -- Presentations, of any tokens at any times, between two states of the cache.
  pub data Presented : R → R → Type 0 where
    none_yet : {cache : R} → Presented cache cache
    then_one :
        {before cache : R} (v : Verifier R) (raw aud thumb : Text)
        → Presented before cache
        → IsReplayCache Seen v.replay
        → Presented before (verify_layer1 env v cache raw aud thumb).1

  checked_keeps :
      (v : Verifier R) (cache : R) (r : Result VerifyError (JwtHeader × AuthClaims)) (old : Text)
      → IsReplayCache Seen v.replay
      → Seen cache old
      → Seen (spend_checked env v cache r).1 old
  unfolding spend_checked
  checked_keeps v cache (err e) old laws h = h
  checked_keeps v cache (ok (hdr, c)) old laws h =
      subst (λ x. Seen x old) (sym (spend_cache env (v.replay cache c.jti c.exp) (hdr, c)))
        (laws.keeps cache c.jti old c.exp h)

  checked_spends :
      (v : Verifier R) (cache : R) (r : Result VerifyError (JwtHeader × AuthClaims))
      (hdr : JwtHeader) (c : AuthClaims)
      → IsReplayCache Seen v.replay
      → (spend_checked env v cache r).0 ≡ ok (hdr, c)
      → Seen (spend_checked env v cache r).1 c.jti × (¬ Seen cache c.jti)
  unfolding spend_checked
  checked_spends v cache (err e) hdr c laws h = cc
  checked_spends v cache (ok (hdr', d)) hdr c laws h =
      let answer = v.replay cache d.jti d.exp in
      let (fresh, same) = spend_ok env answer (hdr', d) (hdr, c) h in
      subst
        (λ (hd : JwtHeader × AuthClaims).
          Seen (spend env answer (hdr', d)).1 hd.1.jti × (¬ Seen cache hd.1.jti))
        same
        (
          subst (λ x. Seen x d.jti) (sym (spend_cache env answer (hdr', d)))
              (laws.records cache d.jti d.exp),
          λ k. absurd (ground (arith, fresh, laws.refuses cache d.jti d.exp k)),
        )

  keeps-Presented :
      {before after : R} (old : Text) → Presented before after → Seen before old → Seen after old
  unfolding verify_layer1
  keeps-Presented old none_yet h = h
  keeps-Presented old (then_one v raw aud thumb before laws) h =
      checked_keeps v _ (check_claims env v raw aud thumb) old laws (keeps-Presented old before h)

  -- The ids of two tokens that Layer 1 accepts one after the other differ, whatever is presented
  -- between them, to whichever verifiers of the cache, if the cache follows its laws.
  pub accepted_once :
      (v w : Verifier R) (cache later : R) (raw raw' aud aud' thumb thumb' : Text)
      (hdr hdr' : JwtHeader) (c d : AuthClaims)
      → IsReplayCache Seen v.replay
      → IsReplayCache Seen w.replay
      → (verify_layer1 env v cache raw aud thumb).0 ≡ ok (hdr, c)
      → Presented (verify_layer1 env v cache raw aud thumb).1 later
      → (verify_layer1 env w later raw' aud' thumb').0 ≡ ok (hdr', d)
      → c.jti ≢ d.jti
  unfolding verify_layer1
  accepted_once v w cache later raw raw' aud aud' thumb thumb' hdr hdr' c d laws laws' h between k
        same =
      let (seen, _) = checked_spends v cache (check_claims env v raw aud thumb) hdr c laws h in
      let (_, unseen) =
        checked_spends w later (check_claims env w raw' aud' thumb') hdr' d laws' k in
      unseen (subst (λ j. Seen later j) same (keeps-Presented c.jti between seen))
