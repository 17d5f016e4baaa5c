-- ===== src/Tokens/Mint/Times.antt =====
-- How long a minted token lives.
use native.Mathlib.Decide.{dec_lt}
use signet_ps.Env.{Env}
use signet_ps.Tokens.{Vouched, AuthClaims}
use signet_ps.Base.{
  ℤ, pos, negsuc, ◌+ℤ◌, ◌*ℤ◌, ◌≤ℤ◌, wrap64, floor_div, Map, Bytes, Text, ℕ, ◌*◌, ◌<◌, ◌≡◌, refl, ap,
  subst, [], ◌∷◌, arith,
}
use signet_ps.Attest.{Scope}
use signet_ps.Attest.Verify.{unix}
use signet_ps.Tokens.Mint.{
  MintInput, hour, max_ttl, clamp_ttl, apply_vouched, minted_claims, apply_one,
}

-- A sum of times, read in whole seconds.
unix_step : (t d : ℤ) (k : ℕ) → d ≤ℤ pos (k * 1000000000) → unix (t +ℤ d) ≤ℤ unix t +ℤ pos k
unfolding unix floor_div ◌+ℤ◌
unix_step (pos t) (pos d) k h = ground arith
unix_step (pos t) (negsuc d) k h = ground arith
unix_step (negsuc t) (pos d) k h = ground arith
unix_step (negsuc t) (negsuc d) k h = ground arith

clamp_ttl-le-hour : (s : Scope) (ttl : ℤ) → clamp_ttl s ttl ≤ℤ hour
unfolding clamp_ttl
clamp_ttl-le-hour s ttl = ground arith

clamp_ttl-le-max_ttl : (s : Scope) (ttl : ℤ) → clamp_ttl s ttl ≤ℤ max_ttl s
unfolding clamp_ttl
clamp_ttl-le-max_ttl s ttl = ground arith

-- Below the hour a granted lifetime does not overflow.
max_ttl_exact :
    (s : Scope) (k : ℕ)
    → s.max_token_ttl_seconds ≡ pos k
    → k < 3600
    → max_ttl s ≡ pos (k * 1000000000)
unfolding max_ttl ◌*ℤ◌ wrap64
max_ttl_exact s k e h = ground (arith, e)

clamp_ttl-le-grant :
    (s : Scope) (ttl : ℤ) (k : ℕ)
    → s.max_token_ttl_seconds ≡ pos k
    → clamp_ttl s ttl ≤ℤ pos (k * 1000000000)
clamp_ttl-le-grant s ttl k e = elim (dec_lt k 3600) [
  | yes p ↦ subst (λ x. clamp_ttl s ttl ≤ℤ x) (max_ttl_exact s k e p) (clamp_ttl-le-max_ttl s ttl)
  | no n ↦ omega (arith, clamp_ttl-le-hour s ttl)
]

-- Vouching writes the three identity claims and nothing else.
abbrev pub SameCore : AuthClaims → AuthClaims → Type 0
SameCore c d = c ≡ record d { name = c.name; email = c.email; kyc = c.kyc }

apply_one_core : (c : AuthClaims) (nv : Text × Vouched) → SameCore (apply_one c nv) c
unfolding apply_one
apply_one_core c (name, v) = ground arith

SameCore-trans : (a b c : AuthClaims) → SameCore a b → SameCore b c → SameCore a c
SameCore-trans a b c h k = cc

pub apply_vouched_core : (c : AuthClaims) (m : Map Vouched) → SameCore (apply_vouched c m) c
unfolding apply_vouched
apply_vouched_core c [] = refl
apply_vouched_core c (nv ∷ m) =
    SameCore-trans _ (apply_one c nv) c (apply_vouched_core (apply_one c nv) m)
      (apply_one_core c nv)

module _ (env : Env) where
  -- The claims that Mint signs, their identity claims included.
  abbrev pub final_claims : MintInput → ℤ → Bytes → AuthClaims
  final_claims inp now rand = apply_vouched (minted_claims env inp now rand) inp.claims

  pub final_exp :
      (inp : MintInput) (now : ℤ) (rand : Bytes)
      → (final_claims inp now rand).exp ≡ unix (now +ℤ clamp_ttl inp.psa.scope inp.ttl)
  unfolding minted_claims
  final_exp inp now rand =
      ap (λ (c : AuthClaims). c.exp)
        (apply_vouched_core (minted_claims env inp now rand) inp.claims)

  pub final_iat :
      (inp : MintInput) (now : ℤ) (rand : Bytes) → (final_claims inp now rand).iat ≡ unix now
  unfolding minted_claims
  final_iat inp now rand =
      ap (λ (c : AuthClaims). c.iat)
        (apply_vouched_core (minted_claims env inp now rand) inp.claims)

  -- If the granted lifetime is not negative, a minted token lives at most an hour and at most that
  -- many seconds, whatever the caller asks for and however large the grant.
  pub lifetime_bounds :
      (inp : MintInput) (now : ℤ) (rand : Bytes) (k : ℕ)
      → inp.psa.scope.max_token_ttl_seconds ≡ pos k
      → let c = final_claims inp now rand in
        (c.exp ≤ℤ c.iat +ℤ pos 3600) × (c.exp ≤ℤ c.iat +ℤ pos k)
  lifetime_bounds inp now rand k e =
      rw (final_exp inp now rand, final_iat inp now rand)
        (
          unix_step now _ 3600 (clamp_ttl-le-hour inp.psa.scope inp.ttl),
          unix_step now _ k (clamp_ttl-le-grant inp.psa.scope inp.ttl k e),
        )
