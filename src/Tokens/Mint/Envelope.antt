-- ===== src/Tokens/Mint/Envelope.antt =====
-- Mint succeeds exactly inside the envelope of the authorization (I1, I3).
use signet_ps.Env.{elems, Env}
use signet_ps.Tokens.Jwt.{has_key_size, sign_jwt}
use signet_ps.Base.{
  length, Bool-cases, Option-cases, ℤ, pos, ◌≤ℤ◌, ◌<ℤ◌, Map, Bytes, Text, codes, text_eq,
  text_eq_iff, In, contains-iff-In, ok, err, ◌≡◌, refl, ◌≢◌, ◌↔◌, ◌⊎◌, inl, inr, true, Option, none,
  some, List, [], ◌∷◌, arith,
}
use signet_ps.Std.Decimal.{set_string}
use signet_ps.Attest.{Scope}
use signet_ps.Tokens.{StepUp, Vouched, IssuerKey, thumbprint, big_or_zero}
use signet_ps.Tokens.Mint.{
  MintInput, claims_allowed, check_payment_envelope, apply_vouched, minted_claims, mint,
  check_amount, sign_panics,
}

-- every name to vouch for is allowed
abbrev pub AreAllowed : List Text → Map Vouched → Type 0
AreAllowed allowed [] = Unit {0}
AreAllowed allowed ((name, v) ∷ m) = In name allowed × AreAllowed allowed m

claims_allowed_iff :
    (allowed : List Text) (m : Map Vouched)
    → (claims_allowed allowed m ≡ true) ↔ AreAllowed allowed m
unfolding claims_allowed
claims_allowed_iff allowed [] = (λ _. tt, λ _. refl)
claims_allowed_iff allowed ((name, v) ∷ m) =
    let (to, from) = claims_allowed_iff allowed m in
    let (in_to, in_from) = contains-iff-In allowed name in
    (λ h. (in_to (ground arith), to (ground arith)), λ h. ground (arith, in_from h.0, from h.1))

-- A payment of `amt` is within the cap, and has a signature if it is above a positive threshold.
pub record IsPayable (s : Scope) (amt : ℤ) (su : Option StepUp) : Type 0 where
  pub paying : big_or_zero s.payment_cap_wei ≢ pos 0
  pub capped : amt ≤ℤ big_or_zero s.payment_cap_wei
  pub stepped_up :
      pos 0 <ℤ big_or_zero s.step_up_above_wei → big_or_zero s.step_up_above_wei <ℤ amt → su ≢ none

check_amount_sound :
    (s : Scope) (amt : ℤ) (su : Option StepUp) → check_amount s amt su ≡ ok tt → IsPayable s amt su
unfolding check_amount
check_amount_sound s amt su h = record {
  paying = ground arith;
  capped = ground arith;
  stepped_up = ground arith;
}

check_amount_complete :
    (s : Scope) (amt : ℤ) (su : Option StepUp) → IsPayable s amt su → check_amount s amt su ≡ ok tt
unfolding check_amount
check_amount_complete s amt su h = ground (arith, h.paying, h.capped, h.stepped_up)

-- An amount is absent, or is a decimal number that may be paid.
abbrev pub IsPayment : Scope → Text → Option StepUp → Type 0
IsPayment s amount_wei su =
    (amount_wei ≡ []) ⊎ ((amt : ℤ) × (set_string amount_wei ≡ some amt) × IsPayable s amt su)

check_payment_envelope_sound :
    (s : Scope) (amount_wei : Text) (su : Option StepUp)
    → check_payment_envelope s amount_wei su ≡ ok tt
    → IsPayment s amount_wei su
unfolding check_payment_envelope
check_payment_envelope_sound s amount_wei su h = elim (Bool-cases (text_eq amount_wei [])) [
  | inl e ↦ inl ((text_eq_iff amount_wei []).0 e)
  | inr e ↦ elim (Option-cases (set_string amount_wei)) [
    | inl n ↦ absurd (ground (arith, e, n))
    | inr (amt, n) ↦ inr (amt, n, check_amount_sound s amt su (ground (arith, e, n)))
  ]
]

check_payment_envelope_complete :
    (s : Scope) (amount_wei : Text) (su : Option StepUp)
    → IsPayment s amount_wei su
    → check_payment_envelope s amount_wei su ≡ ok tt
unfolding check_payment_envelope
check_payment_envelope_complete s amount_wei su (inl e) = ground (arith, text_eq_iff amount_wei [])
check_payment_envelope_complete s amount_wei su (inr (amt, e, h)) =
    ground (arith, e, check_amount_complete s amt su h)

module _ (env : Env) where
  -- The request stays within the authorization, and the key is one that signs.
  pub record InEnvelope (key : IssuerKey) (inp : MintInput) : Type 0 where
    pub covered : In (thumbprint env key.pub_jwk) (elems inp.psa.key_thumbprints)
    pub allowed : AreAllowed (elems inp.psa.scope.allowed_claims) inp.claims
    pub payment : IsPayment inp.psa.scope inp.resource.amount_wei inp.step_up
    pub private_size : length key.priv ≡ 64

  -- a key that signs does not panic
  pub mint-ne-sign_panics :
      (key : IssuerKey) (inp : MintInput) (now : ℤ) (rand : Bytes)
      → length key.priv ≡ 64
      → mint env key inp now rand ≢ err sign_panics
  unfolding mint has_key_size check_payment_envelope check_amount
  mint-ne-sign_panics key inp now rand size h = ground arith

  mint_sound :
      (key : IssuerKey) (inp : MintInput) (now : ℤ) (rand : Bytes) (raw : Text)
      → mint env key inp now rand ≡ ok raw
      → InEnvelope key inp
  unfolding mint has_key_size
  mint_sound key inp now rand raw h = record {
    covered = (contains-iff-In _ _).0 (ground arith);
    allowed = (claims_allowed_iff _ _).0 (ground arith);
    payment = check_payment_envelope_sound _ _ _ (ground arith);
    private_size = ground arith;
  }

  pub mint_complete :
      (key : IssuerKey) (inp : MintInput) (now : ℤ) (rand : Bytes)
      → InEnvelope key inp
      → mint env key inp now rand
        ≡ ok (
            sign_jwt env key
              (codes "auth+jwt")
              (apply_vouched (minted_claims env inp now rand) inp.claims))
  unfolding mint has_key_size
  mint_complete key inp now rand h = ground (
    arith,
    (contains-iff-In (elems inp.psa.key_thumbprints) (thumbprint env key.pub_jwk)).1 h.covered,
    (claims_allowed_iff (elems inp.psa.scope.allowed_claims) inp.claims).1 h.allowed,
    check_payment_envelope_complete inp.psa.scope inp.resource.amount_wei inp.step_up h.payment,
    h.private_size,
  )

  -- Mint returns a token exactly if the issuer key is one of the authorized keys, every claim to
  -- vouch for is allowed, and the amount, if there is one, is a number within a cap that is not 0,
  -- with a step-up signature if it is above a positive threshold, and the private key has the 64
  -- bytes without which ed25519.Sign panics; the clock and the random bytes do not matter.
  pub mint_iff :
      (key : IssuerKey) (inp : MintInput) (now : ℤ) (rand : Bytes)
      → ((raw : Text) × (mint env key inp now rand ≡ ok raw)) ↔ InEnvelope key inp
  mint_iff key inp now rand =
      (λ (raw, h). mint_sound key inp now rand raw h, λ h. (_, mint_complete key inp now rand h))
