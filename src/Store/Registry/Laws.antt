-- ===== src/Store/Registry/Laws.antt =====
-- A revocation names one root and one nonce, and is for ever.
use signet_ps.Base.{
  Bool-cases, ℤ, lookup-insert, Text, text_eq, text_eq_iff, ℕ, ◌≡◌, refl, sym, subst, ◌∙◌, ◌↔◌, ◌⊎◌,
  inl, inr, true, false, some, [], ◌∷◌, ◌++◌, arith,
}
use signet_ps.Std.Decimal.RoundTrip.{show_nat_injective, AreDigits, AreDigits-show_nat}
use signet_ps.Store.Registry.{MemoryRegistry, key, revoke, is_revoked}

no_hash_in_digits : (s t : Text) → AreDigits (s ++ b'#' ∷ t) → ⊥
no_hash_in_digits [] t h = omega (arith, h.0)
no_hash_in_digits (c ∷ s) t h = no_hash_in_digits s t h.1.1

split_at_last_hash :
    (s t d e : Text) → AreDigits d → AreDigits e → s ++ b'#' ∷ d ≡ t ++ b'#' ∷ e → (s ≡ t) × (d ≡ e)
split_at_last_hash [] [] d e hd he h = (refl, cc)
split_at_last_hash [] (c ∷ t) d e hd he h = absurd (no_hash_in_digits t e (subst AreDigits (cc) hd))
split_at_last_hash (c ∷ s) [] d e hd he h = absurd (no_hash_in_digits s d (subst AreDigits (cc) he))
split_at_last_hash (c ∷ s) (c' ∷ t) d e hd he h =
    let (p, q) = split_at_last_hash s t d e hd he (cc) in (cc, q)

key_injective :
    (root root' : Text) (nonce nonce' : ℕ)
    → key root nonce ≡ key root' nonce'
    → (root ≡ root') × (nonce ≡ nonce')
unfolding key
key_injective root root' nonce nonce' h =
    let (p, q) =
      split_at_last_hash root root' _ _ (AreDigits-show_nat nonce) (AreDigits-show_nat nonce') h in
    (p, show_nat_injective nonce nonce' q)

module _ (m : MemoryRegistry) (chain_id : ℤ) (registry root root' : Text) (nonce nonce' : ℕ) where
  same_key :
      key root nonce ≡ key root' nonce'
      → is_revoked (revoke m root nonce) chain_id registry root' nonce' ≡ some true
  unfolding revoke is_revoked
  same_key h = simp (
    lookup-insert (key root nonce) (key root' nonce') true m,
    (text_eq_iff (key root nonce) (key root' nonce')).1 h,
  )

  other_key :
      text_eq (key root nonce) (key root' nonce') ≡ false
      → is_revoked (revoke m root nonce) chain_id registry root' nonce'
        ≡ is_revoked m chain_id registry root' nonce'
  unfolding revoke is_revoked
  other_key h = simp (lookup-insert (key root nonce) (key root' nonce') true m, h)

  cong_key : root ≡ root' → nonce ≡ nonce' → key root nonce ≡ key root' nonce'
  cong_key p q = cc

  -- After a revocation exactly that root and nonce are revoked, and those that were before:
  -- revoking one attestation touches no other root and no other nonce of the root, even if a root
  -- contains "#".
  pub revoke_iff : (is_revoked (revoke m root nonce) chain_id registry root' nonce' ≡ some true) ↔ (
      ((root ≡ root') × (nonce ≡ nonce'))
      ⊎ (is_revoked m chain_id registry root' nonce' ≡ some true))
  revoke_iff = elim (Bool-cases (text_eq (key root nonce) (key root' nonce'))) [
    | inl h ↦
        let e = (text_eq_iff (key root nonce) (key root' nonce')).0 h in
        (λ _. inl (key_injective root root' nonce nonce' e), λ _. same_key e)
    | inr h ↦ (
      λ r. inr (sym (other_key h) ∙ r),
      λ r. elim r [
        | inl (p, q) ↦
            absurd
              (ground (arith, h, text_eq_iff (key root nonce) (key root' nonce'), cong_key p q))
        | inr r ↦ other_key h ∙ r
      ],
    )
  ]
