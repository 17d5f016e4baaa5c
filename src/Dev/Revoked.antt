-- ===== src/Dev/Revoked.antt =====
-- A revocation by the tool, and what verifiers then make of the attestation.
use signet_ps.Base.{
  ℤ, Text, ok, ℕ, ◌^◌, ◌<◌, ◌≡◌, ◌≢◌, refl, ap, subst, sym, ◌∙◌, inl, true, false, some, arith,
}
use signet_ps.Std.Decimal.{show_nat}
use signet_ps.Std.Decimal.Uint.{parse_uint-show_nat}
use signet_ps.Env.{Env}
use signet_ps.Attest.{PersonServerAuthorization, AgentGrant}
use signet_ps.Attest.Verify as AttestVerify
use signet_ps.Attest.Verify.{verify_psa, verify_agent_grant}
use signet_ps.Attest.Verify.Meaning.{verify_psa_iff, verify_agent_grant_iff}
use signet_ps.Store.Registry.{MemoryRegistry, revoke, is_revoked}
use signet_ps.Store.Registry.Laws.{revoke_iff}
use signet_ps.Devtool.{RootFile, load_root}
use signet_ps.Dev.{dev_revoke, revoke_query}

revoke_query_lem :
    (file : RootFile) (nonce : ℕ) (root text : Text)
    → revoke_query file nonce ≡ some (root, text)
    → text ≡ show_nat nonce
unfolding revoke_query load_root
revoke_query_lem file nonce root text h = ground arith

dev_revoke_lem :
    (m m' : MemoryRegistry) (root : Text) (nonce : ℕ)
    → nonce < 2 ^ 64
    → dev_revoke m root (show_nat nonce) ≡ some m'
    → revoke m root nonce ≡ m'
unfolding dev_revoke
dev_revoke_lem m m' root nonce k h = ground (arith, parse_uint-show_nat nonce k)

live_lem :
    (m : MemoryRegistry) (v : AttestVerify.Verifier) (chain_id : ℤ) (registry root root' : Text)
    (nonce nonce' : ℕ)
    → v.registry ≡ is_revoked m
    → root' ≡ root
    → nonce' ≡ nonce
    → is_revoked m chain_id registry root nonce ≡ some true
    → v.registry chain_id registry root' nonce' ≢ some false
live_lem m v chain_id registry root root' nonce nonce' e r n gone live = absurd (
    ground (
      arith,
      gone,
      sym (
          subst (λ x. is_revoked m chain_id registry x nonce ≡ some false) r
            (subst (λ x. is_revoked m chain_id registry root' x ≡ some false) n
              (subst (λ f. f chain_id registry root' nonce' ≡ some false) e live))),
    ))

-- Once the server has taken the query of the tool for a nonce of 64 bits, no verifier over its
-- registry accepts an authorization or a grant with that nonce whose root is spelled as in the
-- query.
pub revoked_is_refused :
    (env : Env) (file : RootFile) (m m' : MemoryRegistry) (root text : Text) (nonce : ℕ)
    (v : AttestVerify.Verifier)
    → nonce < 2 ^ 64
    → revoke_query file nonce ≡ some (root, text)
    → dev_revoke m root text ≡ some m'
    → v.registry ≡ is_revoked m'
    → ((p : PersonServerAuthorization) (issuer thumb : Text)
        → p.root ≡ root
        → p.nonce ≡ nonce
        → verify_psa env v p issuer thumb ≢ ok tt)
      × ((g : AgentGrant) (agent_id thumb : Text)
          → g.root ≡ root
          → g.nonce ≡ nonce
          → verify_agent_grant env v g root agent_id thumb ≢ ok tt)
revoked_is_refused env file m m' root text nonce v k q h e =
    let same : revoke m root nonce ≡ m' =
      dev_revoke_lem m m' root nonce k
        (ap (dev_revoke m root) (sym (revoke_query_lem file nonce root text q)) ∙ h) in
    let gone : (chain_id : ℤ) (registry : Text)
        → is_revoked m' chain_id registry root nonce ≡ some true =
      λ chain_id registry.
        ap (λ (x : MemoryRegistry). is_revoked x chain_id registry root nonce) (sym same)
        ∙ (revoke_iff m chain_id registry root root nonce nonce).1 (inl (refl, refl)) in
    (
      λ p issuer thumb r n a.
          live_lem m' v p.registry_chain p.registry root p.root nonce p.nonce e r n
            (gone p.registry_chain p.registry)
            ((verify_psa_iff env v p issuer thumb).0 a).not_revoked,
      λ g agent_id thumb r n a.
          live_lem m' v g.registry_chain g.registry root g.root nonce g.nonce e r n
            (gone g.registry_chain g.registry)
            ((verify_agent_grant_iff env v g root agent_id thumb).0 a).not_revoked,
    )
