-- ===== src/Testutil/Fixtures/Verdict.antt =====
-- internal/testutil/fixtures.go: what the verifiers say of a fixture, whatever its options change.
use signet_ps.Base.{
  Option-cases, ℤ, Bytes, Text, In, ok, ◌≡◌, sym, ap, subst, ◌∙◌, ◌↔◌, inl, inr, true, false, none,
  some, List, arith,
}
use signet_ps.Env.{elems, Env}
use signet_ps.Attest.{PersonServerAuthorization, AgentGrant}
use signet_ps.Attest.Address.{addr_eq}
use signet_ps.Attest.Digest.{psa_typed_data, psa_digest, agent_grant_typed_data, agent_grant_digest}
use signet_ps.Attest.Verify as AttestVerify
use signet_ps.Attest.Verify.{Verifier, unix, normalize_v, verify_psa, verify_agent_grant}
use signet_ps.Attest.Verify.Meaning.{Within, RootSigned, verify_psa_iff, verify_agent_grant_iff}
use signet_ps.Devtool.{Wallet, RootFile}
use signet_ps.Devtool.Accepted.{IsRootKey}
use signet_ps.Testutil.Keys.{
  Ed25519Keys, root_priv_hex, root_key, addr_of, agent_jwk, issuer_thumb, agent_thumb,
}
use signet_ps.Testutil.Fixtures.{
  PsaOpt, GrantOpt, apply_opts, default_psa, default_grant, sign_psa_as, sign_grant_as, valid_psa,
  valid_grant,
}

module _ (env : Env) (w : Wallet) where
  -- the root of the fixtures, as the file of a key
  abbrev pub fixture_root : Bytes → RootFile
  fixture_root key = record { address = addr_of env w key; priv = root_priv_hex }

  -- a signature of the key is one of an account exactly at the key's own address
  signed_by_owner :
      (file : RootFile) (key digest sig : Bytes) (root : Text) (v : AttestVerify.Verifier) (c : ℤ)
      → IsRootKey env w file key
      → w.sign digest key ≡ some sig
      → v.erc1271 ≡ none
      → RootSigned env v c root digest sig
      → addr_eq file.address root ≡ true
  signed_by_owner file key digest sig root v c k s no_contract (inl (found, n, e, same)) =
      let recovered : env.sig_to_pub digest (normalize_v sig) ≡ some (w.public_key key) =
        ap (env.sig_to_pub digest) (k.low_v digest sig s) ∙ k.recovers digest sig s in
      let owner : found ≡ w.public_key key = ground (arith, e, recovered) in
      subst (λ x. addr_eq x root ≡ true) (ap env.address_hex owner ∙ sym k.owns) same
  signed_by_owner file key digest sig root v c k s no_contract (inr (check, e, t)) =
      absurd (ground (arith, e, no_contract))

  owner_signs :
      (file : RootFile) (key digest sig : Bytes) (root : Text) (v : AttestVerify.Verifier) (c : ℤ)
      → IsRootKey env w file key
      → w.sign digest key ≡ some sig
      → addr_eq file.address root ≡ true
      → RootSigned env v c root digest sig
  owner_signs file key digest sig root v c k s same = inl (
    w.public_key key,
    k.size digest sig s,
    ap (env.sig_to_pub digest) (k.low_v digest sig s) ∙ k.recovers digest sig s,
    subst (λ x. addr_eq x root ≡ true) k.owns same,
  )

  sign_psa_as_lem :
      (p q : PersonServerAuthorization) (key : Bytes)
      → sign_psa_as env w p key ≡ some q
      → (digest sig : Bytes) × (psa_digest env p ≡ some digest)
        × (w.sign digest key ≡ some sig)
        × (record p { signature = some sig } ≡ q)
  unfolding sign_psa_as
  sign_psa_as_lem p q key h = elim (Option-cases (psa_digest env p)) [
    | inl e ↦ absurd (ground (arith, e, h))
    | inr (digest, e) ↦ elim (Option-cases (w.sign digest key)) [
      | inl f ↦ absurd (ground (arith, e, f, h))
      | inr (sig, f) ↦ (digest, sig, e, f, ground (arith, e, f, h))
    ]
  ]

  sign_grant_as_lem :
      (g q : AgentGrant) (key : Bytes)
      → sign_grant_as env w g key ≡ some q
      → (digest sig : Bytes) × (agent_grant_digest env g ≡ some digest)
        × (w.sign digest key ≡ some sig)
        × (record g { signature = some sig } ≡ q)
  unfolding sign_grant_as
  sign_grant_as_lem g q key h = elim (Option-cases (agent_grant_digest env g)) [
    | inl e ↦ absurd (ground (arith, e, h))
    | inr (digest, e) ↦ elim (Option-cases (w.sign digest key)) [
      | inl f ↦ absurd (ground (arith, e, f, h))
      | inr (sig, f) ↦ (digest, sig, e, f, ground (arith, e, f, h))
    ]
  ]

  -- What a signer makes of a document that is complete but for the signature.
  pub record IsGoodPsa (v : AttestVerify.Verifier) (address : Text) (p : PersonServerAuthorization)
      (issuer thumb : Text) : Type 0 where
    pub own_root : addr_eq address p.root ≡ true
    pub same_issuer : p.issuer ≡ issuer
    pub in_window : Within (unix v.now) p.not_before p.not_after
    pub key_listed : In thumb (elems p.key_thumbprints)
    pub not_revoked : v.registry p.registry_chain p.registry p.root p.nonce ≡ some false

  pub record IsGoodGrant (v : AttestVerify.Verifier) (address : Text) (g : AgentGrant)
      (root agent_id thumb : Text) : Type 0 where
    pub own_root : addr_eq address g.root ≡ true
    pub same_root : g.root ≡ root
    pub same_agent : g.agent_identifier ≡ agent_id
    pub same_key : g.agent_thumbprint ≡ thumb
    pub in_window : Within (unix v.now) g.not_before g.not_after
    pub not_revoked : v.registry g.registry_chain g.registry g.root g.nonce ≡ some false

  module _ (file : RootFile) (key : Bytes) (v : AttestVerify.Verifier) where
    pub sign_psa_as_verdict :
        (p q : PersonServerAuthorization) (issuer thumb : Text)
        → IsRootKey env w file key
        → sign_psa_as env w p key ≡ some q
        → v.erc1271 ≡ none
        → (verify_psa env v q issuer thumb ≡ ok tt) ↔ IsGoodPsa v file.address p issuer thumb
    unfolding psa_digest psa_typed_data
    sign_psa_as_verdict p q issuer thumb k h no_contract =
        let (digest, sig, e, s, same) = sign_psa_as_lem p q key h in
        subst
          (λ (x : PersonServerAuthorization).
            (verify_psa env v x issuer thumb ≡ ok tt) ↔ IsGoodPsa v file.address p issuer thumb)
          same
          (
            λ accepted.
                let holds = (verify_psa_iff env v _ issuer thumb).0 accepted in
                let digests : holds.digest ≡ digest = ground (arith, e, holds.digested) in
                record {
                  own_root =
                      signed_by_owner file key digest sig p.root v p.registry_chain k s no_contract
                        (subst (λ d. RootSigned env v p.registry_chain p.root d sig) digests
                          holds.signed);
                  same_issuer = holds.same_issuer;
                  in_window = holds.in_window;
                  key_listed = holds.key_listed;
                  not_revoked = holds.not_revoked;
                },
            λ good. (verify_psa_iff env v _ issuer thumb).1 (record {
              same_issuer = good.same_issuer;
              in_window = good.in_window;
              key_listed = good.key_listed;
              digest = digest;
              digested = e;
              signed = owner_signs file key digest sig p.root v p.registry_chain k s good.own_root;
              not_revoked = good.not_revoked;
            }),
          )

    pub sign_grant_as_verdict :
        (g q : AgentGrant) (root agent_id thumb : Text)
        → IsRootKey env w file key
        → sign_grant_as env w g key ≡ some q
        → v.erc1271 ≡ none
        → (verify_agent_grant env v q root agent_id thumb ≡ ok tt)
          ↔ IsGoodGrant v file.address g root agent_id thumb
    unfolding agent_grant_digest agent_grant_typed_data
    sign_grant_as_verdict g q root agent_id thumb k h no_contract =
        let (digest, sig, e, s, same) = sign_grant_as_lem g q key h in
        subst
          (λ (x : AgentGrant).
            (verify_agent_grant env v x root agent_id thumb ≡ ok tt)
            ↔ IsGoodGrant v file.address g root agent_id thumb)
          same
          (
            λ accepted.
                let holds = (verify_agent_grant_iff env v _ root agent_id thumb).0 accepted in
                let digests : holds.digest ≡ digest = ground (arith, e, holds.digested) in
                record {
                  own_root =
                      signed_by_owner file key digest sig g.root v g.registry_chain k s no_contract
                        (subst (λ d. RootSigned env v g.registry_chain g.root d sig) digests
                          holds.signed);
                  same_root = holds.same_root;
                  same_agent = holds.same_agent;
                  same_key = holds.same_key;
                  in_window = holds.in_window;
                  not_revoked = holds.not_revoked;
                },
            λ good. (verify_agent_grant_iff env v _ root agent_id thumb).1 (record {
              same_root = good.same_root;
              same_agent = good.same_agent;
              same_key = good.same_key;
              in_window = good.in_window;
              digest = digest;
              digested = e;
              signed = owner_signs file key digest sig g.root v g.registry_chain k s good.own_root;
              not_revoked = good.not_revoked;
            }),
          )

  module _ (ed : Ed25519Keys) (key : Bytes) (v : AttestVerify.Verifier) where
    -- An authorization that ValidPSA made with any options is accepted by a verifier without
    -- contracts exactly if, as the options left it, its root is the one that signed, it names the
    -- issuer and the key, the clock is in its window, and the registry answers that it is not
    -- revoked, if the key of the root opens, has its address and signs with 65 bytes that recover
    -- to it with a low V.
    pub valid_psa_verdict :
        (opts : List PsaOpt) (q : PersonServerAuthorization) (issuer thumb : Text)
        → IsRootKey env w (fixture_root key) key
        → valid_psa env w ed opts ≡ some q
        → v.erc1271 ≡ none
        → (verify_psa env v q issuer thumb ≡ ok tt)
          ↔ IsGoodPsa v
              (addr_of env w key)
              (apply_opts opts (default_psa (addr_of env w key) (issuer_thumb env ed)))
              issuer
              thumb
    unfolding valid_psa root_key
    valid_psa_verdict opts q issuer thumb k h no_contract =
        sign_psa_as_verdict (fixture_root key) key v _ q issuer thumb k (ground (arith, k.opens, h))
          no_contract

    -- A grant that ValidGrant made with any options is accepted exactly if, as they left it, it is good for
    -- the address that signed.
    pub valid_grant_verdict :
        (opts : List GrantOpt) (q : AgentGrant) (root agent_id thumb : Text)
        → IsRootKey env w (fixture_root key) key
        → valid_grant env w ed opts ≡ some q
        → v.erc1271 ≡ none
        → (verify_agent_grant env v q root agent_id thumb ≡ ok tt)
          ↔ IsGoodGrant v
              (addr_of env w key)
              (apply_opts opts
                (default_grant (addr_of env w key) (agent_thumb env ed) (agent_jwk env ed).x))
              root
              agent_id
              thumb
    unfolding valid_grant root_key
    valid_grant_verdict opts q root agent_id thumb k h no_contract =
        sign_grant_as_verdict (fixture_root key) key v _ q root agent_id thumb k
          (ground (arith, k.opens, h)) no_contract
