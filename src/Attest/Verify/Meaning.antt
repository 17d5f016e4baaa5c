-- ===== src/Attest/Verify/Meaning.antt =====
-- What the two verifiers accept, stated without their control flow.
use signet_ps.Base.{
  Bool-cases, Option-cases, length, ℤ, ◌≤ℤ◌, Bytes, Text, text_eq_iff, In, contains-iff-In, ok, ◌≡◌,
  refl, ◌↔◌, ◌⊎◌, inl, inr, true, false, Option, none, some, arith,
}
use signet_ps.Env.{elems, Env}
use signet_ps.Attest.{PersonServerAuthorization, AgentGrant}
use signet_ps.Attest.Address.{addr_eq}
use signet_ps.Attest.Digest.{psa_digest, agent_grant_digest}
use signet_ps.Attest.Verify.{
  Erc1271Verifier, Verifier, unix, normalize_v, is_eoa_sig, verify_root_sig, verify_psa,
  verify_agent_grant, ask_erc1271,
}

-- `now` lies in the window, its ends included.
abbrev pub Within : ℤ → ℤ → ℤ → Type 0
Within now not_before not_after = (not_before ≤ℤ now) × (now ≤ℤ not_after)

module _ (env : Env) where
  -- An externally owned account signed: the 65 bytes recover to the address of the root.
  abbrev pub EoaSigned : Text → Bytes → Bytes → Type 0
  EoaSigned root digest sig =
      (key : Bytes) × (length sig ≡ 65)
      × (env.sig_to_pub digest (normalize_v sig) ≡ some key)
      × (addr_eq (env.address_hex key) root ≡ true)

  -- The contract at the root's address vouches for the signature.
  abbrev pub ContractSigned : Verifier → ℤ → Text → Bytes → Bytes → Type 0
  ContractSigned v chain_id root digest sig =
      (check : Erc1271Verifier) × (v.erc1271 ≡ some check)
      × (check chain_id root digest sig ≡ some true)

  abbrev pub RootSigned : Verifier → ℤ → Text → Bytes → Bytes → Type 0
  RootSigned v chain_id root digest sig =
      EoaSigned root digest sig ⊎ ContractSigned v chain_id root digest sig

  is_eoa_sig_sound :
      (root : Text) (digest sig : Bytes)
      → is_eoa_sig env root digest sig ≡ true
      → EoaSigned root digest sig
  unfolding is_eoa_sig
  is_eoa_sig_sound root digest sig h =
      elim (Option-cases (env.sig_to_pub digest (normalize_v sig))) [
        | inl e ↦ absurd (ground (arith, e))
        | inr (key, e) ↦ (key, ground (arith, e), e, ground (arith, e))
      ]

  is_eoa_sig_complete :
      (root : Text) (digest sig : Bytes)
      → EoaSigned root digest sig
      → is_eoa_sig env root digest sig ≡ true
  unfolding is_eoa_sig
  is_eoa_sig_complete root digest sig (key, n, e, a) = ground (arith, e)

  ask_erc1271_sound :
      (v : Verifier) (o : Option Erc1271Verifier) (chain_id : ℤ) (root : Text) (digest sig : Bytes)
      → v.erc1271 ≡ o
      → ask_erc1271 env o chain_id root digest sig ≡ ok tt
      → ContractSigned v chain_id root digest sig
  unfolding ask_erc1271
  ask_erc1271_sound v none chain_id root digest sig e h = cc
  ask_erc1271_sound v (some check) chain_id root digest sig e h = (check, e, ground arith)

  pub verify_root_sig_sound :
      (v : Verifier) (chain_id : ℤ) (root : Text) (digest sig : Bytes)
      → verify_root_sig env v chain_id root digest sig ≡ ok tt
      → RootSigned v chain_id root digest sig
  unfolding verify_root_sig
  verify_root_sig_sound v chain_id root digest sig h =
      elim (Bool-cases (is_eoa_sig env root digest sig)) [
        | inl e ↦ inl (is_eoa_sig_sound root digest sig e)
        | inr e ↦ inr (ask_erc1271_sound v v.erc1271 chain_id root digest sig refl (rw e at h))
      ]

  pub verify_root_sig_complete :
      (v : Verifier) (chain_id : ℤ) (root : Text) (digest sig : Bytes)
      → RootSigned v chain_id root digest sig
      → verify_root_sig env v chain_id root digest sig ≡ ok tt
  unfolding verify_root_sig ask_erc1271
  verify_root_sig_complete v chain_id root digest sig (inl h) =
      rw (is_eoa_sig_complete root digest sig h)
  verify_root_sig_complete v chain_id root digest sig (inr (check, e, t)) = ground (arith, e, t)

  -- An attestation of the issuer that is in force: what `verify_psa` accepts.
  pub record PsaHolds (v : Verifier) (p : PersonServerAuthorization) (issuer thumb : Text)
      : Type 0 where
    pub same_issuer : p.issuer ≡ issuer
    pub in_window : Within (unix v.now) p.not_before p.not_after
    pub key_listed : In thumb (elems p.key_thumbprints)
    pub digest : Bytes
    pub digested : psa_digest env p ≡ some digest
    pub signed : RootSigned v p.registry_chain p.root digest (elems p.signature)
    pub not_revoked : v.registry p.registry_chain p.registry p.root p.nonce ≡ some false

  pub record GrantHolds (v : Verifier) (g : AgentGrant) (root agent_id thumb : Text) : Type 0 where
    pub same_root : g.root ≡ root
    pub same_agent : g.agent_identifier ≡ agent_id
    pub same_key : g.agent_thumbprint ≡ thumb
    pub in_window : Within (unix v.now) g.not_before g.not_after
    pub digest : Bytes
    pub digested : agent_grant_digest env g ≡ some digest
    pub signed : RootSigned v g.registry_chain g.root digest (elems g.signature)
    pub not_revoked : v.registry g.registry_chain g.registry g.root g.nonce ≡ some false

  pub verify_psa_sound :
      (v : Verifier) (p : PersonServerAuthorization) (issuer thumb : Text)
      → verify_psa env v p issuer thumb ≡ ok tt
      → PsaHolds v p issuer thumb
  unfolding verify_psa
  verify_psa_sound v p issuer thumb h = elim (Option-cases (psa_digest env p)) [
    | inl e ↦ absurd (ground (arith, e))
    | inr (digest, e) ↦ record {
      same_issuer = ground (arith, text_eq_iff p.issuer issuer);
      in_window = ground arith;
      key_listed = (contains-iff-In _ _).0 (ground arith);
      digest = digest;
      digested = e;
      signed = verify_root_sig_sound v _ _ _ _ (ground (arith, e));
      not_revoked = ground (arith, e);
    }
  ]

  pub verify_psa_complete :
      (v : Verifier) (p : PersonServerAuthorization) (issuer thumb : Text)
      → PsaHolds v p issuer thumb
      → verify_psa env v p issuer thumb ≡ ok tt
  unfolding verify_psa
  verify_psa_complete v p issuer thumb h = ground (
    arith,
    text_eq_iff p.issuer issuer,
    (contains-iff-In (elems p.key_thumbprints) thumb).1 h.key_listed,
    h.digested,
    verify_root_sig_complete v p.registry_chain p.root h.digest (elems p.signature) h.signed,
    h.not_revoked,
  )

  pub verify_agent_grant_sound :
      (v : Verifier) (g : AgentGrant) (root agent_id thumb : Text)
      → verify_agent_grant env v g root agent_id thumb ≡ ok tt
      → GrantHolds v g root agent_id thumb
  unfolding verify_agent_grant
  verify_agent_grant_sound v g root agent_id thumb h =
      elim (Option-cases (agent_grant_digest env g)) [
        | inl e ↦ absurd (ground (arith, e))
        | inr (digest, e) ↦ record {
          same_root = ground (arith, text_eq_iff g.root root);
          same_agent = ground (arith, text_eq_iff g.agent_identifier agent_id);
          same_key = ground (arith, text_eq_iff g.agent_thumbprint thumb);
          in_window = ground arith;
          digest = digest;
          digested = e;
          signed = verify_root_sig_sound v _ _ _ _ (ground (arith, e));
          not_revoked = ground (arith, e);
        }
      ]

  pub verify_agent_grant_complete :
      (v : Verifier) (g : AgentGrant) (root agent_id thumb : Text)
      → GrantHolds v g root agent_id thumb
      → verify_agent_grant env v g root agent_id thumb ≡ ok tt
  unfolding verify_agent_grant
  verify_agent_grant_complete v g root agent_id thumb h = ground (
    arith,
    text_eq_iff g.root root,
    text_eq_iff g.agent_identifier agent_id,
    text_eq_iff g.agent_thumbprint thumb,
    h.digested,
    verify_root_sig_complete v g.registry_chain g.root h.digest (elems g.signature) h.signed,
    h.not_revoked,
  )

  -- verify_psa accepts an authorization exactly if it names the issuer and the key, the clock is in
  -- its window, its root signed its digest (as an account or by its contract), and the registry
  -- answers that it is not revoked.
  pub verify_psa_iff :
      (v : Verifier) (p : PersonServerAuthorization) (issuer thumb : Text)
      → (verify_psa env v p issuer thumb ≡ ok tt) ↔ PsaHolds v p issuer thumb
  verify_psa_iff v p issuer thumb =
      (verify_psa_sound v p issuer thumb, verify_psa_complete v p issuer thumb)

  -- verify_agent_grant accepts a grant exactly if it names the root, the agent and the agent's key,
  -- the clock is in its window, its root signed its digest (as an account or by its contract), and
  -- the registry answers that it is not revoked.
  pub verify_agent_grant_iff :
      (v : Verifier) (g : AgentGrant) (root agent_id thumb : Text)
      → (verify_agent_grant env v g root agent_id thumb ≡ ok tt)
        ↔ GrantHolds v g root agent_id thumb
  verify_agent_grant_iff v g root agent_id thumb = (
    verify_agent_grant_sound v g root agent_id thumb,
    verify_agent_grant_complete v g root agent_id thumb,
  )
