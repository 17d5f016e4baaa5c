-- ===== src/Attest/Digest/Covers.antt =====
-- Which fields of an attestation its typed data commits to.
use signet_ps.Base.{◌≡◌, ◌≢◌, ◌↔◌}
use signet_ps.Std.Decimal.RoundTrip.{show_int_injective, show_nat_injective}
use signet_ps.Env.{Env}
use signet_ps.Attest.{PersonServerAuthorization, AgentGrant}
use signet_ps.Attest.Digest.{or_zero, keccak_json, psa_typed_data, agent_grant_typed_data}

module _ (env : Env) where
  -- Two authorizations agree on all that is signed: two slices by the hashes of their JSON, and an
  -- empty amount as "0".
  pub record SamePsa (p q : PersonServerAuthorization) : Type 0 where
    pub root : p.root ≡ q.root
    pub issuer : p.issuer ≡ q.issuer
    pub keys : keccak_json env p.key_thumbprints ≡ keccak_json env q.key_thumbprints
    pub ttl : p.scope.max_token_ttl_seconds ≡ q.scope.max_token_ttl_seconds
    pub claims : keccak_json env p.scope.allowed_claims ≡ keccak_json env q.scope.allowed_claims
    pub cap : or_zero p.scope.payment_cap_wei ≡ or_zero q.scope.payment_cap_wei
    pub step_up : or_zero p.scope.step_up_above_wei ≡ or_zero q.scope.step_up_above_wei
    pub not_before : p.not_before ≡ q.not_before
    pub not_after : p.not_after ≡ q.not_after
    pub chain : p.registry_chain ≡ q.registry_chain
    pub registry : p.registry ≡ q.registry
    pub nonce : p.nonce ≡ q.nonce

  pub psa_typed_data-SamePsa :
      (p q : PersonServerAuthorization) → psa_typed_data env p ≡ psa_typed_data env q → SamePsa p q
  unfolding psa_typed_data
  psa_typed_data-SamePsa p q e = record {
    root = cc;
    issuer = cc;
    keys = cc;
    ttl = show_int_injective _ _ (cc);
    claims = cc;
    cap = cc;
    step_up = cc;
    not_before = show_int_injective _ _ (cc);
    not_after = show_int_injective _ _ (cc);
    chain = cc;
    registry = cc;
    nonce = show_nat_injective _ _ (cc);
  }

  pub SamePsa-psa_typed_data :
      (p q : PersonServerAuthorization) → SamePsa p q → psa_typed_data env p ≡ psa_typed_data env q
  unfolding psa_typed_data
  SamePsa-psa_typed_data p q h = cc (
    h.root, h.issuer, h.keys, h.ttl, h.claims, h.cap, h.step_up, h.not_before, h.not_after, h.chain,
    h.registry, h.nonce,
  )

  -- The typed data of two authorizations is the same exactly if they agree on every field but the
  -- signature, the two lists by the hashes of their JSON, and an empty amount read as "0".
  pub psa_typed_data_iff :
      (p q : PersonServerAuthorization)
      → (psa_typed_data env p ≡ psa_typed_data env q) ↔ SamePsa p q
  psa_typed_data_iff p q = (psa_typed_data-SamePsa p q, SamePsa-psa_typed_data p q)

  -- Two grants agree on all that is signed. The public key and the signature are not.
  pub record SameGrant (g h : AgentGrant) : Type 0 where
    pub root : g.root ≡ h.root
    pub agent : g.agent_identifier ≡ h.agent_identifier
    pub thumb : g.agent_thumbprint ≡ h.agent_thumbprint
    pub mission : g.mission_scope_s256 ≡ h.mission_scope_s256
    pub not_before : g.not_before ≡ h.not_before
    pub not_after : g.not_after ≡ h.not_after
    pub chain : g.registry_chain ≡ h.registry_chain
    pub registry : g.registry ≡ h.registry
    pub nonce : g.nonce ≡ h.nonce

  agent_grant_typed_data-SameGrant :
      (g h : AgentGrant)
      → agent_grant_typed_data env g ≡ agent_grant_typed_data env h
      → SameGrant g h
  unfolding agent_grant_typed_data
  agent_grant_typed_data-SameGrant g h e = record {
    root = cc;
    agent = cc;
    thumb = cc;
    mission = cc;
    not_before = show_int_injective _ _ (cc);
    not_after = show_int_injective _ _ (cc);
    chain = cc;
    registry = cc;
    nonce = show_nat_injective _ _ (cc);
  }

  SameGrant-agent_grant_typed_data :
      (g h : AgentGrant)
      → SameGrant g h
      → agent_grant_typed_data env g ≡ agent_grant_typed_data env h
  unfolding agent_grant_typed_data
  SameGrant-agent_grant_typed_data g h s =
      cc (
        s.root, s.agent, s.thumb, s.mission, s.not_before, s.not_after, s.chain, s.registry,
        s.nonce,
      )

  -- The typed data of two grants is the same exactly if they agree on every field but the agent's
  -- public key and the signature.
  pub agent_grant_typed_data_iff :
      (g h : AgentGrant)
      → (agent_grant_typed_data env g ≡ agent_grant_typed_data env h) ↔ SameGrant g h
  agent_grant_typed_data_iff g h =
      (agent_grant_typed_data-SameGrant g h, SameGrant-agent_grant_typed_data g h)

  -- The typed data of an authorization is never that of a grant.
  pub psa-ne-agent_grant :
      (p : PersonServerAuthorization) (g : AgentGrant)
      → psa_typed_data env p ≢ agent_grant_typed_data env g
  unfolding psa_typed_data agent_grant_typed_data
  psa-ne-agent_grant p g e = cc
