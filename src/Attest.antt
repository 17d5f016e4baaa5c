-- ===== src/Attest.antt =====
-- internal/attest/psa.go: the two attestations that a root key signs.
pub mod Digest
pub mod Content
pub mod Decode
pub mod Address
pub mod Verify
use signet_ps.Base.{ℤ, Text, ℕ}
use signet_ps.Env.{Slice}

pub record Scope : Type 0 where
  pub max_token_ttl_seconds : ℤ
  pub allowed_claims : Slice Text
  pub payment_cap_wei : Text
  pub step_up_above_wei : Text

pub record PersonServerAuthorization : Type 0 where
  pub root : Text
  pub issuer : Text
  pub key_thumbprints : Slice Text
  pub scope : Scope
  pub not_before : ℤ
  pub not_after : ℤ
  pub registry_chain : ℤ
  pub registry : Text
  pub nonce : ℕ
  pub signature : Slice ℕ

pub record AgentGrant : Type 0 where
  pub root : Text
  pub agent_identifier : Text
  pub agent_thumbprint : Text
  pub agent_pub_key : Text
  pub mission_scope_s256 : Text
  pub not_before : ℤ
  pub not_after : ℤ
  pub registry_chain : ℤ
  pub registry : Text
  pub nonce : ℕ
  pub signature : Slice ℕ
