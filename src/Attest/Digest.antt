-- ===== src/Attest/Digest.antt =====
-- internal/attest/psa.go: the EIP-712 typed data and its digest, for both attestations.
pub mod Covers
use mathlib.Core.Option
use signet_ps.Base.{take, replicate, ℤ, Bytes, Text, codes, Option, List, [], ◌∷◌, ◌++◌, map}
use signet_ps.Std.Decimal.{show_nat, show_int}
use signet_ps.Std.Hex.{hex_encode}
use signet_ps.Env.{
  Slice, texts_json, word, struct, Message, done, entry, TypedDataDomain, TypedData, Env,
}
use signet_ps.Attest.{Scope, PersonServerAuthorization, AgentGrant}

unfoldable pub domain : ℤ → Text → TypedDataDomain
domain chain_id registry = record {
  name = codes "SignetPS";
  version = codes "1";
  chain_id = chain_id;
  verifying_contract = registry;
}

abbrev pub eip712_domain_type : Text × List (Text × Text)
eip712_domain_type = (
  codes "EIP712Domain",
  (codes "name", codes "string")
      ∷ (codes "version", codes "string")
      ∷ (codes "chainId", codes "uint256")
      ∷ (codes "verifyingContract", codes "address")
      ∷ [],
)

unfoldable pub psa_types : List (Text × List (Text × Text))
psa_types =
    eip712_domain_type
    ∷ (
      codes "Scope",
      (codes "maxTokenTTLSeconds", codes "uint256")
          ∷ (codes "allowedClaimsHash", codes "bytes32")
          ∷ (codes "paymentCapWei", codes "uint256")
          ∷ (codes "stepUpAboveWei", codes "uint256")
          ∷ [],
    )
    ∷ (
      codes "PersonServerAuthorization",
      (codes "root", codes "address")
          ∷ (codes "issuer", codes "string")
          ∷ (codes "keyThumbprintsHash", codes "bytes32")
          ∷ (codes "scope", codes "Scope")
          ∷ (codes "notBefore", codes "uint256")
          ∷ (codes "notAfter", codes "uint256")
          ∷ (codes "nonce", codes "uint256")
          ∷ [],
    )
    ∷ (
      codes "AgentGrant",
      (codes "root", codes "address")
          ∷ (codes "agentIdentifier", codes "string")
          ∷ (codes "agentThumbprint", codes "string")
          ∷ (codes "missionScopeS256", codes "bytes32")
          ∷ (codes "notBefore", codes "uint256")
          ∷ (codes "notAfter", codes "uint256")
          ∷ (codes "nonce", codes "uint256")
          ∷ [],
    )
    ∷ []

unfoldable pub or_zero : Text → Text
or_zero [] = codes "0"
or_zero (c ∷ s) = c ∷ s

-- a digest is an array of 32 bytes, into which the hash is copied
unfoldable pub copy32 : Bytes → Bytes
copy32 h = take 32 (h ++ replicate 32 0)

module _ (env : Env) where
  unfoldable pub keccak_json : Slice Text → Text
  keccak_json ts = codes "0x" ++ hex_encode (env.keccak256 (env.marshal (texts_json ts)))

  unfoldable pub typed_data_digest : TypedData → Option Bytes
  typed_data_digest td = Option.map copy32 (env.typed_data_and_hash td)

  scope_message : Scope → Message
  unfolding keccak_json or_zero
  scope_message s = entry (codes "maxTokenTTLSeconds") (word (show_int s.max_token_ttl_seconds)) (
      entry (codes "allowedClaimsHash") (word (keccak_json s.allowed_claims)) (
        entry (codes "paymentCapWei") (word (or_zero s.payment_cap_wei))
          (entry (codes "stepUpAboveWei") (word (or_zero s.step_up_above_wei)) done)))

  -- the `td` of PSADigest
  unfoldable pub psa_typed_data : PersonServerAuthorization → TypedData
  unfolding scope_message domain
  psa_typed_data p = record {
    types = psa_types;
    primary_type = codes "PersonServerAuthorization";
    domain = domain p.registry_chain p.registry;
    message = entry (codes "root") (word p.root) (
        entry (codes "issuer") (word p.issuer) (
          entry (codes "keyThumbprintsHash") (word (keccak_json p.key_thumbprints)) (
            entry (codes "scope") (struct (scope_message p.scope)) (
              entry (codes "notBefore") (word (show_int p.not_before)) (
                entry (codes "notAfter") (word (show_int p.not_after))
                  (entry (codes "nonce") (word (show_nat p.nonce)) done))))));
  }

  unfoldable pub psa_digest : PersonServerAuthorization → Option Bytes
  unfolding typed_data_digest
  psa_digest p = typed_data_digest (psa_typed_data p)

  -- the `td` of AgentGrantDigest
  unfoldable pub agent_grant_typed_data : AgentGrant → TypedData
  unfolding domain
  agent_grant_typed_data g = record {
    types = psa_types;
    primary_type = codes "AgentGrant";
    domain = domain g.registry_chain g.registry;
    message = entry (codes "root") (word g.root) (
        entry (codes "agentIdentifier") (word g.agent_identifier) (
          entry (codes "agentThumbprint") (word g.agent_thumbprint) (
            entry (codes "missionScopeS256") (word (codes "0x" ++ g.mission_scope_s256)) (
              entry (codes "notBefore") (word (show_int g.not_before)) (
                entry (codes "notAfter") (word (show_int g.not_after))
                  (entry (codes "nonce") (word (show_nat g.nonce)) done))))));
  }

  unfoldable pub agent_grant_digest : AgentGrant → Option Bytes
  unfolding typed_data_digest
  agent_grant_digest g = typed_data_digest (agent_grant_typed_data g)
