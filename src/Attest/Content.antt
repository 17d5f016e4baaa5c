-- ===== src/Attest/Content.antt =====
-- internal/attest/psa.go: the JSON of the attestations, from their struct tags, and ContentHash.
use signet_ps.Base.{pos, Text, codes, ℕ, none, some, [], ◌∷◌}
use signet_ps.Std.Hex.{hex_encode}
use signet_ps.Std.Base64.{std_alphabet, base64_encode}
use signet_ps.Env.{Json, null, text, num, obj, Fields, end, field, Slice, texts_json, Env}
use signet_ps.Attest.{Scope, PersonServerAuthorization, AgentGrant}

-- encoding/json writes a `[]byte` in base64, and nil as `null`
unfoldable pub blob_json : Slice ℕ → Json
blob_json none = null
blob_json (some bs) = text (base64_encode std_alphabet bs)

-- a field tagged `omitempty`
unfoldable pub omit_empty : Text → Text → Fields → Fields
omit_empty k [] rest = rest
omit_empty k (c ∷ s) rest = field k (text (c ∷ s)) rest

unfoldable pub scope_json : Scope → Json
scope_json s = obj (
    field (codes "maxTokenTTLSeconds") (num s.max_token_ttl_seconds) (
      field (codes "allowedClaims") (texts_json s.allowed_claims) (
        field (codes "paymentCapWei") (text s.payment_cap_wei)
          (field (codes "stepUpAboveWei") (text s.step_up_above_wei) end))))

unfoldable pub psa_json : PersonServerAuthorization → Json
unfolding scope_json blob_json
psa_json p = obj (
    field (codes "root") (text p.root) (
      field (codes "issuer") (text p.issuer) (
        field (codes "keyThumbprints") (texts_json p.key_thumbprints) (
          field (codes "scope") (scope_json p.scope) (
            field (codes "notBefore") (num p.not_before) (
              field (codes "notAfter") (num p.not_after) (
                field (codes "registryChain") (num p.registry_chain) (
                  field (codes "registry") (text p.registry) (
                    field (codes "nonce") (num (pos p.nonce))
                      (field (codes "signature") (blob_json p.signature) end))))))))))

unfoldable pub agent_grant_json : AgentGrant → Json
unfolding omit_empty blob_json
agent_grant_json g = obj (
    field (codes "root") (text g.root) (
      field (codes "agentIdentifier") (text g.agent_identifier) (
        field (codes "agentThumbprint") (text g.agent_thumbprint) (
          omit_empty (codes "agentPubKey") g.agent_pub_key (
            field (codes "missionScopeS256") (text g.mission_scope_s256) (
              field (codes "notBefore") (num g.not_before) (
                field (codes "notAfter") (num g.not_after) (
                  field (codes "registryChain") (num g.registry_chain) (
                    field (codes "registry") (text g.registry) (
                      field (codes "nonce") (num (pos g.nonce))
                        (field (codes "signature") (blob_json g.signature) end)))))))))))

-- Marshalling one of these structs does not fail.
unfoldable pub content_hash : Env → Json → Text
content_hash env v = hex_encode (env.sha256 (env.marshal v))
