-- ===== src/Attest/Decode/RoundTrip.antt =====
-- Decoding the JSON of an attestation gives it back.
use signet_ps.Base.{
  pos, IsInt64, Text, codes, text_eq, ℕ, ◌^◌, ◌<◌, ◌≡◌, refl, ◌∙◌, none, some, [], ◌∷◌, arith,
}
use signet_ps.Std.Hex.{AreBytes}
use signet_ps.Std.Strings.{equal_fold}
use signet_ps.Std.Base64.Padded.{std_decode-base64_encode}
use signet_ps.Env.{text, num, Fields, end, field, Slice, Env}
use signet_ps.Env.Decode.{
  get_text, get_fields, get_struct, names, get_texts-texts_json, get_int64-num,
}
use signet_ps.Attest.{Scope, PersonServerAuthorization, AgentGrant}
use signet_ps.Attest.Content.{blob_json, omit_empty, scope_json, psa_json, agent_grant_json}
use signet_ps.Attest.Decode.{
  get_blob, get_uint64, empty_scope, empty_grant, set_scope, set_grant, psa_of_json,
  agent_grant_of_json,
}

get_uint64-num : (n old : ℕ) → n < 2 ^ 64 → get_uint64 (num (pos n)) old ≡ some n
unfolding get_uint64
get_uint64-num n old h = ground arith

-- every element of a slice is a byte
abbrev pub AreBlob : Slice ℕ → Type 0
AreBlob none = Unit {0}
AreBlob (some bs) = AreBytes bs

get_blob-blob_json : (b old : Slice ℕ) → AreBlob b → get_blob (blob_json b) old ≡ some b
unfolding get_blob blob_json
get_blob-blob_json none old h = refl
get_blob-blob_json (some bs) old h = rw (std_decode-base64_encode bs h) refl

-- The fields hold what their Go types hold.
pub record IsPsa (p : PersonServerAuthorization) : Type 0 where
  pub ttl : IsInt64 p.scope.max_token_ttl_seconds
  pub not_before : IsInt64 p.not_before
  pub not_after : IsInt64 p.not_after
  pub chain : IsInt64 p.registry_chain
  pub nonce : p.nonce < 2 ^ 64
  pub signature : AreBlob p.signature

pub record IsGrant (g : AgentGrant) : Type 0 where
  pub not_before : IsInt64 g.not_before
  pub not_after : IsInt64 g.not_after
  pub chain : IsInt64 g.registry_chain
  pub nonce : g.nonce < 2 ^ 64
  pub signature : AreBlob g.signature

module _ (env : Env) where
  scope_lem :
      (s : Scope)
      → IsInt64 s.max_token_ttl_seconds
      → get_struct (set_scope env) (scope_json s) empty_scope ≡ some s
  unfolding set_scope scope_json get_struct names equal_fold text_eq get_text
  scope_lem s h =
      rw
        (
          get_int64-num s.max_token_ttl_seconds (pos 0) h,
          get_texts-texts_json s.allowed_claims none,
        )
        refl

  -- An authorization survives the trip through JSON, if its numbers and its signature are of their
  -- Go types.
  pub psa_of_json-psa_json :
      (p : PersonServerAuthorization) → IsPsa p → psa_of_json env (psa_json p) ≡ some p
  unfolding psa_of_json psa_json get_struct names equal_fold text_eq get_text
  psa_of_json-psa_json p h =
      rw
        (
          get_texts-texts_json p.key_thumbprints none,
          scope_lem p.scope h.ttl,
          get_int64-num p.not_before (pos 0) h.not_before,
          get_int64-num p.not_after (pos 0) h.not_after,
          get_int64-num p.registry_chain (pos 0) h.chain,
          get_uint64-num p.nonce 0 h.nonce,
          get_blob-blob_json p.signature none h.signature,
        )
        refl

  agent_pub_key_field :
      (t : Text) (rest : Fields) (g : AgentGrant)
      → get_fields
          (set_grant env)
          (omit_empty (codes "agentPubKey") t rest)
          (record g { agent_pub_key = [] })
        ≡ get_fields (set_grant env) rest (record g { agent_pub_key = t })
  unfolding set_grant get_struct names equal_fold text_eq get_text omit_empty
  agent_pub_key_field [] rest g = refl
  agent_pub_key_field (x ∷ t) rest g = refl

  -- the fields after the public key
  abbrev grant_rest : AgentGrant → Fields
  grant_rest g = field (codes "missionScopeS256") (text g.mission_scope_s256) (
      field (codes "notBefore") (num g.not_before) (
        field (codes "notAfter") (num g.not_after) (
          field (codes "registryChain") (num g.registry_chain) (
            field (codes "registry") (text g.registry) (
              field (codes "nonce") (num (pos g.nonce))
                (field (codes "signature") (blob_json g.signature) end))))))

  abbrev grant_head : AgentGrant → AgentGrant
  grant_head g = record empty_grant {
    root = g.root;
    agent_identifier = g.agent_identifier;
    agent_thumbprint = g.agent_thumbprint;
    agent_pub_key = g.agent_pub_key;
  }

  grant_rest_lem :
      (g : AgentGrant)
      → IsGrant g
      → get_fields (set_grant env) (grant_rest g) (grant_head g) ≡ some g
  unfolding set_grant get_struct names equal_fold text_eq get_text
  grant_rest_lem g h =
      rw
        (
          get_int64-num g.not_before (pos 0) h.not_before,
          get_int64-num g.not_after (pos 0) h.not_after,
          get_int64-num g.registry_chain (pos 0) h.chain,
          get_uint64-num g.nonce 0 h.nonce,
          get_blob-blob_json g.signature none h.signature,
        )
        refl

  -- A grant survives the trip through JSON, if its numbers and its signature are of their Go types.
  pub agent_grant_of_json-agent_grant_json :
      (g : AgentGrant) → IsGrant g → agent_grant_of_json env (agent_grant_json g) ≡ some g
  unfolding agent_grant_of_json agent_grant_json set_grant get_struct names equal_fold text_eq
      get_text
  agent_grant_of_json-agent_grant_json g h =
      agent_pub_key_field g.agent_pub_key (grant_rest g)
        (record (grant_head g) { agent_pub_key = [] })
      ∙ grant_rest_lem g h
