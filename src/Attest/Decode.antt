-- ===== src/Attest/Decode.antt =====
-- internal/attest/psa.go: the attestations as encoding/json reads them, from their struct tags.
pub mod RoundTrip
use mathlib.Core.Option
use signet_ps.Base.{ltb, if◌then◌else◌, pos, Bytes, Text, ℕ, ◌^◌, Option, none, some, [], ◌∷◌, map}
use signet_ps.Std.Base64.{std_decode}
use signet_ps.Env.{Json, null, text, num, arr, Items, nil, cons, Slice, Env}
use signet_ps.Env.Decode.{get_text, get_int64, get_texts, get_struct, names}
use signet_ps.Attest.{Scope, PersonServerAuthorization, AgentGrant}

-- into a uint8, which is 0 before; null leaves it
get_byte : Json → Option ℕ
get_byte null = some 0
get_byte (num (pos n)) = if ltb n 256 then some n else none
get_byte _ = none

get_bytes : Items → Option Bytes
unfolding get_byte
get_bytes nil = some []
get_bytes (cons j js) = elim (get_byte j) [
  | none ↦ none
  | some b ↦ Option.map (λ bs. b ∷ bs) (get_bytes js)
]

-- into a []byte: base64, or an array of numbers
unfoldable pub get_blob : Json → Slice ℕ → Option (Slice ℕ)
unfolding get_bytes
get_blob null old = some none
get_blob (text t) old = Option.map some (std_decode t)
get_blob (arr js) old = Option.map some (get_bytes js)
get_blob _ old = none

-- into a uint64
unfoldable pub get_uint64 : Json → ℕ → Option ℕ
get_uint64 null old = some old
get_uint64 (num (pos n)) old = if ltb n (2 ^ 64) then some n else none
get_uint64 _ old = none

abbrev pub empty_scope : Scope
empty_scope = record {
  max_token_ttl_seconds = pos 0;
  allowed_claims = none;
  payment_cap_wei = [];
  step_up_above_wei = [];
}

abbrev pub empty_psa : PersonServerAuthorization
empty_psa = record {
  root = [];
  issuer = [];
  key_thumbprints = none;
  scope = empty_scope;
  not_before = pos 0;
  not_after = pos 0;
  registry_chain = pos 0;
  registry = [];
  nonce = 0;
  signature = none;
}

abbrev pub empty_grant : AgentGrant
empty_grant = record {
  root = [];
  agent_identifier = [];
  agent_thumbprint = [];
  agent_pub_key = [];
  mission_scope_s256 = [];
  not_before = pos 0;
  not_after = pos 0;
  registry_chain = pos 0;
  registry = [];
  nonce = 0;
  signature = none;
}

module _ (env : Env) where
  unfoldable pub set_scope : Text → Json → Scope → Option Scope
  set_scope k j s =
      if names env "maxTokenTTLSeconds" k
      then Option.map (λ n. record s { max_token_ttl_seconds = n })
          (get_int64 j s.max_token_ttl_seconds)
      else if names env "allowedClaims" k
      then Option.map (λ ts. record s { allowed_claims = ts }) (get_texts j s.allowed_claims)
      else if names env "paymentCapWei" k
      then Option.map (λ t. record s { payment_cap_wei = t }) (get_text j s.payment_cap_wei)
      else if names env "stepUpAboveWei" k
      then Option.map (λ t. record s { step_up_above_wei = t }) (get_text j s.step_up_above_wei)
      else some s

  unfoldable pub set_psa :
      Text → Json → PersonServerAuthorization → Option PersonServerAuthorization
  unfolding set_scope
  set_psa k j p =
      if names env "root" k
      then Option.map (λ t. record p { root = t }) (get_text j p.root)
      else if names env "issuer" k
      then Option.map (λ t. record p { issuer = t }) (get_text j p.issuer)
      else if names env "keyThumbprints" k
      then Option.map (λ ts. record p { key_thumbprints = ts }) (get_texts j p.key_thumbprints)
      else if names env "scope" k
      then Option.map (λ s. record p { scope = s }) (get_struct set_scope j p.scope)
      else if names env "notBefore" k
      then Option.map (λ n. record p { not_before = n }) (get_int64 j p.not_before)
      else if names env "notAfter" k
      then Option.map (λ n. record p { not_after = n }) (get_int64 j p.not_after)
      else if names env "registryChain" k
      then Option.map (λ n. record p { registry_chain = n }) (get_int64 j p.registry_chain)
      else if names env "registry" k
      then Option.map (λ t. record p { registry = t }) (get_text j p.registry)
      else if names env "nonce" k
      then Option.map (λ n. record p { nonce = n }) (get_uint64 j p.nonce)
      else if names env "signature" k
      then Option.map (λ b. record p { signature = b }) (get_blob j p.signature)
      else some p

  unfoldable pub set_grant : Text → Json → AgentGrant → Option AgentGrant
  set_grant k j g =
      if names env "root" k
      then Option.map (λ t. record g { root = t }) (get_text j g.root)
      else if names env "agentIdentifier" k
      then Option.map (λ t. record g { agent_identifier = t }) (get_text j g.agent_identifier)
      else if names env "agentThumbprint" k
      then Option.map (λ t. record g { agent_thumbprint = t }) (get_text j g.agent_thumbprint)
      else if names env "agentPubKey" k
      then Option.map (λ t. record g { agent_pub_key = t }) (get_text j g.agent_pub_key)
      else if names env "missionScopeS256" k
      then Option.map (λ t. record g { mission_scope_s256 = t }) (get_text j g.mission_scope_s256)
      else if names env "notBefore" k
      then Option.map (λ n. record g { not_before = n }) (get_int64 j g.not_before)
      else if names env "notAfter" k
      then Option.map (λ n. record g { not_after = n }) (get_int64 j g.not_after)
      else if names env "registryChain" k
      then Option.map (λ n. record g { registry_chain = n }) (get_int64 j g.registry_chain)
      else if names env "registry" k
      then Option.map (λ t. record g { registry = t }) (get_text j g.registry)
      else if names env "nonce" k
      then Option.map (λ n. record g { nonce = n }) (get_uint64 j g.nonce)
      else if names env "signature" k
      then Option.map (λ b. record g { signature = b }) (get_blob j g.signature)
      else some g

  -- into a struct that is empty before
  unfoldable pub psa_of_json : Json → Option PersonServerAuthorization
  unfolding set_psa
  psa_of_json j = get_struct set_psa j empty_psa

  unfoldable pub agent_grant_of_json : Json → Option AgentGrant
  unfolding set_grant
  agent_grant_of_json j = get_struct set_grant j empty_grant
