-- ===== src/Server/Helpers.antt =====
-- internal/server/helpers.go: tiers, resource tokens, ids and hex.
pub mod Resource
use mathlib.Core.Option
use signet_ps.Base.{
  if◌then◌else◌, pos, ltb_ℤ, Bytes, Text, codes, text_eq, ◌&&◌, Option, none, some, [], ◌∷◌, ◌++◌,
}
use signet_ps.Std.Strings.{trim_prefix, split}
use signet_ps.Std.Hex.{hex_encode, hex_decode}
use signet_ps.Std.Base64.{raw_url_encode, raw_url_decode}
use signet_ps.Env.{Json, text, num, obj, end, field, texts_json, Env}
use signet_ps.Env.Decode.{get_text, get_int64, get_texts, get_struct, names}
use signet_ps.Attest.{Scope, AgentGrant}
use signet_ps.Consent.{Tier, routine, elevated, Request}
use signet_ps.Tokens.{Jwk, ResourceClaims, big_or_zero}
use signet_ps.Attest.Content.{omit_empty}

-- a payment above a positive threshold is elevated
unfoldable pub tier_for : Scope → ResourceClaims → Tier
tier_for scope res =
    if text_eq res.amount_wei []
    then routine
    else if ltb_ℤ (pos 0) (big_or_zero scope.step_up_above_wei)
        && ltb_ℤ (big_or_zero scope.step_up_above_wei) (big_or_zero res.amount_wei)
    then elevated
    else routine

abbrev pub empty_resource : ResourceClaims
empty_resource = record {
  iss = [];
  jti = [];
  iat = pos 0;
  exp = pos 0;
  scope = none;
  amount_wei = [];
}

abbrev pub agent_key_from_grant : AgentGrant → Jwk
agent_key_from_grant g = record { kty = codes "OKP"; crv = codes "Ed25519"; x = g.agent_pub_key }

-- of 16 random bytes
unfoldable pub new_id : Bytes → Text
new_id rand = hex_encode rand

-- of 5 random bytes
unfoldable pub new_code : Bytes → Text
new_code rand = raw_url_encode rand

unfoldable pub hex_str : Bytes → Text
hex_str b = codes "0x" ++ hex_encode b

-- what hex.DecodeString decodes before an error
unfoldable pub hex_bytes : Text → Bytes
unfolding trim_prefix
hex_bytes s = hex_decode (trim_prefix (codes "0x") s)

module _ (env : Env) where
  set_resource : Text → Json → ResourceClaims → Option ResourceClaims
  set_resource k j c =
      if names env "iss" k
      then Option.map (λ t. record c { iss = t }) (get_text j c.iss)
      else if names env "jti" k
      then Option.map (λ t. record c { jti = t }) (get_text j c.jti)
      else if names env "iat" k
      then Option.map (λ n. record c { iat = n }) (get_int64 j c.iat)
      else if names env "exp" k
      then Option.map (λ n. record c { exp = n }) (get_int64 j c.exp)
      else if names env "scope" k
      then Option.map (λ ts. record c { scope = ts }) (get_texts j c.scope)
      else if names env "amount" k
      then Option.map (λ t. record c { amount_wei = t }) (get_text j c.amount_wei)
      else some c

  unfoldable pub resource_of_json : Json → Option ResourceClaims
  unfolding set_resource
  resource_of_json j = get_struct set_resource j empty_resource

  -- the second segment of a compact JWT, whose signature is not checked
  unfoldable pub parse_resource_token : Text → Option ResourceClaims
  unfolding resource_of_json
  parse_resource_token raw = elim (split b'.' raw) [
    | a ∷ body ∷ c ∷ [] ↦ elim (raw_url_decode body) [
      | none ↦ none
      | some payload ↦ elim (env.unmarshal payload) [
        | none ↦ none
        | some j ↦ elim (resource_of_json j) [
          | none ↦ none
          | some rc ↦ if text_eq rc.iss [] then none else some rc
        ]
      ]
    ]
    | _ ↦ none
  ]

  unfoldable pub resource_json : ResourceClaims → Json
  resource_json c = obj (
      field (codes "iss") (text c.iss) (
        field (codes "jti") (text c.jti) (
          field (codes "iat") (num c.iat) (
            field (codes "exp") (num c.exp) (
              field (codes "scope") (texts_json c.scope)
                (omit_empty (codes "amount") c.amount_wei end))))))

  unfoldable pub marshal_resource : ResourceClaims → Bytes
  unfolding resource_json
  marshal_resource c = env.marshal (resource_json c)

  abbrev or_empty : Option ResourceClaims → ResourceClaims
  or_empty none = empty_resource
  or_empty (some c) = c

  -- The bytes were made by marshal_resource, so that a failure to read them is left as no claims.
  unfoldable pub resource_of : Request → ResourceClaims
  unfolding resource_of_json
  resource_of r = elim (env.unmarshal r.resource_json) [
    | none ↦ empty_resource
    | some j ↦ or_empty (resource_of_json j)
  ]
