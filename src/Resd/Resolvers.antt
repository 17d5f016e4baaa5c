-- ===== src/Resd/Resolvers.antt =====
-- cmd/resd/main.go: the resolvers, over what the web answers.
pub mod Pinned
pub mod Published
use mathlib.Core.Option
use signet_ps.Base.{
  ◌==◌, if◌then◌else◌, ℤ, Map, lookup, insert, Text, codes, text_ne, true, false, ◌&&◌, Option,
  none, some, List, [], ◌∷◌, ◌++◌, map,
}
use signet_ps.Std.Strings.{trim_end}
use signet_ps.Env.{Json, null, arr, Items, nil, cons, Slice, elems, Env}
use signet_ps.Env.Decode.{get_struct, names}
use signet_ps.Attest.{PersonServerAuthorization, AgentGrant}
use signet_ps.Attest.Content.{psa_json, agent_grant_json, content_hash}
use signet_ps.Attest.Decode.{psa_of_json, agent_grant_of_json}
use signet_ps.Attest.Verify as AttestVerify
use signet_ps.Attest.Verify.{RevocationRegistry}
use signet_ps.Tokens.{Jwk}
use signet_ps.Tokens.Jwt.{JwksResolver}
use signet_ps.Tokens.Jwt.Claims.{empty_jwk, set_jwk}
use signet_ps.Tokens.Verify.{ReplayCache, Verifier, AttestationResolver}
use signet_ps.Resd.Refs.{split_ref}

-- `getJSON`: the JSON value that a URL answers with status 200; `none` is any error
abbrev pub Web : Type 0
Web = Text → Option Json

-- `TrimRight(iss, "/")`
unfoldable pub base_url : Text → Text
unfolding trim_end
base_url iss = trim_end (λ c. c == b'/') iss

abbrev first_key : Option (List Jwk) → Option Jwk
first_key none = none
first_key (some []) = none
first_key (some (k ∷ ks)) = some k

-- `alwaysLive`: no grant reads as revoked
abbrev pub always_live : RevocationRegistry
always_live chain_id registry root nonce = some false

-- `replayCache`: a map from the ids that were seen
unfoldable pub seen_jti : ReplayCache (Map ℤ)
seen_jti seen jti exp = elim (lookup jti seen) [
  | some _ ↦ (true, seen)
  | none ↦ (false, insert jti exp seen)
]

module _ (env : Env) where
  get_keys : Items → Option (List Jwk)
  get_keys nil = some []
  get_keys (cons j js) = elim (get_struct (set_jwk env) j empty_jwk) [
    | none ↦ none
    | some w ↦ Option.map (λ ws. w ∷ ws) (get_keys js)
  ]

  -- the field `keys` of the struct that the body is read into
  set_keys : Text → Json → Slice Jwk → Option (Slice Jwk)
  unfolding get_keys
  set_keys k null old = if names env "keys" k then some none else some old
  set_keys k (arr js) old = if names env "keys" k then Option.map some (get_keys js) else some old
  set_keys k j old = if names env "keys" k then none else some old

  unfoldable pub keys_of_json : Json → Option (List Jwk)
  unfolding set_keys
  keys_of_json j = Option.map elems (get_struct set_keys j none)

  -- The key id is not looked at.
  unfoldable pub resolve_key : Web → JwksResolver
  resolve_key web iss kid = elim (web (base_url iss ++ codes "/jwks.json")) [
    | none ↦ none
    | some j ↦ first_key (keys_of_json j)
  ]

  pinned_psa : Text → PersonServerAuthorization → Option PersonServerAuthorization
  pinned_psa want p =
      if text_ne want [] && text_ne (content_hash env (psa_json p)) want then none else some p

  -- A reference without a hash pins nothing.
  unfoldable pub resolve_psa : Web → Text → Option PersonServerAuthorization
  unfolding pinned_psa
  resolve_psa web ref = elim (web (split_ref ref).0) [
    | none ↦ none
    | some j ↦ elim (psa_of_json env j) [ none ↦ none | some p ↦ pinned_psa (split_ref ref).1 p ]
  ]

  pinned_grant : Text → AgentGrant → Option AgentGrant
  pinned_grant want g =
      if text_ne (content_hash env (agent_grant_json g)) want then none else some g

  unfoldable pub resolve_grant : Web → Text → Text → Option AgentGrant
  unfolding pinned_grant
  resolve_grant web iss ag_s256 = elim (web (base_url iss ++ (codes "/grants/" ++ ag_s256))) [
    | none ↦ none
    | some j ↦ elim (agent_grant_of_json env j) [ none ↦ none | some g ↦ pinned_grant ag_s256 g ]
  ]

  -- the verifier that `main` makes
  unfoldable pub verifier_at : Web → ℤ → Verifier (Map ℤ)
  unfolding resolve_key resolve_psa resolve_grant seen_jti
  verifier_at web now = record {
    keys = resolve_key web;
    attest = record { psa = resolve_psa web; agent_grant = resolve_grant web };
    chain = record { registry = always_live; erc1271 = none; now = now };
    replay = seen_jti;
    now = now;
  }
