-- ===== src/Resd/Handlers/Asked.antt =====
-- cmd/resd over internal/server: a challenge that an agent takes to its person server.
use signet_ps.Base.{
  ℤ, pos, ◌+ℤ◌, IsInt64, Bytes, Text, codes, ◌++◌, lookup, ℕ, ok, text_eq, text_eq_iff, text_ne,
  Bool-cases, inl, inr, ◌≡◌, ◌≢◌, refl, false, some, [], arith,
}
use signet_ps.Std.Hex.{AreBytes}
use signet_ps.Env.{Env}
use signet_ps.Attest.{AgentGrant}
use signet_ps.Attest.Verify.{unix}
use signet_ps.Consent.{Request}
use signet_ps.Consent.Store.{create}
use signet_ps.Missions.{consistent, auto_approvable}
use signet_ps.Store.Tenants.{Tenant, tenant_of_agent}
use signet_ps.Server.Helpers.{parse_resource_token, marshal_resource}
use signet_ps.Server.Helpers.Resource.{IsReadable}
use signet_ps.Server.State.{Server, interaction}
use signet_ps.Server.Handlers.{new_request, is_elevated, token_checks, token_granted, token}
use signet_ps.Resd.Handlers.{Resource, required, challenge}
use signet_ps.Resd.Handlers.Challenge.{parse-challenge}

module _ (env : Env) (s : Server) (agent_id thumb : Text) (a : ℕ) (t : Tenant) (grant : AgentGrant)
    (found : tenant_of_agent s.tenants agent_id ≡ some (a, t))
    (granted : lookup agent_id t.grants ≡ some grant) (same_key : grant.agent_thumbprint ≡ thumb)
    (has_mission : grant.mission_scope_s256 ≢ []) where
  checked :
      (rs : Resource) (now : ℤ) (rand : Bytes)
      → parse_resource_token env (challenge env rs now rand).0 ≡ some (challenge env rs now rand).1
      → token_checks env s (some (thumb, agent_id)) (some (challenge env rs now rand).0)
        ≡ ok (agent_id, ((a, t), (grant, (challenge env rs now rand).1)))
  unfolding token_checks consistent
  checked rs now rand parsed =
      let holder : text_ne grant.agent_thumbprint thumb ≡ false =
        ground (arith, same_key, text_eq_iff grant.agent_thumbprint thumb) in
      let mission : text_eq grant.mission_scope_s256 [] ≡ false =
        ground (arith, has_mission, text_eq_iff grant.mission_scope_s256 []) in
      rw (found, granted, holder, parsed, mission) refl

  -- If an agent that has a tenant and a grant with a mission for its key brings a resource's
  -- challenge to the server, the server stores a new request of this agent for the resource, the
  -- amount and the scope that the resource requires, under the mission of the grant, and answers
  -- with its code and tier; if the resource has a URL, the times of the challenge are of type
  -- int64, and the JSON text of the requirements is bytes that are readable.
  pub challenge_is_pending :
      (rs : Resource) (now later : ℤ) (rand id code jti : Bytes)
      → rs.self ≢ []
      → IsInt64 (unix now)
      → IsInt64 (unix (now +ℤ pos 300000000000))
      → AreBytes (marshal_resource env (required rs now rand))
      → IsReadable env (required rs now rand)
      → (req : Request) × (req.agent_id ≡ agent_id)
        × (req.resource ≡ rs.self)
        × (req.amount_wei ≡ rs.amount)
        × (req.scope_req ≡ some rs.scope)
        × (req.mission_s256 ≡ grant.mission_scope_s256)
        × ((token env s later id code jti
              (some (thumb, agent_id))
              (some (challenge env rs now rand).0)).0
            ≡ interaction (s.cfg.issuer_url ++ (codes "/approve/" ++ req.code)) req.code req.tier)
        × ((token env s later id code jti
              (some (thumb, agent_id))
              (some (challenge env rs now rand).0)).1.pending_store
            ≡ create s.pending_store req)
  unfolding token token_granted new_request auto_approvable challenge required
  challenge_is_pending rs now later rand id code jti n iat exp bytes readable =
      let parsed = parse-challenge env rs now rand n iat exp bytes readable in
      let req =
        new_request env later id code agent_id t.psa.scope grant (challenge env rs now rand).1 in
      let checks = checked rs now rand parsed in
      elim (Bool-cases (is_elevated req.tier)) [
        | inl y ↦ (req, refl, refl, refl, refl, refl, rw (checks, y) refl, rw (checks, y) refl)
        | inr y ↦ (req, refl, refl, refl, refl, refl, rw (checks, y) refl, rw (checks, y) refl)
      ]
