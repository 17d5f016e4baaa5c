-- ===== src/Tests/Asked.antt =====
-- A challenge that the agent takes to its person server.
use signet_ps.Base.{
  pos, ◌+ℤ◌, floor_div, codes, text_eq, lookup, ◌≡◌, refl, some, [], ◌∷◌, ◌++◌, arith,
}
use signet_ps.Env.{null, Env}
use signet_ps.Attest.Verify.{unix}
use signet_ps.Server.Helpers.{resource_json, marshal_resource}
use signet_ps.Resd.Handlers.{required, challenge}
use signet_ps.Resd.Handlers.Asked.{challenge_is_pending}
use signet_ps.Consent.{Request}
use signet_ps.Consent.Store.{create}
use signet_ps.Store.Tenants.{tenant_of_agent, tenant_of_root}
use signet_ps.Server.State.{Server, Reply, interaction}
use signet_ps.Server.Handlers.{token}
use signet_ps.Tests.Welcome as Welcome
use signet_ps.Tests.Fixture.{env_of, env, grant}
use signet_ps.Tests.Resd.{resource}

-- the environment whose parser knows what the resource asks for
abbrev resource_env : Env
resource_env = env_of null (resource_json env (required resource (pos 1000000000000) []))

abbrev asking_server : Server
asking_server = Welcome.after resource_env

abbrev asked : Reply × Server
asked =
    token resource_env asking_server Welcome.minting (1 ∷ []) (2 ∷ []) []
      (some (grant.agent_thumbprint, Welcome.agent))
      (some (challenge resource_env resource (pos 1000000000000) []).0)

challenge_is_pending_example :
    (req : Request) × (req.agent_id ≡ Welcome.agent)
    × (req.resource ≡ codes "https://r")
    × (req.amount_wei ≡ codes "5")
    × (req.scope_req ≡ some (codes "read" ∷ []))
    × (req.mission_s256 ≡ grant.mission_scope_s256)
    × (asked.0
        ≡ interaction (codes "https://ps" ++ (codes "/approve/" ++ req.code)) req.code req.tier)
    × (asked.1.pending_store ≡ create asking_server.pending_store req)
unfolding required unix floor_div ◌+ℤ◌ marshal_resource resource_json text_eq tenant_of_agent lookup
    tenant_of_root
challenge_is_pending_example =
    challenge_is_pending resource_env asking_server Welcome.agent grant.agent_thumbprint 0
      (Welcome.tenant resource_env) grant refl refl refl (λ e. cc) resource (pos 1000000000000)
      Welcome.minting [] (1 ∷ []) (2 ∷ []) [] (λ e. cc) (omega arith, omega arith)
      (omega arith, omega arith) (omega arith) refl
