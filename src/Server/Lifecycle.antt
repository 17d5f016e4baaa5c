-- ===== src/Server/Lifecycle.antt =====
-- internal/server/server.go: how tenants and agents come in, and what is served of them.
use signet_ps.Base.{
  ℤ, Text, codes, Result, ok, err, ◌>>=◌, ◌>>◌, or_fail, wrap_err, ℕ, Option, none, some, [], ◌++◌,
}
use signet_ps.Env.{Env}
use signet_ps.Attest.{PersonServerAuthorization, AgentGrant}
use signet_ps.Attest.Verify.{verify_agent_grant}
use signet_ps.Store.Tenants as TenantStore
use signet_ps.Store.Tenants.{
  Tenant, Tenants, tenant_of_root, enroll, grant_by_s256, verify_and_onboard,
}
use signet_ps.Missions.{export as export_log}
use signet_ps.Server.State.{
  Server, Reply, failed, onboarded, enrolled, served_psa, served_grant, exported, answer,
  key_thumbs, chain_at, note, log_at,
}

module _ (env : Env) where
  unfoldable pub onboard_answer :
      Server → Result TenantStore.Error (ℕ × Tenant) × Tenants → Reply × Server
  onboard_answer s (err e, ts) = (failed 403 (codes "invalid_psa"), record s { tenants = ts })
  onboard_answer s (ok (a, t), ts) =
      (onboarded t.root (s.cfg.issuer_url ++ (codes "/psa/" ++ t.root)), record s { tenants = ts })

  unfoldable pub onboard : Server → ℤ → Option PersonServerAuthorization → Reply × Server
  unfolding onboard_answer key_thumbs chain_at
  onboard s now none = (failed 400 (codes "invalid_request"), s)
  onboard s now (some psa) =
      onboard_answer s
        (verify_and_onboard env s.tenants (chain_at s now) psa s.cfg.issuer_url (key_thumbs env s))

  -- the checks of `enrollAgent`: the agent, its tenant, and the grant
  unfoldable pub enroll_checks :
      Server
      → ℤ
      → Option (Text × Text)
      → Option AgentGrant
      → Result Reply (Text × ((ℕ × Tenant) × AgentGrant))
  unfolding chain_at
  enroll_checks s now signer body = do
    (thumb, agent_id) ← or_fail signer (failed 401 (codes "invalid_signature"))
    g ← or_fail body (failed 400 (codes "invalid_request"))
    (a, t) ← or_fail (tenant_of_root s.tenants g.root) (failed 403 (codes "unknown_root"))
    wrap_err (λ e. failed 403 (codes "invalid_grant"))
        (verify_agent_grant env (chain_at s now) g t.root agent_id thumb)
    ok (agent_id, ((a, t), g))

  unfoldable pub enroll_answer :
      Server → ℤ → ℕ × Tenant → Text → Result TenantStore.Error Tenants → Reply × Server
  unfolding log_at
  enroll_answer s now (a, t) agent_id (err e) = (failed 409 (codes "conflict"), s)
  enroll_answer s now (a, t) agent_id (ok ts) = (
    enrolled t.root,
    record s { tenants = log_at env ts a agent_id (note (codes "agent_enrolled") [] now) },
  )

  unfoldable pub enroll_with : Server → ℤ → Text × ((ℕ × Tenant) × AgentGrant) → Reply × Server
  unfolding enroll_answer
  enroll_with s now (agent_id, (at, g)) =
      enroll_answer s now at agent_id (enroll env s.tenants agent_id at g)

  unfoldable pub enroll_agent :
      Server → ℤ → Option (Text × Text) → Option AgentGrant → Reply × Server
  unfolding enroll_checks enroll_with
  enroll_agent s now signer body = answer s (enroll_checks s now signer body) (enroll_with s now)

unfoldable pub serve_psa : Server → Text → Reply
serve_psa s root = elim (tenant_of_root s.tenants root) [
  | none ↦ failed 404 (codes "unknown_root")
  | some (a, t) ↦ served_psa t.psa
]

unfoldable pub serve_grant : Server → Text → Reply
serve_grant s s256 = elim (grant_by_s256 s.tenants s256) [
  | none ↦ failed 404 (codes "unknown_grant")
  | some g ↦ served_grant g
]

-- `who` is the root that answered the challenge
unfoldable pub export : Server → Option Text → Reply
export s none = failed 401 (codes "root_auth_failed")
export s (some root) = elim (tenant_of_root s.tenants root) [
  | none ↦ failed 404 (codes "unknown_root")
  | some (a, t) ↦ exported t.psa (export_log t.log)
]
