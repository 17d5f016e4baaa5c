-- ===== src/Server/Moves.antt =====
-- internal/server: what each request does to the store of pending requests, as a sequence of the
-- store's own methods.
pub mod Steps
pub mod Signed
pub mod Atomic
pub mod Rewrites
pub mod Indexed
pub mod Calm
use signet_ps.Env.{Env}
use signet_ps.Attest.{PersonServerAuthorization, AgentGrant}
use signet_ps.Consent.{State, pending, approved, denied, expired, Request}
use signet_ps.Consent.Store as ConsentStore
use signet_ps.Consent.Store.{create, by_code_locked, approve_routine}
use signet_ps.Store.Tenants as TenantStore
use signet_ps.Store.Tenants.{Tenant, Tenants, tenant_of_agent, enroll}
use signet_ps.Missions.{consistent, auto_approvable}
use signet_ps.Tokens.{ResourceClaims, IssuerKey}
use signet_ps.Tokens.Mint.{MintInput, MintError}
use signet_ps.Server.Helpers.{hex_bytes, parse_resource_token}
use signet_ps.Server.State.{failed, Config, Server, Reply, answer}
use signet_ps.Server.Handlers.{
  poll, approve_elevated, code_failed, is_elevated, finish_with, finish_by, finish, token_checks,
  new_request, token_granted, token, finish_granted, finish_found, poll_state, poll_answer,
  step_up_answer, sign_checks, sign_with, click_answer, ask_signature, click_found, approve_page,
}
use signet_ps.Server.Lifecycle.{
  onboard, onboard_answer, enroll_checks, enroll_answer, enroll_with, enroll_agent,
}
use signet_ps.Server.Requests.{Step, asks, polls, signs, clicks, onboards, enrolls}
use signet_ps.Base.{
  codes, >>=-eq-ok, or_fail-eq-ok, fail_if-eq-ok, or_fail, fail_if, ap, ◌∙◌, ◌>>=◌, ◌>>◌,
  Bool-cases, Option-cases, ℤ, lookup, Bytes, Text, text_ne, Result, ok, err, wrap_err,
  Result-cases, ℕ, ◌≡◌, refl, sym, subst, inl, inr, not, ◌&&◌, Option, none, some, List, [], ◌∷◌,
  arith,
}

module _ (env : Env) (cfg : Config) (ts : Tenants) where
  -- A call of the store. A request is made for an agent that has a tenant, and a signature is checked
  -- against the root of this tenant.
  pub data Move (c : ConsentStore.Store) : ConsentStore.Store → Type 0 where
    creating :
        (r : Request) (a : ℕ) (t : Tenant)
        → r.step_up_sig ≡ []
        → tenant_of_agent ts r.agent_id ≡ some (a, t)
        → Move c (create c r)
    polling : (now : ℤ) (id : Text) → Move c (ConsentStore.poll c now id).1
    clicking : (now : ℤ) (code : Text) → Move c (approve_routine c now code).1
    signing :
        (now : ℤ) (code : Text) (sig : Bytes) (a : ℕ) (r : Request) (b : ℕ) (t : Tenant)
        → by_code_locked c code ≡ ok (a, r)
        → tenant_of_agent ts r.agent_id ≡ some (b, t)
        → Move c
            (ConsentStore.approve_elevated env c now code t.root cfg.chain_id cfg.registry_addr
              sig).1

  pub data Moves (c : ConsentStore.Store) : ConsentStore.Store → Type 0 where
    at_rest : Moves c c
    moved : {mid c' : ConsentStore.Store} → Moves c mid → Move mid c' → Moves c c'
