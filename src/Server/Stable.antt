-- ===== src/Server/Stable.antt =====
-- What holds of the tenants whatever a server is asked: enough is that writing a log entry, taking in
-- a tenant and enrolling an agent keep it.
pub mod Kept
use signet_ps.Env.{Env}
use signet_ps.Attest.{PersonServerAuthorization, AgentGrant}
use signet_ps.Attest.Verify.{RevocationRegistry, verify_agent_grant}
use signet_ps.Consent.{State, pending, approved, denied, expired, Request}
use signet_ps.Consent.Store as ConsentStore
use signet_ps.Consent.Store.{Store, by_code_locked, approve_routine}
use signet_ps.Store.Tenants as TenantStore
use signet_ps.Store.Tenants.{
  Tenant, Tenants, new_tenants, tenant_of_agent, tenant_of_root, enroll, verify_and_onboard,
}
use signet_ps.Missions.{Entry, auto_approvable}
use signet_ps.Tokens.{ResourceClaims, IssuerKey}
use signet_ps.Tokens.Mint.{MintInput, MintError}
use signet_ps.Server.Helpers.{new_id}
use signet_ps.Server.State.{
  Config, Server, new_server, Reply, failed, answer, key_thumbs, chain_at, note, log_at,
}
use signet_ps.Server.Handlers.{
  is_elevated, code_failed, finish_with, finish_by, finish, token_checks, token_granted, token,
  finish_granted, finish_found, poll_state, poll_answer, poll, step_up_answer, sign_checks,
  sign_with, approve_elevated, click_answer, ask_signature, click_found, approve_page,
}
use signet_ps.Server.Lifecycle.{
  onboard_answer, onboard, enroll_checks, enroll_answer, enroll_with, enroll_agent,
}
use signet_ps.Server.Requests.{Step, asks, polls, signs, clicks, onboards, enrolls}
use signet_ps.Base.{
  >>=-eq-ok, or_fail-eq-ok, wrap_err-eq-ok, or_fail, Bool-cases, ℤ, lookup, Bytes, Text, text_ne,
  codes, Result, ok, err, wrap_err, ℕ, ◌≡◌, refl, inl, inr, Option, none, some, List, [], ◌∷◌,
  arith,
}

-- What a server knows of a grant that it enrolls an agent with.
pub record IsVetted (env : Env) (ts : Tenants) (agent_id : Text) (a : ℕ) (t : Tenant)
    (g : AgentGrant) : Type 0 where
  pub found : tenant_of_root ts g.root ≡ some (a, t)
  pub registry : RevocationRegistry
  pub at : ℤ
  pub thumb : Text
  pub verified :
      verify_agent_grant env
        (record { registry = registry; erc1271 = none; now = at })
        g
        t.root
        agent_id
        thumb
      ≡ ok tt

-- What requests and changes of the registry keep.
pub record IsStable (env : Env) (P : Config → Tenants → Type 0) : Type 0 where
  pub registers :
      (cfg : Config) (ts : Tenants) (r : RevocationRegistry)
      → P cfg ts
      → P (record cfg { registry = r }) ts
  pub logs :
      (cfg : Config) (ts : Tenants) (a : ℕ) (agent_id : Text) (e : Entry)
      → e.prev ≡ []
      → P cfg ts
      → P cfg (log_at env ts a agent_id e)
  pub onboards :
      (cfg : Config) (ts : Tenants) (now : ℤ) (psa : PersonServerAuthorization) (thumbs : List Text)
      → P cfg ts
      → P cfg
          (verify_and_onboard env ts
            (record { registry = cfg.registry; erc1271 = none; now = now })
            psa
            cfg.issuer_url
            thumbs).1
  pub enrolls :
      (cfg : Config) (ts ts' : Tenants) (agent_id : Text) (a : ℕ) (t : Tenant) (g : AgentGrant)
      → IsVetted env ts agent_id a t g
      → enroll env ts agent_id (a, t) g ≡ ok ts'
      → P cfg ts
      → P cfg ts'

-- The servers that requests make out of a new one, while the registry changes.
pub data IsReachable (env : Env) (cfg : Config) : Server → Type 0 where
  starts : IsReachable env cfg (new_server cfg)
  serves : {s s' : Server} → IsReachable env cfg s → Step env s s' → IsReachable env cfg s'
  registers :
      {s : Server} (r : RevocationRegistry)
      → IsReachable env cfg s
      → IsReachable env cfg (record s { cfg = record s.cfg { registry = r } })
