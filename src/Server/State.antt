-- ===== src/Server/State.antt =====
-- internal/server/server.go: the state of a server, what it answers, and the log of a tenant.
use signet_ps.Base.{get_elem?, ℤ, Text, Result, ok, err, ℕ, none, some, List, [], map}
use signet_ps.Env.{Env}
use signet_ps.Attest.{PersonServerAuthorization, AgentGrant}
use signet_ps.Attest.Verify.{RevocationRegistry, Verifier, Error, verify_agent_grant}
use signet_ps.Consent.{Tier, Request}
use signet_ps.Consent.Store as ConsentStore
use signet_ps.Consent.Store.{
  Store, new_store, unknown_request, unknown_code, nil_request, step_up, create, by_code_locked,
  approve_routine,
}
use signet_ps.Missions.{Entry, Log, append}
use signet_ps.Store.Tenants.{Tenants, new_tenants, write}
use signet_ps.Tokens.{IssuerKey, thumbprint}
use signet_ps.Attest.Verify as AttestVerify

pub record Config : Type 0 where
  pub issuer_url : Text
  pub issuer_keys : List IssuerKey
  pub registry : RevocationRegistry
  pub chain_id : ℤ
  pub registry_addr : Text

pub record Server : Type 0 where
  pub cfg : Config
  pub tenants : Tenants
  pub pending_store : ConsentStore.Store

abbrev pub new_server : Config → Server
new_server cfg = record { cfg = cfg; tenants = new_tenants; pending_store = new_store }

-- A reply: a status and an error code, or what the body of a success says. A nil pointer or an empty
-- list of keys panics.
pub data Reply : Type 0 where
  failed : ℕ → Text → Reply
  panicked : Reply
  onboarded : Text → Text → Reply
  enrolled : Text → Reply
  interaction : Text → Text → Tier → Reply
  still_pending : Reply
  issued : Text → Reply
  approved_step_up : Reply
  approved_click : Text → Reply
  to_sign : Request → Text → Text → Reply
  served_psa : PersonServerAuthorization → Reply
  served_grant : AgentGrant → Reply
  exported : PersonServerAuthorization → Log → Reply

-- The checks of a handler, and what it does when they pass.
abbrev pub answer : {A : Type 0} → Server → Result Reply A → (A → Reply × Server) → Reply × Server
answer s (err r) f = (r, s)
answer s (ok a) f = f a

unfoldable pub key_thumbs : Env → Server → List Text
key_thumbs env s = map (λ (k : IssuerKey). thumbprint env k.pub_jwk) s.cfg.issuer_keys

-- the field `chain`, which New makes without an ERC-1271 verifier
unfoldable pub chain_at : Server → ℤ → AttestVerify.Verifier
chain_at s now = record { registry = s.cfg.registry; erc1271 = none; now = now }

abbrev pub note : Text → Text → ℤ → Entry
note kind request_id now = record {
  kind = kind;
  request_id = request_id;
  at = now;
  prev = [];
  hash = [];
}

-- `tenant.Log().Append(agentID, e)`, for the tenant at an address
unfoldable pub log_at : Env → Tenants → ℕ → Text → Entry → Tenants
log_at env ts a agent_id e = elim (get_elem? ts.heap a) [
  | none ↦ ts
  | some t ↦ write ts a (record t { log = append env t.log agent_id e })
]
