-- ===== src/Server/Bindings.antt =====
-- Whatever a server is asked, an agent stays bound to the root that it is enrolled with.
use signet_ps.Env.{Env}
use signet_ps.Store.Tenants.{Tenants}
use signet_ps.Store.Tenants.Laws.{enroll_keeps, verify_and_onboard_keeps}
use signet_ps.Missions.{Entry}
use signet_ps.Server.State.{Server, log_at}
use signet_ps.Server.Requests.{Steps}
use signet_ps.Server.Stable.{IsStable}
use signet_ps.Server.Stable.Kept.{Steps-Good}
use signet_ps.Base.{Option-cases, get_elem?, lookup, Text, ℕ, ◌≡◌, ap, ◌∙◌, inl, inr, some, arith}

module _ (env : Env) where
  log_at-by_agent :
      (ts : Tenants) (a : ℕ) (agent_id : Text) (e : Entry)
      → (log_at env ts a agent_id e).by_agent ≡ ts.by_agent
  unfolding log_at
  log_at-by_agent ts a agent_id e = elim (Option-cases (get_elem? ts.heap a)) [
    | inl p ↦ ground (arith, p)
    | inr (t, p) ↦ ground (arith, p)
  ]

  -- `root` is the agent's
  abbrev pub IsBound : Server → Text → Text → Type 0
  IsBound s agent_id root = lookup agent_id s.tenants.by_agent ≡ some root

  binding_lem : (b root : Text) → IsStable env (λ cfg ts. lookup b ts.by_agent ≡ some root)
  binding_lem b root = record {
    registers = λ cfg ts r k. k;
    logs = λ cfg ts a agent_id e p k. ap (lookup b) (log_at-by_agent ts a agent_id e) ∙ k;
    onboards = λ cfg ts now psa thumbs k.
        ap (lookup b) (verify_and_onboard_keeps env ts _ psa cfg.issuer_url thumbs) ∙ k;
    enrolls = λ cfg ts ts' agent_id a t g v e k. enroll_keeps env ts ts' agent_id b root a t g e k;
  }

  pub IsBound-Steps :
      {s s' : Server} (agent_id root : Text)
      → Steps env s s'
      → IsBound s agent_id root
      → IsBound s' agent_id root
  IsBound-Steps b root steps k =
      Steps-Good env (λ cfg ts. lookup b ts.by_agent ≡ some root) (binding_lem b root) steps k
