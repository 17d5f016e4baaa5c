-- ===== src/Server/History/Touches.antt =====
-- internal/server over internal/store: what a request does to the tenants, one at a time.
use signet_ps.Env.{Env, elems}
use signet_ps.Attest.{PersonServerAuthorization, AgentGrant}
use signet_ps.Attest.Verify.{Verifier, verify_psa}
use signet_ps.Missions.{Entry, Log, append}
use signet_ps.Store.Tenants.{
  Tenant, new_tenant, Tenants, tenant_of_root, onboard, first_covered, verify_and_onboard, enroll,
}
use signet_ps.Store.Tenants.Laws.{tenant_of_root_sound}
use signet_ps.Server.State.{log_at}
use signet_ps.Server.Stable.{IsStable}
use signet_ps.Base.{
  Bool-cases, Option-cases, Result-cases, length, get_elem?, set, insert, ℕ, Text, text_eq, ok, ◌≡◌,
  refl, inl, inr, none, some, List, [], ◌∷◌, ◌++◌, arith,
}

module _ (env : Env) where
  -- what an onboarding makes of the tenants is what they were, or them with the candidate
  onboarding_cases :
      (P : Tenants → Type 0) (ts : Tenants) (v : Verifier) (psa : PersonServerAuthorization)
      (url : Text) (thumbs : List Text)
      → P ts
      → P (onboard ts (new_tenant psa))
      → P (verify_and_onboard env ts v psa url thumbs).1
  unfolding verify_and_onboard
  onboarding_cases P ts v psa url thumbs p q =
      let covered = first_covered thumbs (elems psa.key_thumbprints) in
      elim (Bool-cases (text_eq covered [])) [
        | inl y ↦ rw y p
        | inr n ↦ elim (Result-cases (verify_psa env v psa url covered)) [
          | inr (x, e) ↦ rw (n, e) p
          | inl (u, e) ↦ rw (n, e) q
        ]
      ]

  -- a log with at most one entry more
  pub data LogStep (l : Log) : Log → Type 0 where
    unlogged : LogStep l l
    logged : (agent_id : Text) (e : Entry) → e.prev ≡ [] → LogStep l (append env l agent_id e)

  -- one tenant is rewritten in place, or one is added under a root that had none
  pub data Touches (ts : Tenants) : Tenants → Type 0 where
    untouched : Touches ts ts
    rewritten :
        (ts' : Tenants) (a : ℕ) (t t' : Tenant)
        → get_elem? ts.heap a ≡ some t
        → LogStep t.log t'.log
        → (ts'.heap ≡ set ts.heap a t') × (ts'.by_root ≡ ts.by_root)
        → Touches ts ts'
    added :
        (psa : PersonServerAuthorization)
        → tenant_of_root ts psa.root ≡ none
        → Touches ts (record ts {
          heap = ts.heap ++ new_tenant psa ∷ [];
          by_root = insert psa.root (length ts.heap) ts.by_root;
        })

  log_at-Touches :
      (ts : Tenants) (a : ℕ) (agent_id : Text) (e : Entry)
      → e.prev ≡ []
      → Touches ts (log_at env ts a agent_id e)
  unfolding log_at
  log_at-Touches ts a agent_id e p = elim (Option-cases (get_elem? ts.heap a)) [
    | inl f ↦ rw (f, log_at) untouched
    | inr (t, f) ↦
        rw (f, log_at)
          (rewritten _ a t (record t { log = append env t.log agent_id e }) f (logged agent_id e p)
            (refl, refl))
  ]

  onboard-Touches :
      (ts : Tenants) (psa : PersonServerAuthorization) → Touches ts (onboard ts (new_tenant psa))
  unfolding onboard new_tenant
  onboard-Touches ts psa = elim (Option-cases (tenant_of_root ts psa.root)) [
    | inl e ↦ rw (e, onboard) (added psa e)
    | inr ((a, t), e) ↦
        rw (e, onboard)
          (rewritten _ a t (record t { psa = psa }) (tenant_of_root_sound ts psa.root a t e).1
            unlogged (refl, refl))
  ]

  enroll-Touches :
      (ts ts' : Tenants) (agent_id : Text) (a : ℕ) (t : Tenant) (g : AgentGrant)
      → tenant_of_root ts g.root ≡ some (a, t)
      → enroll env ts agent_id (a, t) g ≡ ok ts'
      → Touches ts ts'
  unfolding enroll
  enroll-Touches ts ts' agent_id a t g found h =
      rewritten ts' a t (record t { grants = insert agent_id g t.grants })
        (tenant_of_root_sound ts g.root a t found).1 unlogged (ground (arith, h), ground (arith, h))

  pub touching_lem :
      (P : Tenants → Type 0)
      → ((ts ts' : Tenants) → Touches ts ts' → P ts → P ts')
      → IsStable env (λ cfg ts. P ts)
  touching_lem P keeps = record {
    registers = λ cfg ts r p. p;
    logs = λ cfg ts a agent_id e prev p. keeps ts _ (log_at-Touches ts a agent_id e prev) p;
    onboards = λ cfg ts now psa thumbs p.
        onboarding_cases P ts _ psa cfg.issuer_url thumbs p (keeps ts _ (onboard-Touches ts psa) p);
    enrolls = λ cfg ts ts' agent_id a t g v e p.
        keeps ts ts' (enroll-Touches ts ts' agent_id a t g v.found e) p;
  }
