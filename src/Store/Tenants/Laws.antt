-- ===== src/Store/Tenants/Laws.antt =====
-- What enrolling and onboarding keep of the agents' bindings, and that an enrollment is found.
use signet_ps.Base.{
  if◌then◌else◌, Bool-cases, Option-cases, get_elem?, get_elem?-set_self, lookup, insert,
  lookup-insert, Text, text_eq, text_eq_refl, text_eq_iff, eq_of_text_ne, ok, ℕ, ◌≡◌, sym, ap, ◌∙◌,
  inl, inr, some, List, arith,
}
use signet_ps.Env.{Env}
use signet_ps.Attest.{PersonServerAuthorization, AgentGrant}
use signet_ps.Attest.Verify as AttestVerify
use signet_ps.Attest.Content.{agent_grant_json, content_hash}
use signet_ps.Store.Tenants.{
  Tenant, new_tenant, Tenants, tenant_of_root, tenant_of_agent, onboard, enroll, grant_by_s256,
  verify_and_onboard, bound_elsewhere,
}

module _ (env : Env) where
  -- an agent that is bound elsewhere is refused
  pub enroll-ok-at :
      (s s' : Tenants) (agent_id root : Text) (a : ℕ) (t : Tenant) (g : AgentGrant)
      → enroll env s agent_id (a, t) g ≡ ok s'
      → lookup agent_id s.by_agent ≡ some root
      → root ≡ t.root
  unfolding enroll bound_elsewhere
  enroll-ok-at s s' agent_id root a t g h e = eq_of_text_ne root t.root (ground (arith, e))

  enroll-by_agent :
      (s s' : Tenants) (agent_id b : Text) (a : ℕ) (t : Tenant) (g : AgentGrant)
      → enroll env s agent_id (a, t) g ≡ ok s'
      → lookup b s'.by_agent ≡ (if text_eq agent_id b then some t.root else lookup b s.by_agent)
  unfolding enroll
  enroll-by_agent s s' agent_id b a t g h =
      ground (arith, lookup-insert agent_id b t.root s.by_agent)

  pub enroll_keeps :
      (s s' : Tenants) (agent_id b root : Text) (a : ℕ) (t : Tenant) (g : AgentGrant)
      → enroll env s agent_id (a, t) g ≡ ok s'
      → lookup b s.by_agent ≡ some root
      → lookup b s'.by_agent ≡ some root
  enroll_keeps s s' agent_id b root a t g h e = elim (Bool-cases (text_eq agent_id b)) [
    | inl p ↦
        let q = (text_eq_iff agent_id b).0 p in
        let r = enroll-ok-at s s' agent_id root a t g h (ap (λ x. lookup x s.by_agent) q ∙ e) in
        enroll-by_agent s s' agent_id b a t g h ∙ ground (arith, p, r)
    | inr p ↦ enroll-by_agent s s' agent_id b a t g h ∙ ground (arith, p, e)
  ]

onboard_keeps : (s : Tenants) (t : Tenant) → (onboard s t).by_agent ≡ s.by_agent
unfolding onboard
onboard_keeps s t = elim (Option-cases (tenant_of_root s t.root)) [
  | inl e ↦ ground (arith, e)
  | inr ((a, x), e) ↦ ground (arith, e)
]

pub verify_and_onboard_keeps :
    (env : Env) (s : Tenants) (v : AttestVerify.Verifier) (psa : PersonServerAuthorization)
    (url : Text) (thumbs : List Text)
    → (verify_and_onboard env s v psa url thumbs).1.by_agent ≡ s.by_agent
unfolding verify_and_onboard
verify_and_onboard_keeps env s v psa url thumbs = ground (arith, onboard_keeps s (new_tenant psa))

-- what a tenant found by its root is
pub tenant_of_root_sound :
    (s : Tenants) (root : Text) (a : ℕ) (t : Tenant)
    → tenant_of_root s root ≡ some (a, t)
    → (lookup root s.by_root ≡ some a) × (get_elem? s.heap a ≡ some t)
unfolding tenant_of_root
tenant_of_root_sound s root a t h = elim (Option-cases (lookup root s.by_root)) [
  | inl e ↦ absurd (ground (arith, e))
  | inr (b, e) ↦ elim (Option-cases (get_elem? s.heap b)) [
    | inl f ↦ absurd (ground (arith, e, f))
    | inr (u, f) ↦
        let p : b ≡ a = ground (arith, e, f) in
        let q : u ≡ t = ground (arith, e, f) in
        (e ∙ ap some p, ap (get_elem? s.heap) (sym p) ∙ (f ∙ ap some q))
  ]
]

pub tenant_of_agent_at :
    (ts : Tenants) (agent_id : Text) (a : ℕ) (t : Tenant)
    → tenant_of_agent ts agent_id ≡ some (a, t)
    → get_elem? ts.heap a ≡ some t
unfolding tenant_of_agent
tenant_of_agent_at ts agent_id a t h = elim (Option-cases (lookup agent_id ts.by_agent)) [
  | inl e ↦ absurd (ground (arith, e, h))
  | inr (root, e) ↦ (tenant_of_root_sound ts root a t (ground (arith, e, h))).1
]

-- An agent enrolled with a tenant of the store finds it, with the new grant and all else as before,
-- and the grant is served under its content hash.
pub enroll_found :
    (env : Env) (s s' : Tenants) (agent_id : Text) (a : ℕ) (t : Tenant) (g : AgentGrant)
    → tenant_of_root s t.root ≡ some (a, t)
    → enroll env s agent_id (a, t) g ≡ ok s'
    → (tenant_of_agent s' agent_id ≡ some (a, record t { grants = insert agent_id g t.grants }))
      × (grant_by_s256 s' (content_hash env (agent_grant_json g)) ≡ some g)
unfolding tenant_of_agent tenant_of_root enroll grant_by_s256
enroll_found env s s' agent_id a t g found h =
    let (p, q) = tenant_of_root_sound s t.root a t found in
    (
      ground (
        arith,
        p,
        get_elem?-set_self s.heap a (record t { grants = insert agent_id g t.grants }) t q,
        lookup-insert agent_id agent_id t.root s.by_agent,
        text_eq_refl agent_id,
      ),
      ground (
        arith,
        lookup-insert (content_hash env (agent_grant_json g))
            (content_hash env (agent_grant_json g)) g s.by_grant_s256,
        text_eq_refl (content_hash env (agent_grant_json g)),
      ),
    )
