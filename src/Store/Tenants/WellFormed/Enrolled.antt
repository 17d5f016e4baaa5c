-- ===== src/Store/Tenants/WellFormed/Enrolled.antt =====
-- Enrolling an agent keeps the invariant.
use signet_ps.Base.{
  Bool-cases, set, lookup, insert, lookup-insert, Text, text_eq, text_eq_iff, ok, ℕ, ◌≡◌, refl, sym,
  subst, ◌⊎◌, inl, inr, some, arith,
}
use signet_ps.Env.{Env}
use signet_ps.Attest.{AgentGrant}
use signet_ps.Attest.Content.{agent_grant_json, content_hash}
use signet_ps.Store.Tenants.{Tenant, Tenants, tenant_of_root, enroll}
use signet_ps.Store.Tenants.Laws.{enroll_keeps, tenant_of_root_sound}
use signet_ps.Store.Tenants.WellFormed.{IsGranted, IsFiled, IsWellFormed, update_lem}

module _ (env : Env) (issuer : Text) (ts : Tenants) (wf : IsWellFormed env issuer ts) where
  module _ (agent_id : Text) (a : ℕ) (t : Tenant) (g : AgentGrant)
      (found : tenant_of_root ts g.root ≡ some (a, t)) where
    abbrev with_grant : Tenant
    with_grant = record t { grants = insert agent_id g t.grants }

    abbrev enrolled : Tenants
    enrolled = record ts {
      heap = set ts.heap a with_grant;
      by_agent = insert agent_id t.root ts.by_agent;
      by_grant_s256 = insert (content_hash env (agent_grant_json g)) g ts.by_grant_s256;
    }

    enroll-ok : (ts' : Tenants) → enroll env ts agent_id (a, t) g ≡ ok ts' → enrolled ≡ ts'
    unfolding enroll
    enroll-ok ts' h = ground arith

    with_grant-IsGranted :
        (b : Text) (x : AgentGrant)
        → ((b : Text) (root : Text)
            → lookup b ts.by_agent ≡ some root
            → lookup b enrolled.by_agent ≡ some root)
        → IsGranted env t.root agent_id g
        → lookup b with_grant.grants ≡ some x
        → IsGranted env t.root b x × (lookup b enrolled.by_agent ≡ some t.root)
    with_grant-IsGranted b x extends granted h =
        let (_, at) = tenant_of_root_sound ts g.root a t found in
        elim (Bool-cases (text_eq agent_id b)) [
          | inl y ↦
              let same_grant : g ≡ x = ground (arith, lookup-insert agent_id b g t.grants, y, h) in
              (
                subst (λ (z : AgentGrant). IsGranted env t.root b z) same_grant
                    (subst (λ z. IsGranted env t.root z g) ((text_eq_iff agent_id b).0 y) granted),
                ground (arith, lookup-insert agent_id b t.root ts.by_agent, y),
              )
          | inr n ↦
              let (u, v) =
                (wf.tenants a t at).granted b x
                  (ground (arith, lookup-insert agent_id b g t.grants, n, h)) in
              (u, extends b t.root v)
        ]

    enrolled_binds :
        (b root : Text)
        → lookup b enrolled.by_agent ≡ some root
        → (lookup b ts.by_agent ≡ some root)
          ⊎ ((root ≡ t.root) × ((x : AgentGrant) × (lookup b with_grant.grants ≡ some x)))
    enrolled_binds b root h = elim (Bool-cases (text_eq agent_id b)) [
      | inl y ↦ inr (
        ground (arith, lookup-insert agent_id b t.root ts.by_agent, y, h),
        (g, ground (arith, lookup-insert agent_id b g t.grants, y)),
      )
      | inr n ↦ inl (ground (arith, lookup-insert agent_id b t.root ts.by_agent, n, h))
    ]

    enrolled_keeps :
        (b : Text) (x : AgentGrant)
        → lookup b t.grants ≡ some x
        → (y : AgentGrant) × (lookup b with_grant.grants ≡ some y)
    enrolled_keeps b x h = elim (Bool-cases (text_eq agent_id b)) [
      | inl y ↦ (g, ground (arith, lookup-insert agent_id b g t.grants, y))
      | inr n ↦ (x, ground (arith, lookup-insert agent_id b g t.grants, n, h))
    ]

    enrolled_hashed :
        (s256 : Text) (x : AgentGrant)
        → IsGranted env t.root agent_id g
        → lookup s256 enrolled.by_grant_s256 ≡ some x
        → IsFiled env s256 x
    enrolled_hashed s256 x granted h =
        let own = content_hash env (agent_grant_json g) in
        elim (Bool-cases (text_eq own s256)) [
          | inl y ↦
              let same_grant : g ≡ x =
                ground (arith, lookup-insert own s256 g ts.by_grant_s256, y, h) in
              subst (λ (z : AgentGrant). IsFiled env s256 z) same_grant
                ((text_eq_iff own s256).0 y, t.root, agent_id, granted)
          | inr n ↦
              wf.hashed s256 x (ground (arith, lookup-insert own s256 g ts.by_grant_s256, n, h))
        ]

    -- Enrolling an agent with a grant that was checked.
    pub enroll_lem :
        (ts' : Tenants)
        → IsGranted env t.root agent_id g
        → enroll env ts agent_id (a, t) g ≡ ok ts'
        → IsWellFormed env issuer ts'
    enroll_lem ts' granted h =
        let (_, at) = tenant_of_root_sound ts g.root a t found in
        let old = wf.tenants a t at in
        let same = enroll-ok ts' h in
        let extends : (b root : Text)
            → lookup b ts.by_agent ≡ some root
            → lookup b enrolled.by_agent ≡ some root =
          λ b root k.
            subst (λ (x : Tenants). lookup b x.by_agent ≡ some root) (sym same)
              (enroll_keeps env ts ts' agent_id b root a t g h k) in
        subst (λ (x : Tenants). IsWellFormed env issuer x) same
          (update_lem env issuer ts a t with_grant enrolled.by_agent wf
            (record {
              at = at;
              same_root = refl;
              sound = record {
                own_psa = old.own_psa;
                vouched = old.vouched;
                registered = old.registered;
                granted = λ b x k. with_grant-IsGranted b x extends granted k;
              };
              keeps = enrolled_keeps;
              extends = extends;
              binds = enrolled_binds;
            })
            enrolled.by_grant_s256 (λ s256 x k. enrolled_hashed s256 x granted k))
