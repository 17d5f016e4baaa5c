-- ===== src/Store/Tenants/WellFormed.antt =====
-- The invariant of the tenants: every map points to what it says, and everything held was checked.
pub mod Kept
pub mod Enrolled
use signet_ps.Base.{
  if◌then◌else◌, Bool-cases, Option-cases, length, get_elem?, get_elem?-set_self, get_elem?-set_ne,
  get_elem?-set_cases, get_elem?-append_cases, ◌==◌, get_elem?-append, get_elem?-length, set,
  lookup, insert, lookup-insert, Map, Text, text_eq, text_eq_refl, text_eq_iff, eq_of_text_ne, ok,
  ℕ, ◌≡◌, ◌≢◌, refl, sym, ap, subst, ◌∙◌, ◌⊎◌, inl, inr, none, some, List, [], ◌∷◌, ◌++◌, arith,
  true, false, Option,
}
use signet_ps.Env.{Env}
use signet_ps.Attest.{PersonServerAuthorization, AgentGrant}
use signet_ps.Attest.Verify as AttestVerify
use signet_ps.Attest.Verify.Meaning.{
  PsaHolds, GrantHolds, verify_psa_sound, verify_agent_grant_sound,
}
use signet_ps.Attest.Content.{agent_grant_json, content_hash}
use signet_ps.Store.Tenants.{
  Tenant, new_tenant, Tenants, new_tenants, write, tenant_of_root, tenant_of_agent, onboard, enroll,
  grant_by_s256, verify_and_onboard, bound_elsewhere,
}
use signet_ps.Store.Tenants.Laws.{enroll_keeps, tenant_of_root_sound}

module _ (env : Env) where
  -- An authorization of this issuer passed the verifier once, on the root's own signature.
  pub record IsVouched (issuer : Text) (p : PersonServerAuthorization) : Type 0 where
    pub verifier : AttestVerify.Verifier
    pub no_contract : verifier.erc1271 ≡ none
    pub thumb : Text
    pub holds : PsaHolds env verifier p issuer thumb

  -- A grant of the root for the agent passed the verifier once, likewise.
  pub record IsGranted (root agent_id : Text) (g : AgentGrant) : Type 0 where
    pub verifier : AttestVerify.Verifier
    pub no_contract : verifier.erc1271 ≡ none
    pub thumb : Text
    pub holds : GrantHolds env verifier g root agent_id thumb

  pub record IsSound (issuer : Text) (by_root : Map ℕ) (by_agent : Map Text) (a : ℕ) (t : Tenant)
      : Type 0 where
    pub own_psa : t.psa.root ≡ t.root
    pub vouched : IsVouched issuer t.psa
    pub registered : lookup t.root by_root ≡ some a
    pub granted :
        (agent_id : Text) (g : AgentGrant)
        → lookup agent_id t.grants ≡ some g
        → IsGranted t.root agent_id g × (lookup agent_id by_agent ≡ some t.root)

  -- A grant under its content hash passed the verifier once, for a root and an agent.
  abbrev pub IsFiled : Text → AgentGrant → Type 0
  IsFiled s256 g =
      (content_hash env (agent_grant_json g) ≡ s256)
      × (root : Text) × (agent_id : Text) × IsGranted root agent_id g

  pub record IsWellFormed (issuer : Text) (ts : Tenants) : Type 0 where
    pub tenants :
        (a : ℕ) (t : Tenant)
        → get_elem? ts.heap a ≡ some t
        → IsSound issuer ts.by_root ts.by_agent a t
    pub rooted :
        (root : Text) (a : ℕ)
        → lookup root ts.by_root ≡ some a
        → (t : Tenant) × (get_elem? ts.heap a ≡ some t) × (t.root ≡ root)
    pub agents :
        (agent_id root : Text)
        → lookup agent_id ts.by_agent ≡ some root
        → (a : ℕ) × (t : Tenant) × (g : AgentGrant) × (tenant_of_root ts root ≡ some (a, t))
          × (lookup agent_id t.grants ≡ some g)
    pub hashed :
        (s256 : Text) (g : AgentGrant) → lookup s256 ts.by_grant_s256 ≡ some g → IsFiled s256 g

  pub new_tenants_lem : (issuer : Text) → IsWellFormed issuer new_tenants
  unfolding lookup
  new_tenants_lem issuer = record {
    tenants = λ a t h. absurd (cc);
    rooted = λ root a h. absurd (cc);
    agents = λ agent_id root h. absurd (cc);
    hashed = λ s256 g h. absurd (cc);
  }

  pub tenant_of_root_complete :
      (ts : Tenants) (root : Text) (a : ℕ) (t : Tenant)
      → lookup root ts.by_root ≡ some a
      → get_elem? ts.heap a ≡ some t
      → tenant_of_root ts root ≡ some (a, t)
  unfolding tenant_of_root
  tenant_of_root_complete ts root a t h k = ground (arith, h, k)

  -- what replaces a tenant at its address
  record IsUpdate (issuer : Text) (ts : Tenants) (a : ℕ) (t t' : Tenant) (by_agent : Map Text)
      : Type 0 where
    at : get_elem? ts.heap a ≡ some t
    same_root : t'.root ≡ t.root
    sound : IsSound issuer ts.by_root by_agent a t'
    keeps :
        (agent_id : Text) (g : AgentGrant)
        → lookup agent_id t.grants ≡ some g
        → (g' : AgentGrant) × (lookup agent_id t'.grants ≡ some g')
    extends :
        (agent_id root : Text)
        → lookup agent_id ts.by_agent ≡ some root
        → lookup agent_id by_agent ≡ some root
    binds :
        (agent_id root : Text)
        → lookup agent_id by_agent ≡ some root
        → (lookup agent_id ts.by_agent ≡ some root)
          ⊎ ((root ≡ t'.root) × ((g : AgentGrant) × (lookup agent_id t'.grants ≡ some g)))

  same_address : (a b : ℕ) → (a ≡ b) ⊎ (a ≢ b)
  same_address a b = elim (Bool-cases (a == b)) [
    | inl y ↦ inl (ground (arith, y))
    | inr n ↦ inr (ground (arith, n))
  ]

  module _ (issuer : Text) (ts : Tenants) (a : ℕ) (t t' : Tenant) (by_agent : Map Text)
      (wf : IsWellFormed issuer ts) (up : IsUpdate issuer ts a t t' by_agent) where
    update_tenants :
        (b : ℕ) (u : Tenant)
        → get_elem? (set ts.heap a t') b ≡ some u
        → IsSound issuer ts.by_root by_agent b u
    update_tenants b u h = elim (get_elem?-set_cases ts.heap a b t' h) [
      | inl (e, f) ↦
          subst (λ x. IsSound issuer ts.by_root by_agent x u) e
            (subst (λ (x : Tenant). IsSound issuer ts.by_root by_agent a x) (sym f) up.sound)
      | inr e ↦
          let old = wf.tenants b u e in
          record {
            own_psa = old.own_psa;
            vouched = old.vouched;
            registered = old.registered;
            granted = λ agent_id g k.
                let (x, y) = old.granted agent_id g k in (x, up.extends agent_id u.root y);
          }
    ]

    update_rooted :
        (root : Text) (b : ℕ)
        → lookup root ts.by_root ≡ some b
        → (u : Tenant) × (get_elem? (set ts.heap a t') b ≡ some u) × (u.root ≡ root)
    update_rooted root b h =
        let (u, e, f) = wf.rooted root b h in
        elim (same_address a b) [
          | inl p ↦ (
            t',
            subst (λ x. get_elem? (set ts.heap a t') x ≡ some t') p
                (get_elem?-set_self ts.heap a t' t up.at),
            ground (arith, p, e, f, up.at, up.same_root),
          )
          | inr p ↦ (u, get_elem?-set_ne ts.heap a b t' p ∙ e, f)
        ]

    update_agents :
        (agent_id root : Text) (by_grant : Map AgentGrant)
        → lookup agent_id by_agent ≡ some root
        → (b : ℕ) × (u : Tenant) × (g : AgentGrant) × (tenant_of_root
              (record ts { heap = set ts.heap a t'; by_agent = by_agent; by_grant_s256 = by_grant })
              root
            ≡ some (b, u))
          × (lookup agent_id u.grants ≡ some g)
    update_agents agent_id root by_grant h =
        let ts' : Tenants = record ts {
          heap = set ts.heap a t';
          by_agent = by_agent;
          by_grant_s256 = by_grant;
        } in
        let self = get_elem?-set_self ts.heap a t' t up.at in
        elim (up.binds agent_id root h) [
          | inr (p, (g, e)) ↦ (
            a,
            t',
            g,
            tenant_of_root_complete ts' root a t'
                (ap (λ x. lookup x ts.by_root) p ∙ up.sound.registered) self,
            e,
          )
          | inl k ↦
              let (b, u, g, e, f) = wf.agents agent_id root k in
              let (at_root, at_b) = tenant_of_root_sound ts root b u e in
              elim (same_address a b) [
                | inr n ↦ (
                  b,
                  u,
                  g,
                  tenant_of_root_complete ts' root b u at_root
                      (get_elem?-set_ne ts.heap a b t' n ∙ at_b),
                  f,
                )
                | inl p ↦
                    let (g', q) = up.keeps agent_id g (ground (arith, p, at_b, up.at, f)) in
                    (
                      a,
                      t',
                      g',
                      tenant_of_root_complete ts' root a t' (at_root ∙ ap some (sym p)) self,
                      q,
                    )
              ]
        ]

    -- Replacing a tenant by a sound one of its root keeps the invariant.
    update_lem :
        (by_grant : Map AgentGrant)
        → ((s256 : Text) (g : AgentGrant) → lookup s256 by_grant ≡ some g → IsFiled s256 g)
        → IsWellFormed issuer
            (record ts { heap = set ts.heap a t'; by_agent = by_agent; by_grant_s256 = by_grant })
    update_lem by_grant hashed = record {
      tenants = update_tenants;
      rooted = update_rooted;
      agents = λ agent_id root h. update_agents agent_id root by_grant h;
      hashed = hashed;
    }
