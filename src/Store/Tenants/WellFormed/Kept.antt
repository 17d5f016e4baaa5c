-- ===== src/Store/Tenants/WellFormed/Kept.antt =====
-- Every operation of the store keeps the invariant.
use signet_ps.Base.{
  Bool-cases, Option-cases, length, get_elem?, get_elem?-append, get_elem?-length,
  get_elem?-append_cases, lookup, insert, lookup-insert, Text, text_eq, text_eq_refl, text_eq_iff,
  Result-cases, ℕ, ◌≡◌, refl, sym, ap, subst, ◌∙◌, inl, inr, none, some, List, [], ◌∷◌, ◌++◌, arith,
}
use signet_ps.Env.{elems, Env}
use signet_ps.Attest.{PersonServerAuthorization}
use signet_ps.Attest.Verify as AttestVerify
use signet_ps.Attest.Verify.{verify_psa, verify_agent_grant}
use signet_ps.Attest.Verify.Meaning.{verify_psa_sound}
use signet_ps.Store.Tenants.{
  Tenant, new_tenant, Tenants, write, tenant_of_root, onboard, first_covered, verify_and_onboard,
}
use signet_ps.Store.Tenants.Laws.{tenant_of_root_sound}
use signet_ps.Store.Tenants.WellFormed.{
  IsVouched, IsGranted, IsSound, IsWellFormed, update_lem, tenant_of_root_complete,
}

module _ (env : Env) (issuer : Text) (ts : Tenants) (wf : IsWellFormed env issuer ts) where
  -- Writing a tenant with the same root and grants, and an authorization that was checked.
  pub rewrite_lem :
      (a : ℕ) (t t' : Tenant)
      → get_elem? ts.heap a ≡ some t
      → t'.root ≡ t.root
      → t'.grants ≡ t.grants
      → t'.psa.root ≡ t'.root
      → IsVouched env issuer t'.psa
      → IsWellFormed env issuer (write ts a t')
  rewrite_lem a t t' at same grants own vouched =
      let old = wf.tenants a t at in
      update_lem env issuer ts a t t' ts.by_agent wf
        (record {
          at = at;
          same_root = same;
          sound = record {
            own_psa = own;
            vouched = vouched;
            registered = ap (λ x. lookup x ts.by_root) same ∙ old.registered;
            granted = λ agent_id g h.
                let (x, y) = old.granted agent_id g (ap (lookup agent_id) (sym grants) ∙ h) in
                (subst (λ r. IsGranted env r agent_id g) (sym same) x, y ∙ ap some (sym same));
          };
          keeps = λ agent_id g h. (g, ap (lookup agent_id) grants ∙ h);
          extends = λ agent_id root h. h;
          binds = λ agent_id root h. inl h;
        })
        ts.by_grant_s256 wf.hashed

  unregistered : (root : Text) → tenant_of_root ts root ≡ none → lookup root ts.by_root ≡ none
  unregistered root h = elim (Option-cases (lookup root ts.by_root)) [
    | inl e ↦ e
    | inr (a, e) ↦
        let (t, k, _) = wf.rooted root a e in
        absurd (ground (arith, h, tenant_of_root_complete env ts root a t e k))
  ]

  module _ (t : Tenant) (own : t.psa.root ≡ t.root) (vouched : IsVouched env issuer t.psa)
      (empty : t.grants ≡ []) (new : lookup t.root ts.by_root ≡ none) where
    abbrev added : Tenants
    added = record ts {
      heap = ts.heap ++ t ∷ [];
      by_root = insert t.root (length ts.heap) ts.by_root;
    }

    old_root :
        (root : Text) (a : ℕ) → lookup root ts.by_root ≡ some a → lookup root added.by_root ≡ some a
    old_root root a h = ground (
      arith,
      lookup-insert t.root root (length ts.heap) ts.by_root,
      text_eq_iff t.root root,
      new,
      h,
    )

    added_self : IsSound env issuer added.by_root ts.by_agent (length ts.heap) t
    unfolding lookup
    added_self = record {
      own_psa = own;
      vouched = vouched;
      registered =
          ground
            (arith, lookup-insert t.root t.root (length ts.heap) ts.by_root, text_eq_refl t.root);
      granted = λ agent_id g h. absurd (ground (arith, ap (lookup agent_id) empty, h));
    }

    added_tenants :
        (a : ℕ) (u : Tenant)
        → get_elem? added.heap a ≡ some u
        → IsSound env issuer added.by_root ts.by_agent a u
    added_tenants a u h = elim (get_elem?-append_cases ts.heap a t h) [
      | inl (e, f) ↦
          subst (λ x. IsSound env issuer added.by_root ts.by_agent x u) (sym e)
            (subst (λ (x : Tenant). IsSound env issuer added.by_root ts.by_agent (length ts.heap) x)
              (sym f) added_self)
      | inr e ↦
          let old = wf.tenants a u e in
          record {
            own_psa = old.own_psa;
            vouched = old.vouched;
            registered = old_root u.root a old.registered;
            granted = old.granted;
          }
    ]

    added_rooted :
        (root : Text) (a : ℕ)
        → lookup root added.by_root ≡ some a
        → (u : Tenant) × (get_elem? added.heap a ≡ some u) × (u.root ≡ root)
    added_rooted root a h = elim (Bool-cases (text_eq t.root root)) [
      | inl y ↦ (
        t,
        subst (λ x. get_elem? added.heap x ≡ some t)
            (ground (arith, lookup-insert t.root root (length ts.heap) ts.by_root, y, h))
            (get_elem?-length ts.heap t),
        (text_eq_iff t.root root).0 y,
      )
      | inr n ↦
          let (u, e, f) =
            wf.rooted root a
              (ground (arith, lookup-insert t.root root (length ts.heap) ts.by_root, n, h)) in
          (u, get_elem?-append ts.heap a t u e, f)
    ]

    added_lem : IsWellFormed env issuer added
    added_lem = record {
      tenants = added_tenants;
      rooted = added_rooted;
      agents = λ agent_id root h.
          let (a, u, g, e, f) = wf.agents agent_id root h in
          let (p, q) = tenant_of_root_sound ts root a u e in
          (
            a,
            u,
            g,
            tenant_of_root_complete env added root a u (old_root root a p)
                (get_elem?-append ts.heap a t u q),
            f,
          );
      hashed = wf.hashed;
    }

  -- Taking in a tenant that was checked.
  onboard_lem :
      (p : PersonServerAuthorization)
      → IsVouched env issuer p
      → IsWellFormed env issuer (onboard ts (new_tenant p))
  unfolding onboard new_tenant
  onboard_lem p vouched = elim (Option-cases (tenant_of_root ts p.root)) [
    | inl e ↦ rw (e, onboard) (added_lem (new_tenant p) refl vouched refl (unregistered p.root e))
    | inr ((a, t), e) ↦
        let (at_root, at) = tenant_of_root_sound ts p.root a t e in
        let (u, at', same) = wf.rooted p.root a at_root in
        rw (e, onboard)
          (rewrite_lem a t (record t { psa = p }) at refl refl (ground (arith, at, at', same))
            vouched)
  ]

  pub verify_and_onboard_lem :
      (v : AttestVerify.Verifier) (p : PersonServerAuthorization) (thumbs : List Text)
      → v.erc1271 ≡ none
      → IsWellFormed env issuer (verify_and_onboard env ts v p issuer thumbs).1
  unfolding verify_and_onboard
  verify_and_onboard_lem v p thumbs no_contract =
      let covered = first_covered thumbs (elems p.key_thumbprints) in
      elim (Bool-cases (text_eq covered [])) [
        | inl y ↦ rw y wf
        | inr n ↦ elim (Result-cases (verify_psa env v p issuer covered)) [
          | inr (x, e) ↦ rw (n, e) wf
          | inl (u, e) ↦
              rw (n, e)
                (onboard_lem p (record {
                  verifier = v;
                  no_contract = no_contract;
                  thumb = covered;
                  holds = verify_psa_sound env v p issuer covered e;
                }))
        ]
      ]
