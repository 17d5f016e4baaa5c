-- ===== src/Server/History/Exported.antt =====
-- internal/server: what a tenant can export, now and later.
use signet_ps.Env.{Env}
use signet_ps.Attest.{PersonServerAuthorization}
use signet_ps.Missions.{Entry, Log, chain_of, append, link, export as export_log}
use signet_ps.Missions.Chain.{append_adds_one}
use signet_ps.Store.Tenants.{Tenant, new_tenant, Tenants, tenant_of_root}
use signet_ps.Store.Tenants.Laws.{tenant_of_root_sound}
use signet_ps.Store.Tenants.WellFormed.{tenant_of_root_complete}
use signet_ps.Server.State.{Server, exported}
use signet_ps.Server.Lifecycle.{export}
use signet_ps.Server.Requests.{Steps}
use signet_ps.Server.Stable.Kept.{Steps-Good}
use native.Mathlib.Decide.{ℕ_discrete}
use signet_ps.Base.{
  Bool-cases, Option-cases, length, get_elem?, set, get_elem?-set_self, get_elem?-set_ne,
  get_elem?-append, lookup, insert, lookup-insert, ℕ, Text, text_eq, text_eq_iff, ◌≡◌, ◌≢◌, sym, ap,
  subst, ◌∙◌, inl, inr, some, false, List, [], ◌∷◌, ◌++◌, append-nil, append_assoc, arith,
}
use signet_ps.Server.History.Touches.{
  LogStep, unlogged, logged, Touches, untouched, rewritten, added, touching_lem,
}

module _ (env : Env) where
  -- each agent's chain is as it was, with later entries
  abbrev pub Continues : Log → Log → Type 0
  Continues l l' =
      (agent_id : Text)
      → (later : List Entry) × (chain_of agent_id l' ≡ chain_of agent_id l ++ later)

  same-Continues : (l : Log) → Continues l l
  same-Continues l b = ([], sym (append-nil (chain_of b l)))

  Continues-trans : (l m n : Log) → Continues l m → Continues m n → Continues l n
  Continues-trans l m n h k b =
      let (first, e) = h b in
      let (second, f) = k b in
      (first ++ second, f ∙ (ap (λ c. c ++ second) e ∙ append_assoc (chain_of b l) first second))

  append-Continues : (l : Log) (a : Text) (e : Entry) → Continues l (append env l a e)
  append-Continues l a e b =
      let (grown, _, _, _, others) = append_adds_one env l a e in
      elim (Bool-cases (text_eq a b)) [
        | inl y ↦
            subst
              (λ x. (later : List Entry) × (chain_of x (append env l a e) ≡ chain_of x l ++ later))
              ((text_eq_iff a b).0 y) (link env (chain_of a l) e ∷ [], grown)
        | inr n ↦
            let ne : a ≢ b = λ same. absurd (ground (arith, n, same, text_eq_iff a b)) in
            ([], others b ne ∙ sym (append-nil (chain_of b l)))
      ]

  LogStep-Continues : {l l' : Log} → LogStep env l l' → Continues l l'
  LogStep-Continues {l} unlogged = same-Continues l
  LogStep-Continues {l} (logged a e p) = append-Continues l a e

  -- every tenant is found where it was, and its log continues
  Extends : Tenants → Tenants → Type 0
  Extends ts ts' =
      (root : Text) (a : ℕ) (t : Tenant)
      → tenant_of_root ts root ≡ some (a, t)
      → (t' : Tenant) × (tenant_of_root ts' root ≡ some (a, t')) × Continues t.log t'.log

  Touches-Extends : (ts ts' : Tenants) → Touches env ts ts' → Extends ts ts'
  unfolding Extends new_tenant
  Touches-Extends ts ts' untouched root b u found = (u, found, same-Continues u.log)
  Touches-Extends ts ts' (rewritten _ a t t' at st (heap, by_root)) root b u found =
      let (at_root, at_b) = tenant_of_root_sound ts root b u found in
      let root' : lookup root ts'.by_root ≡ some b = ap (lookup root) by_root ∙ at_root in
      elim (ℕ_discrete a b) [
        | yes p ↦
            let same : t ≡ u = ground (arith, at, at_b, p) in
            let here : get_elem? ts'.heap b ≡ some t' =
              ap (λ h. get_elem? h b) heap
              ∙ subst (λ x. get_elem? (set ts.heap a t') x ≡ some t') p
                  (get_elem?-set_self ts.heap a t' t at) in
            (
              t',
              tenant_of_root_complete env ts' root b t' root' here,
              subst (λ (x : Tenant). Continues x.log t'.log) same (LogStep-Continues st),
            )
        | no n ↦ (
          u,
          tenant_of_root_complete env ts' root b u root'
              (ap (λ h. get_elem? h b) heap ∙ (get_elem?-set_ne ts.heap a b t' n ∙ at_b)),
          same-Continues u.log,
        )
      ]
  Touches-Extends ts ts' (added psa fresh) root b u found =
      let (at_root, at_b) = tenant_of_root_sound ts root b u found in
      let other : text_eq psa.root root ≡ false = elim (Bool-cases (text_eq psa.root root)) [
        | inl y ↦
            absurd (
              ground
                (arith, found, ap (tenant_of_root ts) ((text_eq_iff psa.root root).0 y), fresh))
        | inr n ↦ n
      ] in
      let root' : lookup root (insert psa.root (length ts.heap) ts.by_root) ≡ some b =
        ground (arith, lookup-insert psa.root root (length ts.heap) ts.by_root, other, at_root) in
      (
        u,
        tenant_of_root_complete env _ root b u root'
            (get_elem?-append ts.heap b (new_tenant psa) u at_b),
        same-Continues u.log,
      )

  Extends-Touches : (old ts ts' : Tenants) → Touches env ts ts' → Extends old ts → Extends old ts'
  unfolding Extends
  Extends-Touches old ts ts' st h root a t found =
      let (u, found', first) = h root a t found in
      let (v, found'', second) = Touches-Extends ts ts' st root a u found' in
      (v, found'', Continues-trans t.log u.log v.log first second)

  Steps-Extends : {s s' : Server} → Steps env s s' → Extends s.tenants s'.tenants
  unfolding Extends
  Steps-Extends {s} steps =
      Steps-Good env (λ cfg ts. Extends s.tenants ts)
        (touching_lem env (Extends s.tenants) (Extends-Touches s.tenants)) steps
        (λ root a t found. (t, found, same-Continues t.log))

  -- Once a root has exported its authorization and its log, it can export them after whatever
  -- requests the server serves then, and the log then has, for each agent, the entries of the first
  -- export and after them later ones.
  pub export-Continues :
      {s s' : Server} (root : Text) (psa : PersonServerAuthorization) (log : Log)
      → Steps env s s'
      → export s (some root) ≡ exported psa log
      → (psa' : PersonServerAuthorization) × (log' : Log) × (export s' (some root)
          ≡ exported psa' log')
        × Continues log log'
  unfolding export export_log Extends
  export-Continues {s} {s'} root psa log steps h =
      elim (Option-cases (tenant_of_root s.tenants root)) [
        | inl e ↦ absurd (ground (arith, e, h))
        | inr ((a, t), e) ↦
            let (t', found, later) = Steps-Extends steps root a t e in
            let same : t.log ≡ log = ground (arith, e, h) in
            (t'.psa, t'.log, ground (arith, found), subst (λ l. Continues l t'.log) same later)
      ]
