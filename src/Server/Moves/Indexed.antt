-- ===== src/Server/Moves/Indexed.antt =====
-- internal/server over internal/consent: every code leads to a request, and every request is one of an
-- enrolled agent.
use signet_ps.Env.{Env}
use signet_ps.Consent.{pending, Request}
use signet_ps.Consent.Store.{Store, create}
use signet_ps.Store.Tenants.{Tenant, Tenants, tenant_of_agent}
use signet_ps.Server.State.{Config, Server}
use signet_ps.Server.Requests.{Step, stay, more}
use signet_ps.Server.Bindings.{IsBound-Steps}
use signet_ps.Server.Stable.{IsReachable, starts, serves, registers}
use signet_ps.Server.Moves.{Move, creating, polling, clicking, signing, Moves, at_rest, moved}
use signet_ps.Server.Moves.Steps.{Step-MovesTo}
use signet_ps.Base.{
  Text, ℕ, lookup, lookup-insert, text_eq, text_eq_iff, length, get_elem?, get_elem?-length,
  get_elem?-append, get_elem?-append_cases, ◌≡◌, some, Option-cases, Bool-cases, inl, inr, ap, sym,
  ◌∙◌, arith,
}
use signet_ps.Server.Moves.Rewrites.{
  IsRewrite, poll-IsRewrite, approve_routine-IsRewrite, approve_elevated-IsRewrite,
}

-- A code has its request, and a request has its agent's root.
pub record IsIndexed (ts : Tenants) (c : Store) : Type 0 where
  pub coded :
      (code id : Text)
      → lookup code c.by_code ≡ some id
      → (a : ℕ) × (r : Request) × (lookup id c.by_id ≡ some a) × (get_elem? c.heap a ≡ some r)
  pub bound :
      (a : ℕ) (r : Request)
      → get_elem? c.heap a ≡ some r
      → (root : Text) × (lookup r.agent_id ts.by_agent ≡ some root)

IsRewrite-IsIndexed :
    (ts : Tenants) {c c' : Store} → IsRewrite c c' → IsIndexed ts c → IsIndexed ts c'
IsRewrite-IsIndexed ts h i = record {
  coded = λ code id e.
      let (a, r, by_id, at) = i.coded code id (ap (lookup code) (sym h.same_codes) ∙ e) in
      let (r', at') = h.at a r at in (a, r', ap (lookup id) h.same_ids ∙ by_id, at');
  bound = λ a r' e.
      let (r, at, same) = h.from a r' e in
      let (root, f) = i.bound a r at in (root, ap (λ x. lookup x ts.by_agent) same ∙ f);
}

create-IsIndexed :
    (ts : Tenants) (c : Store) (r : Request) (root : Text)
    → lookup r.agent_id ts.by_agent ≡ some root
    → IsIndexed ts c
    → IsIndexed ts (create c r)
unfolding create
create-IsIndexed ts c r root f i = record {
  coded = λ code id e. elim (Bool-cases (text_eq r.id id)) [
    | inl y ↦ (
      length c.heap,
      record r { state = pending },
      ground (arith, lookup-insert r.id id (length c.heap) c.by_id, y),
      get_elem?-length c.heap (record r { state = pending }),
    )
    | inr n ↦
        let old : lookup code c.by_code ≡ some id =
          ground (arith, lookup-insert r.code code r.id c.by_code, e, n, text_eq_iff r.id id) in
        let (a, q, by_id, at) = i.coded code id old in
        (
          a,
          q,
          ground (arith, lookup-insert r.id id (length c.heap) c.by_id, n, by_id),
          get_elem?-append c.heap a (record r { state = pending }) q at,
        )
  ];
  bound = λ a q e. elim (get_elem?-append_cases c.heap a (record r { state = pending }) e) [
    | inl (_, g) ↦ (root, ap (λ (x : Request). lookup x.agent_id ts.by_agent) g ∙ f)
    | inr g ↦ i.bound a q g
  ];
}

has_root :
    (ts : Tenants) (agent_id : Text) (b : ℕ) (t : Tenant)
    → tenant_of_agent ts agent_id ≡ some (b, t)
    → (root : Text) × (lookup agent_id ts.by_agent ≡ some root)
unfolding tenant_of_agent
has_root ts agent_id b t h = elim (Option-cases (lookup agent_id ts.by_agent)) [
  | inl e ↦ absurd (ground (arith, e, h))
  | inr (root, e) ↦ (root, e)
]

module _ (env : Env) where
  Move-IsIndexed :
      {cfg : Config} {ts : Tenants} {c c' : Store}
      → Move env cfg ts c c'
      → IsIndexed ts c
      → IsIndexed ts c'
  Move-IsIndexed {cfg} {ts} {c} (creating r a t _ found) i =
      let (root, e) = has_root ts r.agent_id a t found in create-IsIndexed ts c r root e i
  Move-IsIndexed {cfg} {ts} {c} (polling now id) i =
      IsRewrite-IsIndexed ts (poll-IsRewrite c now id) i
  Move-IsIndexed {cfg} {ts} {c} (clicking now code) i =
      IsRewrite-IsIndexed ts (approve_routine-IsRewrite c now code) i
  Move-IsIndexed {cfg} {ts} {c} (signing now code sig a r b t p q) i =
      IsRewrite-IsIndexed ts
        (approve_elevated-IsRewrite env c now code t.root cfg.chain_id cfg.registry_addr sig) i

  Moves-IsIndexed :
      {cfg : Config} {ts : Tenants} {c c' : Store}
      → Moves env cfg ts c c'
      → IsIndexed ts c
      → IsIndexed ts c'
  Moves-IsIndexed at_rest i = i
  Moves-IsIndexed (moved before m) i = Move-IsIndexed m (Moves-IsIndexed before i)

  Step-IsIndexed :
      {s s' : Server}
      → Step env s s'
      → IsIndexed s.tenants s.pending_store
      → IsIndexed s'.tenants s'.pending_store
  Step-IsIndexed {s} {s'} st i =
      let i' = Moves-IsIndexed (Step-MovesTo env st).1 i in
      record {
        coded = i'.coded;
        bound = λ a r e.
            let (root, f) = i'.bound a r e in
            (root, IsBound-Steps env r.agent_id root (more stay st) f);
      }

  pub reachable-IsIndexed :
      {cfg : Config} {s : Server} → IsReachable env cfg s → IsIndexed s.tenants s.pending_store
  unfolding lookup
  reachable-IsIndexed starts = record {
    coded = λ code id e. absurd (cc);
    bound = λ a r e. absurd (cc);
  }
  reachable-IsIndexed (serves reached st) = Step-IsIndexed st (reachable-IsIndexed reached)
  reachable-IsIndexed (registers r reached) = reachable-IsIndexed reached
