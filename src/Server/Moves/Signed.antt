-- ===== src/Server/Moves/Signed.antt =====
-- internal/server: whose signature an approved request of the server carries.
use signet_ps.Env.{Env}
use signet_ps.Consent.{Tier, routine, elevated, approved, Request}
use signet_ps.Consent.Digest.{approval_digest, verify_eoa_sig}
use signet_ps.Consent.Store as ConsentStore
use signet_ps.Consent.Store.{
  Store, needs_signature, is_routine, check_step_up, create, by_code_locked, approve_routine,
  transition, put_step_up_sig,
}
use signet_ps.Consent.Concurrent.Evolution.{
  by_code_locked_sound, get_elem?-put_step_up_sig, Grows-transition, Grows-put_step_up_sig,
  Grows-poll, Grows-create,
}
use signet_ps.Consent.Concurrent.StepUp.{
  IsSigned, Permits, check_step_up_same, IsGood, Kept, Kept-refl, settle-Kept, expire-Kept,
  put-Kept, IsGood-Grows, check_step_up_sound,
}
use signet_ps.Store.Tenants.{Tenant, Tenants, tenant_of_agent}
use signet_ps.Store.Tenants.Laws.{tenant_of_root_sound}
use signet_ps.Server.State.{Config, Server}
use signet_ps.Server.Requests.{Step, stay, more}
use signet_ps.Server.Bindings.{IsBound-Steps}
use signet_ps.Server.Stable.{IsReachable, starts, serves, registers}
use signet_ps.Server.Tenancy.{reachable-IsWellFormed}
use signet_ps.Server.Moves.{Move, creating, polling, clicking, signing, Moves, at_rest, moved}
use signet_ps.Server.Moves.Steps.{Step-MovesTo}
use signet_ps.Base.{
  err, if◌then◌else◌, Text, ℤ, ℕ, lookup, get_elem?, ◌≡◌, some, Option-cases, inl, inr, ok, refl,
  ap, sym, subst, ◌∙◌, Result-cases, arith,
}

-- the root that the agent is bound to, and the server's own chain and registry
abbrev pub OwnRoot : Config → Tenants → Text → Text → Text → ℤ → Text → Type 0
OwnRoot cfg ts id agent_id root chain_id registry =
    (lookup agent_id ts.by_agent ≡ some root)
    × (chain_id ≡ cfg.chain_id)
    × (registry ≡ cfg.registry_addr)

-- a root leads to its own tenant
abbrev AreRooted : Tenants → Type 0
AreRooted ts =
    (root : Text) (a : ℕ)
    → lookup root ts.by_root ≡ some a
    → (u : Tenant) × (get_elem? ts.heap a ≡ some u) × (u.root ≡ root)

bound_of_found :
    (ts : Tenants) (agent_id : Text) (b : ℕ) (t : Tenant)
    → AreRooted ts
    → tenant_of_agent ts agent_id ≡ some (b, t)
    → lookup agent_id ts.by_agent ≡ some t.root
unfolding tenant_of_agent
bound_of_found ts agent_id b t rooted h = elim (Option-cases (lookup agent_id ts.by_agent)) [
  | inl e ↦ absurd (ground (arith, e, h))
  | inr (root, e) ↦
      let (at_root, at) = tenant_of_root_sound ts root b t (ground (arith, e, h)) in
      let (u, at', own) = rooted root b at_root in
      let same : u ≡ t = ground (arith, at, at') in
      e ∙ ap some (sym own ∙ ap (λ (x : Tenant). x.root) same)
]

module _ (env : Env) (cfg : Config) (ts : Tenants) where
  -- every elevated request that is approved is signed by its agent's root
  abbrev pub AreSigned : Store → Type 0
  AreSigned c = (a : ℕ) (r : Request) → get_elem? c.heap a ≡ some r → IsGood env (OwnRoot cfg ts) r

  abbrev K : Request → Request → Type 0
  K = Kept env (OwnRoot cfg ts)

  abbrev K-refl : (r : Request) → K r r
  K-refl = Kept-refl env (OwnRoot cfg ts)

  transition-AreSigned :
      (c : Store) (now : ℤ) (a : ℕ)
      → ((r : Request) → get_elem? c.heap a ≡ some r → Permits env (OwnRoot cfg ts) approved r)
      → AreSigned c
      → AreSigned (transition c now a approved).1
  transition-AreSigned c now a permits good =
      IsGood-Grows env (OwnRoot cfg ts) c _
        (Grows-transition K K-refl c now a approved
          (λ r e. settle-Kept env (OwnRoot cfg ts) now approved r (permits r e)))
        good

  approve_found :
      (c : Store) (now : ℤ) (a : ℕ) (r : Request) (tier : Tier)
      → get_elem? c.heap a ≡ some r
      → r.tier ≡ tier
      → AreSigned c
      → AreSigned
          (if is_routine tier then transition c now a approved else (err needs_signature, c)).1
  unfolding is_routine
  approve_found c now a r routine e t good =
      transition-AreSigned c now a (λ q f. inr (inl (cc))) good
  approve_found c now a r elevated e t good = good

  approve_routine-AreSigned :
      (c : Store) (now : ℤ) (code : Text) → AreSigned c → AreSigned (approve_routine c now code).1
  unfolding approve_routine
  approve_routine-AreSigned c now code good = elim (Result-cases (by_code_locked c code)) [
    | inr (e, p) ↦ rw p good
    | inl ((a, r), p) ↦
        rw p (approve_found c now a r r.tier (by_code_locked_sound c code p) refl good)
  ]

  written-IsSigned :
      (c : Store) (root sig : Text) (a : ℕ) (r : Request)
      → get_elem? c.heap a ≡ some r
      → lookup r.agent_id ts.by_agent ≡ some root
      → check_step_up env r root cfg.chain_id cfg.registry_addr sig ≡ ok tt
      → (q : Request) → get_elem? (put_step_up_sig c a sig).heap a ≡ some q
      → Permits env (OwnRoot cfg ts) approved q
  written-IsSigned c root sig a r e bound checked q f =
      let same : record r { step_up_sig = sig } ≡ q =
        ground (arith, get_elem?-put_step_up_sig c a sig r e, f) in
      inl (
        subst (IsSigned env (OwnRoot cfg ts)) same (
          root,
          cfg.chain_id,
          cfg.registry_addr,
          (bound, refl, refl),
          check_step_up_same env r r.state sig root cfg.chain_id cfg.registry_addr sig ∙ checked,
        ))

  step_up-AreSigned :
      (c : Store) (now : ℤ) (root sig : Text) (a : ℕ) (r : Request)
      → get_elem? c.heap a ≡ some r
      → lookup r.agent_id ts.by_agent ≡ some root
      → check_step_up env r root cfg.chain_id cfg.registry_addr sig ≡ ok tt
      → AreSigned c
      → AreSigned (transition (put_step_up_sig c a sig) now a approved).1
  step_up-AreSigned c now root sig a r e bound checked good =
      transition-AreSigned (put_step_up_sig c a sig) now a
        (written-IsSigned c root sig a r e bound checked)
        (IsGood-Grows env (OwnRoot cfg ts) c _
          (Grows-put_step_up_sig K K-refl c a sig (λ q f.
            let same : q ≡ r = ground (arith, e, f) in
            put-Kept env (OwnRoot cfg ts) q root cfg.chain_id cfg.registry_addr sig
              (subst
                (λ (x : Request).
                  OwnRoot cfg ts x.id x.agent_id root cfg.chain_id cfg.registry_addr)
                (sym same) (bound, refl, refl))
              (subst (λ x. check_step_up env x root cfg.chain_id cfg.registry_addr sig ≡ ok tt)
                (sym same) checked)))
          good)

  approve_elevated-AreSigned :
      (c : Store) (now : ℤ) (code root sig : Text) (a : ℕ) (r : Request)
      → by_code_locked c code ≡ ok (a, r)
      → lookup r.agent_id ts.by_agent ≡ some root
      → AreSigned c
      → AreSigned
          (ConsentStore.approve_elevated env c now code root cfg.chain_id cfg.registry_addr sig).1
  unfolding ConsentStore.approve_elevated
  approve_elevated-AreSigned c now code root sig a r p bound good =
      rw p (elim (Result-cases (check_step_up env r root cfg.chain_id cfg.registry_addr sig)) [
        | inr (e, q) ↦ rw q good
        | inl (u, q) ↦
            rw q (step_up-AreSigned c now root sig a r (by_code_locked_sound c code p) bound q good)
      ])

  Move-AreSigned : {c c' : Store} → AreRooted ts → Move env cfg ts c c' → AreSigned c → AreSigned c'
  Move-AreSigned {c} rooted (creating r a t _ _) good =
      IsGood-Grows env (OwnRoot cfg ts) c _ (Grows-create K K-refl c r) good
  Move-AreSigned {c} rooted (polling now id) good =
      IsGood-Grows env (OwnRoot cfg ts) c _
        (Grows-poll K K-refl c now id (expire-Kept env (OwnRoot cfg ts) now)) good
  Move-AreSigned {c} rooted (clicking now code) good = approve_routine-AreSigned c now code good
  Move-AreSigned {c} rooted (signing now code sig a r b t p q) good =
      approve_elevated-AreSigned c now code t.root sig a r p
        (bound_of_found ts r.agent_id b t rooted q) good

  Moves-AreSigned :
      {c c' : Store} → AreRooted ts → Moves env cfg ts c c' → AreSigned c → AreSigned c'
  Moves-AreSigned rooted at_rest good = good
  Moves-AreSigned rooted (moved h m) good = Move-AreSigned rooted m (Moves-AreSigned rooted h good)

module _ (env : Env) where
  Step-AreSigned :
      {cfg : Config} {s s' : Server}
      → IsReachable env cfg s
      → Step env s s'
      → AreSigned env s.cfg s.tenants s.pending_store
      → AreSigned env s'.cfg s'.tenants s'.pending_store
  Step-AreSigned {cfg} {s} {s'} reached st good =
      let (same, moves) = Step-MovesTo env st in
      let wf = reachable-IsWellFormed env reached in
      let good' = Moves-AreSigned env s.cfg s.tenants wf.rooted moves good in
      λ a r e. record {
        signed = λ tier state.
            let (root, chain_id, registry, (bound, c, x), checked) =
              (good' a r e).signed tier state in
            (
              root,
              chain_id,
              registry,
              (
                IsBound-Steps env r.agent_id root (more stay st) bound,
                c ∙ ap (λ (k : Config). k.chain_id) (sym same),
                x ∙ ap (λ (k : Config). k.registry_addr) (sym same),
              ),
              checked,
            );
      }

  reachable-AreSigned :
      {cfg : Config} {s : Server}
      → IsReachable env cfg s
      → AreSigned env s.cfg s.tenants s.pending_store
  reachable-AreSigned starts = λ a r e. cc
  reachable-AreSigned (serves reached st) = Step-AreSigned reached st (reachable-AreSigned reached)
  reachable-AreSigned (registers r reached) =
      λ a q e. record { signed = (reachable-AreSigned reached a q e).signed }

  -- Whatever requests a server has served while the registry changes, an elevated request that it
  -- holds as approved holds a signature that recovers, over the digest of this very request for the
  -- server's chain and registry, to the root that the request's agent is bound to.
  pub approved_by_root :
      {cfg : Config} {s : Server} (a : ℕ) (r : Request)
      → IsReachable env cfg s
      → get_elem? s.pending_store.heap a ≡ some r
      → r.tier ≡ elevated
      → r.state ≡ approved
      → (root digest : Text) × (lookup r.agent_id s.tenants.by_agent ≡ some root)
        × (approval_digest env r s.cfg.chain_id s.cfg.registry_addr ≡ some digest)
        × (verify_eoa_sig env root digest r.step_up_sig ≡ ok tt)
  approved_by_root {cfg} {s} a r reached e tier state =
      let (root, chain_id, registry, (bound, c, x), checked) =
        (reachable-AreSigned reached a r e).signed tier state in
      let here : check_step_up env r root s.cfg.chain_id s.cfg.registry_addr r.step_up_sig ≡ ok tt =
        subst (λ k. check_step_up env r root k s.cfg.registry_addr r.step_up_sig ≡ ok tt) c
          (subst (λ k. check_step_up env r root chain_id k r.step_up_sig ≡ ok tt) x checked) in
      let (digest, d, v) =
        check_step_up_sound env r root s.cfg.chain_id s.cfg.registry_addr r.step_up_sig here in
      (root, digest, bound, d, v)
