-- ===== src/Server/Tenancy.antt =====
-- The tenants of a server that requests made: all of them, and all their agents, came in by their
-- roots' signatures.
use signet_ps.Base.{
  Option-cases, get_elem?, ℤ, Bytes, Text, lookup, ℕ, ◌≡◌, refl, subst, ◌∙◌, inl, inr, none, some,
  arith,
}
use signet_ps.Env.{Env}
use signet_ps.Attest.{PersonServerAuthorization, AgentGrant}
use signet_ps.Attest.Verify.Meaning.{verify_agent_grant_sound}
use signet_ps.Attest.Content.{agent_grant_json, content_hash}
use signet_ps.Missions.{Entry}
use signet_ps.Store.Tenants.{Tenant, Tenants, tenant_of_root, tenant_of_agent, grant_by_s256}
use signet_ps.Store.Tenants.Laws.{tenant_of_root_sound, tenant_of_agent_at}
use signet_ps.Store.Tenants.WellFormed.{IsVouched, IsGranted, IsWellFormed, new_tenants_lem}
use signet_ps.Store.Tenants.WellFormed.Kept.{rewrite_lem, verify_and_onboard_lem}
use signet_ps.Store.Tenants.WellFormed.Enrolled.{enroll_lem}
use signet_ps.Server.State.{Config, Server, issued, served_psa, served_grant, log_at}
use signet_ps.Server.Handlers.{poll}
use signet_ps.Server.Lifecycle.{serve_psa, serve_grant}
use signet_ps.Server.Issuing.{poll_mints}
use signet_ps.Server.Stable.{IsVetted, IsStable, IsReachable}
use signet_ps.Server.Stable.Kept.{stable_of_reachable}

module _ (env : Env) where
  log_at_lem :
      (issuer : Text) (ts : Tenants) (a : ℕ) (agent_id : Text) (e : Entry)
      → IsWellFormed env issuer ts
      → IsWellFormed env issuer (log_at env ts a agent_id e)
  unfolding log_at
  log_at_lem issuer ts a agent_id e wf = elim (Option-cases (get_elem? ts.heap a)) [
    | inl h ↦ rw (h, log_at) wf
    | inr (t, h) ↦
        let old = wf.tenants a t h in
        rw (h, log_at) (rewrite_lem env issuer ts wf a t _ h refl refl old.own_psa old.vouched)
  ]

  vetted_lem :
      (ts : Tenants) (agent_id : Text) (a : ℕ) (t : Tenant) (g : AgentGrant)
      → IsVetted env ts agent_id a t g
      → IsGranted env t.root agent_id g
  vetted_lem ts agent_id a t g v = record {
    verifier = record { registry = v.registry; erc1271 = none; now = v.at };
    no_contract = refl;
    thumb = v.thumb;
    holds = verify_agent_grant_sound env _ g t.root agent_id v.thumb v.verified;
  }

  well_formed_lem : IsStable env (λ cfg ts. IsWellFormed env cfg.issuer_url ts)
  well_formed_lem = record {
    registers = λ cfg ts r wf. wf;
    logs = λ cfg ts a agent_id e p wf. log_at_lem cfg.issuer_url ts a agent_id e wf;
    onboards = λ cfg ts now psa thumbs wf.
        verify_and_onboard_lem env cfg.issuer_url ts wf _ psa thumbs refl;
    enrolls = λ cfg ts ts' agent_id a t g v e wf.
        enroll_lem env cfg.issuer_url ts wf agent_id a t g v.found ts'
          (vetted_lem ts agent_id a t g v) e;
  }

  -- The tenants of a server are well-formed, whatever requests it has served while the registry
  -- changes: its maps point to what they say, an agent is bound to the root that granted it, and
  -- every authorization and every grant that it holds passed the verifier once, where no contract
  -- vouches for a signature: also a grant that a later one of its agent replaced, which stays under
  -- its content hash.
  pub reachable-IsWellFormed :
      {cfg : Config} {s : Server}
      → IsReachable env cfg s
      → IsWellFormed env s.cfg.issuer_url s.tenants
  reachable-IsWellFormed {cfg} r =
      stable_of_reachable env (λ cfg ts. IsWellFormed env cfg.issuer_url ts) well_formed_lem
        (new_tenants_lem env cfg.issuer_url) r

  serve_psa_found :
      (s : Server) (root : Text) (p : PersonServerAuthorization)
      → serve_psa s root ≡ served_psa p
      → (a : ℕ) × (t : Tenant) × (tenant_of_root s.tenants root ≡ some (a, t)) × (t.psa ≡ p)
  unfolding serve_psa
  serve_psa_found s root p h = elim (Option-cases (tenant_of_root s.tenants root)) [
    | inl e ↦ absurd (ground (arith, e, h))
    | inr ((a, t), e) ↦ (a, t, e, ground (arith, e, h))
  ]

  -- What a server that requests made serves under a root is an authorization of this root which
  -- passed the verifier once for this issuer, where no contract vouches for a signature.
  pub serve_psa-IsVouched :
      {cfg : Config} {s : Server} (root : Text) (p : PersonServerAuthorization)
      → IsReachable env cfg s
      → serve_psa s root ≡ served_psa p
      → (p.root ≡ root) × IsVouched env s.cfg.issuer_url p
  serve_psa-IsVouched {cfg} {s} root p r h =
      let wf = reachable-IsWellFormed r in
      let (a, t, found, same) = serve_psa_found s root p h in
      let (at_root, at) = tenant_of_root_sound s.tenants root a t found in
      let (u, at', same_root) = wf.rooted root a at_root in
      let sound = wf.tenants a t at in
      let own : t.psa.root ≡ root = sound.own_psa ∙ ground (arith, at, at', same_root) in
      subst (λ (x : PersonServerAuthorization). (x.root ≡ root) × IsVouched env s.cfg.issuer_url x)
        same (own, sound.vouched)

  -- What it serves under a content hash is a grant with this hash.
  pub served_grant_is_hashed :
      {cfg : Config} {s : Server} (s256 : Text) (g : AgentGrant)
      → IsReachable env cfg s
      → serve_grant s s256 ≡ served_grant g
      → content_hash env (agent_grant_json g) ≡ s256
  unfolding serve_grant grant_by_s256
  served_grant_is_hashed {cfg} {s} s256 g r h =
      elim (Option-cases (lookup s256 s.tenants.by_grant_s256)) [
        | inl e ↦ absurd (ground (arith, e, h))
        | inr (x, e) ↦ ((reachable-IsWellFormed r).hashed s256 g (ground (arith, e, h))).0
      ]

  -- A token that a server which requests made issues on a poll is for an agent that has a tenant
  -- whose authorization, of the root of the tenant and for this issuer, and whose grant for the
  -- agent passed the verifier once, where no contract vouches for a signature.
  pub poll-IsGranted :
      {cfg : Config} {s : Server} (now : ℤ) (rand : Bytes) (thumb agent_id id tok : Text)
      → IsReachable env cfg s
      → (poll env s now rand (some (thumb, agent_id)) id).0 ≡ issued tok
      → (a : ℕ) × (t : Tenant) × (g : AgentGrant) × (tenant_of_agent s.tenants agent_id
          ≡ some (a, t))
        × (lookup agent_id t.grants ≡ some g)
        × (t.psa.root ≡ t.root)
        × IsVouched env s.cfg.issuer_url t.psa
        × IsGranted env t.root agent_id g
  poll-IsGranted {cfg} {s} now rand thumb agent_id id tok r h =
      let (req, _, _, _, (a, t, g, key, keys, found, at_agent, _, _)) =
        poll_mints env s now rand thumb agent_id id tok h in
      let sound =
        (reachable-IsWellFormed r).tenants a t (tenant_of_agent_at s.tenants agent_id a t found) in
      (
        a,
        t,
        g,
        found,
        at_agent,
        sound.own_psa,
        sound.vouched,
        (sound.granted agent_id g at_agent).0,
      )
