-- ===== src/Server/Admission.antt =====
-- What a server has checked when it admits a tenant or an agent, or takes a step-up signature.
use signet_ps.Base.{
  get_elem?, get_elem?-set_self, ◌≤ℤ◌, Bool-cases, Option-cases, ℤ, Bytes, Text, text_eq, contains,
  In, Result, ok, err, Result-cases, ℕ, ◌≡◌, refl, sym, ap, subst, ◌∙◌, inl, inr, false, some, List,
  [], ◌∷◌, arith,
}
use signet_ps.Env.{elems, Env}
use signet_ps.Attest.{PersonServerAuthorization, AgentGrant}
use signet_ps.Attest.Verify as AttestVerify
use signet_ps.Attest.Verify.{Verifier, Error, verify_psa, verify_agent_grant}
use signet_ps.Attest.Verify.Meaning.{
  PsaHolds, GrantHolds, verify_psa_sound, verify_agent_grant_sound,
}
use signet_ps.Store.Tenants as TenantStore
use signet_ps.Store.Tenants.{
  Tenant, Tenants, tenant_of_root, tenant_of_agent, enroll, first_covered, verify_and_onboard,
}
use signet_ps.Consent.{pending, approved, Request}
use signet_ps.Consent.Digest.Meaning.{IsStepUp, verify_eoa_sig-IsStepUp}
use signet_ps.Consent.Concurrent.Evolution.{by_code_locked_sound, get_elem?-put_step_up_sig}
use signet_ps.Consent.Store as ConsentStore
use signet_ps.Consent.Store.{
  Store, by_code_locked, check_step_up, transition, settle, is_late, put_step_up_sig,
}
use signet_ps.Consent.Concurrent.StepUp.{check_step_up_sound}
use signet_ps.Server.Helpers.{hex_bytes}
use signet_ps.Server.Handlers.{
  code_failed, step_up_answer, sign_checks, sign_with, approve_elevated,
}
use signet_ps.Server.State.{Server, onboarded, enrolled, approved_step_up, key_thumbs, chain_at}
use signet_ps.Server.Lifecycle.{
  onboard_answer, onboard, enroll_checks, enroll_answer, enroll_with, enroll_agent,
}

first_covered-In :
    (keys covered : List Text)
    → text_eq (first_covered keys covered) [] ≡ false
    → In (first_covered keys covered) keys
unfolding first_covered text_eq
first_covered-In [] covered h = absurd (cc)
first_covered-In (k ∷ keys) covered h = elim (Bool-cases (contains covered k)) [
  | inl e ↦ inl (ground (arith, e))
  | inr e ↦
      let same : first_covered (k ∷ keys) covered ≡ first_covered keys covered =
        ground (arith, e) in
      inr (
        subst (λ (x : Text). In x keys) (sym same)
          (first_covered-In keys covered (ap (λ x. text_eq x []) (sym same) ∙ h)))
]

module _ (env : Env) where
  verify_and_onboard_sound :
      (ts : Tenants) (v : AttestVerify.Verifier) (psa : PersonServerAuthorization) (url : Text)
      (keys : List Text) (x : ℕ × Tenant)
      → (verify_and_onboard env ts v psa url keys).0 ≡ ok x
      → let covered = first_covered keys (elems psa.key_thumbprints) in
        (text_eq covered [] ≡ false) × (verify_psa env v psa url covered ≡ ok tt)
  unfolding verify_and_onboard
  verify_and_onboard_sound ts v psa url keys x h = (ground arith, ground arith)

  onboard_answer_sound :
      (s : Server) (r : Result TenantStore.Error (ℕ × Tenant) × Tenants) (root url : Text)
      → (onboard_answer env s r).0 ≡ onboarded root url
      → (x : ℕ × Tenant) × (r.0 ≡ ok x)
  unfolding onboard_answer
  onboard_answer_sound s (err e, ts) root url h = cc
  onboard_answer_sound s (ok x, ts) root url h = (x, refl)

  enroll_answer_sound :
      (s : Server) (now : ℤ) (a : ℕ) (t : Tenant) (agent_id root : Text)
      (r : Result TenantStore.Error Tenants)
      → (enroll_answer env s now (a, t) agent_id r).0 ≡ enrolled root
      → t.root ≡ root
  unfolding enroll_answer
  enroll_answer_sound s now a t agent_id root (err e) h = cc
  enroll_answer_sound s now a t agent_id root (ok ts) h = cc

  step_up_answer_sound :
      (s : Server) (r : Result ConsentStore.Error (Unit {0}) × ConsentStore.Store)
      → (step_up_answer env s r).0 ≡ approved_step_up
      → r.0 ≡ ok tt
  unfolding step_up_answer
  step_up_answer_sound s (err e, c) h = cc
  step_up_answer_sound s (ok u, c) h = refl

  store_of_answer :
      (s : Server) (r : Result ConsentStore.Error (Unit {0}) × ConsentStore.Store) (a : ℕ)
      {x : Request}
      → get_elem? r.1.heap a ≡ some x
      → get_elem? (step_up_answer env s r).1.pending_store.heap a ≡ some x
  unfolding step_up_answer
  store_of_answer s (err e, c) a h = h
  store_of_answer s (ok u, c) a h = h

  approve_elevated_sound :
      (c : ConsentStore.Store) (now : ℤ) (code root : Text) (chain_id : ℤ) (registry : Text)
      (sig : Bytes) (a : ℕ) (r : Request)
      → by_code_locked c code ≡ ok (a, r)
      → (ConsentStore.approve_elevated env c now code root chain_id registry sig).0 ≡ ok tt
      → check_step_up env r root chain_id registry sig ≡ ok tt
  unfolding ConsentStore.approve_elevated
  approve_elevated_sound c now code root chain_id registry sig a r p h = ground (arith, p)

  settled_written :
      (c : ConsentStore.Store) (now : ℤ) (a : ℕ) (r : Request)
      → get_elem? c.heap a ≡ some r
      → settle now approved r ≡ (ok tt, record r { state = approved })
      → get_elem? (transition c now a approved).1.heap a ≡ some (record r { state = approved })
  unfolding transition
  settled_written c now a r at settled =
      rw (at, transition, settled)
        (get_elem?-set_self c.heap a (record r { state = approved }) r at)

  -- A transition that succeeds found a pending request in time, and approves it.
  transition_approves :
      (c : ConsentStore.Store) (now : ℤ) (a : ℕ) (r : Request)
      → get_elem? c.heap a ≡ some r
      → (transition c now a approved).0 ≡ ok tt
      → (r.state ≡ pending)
        × (now ≤ℤ r.expires_at)
        × (get_elem? (transition c now a approved).1.heap a ≡ some (record r { state = approved }))
  unfolding transition settle is_late
  transition_approves c now a r at h =
      let settled : settle now approved r ≡ (ok tt, record r { state = approved }) =
        ground (arith, at, h) in
      (ground (arith, at, h), ground (arith, at, h), settled_written c now a r at settled)

  approve_elevated_writes :
      (c : ConsentStore.Store) (now : ℤ) (code root : Text) (chain_id : ℤ) (registry : Text)
      (sig : Bytes) (a : ℕ) (r : Request)
      → by_code_locked c code ≡ ok (a, r)
      → (ConsentStore.approve_elevated env c now code root chain_id registry sig).0 ≡ ok tt
      → (r.state ≡ pending)
        × (now ≤ℤ r.expires_at)
        × (get_elem?
              (ConsentStore.approve_elevated env c now code root chain_id registry sig).1.heap
              a
            ≡ some (record r { state = approved; step_up_sig = sig }))
  unfolding ConsentStore.approve_elevated
  approve_elevated_writes c now code root chain_id registry sig a r p h =
      let checks = approve_elevated_sound c now code root chain_id registry sig a r p h in
      let at = get_elem?-put_step_up_sig c a sig r (by_code_locked_sound c code p) in
      let (st, time, there) =
        transition_approves (put_step_up_sig c a sig) now a (record r { step_up_sig = sig }) at
          (rw (p, checks) at h) in
      (st, time, rw (p, checks) there)

  -- The server takes a signature as a step-up only for a pending request in its window, and only if
  -- it has 65 bytes and recovers to the address of the root of the tenant of the request's agent,
  -- over the hash of typed data whose fields are, by their names, the id, agent, resource, amount,
  -- scope, mission and expiry of this request, with the server's chain and registry; the request is
  -- then approved and holds the signature.
  pub stepped_up_by_root :
      (s : Server) (now : ℤ) (code signature : Text)
      → (approve_elevated env s now code (some signature)).0 ≡ approved_step_up
      → (a : ℕ) × (r : Request) × (b : ℕ) × (t : Tenant) × (by_code_locked s.pending_store code
          ≡ ok (a, r))
        × (tenant_of_agent s.tenants r.agent_id ≡ some (b, t))
        × IsStepUp env t.root r s.cfg.chain_id s.cfg.registry_addr (hex_bytes signature)
        × (r.state ≡ pending)
        × (now ≤ℤ r.expires_at)
        × (get_elem? (approve_elevated env s now code (some signature)).1.pending_store.heap a
            ≡ some (record r { state = approved; step_up_sig = hex_bytes signature }))
  unfolding approve_elevated sign_checks sign_with code_failed step_up_answer
  stepped_up_by_root s now code signature h =
      elim (Result-cases (by_code_locked s.pending_store code)) [
        | inr (e, p) ↦ absurd (ground (arith, p))
        | inl ((a, r), p) ↦ elim (Option-cases (tenant_of_agent s.tenants r.agent_id)) [
          | inl e ↦ absurd (ground (arith, p, e))
          | inr ((b, t), e) ↦
              let sig = hex_bytes signature in
              let chain_id = s.cfg.chain_id in
              let registry = s.cfg.registry_addr in
              let q =
                step_up_answer_sound s
                  (ConsentStore.approve_elevated env s.pending_store now code t.root chain_id
                    registry sig)
                  (ground (arith, p, e)) in
              let c =
                approve_elevated_sound s.pending_store now code t.root chain_id registry sig a r p
                  q in
              let (digest, d, v) = check_step_up_sound env r t.root chain_id registry sig c in
              let (st, time, there) =
                approve_elevated_writes s.pending_store now code t.root chain_id registry sig a r p
                  q in
              (
                a,
                r,
                b,
                t,
                p,
                e,
                verify_eoa_sig-IsStepUp env t.root r chain_id registry digest sig d v,
                st,
                time,
                rw (p, e) (store_of_answer s _ a there),
              )
        ]
      ]

  -- The server enrolls an agent only with a grant of a root that has a tenant, which holds for the
  -- agent and the key that signed the request.
  pub enrolled_is_granted :
      (s : Server) (now : ℤ) (thumb agent_id root : Text) (g : AgentGrant)
      → (enroll_agent env s now (some (thumb, agent_id)) (some g)).0 ≡ enrolled root
      → (a : ℕ) × (t : Tenant) × (tenant_of_root s.tenants g.root ≡ some (a, t))
        × (t.root ≡ root)
        × GrantHolds env (chain_at s now) g root agent_id thumb
  unfolding enroll_agent enroll_checks enroll_with
  enrolled_is_granted s now thumb agent_id root g h =
      elim (Option-cases (tenant_of_root s.tenants g.root)) [
        | inl e ↦ absurd (ground (arith, e))
        | inr ((a, t), e) ↦
            elim (Result-cases (verify_agent_grant env (chain_at s now) g t.root agent_id thumb)) [
              | inr (x, p) ↦ absurd (ground (arith, e, p))
              | inl (u, p) ↦
                  let q =
                    enroll_answer_sound s now a t agent_id root
                      (enroll env s.tenants agent_id (a, t) g) (ground (arith, e, p)) in
                  (
                    a,
                    t,
                    e,
                    q,
                    subst (λ (x : Text). GrantHolds env (chain_at s now) g x agent_id thumb) q
                        (verify_agent_grant_sound env (chain_at s now) g t.root agent_id thumb p),
                  )
            ]
      ]

  -- The server admits a tenant only with an authorization that holds for its own address and one of
  -- its own keys.
  pub onboarded_is_authorized :
      (s : Server) (now : ℤ) (psa : PersonServerAuthorization) (root url : Text)
      → (onboard env s now (some psa)).0 ≡ onboarded root url
      → let covered = first_covered (key_thumbs env s) (elems psa.key_thumbprints) in
        PsaHolds env (chain_at s now) psa s.cfg.issuer_url covered × In covered (key_thumbs env s)
  unfolding onboard
  onboarded_is_authorized s now psa root url h =
      let (x, e) =
        onboard_answer_sound s
          (verify_and_onboard env s.tenants (chain_at s now) psa s.cfg.issuer_url
            (key_thumbs env s))
          root url h in
      let (c, p) =
        verify_and_onboard_sound s.tenants (chain_at s now) psa s.cfg.issuer_url (key_thumbs env s)
          x e in
      (
        verify_psa_sound env (chain_at s now) psa s.cfg.issuer_url _ p,
        first_covered-In (key_thumbs env s) (elems psa.key_thumbprints) c,
      )
