-- ===== src/Server/Moves/Calm/Tokens.antt =====
-- internal/server: token and poll find the tenant, the grant and the key that they use.
use signet_ps.Env.{Env}
use signet_ps.Attest.{AgentGrant}
use signet_ps.Consent.{State, pending, approved, denied, expired, Request}
use signet_ps.Consent.Store as ConsentStore
use signet_ps.Consent.Store.{
  Store, Error, unknown_code, nil_request, by_code_locked, deref, approve_routine, poll_found,
  expire,
}
use signet_ps.Consent.Concurrent.Evolution.{expire-Later, deref_sound}
use signet_ps.Store.Tenants.{Tenant, tenant_of_agent}
use signet_ps.Store.Tenants.WellFormed.{IsWellFormed}
use signet_ps.Missions.{auto_approvable}
use signet_ps.Tokens.{ResourceClaims, IssuerKey}
use signet_ps.Tokens.Mint.{
  MintInput, MintError, issuer_key_not_covered, claim_not_allowed, bad_amount, exceeds_cap,
  step_up_required, sign_panics,
}
use signet_ps.Tokens.Mint.Envelope.{mint-ne-sign_panics}
use signet_ps.Server.State.{Server, panicked}
use signet_ps.Server.Handlers.{
  refused, new_request, poll, is_elevated, finish_with, finish_by, finish, token_checks,
  token_granted, token, finish_granted, finish_found, poll_state, poll_answer,
}
use signet_ps.Server.Moves.Indexed.{IsIndexed}
use signet_ps.Base.{
  codes, Bool-cases, Option-cases, ℤ, lookup, get_elem?, Bytes, Text, text_ne, eq_of_text_ne,
  Result, ok, err, ℕ, ◌≡◌, ◌≢◌, refl, ap, sym, ◌∙◌, inl, inr, not, ◌&&◌, Option, none, some, List,
  [], ◌∷◌, arith,
}
use signet_ps.Server.Moves.Calm.Checks.{
  CanIssue, failed-ne-panicked, answer_calm, token_checks-IsCalm,
}

module _ (env : Env) where
  refused-ne-panicked : (e : MintError) → e ≢ sign_panics → refused e ≢ panicked
  unfolding refused
  refused-ne-panicked issuer_key_not_covered n h = cc
  refused-ne-panicked claim_not_allowed n h = cc
  refused-ne-panicked bad_amount n h = cc
  refused-ne-panicked exceeds_cap n h = cc
  refused-ne-panicked step_up_required n h = cc
  refused-ne-panicked sign_panics n h = n refl

  finish_with_calm :
      (s : Server) (now : ℤ) (req : Request) (a : ℕ) (agent_id : Text) (r : Result MintError Text)
      → r ≢ err sign_panics
      → (finish_with env s now req a agent_id r).0 ≢ panicked
  unfolding finish_with
  finish_with_calm s now req a agent_id (err e) n h = refused-ne-panicked e (λ p. n (ap err p)) h
  finish_with_calm s now req a agent_id (ok tok) n h = cc

  finish_by_calm :
      (keys : List IssuerKey) (s : Server) (now : ℤ) (rand : Bytes) (req : Request) (a : ℕ)
      (agent_id : Text) (inp : MintInput)
      → CanIssue keys
      → (finish_by env keys s now rand req a agent_id inp).0 ≢ panicked
  unfolding finish_by
  finish_by_calm [] s now rand req a agent_id inp n = absurd n
  finish_by_calm (key ∷ keys) s now rand req a agent_id inp n =
      finish_with_calm s now req a agent_id _ (mint-ne-sign_panics env key inp now rand n)

  poll_state_calm :
      (s : Server) (now : ℤ) (rand : Bytes) (req : Request) (agent_id : Text) (state : State)
      (b : ℕ) (t : Tenant) (g : AgentGrant)
      → CanIssue s.cfg.issuer_keys
      → tenant_of_agent s.tenants agent_id ≡ some (b, t)
      → lookup agent_id t.grants ≡ some g
      → (poll_state env s now rand req agent_id state).0 ≢ panicked
  unfolding poll_state finish_found finish_granted finish
  poll_state_calm s now rand req agent_id pending b t g n found granted = λ h. cc
  poll_state_calm s now rand req agent_id approved b t g n found granted =
      rw (found, granted) (finish_by_calm s.cfg.issuer_keys s now rand req b agent_id _ n)
  poll_state_calm s now rand req agent_id denied b t g n found granted = λ h. cc
  poll_state_calm s now rand req agent_id expired b t g n found granted = λ h. cc

  -- what a poll of the store finds is one of its requests, for the same agent
  store_poll_lem :
      (c : Store) (now : ℤ) (id : Text) (r : Request)
      → (ConsentStore.poll c now id).0 ≡ ok r
      → (a : ℕ) × (q : Request) × (get_elem? c.heap a ≡ some q) × (r.agent_id ≡ q.agent_id)
  unfolding ConsentStore.poll poll_found
  store_poll_lem c now id r h = elim (Option-cases (deref c (lookup id c.by_id))) [
    | inl e ↦ absurd (ground (arith, e, h))
    | inr ((a, q), e) ↦
        let same : expire now q ≡ r = ground (arith, e, h) in
        (
          a,
          q,
          deref_sound c (lookup id c.by_id) e,
          ap (λ (x : Request). x.agent_id) (sym same ∙ (expire-Later now q).same),
        )
  ]

  agent_ready :
      (s : Server) (a : ℕ) (r : Request)
      → IsWellFormed env s.cfg.issuer_url s.tenants
      → IsIndexed s.tenants s.pending_store
      → get_elem? s.pending_store.heap a ≡ some r
      → (b : ℕ) × (t : Tenant) × (g : AgentGrant) × (tenant_of_agent s.tenants r.agent_id
          ≡ some (b, t))
        × (lookup r.agent_id t.grants ≡ some g)
  unfolding tenant_of_agent
  agent_ready s a r wf i at =
      let (root, bound) = i.bound a r at in
      let (b, t, g, found, granted) = wf.agents r.agent_id root bound in
      (b, t, g, ground (arith, bound, found), granted)

  poll_answer_calm :
      (s : Server) (now : ℤ) (rand : Bytes) (agent_id : Text)
      (r : Result ConsentStore.Error Request × Store)
      → CanIssue s.cfg.issuer_keys
      → ((req : Request)
          → r.0 ≡ ok req
          → (b : ℕ) × (t : Tenant) × (g : AgentGrant) × (tenant_of_agent s.tenants req.agent_id
              ≡ some (b, t))
            × (lookup req.agent_id t.grants ≡ some g))
      → (poll_answer env s now rand agent_id r).0 ≢ panicked
  unfolding poll_answer
  poll_answer_calm s now rand agent_id (err e, c) n ready = λ h. cc
  poll_answer_calm s now rand agent_id (ok req, c) n ready =
      elim (Bool-cases (text_ne req.agent_id agent_id)) [
        | inl y ↦ rw y (failed-ne-panicked 404 (codes "unknown_request"))
        | inr y ↦
            let same = eq_of_text_ne req.agent_id agent_id y in
            let (b, t, g, found, granted) = ready req refl in
            rw y (
              poll_state_calm (record s { pending_store = c }) now rand req agent_id req.state b t g
                n (ap (tenant_of_agent s.tenants) (sym same) ∙ found)
                (ap (λ x. lookup x t.grants) (sym same) ∙ granted))
      ]

  pub poll_calm :
      (s : Server) (now : ℤ) (rand : Bytes) (signer : Option (Text × Text)) (id : Text)
      → CanIssue s.cfg.issuer_keys
      → IsWellFormed env s.cfg.issuer_url s.tenants
      → IsIndexed s.tenants s.pending_store
      → (poll env s now rand signer id).0 ≢ panicked
  unfolding poll
  poll_calm s now rand none id n wf i = λ h. cc
  poll_calm s now rand (some (thumb, agent_id)) id n wf i =
      poll_answer_calm s now rand agent_id (ConsentStore.poll s.pending_store now id) n λ req e.
        let (a, q, at, same) = store_poll_lem s.pending_store now id req e in
        let (b, t, g, found, granted) = agent_ready s a q wf i at in
        (
          b,
          t,
          g,
          ap (tenant_of_agent s.tenants) same ∙ found,
          ap (λ x. lookup x t.grants) same ∙ granted,
        )

  granted_calm :
      (s : Server) (now : ℤ) (id code rand : Bytes) (agent_id : Text) (a : ℕ) (t : Tenant)
      (grant : AgentGrant) (res : ResourceClaims)
      → CanIssue s.cfg.issuer_keys
      → (token_granted env s now id code rand (agent_id, ((a, t), (grant, res)))).0 ≢ panicked
  unfolding token_granted finish
  granted_calm s now id code rand agent_id a t grant res n =
      let req = new_request env now id code agent_id t.psa.scope grant res in
      elim (Bool-cases
        (not (is_elevated req.tier) && auto_approvable agent_id res.scope res.amount_wei)) [
          | inl y ↦ rw y (finish_by_calm s.cfg.issuer_keys _ now rand req a agent_id _ n)
          | inr y ↦ rw y (λ h. cc)
        ]

  pub token_calm :
      (s : Server) (now : ℤ) (id code rand : Bytes) (signer : Option (Text × Text))
      (body : Option Text)
      → CanIssue s.cfg.issuer_keys
      → (token env s now id code rand signer body).0 ≢ panicked
  unfolding token
  token_calm s now id code rand signer body n =
      answer_calm env s (token_checks env s signer body) (token_granted env s now id code rand)
        (token_checks-IsCalm env s signer body)
        λ (agent_id, ((a, t), (grant, res))) e.
          granted_calm s now id code rand agent_id a t grant res n
