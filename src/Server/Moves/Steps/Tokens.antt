-- ===== src/Server/Moves/Steps/Tokens.antt =====
-- internal/server: token and poll, and the calls of the store that they make.
use signet_ps.Env.{Env}
use signet_ps.Attest.{AgentGrant}
use signet_ps.Consent.{State, pending, approved, denied, expired, Request}
use signet_ps.Consent.Store as ConsentStore
use signet_ps.Consent.Store.{create, by_code_locked, approve_routine}
use signet_ps.Store.Tenants.{Tenant, tenant_of_agent}
use signet_ps.Missions.{consistent, auto_approvable}
use signet_ps.Tokens.{ResourceClaims, IssuerKey}
use signet_ps.Tokens.Mint.{MintInput, MintError}
use signet_ps.Server.Helpers.{parse_resource_token}
use signet_ps.Server.State.{failed, Config, Server, Reply, answer}
use signet_ps.Server.Handlers.{
  poll, is_elevated, finish_with, finish_by, finish, token_checks, new_request, token_granted,
  token, finish_granted, finish_found, poll_state, poll_answer,
}
use signet_ps.Base.{
  codes, >>=-eq-ok, or_fail-eq-ok, or_fail, fail_if, Bool-cases, ℤ, lookup, Bytes, Text, text_ne,
  Result, ok, err, wrap_err, ℕ, ◌≡◌, refl, sym, subst, inl, inr, not, ◌&&◌, Option, none, some,
  List, [], ◌∷◌, arith,
}
use signet_ps.Server.Moves.{Move, creating, polling, clicking, Moves, at_rest, moved}

module _ (env : Env) where
  -- What a request did: the configuration is as it was, and the store was called as said.
  abbrev pub MovesTo : Server → Server → Type 0
  MovesTo s s' = (s'.cfg ≡ s.cfg) × Moves env s.cfg s.tenants s.pending_store s'.pending_store

  -- the configuration is as it was, and the store is this one
  abbrev pub Leaves : Server → ConsentStore.Store → Server → Type 0
  Leaves s c s' = (s'.cfg ≡ s.cfg) × (s'.pending_store ≡ c)

  abbrev pub SameStore : Server → Server → Type 0
  SameStore s s' = Leaves s s.pending_store s'

  pub untouched :
      (s : Server) (cfg : Config) (c : ConsentStore.Store)
      → (cfg ≡ s.cfg) × (c ≡ s.pending_store)
      → (cfg ≡ s.cfg) × Moves env s.cfg s.tenants s.pending_store c
  untouched s cfg c (f, e) =
      (f, subst (λ x. Moves env s.cfg s.tenants s.pending_store x) (sym e) at_rest)

  pub one_call :
      (s : Server) (cfg : Config) (c' c : ConsentStore.Store)
      → Move env s.cfg s.tenants s.pending_store c
      → (cfg ≡ s.cfg) × (c' ≡ c)
      → (cfg ≡ s.cfg) × Moves env s.cfg s.tenants s.pending_store c'
  one_call s cfg c' c m (f, e) =
      (f, subst (λ x. Moves env s.cfg s.tenants s.pending_store x) (sym e) (moved at_rest m))

  pub answer-MovesTo :
      {A : Type 0} (s : Server) (r : Result Reply A) (f : A → Reply × Server)
      → ((a : A) → r ≡ ok a → MovesTo s (f a).1)
      → MovesTo s (answer s r f).1
  answer-MovesTo s (err e) f q = (refl, at_rest)
  answer-MovesTo s (ok a) f q = q a refl

  finish_with_same :
      (s : Server) (now : ℤ) (req : Request) (a : ℕ) (agent_id : Text) (r : Result MintError Text)
      → SameStore s (finish_with env s now req a agent_id r).1
  unfolding finish_with
  finish_with_same s now req a agent_id (err e) = (refl, refl)
  finish_with_same s now req a agent_id (ok tok) = (refl, refl)

  finish_by_same :
      (keys : List IssuerKey) (s : Server) (now : ℤ) (rand : Bytes) (req : Request) (a : ℕ)
      (agent_id : Text) (inp : MintInput)
      → SameStore s (finish_by env keys s now rand req a agent_id inp).1
  unfolding finish_by
  finish_by_same [] s now rand req a agent_id inp = (refl, refl)
  finish_by_same (key ∷ keys) s now rand req a agent_id inp =
      finish_with_same s now req a agent_id _

  finish_granted_same :
      (s : Server) (now : ℤ) (rand : Bytes) (req : Request) (agent_id : Text) (a : ℕ) (t : Tenant)
      (g : Option AgentGrant)
      → SameStore s (finish_granted env s now rand req agent_id (a, t) g).1
  unfolding finish_granted finish
  finish_granted_same s now rand req agent_id a t none = (refl, refl)
  finish_granted_same s now rand req agent_id a t (some grant) =
      finish_by_same s.cfg.issuer_keys s now rand req a agent_id _

  finish_found_same :
      (s : Server) (now : ℤ) (rand : Bytes) (req : Request) (agent_id : Text)
      (o : Option (ℕ × Tenant))
      → SameStore s (finish_found env s now rand req agent_id o).1
  unfolding finish_found
  finish_found_same s now rand req agent_id none = (refl, refl)
  finish_found_same s now rand req agent_id (some (a, t)) =
      finish_granted_same s now rand req agent_id a t (lookup agent_id t.grants)

  poll_state_same :
      (s : Server) (now : ℤ) (rand : Bytes) (req : Request) (agent_id : Text) (state : State)
      → SameStore s (poll_state env s now rand req agent_id state).1
  unfolding poll_state
  poll_state_same s now rand req agent_id pending = (refl, refl)
  poll_state_same s now rand req agent_id approved =
      finish_found_same s now rand req agent_id (tenant_of_agent s.tenants agent_id)
  poll_state_same s now rand req agent_id denied = (refl, refl)
  poll_state_same s now rand req agent_id expired = (refl, refl)

  poll_answer_store :
      (s : Server) (now : ℤ) (rand : Bytes) (agent_id : Text)
      (r : Result ConsentStore.Error Request × ConsentStore.Store)
      → Leaves s r.1 (poll_answer env s now rand agent_id r).1
  unfolding poll_answer
  poll_answer_store s now rand agent_id (err e, c) = (refl, refl)
  poll_answer_store s now rand agent_id (ok req, c) =
      elim (Bool-cases (text_ne req.agent_id agent_id)) [
        | inl n ↦ rw n (refl, refl)
        | inr n ↦
            rw n (poll_state_same (record s { pending_store = c }) now rand req agent_id req.state)
      ]

  pub poll-MovesTo :
      (s : Server) (now : ℤ) (rand : Bytes) (signer : Option (Text × Text)) (id : Text)
      → MovesTo s (poll env s now rand signer id).1
  unfolding poll
  poll-MovesTo s now rand none id = (refl, at_rest)
  poll-MovesTo s now rand (some (thumb, agent_id)) id =
      one_call s _ _ _ (polling now id) (poll_answer_store s now rand agent_id _)

  -- a new request has no signature yet; a routine one within bounds is approved at once
  token_granted-MovesTo :
      (s : Server) (now : ℤ) (id code rand : Bytes)
      (x : Text × ((ℕ × Tenant) × (AgentGrant × ResourceClaims)))
      → tenant_of_agent s.tenants x.0 ≡ some x.1.0
      → MovesTo s (token_granted env s now id code rand x).1
  unfolding token_granted new_request finish_by finish
  token_granted-MovesTo s now id code rand (agent_id, ((a, t), (grant, res))) found =
      let req = new_request env now id code agent_id t.psa.scope grant res in
      let created : Moves env s.cfg s.tenants s.pending_store (create s.pending_store req) =
        moved at_rest (creating req a t refl found) in
      elim (Bool-cases
        (not (is_elevated req.tier) && auto_approvable agent_id res.scope res.amount_wei)) [
          | inl y ↦
              let (same, left) = finish_by_same s.cfg.issuer_keys _ now rand req a agent_id _ in
              rw y (
                same,
                subst (λ c. Moves env s.cfg s.tenants s.pending_store c) (sym left)
                    (moved created (clicking now req.code)),
              )
          | inr n ↦ rw n (refl, created)
        ]

  token_checks_found :
      (s : Server) (signer : Option (Text × Text)) (body : Option Text)
      (x : Text × ((ℕ × Tenant) × (AgentGrant × ResourceClaims)))
      → token_checks env s signer body ≡ ok x
      → tenant_of_agent s.tenants x.0 ≡ some x.1.0
  unfolding token_checks
  token_checks_found s none body x h = cc
  token_checks_found s (some (thumb, agent_id)) body x h =
      let refused = failed 403 (codes "no_agent_grant") in
      let invalid = failed 400 (codes "invalid_request") in
      let ((a, t), found, h₁) =
        >>=-eq-ok (or_fail (tenant_of_agent s.tenants agent_id) refused) _ h in
      let (grant, _, h₂) = >>=-eq-ok (or_fail (lookup agent_id t.grants) refused) _ h₁ in
      let (_, _, h₃) = >>=-eq-ok (fail_if (text_ne grant.agent_thumbprint thumb) refused) _ h₂ in
      let (raw, _, h₄) = >>=-eq-ok (or_fail body invalid) _ h₃ in
      let (res, _, h₅) = >>=-eq-ok (or_fail (parse_resource_token env raw) invalid) _ h₄ in
      let (_, _, h₆) =
        >>=-eq-ok
          (wrap_err (λ e. failed 403 (codes "mission_inconsistent"))
            (consistent agent_id grant.mission_scope_s256 res.scope res.amount_wei))
          _ h₅ in
      let at = or_fail-eq-ok (tenant_of_agent s.tenants agent_id) refused found in
      ground (arith, at, h₆)

  pub token-MovesTo :
      (s : Server) (now : ℤ) (id code rand : Bytes) (signer : Option (Text × Text))
      (body : Option Text)
      → MovesTo s (token env s now id code rand signer body).1
  unfolding token
  token-MovesTo s now id code rand signer body =
      answer-MovesTo s (token_checks env s signer body) (token_granted env s now id code rand)
        (λ x e. token_granted-MovesTo s now id code rand x (token_checks_found s signer body x e))
