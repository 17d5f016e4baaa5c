-- ===== src/Server/Stable/Kept.antt =====
-- The induction over the requests that a server serves.
use signet_ps.Env.{Env}
use signet_ps.Attest.{PersonServerAuthorization, AgentGrant}
use signet_ps.Attest.Verify.{verify_agent_grant}
use signet_ps.Consent.{State, pending, approved, denied, expired, Request}
use signet_ps.Consent.Store as ConsentStore
use signet_ps.Consent.Store.{Store, by_code_locked, approve_routine}
use signet_ps.Store.Tenants as TenantStore
use signet_ps.Store.Tenants.{
  Tenant, Tenants, new_tenants, tenant_of_agent, tenant_of_root, enroll, verify_and_onboard,
}
use signet_ps.Missions.{auto_approvable}
use signet_ps.Tokens.{ResourceClaims, IssuerKey}
use signet_ps.Tokens.Mint.{MintInput, MintError}
use signet_ps.Server.Helpers.{new_id}
use signet_ps.Server.State.{
  Config, Server, Reply, failed, answer, key_thumbs, chain_at, note, log_at,
}
use signet_ps.Server.Handlers.{
  is_elevated, code_failed, finish_with, finish_by, finish, token_checks, token_granted, token,
  finish_granted, finish_found, poll_state, poll_answer, poll, step_up_answer, sign_checks,
  sign_with, approve_elevated, click_answer, ask_signature, click_found, approve_page,
}
use signet_ps.Server.Lifecycle.{
  onboard_answer, onboard, enroll_checks, enroll_answer, enroll_with, enroll_agent,
}
use signet_ps.Server.Requests.{
  Step, Steps, stay, more, asks, polls, signs, clicks, onboards, enrolls,
}
use signet_ps.Base.{
  >>=-eq-ok, or_fail-eq-ok, wrap_err-eq-ok, or_fail, Bool-cases, ℤ, lookup, Bytes, Text, text_ne,
  codes, Result, ok, err, wrap_err, ℕ, ◌≡◌, refl, inl, inr, Option, none, some, List, [], ◌∷◌,
  arith,
}
use signet_ps.Server.Stable.{IsVetted, IsStable, IsReachable, starts, serves, registers}

module _ (env : Env) (P : Config → Tenants → Type 0) (stable : IsStable env P) where
  abbrev Good : Server → Type 0
  Good s = P s.cfg s.tenants

  answered :
      {A : Type 0} (s : Server) (r : Result Reply A) (f : A → Reply × Server)
      → Good s
      → ((a : A) → r ≡ ok a → Good (f a).1)
      → Good (answer s r f).1
  answered s (err e) f p q = p
  answered s (ok a) f p q = q a refl

  finish_with-Good :
      (s : Server) (now : ℤ) (req : Request) (a : ℕ) (agent_id : Text) (r : Result MintError Text)
      → Good s
      → Good (finish_with env s now req a agent_id r).1
  unfolding finish_with
  finish_with-Good s now req a agent_id (err e) p = p
  finish_with-Good s now req a agent_id (ok tok) p = stable.logs s.cfg s.tenants a agent_id _ refl p

  finish_by-Good :
      (keys : List IssuerKey) (s : Server) (now : ℤ) (rand : Bytes) (req : Request) (a : ℕ)
      (agent_id : Text) (inp : MintInput)
      → Good s
      → Good (finish_by env keys s now rand req a agent_id inp).1
  unfolding finish_by
  finish_by-Good [] s now rand req a agent_id inp p = p
  finish_by-Good (key ∷ keys) s now rand req a agent_id inp p =
      finish_with-Good s now req a agent_id _ p

  finish_granted-Good :
      (s : Server) (now : ℤ) (rand : Bytes) (req : Request) (agent_id : Text) (a : ℕ) (t : Tenant)
      (g : Option AgentGrant)
      → Good s
      → Good (finish_granted env s now rand req agent_id (a, t) g).1
  unfolding finish_granted finish
  finish_granted-Good s now rand req agent_id a t none p = p
  finish_granted-Good s now rand req agent_id a t (some grant) p =
      finish_by-Good s.cfg.issuer_keys s now rand req a agent_id _ p

  finish_found-Good :
      (s : Server) (now : ℤ) (rand : Bytes) (req : Request) (agent_id : Text)
      (o : Option (ℕ × Tenant))
      → Good s
      → Good (finish_found env s now rand req agent_id o).1
  unfolding finish_found
  finish_found-Good s now rand req agent_id none p = p
  finish_found-Good s now rand req agent_id (some (a, t)) p =
      finish_granted-Good s now rand req agent_id a t (lookup agent_id t.grants) p

  poll_state-Good :
      (s : Server) (now : ℤ) (rand : Bytes) (req : Request) (agent_id : Text) (state : State)
      → Good s
      → Good (poll_state env s now rand req agent_id state).1
  unfolding poll_state
  poll_state-Good s now rand req agent_id pending p = p
  poll_state-Good s now rand req agent_id approved p =
      finish_found-Good s now rand req agent_id (tenant_of_agent s.tenants agent_id) p
  poll_state-Good s now rand req agent_id denied p = p
  poll_state-Good s now rand req agent_id expired p = p

  poll_answer-Good :
      (s : Server) (now : ℤ) (rand : Bytes) (agent_id : Text)
      (r : Result ConsentStore.Error Request × ConsentStore.Store)
      → Good s
      → Good (poll_answer env s now rand agent_id r).1
  unfolding poll_answer
  poll_answer-Good s now rand agent_id (err e, c) p = p
  poll_answer-Good s now rand agent_id (ok req, c) p =
      elim (Bool-cases (text_ne req.agent_id agent_id)) [
        | inl n ↦ rw n p
        | inr n ↦
            rw n
              (poll_state-Good (record s { pending_store = c }) now rand req agent_id req.state p)
      ]

  poll-Good :
      (s : Server) (now : ℤ) (rand : Bytes) (signer : Option (Text × Text)) (id : Text)
      → Good s
      → Good (poll env s now rand signer id).1
  unfolding poll
  poll-Good s now rand none id p = p
  poll-Good s now rand (some (thumb, agent_id)) id p = poll_answer-Good s now rand agent_id _ p

  token_granted-Good :
      (s : Server) (now : ℤ) (id code rand : Bytes)
      (x : Text × ((ℕ × Tenant) × (AgentGrant × ResourceClaims)))
      → Good s
      → Good (token_granted env s now id code rand x).1
  unfolding token_granted auto_approvable
  token_granted-Good s now id code rand (agent_id, ((a, t), (grant, res))) p =
      let s' = (token_granted env s now id code rand (agent_id, ((a, t), (grant, res)))).1 in
      let same : s'.cfg ≡ s.cfg = ground arith in
      let logged : s'.tenants
          ≡ log_at env s.tenants a agent_id (note (codes "token_request") (new_id id) now) =
        ground arith in
      rw (same, logged) (stable.logs s.cfg s.tenants a agent_id _ refl p)

  token-Good :
      (s : Server) (now : ℤ) (id code rand : Bytes) (signer : Option (Text × Text))
      (body : Option Text)
      → Good s
      → Good (token env s now id code rand signer body).1
  unfolding token
  token-Good s now id code rand signer body p =
      answered s (token_checks env s signer body) (token_granted env s now id code rand) p
        (λ x e. token_granted-Good s now id code rand x p)

  step_up_answer-Good :
      (s : Server) (r : Result ConsentStore.Error (Unit {0}) × ConsentStore.Store)
      → Good s
      → Good (step_up_answer env s r).1
  unfolding step_up_answer
  step_up_answer-Good s (err e, c) p = p
  step_up_answer-Good s (ok u, c) p = p

  sign-Good :
      (s : Server) (now : ℤ) (code : Text) (body : Option Text)
      → Good s
      → Good (approve_elevated env s now code body).1
  unfolding approve_elevated sign_with
  sign-Good s now code body p =
      answered s (sign_checks env s code body) (sign_with env s now code) p
        λ (signature, t) e. step_up_answer-Good s _ p

  click_answer-Good :
      (s : Server) (code : Text) (r : Result ConsentStore.Error (Unit {0}) × ConsentStore.Store)
      → Good s
      → Good (click_answer env s code r).1
  unfolding click_answer
  click_answer-Good s code (err e, c) p = p
  click_answer-Good s code (ok u, c) p = p

  ask_signature-Good :
      (s : Server) (code : Text) (req : Request) (d : Option Bytes)
      → Good s
      → Good (ask_signature env s code req d).1
  unfolding ask_signature
  ask_signature-Good s code req none p = p
  ask_signature-Good s code req (some d) p = p

  click_found-Good :
      (s : Server) (now : ℤ) (code : Text) (x : ℕ × Request)
      → Good s
      → Good (click_found env s now code x).1
  unfolding click_found
  click_found-Good s now code (a, req) p = elim (Bool-cases (is_elevated req.tier)) [
    | inl y ↦ rw y (ask_signature-Good s code req _ p)
    | inr y ↦ rw y (click_answer-Good s code _ p)
  ]

  click-Good : (s : Server) (now : ℤ) (code : Text) → Good s → Good (approve_page env s now code).1
  unfolding approve_page
  click-Good s now code p =
      answered s (wrap_err code_failed (by_code_locked s.pending_store code))
        (click_found env s now code) p (λ x e. click_found-Good s now code x p)

  onboard_answer-Good :
      (s : Server) (r : Result TenantStore.Error (ℕ × Tenant) × Tenants)
      → P s.cfg r.1
      → Good (onboard_answer env s r).1
  unfolding onboard_answer
  onboard_answer-Good s (err e, ts) h = h
  onboard_answer-Good s (ok (a, t), ts) h = h

  onboard-Good :
      (s : Server) (now : ℤ) (body : Option PersonServerAuthorization)
      → Good s
      → Good (onboard env s now body).1
  unfolding onboard chain_at
  onboard-Good s now none p = p
  onboard-Good s now (some psa) p =
      onboard_answer-Good s _ (stable.onboards s.cfg s.tenants now psa (key_thumbs env s) p)

  enroll_answer-Good :
      (s : Server) (now : ℤ) (a : ℕ) (t : Tenant) (agent_id : Text)
      (r : Result TenantStore.Error Tenants)
      → ((ts : Tenants) → r ≡ ok ts → P s.cfg ts)
      → Good s
      → Good (enroll_answer env s now (a, t) agent_id r).1
  unfolding enroll_answer
  enroll_answer-Good s now a t agent_id (err e) h p = p
  enroll_answer-Good s now a t agent_id (ok ts) h p =
      stable.logs s.cfg ts a agent_id _ refl (h ts refl)

  enroll_checks-IsVetted :
      (s : Server) (now : ℤ) (signer : Option (Text × Text)) (body : Option AgentGrant)
      (agent_id : Text) (a : ℕ) (t : Tenant) (g : AgentGrant)
      → enroll_checks env s now signer body ≡ ok (agent_id, ((a, t), g))
      → IsVetted env s.tenants agent_id a t g
  unfolding enroll_checks chain_at
  enroll_checks-IsVetted s now none body agent_id a t g h = cc
  enroll_checks-IsVetted s now (some (thumb, agent)) none agent_id a t g h = cc
  enroll_checks-IsVetted s now (some (thumb, agent)) (some grant) agent_id a t g h =
      let ((b, u), found, rest) =
        >>=-eq-ok
          (or_fail (tenant_of_root s.tenants grant.root) (failed 403 (codes "unknown_root"))) _ h in
      let (done, verified, same) =
        >>=-eq-ok
          (wrap_err (λ e. failed 403 (codes "invalid_grant"))
            (verify_agent_grant env (chain_at s now) grant u.root agent thumb))
          _ rest in
      let at_root =
        or_fail-eq-ok (tenant_of_root s.tenants grant.root) (failed 403 (codes "unknown_root"))
          found in
      let by_root =
        wrap_err-eq-ok (λ e. failed 403 (codes "invalid_grant"))
          (verify_agent_grant env (chain_at s now) grant u.root agent thumb) verified in
      record { found = cc; registry = s.cfg.registry; at = now; thumb = thumb; verified = cc }

  enroll-Good :
      (s : Server) (now : ℤ) (signer : Option (Text × Text)) (body : Option AgentGrant)
      → Good s
      → Good (enroll_agent env s now signer body).1
  unfolding enroll_agent enroll_with
  enroll-Good s now signer body p =
      answered s (enroll_checks env s now signer body) (enroll_with env s now) p
        λ (agent_id, ((a, t), g)) e.
          enroll_answer-Good s now a t agent_id (enroll env s.tenants agent_id (a, t) g)
            (λ ts f.
              stable.enrolls s.cfg s.tenants ts agent_id a t g
                (enroll_checks-IsVetted s now signer body agent_id a t g e) f p)
            p

  Step-Good : {s s' : Server} → Step env s s' → Good s → Good s'
  Step-Good {s} (asks now id code rand signer body) p = token-Good s now id code rand signer body p
  Step-Good {s} (polls now rand signer id) p = poll-Good s now rand signer id p
  Step-Good {s} (signs now code body) p = sign-Good s now code body p
  Step-Good {s} (clicks now code) p = click-Good s now code p
  Step-Good {s} (onboards now body) p = onboard-Good s now body p
  Step-Good {s} (enrolls now signer body) p = enroll-Good s now signer body p

  pub Steps-Good : {s s' : Server} → Steps env s s' → P s.cfg s.tenants → P s'.cfg s'.tenants
  Steps-Good stay p = p
  Steps-Good (more steps st) p = Step-Good st (Steps-Good steps p)

  pub stable_of_reachable :
      {cfg : Config} {s : Server} → P cfg new_tenants → IsReachable env cfg s → P s.cfg s.tenants
  stable_of_reachable {cfg} p starts = p
  stable_of_reachable p (serves r st) = Step-Good st (stable_of_reachable p r)
  stable_of_reachable p (registers {s} reg r) =
      stable.registers s.cfg s.tenants reg (stable_of_reachable p r)
