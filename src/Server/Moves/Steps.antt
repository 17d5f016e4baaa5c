-- ===== src/Server/Moves/Steps.antt =====
-- internal/server: every handler, and the calls of the store that it makes.
pub mod Tokens
use signet_ps.Env.{Env}
use signet_ps.Attest.{PersonServerAuthorization, AgentGrant}
use signet_ps.Consent.{State, pending, approved, denied, expired, Request}
use signet_ps.Consent.Store as ConsentStore
use signet_ps.Consent.Store.{create, by_code_locked, approve_routine}
use signet_ps.Store.Tenants as TenantStore
use signet_ps.Store.Tenants.{Tenant, Tenants, tenant_of_agent, enroll}
use signet_ps.Missions.{consistent, auto_approvable}
use signet_ps.Tokens.{ResourceClaims, IssuerKey}
use signet_ps.Tokens.Mint.{MintInput, MintError}
use signet_ps.Server.Helpers.{hex_bytes, parse_resource_token}
use signet_ps.Server.State.{failed, Config, Server, Reply, answer}
use signet_ps.Server.Handlers.{
  poll, approve_elevated, code_failed, is_elevated, finish_with, finish_by, finish, token_checks,
  new_request, token_granted, token, finish_granted, finish_found, poll_state, poll_answer,
  step_up_answer, sign_checks, sign_with, click_answer, ask_signature, click_found, approve_page,
}
use signet_ps.Server.Lifecycle.{
  onboard, onboard_answer, enroll_checks, enroll_answer, enroll_with, enroll_agent,
}
use signet_ps.Server.Requests.{Step, asks, polls, signs, clicks, onboards, enrolls}
use signet_ps.Base.{
  codes, >>=-eq-ok, or_fail-eq-ok, or_fail, fail_if, Bool-cases, Option-cases, ℤ, lookup, Bytes,
  Text, text_ne, Result, ok, err, wrap_err, Result-cases, ℕ, ◌≡◌, refl, sym, subst, inl, inr, not,
  ◌&&◌, Option, none, some, List, [], ◌∷◌, arith,
}
use signet_ps.Server.Moves.{Move, creating, polling, clicking, signing, Moves, at_rest, moved}
use signet_ps.Server.Moves.Steps.Tokens.{
  MovesTo, Leaves, SameStore, untouched, one_call, answer-MovesTo, poll-MovesTo, token-MovesTo,
}

module _ (env : Env) where
  step_up_answer_store :
      (s : Server) (r : Result ConsentStore.Error (Unit {0}) × ConsentStore.Store)
      → Leaves env s r.1 (step_up_answer env s r).1
  unfolding step_up_answer
  step_up_answer_store s (err e, c) = (refl, refl)
  step_up_answer_store s (ok u, c) = (refl, refl)

  sign_checks_sound :
      (s : Server) (code : Text) (body : Option Text) (signature : Text) (t : Tenant)
      → sign_checks env s code body ≡ ok (signature, t)
      → (a : ℕ) × (r : Request) × (b : ℕ) × (by_code_locked s.pending_store code ≡ ok (a, r))
        × (tenant_of_agent s.tenants r.agent_id ≡ some (b, t))
  unfolding sign_checks
  sign_checks_sound s code none signature t h = cc
  sign_checks_sound s code (some body) signature t h =
      elim (Result-cases (by_code_locked s.pending_store code)) [
        | inr (e, p) ↦ absurd (ground (arith, p, h))
        | inl ((a, r), p) ↦ elim (Option-cases (tenant_of_agent s.tenants r.agent_id)) [
          | inl e ↦ absurd (ground (arith, p, e, h))
          | inr ((b, u), e) ↦ (a, r, b, p, ground (arith, p, e, h))
        ]
      ]

  sign-MovesTo :
      (s : Server) (now : ℤ) (code : Text) (body : Option Text)
      → MovesTo env s (approve_elevated env s now code body).1
  unfolding approve_elevated sign_with
  sign-MovesTo s now code body =
      answer-MovesTo env s (sign_checks env s code body) (sign_with env s now code)
        λ (signature, t) e.
          let (a, r, b, p, q) = sign_checks_sound s code body signature t e in
          one_call env s _ _ _ (signing now code (hex_bytes signature) a r b t p q)
            (step_up_answer_store s _)

  click_answer_store :
      (s : Server) (code : Text) (r : Result ConsentStore.Error (Unit {0}) × ConsentStore.Store)
      → Leaves env s r.1 (click_answer env s code r).1
  unfolding click_answer
  click_answer_store s code (err e, c) = (refl, refl)
  click_answer_store s code (ok u, c) = (refl, refl)

  ask_signature_same :
      (s : Server) (code : Text) (req : Request) (d : Option Bytes)
      → SameStore env s (ask_signature env s code req d).1
  unfolding ask_signature
  ask_signature_same s code req none = (refl, refl)
  ask_signature_same s code req (some d) = (refl, refl)

  click_found-MovesTo :
      (s : Server) (now : ℤ) (code : Text) (x : ℕ × Request)
      → MovesTo env s (click_found env s now code x).1
  unfolding click_found
  click_found-MovesTo s now code (a, req) = elim (Bool-cases (is_elevated req.tier)) [
    | inl y ↦ rw y (untouched env s _ _ (ask_signature_same s code req _))
    | inr y ↦ rw y (one_call env s _ _ _ (clicking now code) (click_answer_store s code _))
  ]

  click-MovesTo :
      (s : Server) (now : ℤ) (code : Text) → MovesTo env s (approve_page env s now code).1
  unfolding approve_page
  click-MovesTo s now code =
      answer-MovesTo env s (wrap_err code_failed (by_code_locked s.pending_store code))
        (click_found env s now code) (λ x e. click_found-MovesTo s now code x)

  onboard_answer_same :
      (s : Server) (r : Result TenantStore.Error (ℕ × Tenant) × Tenants)
      → SameStore env s (onboard_answer env s r).1
  unfolding onboard_answer
  onboard_answer_same s (err e, ts) = (refl, refl)
  onboard_answer_same s (ok (a, t), ts) = (refl, refl)

  onboard-MovesTo :
      (s : Server) (now : ℤ) (body : Option PersonServerAuthorization)
      → MovesTo env s (onboard env s now body).1
  unfolding onboard
  onboard-MovesTo s now none = (refl, at_rest)
  onboard-MovesTo s now (some psa) = untouched env s _ _ (onboard_answer_same s _)

  enroll_answer_same :
      (s : Server) (now : ℤ) (a : ℕ) (t : Tenant) (agent_id : Text)
      (r : Result TenantStore.Error Tenants)
      → SameStore env s (enroll_answer env s now (a, t) agent_id r).1
  unfolding enroll_answer
  enroll_answer_same s now a t agent_id (err e) = (refl, refl)
  enroll_answer_same s now a t agent_id (ok ts) = (refl, refl)

  enroll-MovesTo :
      (s : Server) (now : ℤ) (signer : Option (Text × Text)) (body : Option AgentGrant)
      → MovesTo env s (enroll_agent env s now signer body).1
  unfolding enroll_agent enroll_with
  enroll-MovesTo s now signer body =
      answer-MovesTo env s (enroll_checks env s now signer body) (enroll_with env s now)
        λ (agent_id, ((a, t), g)) e.
          untouched env s _ _
            (enroll_answer_same s now a t agent_id (enroll env s.tenants agent_id (a, t) g))

  -- Every request changes the store of pending requests only by calls of its methods.
  pub Step-MovesTo : {s s' : Server} → Step env s s' → MovesTo env s s'
  Step-MovesTo {s} (asks now id code rand signer body) =
      token-MovesTo env s now id code rand signer body
  Step-MovesTo {s} (polls now rand signer id) = poll-MovesTo env s now rand signer id
  Step-MovesTo {s} (signs now code body) = sign-MovesTo s now code body
  Step-MovesTo {s} (clicks now code) = click-MovesTo s now code
  Step-MovesTo {s} (onboards now body) = onboard-MovesTo s now body
  Step-MovesTo {s} (enrolls now signer body) = enroll-MovesTo s now signer body
