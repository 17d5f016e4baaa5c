-- ===== src/Server/Moves/Calm.antt =====
-- internal/server: no handler runs into a nil pointer or an empty list of keys.
pub mod Checks
pub mod Tokens
use signet_ps.Env.{Env}
use signet_ps.Attest.{PersonServerAuthorization, AgentGrant}
use signet_ps.Attest.Verify.{verify_agent_grant}
use signet_ps.Consent.{State, pending, approved, denied, expired, Request}
use signet_ps.Consent.Digest.{approval_digest}
use signet_ps.Consent.Store as ConsentStore
use signet_ps.Consent.Store.{
  Store, Error, unknown_code, nil_request, by_code_locked, deref, approve_routine, poll_found,
  expire,
}
use signet_ps.Consent.Concurrent.Evolution.{expire-Later, deref_sound}
use signet_ps.Store.Tenants as TenantStore
use signet_ps.Store.Tenants.{
  grant_by_s256, Tenant, Tenants, tenant_of_agent, tenant_of_root, enroll,
}
use signet_ps.Store.Tenants.WellFormed.{IsWellFormed}
use signet_ps.Missions.{consistent, auto_approvable}
use signet_ps.Tokens.{ResourceClaims, IssuerKey}
use signet_ps.Tokens.Mint.{MintInput, MintError}
use signet_ps.Server.Helpers.{parse_resource_token}
use signet_ps.Server.State.{Config, Server, Reply, failed, panicked, answer, chain_at}
use signet_ps.Server.Handlers.{
  new_request, poll, approve_elevated, code_failed, is_elevated, finish_with, finish_by, finish,
  token_checks, token_granted, token, finish_granted, finish_found, poll_state, poll_answer,
  step_up_answer, sign_checks, sign_with, click_answer, ask_signature, click_found, approve_page,
}
use signet_ps.Server.Lifecycle.{
  serve_psa, serve_grant, export, onboard, onboard_answer, enroll_checks, enroll_answer,
  enroll_with, enroll_agent,
}
use signet_ps.Server.Stable.{IsReachable, starts, serves, registers}
use signet_ps.Server.Moves.Steps.{Step-MovesTo}
use signet_ps.Server.Routes.{
  Route, post_token, get_pending, get_approve, post_signature, post_psa, post_agents, get_psa,
  get_grant, get_export, serve,
}
use signet_ps.Server.Tenancy.{reachable-IsWellFormed}
use signet_ps.Server.Moves.Indexed.{IsIndexed, reachable-IsIndexed}
use signet_ps.Base.{
  or_fail, fail_if, ◌>>=◌, ◌>>◌, codes, Bool-cases, Option-cases, ℤ, lookup, get_elem?, Bytes, Text,
  text_ne, eq_of_text_ne, Result, ok, err, wrap_err, Result-cases, ℕ, Bool, true, false, ◌≡◌, ◌≢◌,
  refl, ap, sym, subst, ◌∙◌, inl, inr, not, ◌&&◌, Option, none, some, List, [], ◌∷◌, arith,
}
use signet_ps.Server.Moves.Calm.Checks.{
  CanIssue, IsCalm, failed-ne-panicked, bind-IsCalm, or_fail-IsCalm, fail_if-IsCalm,
  wrap_err-IsCalm, answer_calm, by_code-IsCalm, token_checks-IsCalm,
}
use signet_ps.Server.Moves.Calm.Tokens.{poll_calm, token_calm}

module _ (env : Env) where
  step_up_answer_calm :
      (s : Server) (r : Result ConsentStore.Error (Unit {0}) × Store)
      → (step_up_answer env s r).0 ≢ panicked
  unfolding step_up_answer
  step_up_answer_calm s (err e, c) h = cc
  step_up_answer_calm s (ok u, c) h = cc

  sign_calm :
      (s : Server) (now : ℤ) (code : Text) (body : Option Text)
      → IsIndexed s.tenants s.pending_store
      → (approve_elevated env s now code body).0 ≢ panicked
  unfolding approve_elevated sign_checks sign_with
  sign_calm s now code body i =
      answer_calm env s _ (sign_with env s now code)
        (bind-IsCalm (or_fail body (failed 400 (codes "invalid_request"))) _
          (or_fail-IsCalm body 400 (codes "invalid_request"))
          λ signature.
            bind-IsCalm (wrap_err code_failed (by_code_locked s.pending_store code)) _
              (by_code-IsCalm env s.tenants s.pending_store code i)
              λ (a, req).
                bind-IsCalm _ _
                  (or_fail-IsCalm (tenant_of_agent s.tenants req.agent_id) 404
                    (codes "unknown_tenant"))
                  (λ (b, t). tt))
        λ (signature, t) e. step_up_answer_calm s _

  click_answer_calm :
      (s : Server) (code : Text) (r : Result ConsentStore.Error (Unit {0}) × Store)
      → (click_answer env s code r).0 ≢ panicked
  unfolding click_answer
  click_answer_calm s code (err e, c) h = cc
  click_answer_calm s code (ok u, c) h = cc

  ask_signature_calm :
      (s : Server) (code : Text) (req : Request) (d : Option Bytes)
      → (ask_signature env s code req d).0 ≢ panicked
  unfolding ask_signature
  ask_signature_calm s code req none h = cc
  ask_signature_calm s code req (some d) h = cc

  click_found_calm :
      (s : Server) (now : ℤ) (code : Text) (a : ℕ) (req : Request)
      → (click_found env s now code (a, req)).0 ≢ panicked
  unfolding click_found
  click_found_calm s now code a req = elim (Bool-cases (is_elevated req.tier)) [
    | inl y ↦ rw y (ask_signature_calm s code req _)
    | inr y ↦ rw y (click_answer_calm s code _)
  ]

  click_calm :
      (s : Server) (now : ℤ) (code : Text)
      → IsIndexed s.tenants s.pending_store
      → (approve_page env s now code).0 ≢ panicked
  unfolding approve_page
  click_calm s now code i =
      answer_calm env s (wrap_err code_failed (by_code_locked s.pending_store code))
        (click_found env s now code) (by_code-IsCalm env s.tenants s.pending_store code i)
        λ (a, req) e. click_found_calm s now code a req

  onboard_answer_calm :
      (s : Server) (r : Result TenantStore.Error (ℕ × Tenant) × Tenants)
      → (onboard_answer env s r).0 ≢ panicked
  unfolding onboard_answer
  onboard_answer_calm s (err e, ts) h = cc
  onboard_answer_calm s (ok (a, t), ts) h = cc

  onboard_calm :
      (s : Server) (now : ℤ) (body : Option PersonServerAuthorization)
      → (onboard env s now body).0 ≢ panicked
  unfolding onboard
  onboard_calm s now none = λ h. cc
  onboard_calm s now (some psa) = onboard_answer_calm s _

  enroll_answer_calm :
      (s : Server) (now : ℤ) (a : ℕ) (t : Tenant) (agent_id : Text)
      (r : Result TenantStore.Error Tenants)
      → (enroll_answer env s now (a, t) agent_id r).0 ≢ panicked
  unfolding enroll_answer
  enroll_answer_calm s now a t agent_id (err e) h = cc
  enroll_answer_calm s now a t agent_id (ok ts) h = cc

  enroll_calm :
      (s : Server) (now : ℤ) (signer : Option (Text × Text)) (body : Option AgentGrant)
      → (enroll_agent env s now signer body).0 ≢ panicked
  unfolding enroll_agent enroll_checks enroll_with
  enroll_calm s now signer body =
      answer_calm env s _ (enroll_with env s now)
        (bind-IsCalm (or_fail signer (failed 401 (codes "invalid_signature"))) _
          (or_fail-IsCalm signer 401 (codes "invalid_signature"))
          λ (thumb, agent_id).
            bind-IsCalm (or_fail body (failed 400 (codes "invalid_request"))) _
              (or_fail-IsCalm body 400 (codes "invalid_request"))
              λ g.
                bind-IsCalm
                  (or_fail (tenant_of_root s.tenants g.root) (failed 403 (codes "unknown_root"))) _
                  (or_fail-IsCalm (tenant_of_root s.tenants g.root) 403 (codes "unknown_root"))
                  λ (a, t).
                    bind-IsCalm _ _
                      (wrap_err-IsCalm
                        (verify_agent_grant env (chain_at s now) g t.root agent_id thumb) 403
                        (codes "invalid_grant"))
                      (λ _. tt))
        λ (agent_id, ((a, t), g)) e.
          enroll_answer_calm s now a t agent_id (enroll env s.tenants agent_id (a, t) g)

  serve_psa_calm : (s : Server) (root : Text) → serve_psa s root ≢ panicked
  unfolding serve_psa
  serve_psa_calm s root h = elim (Option-cases (tenant_of_root s.tenants root)) [
    | inl e ↦ absurd (ground (arith, e, h))
    | inr ((a, t), e) ↦ absurd (ground (arith, e, h))
  ]

  serve_grant_calm : (s : Server) (s256 : Text) → serve_grant s s256 ≢ panicked
  unfolding serve_grant
  serve_grant_calm s s256 h = elim (Option-cases (grant_by_s256 s.tenants s256)) [
    | inl e ↦ absurd (ground (arith, e, h))
    | inr (g, e) ↦ absurd (ground (arith, e, h))
  ]

  export_calm : (s : Server) (who : Option Text) → export s who ≢ panicked
  unfolding export
  export_calm s none h = cc
  export_calm s (some root) h = elim (Option-cases (tenant_of_root s.tenants root)) [
    | inl e ↦ absurd (ground (arith, e, h))
    | inr ((a, t), e) ↦ absurd (ground (arith, e, h))
  ]

  reachable_keys :
      {cfg : Config} {s : Server} → IsReachable env cfg s → s.cfg.issuer_keys ≡ cfg.issuer_keys
  reachable_keys starts = refl
  reachable_keys (serves reached st) =
      ap (λ (c : Config). c.issuer_keys) (Step-MovesTo env st).0 ∙ reachable_keys reached
  reachable_keys (registers r reached) = reachable_keys reached

  reachable_has_keys :
      {cfg : Config} {s : Server}
      → IsReachable env cfg s
      → CanIssue cfg.issuer_keys
      → CanIssue s.cfg.issuer_keys
  reachable_has_keys reached n = subst CanIssue (sym (reachable_keys reached)) n

  -- A server that starts with a first key whose private part has 64 bytes panics at no request,
  -- whatever requests it has served while the registry changes: at no missing key, tenant, grant or
  -- request, and not in ed25519.Sign.
  pub serve-ne-panicked :
      {cfg : Config} {s : Server} (now : ℤ) (route : Route)
      → IsReachable env cfg s
      → CanIssue cfg.issuer_keys
      → (serve env s now route).0 ≢ panicked
  unfolding serve
  serve-ne-panicked {cfg} {s} now (post_token id code rand signer body) reached n =
      token_calm env s now id code rand signer body (reachable_has_keys reached n)
  serve-ne-panicked {cfg} {s} now (get_pending rand signer id) reached n =
      poll_calm env s now rand signer id (reachable_has_keys reached n)
        (reachable-IsWellFormed env reached) (reachable-IsIndexed env reached)
  serve-ne-panicked {cfg} {s} now (get_approve code) reached n =
      click_calm s now code (reachable-IsIndexed env reached)
  serve-ne-panicked {cfg} {s} now (post_signature code body) reached n =
      sign_calm s now code body (reachable-IsIndexed env reached)
  serve-ne-panicked {cfg} {s} now (post_psa body) reached n = onboard_calm s now body
  serve-ne-panicked {cfg} {s} now (post_agents signer body) reached n =
      enroll_calm s now signer body
  serve-ne-panicked {cfg} {s} now (get_psa root) reached n = serve_psa_calm s root
  serve-ne-panicked {cfg} {s} now (get_grant s256) reached n = serve_grant_calm s s256
  serve-ne-panicked {cfg} {s} now (get_export who) reached n = export_calm s who
