-- ===== src/Server/Handlers.antt =====
-- internal/server/server.go and approve.go: the handlers. One call runs whole; what it writes to a
-- shared object is written at the object's address. Each of its `time.Now()` reads the same `now`.
use signet_ps.Base.{
  if◌then◌else◌, replicate, ℤ, pos, ◌+ℤ◌, lookup, Bytes, Text, codes, text_ne, Result, ok, err,
  ◌>>=◌, ◌>>◌, fail_if, or_fail, wrap_err, ℕ, Bool, true, false, not, ◌&&◌, Option, none, some,
  List, [], ◌∷◌, ◌++◌,
}
use signet_ps.Env.{Env}
use signet_ps.Attest.{Scope, AgentGrant}
use signet_ps.Consent.{Tier, routine, elevated, State, pending, approved, denied, expired, Request}
use signet_ps.Consent.Digest.{approval_digest}
use signet_ps.Consent.Store as ConsentStore
use signet_ps.Consent.Store.{
  Store, unknown_request, unknown_code, nil_request, step_up, create, by_code_locked,
  approve_routine, new_store,
}
use signet_ps.Missions.{consistent, auto_approvable}
use signet_ps.Store.Tenants.{Tenant, tenant_of_agent}
use signet_ps.Tokens.{StepUp, ResourceClaims, IssuerKey}
use signet_ps.Tokens.Mint.{MintInput, MintError, sign_panics, hour, mint}
use signet_ps.Server.Helpers.{
  tier_for, agent_key_from_grant, new_id, new_code, hex_str, hex_bytes, parse_resource_token,
  marshal_resource, resource_of,
}
use signet_ps.Server.State.{
  Server, Reply, failed, panicked, interaction, still_pending, issued, approved_step_up,
  approved_click, to_sign, answer, note, log_at,
}

-- A code whose request is missing finds a nil pointer.
unfoldable pub code_failed : ConsentStore.Error → Reply
code_failed nil_request = panicked
code_failed _ = failed 404 (codes "unknown_code")

unfoldable pub is_elevated : Tier → Bool
is_elevated routine = false
is_elevated elevated = true

unfoldable pub refused : MintError → Reply
refused sign_panics = panicked
refused _ = failed 403 (codes "outside_grant")

module _ (env : Env) where
  -- the step-up claim, of a request that holds a signature; a failing digest leaves 32 zero bytes
  unfoldable pub step_up_of : Server → Request → Option StepUp
  step_up_of s req = elim req.step_up_sig [
    | [] ↦ none
    | b ∷ sig ↦ some (record {
      digest = elim (approval_digest env req s.cfg.chain_id s.cfg.registry_addr) [
        | none ↦ hex_str (replicate 32 0)
        | some d ↦ hex_str d
      ];
      sig = hex_str (b ∷ sig);
    })
  ]

  unfoldable pub mint_input :
      Server → Request → Tenant → AgentGrant → ResourceClaims → Text → MintInput
  unfolding step_up_of
  mint_input s req t grant res agent_id = record {
    psa = t.psa;
    psa_blob_url = s.cfg.issuer_url ++ (codes "/psa/" ++ t.root);
    grant = grant;
    resource = res;
    agent_id = agent_id;
    agent_key = agent_key_from_grant grant;
    mission = some (record { approver = s.cfg.issuer_url; s256 = grant.mission_scope_s256 });
    step_up = step_up_of s req;
    claims = [];
    ttl = hour;
  }

  unfoldable pub finish_with :
      Server → ℤ → Request → ℕ → Text → Result MintError Text → Reply × Server
  unfolding log_at refused
  finish_with s now req a agent_id (err e) = (refused e, s)
  finish_with s now req a agent_id (ok tok) = (
    issued tok,
    record s { tenants = log_at env s.tenants a agent_id (note (codes "token_issued") req.id now) },
  )

  -- with the first of the issuer keys
  unfoldable pub finish_by :
      List IssuerKey → Server → ℤ → Bytes → Request → ℕ → Text → MintInput → Reply × Server
  unfolding finish_with
  finish_by [] s now rand req a agent_id inp = (panicked, s)
  finish_by (key ∷ keys) s now rand req a agent_id inp =
      finish_with s now req a agent_id (mint env key inp now rand)

  unfoldable pub finish :
      Server
      → ℤ
      → Bytes
      → Request
      → ℕ × Tenant
      → AgentGrant
      → ResourceClaims
      → Text
      → Reply × Server
  unfolding finish_by mint_input
  finish s now rand req (a, t) grant res agent_id =
      finish_by s.cfg.issuer_keys s now rand req a agent_id (mint_input s req t grant res agent_id)

  -- the checks of `token`
  unfoldable pub token_checks :
      Server
      → Option (Text × Text)
      → Option Text
      → Result Reply (Text × ((ℕ × Tenant) × (AgentGrant × ResourceClaims)))
  token_checks s signer body = do
    (thumb, agent_id) ← or_fail signer (failed 401 (codes "invalid_signature"))
    (a, t) ← or_fail (tenant_of_agent s.tenants agent_id) (failed 403 (codes "no_agent_grant"))
    grant ← or_fail (lookup agent_id t.grants) (failed 403 (codes "no_agent_grant"))
    fail_if (text_ne grant.agent_thumbprint thumb) (failed 403 (codes "no_agent_grant"))
    raw ← or_fail body (failed 400 (codes "invalid_request"))
    res ← or_fail (parse_resource_token env raw) (failed 400 (codes "invalid_request"))
    wrap_err (λ e. failed 403 (codes "mission_inconsistent"))
        (consistent agent_id grant.mission_scope_s256 res.scope res.amount_wei)
    ok (agent_id, ((a, t), (grant, res)))

  unfoldable pub new_request :
      ℤ → Bytes → Bytes → Text → Scope → AgentGrant → ResourceClaims → Request
  unfolding tier_for new_id new_code marshal_resource
  new_request now id code agent_id scope grant res = record {
    id = new_id id;
    code = new_code code;
    agent_id = agent_id;
    resource = res.iss;
    amount_wei = res.amount_wei;
    scope_req = res.scope;
    mission_s256 = grant.mission_scope_s256;
    tier = tier_for scope res;
    state = pending;
    created_at = now;
    expires_at = now +ℤ pos 600000000000;
    resource_json = marshal_resource env res;
    step_up_sig = [];
  }

  unfoldable pub token_granted :
      Server
      → ℤ
      → Bytes
      → Bytes
      → Bytes
      → Text × ((ℕ × Tenant) × (AgentGrant × ResourceClaims))
      → Reply × Server
  unfolding new_request is_elevated log_at
  token_granted s now id code rand (agent_id, ((a, t), (grant, res))) =
      let req = new_request now id code agent_id t.psa.scope grant res in
      let s' = record s {
        pending_store = create s.pending_store req;
        tenants = log_at env s.tenants a agent_id (note (codes "token_request") req.id now);
      } in
      if not (is_elevated req.tier) && auto_approvable agent_id res.scope res.amount_wei
      then finish (record s' { pending_store = (approve_routine s'.pending_store now req.code).1 })
          now rand req (a, t) grant res agent_id
      else (interaction (s.cfg.issuer_url ++ (codes "/approve/" ++ req.code)) req.code req.tier, s')

  -- the body is the resource token; its mission is not used
  unfoldable pub token :
      Server → ℤ → Bytes → Bytes → Bytes → Option (Text × Text) → Option Text → Reply × Server
  unfolding token_checks token_granted
  token s now id code rand signer body =
      answer s (token_checks s signer body) (token_granted s now id code rand)

  -- An approved request whose agent has lost its tenant or its grant finds a nil pointer.
  unfoldable pub finish_granted :
      Server → ℤ → Bytes → Request → Text → ℕ × Tenant → Option AgentGrant → Reply × Server
  finish_granted s now rand req agent_id at none = (panicked, s)
  finish_granted s now rand req agent_id at (some grant) =
      finish s now rand req at grant (resource_of env req) agent_id

  unfoldable pub finish_found :
      Server → ℤ → Bytes → Request → Text → Option (ℕ × Tenant) → Reply × Server
  unfolding finish_granted
  finish_found s now rand req agent_id none = (panicked, s)
  finish_found s now rand req agent_id (some (a, t)) =
      finish_granted s now rand req agent_id (a, t) (lookup agent_id t.grants)

  unfoldable pub poll_state : Server → ℤ → Bytes → Request → Text → State → Reply × Server
  unfolding finish_found
  poll_state s now rand req agent_id pending = (still_pending, s)
  poll_state s now rand req agent_id approved =
      finish_found s now rand req agent_id (tenant_of_agent s.tenants agent_id)
  poll_state s now rand req agent_id denied = (failed 403 (codes "denied"), s)
  poll_state s now rand req agent_id expired = (failed 410 (codes "expired"), s)

  unfoldable pub poll_answer :
      Server
      → ℤ
      → Bytes
      → Text
      → Result ConsentStore.Error Request × ConsentStore.Store
      → Reply × Server
  unfolding poll_state
  poll_answer s now rand agent_id (err e, c) =
      (failed 404 (codes "unknown_request"), record s { pending_store = c })
  poll_answer s now rand agent_id (ok req, c) =
      if text_ne req.agent_id agent_id
      then (failed 404 (codes "unknown_request"), record s { pending_store = c })
      else poll_state (record s { pending_store = c }) now rand req agent_id req.state

  unfoldable pub poll : Server → ℤ → Bytes → Option (Text × Text) → Text → Reply × Server
  unfolding poll_answer
  poll s now rand none id = (failed 401 (codes "invalid_signature"), s)
  poll s now rand (some (thumb, agent_id)) id =
      poll_answer s now rand agent_id (ConsentStore.poll s.pending_store now id)

  unfoldable pub step_up_answer :
      Server → Result ConsentStore.Error (Unit {0}) × ConsentStore.Store → Reply × Server
  step_up_answer s (err e, c) =
      (failed 403 (codes "step_up_failed"), record s { pending_store = c })
  step_up_answer s (ok _, c) = (approved_step_up, record s { pending_store = c })

  -- The root is that of the tenant of the request's agent.
  unfoldable pub sign_checks : Server → Text → Option Text → Result Reply (Text × Tenant)
  unfolding code_failed
  sign_checks s code body = do
    signature ← or_fail body (failed 400 (codes "invalid_request"))
    (a, req) ← wrap_err code_failed (by_code_locked s.pending_store code)
    (b, t) ← or_fail (tenant_of_agent s.tenants req.agent_id) (failed 404 (codes "unknown_tenant"))
    ok (signature, t)

  unfoldable pub sign_with : Server → ℤ → Text → Text × Tenant → Reply × Server
  unfolding step_up_answer
  sign_with s now code (signature, t) = step_up_answer s (
      ConsentStore.approve_elevated env s.pending_store now code t.root s.cfg.chain_id
        s.cfg.registry_addr (hex_bytes signature))

  -- the body is the signature
  unfoldable pub approve_elevated : Server → ℤ → Text → Option Text → Reply × Server
  unfolding sign_checks sign_with
  approve_elevated s now code body = answer s (sign_checks s code body) (sign_with s now code)

  unfoldable pub click_answer :
      Server → Text → Result ConsentStore.Error (Unit {0}) × ConsentStore.Store → Reply × Server
  click_answer s code (err e, c) =
      (failed 409 (codes "cannot_approve"), record s { pending_store = c })
  click_answer s code (ok _, c) = (approved_click code, record s { pending_store = c })

  unfoldable pub ask_signature : Server → Text → Request → Option Bytes → Reply × Server
  ask_signature s code req none = (failed 500 (codes "digest_error"), s)
  ask_signature s code req (some d) = (
    to_sign req (hex_str d)
        (s.cfg.issuer_url ++ (codes "/approve/" ++ (code ++ codes "/signature"))),
    s,
  )

  unfoldable pub click_found : Server → ℤ → Text → ℕ × Request → Reply × Server
  unfolding click_answer ask_signature is_elevated
  click_found s now code (a, req) =
      if is_elevated req.tier
      then ask_signature s code req (approval_digest env req s.cfg.chain_id s.cfg.registry_addr)
      else click_answer s code (approve_routine s.pending_store now code)

  unfoldable pub approve_page : Server → ℤ → Text → Reply × Server
  unfolding click_found code_failed
  approve_page s now code =
      answer s (wrap_err code_failed (by_code_locked s.pending_store code)) (click_found s now code)
