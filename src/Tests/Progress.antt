-- ===== src/Tests/Progress.antt =====
-- A routine request of an enrolled agent, from the request to the token.
use signet_ps.Base.{
  pos, ◌+ℤ◌, set, lookup, insert, codes, text_eq, contains, contains-iff-In, ℕ, ◌≡◌, refl, subst,
  inl, some, [], ◌∷◌, arith,
}
use signet_ps.Std.Strings.{split}
use signet_ps.Std.Hex.{hex_encode}
use signet_ps.Std.Strings.{equal_fold}
use signet_ps.Std.Base64.{raw_url_encode, raw_url_decode}
use signet_ps.Env.{null, text, obj, end, field, elems, Env}
use signet_ps.Env.Decode.{get_struct, get_text, names}
use signet_ps.Attest.{AgentGrant}
use signet_ps.Consent.{Request, pending, approved}
use signet_ps.Consent.Store as ConsentStore
use signet_ps.Consent.Store.{is_late, deref, by_code_locked, settle, transition, create, new_store}
use signet_ps.Consent.Concurrent.{System, run_task, click_checked}
use signet_ps.Missions.{append, consistent, auto_approvable}
use signet_ps.Store.Tenants.{Tenant, tenant_of_agent, tenant_of_root}
use signet_ps.Store.Tenants.WellFormed.{IsVouched, IsGranted}
use signet_ps.Tokens.{thumbprint}
use signet_ps.Tokens.Mint.Envelope.{InEnvelope}
use signet_ps.Server.Helpers.{
  resource_of, empty_resource, parse_resource_token, resource_of_json, new_id, new_code, tier_for,
}
use signet_ps.Server.State.{Server, issued, log_at, note}
use signet_ps.Server.Handlers.{
  mint_input, new_request, token, token_checks, token_granted, poll, approve_page,
}
use signet_ps.Server.Requests.{asks, clicks}
use signet_ps.Server.Stable.{IsReachable, serves}
use signet_ps.Server.Tenancy.{poll-IsGranted}
use signet_ps.Server.Progress.{IsPendingAt, token_for, approved_is_issued}
use signet_ps.Tests.Fixture.{env_of, issuer_key, psa, grant}
use signet_ps.Tests.Server.{server, tenant, done_request}
use signet_ps.Tests.Welcome as Welcome

abbrev waiting : Server
waiting = record server {
  pending_store = record server.pending_store {
    heap = record done_request { state = pending } ∷ [];
  };
}

abbrev clicked : System
clicked = record { store = waiting.pending_store; tasks = click_checked 0 ∷ [] }

abbrev polled : System
polled = record {
  store = (ConsentStore.poll clicked.store (pos 55) (codes "r1")).1;
  tasks = clicked.tasks;
}

abbrev done : System
done = record {
  store = (run_task (pos 60) (click_checked 0) polled.store).0;
  tasks = set polled.tasks 0 (run_task (pos 60) (click_checked 0) polled.store).1;
}

-- the environment whose parser reads every token of a resource as the same
abbrev asking_env : Env
asking_env = env_of null (obj (field (codes "iss") (text (codes "https://r")) end))

abbrev asked_request : Request
asked_request =
    new_request asking_env Welcome.minting (1 ∷ []) (2 ∷ []) Welcome.agent psa.scope grant
      (record empty_resource { iss = codes "https://r" })

abbrev asked : Server
asked = record (Welcome.after asking_env) {
  tenants =
      log_at asking_env (Welcome.after asking_env).tenants 0 Welcome.agent
        (note (codes "token_request") (new_id (1 ∷ [])) Welcome.minting);
  pending_store = create new_store asked_request;
}

asked_state :
    (token asking_env
      (Welcome.after asking_env)
      Welcome.minting
      (1 ∷ [])
      (2 ∷ [])
      []
      (some (grant.agent_thumbprint, Welcome.agent))
      (some (codes "a.AA.c"))).1
    ≡ asked
unfolding token token_checks token_granted tenant_of_agent lookup text_eq tenant_of_root thumbprint
    raw_url_encode parse_resource_token split raw_url_decode get_struct names equal_fold get_text
    consistent auto_approvable
asked_state = refl

abbrev new_entry_tenant : Tenant
new_entry_tenant = record (Welcome.tenant asking_env) {
  log =
      append asking_env (Welcome.tenant asking_env).log Welcome.agent
        (note (codes "token_request") (new_id (1 ∷ [])) Welcome.minting);
}

asked_at : IsPendingAt asked.pending_store (new_code (2 ∷ [])) 0 asked_request
unfolding create lookup insert text_eq new_request raw_url_encode hex_encode
asked_at = record { by_code = refl; by_id = refl; at = refl; waiting = refl }

asked-InEnvelope : InEnvelope asking_env issuer_key (
    mint_input asking_env asked
      (record asked_request { state = approved })
      new_entry_tenant
      grant
      (resource_of asking_env asked_request)
      Welcome.agent)
unfolding contains text_eq thumbprint raw_url_encode mint_input resource_of resource_of_json
    get_struct get_text names equal_fold new_request
asked-InEnvelope = record {
  covered =
      (contains-iff-In (elems psa.key_thumbprints) (thumbprint asking_env issuer_key.pub_jwk)).0
        refl;
  allowed = tt;
  payment = inl refl;
  private_size = refl;
}

asked-IsReachable : IsReachable asking_env Welcome.cfg asked
asked-IsReachable =
    subst (λ (s : Server). IsReachable asking_env Welcome.cfg s) asked_state
      (serves (Welcome.reachable _ _) (
        asks Welcome.minting (1 ∷ []) (2 ∷ []) [] (some (grant.agent_thumbprint, Welcome.agent))
          (some (codes "a.AA.c"))))

abbrev ready : Server
ready = (approve_page asking_env asked Welcome.minting (new_code (2 ∷ []))).1

ready_issues :
    (poll asking_env ready Welcome.minting [] (some (codes "t", Welcome.agent)) (new_id (1 ∷ []))).0
    ≡ issued (
        token_for asking_env asked issuer_key
          (record asked_request { state = approved })
          new_entry_tenant
          grant
          Welcome.minting
          [])
unfolding tenant_of_agent tenant_of_root lookup text_eq log_at new_request ◌+ℤ◌ tier_for
ready_issues =
    approved_is_issued asking_env asked Welcome.minting Welcome.minting [] (new_code (2 ∷ []))
      (codes "t") 0 asked_request 0 new_entry_tenant grant issuer_key [] asked_at refl (omega arith)
      refl refl refl asked-InEnvelope

poll-IsGranted_example :
    (a : ℕ) × (t : Tenant) × (g : AgentGrant) × (tenant_of_agent ready.tenants Welcome.agent
      ≡ some (a, t))
    × (lookup Welcome.agent t.grants ≡ some g)
    × (t.psa.root ≡ t.root)
    × IsVouched asking_env ready.cfg.issuer_url t.psa
    × IsGranted asking_env t.root Welcome.agent g
poll-IsGranted_example =
    poll-IsGranted asking_env Welcome.minting [] (codes "t") Welcome.agent (new_id (1 ∷ [])) _
      (serves asked-IsReachable (clicks Welcome.minting (new_code (2 ∷ [])))) ready_issues
