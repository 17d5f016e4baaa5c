-- ===== src/Tests/Server.antt =====
-- A server with one tenant and one approved request.

use signet_ps.Server.Lifecycle.{onboard, enroll_agent}
use signet_ps.Store.Tenants as TenantStore
use signet_ps.Store.Tenants.{
  Tenant, Tenants, tenant_of_root, tenant_of_agent, enroll, grant_by_s256, first_covered,
  verify_and_onboard,
}
use signet_ps.Attest.Address.{addr_eq}
use signet_ps.Attest.Digest.{psa_digest, agent_grant_digest}
use signet_ps.Attest.Verify.{unix, is_eoa_sig, verify_root_sig, verify_psa, verify_agent_grant}
use signet_ps.Attest.Verify.Meaning.{PsaHolds, GrantHolds}
use signet_ps.Consent.Digest as ConsentDigest
use signet_ps.Consent.Digest.{approval_digest, verify_eoa_sig}
use signet_ps.Consent.Store.{
  Store, is_late, deref, by_code_locked, settle, transition, put_step_up_sig, check_step_up,
}
use signet_ps.Std.Strings.{to_lower}
use signet_ps.Std.Hex.{hex_encode, hex_decode}
use signet_ps.Server.Admission.{stepped_up_by_root, enrolled_is_granted, onboarded_is_authorized}
use signet_ps.Server.Helpers.{empty_resource, hex_str, hex_bytes, resource_of}
use signet_ps.Server.Handlers.{mint_input, finish, poll, approve_elevated}
use signet_ps.Server.State.{
  Server, onboarded, enrolled, issued, approved_step_up, key_thumbs, chain_at,
}
use signet_ps.Consent.Digest.Meaning.{IsStepUp}
use signet_ps.Base.{
  get_elem?, ◌≤ℤ◌, replicate, ℤ, pos, floor_div, lookup, insert, Text, codes, text_eq, contains, In,
  ok, ℕ, ◌≡◌, refl, false, none, some, [], ◌∷◌,
}
use signet_ps.Env.{elems}
use signet_ps.Tests.Fixture.{env, agent_key, issuer_key, psa, grant}
use signet_ps.Tokens.{thumbprint}
use signet_ps.Consent.{routine, elevated, pending, approved, Request}
use signet_ps.Consent.Store as ConsentStore
use signet_ps.Missions.{new_log}
use signet_ps.Tokens.Jwt.{sign_jwt}
use signet_ps.Tokens.Mint.{claims_allowed, check_payment_envelope, mint}
use signet_ps.Tokens.Mint.Times.{final_claims}
use signet_ps.Server.Issuing.{IsIssuable, poll_issues}
use signet_ps.Std.Base64.{raw_url_encode}

abbrev pub tenant : Tenant
tenant = record {
  root = codes "0xab";
  psa = psa;
  grants = (codes "aauth:a@x", grant) ∷ [];
  log = new_log;
}

abbrev pub done_request : Request
done_request = record {
  id = codes "r1";
  code = codes "c1";
  agent_id = codes "aauth:a@x";
  resource = codes "https://r";
  amount_wei = [];
  scope_req = none;
  mission_s256 = codes "00";
  tier = routine;
  state = approved;
  created_at = pos 0;
  expires_at = pos 100;
  resource_json = [];
  step_up_sig = [];
}

abbrev pub server : Server
server = record {
  cfg = record {
    issuer_url = codes "https://ps";
    issuer_keys = issuer_key ∷ [];
    registry = λ c a r n. some false;
    chain_id = pos 1;
    registry_addr = codes "0x01";
  };
  tenants = record {
    heap = tenant ∷ [];
    by_root = (codes "0xab", 0) ∷ [];
    by_agent = (codes "aauth:a@x", codes "0xab") ∷ [];
    by_grant_s256 = [];
  };
  pending_store = record {
    heap = done_request ∷ [];
    by_id = (codes "r1", 0) ∷ [];
    by_code = (codes "c1", codes "r1") ∷ [];
  };
}

abbrev issuing : ℤ
issuing = pos 50

abbrev issued_token : Text
issued_token = sign_jwt env issuer_key (codes "auth+jwt") (
    final_claims env
      (mint_input env server done_request tenant grant empty_resource (codes "aauth:a@x")) issuing
      [])

polled :
    (poll env server issuing [] (some (codes "t", codes "aauth:a@x")) (codes "r1")).0
    ≡ issued issued_token
unfolding poll ConsentStore.poll lookup text_eq tenant_of_agent tenant_of_root finish mint contains
    thumbprint raw_url_encode resource_of claims_allowed check_payment_envelope
polled = refl

poll_issues_example :
    (req : Request) × ((ConsentStore.poll server.pending_store issuing (codes "r1")).0 ≡ ok req)
    × (req.agent_id ≡ codes "aauth:a@x")
    × (req.state ≡ approved)
    × IsIssuable env server issuing req (codes "aauth:a@x") issued_token
poll_issues_example =
    poll_issues env server issuing [] (codes "t") (codes "aauth:a@x") (codes "r1") issued_token
      polled

enrolled_run :
    (enroll_agent env server issuing
      (some (thumbprint env agent_key, codes "aauth:a@x"))
      (some grant)).0
    ≡ enrolled (codes "0xab")
unfolding enroll_agent enroll tenant_of_root lookup insert text_eq verify_agent_grant unix floor_div
    agent_grant_digest verify_root_sig is_eoa_sig addr_eq thumbprint raw_url_encode
enrolled_run = refl

enrolled_is_granted_example :
    (a : ℕ) × (t : Tenant) × (tenant_of_root server.tenants (codes "0xab") ≡ some (a, t))
    × (t.root ≡ codes "0xab")
    × GrantHolds env
        (chain_at server issuing)
        grant
        (codes "0xab")
        (codes "aauth:a@x")
        (thumbprint env agent_key)
enrolled_is_granted_example =
    enrolled_is_granted env server issuing (thumbprint env agent_key) (codes "aauth:a@x")
      (codes "0xab") grant enrolled_run

onboarded_run :
    (onboard env server issuing (some psa)).0
    ≡ onboarded (codes "0xab") (codes "https://ps/psa/0xab")
unfolding onboard verify_and_onboard tenant_of_root lookup insert text_eq verify_psa unix floor_div
    psa_digest verify_root_sig is_eoa_sig addr_eq thumbprint raw_url_encode contains key_thumbs
    first_covered TenantStore.onboard
onboarded_run = refl

onboarded_is_authorized_example :
    let covered = first_covered (key_thumbs env server) (elems psa.key_thumbprints) in
    PsaHolds env (chain_at server issuing) psa (codes "https://ps") covered
    × In covered (key_thumbs env server)
onboarded_is_authorized_example =
    onboarded_is_authorized env server issuing psa (codes "0xab") (codes "https://ps/psa/0xab")
      onboarded_run

-- the server with the request waiting for a signature
abbrev waiting : Server
waiting = record server {
  pending_store = record server.pending_store {
    heap = record done_request { tier = elevated; state = pending } ∷ [];
  };
}

stepped_up_run :
    (approve_elevated env waiting issuing (codes "c1") (some (hex_str (replicate 65 3)))).0
    ≡ approved_step_up
unfolding approve_elevated ConsentStore.approve_elevated by_code_locked deref lookup text_eq
    tenant_of_agent tenant_of_root check_step_up approval_digest verify_eoa_sig
    ConsentDigest.addr_eq ConsentDigest.normalize_hex to_lower put_step_up_sig transition settle
    is_late hex_bytes hex_str hex_decode hex_encode
stepped_up_run = refl

stepped_up_by_root_example :
    (a : ℕ) × (r : Request) × (b : ℕ) × (t : Tenant) × (by_code_locked waiting.pending_store
        (codes "c1")
      ≡ ok (a, r))
    × (tenant_of_agent waiting.tenants r.agent_id ≡ some (b, t))
    × IsStepUp env t.root r (pos 1) (codes "0x01") (hex_bytes (hex_str (replicate 65 3)))
    × (r.state ≡ pending)
    × (issuing ≤ℤ r.expires_at)
    × (get_elem?
          (approve_elevated env waiting issuing
            (codes "c1")
            (some (hex_str (replicate 65 3)))).1.pending_store.heap
          a
        ≡ some (record r { state = approved; step_up_sig = hex_bytes (hex_str (replicate 65 3)) }))
stepped_up_by_root_example =
    stepped_up_by_root env waiting issuing (codes "c1") (hex_str (replicate 65 3)) stepped_up_run
