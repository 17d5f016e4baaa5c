-- ===== src/Tests/Welcome.antt =====
-- A server that onboards a root and enrolls an agent, and a resource that admits the agent.
use signet_ps.Base.{
  if◌then◌else◌, replicate, ℤ, pos, floor_div, ◌+ℤ◌, ◌*ℤ◌, wrap64, lookup, insert, Bytes, Text,
  codes, text_eq, text_eq_refl, contains, ok, ◌≡◌, refl, ap, subst, true, false, Option, none, some,
  [], ◌∷◌, arith,
}
use signet_ps.Std.Strings.{strip_prefix, trim_end}
use signet_ps.Std.Base64.{raw_url_encode, raw_url_decode}
use signet_ps.Std.Hex.{hex_encode}
use signet_ps.Env.{Json, Env}
use signet_ps.Attest.Address.{addr_eq}
use signet_ps.Attest.Digest.{psa_digest, agent_grant_digest}
use signet_ps.Attest.Content.{psa_json, agent_grant_json, content_hash}
use signet_ps.Attest.Verify.{unix, is_eoa_sig, verify_root_sig, verify_psa, verify_agent_grant}
use signet_ps.Missions.{new_log, append}
use signet_ps.Store.Tenants as TenantStore
use signet_ps.Store.Tenants.{
  Tenant, Tenants, tenant_of_root, tenant_of_agent, enroll, grant_by_s256, first_covered,
  verify_and_onboard,
}
use signet_ps.Store.Tenants.WellFormed.{IsWellFormed}
use signet_ps.Consent.{Request, routine, approved}
use signet_ps.Tokens.{AuthClaims, ResourceClaims, thumbprint}
use signet_ps.Tokens.Jwt.{sign_jwt}
use signet_ps.Tokens.Jwt.Claims.{header_json, claims_json}
use signet_ps.Tokens.Jwt.Signed.{auth_header, CanSign}
use signet_ps.Tokens.Mint.{
  apply_vouched, clamp_ttl, max_ttl, minted_claims, mint, claims_allowed, check_payment_envelope,
}
use signet_ps.Server.Helpers.{empty_resource}
use signet_ps.Server.State.{
  Config, Server, new_server, Reply, issued, served_psa, served_grant, note, log_at, key_thumbs,
}
use signet_ps.Server.Handlers.{mint_input, finish}
use signet_ps.Server.Lifecycle.{onboard, enroll_agent, serve_psa, serve_grant}
use signet_ps.Server.Pages.{jwks}
use signet_ps.Server.Requests.{onboards, enrolls}
use signet_ps.Server.Stable.{IsReachable, starts, serves}
use signet_ps.Server.Tenancy.{reachable-IsWellFormed}
use signet_ps.Resd.Resolvers.{Web, base_url}
use signet_ps.Resd.Resolvers.Published.{IsPublished}
use signet_ps.Resd.Handlers.{Resource, admit}
use signet_ps.Resd.Welcome.{IsVisible, issued_is_admitted}
use signet_ps.Tests.Resd.{psa_typed, grant_typed}
use signet_ps.Tests.Tokens.{marshal_AreBytes}
use signet_ps.Tests.Fixture.{env_of, env, agent_key, issuer_key, psa, grant}

abbrev pub cfg : Config
cfg = record {
  issuer_url = codes "https://ps";
  issuer_keys = issuer_key ∷ [];
  registry = λ c a r n. some false;
  chain_id = pos 1;
  registry_addr = codes "0x01";
}

abbrev pub agent : Text
agent = codes "aauth:a@x"

abbrev pub minting : ℤ
minting = pos 1000000000000

abbrev pub tenant : Env → Tenant
tenant e = record {
  root = codes "0xab";
  psa = psa;
  grants = (agent, grant) ∷ [];
  log = append e new_log agent (note (codes "agent_enrolled") [] minting);
}

-- what the two requests make of a new server
abbrev pub after : Env → Server
after e = record (new_server cfg) {
  tenants = record {
    heap = tenant e ∷ [];
    by_root = (codes "0xab", 0) ∷ [];
    by_agent = (agent, codes "0xab") ∷ [];
    by_grant_s256 = (content_hash e (agent_grant_json grant), grant) ∷ [];
  };
}

abbrev request : Request
request = record {
  id = codes "r1";
  code = codes "c1";
  agent_id = agent;
  resource = codes "https://r";
  amount_wei = [];
  scope_req = none;
  mission_s256 = codes "00";
  tier = routine;
  state = approved;
  created_at = pos 0;
  expires_at = pos 2000000000000;
  resource_json = [];
  step_up_sig = [];
}

abbrev asked : ResourceClaims
asked = record empty_resource { iss = codes "https://r" }

abbrev sixteen : Bytes
sixteen = replicate 16 1

abbrev claims : Env → AuthClaims
claims e =
    minted_claims e (mint_input e (after e) request (tenant e) grant asked agent) minting sixteen

-- the environment whose parser knows the token
abbrev pub token_env : Env
token_env =
    env_of (header_json (auth_header env issuer_key (codes "auth+jwt"))) (claims_json (claims env))

abbrev one_tenant : Json → Json → Server
one_tenant h b = (onboard (env_of h b) (new_server cfg) minting (some psa)).1

enrolled_state :
    (h b : Json)
    → (enroll_agent
        (env_of h b)
        (one_tenant h b)
        minting
        (some (thumbprint (env_of h b) agent_key, agent))
        (some grant)).1
      ≡ after (env_of h b)
unfolding onboard verify_and_onboard tenant_of_root lookup insert text_eq verify_psa unix floor_div
    psa_digest verify_root_sig is_eoa_sig addr_eq thumbprint raw_url_encode contains key_thumbs
    first_covered TenantStore.onboard enroll_agent enroll verify_agent_grant agent_grant_digest
    log_at
enrolled_state h b = refl

pub reachable : (h b : Json) → IsReachable (env_of h b) cfg (after (env_of h b))
reachable h b =
    subst (λ (s : Server). IsReachable (env_of h b) cfg s) (enrolled_state h b)
      (serves (serves starts (onboards minting (some psa)))
        (enrolls minting (some (thumbprint (env_of h b) agent_key, agent)) (some grant)))

reachable-IsWellFormed_example :
    IsWellFormed token_env (codes "https://ps") (after token_env).tenants
reachable-IsWellFormed_example = reachable-IsWellFormed token_env (reachable _ _)

-- what the pages of the server say
abbrev page : Reply → Option Json
page (served_psa p) = some (psa_json p)
page (served_grant g) = some (agent_grant_json g)
page r = none

abbrev web : Web
web url = elim (strip_prefix (codes "https://ps/psa/") url) [
  | some root ↦ page (serve_psa (after token_env) root)
  | none ↦ elim (strip_prefix (codes "https://ps/grants/") url) [
    | some s256 ↦ page (serve_grant (after token_env) s256)
    | none ↦
        if text_eq url (codes "https://ps/jwks.json") then some (jwks (after token_env)) else none
  ]
]

published : IsPublished web (after token_env)
unfolding strip_prefix text_eq base_url trim_end
published = record {
  no_slash = refl;
  keys = refl;
  psas = λ root p h. ap page h;
  grants = λ s256 g h. ap page h;
}

visible : IsVisible token_env web (after token_env) (tenant token_env) grant (pos 1010000000000)
unfolding serve_grant grant_by_s256 lookup text_eq content_hash hex_encode thumbprint raw_url_encode
    unix floor_div
visible = record {
  published = published;
  no_fragment = ground arith;
  typed_psa = psa_typed;
  typed_grant = grant_typed;
  by_hash = refl;
  psa_window = (omega arith, omega arith);
  grant_window = (omega arith, omega arith);
  own_key = refl;
}

can_sign : CanSign token_env issuer_key (codes "auth+jwt") (claims token_env)
unfolding raw_url_decode text_eq header_json claims_json minted_claims mint_input clamp_ttl max_ttl
    unix floor_div wrap64 ◌*ℤ◌ ◌+ℤ◌ content_hash
can_sign = record {
  private_size = refl;
  public = replicate 32 0;
  encoded = refl;
  public_size = refl;
  verifies = λ m. refl;
  sig_bytes = λ m. omega arith;
  json_bytes = marshal_AreBytes;
  header_readable = refl;
  claims_readable = refl;
  iat_fits = (omega arith, omega arith);
  exp_fits = (omega arith, omega arith);
}

abbrev shown_token : Text
shown_token = sign_jwt token_env issuer_key (codes "auth+jwt") (claims token_env)

finished :
    (finish token_env
      (after token_env)
      minting
      sixteen
      request
      (0, tenant token_env)
      grant
      asked
      agent).0
    ≡ issued shown_token
unfolding finish mint mint_input minted_claims contains thumbprint raw_url_encode claims_allowed
    check_payment_envelope text_eq apply_vouched
finished = refl

abbrev resource : Resource
resource = record {
  self = codes "https://r";
  priv = [];
  require_key_rooted = true;
  amount = [];
  scope = [];
}

issued_is_admitted_example :
    (admit token_env web resource [] (pos 1010000000000) shown_token grant.agent_thumbprint).0
    ≡ ok (claims token_env)
unfolding tenant_of_agent tenant_of_root lookup text_eq unix floor_div minted_claims mint_input
    clamp_ttl max_ttl wrap64 ◌*ℤ◌ ◌+ℤ◌
issued_is_admitted_example =
    issued_is_admitted token_env (reachable _ _) web (pos 1010000000000) agent 0 (tenant token_env)
      grant refl refl visible issuer_key [] refl request asked minting sixteen resource [] 600
      shown_token finished refl can_sign text_eq_refl refl (omega arith) (omega arith) refl
