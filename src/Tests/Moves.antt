-- ===== src/Tests/Moves.antt =====
-- An elevated request of an enrolled agent, from the request to the approval.
use signet_ps.Base.{
  get_elem?, replicate, pos, ◌+ℤ◌, lookup, insert, Text, codes, text_eq, ok, ◌≡◌, refl, ◌≢◌, some,
  [], ◌∷◌,
}
use signet_ps.Std.Strings.{split, to_lower, equal_fold}
use signet_ps.Std.Hex.{hex_encode, hex_decode}
use signet_ps.Std.Base64.{raw_url_encode, raw_url_decode}
use signet_ps.Std.Decimal.{set_string}
use signet_ps.Env.{null, text, obj, end, field, Env}
use signet_ps.Env.Decode.{get_text, get_struct, names}
use signet_ps.Consent.{approved, Request}
use signet_ps.Consent.Digest as ConsentDigest
use signet_ps.Consent.Digest.{normalize_hex, addr_eq, approval_digest, verify_eoa_sig}
use signet_ps.Consent.Store as ConsentStore
use signet_ps.Consent.Store.{
  Store, is_late, create, deref, by_code_locked, settle, transition, put_step_up_sig, check_step_up,
  new_store,
}
use signet_ps.Missions.{consistent, auto_approvable}
use signet_ps.Store.Tenants.{tenant_of_root, tenant_of_agent}
use signet_ps.Tokens.{thumbprint, big_or_zero}
use signet_ps.Server.Helpers.{
  tier_for, empty_resource, new_id, new_code, hex_str, hex_bytes, parse_resource_token,
}
use signet_ps.Server.State.{Server, panicked, log_at}
use signet_ps.Server.Handlers.{token_checks, new_request, token_granted, token, approve_elevated}
use signet_ps.Attest.{PersonServerAuthorization}
use signet_ps.Missions.{Log, append, export as export_log}
use signet_ps.Missions.Chain.{IsLog}
use signet_ps.Store.Tenants.{Tenant}
use signet_ps.Server.State.{exported, note}
use signet_ps.Server.Lifecycle.{export}
use signet_ps.Server.Requests.{Steps, stay, more, asks, signs}
use signet_ps.Server.History.Exported.{Continues, export-Continues}
use signet_ps.Server.History.Linked.{reachable-IsLog}
use signet_ps.Server.Stable.{IsReachable, serves}
use signet_ps.Server.Routes.{get_pending, serve}
use signet_ps.Server.Moves.Signed.{approved_by_root}
use signet_ps.Server.Moves.Atomic.{IsIdle, reachable-IsIdle}
use signet_ps.Server.Moves.Calm.{serve-ne-panicked}
use signet_ps.Tests.Fixture.{env_of, psa, grant}
use signet_ps.Tests.Welcome as Welcome

-- the environment whose parser reads every token of a resource as a payment of 50
abbrev paying_env : Env
paying_env = env_of null (
    obj (
      field (codes "iss") (text (codes "https://r"))
        (field (codes "amount") (text (codes "50")) end)))

abbrev paying_request : Request
paying_request =
    new_request paying_env Welcome.minting (1 ∷ []) (2 ∷ []) Welcome.agent psa.scope grant
      (record empty_resource { iss = codes "https://r"; amount_wei = codes "50" })

abbrev paying : Server
paying =
    (token paying_env (Welcome.after paying_env) Welcome.minting (1 ∷ []) (2 ∷ []) []
      (some (grant.agent_thumbprint, Welcome.agent)) (some (codes "a.AA.c"))).1

abbrev paid : Server
paid =
    (approve_elevated paying_env paying Welcome.minting (new_code (2 ∷ []))
      (some (hex_str (replicate 65 3)))).1

paid-IsReachable : IsReachable paying_env Welcome.cfg paid
paid-IsReachable =
    serves
      (serves (Welcome.reachable _ _) (
        asks Welcome.minting (1 ∷ []) (2 ∷ []) [] (some (grant.agent_thumbprint, Welcome.agent))
          (some (codes "a.AA.c"))))
      (signs Welcome.minting (new_code (2 ∷ [])) (some (hex_str (replicate 65 3))))

abbrev approved_request : Request
approved_request = record paying_request { state = approved; step_up_sig = replicate 65 3 }

paid_at : get_elem? paid.pending_store.heap 0 ≡ some approved_request
unfolding token token_checks token_granted tenant_of_agent lookup text_eq tenant_of_root thumbprint
    raw_url_encode parse_resource_token split raw_url_decode get_struct names equal_fold get_text
    consistent auto_approvable approve_elevated ConsentStore.approve_elevated by_code_locked deref
    check_step_up approval_digest verify_eoa_sig ConsentDigest.addr_eq ConsentDigest.normalize_hex
    to_lower put_step_up_sig transition settle is_late hex_bytes hex_str hex_decode hex_encode
    create insert new_request ◌+ℤ◌ tier_for big_or_zero set_string log_at
paid_at = refl

approved_by_root_example :
    (root digest : Text) × (lookup Welcome.agent paid.tenants.by_agent ≡ some root)
    × (approval_digest paying_env approved_request (pos 1) (codes "0x01") ≡ some digest)
    × (verify_eoa_sig paying_env root digest (replicate 65 3) ≡ ok tt)
unfolding new_request tier_for text_eq big_or_zero set_string approve_elevated lookup
    approval_digest verify_eoa_sig
approved_by_root_example =
    approved_by_root paying_env 0 approved_request paid-IsReachable paid_at refl refl

reachable-IsIdle_example : IsIdle paying_env paid.pending_store
reachable-IsIdle_example = reachable-IsIdle paying_env paid-IsReachable

serve-ne-panicked_example :
    (serve paying_env
      (Welcome.after paying_env)
      Welcome.minting
      (get_pending [] (some (codes "t", Welcome.agent)) (new_id (1 ∷ [])))).0
    ≢ panicked
serve-ne-panicked_example =
    serve-ne-panicked paying_env Welcome.minting
      (get_pending [] (some (codes "t", Welcome.agent)) (new_id (1 ∷ []))) (Welcome.reachable _ _)
      refl

-- what the tenant exports before the request and its approval, and what it exports then
from_request_to_approval : Steps paying_env (Welcome.after paying_env) paid
from_request_to_approval =
    more
      (more stay (
        asks Welcome.minting (1 ∷ []) (2 ∷ []) [] (some (grant.agent_thumbprint, Welcome.agent))
          (some (codes "a.AA.c"))))
      (signs Welcome.minting (new_code (2 ∷ [])) (some (hex_str (replicate 65 3))))

exported_before :
    export (Welcome.after paying_env) (some (codes "0xab"))
    ≡ exported psa (Welcome.tenant paying_env).log
unfolding export tenant_of_root lookup text_eq export_log
exported_before = refl

export-Continues_example :
    (p : PersonServerAuthorization) × (log : Log) × (export paid (some (codes "0xab"))
      ≡ exported p log)
    × Continues paying_env (Welcome.tenant paying_env).log log
export-Continues_example =
    export-Continues paying_env (codes "0xab") psa (Welcome.tenant paying_env).log
      from_request_to_approval exported_before

-- the log of the tenant with the request
abbrev paid_tenant : Tenant
paid_tenant = record (Welcome.tenant paying_env) {
  log =
      append paying_env (Welcome.tenant paying_env).log Welcome.agent
        (note (codes "token_request") (new_id (1 ∷ [])) Welcome.minting);
}

paid_tenant_at : get_elem? paid.tenants.heap 0 ≡ some paid_tenant
unfolding token token_checks token_granted tenant_of_agent lookup text_eq tenant_of_root thumbprint
    raw_url_encode parse_resource_token split raw_url_decode get_struct names equal_fold get_text
    consistent auto_approvable approve_elevated ConsentStore.approve_elevated by_code_locked deref
    check_step_up approval_digest verify_eoa_sig ConsentDigest.addr_eq ConsentDigest.normalize_hex
    to_lower put_step_up_sig transition settle is_late hex_bytes hex_str hex_decode hex_encode
    create insert new_request ◌+ℤ◌ tier_for big_or_zero set_string log_at
paid_tenant_at = refl

reachable-IsLog_example : IsLog paying_env paid_tenant.log
reachable-IsLog_example = reachable-IsLog paying_env 0 paid_tenant paid-IsReachable paid_tenant_at
