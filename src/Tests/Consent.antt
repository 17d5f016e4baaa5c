-- ===== src/Tests/Consent.antt =====
-- Requests, on a run of two calls: an elevated request is created, signed and approved, and then a
-- late denial finds it decided.
use signet_ps.Base.{
  get_elem?, set, replicate, ℤ, pos, lookup, insert, Bytes, Text, codes, text_eq, ◌≡◌, refl, none,
  some, [],
}
use signet_ps.Consent.{elevated, pending, approved, Request}
use signet_ps.Consent.Digest.{normalize_hex, addr_eq, approval_digest, verify_eoa_sig}
use signet_ps.Consent.Store.{
  new_store, is_late, create, deref, by_code_locked, settle, transition, put_step_up_sig,
  check_step_up,
}
use signet_ps.Consent.Concurrent.{
  sig_checked, sig_written, deny_found, System, run_task, start, creates, signs, denies, runs,
  Reach, boot, next,
}
use signet_ps.Consent.Concurrent.Finality.{Steps, stay, more, decided_is_final}
use signet_ps.Consent.Concurrent.Safety.{IsCalled, approved_is_signed}
use signet_ps.Consent.Digest.Meaning.{IsStepUp}
use signet_ps.Std.Strings.{to_lower}
use signet_ps.Tests.Fixture.{env}

abbrev request : Request
request = record {
  id = codes "r1";
  code = codes "c1";
  agent_id = codes "a";
  resource = codes "https://r";
  amount_wei = codes "50";
  scope_req = none;
  mission_s256 = codes "00";
  tier = elevated;
  state = pending;
  created_at = pos 0;
  expires_at = pos 100;
  resource_json = [];
  step_up_sig = [];
}

abbrev root_sig : Bytes
root_sig = replicate 65 3

abbrev sys0 : System
sys0 = record { store = new_store; tasks = [] }

abbrev sys1 : System
sys1 = record sys0 { store = create sys0.store request }

abbrev sys2 : System
sys2 = start sys1 (sig_checked 0 root_sig)

abbrev sys3 : System
sys3 = record {
  store = (run_task (pos 5) (sig_checked 0 root_sig) sys2.store).0;
  tasks = set sys2.tasks 0 (run_task (pos 5) (sig_checked 0 root_sig) sys2.store).1;
}

abbrev sys4 : System
sys4 = record {
  store = (run_task (pos 6) (sig_written 0) sys3.store).0;
  tasks = set sys3.tasks 0 (run_task (pos 6) (sig_written 0) sys3.store).1;
}

abbrev sys5 : System
sys5 = start sys4 (deny_found 0)

abbrev sys6 : System
sys6 = record {
  store = (run_task (pos 7) (deny_found 0) sys5.store).0;
  tasks = set sys5.tasks 1 (run_task (pos 7) (deny_found 0) sys5.store).1;
}

abbrev signed_request : Request
signed_request = record request { state = approved; step_up_sig = root_sig }

reach4 : Reach env sys4
unfolding create by_code_locked text_eq lookup insert check_step_up verify_eoa_sig approval_digest
    put_step_up_sig addr_eq deref normalize_hex to_lower run_task is_late transition settle
reach4 =
    next
      (next
        (next (next boot (creates request refl))
          (signs (codes "c1") (codes "0xab") (pos 1) (codes "0x01") root_sig 0 request refl refl))
        (runs (pos 5) 0 (sig_checked 0 root_sig) refl))
      (runs (pos 6) 0 (sig_written 0) refl)

late_denial : Steps env sys4 sys6
unfolding create by_code_locked text_eq lookup insert put_step_up_sig deref transition settle
    is_late run_task
late_denial =
    more (more stay (denies (codes "c1") 0 signed_request refl))
      (runs (pos 7) 1 (deny_found 0) refl)

approved_is_signed_example :
    (root : Text) × (chain_id : ℤ) × (registry : Text) × IsCalled env reach4
      (codes "r1")
      (codes "a")
      root
      chain_id
      registry
    × IsStepUp env root signed_request chain_id registry root_sig
unfolding create put_step_up_sig transition settle is_late run_task lookup insert text_eq
approved_is_signed_example = approved_is_signed env sys4 0 signed_request reach4 refl refl refl

decided_is_final_example :
    (r' : Request) × (get_elem? sys6.store.heap 0 ≡ some r')
    × (r' ≡ record signed_request { step_up_sig = r'.step_up_sig })
unfolding create put_step_up_sig transition settle is_late run_task lookup insert text_eq
decided_is_final_example = decided_is_final env 0 signed_request late_denial refl (λ e. cc)
