-- ===== src/Tests/Devtool.antt =====
-- A wallet whose signer answers with a constant, and what its tool signs.
use signet_ps.Base.{
  Text, ◌≢◌, replicate, pos, floor_div, Bytes, codes, text_eq, contains, contains-iff-In, ok, ◌≡◌,
  ◌≢◌, refl, subst, none, some, [], ◌∷◌, ◌++◌, arith,
}
use signet_ps.Std.Hex.{hex_encode, AreBytes}
use signet_ps.Std.Strings.{to_lower}
use signet_ps.Std.Base64.{raw_url_encode}
use signet_ps.Env.{elems}
use signet_ps.Attest.{PersonServerAuthorization, AgentGrant}
use signet_ps.Attest.Address.{addr_eq}
use signet_ps.Attest.Digest.{psa_digest}
use signet_ps.Attest.Verify.{unix, normalize_v, verify_psa, verify_agent_grant}
use signet_ps.Consent.{Request, elevated, pending}
use signet_ps.Consent.Digest as ConsentDigest
use signet_ps.Consent.Digest.{approval_digest}
use signet_ps.Consent.Store.{check_step_up}
use signet_ps.Tokens.{thumbprint}
use signet_ps.Server.Helpers.{hex_str, hex_bytes}
use signet_ps.Attest.Verify as AttestVerify
use signet_ps.Std.Decimal.{show_nat}
use signet_ps.Std.Decimal.Uint.{parse_uint}
use signet_ps.Store.Registry.{MemoryRegistry, revoke, is_revoked}
use signet_ps.Dev.{dev_revoke, revoke_query}
use signet_ps.Dev.Revoked.{revoked_is_refused}
use signet_ps.Devtool.{load_root, Wallet, RootFile, sign_psa, sign_approval, sign_digest, root_of}
use signet_ps.Devtool.Accepted.{IsRootKey, sign_psa-verify_psa, sign_approval-check_step_up}
use signet_ps.Tests.Fixture.{env, issuer_key, psa, chain}

abbrev pub key_signature : Bytes
key_signature = replicate 64 3 ++ 1 ∷ []

abbrev pub wallet : Wallet
wallet = record {
  hex_to_ecdsa = λ t. some (9 ∷ []);
  from_ecdsa = λ k. k;
  public_key = λ k. 4 ∷ [];
  sign = λ digest k. some key_signature;
}

abbrev root_file : RootFile
root_file = record { address = codes "0xAB"; priv = codes "09" }

pub signature_bytes : AreBytes key_signature
signature_bytes = omega arith

pub some_injective : {s t : Bytes} → some s ≡ some t → s ≡ t
some_injective h = cc

root_file_key : IsRootKey env wallet root_file (9 ∷ [])
unfolding normalize_v
root_file_key = record {
  opens = refl;
  owns = refl;
  size = λ digest sig h. ground (arith, h);
  low_v = λ digest sig h. cc;
  recovers = λ digest sig h. refl;
  bytes = λ digest sig h. subst (λ (x : Bytes). AreBytes x) (some_injective h) signature_bytes;
}

abbrev signed_psa : PersonServerAuthorization
signed_psa = record psa { root = codes "0xAB"; signature = some key_signature }

sign_psa-verify_psa_example :
    verify_psa env chain signed_psa (codes "https://ps") (thumbprint env issuer_key.pub_jwk) ≡ ok tt
unfolding sign_psa sign_digest root_of psa_digest addr_eq text_eq unix floor_div contains thumbprint
    raw_url_encode
sign_psa-verify_psa_example =
    sign_psa-verify_psa env wallet root_file (9 ∷ []) (record psa { root = [] }) signed_psa chain
      (thumbprint env issuer_key.pub_jwk) root_file_key refl refl (omega arith, omega arith)
      ((contains-iff-In (elems psa.key_thumbprints) (thumbprint env issuer_key.pub_jwk)).0 refl)
      refl

abbrev request : Request
request = record {
  id = codes "r1";
  code = codes "c1";
  agent_id = codes "aauth:a@x";
  resource = codes "https://r";
  amount_wei = codes "50";
  scope_req = none;
  mission_s256 = codes "00";
  tier = elevated;
  state = pending;
  created_at = pos 0;
  expires_at = pos 100;
  resource_json = [];
  step_up_sig = [];
}

sign_approval-check_step_up_example :
    check_step_up env request
      (codes "0xab")
      (pos 1)
      (codes "0x01")
      (hex_bytes (hex_str key_signature))
    ≡ ok tt
unfolding sign_approval sign_digest approval_digest ConsentDigest.addr_eq
    ConsentDigest.normalize_hex to_lower text_eq hex_str hex_encode
sign_approval-check_step_up_example =
    sign_approval-check_step_up env wallet root_file (9 ∷ []) request (pos 1) (codes "0x01")
      (hex_str key_signature) (codes "0xab") root_file_key refl refl refl

abbrev revoked : MemoryRegistry
revoked = revoke [] (codes "0xAB") 7

abbrev wary : AttestVerify.Verifier
wary = record chain { registry = is_revoked revoked }

revoked_is_refused_example :
    ((p : PersonServerAuthorization) (issuer thumb : Text)
      → p.root ≡ codes "0xAB"
      → p.nonce ≡ 7
      → verify_psa env wary p issuer thumb ≢ ok tt)
    × ((g : AgentGrant) (agent_id thumb : Text)
        → g.root ≡ codes "0xAB"
        → g.nonce ≡ 7
        → verify_agent_grant env wary g (codes "0xAB") agent_id thumb ≢ ok tt)
unfolding dev_revoke revoke_query load_root show_nat parse_uint text_eq
revoked_is_refused_example =
    revoked_is_refused env root_file [] revoked (codes "0xAB") (codes "7") 7 wary (omega arith) refl
      refl refl
