-- ===== src/Tests/Attest.antt =====
-- The attestations, on the fixture.

use signet_ps.Base.{floor_div, codes, text_eq, contains, ok, ◌≡◌, refl, ◌↔◌}
use signet_ps.Attest.Digest.Covers.{
  SameGrant, agent_grant_typed_data_iff, SamePsa, psa_typed_data_iff,
}
use signet_ps.Attest.Verify.Meaning.{PsaHolds, GrantHolds, verify_psa_iff, verify_agent_grant_iff}
use signet_ps.Attest.Verify.{unix, is_eoa_sig, verify_root_sig, verify_psa, verify_agent_grant}
use signet_ps.Attest.Digest.{agent_grant_typed_data, psa_typed_data, psa_digest}
use signet_ps.Tokens.{thumbprint}
use signet_ps.Attest.Address.{addr_eq}
use signet_ps.Std.Base64.{raw_url_encode}
use signet_ps.Tests.Fixture.{env, agent_key, issuer_key, psa, grant, chain}

verify_psa_run :
    verify_psa env chain psa (codes "https://ps") (thumbprint env issuer_key.pub_jwk) ≡ ok tt
unfolding verify_psa thumbprint text_eq unix floor_div contains raw_url_encode psa_digest
    verify_root_sig is_eoa_sig addr_eq
verify_psa_run = refl

verify_psa_iff_example :
    (verify_psa env chain psa (codes "https://ps") (thumbprint env issuer_key.pub_jwk) ≡ ok tt)
    ↔ PsaHolds env chain psa (codes "https://ps") (thumbprint env issuer_key.pub_jwk)
verify_psa_iff_example =
    verify_psa_iff env chain psa (codes "https://ps") (thumbprint env issuer_key.pub_jwk)

verify_agent_grant_iff_example :
    (verify_agent_grant env chain grant
        (codes "0xab")
        (codes "aauth:a@x")
        (thumbprint env agent_key)
      ≡ ok tt)
    ↔ GrantHolds env chain grant (codes "0xab") (codes "aauth:a@x") (thumbprint env agent_key)
verify_agent_grant_iff_example =
    verify_agent_grant_iff env chain grant (codes "0xab") (codes "aauth:a@x")
      (thumbprint env agent_key)

psa_typed_data_iff_example :
    (psa_typed_data env psa ≡ psa_typed_data env (record psa { nonce = 5 }))
    ↔ SamePsa env psa (record psa { nonce = 5 })
psa_typed_data_iff_example = psa_typed_data_iff env psa (record psa { nonce = 5 })

agent_grant_typed_data_iff_example :
    (agent_grant_typed_data env grant ≡ agent_grant_typed_data env (record grant { nonce = 5 }))
    ↔ SameGrant env grant (record grant { nonce = 5 })
agent_grant_typed_data_iff_example =
    agent_grant_typed_data_iff env grant (record grant { nonce = 5 })
