-- ===== src/Attest/Verify.antt =====
-- internal/attest/psa.go: the verifier of the two attestations.
use signet_ps.Base.{
  leb, ◌==◌, if◌then◌else◌, length, ℤ, ltb_ℤ, floor_div, Bytes, Text, text_ne, contains, Result, ok,
  err, ◌>>=◌, ◌>>◌, fail_if, or_fail, ℕ, zero, suc, ◌-◌, Bool, true, false, not, ◌&&◌, ◌||◌, Option,
  none, some, List, [], ◌∷◌,
}
use signet_ps.Env.{elems, Env}
use signet_ps.Attest.{PersonServerAuthorization, AgentGrant}
use signet_ps.Attest.Address.{addr_eq}
pub mod Meaning
use signet_ps.Attest.Digest.{psa_digest, agent_grant_digest}

-- `RevocationRegistry.IsRevoked`: chain, registry, root and nonce; `none` is an error.
abbrev pub RevocationRegistry : Type 0
RevocationRegistry = ℤ → Text → Text → ℕ → Option Bool

-- `ERC1271Verifier.IsValidSignature`: chain, account, digest and signature
abbrev pub Erc1271Verifier : Type 0
Erc1271Verifier = ℤ → Text → Bytes → Bytes → Option Bool

-- `now` is what the clock reads during the call, in nanoseconds since the Unix epoch.
pub record Verifier : Type 0 where
  pub registry : RevocationRegistry
  pub erc1271 : Option Erc1271Verifier
  pub now : ℤ

pub data Error : Type 0 where
  issuer_mismatch outside_window key_not_authorized : Error
  root_mismatch agent_identifier_mismatch agent_key_mismatch : Error
  bad_digest erc1271_failed root_signature_invalid : Error
  registry_unavailable revoked : Error

abbrev second : ℕ
second = 1000000000

-- `Time.Unix`
unfoldable pub unix : ℤ → ℤ
unix t = floor_div t second

-- `if s[64] >= 27 { s[64] -= 27 }`, on a copy
lower_v : ℕ → ℕ
lower_v v = if leb 27 v then v - 27 else v

abbrev map_at {ℓ} : {A : Type ℓ} → (A → A) → ℕ → List A → List A
map_at f n [] = []
map_at f zero (x ∷ xs) = f x ∷ xs
map_at f (suc n) (x ∷ xs) = x ∷ map_at f n xs

unfoldable pub normalize_v : Bytes → Bytes
unfolding lower_v
normalize_v sig = map_at lower_v 64 sig

module _ (env : Env) where
  -- the address that a signature of 65 bytes recovers to is the root's
  recovers_to : Text → Option Bytes → Bool
  recovers_to root none = false
  recovers_to root (some key) = addr_eq (env.address_hex key) root

  unfoldable pub is_eoa_sig : Text → Bytes → Bytes → Bool
  unfolding recovers_to
  is_eoa_sig root digest sig =
      length sig == 65 && recovers_to root (env.sig_to_pub digest (normalize_v sig))

  erc1271_answer : Option Bool → Result Error (Unit {0})
  erc1271_answer none = err erc1271_failed
  erc1271_answer (some true) = ok tt
  erc1271_answer (some false) = err root_signature_invalid

  ask_erc1271 : Option Erc1271Verifier → ℤ → Text → Bytes → Bytes → Result Error (Unit {0})
  unfolding erc1271_answer
  ask_erc1271 none chain_id root digest sig = err root_signature_invalid
  ask_erc1271 (some check) chain_id root digest sig =
      erc1271_answer (check chain_id root digest sig)

  unfoldable pub verify_root_sig : Verifier → ℤ → Text → Bytes → Bytes → Result Error (Unit {0})
  unfolding ask_erc1271
  verify_root_sig v chain_id root digest sig =
      if is_eoa_sig root digest sig then ok tt else ask_erc1271 v.erc1271 chain_id root digest sig

  -- an error reads as an error, never as "not revoked"
  live : Option Bool → Result Error (Unit {0})
  live none = err registry_unavailable
  live (some true) = err revoked
  live (some false) = ok tt

  abbrev outside : ℤ → ℤ → ℤ → Bool
  outside now not_before not_after = ltb_ℤ now not_before || ltb_ℤ not_after now

  unfoldable pub verify_psa :
      Verifier → PersonServerAuthorization → Text → Text → Result Error (Unit {0})
  unfolding live
  verify_psa v p issuer issuer_key_thumb = do
    let now = unix v.now
    fail_if (text_ne p.issuer issuer) issuer_mismatch
    fail_if (outside now p.not_before p.not_after) outside_window
    fail_if (not (contains (elems p.key_thumbprints) issuer_key_thumb)) key_not_authorized
    digest ← or_fail (psa_digest env p) bad_digest
    verify_root_sig v p.registry_chain p.root digest (elems p.signature)
    live (v.registry p.registry_chain p.registry p.root p.nonce)

  unfoldable pub verify_agent_grant :
      Verifier → AgentGrant → Text → Text → Text → Result Error (Unit {0})
  unfolding live
  verify_agent_grant v g root agent_id agent_thumb = do
    let now = unix v.now
    fail_if (text_ne g.root root) root_mismatch
    fail_if (text_ne g.agent_identifier agent_id) agent_identifier_mismatch
    fail_if (text_ne g.agent_thumbprint agent_thumb) agent_key_mismatch
    fail_if (outside now g.not_before g.not_after) outside_window
    digest ← or_fail (agent_grant_digest env g) bad_digest
    verify_root_sig v g.registry_chain g.root digest (elems g.signature)
    live (v.registry g.registry_chain g.registry g.root g.nonce)
