-- ===== src/Testutil/Fixtures.antt =====
-- internal/testutil/fixtures.go: attestations that the fixture's root signs, with changes that are
-- made before the signature.
use Prim.Native.Nat.{bit_xor}
pub mod Verdict
use signet_ps.Base.{
  ◌==◌, if◌then◌else◌, length, ℤ, pos, Bytes, Text, codes, ℕ, Option, none, some, List, [], ◌∷◌,
}
use signet_ps.Env.{Slice, Env}
use signet_ps.Attest.{Scope, PersonServerAuthorization, AgentGrant}
use signet_ps.Attest.Digest.{psa_digest, agent_grant_digest}
use signet_ps.Devtool.{Wallet}
use signet_ps.Tokens.{Jwk}
use signet_ps.Testutil.Keys.{
  Ed25519Keys, root_key, addr_of, agent_jwk, issuer_thumb, agent_thumb, fixture_not_before,
  fixture_not_after,
}

abbrev pub fixture_issuer : Text
fixture_issuer = codes "https://ps.example.test"

abbrev pub fixture_agent_id : Text
fixture_agent_id = codes "aauth:fixture@agents.example.test"

abbrev pub fixture_registry : Text
fixture_registry = codes "0x00000000000000000000000000000000000000a1"

abbrev pub fixture_chain_id : ℤ
fixture_chain_id = pos 8453

abbrev pub psa_nonce : ℕ
psa_nonce = 7

abbrev pub grant_nonce : ℕ
grant_nonce = 9

abbrev pub fixture_s256 : Text
fixture_s256 = codes "0123456789abcdef0123456789abcdef0123456789abcdef0123456789abcdef"

-- a function that changes what it is given
abbrev pub PsaOpt : Type 0
PsaOpt = PersonServerAuthorization → PersonServerAuthorization

abbrev pub GrantOpt : Type 0
GrantOpt = AgentGrant → AgentGrant

-- the loop over the options
unfoldable pub apply_opts : {A : Type 0} → List (A → A) → A → A
apply_opts [] a = a
apply_opts (o ∷ opts) a = apply_opts opts (o a)

unfoldable pub with_psa_issuer : Text → PsaOpt
with_psa_issuer iss p = record p { issuer = iss }

unfoldable pub with_psa_window : ℤ → ℤ → PsaOpt
with_psa_window nbf naf p = record p { not_before = nbf; not_after = naf }

unfoldable pub with_psa_key_thumbs : Slice Text → PsaOpt
with_psa_key_thumbs thumbs p = record p { key_thumbprints = thumbs }

unfoldable pub with_psa_root : Text → PsaOpt
with_psa_root root p = record p { root = root }

unfoldable pub with_psa_nonce : ℕ → PsaOpt
with_psa_nonce n p = record p { nonce = n }

unfoldable pub with_psa_scope : Scope → PsaOpt
with_psa_scope s p = record p { scope = s }

unfoldable pub with_grant_root : Text → GrantOpt
with_grant_root root g = record g { root = root }

unfoldable pub with_grant_agent_id : Text → GrantOpt
with_grant_agent_id id g = record g { agent_identifier = id }

unfoldable pub with_grant_agent_thumb : Text → GrantOpt
with_grant_agent_thumb thumb g = record g { agent_thumbprint = thumb }

unfoldable pub with_grant_window : ℤ → ℤ → GrantOpt
with_grant_window nbf naf g = record g { not_before = nbf; not_after = naf }

unfoldable pub with_grant_nonce : ℕ → GrantOpt
with_grant_nonce n g = record g { nonce = n }

-- what ValidPSA fills in, by the address of the root and the thumbprint of the issuer's key
unfoldable pub default_psa : Text → Text → PersonServerAuthorization
default_psa root thumb = record {
  root = root;
  issuer = fixture_issuer;
  key_thumbprints = some (thumb ∷ []);
  scope = record {
    max_token_ttl_seconds = pos 3600;
    allowed_claims = some (codes "email" ∷ []);
    payment_cap_wei = codes "1000000000000000000";
    step_up_above_wei = codes "100000000000000000";
  };
  not_before = fixture_not_before;
  not_after = fixture_not_after;
  registry_chain = fixture_chain_id;
  registry = fixture_registry;
  nonce = psa_nonce;
  signature = none;
}

-- what ValidGrant fills in, by the address of the root and the thumbprint and key of the agent
unfoldable pub default_grant : Text → Text → Text → AgentGrant
default_grant root thumb x = record {
  root = root;
  agent_identifier = fixture_agent_id;
  agent_thumbprint = thumb;
  agent_pub_key = x;
  mission_scope_s256 = fixture_s256;
  not_before = fixture_not_before;
  not_after = fixture_not_after;
  registry_chain = fixture_chain_id;
  registry = fixture_registry;
  nonce = grant_nonce;
  signature = none;
}

module _ (env : Env) (w : Wallet) where
  -- `SignPSA`, with a key
  unfoldable pub sign_psa_as : PersonServerAuthorization → Bytes → Option PersonServerAuthorization
  sign_psa_as p key = elim (psa_digest env p) [
    | none ↦ none
    | some digest ↦ elim (w.sign digest key) [
      | none ↦ none
      | some sig ↦ some (record p { signature = some sig })
    ]
  ]

  unfoldable pub sign_grant_as : AgentGrant → Bytes → Option AgentGrant
  sign_grant_as g key = elim (agent_grant_digest env g) [
    | none ↦ none
    | some digest ↦ elim (w.sign digest key) [
      | none ↦ none
      | some sig ↦ some (record g { signature = some sig })
    ]
  ]

  unfoldable pub valid_psa : Ed25519Keys → List PsaOpt → Option PersonServerAuthorization
  valid_psa ed opts = elim (root_key env w) [
    | none ↦ none
    | some key ↦
        sign_psa_as (apply_opts opts (default_psa (addr_of env w key) (issuer_thumb env ed))) key
  ]

  unfoldable pub valid_grant : Ed25519Keys → List GrantOpt → Option AgentGrant
  valid_grant ed opts = elim (root_key env w) [
    | none ↦ none
    | some key ↦
        sign_grant_as
          (apply_opts opts
            (default_grant (addr_of env w key) (agent_thumb env ed) (agent_jwk env ed).x))
          key
  ]

-- `sig[5] ^= 0xff` on a signature of 65 bytes; a signature of another length than 65 is fatal
unfoldable pub flip_sig_byte : Bytes → Option Bytes
flip_sig_byte (a ∷ b ∷ c ∷ d ∷ e ∷ byte ∷ sig) =
    if length sig == 59 then some (a ∷ b ∷ c ∷ d ∷ e ∷ bit_xor byte 0xff ∷ sig) else none
flip_sig_byte sig = none
