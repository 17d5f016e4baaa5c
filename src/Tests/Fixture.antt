-- ===== src/Tests/Fixture.antt =====
-- A small environment: the hashes and the signer answer with constants, and parsing knows the two
-- values that a token is made of, told apart by a byte.
use signet_ps.Base.{
  ◌==◌, if◌then◌else◌, replicate, pos, Bytes, codes, text_eq, ℕ, false, Option, none, some, [], ◌∷◌,
  ◌++◌,
}
use signet_ps.Env.{Json, null, text, obj, field, Slice, Env}
use signet_ps.Attest.{PersonServerAuthorization, AgentGrant}
use signet_ps.Attest.Verify as AttestVerify
use signet_ps.Tokens.{Jwk, IssuerKey, thumbprint}

-- a JSON value is a header if its first field is `alg`
abbrev pub marshal : Json → Bytes
marshal (obj (field k (text t) fs)) = if text_eq k (codes "alg") then 1 ∷ [] else 2 ∷ []
marshal j = 2 ∷ []

abbrev parses : Json → Json → Bytes → Option Json
parses header body [] = none
parses header body (b ∷ bs) = if b == 1 then some header else some body

abbrev pub env_of : Json → Json → Env
env_of header body = record {
  sha256 = λ b. replicate 32 7;
  keccak256 = λ b. replicate 32 8;
  typed_data_and_hash = λ td. some (replicate 32 9);
  sig_to_pub = λ digest sig. some (4 ∷ []);
  address_hex = λ key. codes "0xAB";
  ed25519_sign = λ priv m. replicate 64 5;
  ed25519_verify = λ key m sig. text_eq sig (replicate 64 5);
  marshal = marshal;
  unmarshal = parses header body;
  format_time = λ t. [];
  unicode_lower = λ t. t;
  unicode_fold = λ s t. text_eq s t;
  unicode_quote = λ t. t;
  unicode_trim = λ t. t;
}

abbrev pub env : Env
env = env_of null null

abbrev pub agent_key : Jwk
agent_key = record { kty = codes "OKP"; crv = codes "Ed25519"; x = codes "agent" }

-- 32 zero bytes
abbrev pub issuer_key : IssuerKey
issuer_key = record {
  kid = codes "k1";
  priv = replicate 64 0;
  pub_jwk = record { kty = codes "OKP"; crv = codes "Ed25519"; x = replicate 43 b'A' };
}

abbrev pub signature : Slice ℕ
signature = some (replicate 64 3 ++ 27 ∷ [])

abbrev pub psa : PersonServerAuthorization
psa = record {
  root = codes "0xab";
  issuer = codes "https://ps";
  key_thumbprints = some (thumbprint env issuer_key.pub_jwk ∷ []);
  scope = record {
    max_token_ttl_seconds = pos 600;
    allowed_claims = some (codes "name" ∷ []);
    payment_cap_wei = codes "100";
    step_up_above_wei = codes "10";
  };
  not_before = pos 0;
  not_after = pos 5000;
  registry_chain = pos 1;
  registry = codes "0x01";
  nonce = 3;
  signature = signature;
}

abbrev pub grant : AgentGrant
grant = record {
  root = codes "0xab";
  agent_identifier = codes "aauth:a@x";
  agent_thumbprint = thumbprint env agent_key;
  agent_pub_key = [];
  mission_scope_s256 = codes "00";
  not_before = pos 0;
  not_after = pos 5000;
  registry_chain = pos 1;
  registry = codes "0x01";
  nonce = 4;
  signature = signature;
}

abbrev pub chain : AttestVerify.Verifier
chain = record { registry = λ c a r n. some false; erc1271 = none; now = pos 1000000000000 }
