-- ===== src/Testutil/Resolvers.antt =====
-- internal/testutil/tokens.go: the fakes that a verifier is given.
pub mod Replay
use signet_ps.Base.{
  if◌then◌else◌, ℤ, pos, ◌+ℤ◌, ◌-ℤ◌, wrap64, Map, lookup, insert, Text, codes, Bool, true, false,
  Option, none, some, [],
}
use signet_ps.Env.{Env}
use signet_ps.Attest.{PersonServerAuthorization, AgentGrant}
use signet_ps.Tokens.{Jwk, IssuerKey}
use signet_ps.Testutil.Keys.{Ed25519Keys, issuer_priv, issuer_jwk}

abbrev pub issuer_kid : Text
issuer_kid = codes "ps-test-01"

unfoldable pub issuer_signing_key : Env → Ed25519Keys → IssuerKey
issuer_signing_key env ed = record {
  kid = issuer_kid;
  priv = issuer_priv env ed;
  pub_jwk = issuer_jwk env ed;
}

-- of what the clock reads, in seconds; a sum beyond int64 wraps around
unfoldable pub live_window : ℤ → ℤ × ℤ
live_window n = (wrap64 (n -ℤ pos 60), wrap64 (n +ℤ pos 3600))

-- `by_kid` is a map that may be nil; an error is its text.
pub record FakeJwks : Type 0 where
  pub only_key : Jwk
  pub by_kid : Option (Map Jwk)
  pub failure : Option Text

unfoldable pub new_fake_jwks : Env → Ed25519Keys → FakeJwks
new_fake_jwks env ed = record { only_key = issuer_jwk env ed; by_kid = none; failure = none }

-- the key of an issuer and a key id; `none` is an error
unfoldable pub fake_key : FakeJwks → Text → Text → Option Jwk
fake_key f iss kid = elim f.failure [
  | some e ↦ none
  | none ↦ elim f.by_kid [ none ↦ some f.only_key | some m ↦ lookup kid m ]
]

-- The two documents are pointers, which may be nil.
pub record FakeAttest : Type 0 where
  pub psa_val : Option PersonServerAuthorization
  pub grant_val : Option AgentGrant
  pub psa_err : Option Text
  pub grant_err : Option Text

-- the inner `none` is a nil pointer, the outer one an error
unfoldable pub fake_psa : FakeAttest → Text → Option (Option PersonServerAuthorization)
fake_psa f ref = elim f.psa_err [ some e ↦ none | none ↦ some f.psa_val ]

unfoldable pub fake_agent_grant : FakeAttest → Text → Text → Option (Option AgentGrant)
fake_agent_grant f iss s256 = elim f.grant_err [ some e ↦ none | none ↦ some f.grant_val ]

-- the field `Seen`
abbrev pub FakeReplay : Type 0
FakeReplay = Map Bool

abbrev pub new_fake_replay : FakeReplay
new_fake_replay = []

-- a missing id reads as false
unfoldable pub is_seen : FakeReplay → Text → Bool
is_seen f jti = elim (lookup jti f) [ none ↦ false | some b ↦ b ]

unfoldable pub fake_seen_jti : FakeReplay → Text → ℤ → Bool × FakeReplay
unfolding is_seen
fake_seen_jti f jti exp = if is_seen f jti then (true, f) else (false, insert jti true f)
