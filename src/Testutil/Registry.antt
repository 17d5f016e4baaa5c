-- ===== src/Testutil/Registry.antt =====
-- internal/testutil/registry.go: a revocation registry that answers, or fails, and counts its calls.
pub mod Refines
use signet_ps.Base.{
  ℤ, pos, ◌+ℤ◌, wrap64, Map, lookup, insert, Text, ℕ, Bool, true, false, Option, none, some, [],
  ◌∷◌, ◌++◌,
}
use signet_ps.Std.Decimal.{show_nat}

-- `revoked` is a map that may be nil, `failure` the error that IsRevoked answers.
pub record FakeRegistry : Type 0 where
  pub revoked : Option (Map Bool)
  pub failure : Option Text
  pub calls : ℤ

-- `key`
unfoldable pub pair_key : Text → ℕ → Text
pair_key root nonce = root ++ b'#' ∷ show_nat nonce

unfoldable pub live_registry : FakeRegistry
live_registry = record { revoked = some []; failure = none; calls = pos 0 }

unfoldable pub revoked_registry : Text → ℕ → FakeRegistry
revoked_registry root nonce = record {
  revoked = some (insert (pair_key root nonce) true []);
  failure = none;
  calls = pos 0;
}

unfoldable pub err_registry : Option Text → FakeRegistry
err_registry e = record { revoked = none; failure = e; calls = pos 0 }

-- a missing key reads as false, in a nil map too
read_flag : Option (Map Bool) → Text → Bool
read_flag none k = false
read_flag (some m) k = elim (lookup k m) [ none ↦ false | some b ↦ b ]

-- `f.Calls++`
count_call : FakeRegistry → FakeRegistry
count_call f = record f { calls = wrap64 (f.calls +ℤ pos 1) }

fake_answer : FakeRegistry → Text → ℕ → Option Bool
unfolding read_flag pair_key
fake_answer f root nonce = elim f.failure [
  | some e ↦ none
  | none ↦ some (read_flag f.revoked (pair_key root nonce))
]

-- `none` is an error
unfoldable pub fake_is_revoked : FakeRegistry → ℤ → Text → Text → ℕ → Option Bool × FakeRegistry
unfolding count_call fake_answer
fake_is_revoked f chain_id registry root nonce =
    (fake_answer (count_call f) root nonce, count_call f)

made : Option (Map Bool) → Map Bool
made none = []
made (some m) = m

unfoldable pub fake_revoke : FakeRegistry → Text → ℕ → FakeRegistry
unfolding made pair_key
fake_revoke f root nonce = record f {
  revoked = some (insert (pair_key root nonce) true (made f.revoked));
}
