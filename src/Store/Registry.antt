-- ===== src/Store/Registry.antt =====
-- internal/store/registry.go: the registry in memory, and the stub of the one on chain.
pub mod Laws
use signet_ps.Base.{
  ℤ, Map, lookup, insert, Text, ℕ, Bool, true, false, Option, none, some, [], ◌∷◌, ◌++◌,
}
use signet_ps.Std.Decimal.{show_nat}

-- the field `revoked`
abbrev pub MemoryRegistry : Type 0
MemoryRegistry = Map Bool

abbrev pub new_memory_registry : MemoryRegistry
new_memory_registry = []

unfoldable pub key : Text → ℕ → Text
key root nonce = root ++ b'#' ∷ show_nat nonce

unfoldable pub revoke : MemoryRegistry → Text → ℕ → MemoryRegistry
unfolding key
revoke m root nonce = insert (key root nonce) true m

-- a missing key reads as false; the chain and the address are not looked at
unfoldable pub is_revoked : MemoryRegistry → ℤ → Text → Text → ℕ → Option Bool
unfolding key
is_revoked m chain_id registry root nonce =
    some (elim (lookup (key root nonce) m) [ none ↦ false | some b ↦ b ])

-- BaseRegistry.IsRevoked fails closed until it is written.
unfoldable pub base_is_revoked : ℤ → Text → Text → ℕ → Option Bool
base_is_revoked chain_id registry root nonce = none
