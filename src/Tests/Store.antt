-- ===== src/Tests/Store.antt =====
-- The registry, on a concrete run.
use signet_ps.Base.{pos, codes, ℕ, ◌≡◌, ◌↔◌, ◌⊎◌, true, some}
use signet_ps.Store.Registry.{new_memory_registry, revoke, is_revoked}
use signet_ps.Store.Registry.Laws.{revoke_iff}

abbrev two : ℕ
two = 2

abbrev twelve : ℕ
twelve = 12

revoke_iff_example :
    (is_revoked
        (revoke new_memory_registry (codes "0xab#1") two)
        (pos 1)
        (codes "0x01")
        (codes "0xab")
        twelve
      ≡ some true)
    ↔ (((codes "0xab#1" ≡ codes "0xab") × (two ≡ twelve))
        ⊎ (is_revoked new_memory_registry (pos 1) (codes "0x01") (codes "0xab") twelve ≡ some true))
revoke_iff_example =
    revoke_iff new_memory_registry (pos 1) (codes "0x01") (codes "0xab#1") (codes "0xab") two twelve
