-- ===== src/Dev.antt =====
-- internal/server/dev.go and cmd/psd/auth_dev.go: what a build with the tag `dev` puts in place of
-- request signatures, root challenges and an on-chain registry; and devtool's call of the last.
use signet_ps.Base.{if◌then◌else◌, Text, text_eq, ℕ, ◌||◌, Option, none, some, [], ◌∷◌}
use signet_ps.Std.Strings.{trim_space}
use signet_ps.Std.Decimal.{show_nat}
use signet_ps.Std.Decimal.Uint.{parse_uint}
use signet_ps.Store.Registry.{MemoryRegistry, revoke}
use signet_ps.Devtool.{RootFile, load_root}
pub mod Revoked

-- the key's thumbprint and the agent, from the headers X-Dev-Agent and X-Dev-Agent-Thumb
unfoldable pub verify_sig : (Text → Text) → Text → Text → Option (Text × Text)
unfolding trim_space
verify_sig unicode agent agent_thumb =
    let agent_id = trim_space unicode agent in
    let thumb = trim_space unicode agent_thumb in
    if text_eq agent_id [] || text_eq thumb [] then none else some (thumb, agent_id)

-- the root, from the header X-Dev-Root
unfoldable pub verify_challenge : (Text → Text) → Text → Option Text
unfolding trim_space
verify_challenge unicode dev_root =
    let root = trim_space unicode dev_root in if text_eq root [] then none else some root

-- POST /dev/revoke, with the two parameters of the query; `none` is status 400
unfoldable pub dev_revoke : MemoryRegistry → Text → Text → Option MemoryRegistry
dev_revoke m root nonce = if text_eq root [] then none else some (revoke m root (parse_uint nonce))

-- the two parameters that `devtool revoke` sends
unfoldable pub revoke_query : RootFile → ℕ → Option (Text × Text)
revoke_query file nonce = elim (load_root file) [
  | none ↦ none
  | some rf ↦ some (rf.address, show_nat nonce)
]
