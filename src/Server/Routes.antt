-- ===== src/Server/Routes.antt =====
-- internal/server/server.go: Routes, the requests that a server takes, by the handler that serves each.
-- What a handler reads of the request is decoded: the agent that signed it, the root that answered a
-- challenge, the path's last part and the body.
use signet_ps.Base.{ℤ, Bytes, Text, Option}
use signet_ps.Env.{Env}
use signet_ps.Attest.{PersonServerAuthorization, AgentGrant}
use signet_ps.Server.State.{Server, Reply}
use signet_ps.Server.Handlers.{poll, approve_elevated, token, approve_page}
use signet_ps.Server.Lifecycle.{onboard, enroll_agent, serve_psa, serve_grant, export}

pub data Route : Type 0 where
  post_token : Bytes → Bytes → Bytes → Option (Text × Text) → Option Text → Route
  get_pending : Bytes → Option (Text × Text) → Text → Route
  get_approve : Text → Route
  post_signature : Text → Option Text → Route
  post_psa : Option PersonServerAuthorization → Route
  post_agents : Option (Text × Text) → Option AgentGrant → Route
  get_psa : Text → Route
  get_grant : Text → Route
  get_export : Option Text → Route

-- at a clock reading
unfoldable pub serve : Env → Server → ℤ → Route → Reply × Server
serve env s now (post_token id code rand signer body) = token env s now id code rand signer body
serve env s now (get_pending rand signer id) = poll env s now rand signer id
serve env s now (get_approve code) = approve_page env s now code
serve env s now (post_signature code body) = approve_elevated env s now code body
serve env s now (post_psa body) = onboard env s now body
serve env s now (post_agents signer body) = enroll_agent env s now signer body
serve env s now (get_psa root) = (serve_psa s root, s)
serve env s now (get_grant s256) = (serve_grant s s256, s)
serve env s now (get_export who) = (export s who, s)
