-- ===== src/Server/Requests.antt =====
-- internal/server: the requests that change a server, as steps and as sequences of them.
use signet_ps.Env.{Env}
use signet_ps.Attest.{PersonServerAuthorization, AgentGrant}
use signet_ps.Base.{ℤ, Bytes, Text, Option}
use signet_ps.Server.State.{Server}
use signet_ps.Server.Handlers.{token, poll, approve_elevated, approve_page}
use signet_ps.Server.Lifecycle.{onboard, enroll_agent}

module _ (env : Env) where
  -- one request of any kind, at any clock reading, with any random bytes
  pub data Step (s : Server) : Server → Type 0 where
    asks :
        (now : ℤ) (id code rand : Bytes) (signer : Option (Text × Text)) (body : Option Text)
        → Step s (token env s now id code rand signer body).1
    polls :
        (now : ℤ) (rand : Bytes) (signer : Option (Text × Text)) (id : Text)
        → Step s (poll env s now rand signer id).1
    signs :
        (now : ℤ) (code : Text) (body : Option Text)
        → Step s (approve_elevated env s now code body).1
    clicks : (now : ℤ) (code : Text) → Step s (approve_page env s now code).1
    onboards :
        (now : ℤ) (body : Option PersonServerAuthorization) → Step s (onboard env s now body).1
    enrolls :
        (now : ℤ) (signer : Option (Text × Text)) (body : Option AgentGrant)
        → Step s (enroll_agent env s now signer body).1

  pub data Steps (s : Server) : Server → Type 0 where
    stay : Steps s s
    more : {mid s' : Server} → Steps s mid → Step mid s' → Steps s s'
