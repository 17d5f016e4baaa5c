-- ===== src/Psd.antt =====
-- cmd/psd/main.go: what the daemon puts together at its start. What the process gets from outside is
-- given: its environment, where a variable that is not set reads as "", the month, and the key pair
-- that ed25519.GenerateKey made.
use signet_ps.Base.{
  if◌then◌else◌, pos, Bytes, Text, codes, text_eq, length, ◌≡◌, ◌≢◌, [], ◌∷◌, ◌++◌, ℤ,
}
use signet_ps.Env.{Env}
use signet_ps.Std.Base64.{raw_url_encode}
use signet_ps.Store.Registry.{new_memory_registry, is_revoked}
use signet_ps.Tokens.{IssuerKey}
use signet_ps.Server.State.{Config, Server, new_server, panicked}
use signet_ps.Server.Routes.{Route, serve}
use signet_ps.Server.Stable.{IsReachable}
use signet_ps.Server.Moves.Calm.{serve-ne-panicked}

unfoldable pub env_or : (Text → Text) → Text → Text → Text
env_or getenv k d = if text_eq (getenv k) [] then d else getenv k

-- the month as time.Format writes it
unfoldable pub daemon_key : Text → Bytes → Bytes → IssuerKey
daemon_key month pub_key priv = record {
  kid = codes "ps-" ++ month;
  priv = priv;
  pub_jwk = record { kty = codes "OKP"; crv = codes "Ed25519"; x = raw_url_encode pub_key };
}

unfoldable pub daemon_config : (Text → Text) → Text → Bytes → Bytes → Config
unfolding env_or daemon_key
daemon_config getenv month pub_key priv = record {
  issuer_url = env_or getenv (codes "PS_ISSUER_URL") (codes "http://localhost:8090");
  issuer_keys = daemon_key month pub_key priv ∷ [];
  registry = is_revoked new_memory_registry;
  chain_id = pos 8453;
  registry_addr =
      env_or getenv (codes "PS_REGISTRY_ADDR") (codes "0x0000000000000000000000000000000000000000");
}

unfoldable pub daemon : (Text → Text) → Text → Bytes → Bytes → Server
unfolding daemon_config
daemon getenv month pub_key priv = new_server (daemon_config getenv month pub_key priv)

-- However it is configured, the daemon panics at no request that it takes, since GenerateKey makes a
-- private key of 64 bytes.
pub daemon-ne-panicked :
    (env : Env) (getenv : Text → Text) (month : Text) (pub_key priv : Bytes) {s : Server} (now : ℤ)
    (route : Route)
    → length priv ≡ 64
    → IsReachable env (daemon_config getenv month pub_key priv) s
    → (serve env s now route).0 ≢ panicked
unfolding daemon_config daemon_key
daemon-ne-panicked env getenv month pub_key priv now route size reached =
    serve-ne-panicked env now route reached size
