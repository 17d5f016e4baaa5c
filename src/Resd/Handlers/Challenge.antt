-- ===== src/Resd/Handlers/Challenge.antt =====
-- What a resource asks for reaches the person server.
use signet_ps.Base.{Bool, Text, ℤ, pos, ◌+ℤ◌, IsInt64, Bytes, ◌≡◌, ◌≢◌, some, []}
use signet_ps.Std.Hex.{AreBytes}
use signet_ps.Std.Base64.RoundTrip.{raw_url_encode-Lacks}
use signet_ps.Env.{Env}
use signet_ps.Attest.Verify.{unix}
use signet_ps.Server.Helpers.{parse_resource_token, marshal_resource}
use signet_ps.Server.Helpers.Resource.{IsReadable, parse_resource_token_lem}
use signet_ps.Resd.Handlers.{Resource, resource_of_flags, sign_resource_token, required, challenge}

module _ (env : Env) where
  -- A person server parses the token of a challenge into what the resource requires, if the
  -- resource has a URL, the times are of type int64, and the JSON text of the requirements is bytes
  -- that are readable.
  pub parse-challenge :
      (rs : Resource) (now : ℤ) (rand : Bytes)
      → rs.self ≢ []
      → IsInt64 (unix now)
      → IsInt64 (unix (now +ℤ pos 300000000000))
      → AreBytes (marshal_resource env (required rs now rand))
      → IsReadable env (required rs now rand)
      → parse_resource_token env (challenge env rs now rand).0 ≡ some (challenge env rs now rand).1
  unfolding challenge sign_resource_token required marshal_resource
  parse-challenge rs now rand n iat exp bytes u =
      parse_resource_token_lem env _ _ (required rs now rand) (raw_url_encode-Lacks _)
        (raw_url_encode-Lacks _) bytes u (record { iat = iat; exp = exp }) n

  -- The resource that the command makes of its flags has a URL, so a person server parses its
  -- challenges under the other conditions alone.
  pub parse-challenge_of_flags :
      (port amount scope : Text) (require_key_rooted : Bool) (rpriv : Bytes) (rs : Resource)
      (now : ℤ) (rand : Bytes)
      → rs ≡ resource_of_flags port require_key_rooted amount scope rpriv
      → IsInt64 (unix now)
      → IsInt64 (unix (now +ℤ pos 300000000000))
      → AreBytes (marshal_resource env (required rs now rand))
      → IsReadable env (required rs now rand)
      → parse_resource_token env (challenge env rs now rand).0 ≡ some (challenge env rs now rand).1
  unfolding resource_of_flags
  parse-challenge_of_flags port amount scope require_key_rooted rpriv rs now rand made =
      parse-challenge rs now rand λ e. cc
