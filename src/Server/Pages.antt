-- ===== src/Server/Pages.antt =====
-- internal/server/server.go: the documents that a server publishes for verifiers, metadata and jwks.
use signet_ps.Base.{codes, List, [], ◌∷◌, ◌++◌, map}
use signet_ps.Env.{Json, text, num, arr, obj, Items, nil, cons, end, field}
use signet_ps.Tokens.{Jwk, IssuerKey}
use signet_ps.Tokens.Jwt.Claims.{jwk_json}
use signet_ps.Server.State.{Server}

-- Maps, whose keys are written in order.
unfoldable pub metadata : Server → Json
metadata s = obj (
    field (codes "issuer") (text s.cfg.issuer_url) (
      field (codes "jwks_uri") (text (s.cfg.issuer_url ++ codes "/jwks.json")) (
        field (codes "signet_non_custodial")
          (obj (
            field (codes "onboarding_endpoint") (text (s.cfg.issuer_url ++ codes "/psa")) (
              field (codes "psa_endpoint_template") (text (s.cfg.issuer_url ++ codes "/psa/{root}"))
                (field (codes "revocation_registry")
                  (obj (
                    field (codes "address") (text s.cfg.registry_addr)
                      (field (codes "chain") (num s.cfg.chain_id) end)))
                  (field (codes "root_signature_schemes")
                    (arr (cons (text (codes "eoa-secp256k1")) (cons (text (codes "erc1271")) nil)))
                    end)))))
          (field (codes "token_endpoint") (text (s.cfg.issuer_url ++ codes "/token")) end))))

unfoldable pub jwk_items : List Jwk → Items
jwk_items [] = nil
jwk_items (k ∷ ks) = cons (jwk_json k) (jwk_items ks)

unfoldable pub jwks : Server → Json
unfolding jwk_items
jwks s = obj (
    field (codes "keys") (arr (jwk_items (map (λ (k : IssuerKey). k.pub_jwk) s.cfg.issuer_keys)))
      end)
