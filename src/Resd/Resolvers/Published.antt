-- ===== src/Resd/Resolvers/Published.antt =====
-- What a server publishes, the resolvers find.
use signet_ps.Base.{Text, codes, text_eq, ◌≡◌, refl, ap, ◌∙◌, some, List, [], ◌∷◌, ◌++◌, map, arith}
use signet_ps.Std.Strings.{equal_fold, Lacks}
use signet_ps.Env.{Env}
use signet_ps.Env.Decode.{get_struct, get_text, names}
use signet_ps.Attest.{PersonServerAuthorization, AgentGrant}
use signet_ps.Attest.Content.{psa_json, agent_grant_json, content_hash}
use signet_ps.Attest.Decode.RoundTrip.{IsPsa, IsGrant}
use signet_ps.Tokens.{Jwk, IssuerKey}
use signet_ps.Tokens.Jwt.Claims.{jwk_json, set_jwk, empty_jwk}
use signet_ps.Server.State.{Server, served_psa, served_grant}
use signet_ps.Server.Lifecycle.{serve_psa, serve_grant}
use signet_ps.Server.Pages.{jwk_items, jwks}
use signet_ps.Resd.Resolvers.{
  Web, base_url, get_keys, set_keys, keys_of_json, first_key, resolve_key, resolve_psa,
  resolve_grant,
}
use signet_ps.Resd.Resolvers.Pinned.{resolve_psa-served, resolve_grant-served}

-- The web answers for the issuer URL what the server's handlers do.
pub record IsPublished (web : Web) (s : Server) : Type 0 where
  pub no_slash : base_url s.cfg.issuer_url ≡ s.cfg.issuer_url
  pub keys : web (s.cfg.issuer_url ++ codes "/jwks.json") ≡ some (jwks s)
  pub psas :
      (root : Text) (p : PersonServerAuthorization)
      → serve_psa s root ≡ served_psa p
      → web (s.cfg.issuer_url ++ (codes "/psa/" ++ root)) ≡ some (psa_json p)
  pub grants :
      (s256 : Text) (g : AgentGrant)
      → serve_grant s s256 ≡ served_grant g
      → web (s.cfg.issuer_url ++ (codes "/grants/" ++ s256)) ≡ some (agent_grant_json g)

module _ (env : Env) where
  get_jwk-jwk_json : (k : Jwk) → get_struct (set_jwk env) (jwk_json k) empty_jwk ≡ some k
  unfolding set_jwk jwk_json get_struct names equal_fold text_eq get_text
  get_jwk-jwk_json k = refl

  get_keys-jwk_items : (ks : List Jwk) → get_keys env (jwk_items ks) ≡ some ks
  unfolding get_keys jwk_items
  get_keys-jwk_items [] = refl
  get_keys-jwk_items (k ∷ ks) = ground (arith, get_jwk-jwk_json k, get_keys-jwk_items ks)

  pub keys_of_json-jwks :
      (s : Server)
      → keys_of_json env (jwks s) ≡ some (map (λ (k : IssuerKey). k.pub_jwk) s.cfg.issuer_keys)
  unfolding keys_of_json jwks set_keys get_struct names equal_fold text_eq
  keys_of_json-jwks s =
      rw (get_keys-jwk_items (map (λ (k : IssuerKey). k.pub_jwk) s.cfg.issuer_keys)) refl

  module _ (web : Web) (s : Server) (published : IsPublished web s) where
    -- The key that is found for the issuer is the one that the server mints with, whatever key id a
    -- token names.
    pub resolve_key-published :
        (kid : Text) (key : IssuerKey) (keys : List IssuerKey)
        → s.cfg.issuer_keys ≡ key ∷ keys
        → resolve_key env web s.cfg.issuer_url kid ≡ some key.pub_jwk
    unfolding resolve_key
    resolve_key-published kid key keys e =
        let at : web (base_url s.cfg.issuer_url ++ codes "/jwks.json") ≡ some (jwks s) =
          ap (λ u. web (u ++ codes "/jwks.json")) published.no_slash ∙ published.keys in
        let first : first_key (keys_of_json env (jwks s)) ≡ some key.pub_jwk =
          ap first_key (keys_of_json-jwks s)
          ∙ ap (λ (ks : List IssuerKey). first_key (some (map (λ (k : IssuerKey). k.pub_jwk) ks)))
              e in
        ground (arith, at, first)

    pub resolve_psa-published :
        (root : Text) (p : PersonServerAuthorization)
        → Lacks b'#' (s.cfg.issuer_url ++ (codes "/psa/" ++ root))
        → IsPsa p
        → serve_psa s root ≡ served_psa p
        → resolve_psa env web (
            (s.cfg.issuer_url ++ (codes "/psa/" ++ root))
            ++ (codes "#s256=" ++ content_hash env (psa_json p)))
          ≡ some p
    resolve_psa-published root p l t h =
        resolve_psa-served env web (s.cfg.issuer_url ++ (codes "/psa/" ++ root)) p l t
          (published.psas root p h)

    pub resolve_grant-published :
        (g : AgentGrant)
        → IsGrant g
        → serve_grant s (content_hash env (agent_grant_json g)) ≡ served_grant g
        → resolve_grant env web s.cfg.issuer_url (content_hash env (agent_grant_json g)) ≡ some g
    resolve_grant-published g t h = resolve_grant-served env web s.cfg.issuer_url g t (
        ap (λ u. web (u ++ (codes "/grants/" ++ content_hash env (agent_grant_json g))))
          published.no_slash
        ∙ published.grants _ g h)
