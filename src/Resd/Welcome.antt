-- ===== src/Resd/Welcome.antt =====
-- From a person server to a resource: what the one issues, the other admits.
use signet_ps.Base.{
  In, get_elem?, ℤ, pos, ◌≤ℤ◌, ◌<ℤ◌, Map, lookup, Bytes, Text, codes, ok, ℕ, ◌≡◌, ◌≢◌, refl, sym,
  ap, subst, ◌∙◌, inl, inr, true, false, some, none, List, [], ◌∷◌, ◌++◌, arith,
}
use signet_ps.Std.Strings.{Lacks}
use signet_ps.Env.{elems, Env}
use signet_ps.Attest.{PersonServerAuthorization, AgentGrant}
use signet_ps.Attest.Content.{agent_grant_json, content_hash}
use signet_ps.Attest.Decode.RoundTrip.{IsPsa, IsGrant}
use signet_ps.Attest.Verify as AttestVerify
use signet_ps.Attest.Verify.{unix}
use signet_ps.Attest.Verify.Meaning.{Within, RootSigned, PsaHolds, GrantHolds}
use signet_ps.Consent.{Request}
use signet_ps.Store.Tenants.{Tenant, tenant_of_agent, tenant_of_root}
use signet_ps.Store.Tenants.Laws.{tenant_of_agent_at}
use signet_ps.Resd.Handlers.Anchored.{seen_jti_unseen, admit_verified}
use signet_ps.Store.Tenants.WellFormed.{IsVouched, IsGranted}
use signet_ps.Tokens.{AuthClaims, ResourceClaims, IssuerKey, thumbprint}
use signet_ps.Tokens.Jwt.Signed.{CanSign}
use signet_ps.Tokens.Mint.{apply_vouched, minted_claims, mint}
use signet_ps.Tokens.Mint.Envelope.{mint_iff}
use signet_ps.Tokens.Verify.{verify}
use signet_ps.Tokens.Verify.Minted.{Resolves, minted_is_accepted}
use signet_ps.Server.Helpers.{agent_key_from_grant}
use signet_ps.Server.State.{Config, Server, issued, served_psa, served_grant}
use signet_ps.Server.Lifecycle.{serve_psa, serve_grant}
use signet_ps.Server.Handlers.{mint_input, finish}
use signet_ps.Server.Issuing.{finish_mints}
use signet_ps.Server.Stable.{IsReachable}
use signet_ps.Server.Tenancy.{reachable-IsWellFormed}
use signet_ps.Resd.Resolvers.{Web, resolve_key, resolve_grant, verifier_at}
use signet_ps.Resd.Resolvers.Published.{
  IsPublished, resolve_key-published, resolve_psa-published, resolve_grant-published,
}
use signet_ps.Resd.Handlers.{Resource, admit}

append-ne : (x : Text) (b : ℕ) (y : Text) → x ++ b ∷ y ≢ []
append-ne [] b y h = cc
append-ne (c ∷ x) b y h = cc

module _ (env : Env) where
  -- A signature that no contract vouches for is the root's own, which any verifier accepts.
  signed_again :
      (v w : AttestVerify.Verifier) (chain_id : ℤ) (root : Text) (digest sig : Bytes)
      → v.erc1271 ≡ none
      → RootSigned env v chain_id root digest sig
      → RootSigned env w chain_id root digest sig
  signed_again v w chain_id root digest sig no_contract (inl h) = inl h
  signed_again v w chain_id root digest sig no_contract (inr (check, e, _)) =
      absurd (ground (arith, no_contract, e))

  -- An attestation that a server checked holds at a resource, as long as its window lasts.
  psa_again :
      (issuer thumb : Text) (p : PersonServerAuthorization) (v : AttestVerify.Verifier)
      → IsVouched env issuer p
      → Within (unix v.now) p.not_before p.not_after
      → In thumb (elems p.key_thumbprints)
      → v.registry p.registry_chain p.registry p.root p.nonce ≡ some false
      → PsaHolds env v p issuer thumb
  psa_again issuer thumb p v h window listed live = record {
    same_issuer = h.holds.same_issuer;
    in_window = window;
    key_listed = listed;
    digest = h.holds.digest;
    digested = h.holds.digested;
    signed =
        signed_again h.verifier v p.registry_chain p.root h.holds.digest (elems p.signature)
          h.no_contract h.holds.signed;
    not_revoked = live;
  }

  grant_again :
      (root agent_id thumb : Text) (g : AgentGrant) (v : AttestVerify.Verifier)
      → IsGranted env root agent_id g
      → Within (unix v.now) g.not_before g.not_after
      → g.agent_thumbprint ≡ thumb
      → v.registry g.registry_chain g.registry g.root g.nonce ≡ some false
      → GrantHolds env v g root agent_id thumb
  grant_again root agent_id thumb g v h window own live = record {
    same_root = h.holds.same_root;
    same_agent = h.holds.same_agent;
    same_key = own;
    in_window = window;
    digest = h.holds.digest;
    digested = h.holds.digested;
    signed =
        signed_again h.verifier v g.registry_chain g.root h.holds.digest (elems g.signature)
          h.no_contract h.holds.signed;
    not_revoked = live;
  }

  serve_root :
      (s : Server) (a : ℕ) (t : Tenant)
      → lookup t.root s.tenants.by_root ≡ some a
      → get_elem? s.tenants.heap a ≡ some t
      → serve_psa s t.root ≡ served_psa t.psa
  unfolding serve_psa tenant_of_root
  serve_root s a t h k = ground (arith, h, k)

  -- What the resource needs of a tenant and a grant to find them and hold them valid.
  pub record IsVisible (web : Web) (s : Server) (t : Tenant) (grant : AgentGrant) (now : ℤ)
      : Type 0 where
    pub published : IsPublished web s
    pub no_fragment : Lacks b'#' (s.cfg.issuer_url ++ (codes "/psa/" ++ t.root))
    pub typed_psa : IsPsa t.psa
    pub typed_grant : IsGrant grant
    pub by_hash : serve_grant s (content_hash env (agent_grant_json grant)) ≡ served_grant grant
    pub psa_window : Within (unix now) t.psa.not_before t.psa.not_after
    pub grant_window : Within (unix now) grant.not_before grant.not_after
    pub own_key : grant.agent_thumbprint ≡ thumbprint env (agent_key_from_grant grant)

  module _ {cfg : Config} {s : Server} (r : IsReachable env cfg s) (web : Web) (now' : ℤ)
      (agent_id : Text) (a : ℕ) (t : Tenant) (grant : AgentGrant)
      (found : tenant_of_agent s.tenants agent_id ≡ some (a, t))
      (at_agent : lookup agent_id t.grants ≡ some grant) (visible : IsVisible web s t grant now')
      (key : IssuerKey) (keys : List IssuerKey) (first : s.cfg.issuer_keys ≡ key ∷ keys)
      (req : Request) (res : ResourceClaims) (now : ℤ) (rand : Bytes) where
    abbrev claims : AuthClaims
    claims = minted_claims env (mint_input env s req t grant res agent_id) now rand

    resolves :
        In (thumbprint env key.pub_jwk) (elems t.psa.key_thumbprints)
        → Resolves env
            (verifier_at env web now')
            key
            (mint_input env s req t grant res agent_id)
            now
            rand
            claims
    unfolding verifier_at mint_input minted_claims
    resolves listed =
        let at = tenant_of_agent_at s.tenants agent_id a t found in
        let sound = (reachable-IsWellFormed env r).tenants a t at in
        let issuer = sound.vouched.holds.same_issuer in
        let by_url : serve_psa s t.root ≡ served_psa t.psa = serve_root s a t sound.registered at in
        record {
          psa =
              resolve_psa-published env web s visible.published t.root t.psa visible.no_fragment
                visible.typed_psa by_url;
          issuer_key =
              ap (λ u. resolve_key env web u key.kid) issuer
              ∙ resolve_key-published env web s visible.published key.kid key keys first;
          grant =
              ap (λ u. resolve_grant env web u (content_hash env (agent_grant_json grant))) issuer
              ∙ resolve_grant-published env web s visible.published grant visible.typed_grant
                  visible.by_hash;
          psa_holds =
              psa_again t.psa.issuer (thumbprint env key.pub_jwk) t.psa _
                (subst (λ u. IsVouched env u t.psa) (sym issuer) sound.vouched) visible.psa_window
                listed refl;
          grant_holds =
              grant_again t.psa.root agent_id _ grant _
                (subst (λ u. IsGranted env u agent_id grant) (sym sound.own_psa)
                  (sound.granted agent_id grant at_agent).0)
                visible.grant_window visible.own_key refl;
        }

    -- A token that a server which requests made issues for an agent with the first of its keys is
    -- admitted, with the claims that were minted, by the resource that it is for, with or without
    -- the flag, when the agent shows it: if the resource finds what the server publishes, at a URL
    -- without a fragment, the tenant's authorization and the agent's grant are in their windows
    -- there and of their Go types, the grant is served under its hash and names the thumbprint of
    -- its key, the server's key can sign, folding compares a text equal to itself, the granted
    -- lifetime is not negative, the resource's clock is between the minting and the expiry, and the
    -- id was not seen.
    pub issued_is_admitted :
        (rs : Resource) (seen : Map ℤ) (k : ℕ) (tok : Text)
        → (finish env s now rand req (a, t) grant res agent_id).0 ≡ issued tok
        → rs.self ≡ res.iss
        → CanSign env key (codes "auth+jwt") claims
        → ((u : Text) → env.unicode_fold u u ≡ true)
        → t.psa.scope.max_token_ttl_seconds ≡ pos k
        → unix now ≤ℤ unix now'
        → unix now' <ℤ claims.exp
        → lookup claims.jti seen ≡ none
        → (admit env web rs seen now' tok grant.agent_thumbprint).0 ≡ ok claims
    unfolding mint_input minted_claims verifier_at apply_vouched
    issued_is_admitted rs seen k tok h self sign fold ttl early late fresh =
        let inp = mint_input env s req t grant res agent_id in
        let (key', keys', first', m) =
          finish_mints env s now rand req a t grant res agent_id tok h in
        let same_key : key' ≡ key = ground (arith, first, first') in
        let minted : mint env key inp now rand ≡ ok tok =
          subst (λ (x : IssuerKey). mint env x inp now rand ≡ ok tok) same_key m in
        let listed = ((mint_iff env key inp now rand).0 (tok, minted)).covered in
        let accepted =
          minted_is_accepted env (verifier_at env web now') key inp now rand seen tok k minted sign
            fold (resolves listed) ttl early late
            (seen_jti_unseen seen claims.jti claims.exp fresh) in
        admit_verified env web rs seen now' tok grant.agent_thumbprint claims
          (append-ne (s.cfg.issuer_url ++ (codes "/psa/" ++ t.root)) _ _)
          (subst (λ u. (verify env (verifier_at env web now') seen tok rs.self u).0 ≡ ok claims)
            (sym visible.own_key)
            (subst
              (λ u.
                (verify env (verifier_at env web now') seen tok u
                  (thumbprint env (agent_key_from_grant grant))).0
                ≡ ok claims)
              (sym self) accepted))
