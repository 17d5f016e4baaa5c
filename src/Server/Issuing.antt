-- ===== src/Server/Issuing.antt =====
-- When a server issues a token.
use signet_ps.Base.{
  In, codes, ◌++◌, ◌+ℤ◌, Bool-cases, ℤ, lookup, Bytes, Text, text_ne, eq_of_text_ne, Result, ok,
  err, ℕ, ◌≡◌, ◌≢◌, refl, inl, inr, Option, none, some, List, [], ◌∷◌, arith,
}
use signet_ps.Env.{elems, Env}
use signet_ps.Attest.{AgentGrant}
use signet_ps.Consent.{State, pending, approved, denied, expired, Request}
use signet_ps.Consent.Store as ConsentStore
use signet_ps.Store.Tenants.{Tenant, tenant_of_agent}
use signet_ps.Tokens.{IssuerKey, ResourceClaims, AuthClaims, thumbprint}
use signet_ps.Tokens.Jwt.{sign_jwt}
use signet_ps.Attest.Content.{content_hash, agent_grant_json}
use signet_ps.Attest.Verify.{unix}
use signet_ps.Std.Decimal.{show_int}
use signet_ps.Tokens.Mint.{
  MintInput, MintError, issuer_key_not_covered, claim_not_allowed, bad_amount, exceeds_cap,
  step_up_required, sign_panics, mint, hour, clamp_ttl, minted_claims, apply_vouched,
}
use signet_ps.Tokens.Mint.Envelope.{IsPayment, mint_iff, mint_complete}
use signet_ps.Server.State.{Server, issued}
use signet_ps.Server.Helpers.{resource_of, agent_key_from_grant}
use signet_ps.Server.Handlers.{
  refused, step_up_of, mint_input, finish_with, finish_by, finish, finish_granted, finish_found,
  poll_state, poll_answer, poll,
}

module _ (env : Env) where
  -- What a token says, and that the tenant's authorization lets this key of the server say it: the
  -- amount is that of the resource token which the request keeps, and a step-up claim is made of the
  -- signature that the request holds.
  pub record IsIssuedFrom (s : Server) (now : ℤ) (req : Request) (agent_id tok : Text) (t : Tenant)
      (grant : AgentGrant) (key : IssuerKey) : Type 0 where
    pub covered : In (thumbprint env key.pub_jwk) (elems t.psa.key_thumbprints)
    pub claims : AuthClaims
    pub payment : IsPayment t.psa.scope (resource_of env req).amount_wei claims.step_up
    pub stepped_up : claims.step_up ≢ none → req.step_up_sig ≢ []
    pub signed : tok ≡ sign_jwt env key (codes "auth+jwt") claims
    pub issuer : claims.iss ≡ t.psa.issuer
    pub audience : claims.aud ≡ (resource_of env req).iss
    pub agent : claims.agent ≡ agent_id
    pub holder : claims.cnf ≡ agent_key_from_grant grant
    pub subject :
        claims.sub ≡ codes "eip155:" ++ (show_int t.psa.registry_chain ++ b':' ∷ t.psa.root)
    pub granted : claims.ag_s256 ≡ content_hash env (agent_grant_json grant)
    pub issued_at : claims.iat ≡ unix now
    pub expires : claims.exp ≡ unix (now +ℤ clamp_ttl t.psa.scope hour)

  -- A token for the agent comes from its tenant and grant and the first of the server's keys.
  abbrev pub IsIssuable : Server → ℤ → Request → Text → Text → Type 0
  IsIssuable s now req agent_id tok =
      (a : ℕ) × (t : Tenant) × (grant : AgentGrant) × (key : IssuerKey) × (keys : List IssuerKey)
      × (tenant_of_agent s.tenants agent_id ≡ some (a, t))
      × (lookup agent_id t.grants ≡ some grant)
      × (s.cfg.issuer_keys ≡ key ∷ keys)
      × IsIssuedFrom s now req agent_id tok t grant key

  -- The token is minted with the first of the keys, for the agent's tenant and grant.
  abbrev pub IsMinted : Server → ℤ → Bytes → Request → Text → Text → Type 0
  IsMinted s now rand req agent_id tok =
      (a : ℕ) × (t : Tenant) × (grant : AgentGrant) × (key : IssuerKey) × (keys : List IssuerKey)
      × (tenant_of_agent s.tenants agent_id ≡ some (a, t))
      × (lookup agent_id t.grants ≡ some grant)
      × (s.cfg.issuer_keys ≡ key ∷ keys)
      × (mint env key (mint_input env s req t grant (resource_of env req) agent_id) now rand
          ≡ ok tok)

  refused-ne-issued : (e : MintError) (tok : Text) → refused e ≢ issued tok
  unfolding refused
  refused-ne-issued issuer_key_not_covered tok h = cc
  refused-ne-issued claim_not_allowed tok h = cc
  refused-ne-issued bad_amount tok h = cc
  refused-ne-issued exceeds_cap tok h = cc
  refused-ne-issued step_up_required tok h = cc
  refused-ne-issued sign_panics tok h = cc

  finish_with_issues :
      (s : Server) (now : ℤ) (req : Request) (a : ℕ) (agent_id : Text) (r : Result MintError Text)
      (tok : Text)
      → (finish_with env s now req a agent_id r).0 ≡ issued tok
      → r ≡ ok tok
  unfolding finish_with
  finish_with_issues s now req a agent_id (err e) tok h = absurd (refused-ne-issued e tok h)
  finish_with_issues s now req a agent_id (ok x) tok h = cc

  finish_by_issues :
      (keys : List IssuerKey) (s : Server) (now : ℤ) (rand : Bytes) (req : Request) (a : ℕ)
      (agent_id : Text) (inp : MintInput) (tok : Text)
      → (finish_by env keys s now rand req a agent_id inp).0 ≡ issued tok
      → (key : IssuerKey) × (rest : List IssuerKey) × (keys ≡ key ∷ rest)
        × (mint env key inp now rand ≡ ok tok)
  unfolding finish_by
  finish_by_issues [] s now rand req a agent_id inp tok h = cc
  finish_by_issues (key ∷ keys) s now rand req a agent_id inp tok h =
      (key, keys, refl, finish_with_issues s now req a agent_id _ tok h)

  -- A token that finish issues is minted with the first of the keys.
  pub finish_mints :
      (s : Server) (now : ℤ) (rand : Bytes) (req : Request) (a : ℕ) (t : Tenant)
      (grant : AgentGrant) (res : ResourceClaims) (agent_id tok : Text)
      → (finish env s now rand req (a, t) grant res agent_id).0 ≡ issued tok
      → (key : IssuerKey) × (rest : List IssuerKey) × (s.cfg.issuer_keys ≡ key ∷ rest)
        × (mint env key (mint_input env s req t grant res agent_id) now rand ≡ ok tok)
  unfolding finish
  finish_mints s now rand req a t grant res agent_id tok h =
      finish_by_issues s.cfg.issuer_keys s now rand req a agent_id _ tok h

  finish_granted_issues :
      (s : Server) (now : ℤ) (rand : Bytes) (req : Request) (agent_id tok : Text) (a : ℕ)
      (t : Tenant) (g : Option AgentGrant)
      → (finish_granted env s now rand req agent_id (a, t) g).0 ≡ issued tok
      → (grant : AgentGrant) × (key : IssuerKey) × (keys : List IssuerKey) × (g ≡ some grant)
        × (s.cfg.issuer_keys ≡ key ∷ keys)
        × (mint env key (mint_input env s req t grant (resource_of env req) agent_id) now rand
            ≡ ok tok)
  unfolding finish_granted
  finish_granted_issues s now rand req agent_id tok a t none h = cc
  finish_granted_issues s now rand req agent_id tok a t (some grant) h =
      let (key, keys, e, m) =
        finish_mints s now rand req a t grant (resource_of env req) agent_id tok h in
      (grant, key, keys, refl, e, m)

  finish_found_issues :
      (s : Server) (now : ℤ) (rand : Bytes) (req : Request) (agent_id tok : Text)
      (o : Option (ℕ × Tenant))
      → tenant_of_agent s.tenants agent_id ≡ o
      → (finish_found env s now rand req agent_id o).0 ≡ issued tok
      → IsMinted s now rand req agent_id tok
  unfolding finish_found
  finish_found_issues s now rand req agent_id tok none e h = cc
  finish_found_issues s now rand req agent_id tok (some (a, t)) e h =
      let (grant, key, keys, f, g, m) =
        finish_granted_issues s now rand req agent_id tok a t (lookup agent_id t.grants) h in
      (a, t, grant, key, keys, e, f, g, m)

  poll_state_issues :
      (s : Server) (now : ℤ) (rand : Bytes) (req : Request) (agent_id tok : Text) (state : State)
      → (poll_state env s now rand req agent_id state).0 ≡ issued tok
      → (state ≡ approved) × IsMinted s now rand req agent_id tok
  unfolding poll_state
  poll_state_issues s now rand req agent_id tok pending h = cc
  poll_state_issues s now rand req agent_id tok approved h = (
    refl,
    finish_found_issues s now rand req agent_id tok (tenant_of_agent s.tenants agent_id) refl h,
  )
  poll_state_issues s now rand req agent_id tok denied h = cc
  poll_state_issues s now rand req agent_id tok expired h = cc

  poll_answer_issues :
      (s : Server) (now : ℤ) (rand : Bytes) (agent_id tok : Text)
      (r : Result ConsentStore.Error Request × ConsentStore.Store)
      → (poll_answer env s now rand agent_id r).0 ≡ issued tok
      → (req : Request) × (r.0 ≡ ok req)
        × (req.agent_id ≡ agent_id)
        × (req.state ≡ approved)
        × IsMinted s now rand req agent_id tok
  unfolding poll_answer mint_input
  poll_answer_issues s now rand agent_id tok (err e, c) h = cc
  poll_answer_issues s now rand agent_id tok (ok req, c) h =
      elim (Bool-cases (text_ne req.agent_id agent_id)) [
        | inl n ↦ absurd (ground (arith, n))
        | inr n ↦
            let (st, e) =
              poll_state_issues (record s { pending_store = c }) now rand req agent_id tok req.state
                (rw n at h) in
            (req, refl, eq_of_text_ne req.agent_id agent_id n, st, e)
      ]

  -- The token that a poll yields is the one minted for the request.
  pub poll_mints :
      (s : Server) (now : ℤ) (rand : Bytes) (thumb agent_id id tok : Text)
      → (poll env s now rand (some (thumb, agent_id)) id).0 ≡ issued tok
      → (req : Request) × ((ConsentStore.poll s.pending_store now id).0 ≡ ok req)
        × (req.agent_id ≡ agent_id)
        × (req.state ≡ approved)
        × IsMinted s now rand req agent_id tok
  unfolding poll
  poll_mints s now rand thumb agent_id id tok h =
      poll_answer_issues s now rand agent_id tok (ConsentStore.poll s.pending_store now id) h

  minted-IsIssuedFrom :
      (s : Server) (now : ℤ) (rand : Bytes) (req : Request) (agent_id tok : Text) (t : Tenant)
      (grant : AgentGrant) (key : IssuerKey)
      → mint env key (mint_input env s req t grant (resource_of env req) agent_id) now rand ≡ ok tok
      → IsIssuedFrom s now req agent_id tok t grant key
  unfolding mint_input minted_claims apply_vouched step_up_of
  minted-IsIssuedFrom s now rand req agent_id tok t grant key m =
      let inp = mint_input env s req t grant (resource_of env req) agent_id in
      let inside = (mint_iff env key inp now rand).0 (tok, m) in
      record {
        covered = inside.covered;
        claims = minted_claims env inp now rand;
        payment = inside.payment;
        stepped_up = λ h e. h (ground (arith, e));
        signed = ground (arith, m, mint_complete env key inp now rand inside);
        issuer = refl;
        audience = refl;
        agent = refl;
        holder = refl;
        subject = refl;
        granted = refl;
        issued_at = refl;
        expires = refl;
      }

  -- A poll yields a token only to the agent that made the request, only once the request is
  -- approved, and only what the authorization of the agent's tenant allows: it is signed with the
  -- first of the server's keys, which the authorization lists; the amount of the request's resource
  -- token is absent or within the cap, with a signature that the request holds if it is above a
  -- positive threshold; and its claims name the authorization's issuer and root, the resource, the
  -- agent, the key and the hash of the agent's grant, the clock's time, and as expiry the lifetime
  -- that the authorization's scope leaves of an hour.
  pub poll_issues :
      (s : Server) (now : ℤ) (rand : Bytes) (thumb agent_id id tok : Text)
      → (poll env s now rand (some (thumb, agent_id)) id).0 ≡ issued tok
      → (req : Request) × ((ConsentStore.poll s.pending_store now id).0 ≡ ok req)
        × (req.agent_id ≡ agent_id)
        × (req.state ≡ approved)
        × IsIssuable s now req agent_id tok
  poll_issues s now rand thumb agent_id id tok h =
      let (req, p, q, st, (a, t, grant, key, keys, e, f, g, m)) =
        poll_mints s now rand thumb agent_id id tok h in
      (
        req,
        p,
        q,
        st,
        (
          a,
          t,
          grant,
          key,
          keys,
          e,
          f,
          g,
          minted-IsIssuedFrom s now rand req agent_id tok t grant key m,
        ),
      )
