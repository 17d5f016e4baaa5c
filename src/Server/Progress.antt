-- ===== src/Server/Progress.antt =====
-- A routine request that is approved in time gets its token.
use signet_ps.Base.{
  get_elem?, get_elem?-set_self, set, ℤ, ◌≤ℤ◌, lookup, Bytes, Text, text_eq_refl, codes, Result, ok,
  err, ℕ, ◌≡◌, refl, some, List, ◌∷◌, arith,
}
use signet_ps.Env.{Env}
use signet_ps.Attest.{AgentGrant}
use signet_ps.Consent.{routine, pending, approved, Request}
use signet_ps.Consent.Store as ConsentStore
use signet_ps.Consent.Store.{
  Store, is_late, deref, expire, by_code_locked, settle, transition, approve_routine,
}
use signet_ps.Store.Tenants.{Tenant, tenant_of_agent}
use signet_ps.Tokens.{IssuerKey}
use signet_ps.Tokens.Jwt.{sign_jwt}
use signet_ps.Tokens.Mint.Envelope.{InEnvelope, mint_complete}
use signet_ps.Tokens.Mint.Times.{final_claims}
use signet_ps.Server.State.{Server, issued}
use signet_ps.Server.Helpers.{resource_of}
use signet_ps.Server.Handlers.{
  mint_input, finish_with, finish_by, finish, finish_granted, finish_found, poll_state, poll_answer,
  poll, click_found, click_answer, approve_page, is_elevated,
}

-- the request that a code leads to stands in the heap under its own id
pub record IsPendingAt (s : Store) (code : Text) (a : ℕ) (r : Request) : Type 0 where
  pub by_code : lookup code s.by_code ≡ some r.id
  pub by_id : lookup r.id s.by_id ≡ some a
  pub at : get_elem? s.heap a ≡ some r
  pub waiting : r.state ≡ pending

abbrev approve : Request → Request
approve r = record r { state = approved }

approve_routine_lem :
    (s : Store) (now : ℤ) (code : Text) (a : ℕ) (r : Request)
    → IsPendingAt s code a r
    → r.tier ≡ routine
    → now ≤ℤ r.expires_at
    → approve_routine s now code ≡ (ok tt, record s { heap = set s.heap a (approve r) })
unfolding approve_routine by_code_locked deref transition settle is_late
approve_routine_lem s now code a r h tier early =
    ground (arith, h.by_code, h.by_id, h.at, h.waiting, tier, early)

poll_lem :
    (s : Store) (now : ℤ) (a : ℕ) (r q : Request)
    → lookup r.id s.by_id ≡ some a
    → get_elem? s.heap a ≡ some q
    → q.state ≡ approved
    → (ConsentStore.poll s now r.id).0 ≡ ok q
unfolding ConsentStore.poll deref expire
poll_lem s now a r q h k st = ground (arith, h, k, st)

module _ (env : Env) where
  -- the token for an approved request
  abbrev pub token_for : Server → IssuerKey → Request → Tenant → AgentGrant → ℤ → Bytes → Text
  token_for s key r t grant now rand =
      sign_jwt env key (codes "auth+jwt")
        (final_claims env (mint_input env s r t grant (resource_of env r) r.agent_id) now rand)

  click_lem :
      (s : Server) (now : ℤ) (code : Text) (a : ℕ) (r : Request)
      → IsPendingAt s.pending_store code a r
      → r.tier ≡ routine
      → now ≤ℤ r.expires_at
      → (approve_page env s now code).1 ≡ record s {
        pending_store = record s.pending_store { heap = set s.pending_store.heap a (approve r) };
      }
  unfolding approve_page click_found click_answer is_elevated by_code_locked deref
  click_lem s now code a r h tier early = ground (
    arith,
    h.by_code,
    h.by_id,
    h.at,
    tier,
    approve_routine_lem s.pending_store now code a r h tier early,
  )

  finish_lem :
      (s : Server) (now : ℤ) (rand : Bytes) (r : Request) (b : ℕ) (t : Tenant) (grant : AgentGrant)
      (key : IssuerKey) (keys : List IssuerKey)
      → s.cfg.issuer_keys ≡ key ∷ keys
      → InEnvelope env key (mint_input env s r t grant (resource_of env r) r.agent_id)
      → (finish env s now rand r (b, t) grant (resource_of env r) r.agent_id).0
        ≡ issued (token_for s key r t grant now rand)
  unfolding finish finish_by finish_with
  finish_lem s now rand r b t grant key keys first ok_input = ground (
    arith,
    first,
    mint_complete env key (mint_input env s r t grant (resource_of env r) r.agent_id) now rand
        ok_input,
  )

  answer_approved :
      (s : Server) (now : ℤ) (rand : Bytes) (x : Result ConsentStore.Error Request × Store)
      (q : Request) (b : ℕ) (t : Tenant) (grant : AgentGrant) (key : IssuerKey)
      (keys : List IssuerKey)
      → x.0 ≡ ok q
      → q.state ≡ approved
      → tenant_of_agent s.tenants q.agent_id ≡ some (b, t)
      → lookup q.agent_id t.grants ≡ some grant
      → s.cfg.issuer_keys ≡ key ∷ keys
      → InEnvelope env key (mint_input env s q t grant (resource_of env q) q.agent_id)
      → (poll_answer env s now rand q.agent_id x).0 ≡ issued (token_for s key q t grant now rand)
  unfolding poll_answer poll_state finish_found finish_granted mint_input
  answer_approved s now rand (err e, c) q b t grant key keys h st found granted first ok_input = cc
  answer_approved s now rand (ok r, c) q b t grant key keys h st found granted first ok_input =
      let s' : Server = record s { pending_store = c } in
      let same : r ≡ q = ground (arith, h) in
      rw same (
        ground (
          arith,
          text_eq_refl q.agent_id,
          st,
          found,
          granted,
          finish_lem s' now rand q b t grant key keys first ok_input,
        ))

  poll_approved :
      (s : Server) (now : ℤ) (rand : Bytes) (thumb : Text) (a : ℕ) (r q : Request) (b : ℕ)
      (t : Tenant) (grant : AgentGrant) (key : IssuerKey) (keys : List IssuerKey)
      → lookup r.id s.pending_store.by_id ≡ some a
      → get_elem? s.pending_store.heap a ≡ some q
      → q.state ≡ approved
      → tenant_of_agent s.tenants q.agent_id ≡ some (b, t)
      → lookup q.agent_id t.grants ≡ some grant
      → s.cfg.issuer_keys ≡ key ∷ keys
      → InEnvelope env key (mint_input env s q t grant (resource_of env q) q.agent_id)
      → (poll env s now rand (some (thumb, q.agent_id)) r.id).0
        ≡ issued (token_for s key q t grant now rand)
  unfolding poll poll_answer poll_state finish_found finish_granted mint_input
  poll_approved s now rand thumb a r q b t grant key keys by_id at st found granted first ok_input =
      answer_approved s now rand (ConsentStore.poll s.pending_store now r.id) q b t grant key keys
        (poll_lem s.pending_store now a r q by_id at st) st found granted first ok_input

  pub approved_is_issued :
      (s : Server) (now now' : ℤ) (rand : Bytes) (code thumb : Text) (a : ℕ) (r : Request) (b : ℕ)
      (t : Tenant) (grant : AgentGrant) (key : IssuerKey) (keys : List IssuerKey)
      → IsPendingAt s.pending_store code a r
      → r.tier ≡ routine
      → now ≤ℤ r.expires_at
      → tenant_of_agent s.tenants r.agent_id ≡ some (b, t)
      → lookup r.agent_id t.grants ≡ some grant
      → s.cfg.issuer_keys ≡ key ∷ keys
      → InEnvelope env key (mint_input env s (approve r) t grant (resource_of env r) r.agent_id)
      → (poll env (approve_page env s now code).1 now' rand (some (thumb, r.agent_id)) r.id).0
        ≡ issued (token_for s key (approve r) t grant now' rand)
  unfolding mint_input resource_of
  approved_is_issued s now now' rand code thumb a r b t grant key keys h tier early found granted
        first ok_input =
      rw (click_lem s now code a r h tier early) (
        poll_approved
          (record s {
            pending_store = record s.pending_store {
              heap = set s.pending_store.heap a (approve r);
            };
          })
          now' rand thumb a r (approve r) b t grant key keys h.by_id
          (get_elem?-set_self s.pending_store.heap a (approve r) r h.at) refl found granted first
          ok_input)
