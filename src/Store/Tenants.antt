-- ===== src/Store/Tenants.antt =====
-- internal/store/tenants.go: the tenants of a server. A tenant is an object that the maps and the
-- callers point to, so the store holds a heap of them. Grants are not changed once stored.
pub mod Laws
pub mod WellFormed
use signet_ps.Base.{
  if◌then◌else◌, length, get_elem?, set, Map, lookup, insert, Text, text_eq, text_ne, contains,
  Result, ok, err, ◌>>=◌, ◌>>◌, fail_if, or_fail, ℕ, Bool, false, Option, none, some, List, [], ◌∷◌,
  ◌++◌,
}
use signet_ps.Env.{elems, Env}
use signet_ps.Attest.{PersonServerAuthorization, AgentGrant}
use signet_ps.Attest.Content.{agent_grant_json, content_hash}
use signet_ps.Attest.Verify as AttestVerify
use signet_ps.Attest.Verify.{Verifier, verify_psa}
use signet_ps.Missions.{Log, new_log}

pub record Tenant : Type 0 where
  pub root : Text
  pub psa : PersonServerAuthorization
  pub grants : Map AgentGrant
  pub log : Log

unfoldable pub new_tenant : PersonServerAuthorization → Tenant
new_tenant psa = record { root = psa.root; psa = psa; grants = []; log = new_log }

pub record Tenants : Type 0 where
  pub heap : List Tenant
  pub by_root : Map ℕ
  pub by_agent : Map Text
  pub by_grant_s256 : Map AgentGrant

abbrev pub new_tenants : Tenants
new_tenants = record { heap = []; by_root = []; by_agent = []; by_grant_s256 = [] }

pub data Error : Type 0 where
  covers_no_key bound_to_another_root not_registered : Error
  attestation : AttestVerify.Error → Error

abbrev pub write : Tenants → ℕ → Tenant → Tenants
write s a t = record s { heap = set s.heap a t }

at_address : Tenants → Option ℕ → Option (ℕ × Tenant)
at_address s none = none
at_address s (some a) = elim (get_elem? s.heap a) [ none ↦ none | some t ↦ some (a, t) ]

-- `ByRoot`
unfoldable pub tenant_of_root : Tenants → Text → Option (ℕ × Tenant)
unfolding at_address
tenant_of_root s root = at_address s (lookup root s.by_root)

-- `ByAgent`
unfoldable pub tenant_of_agent : Tenants → Text → Option (ℕ × Tenant)
tenant_of_agent s agent_id = elim (lookup agent_id s.by_agent) [
  | none ↦ none
  | some root ↦ tenant_of_root s root
]

-- A registered root keeps its object, with the new authorization; else the candidate is registered.
unfoldable pub onboard : Tenants → Tenant → Tenants
onboard s t = elim (tenant_of_root s t.root) [
  | none ↦ record s { heap = s.heap ++ t ∷ []; by_root = insert t.root (length s.heap) s.by_root }
  | some (a, existing) ↦ write s a (record existing { psa = t.psa })
]

-- `prev, ok := s.byAgent[agentID]; ok && prev != t.Root`
bound_elsewhere : Option Text → Text → Bool
bound_elsewhere none root = false
bound_elsewhere (some prev) root = text_ne prev root

-- `Enroll`, for the tenant at an address
unfoldable pub enroll : Env → Tenants → Text → ℕ × Tenant → AgentGrant → Result Error Tenants
unfolding bound_elsewhere
enroll env s agent_id (a, t) g = do
  fail_if (bound_elsewhere (lookup agent_id s.by_agent) t.root) bound_to_another_root
  ok (record s {
    heap = set s.heap a (record t { grants = insert agent_id g t.grants });
    by_agent = insert agent_id t.root s.by_agent;
    by_grant_s256 = insert (content_hash env (agent_grant_json g)) g s.by_grant_s256;
  })

unfoldable pub grant_by_s256 : Tenants → Text → Option AgentGrant
grant_by_s256 s s256 = lookup s256 s.by_grant_s256

-- the first of this server's keys that the authorization covers, or ""
unfoldable pub first_covered : List Text → List Text → Text
first_covered [] covered = []
first_covered (kt ∷ kts) covered = if contains covered kt then kt else first_covered kts covered

unfoldable pub verify_and_onboard :
    Env
    → Tenants
    → AttestVerify.Verifier
    → PersonServerAuthorization
    → Text
    → List Text
    → Result Error (ℕ × Tenant) × Tenants
unfolding first_covered new_tenant
verify_and_onboard env s v psa issuer_url key_thumbs =
    let covered = first_covered key_thumbs (elems psa.key_thumbprints) in
    if text_eq covered []
    then (err covers_no_key, s)
    else elim (verify_psa env v psa issuer_url covered) [
      | err e ↦ (err (attestation e), s)
      | ok _ ↦
          let s' = onboard s (new_tenant psa) in
          (or_fail (tenant_of_root s' psa.root) not_registered, s')
    ]
