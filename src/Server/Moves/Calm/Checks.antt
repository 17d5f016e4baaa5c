-- ===== src/Server/Moves/Calm/Checks.antt =====
-- internal/server: the checks of the handlers end in a status, never at a nil pointer.
use signet_ps.Env.{Env}
use signet_ps.Consent.Store.{Store, by_code_locked, deref}
use signet_ps.Store.Tenants.{Tenants, tenant_of_agent}
use signet_ps.Missions.{consistent}
use signet_ps.Server.Helpers.{parse_resource_token}
use signet_ps.Server.State.{Server, Reply, failed, panicked, answer}
use signet_ps.Server.Handlers.{code_failed, token_checks}
use signet_ps.Server.Moves.Indexed.{IsIndexed}
use signet_ps.Tokens.{IssuerKey}
use signet_ps.Base.{
  length, List, [], ◌∷◌, or_fail, fail_if, ◌>>=◌, codes, Option-cases, lookup, Text, text_ne,
  Result, ok, err, wrap_err, ℕ, Bool, true, false, ◌≡◌, ◌≢◌, refl, sym, subst, inl, inr, Option,
  none, some, arith,
}

-- The first of the keys has a private key that ed25519.Sign takes.
abbrev pub CanIssue : List IssuerKey → Type 0
CanIssue [] = ⊥
CanIssue (key ∷ keys) = length key.priv ≡ 64

-- a check that does not answer with a panic
abbrev pub IsCalm : {A : Type 0} → Result Reply A → Type 0
IsCalm (ok a) = Unit {0}
IsCalm (err r) = r ≢ panicked

pub failed-ne-panicked : (status : ℕ) (code : Text) → failed status code ≢ panicked
failed-ne-panicked status code h = cc

pub bind-IsCalm :
    {A B : Type 0} (m : Result Reply A) (f : A → Result Reply B)
    → IsCalm m
    → ((a : A) → IsCalm (f a))
    → IsCalm (m >>= f)
bind-IsCalm (ok a) f h k = k a
bind-IsCalm (err r) f h k = h

pub or_fail-IsCalm :
    {A : Type 0} (o : Option A) (status : ℕ) (code : Text) → IsCalm (or_fail o (failed status code))
or_fail-IsCalm none status code = failed-ne-panicked status code
or_fail-IsCalm (some a) status code = tt

pub fail_if-IsCalm : (b : Bool) (status : ℕ) (code : Text) → IsCalm (fail_if b (failed status code))
fail_if-IsCalm true status code = failed-ne-panicked status code
fail_if-IsCalm false status code = tt

pub wrap_err-IsCalm :
    {E A : Type 0} (r : Result E A) (status : ℕ) (code : Text)
    → IsCalm (wrap_err (λ e. failed status code) r)
wrap_err-IsCalm (ok a) status code = tt
wrap_err-IsCalm (err e) status code = failed-ne-panicked status code

module _ (env : Env) where
  pub answer_calm :
      {A : Type 0} (s : Server) (r : Result Reply A) (f : A → Reply × Server)
      → IsCalm r
      → ((a : A) → r ≡ ok a → (f a).0 ≢ panicked)
      → (answer s r f).0 ≢ panicked
  answer_calm s (err e) f h k = h
  answer_calm s (ok a) f h k = k a refl

  pub by_code-IsCalm :
      (ts : Tenants) (c : Store) (code : Text)
      → IsIndexed ts c
      → IsCalm (wrap_err code_failed (by_code_locked c code))
  unfolding by_code_locked deref code_failed
  by_code-IsCalm ts c code i = elim (Option-cases (lookup code c.by_code)) [
    | inl e ↦ rw e (failed-ne-panicked 404 (codes "unknown_code"))
    | inr (id, e) ↦
        let (a, r, by_id, at) = i.coded code id e in
        let found : by_code_locked c code ≡ ok (a, r) = ground (arith, e, by_id, at) in
        subst (λ x. IsCalm (wrap_err code_failed x)) (sym found) tt
  ]

  pub token_checks-IsCalm :
      (s : Server) (signer : Option (Text × Text)) (body : Option Text)
      → IsCalm (token_checks env s signer body)
  unfolding token_checks
  token_checks-IsCalm s none body = failed-ne-panicked 401 (codes "invalid_signature")
  token_checks-IsCalm s (some (thumb, agent_id)) body =
      let refused = codes "no_agent_grant" in
      let invalid = codes "invalid_request" in
      bind-IsCalm (or_fail (tenant_of_agent s.tenants agent_id) (failed 403 refused)) _
        (or_fail-IsCalm (tenant_of_agent s.tenants agent_id) 403 refused)
        λ (a, t).
          bind-IsCalm (or_fail (lookup agent_id t.grants) (failed 403 refused)) _
            (or_fail-IsCalm (lookup agent_id t.grants) 403 refused)
            λ grant.
              bind-IsCalm (fail_if (text_ne grant.agent_thumbprint thumb) (failed 403 refused)) _
                (fail_if-IsCalm (text_ne grant.agent_thumbprint thumb) 403 refused)
                λ _.
                  bind-IsCalm (or_fail body (failed 400 invalid)) _
                    (or_fail-IsCalm body 400 invalid)
                    λ raw.
                      bind-IsCalm (or_fail (parse_resource_token env raw) (failed 400 invalid)) _
                        (or_fail-IsCalm (parse_resource_token env raw) 400 invalid)
                        λ res.
                          bind-IsCalm _ _
                            (wrap_err-IsCalm
                              (consistent agent_id grant.mission_scope_s256 res.scope
                                res.amount_wei)
                              403 (codes "mission_inconsistent"))
                            (λ _. tt)
