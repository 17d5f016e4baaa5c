-- ===== src/Server/Moves/Rewrites.antt =====
-- internal/consent: a method that creates no request rewrites requests in place.
use signet_ps.Env.{Env}
use signet_ps.Consent.{State, approved, Request}
use signet_ps.Consent.Store as ConsentStore
use signet_ps.Consent.Store.{
  Store, Error, unknown_code, nil_request, is_routine, check_step_up, create, by_code_locked,
  approve_routine, transition, put_step_up_sig, deref, poll_found, expire, settle,
}
use signet_ps.Consent.Concurrent.Evolution.{settle-Later, expire-Later, deref_sound}
use signet_ps.Base.{
  Text, ℤ, ℕ, set, get_elem?, get_elem?-set_self, get_elem?-set_ne, get_elem?-set_cases, ◌≡◌,
  Option, some, none, Option-cases, Bool-cases, inl, inr, refl, ap, sym, subst, ◌∙◌, Result-cases,
}
use native.Mathlib.Decide.{ℕ_discrete}

-- The maps are as they were, and every object is still there, for the same agent.
pub record IsRewrite (c c' : Store) : Type 0 where
  pub same_ids : c'.by_id ≡ c.by_id
  pub same_codes : c'.by_code ≡ c.by_code
  pub at :
      (a : ℕ) (r : Request)
      → get_elem? c.heap a ≡ some r
      → (r' : Request) × (get_elem? c'.heap a ≡ some r')
  pub from :
      (a : ℕ) (r' : Request)
      → get_elem? c'.heap a ≡ some r'
      → (r : Request) × (get_elem? c.heap a ≡ some r) × (r'.agent_id ≡ r.agent_id)

IsRewrite-refl : (c : Store) → IsRewrite c c
IsRewrite-refl c = record {
  same_ids = refl;
  same_codes = refl;
  at = λ a r e. (r, e);
  from = λ a r e. (r, e, refl);
}

IsRewrite-trans : {c d e : Store} → IsRewrite c d → IsRewrite d e → IsRewrite c e
IsRewrite-trans h k = record {
  same_ids = k.same_ids ∙ h.same_ids;
  same_codes = k.same_codes ∙ h.same_codes;
  at = λ a r e. let (q, e₁) = h.at a r e in k.at a q e₁;
  from = λ a r e.
      let (q, e₁, same₁) = k.from a r e in
      let (p, e₂, same₂) = h.from a q e₁ in (p, e₂, same₁ ∙ same₂);
}

write-IsRewrite :
    (c : Store) (a : ℕ) (r r' : Request)
    → get_elem? c.heap a ≡ some r
    → r'.agent_id ≡ r.agent_id
    → IsRewrite c (record c { heap = set c.heap a r' })
write-IsRewrite c a r r' e same = record {
  same_ids = refl;
  same_codes = refl;
  at = λ b q f. elim (ℕ_discrete a b) [
    | yes p ↦ (
      r',
      subst (λ x. get_elem? (set c.heap a r') x ≡ some r') p (get_elem?-set_self c.heap a r' r e),
    )
    | no n ↦ (q, get_elem?-set_ne c.heap a b r' n ∙ f)
  ];
  from = λ b q f. elim (get_elem?-set_cases c.heap a b r' f) [
    | inl (p, g) ↦ (r, ap (get_elem? c.heap) (sym p) ∙ e, ap (λ (x : Request). x.agent_id) g ∙ same)
    | inr g ↦ (q, g, refl)
  ];
}

transition-IsRewrite :
    (c : Store) (now : ℤ) (a : ℕ) (to : State) → IsRewrite c (transition c now a to).1
unfolding transition
transition-IsRewrite c now a to = elim (Option-cases (get_elem? c.heap a)) [
  | inl e ↦ rw (e, transition) (IsRewrite-refl c)
  | inr (r, e) ↦
      rw (e, transition)
        (write-IsRewrite c a r (settle now to r).1 e
          (ap (λ (x : Request). x.agent_id) (settle-Later now to r).same))
]

put_step_up_sig-IsRewrite : (c : Store) (a : ℕ) (sig : Text) → IsRewrite c (put_step_up_sig c a sig)
unfolding put_step_up_sig
put_step_up_sig-IsRewrite c a sig = elim (Option-cases (get_elem? c.heap a)) [
  | inl e ↦ rw (e, put_step_up_sig) (IsRewrite-refl c)
  | inr (r, e) ↦
      rw (e, put_step_up_sig) (write-IsRewrite c a r (record r { step_up_sig = sig }) e refl)
]

poll_found-IsRewrite :
    (c : Store) (now : ℤ) (o : Option (ℕ × Request))
    → ((a : ℕ) (r : Request) → o ≡ some (a, r) → get_elem? c.heap a ≡ some r)
    → IsRewrite c (poll_found c now o).1
unfolding poll_found
poll_found-IsRewrite c now none h = IsRewrite-refl c
poll_found-IsRewrite c now (some (a, r)) h =
    write-IsRewrite c a r (expire now r) (h a r refl)
      (ap (λ (x : Request). x.agent_id) (expire-Later now r).same)

pub poll-IsRewrite : (c : Store) (now : ℤ) (id : Text) → IsRewrite c (ConsentStore.poll c now id).1
unfolding ConsentStore.poll
poll-IsRewrite c now id = poll_found-IsRewrite c now _ (λ a r. deref_sound c _)

pub approve_routine-IsRewrite :
    (c : Store) (now : ℤ) (code : Text) → IsRewrite c (approve_routine c now code).1
unfolding approve_routine
approve_routine-IsRewrite c now code = elim (Result-cases (by_code_locked c code)) [
  | inr (e, p) ↦ rw p (IsRewrite-refl c)
  | inl ((a, r), p) ↦ rw p (elim (Bool-cases (is_routine r.tier)) [
    | inl y ↦ rw y (transition-IsRewrite c now a approved)
    | inr n ↦ rw n (IsRewrite-refl c)
  ])
]

pub approve_elevated-IsRewrite :
    (env : Env) (c : Store) (now : ℤ) (code root : Text) (chain_id : ℤ) (registry sig : Text)
    → IsRewrite c (ConsentStore.approve_elevated env c now code root chain_id registry sig).1
unfolding ConsentStore.approve_elevated
approve_elevated-IsRewrite env c now code root chain_id registry sig =
    elim (Result-cases (by_code_locked c code)) [
      | inr (e, p) ↦ rw p (IsRewrite-refl c)
      | inl ((a, r), p) ↦
          rw p (elim (Result-cases (check_step_up env r root chain_id registry sig)) [
            | inr (e, q) ↦ rw q (IsRewrite-refl c)
            | inl (u, q) ↦ rw q (
                IsRewrite-trans (put_step_up_sig-IsRewrite c a sig)
                  (transition-IsRewrite (put_step_up_sig c a sig) now a approved))
          ])
    ]
