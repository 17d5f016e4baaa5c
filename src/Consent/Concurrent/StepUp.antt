-- ===== src/Consent/Concurrent/StepUp.antt =====
-- What one write does to the signature of a request, and to the claim that an elevated request which
-- is approved is signed.
use signet_ps.Base.{
  Option-cases, get_elem?, ℤ, Bytes, Text, ok, ℕ, ◌≡◌, refl, sym, ap, subst, ◌∙◌, ◌≢◌, ◌⊎◌, inl,
  inr, some, arith,
}
use signet_ps.Env.{Env}
use signet_ps.Consent.{routine, elevated, State, approved, Request}
use signet_ps.Consent.Digest.{approval_typed_data, approval_digest, verify_eoa_sig}
use signet_ps.Consent.Store.{Store, expire, settle, check_step_up}
use signet_ps.Consent.Concurrent.Evolution.{
  Later, Later-refl, settle-Later, expire-Later, put-Later, Grows,
}

module _ (env : Env) where
  pub check_step_up_same :
      (r : Request) (st : State) (sg root : Text) (chain_id : ℤ) (registry : Text) (sig : Bytes)
      → check_step_up env (record r { state = st; step_up_sig = sg }) root chain_id registry sig
        ≡ check_step_up env r root chain_id registry sig
  unfolding check_step_up approval_digest approval_typed_data
  check_step_up_same r st sg root chain_id registry sig = refl

  pub check_step_up-Later :
      (r r' : Request) (root : Text) (chain_id : ℤ) (registry : Text) (sig : Bytes)
      → Later r r'
      → check_step_up env r' root chain_id registry sig
        ≡ check_step_up env r root chain_id registry sig
  check_step_up-Later r r' root chain_id registry sig l =
      ap (λ x. check_step_up env x root chain_id registry sig) l.same
      ∙ check_step_up_same r l.state l.sig root chain_id registry sig

  pub check_step_up_sound :
      (r : Request) (root : Text) (chain_id : ℤ) (registry : Text) (sig : Bytes)
      → check_step_up env r root chain_id registry sig ≡ ok tt
      → (digest : Bytes) × (approval_digest env r chain_id registry ≡ some digest)
        × (verify_eoa_sig env root digest sig ≡ ok tt)
  unfolding check_step_up
  check_step_up_sound r root chain_id registry sig h =
      elim (Option-cases (approval_digest env r chain_id registry)) [
        | inl e ↦ absurd (ground (arith, e))
        | inr (digest, e) ↦ (digest, e, ground (arith, e))
      ]

module _ (env : Env) (Named : Text → Text → Text → ℤ → Text → Type 0) where
  -- The request's own signature passes the checks of ApproveElevated, for a root, chain and registry
  -- that are named for it, by its id and its agent.
  abbrev pub IsSigned : Request → Type 0
  IsSigned r =
      (root : Text) × (chain_id : ℤ) × (registry : Text) × Named r.id r.agent_id root chain_id
        registry
      × (check_step_up env r root chain_id registry r.step_up_sig ≡ ok tt)

  IsSigned-state :
      (r r' : Request) (st : State)
      → r' ≡ record r { state = st; step_up_sig = r.step_up_sig }
      → IsSigned r
      → IsSigned r'
  IsSigned-state r r' st e (root, chain_id, registry, n, h) = (
    root,
    chain_id,
    registry,
    subst (λ (x : Request). Named x.id x.agent_id root chain_id registry) (sym e) n,
    subst (λ x. check_step_up env x root chain_id registry x.step_up_sig ≡ ok tt) (sym e)
        (check_step_up_same env r st r.step_up_sig root chain_id registry r.step_up_sig ∙ h),
  )

  -- An elevated request that is approved is signed.
  pub record IsGood (r : Request) : Type 0 where
    pub signed : r.tier ≡ elevated → r.state ≡ approved → IsSigned r

  pub record Kept (r r' : Request) : Type 0 where
    pub later : Later r r'
    pub signed : IsSigned r → IsSigned r'
    pub good : IsGood r → IsGood r'

  pub Kept-refl : (r : Request) → Kept r r
  Kept-refl r = record { later = Later-refl r; signed = λ h. h; good = λ h. h }

  -- What lets a request become `to`.
  abbrev pub Permits : State → Request → Type 0
  Permits to r = IsSigned r ⊎ ((r.tier ≡ routine) ⊎ (to ≢ approved))

  settle_same :
      (now : ℤ) (to : State) (r : Request)
      → (settle now to r).1
        ≡ record r { state = (settle now to r).1.state; step_up_sig = r.step_up_sig }
  unfolding settle
  settle_same now to r = ground arith

  settle_tier : (now : ℤ) (to : State) (r : Request) → (settle now to r).1.tier ≡ r.tier
  unfolding settle
  settle_tier now to r = ground arith

  settle_not_approved :
      (now : ℤ) (to : State) (r : Request)
      → to ≢ approved
      → (settle now to r).1.state ≡ approved
      → r.state ≡ approved
  unfolding settle
  settle_not_approved now to r n h = ground arith

  settle-IsGood :
      (now : ℤ) (to : State) (r : Request) → Permits to r → IsGood r → IsGood (settle now to r).1
  settle-IsGood now to r (inl s) g = record {
    signed = λ _ _. IsSigned-state r _ _ (settle_same now to r) s;
  }
  settle-IsGood now to r (inr (inl t)) g = record { signed = λ e _. cc (settle_tier now to r) }
  settle-IsGood now to r (inr (inr n)) g = record {
    signed = λ e h.
        IsSigned-state r _ _ (settle_same now to r)
          (g.signed (sym (settle_tier now to r) ∙ e) (settle_not_approved now to r n h));
  }

  pub settle-Kept : (now : ℤ) (to : State) (r : Request) → Permits to r → Kept r (settle now to r).1
  settle-Kept now to r p = record {
    later = settle-Later now to r;
    signed = IsSigned-state r _ _ (settle_same now to r);
    good = settle-IsGood now to r p;
  }

  expire_same :
      (now : ℤ) (r : Request)
      → expire now r ≡ record r { state = (expire now r).state; step_up_sig = r.step_up_sig }
  unfolding expire
  expire_same now r = ground arith

  expire_tier : (now : ℤ) (r : Request) → (expire now r).tier ≡ r.tier
  unfolding expire
  expire_tier now r = ground arith

  expire_not_approved :
      (now : ℤ) (r : Request) → (expire now r).state ≡ approved → r.state ≡ approved
  unfolding expire
  expire_not_approved now r h = ground arith

  pub expire-Kept : (now : ℤ) (r : Request) → Kept r (expire now r)
  expire-Kept now r = record {
    later = expire-Later now r;
    signed = IsSigned-state r _ _ (expire_same now r);
    good = λ g. record {
      signed = λ e h.
          IsSigned-state r _ _ (expire_same now r)
            (g.signed (sym (expire_tier now r) ∙ e) (expire_not_approved now r h));
    };
  }

  pub put-Kept :
      (r : Request) (root : Text) (chain_id : ℤ) (registry : Text) (sig : Bytes)
      → Named r.id r.agent_id root chain_id registry
      → check_step_up env r root chain_id registry sig ≡ ok tt
      → Kept r (record r { step_up_sig = sig })
  put-Kept r root chain_id registry sig n h = record {
    later = put-Later sig r;
    signed = λ _. now_signed;
    good = λ _. record { signed = λ _ _. now_signed };
  }
    where
      now_signed : IsSigned (record r { step_up_sig = sig })
      now_signed = (
        root,
        chain_id,
        registry,
        n,
        check_step_up_same env r r.state sig root chain_id registry sig ∙ h,
      )

  -- A store that only changes so keeps its approved requests signed.
  pub IsGood-Grows :
      (s s' : Store)
      → Grows Kept s s'
      → ((a : ℕ) (r : Request) → get_elem? s.heap a ≡ some r → IsGood r)
      → (a : ℕ) (r : Request) → get_elem? s'.heap a ≡ some r
      → IsGood r
  IsGood-Grows s s' g h a r e = elim (g.from a r e) [
    | inl (q, e', k) ↦ k.good (h a q e')
    | inr p ↦ record { signed = λ _ f. cc }
  ]
