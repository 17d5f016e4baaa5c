-- ===== src/Consent/Concurrent/Safety.antt =====
-- Invariant I3 under every interleaving: an elevated request that is approved carries a signature
-- that passed the check.
use signet_ps.Base.{
  get_elem?, set, get_elem?-set_cases, get_elem?-append_cases, ℤ, Text, ok, ℕ, ◌≡◌, refl, ◌⊎◌, sym,
  ap, subst, ◌∙◌, inl, inr, some, List, [], ◌∷◌, ◌++◌,
}
use signet_ps.Env.{Env}
use signet_ps.Consent.{routine, elevated, approved, denied, Request}
use signet_ps.Consent.Store.{Store, check_step_up}
use signet_ps.Consent.Digest.Meaning.{IsStepUp, verify_eoa_sig-IsStepUp}
use signet_ps.Consent.Concurrent.{
  Task, click_checked, sig_checked, sig_written, deny_found, finished, System, run_task, start,
  Step, creates, polls, clicks, signs, denies, runs, Reach, boot, next,
}
use signet_ps.Consent.Concurrent.Evolution.{
  Later, by_code_locked_sound, get_elem?-put_step_up_sig, Grows, Grows-create, Grows-poll,
  TaskWrites, Grows-run_task,
}
use signet_ps.Consent.Concurrent.StepUp.{
  check_step_up_same, check_step_up-Later, check_step_up_sound, IsSigned, IsGood, Kept, Kept-refl,
  Permits, settle-Kept, expire-Kept, put-Kept, IsGood-Grows,
}

module _ (env : Env) where
  -- The step is a call of ApproveElevated for the request, with the root, chain and registry.
  Names : {sys sys' : System} → Step env sys sys' → Text → Text → Text → ℤ → Text → Type 0
  Names (signs code root' chain_id' registry' sig a r e h) id agent_id root chain_id registry =
      (r.id ≡ id)
      × ((r.agent_id ≡ agent_id)
          × ((root' ≡ root) × ((chain_id' ≡ chain_id) × (registry' ≡ registry))))
  Names (creates r e) id agent_id root chain_id registry = ⊥
  Names (polls now i) id agent_id root chain_id registry = ⊥
  Names (clicks code a r e h) id agent_id root chain_id registry = ⊥
  Names (denies code a r e) id agent_id root chain_id registry = ⊥
  Names (runs now i t e) id agent_id root chain_id registry = ⊥

  -- One of the steps so far is such a call.
  pub IsCalled : {sys : System} → Reach env sys → Text → Text → Text → ℤ → Text → Type 0
  unfolding Names
  IsCalled boot id agent_id root chain_id registry = ⊥
  IsCalled (next h st) id agent_id root chain_id registry =
      Names st id agent_id root chain_id registry ⊎ IsCalled h id agent_id root chain_id registry

module _ (env : Env) (Named : Text → Text → Text → ℤ → Text → Type 0) where
  -- What a task in flight has established about its object.
  abbrev pub Fits : Store → Task → Type 0
  Fits s (click_checked a) = (r : Request) × (get_elem? s.heap a ≡ some r) × (r.tier ≡ routine)
  Fits s (sig_checked a sig) =
      (r : Request) × (root : Text) × (chain_id : ℤ) × (registry : Text) × (get_elem? s.heap a
        ≡ some r)
      × Named r.id r.agent_id root chain_id registry
      × (check_step_up env r root chain_id registry sig ≡ ok tt)
  Fits s (sig_written a) = (r : Request) × (get_elem? s.heap a ≡ some r) × IsSigned env Named r
  Fits s (deny_found a) = Unit {0}
  Fits s finished = Unit {0}

  Later_tier : {r r' : Request} → Later r r' → r'.tier ≡ r.tier
  Later_tier l = ap (λ (x : Request). x.tier) l.same

  Fits-Grows : (s s' : Store) (t : Task) → Grows (Kept env Named) s s' → Fits s t → Fits s' t
  Fits-Grows s s' (click_checked a) g (r, e, h) =
      let (r', e', k) = g.at a r e in (r', e', Later_tier k.later ∙ h)
  Fits-Grows s s' (sig_checked a sig) g (r, root, chain_id, registry, e, n, h) =
      let (r', e', k) = g.at a r e in
      (
        r',
        root,
        chain_id,
        registry,
        e',
        subst (λ (x : Request). Named x.id x.agent_id root chain_id registry) (sym k.later.same) n,
        check_step_up-Later env r r' root chain_id registry sig k.later ∙ h,
      )
  Fits-Grows s s' (sig_written a) g (r, e, h) = let (r', e', k) = g.at a r e in (r', e', k.signed h)
  Fits-Grows s s' (deny_found a) g f = tt
  Fits-Grows s s' finished g f = tt

  pub record Inv (sys : System) : Type 0 where
    pub good : (a : ℕ) (r : Request) → get_elem? sys.store.heap a ≡ some r → IsGood env Named r
    pub fits : (i : ℕ) (t : Task) → get_elem? sys.tasks i ≡ some t → Fits sys.store t

  Fits-start :
      (s : Store) (ts : List Task) (t : Task)
      → Fits s t
      → ((i : ℕ) (u : Task) → get_elem? ts i ≡ some u → Fits s u)
      → (i : ℕ) (u : Task) → get_elem? (ts ++ t ∷ []) i ≡ some u
      → Fits s u
  Fits-start s ts t f h i u e = elim (get_elem?-append_cases ts i t e) [
    | inl (_, p) ↦ subst (Fits s) (sym p) f
    | inr p ↦ h i u p
  ]

  Permits-Fits :
      (s : Store) (a : ℕ) (r : Request)
      → Fits s (click_checked a)
      → get_elem? s.heap a ≡ some r
      → Permits env Named approved r
  Permits-Fits s a r (q, e, h) f = inr (inl (cc))

  Permits-signed :
      (s : Store) (a : ℕ) (r : Request)
      → Fits s (sig_written a)
      → get_elem? s.heap a ≡ some r
      → Permits env Named approved r
  Permits-signed s a r (q, e, h) f = inl (subst (IsSigned env Named) (cc) h)

  Kept-run_task :
      (now : ℤ) (t : Task) (s : Store)
      → Fits s t
      → TaskWrites (Kept env Named) (Kept-refl env Named) now t s
  Kept-run_task now (click_checked a) s f =
      λ r e. settle-Kept env Named now approved r (Permits-Fits s a r f e)
  Kept-run_task now (sig_checked a sig) s (q, root, chain_id, registry, e, n, h) = λ r e'.
      let same : q ≡ r = cc in
      put-Kept env Named r root chain_id registry sig
        (subst (λ (x : Request). Named x.id x.agent_id root chain_id registry) same n)
        (subst (λ x. check_step_up env x root chain_id registry sig ≡ ok tt) same h)
  Kept-run_task now (sig_written a) s f =
      λ r e. settle-Kept env Named now approved r (Permits-signed s a r f e)
  Kept-run_task now (deny_found a) s f =
      λ r e. settle-Kept env Named now denied r (inr (inr (λ p. cc)))
  Kept-run_task now finished s f = tt

  Grows-task :
      (now : ℤ) (t : Task) (s : Store) → Fits s t → Grows (Kept env Named) s (run_task now t s).0
  Grows-task now t s f =
      Grows-run_task (Kept env Named) (Kept-refl env Named) now t s (Kept-run_task now t s f)

  -- what a task has established once its section has run
  Fits-run_task :
      (now : ℤ) (t : Task) (s : Store) → Fits s t → Fits (run_task now t s).0 (run_task now t s).1
  unfolding run_task
  Fits-run_task now (click_checked a) s f = tt
  Fits-run_task now (sig_checked a sig) s (r, root, chain_id, registry, e, n, h) = (
    record r { step_up_sig = sig },
    get_elem?-put_step_up_sig s a sig r e,
    (
      root,
      chain_id,
      registry,
      n,
      check_step_up_same env r r.state sig root chain_id registry sig ∙ h,
    ),
  )
  Fits-run_task now (sig_written a) s f = tt
  Fits-run_task now (deny_found a) s f = tt
  Fits-run_task now finished s f = tt

  Inv-store :
      (sys : System) (s' : Store)
      → Grows (Kept env Named) sys.store s'
      → Inv sys
      → Inv (record sys { store = s' })
  Inv-store sys s' g v = record {
    good = IsGood-Grows env Named sys.store s' g v.good;
    fits = λ i t e. Fits-Grows sys.store s' t g (v.fits i t e);
  }

  Inv-start : (sys : System) (t : Task) → Fits sys.store t → Inv sys → Inv (start sys t)
  Inv-start sys t f v = record { good = v.good; fits = Fits-start sys.store sys.tasks t f v.fits }

  Inv-run :
      (sys : System) (now : ℤ) (i : ℕ) (t : Task)
      → get_elem? sys.tasks i ≡ some t
      → Inv sys
      → Inv (record {
        store = (run_task now t sys.store).0;
        tasks = set sys.tasks i (run_task now t sys.store).1;
      })
  Inv-run sys now i t e v =
      let f = v.fits i t e in
      let g = Grows-task now t sys.store f in
      record {
        good = IsGood-Grows env Named sys.store _ g v.good;
        fits = λ j u h. elim (get_elem?-set_cases sys.tasks i j _ h) [
          | inl (_, p) ↦
              subst (Fits (run_task now t sys.store).0) (sym p) (Fits-run_task now t sys.store f)
          | inr p ↦ Fits-Grows sys.store _ u g (v.fits j u p)
        ];
      }

  -- each root, chain and registry of the call that a step is are named
  AreNamed : {sys sys' : System} → Step env sys sys' → Type 0
  AreNamed st =
      (id agent_id root : Text) (chain_id : ℤ) (registry : Text)
      → Names env st id agent_id root chain_id registry
      → Named id agent_id root chain_id registry

  Inv-Step : {sys sys' : System} (st : Step env sys sys') → AreNamed st → Inv sys → Inv sys'
  unfolding AreNamed Names
  Inv-Step {sys} (creates r _) m v =
      Inv-store sys _ (Grows-create (Kept env Named) (Kept-refl env Named) sys.store r) v
  Inv-Step {sys} (polls now id) m v =
      Inv-store sys _
        (Grows-poll (Kept env Named) (Kept-refl env Named) sys.store now id
          (expire-Kept env Named now))
        v
  Inv-Step {sys} (clicks code a r e h) m v =
      Inv-start sys (click_checked a) (r, by_code_locked_sound sys.store code e, h) v
  Inv-Step {sys} (signs code root chain_id registry sig a r e h) m v =
      Inv-start sys (sig_checked a sig)
        (
          r,
          root,
          chain_id,
          registry,
          by_code_locked_sound sys.store code e,
          m r.id r.agent_id root chain_id registry (refl, (refl, (refl, (refl, refl)))),
          h,
        )
        v
  Inv-Step {sys} (denies code a r e) m v = Inv-start sys (deny_found a) tt v
  Inv-Step {sys} (runs now i t e) m v = Inv-run sys now i t e v

  Reach-Inv :
      {sys : System} (h : Reach env sys)
      → ((id agent_id root : Text) (chain_id : ℤ) (registry : Text)
          → IsCalled env h id agent_id root chain_id registry
          → Named id agent_id root chain_id registry)
      → Inv sys
  unfolding IsCalled AreNamed
  Reach-Inv boot m = record { good = λ a r e. cc; fits = λ i t e. cc }
  Reach-Inv (next h st) m =
      Inv-Step st
        (λ id agent_id root chain_id registry n. m id agent_id root chain_id registry (inl n))
        (Reach-Inv h
          (λ id agent_id root chain_id registry n. m id agent_id root chain_id registry (inr n)))

-- In every state that the calls can reach, in any interleaving and at any clock readings, an
-- elevated request that is approved holds a signature of 65 bytes that recovers, over the hash of
-- typed data whose fields are, by their names, those of this request, to the address of a root that
-- one of the calls of ApproveElevated so far named for the request, together with the chain and the
-- registry of that typed data.
pub approved_is_signed :
    (env : Env) (sys : System) (a : ℕ) (r : Request) (h : Reach env sys)
    → get_elem? sys.store.heap a ≡ some r
    → r.tier ≡ elevated
    → r.state ≡ approved
    → (root : Text) × (chain_id : ℤ) × (registry : Text) × IsCalled env h r.id r.agent_id root
        chain_id registry
      × IsStepUp env root r chain_id registry r.step_up_sig
approved_is_signed env sys a r h e t p =
    let inv = Reach-Inv env (IsCalled env h) h (λ id agent_id root chain_id registry n. n) in
    let (root, chain_id, registry, n, c) = (inv.good a r e).signed t p in
    let (digest, d, q) = check_step_up_sound env r root chain_id registry r.step_up_sig c in
    (
      root,
      chain_id,
      registry,
      n,
      verify_eoa_sig-IsStepUp env root r chain_id registry digest r.step_up_sig d q,
    )
