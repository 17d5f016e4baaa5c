-- ===== src/Consent/Concurrent/Finality.antt =====
-- Once a request has been decided or has expired, no interleaving changes its state.
use signet_ps.Base.{get_elem?, ℤ, ℕ, ◌≡◌, ◌≢◌, some, arith}
use signet_ps.Env.{Env}
use signet_ps.Consent.{pending, approved, denied, Request}
use signet_ps.Consent.Store.{Store}
use signet_ps.Consent.Concurrent.{
  Task, click_checked, sig_checked, sig_written, deny_found, finished, System, Step, creates, polls,
  clicks, signs, denies, runs,
}
use signet_ps.Consent.Concurrent.Evolution.{
  Later, Later-refl, Later-trans, settle-Later, expire-Later, put-Later, Grows, Grows-refl,
  Grows-create, Grows-poll, TaskWrites, Grows-run_task,
}

Later-run_task : (now : ℤ) (t : Task) (s : Store) → TaskWrites Later Later-refl now t s
Later-run_task now (click_checked a) s = λ r e. settle-Later now approved r
Later-run_task now (sig_checked a sig) s = λ r e. put-Later sig r
Later-run_task now (sig_written a) s = λ r e. settle-Later now approved r
Later-run_task now (deny_found a) s = λ r e. settle-Later now denied r
Later-run_task now finished s = tt

module _ (env : Env) where
  Later-Step : {sys sys' : System} → Step env sys sys' → Grows Later sys.store sys'.store
  Later-Step {sys} (creates r _) = Grows-create Later Later-refl sys.store r
  Later-Step {sys} (polls now id) = Grows-poll Later Later-refl sys.store now id (expire-Later now)
  Later-Step {sys} (clicks code a r _ _) = Grows-refl Later Later-refl sys.store
  Later-Step {sys} (signs code root chain_id registry sig a r _ _) =
      Grows-refl Later Later-refl sys.store
  Later-Step {sys} (denies code a r _) = Grows-refl Later Later-refl sys.store
  Later-Step {sys} (runs now i t _) =
      Grows-run_task Later Later-refl now t sys.store (Later-run_task now t sys.store)

  -- any number of steps
  pub data Steps (sys : System) : System → Type 0 where
    stay : Steps sys sys
    more : {mid sys' : System} → Steps sys mid → Step env mid sys' → Steps sys sys'

  pub Later-Steps :
      {sys sys' : System}
      → Steps sys sys'
      → (a : ℕ) (r : Request) → get_elem? sys.store.heap a ≡ some r
      → (r' : Request) × (get_elem? sys'.store.heap a ≡ some r') × Later r r'
  Later-Steps stay a r e = (r, e, Later-refl r)
  Later-Steps (more h st) a r e =
      let (q, e₁, l₁) = Later-Steps h a r e in
      let (p, e₂, l₂) = (Later-Step st).at a q e₁ in (p, e₂, Later-trans l₁ l₂)

  -- Whatever the calls in flight do, a request that is not pending keeps its state, and everything
  -- of it but its signature stays as it was.
  pub decided_is_final :
      {sys sys' : System} (a : ℕ) (r : Request)
      → Steps sys sys'
      → get_elem? sys.store.heap a ≡ some r
      → r.state ≢ pending
      → (r' : Request) × (get_elem? sys'.store.heap a ≡ some r')
        × (r' ≡ record r { step_up_sig = r'.step_up_sig })
  decided_is_final a r h e n =
      let (r', e', l) = Later-Steps h a r e in (r', e', ground (arith, l.same, l.final, n))
