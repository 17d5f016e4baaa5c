-- ===== src/Consent/Concurrent/Evolution.antt =====
-- How the objects of the heap change in one critical section.
use native.Mathlib.Decide.{ℕ_discrete}
use signet_ps.Consent.{State, pending, approved, denied, Request}
use signet_ps.Consent.Concurrent.{
  Task, click_checked, sig_checked, sig_written, deny_found, finished, run_task,
}
use signet_ps.Consent.Store.{
  Store, nil_request, create, deref, expire, poll_found, poll, by_code_locked, settle, transition,
  put_step_up_sig,
}
use signet_ps.Base.{
  Option-cases, get_elem?, set, get_elem?-set_self, get_elem?-set_ne, get_elem?-append,
  get_elem?-set_cases, get_elem?-append_cases, ℤ, lookup, Bytes, Text, ok, or_fail-eq-ok, ℕ, ◌≡◌,
  refl, ap, subst, ◌∙◌, ◌⊎◌, inl, inr, Option, none, some, arith,
}

-- Only the state and the signature change, and a state other than pending is final.
pub record Later (r r' : Request) : Type 0 where
  pub state : State
  pub sig : Bytes
  pub same : r' ≡ record r { state = state; step_up_sig = sig }
  pub final : (r.state ≡ pending) ⊎ (state ≡ r.state)

pub Later-refl : (r : Request) → Later r r
Later-refl r = record { state = r.state; sig = r.step_up_sig; same = refl; final = inr refl }

pub Later-trans : {r q p : Request} → Later r q → Later q p → Later r p
Later-trans {r} {q} {p} h k = record {
  state = k.state;
  sig = k.sig;
  same = cc (h.same, k.same);
  final = ground (arith, h.same, k.same, h.final, k.final);
}

pub settle-Later : (now : ℤ) (to : State) (r : Request) → Later r (settle now to r).1
unfolding settle
settle-Later now to r = record {
  state = (settle now to r).1.state;
  sig = r.step_up_sig;
  same = ground arith;
  final = ground arith;
}

pub expire-Later : (now : ℤ) (r : Request) → Later r (expire now r)
unfolding expire
expire-Later now r = record {
  state = (expire now r).state;
  sig = r.step_up_sig;
  same = ground arith;
  final = ground arith;
}

pub put-Later : (sig : Bytes) (r : Request) → Later r (record r { step_up_sig = sig })
put-Later sig r = record { state = r.state; sig = sig; same = refl; final = inr refl }

pub deref_sound :
    (s : Store) (o : Option ℕ) {a : ℕ} {r : Request}
    → deref s o ≡ some (a, r)
    → get_elem? s.heap a ≡ some r
unfolding deref
deref_sound s none h = cc
deref_sound s (some b) h = elim (Option-cases (get_elem? s.heap b)) [
  | inl e ↦ absurd (ground (arith, e))
  | inr (q, e) ↦ ground (arith, e)
]

pub by_code_locked_sound :
    (s : Store) (code : Text) {a : ℕ} {r : Request}
    → by_code_locked s code ≡ ok (a, r)
    → get_elem? s.heap a ≡ some r
unfolding by_code_locked
by_code_locked_sound s code {a} {r} h = elim (Option-cases (lookup code s.by_code)) [
  | inl e ↦ absurd (ground (arith, e))
  | inr (id, e) ↦ deref_sound s (lookup id s.by_id) (or_fail-eq-ok _ nil_request (rw e at h))
]

-- The object after its signature has been written.
pub get_elem?-put_step_up_sig :
    (s : Store) (a : ℕ) (sig : Bytes) (r : Request)
    → get_elem? s.heap a ≡ some r
    → get_elem? (put_step_up_sig s a sig).heap a ≡ some (record r { step_up_sig = sig })
unfolding put_step_up_sig
get_elem?-put_step_up_sig s a sig r e = rw (e, put_step_up_sig) (get_elem?-set_self s.heap a _ r e)

-- Every object is still at its address, and has changed as `R` allows; a new one is pending.
pub record Grows (R : Request → Request → Type 0) (s s' : Store) : Type 0 where
  pub at :
      (a : ℕ) (r : Request)
      → get_elem? s.heap a ≡ some r
      → (r' : Request) × (get_elem? s'.heap a ≡ some r') × R r r'
  pub from :
      (a : ℕ) (r' : Request)
      → get_elem? s'.heap a ≡ some r'
      → ((r : Request) × (get_elem? s.heap a ≡ some r) × R r r') ⊎ (r'.state ≡ pending)

module _ (R : Request → Request → Type 0) (R-refl : (r : Request) → R r r) where
  pub Grows-refl : (s : Store) → Grows R s s
  Grows-refl s = record { at = λ a r e. (r, e, R-refl r); from = λ a r e. inl (r, e, R-refl r) }

  pub Grows-write :
      (s : Store) (a : ℕ) (r r' : Request)
      → get_elem? s.heap a ≡ some r
      → R r r'
      → Grows R s (record s { heap = set s.heap a r' })
  Grows-write s a r r' e l = record {
    at = λ b q f. elim (ℕ_discrete a b) [
      | yes p ↦ (r', rw (← p) (get_elem?-set_self s.heap a r' r e), subst (λ x. R x r') (cc) l)
      | no n ↦ (q, get_elem?-set_ne s.heap a b r' n ∙ f, R-refl q)
    ];
    from = λ b q f. elim (get_elem?-set_cases s.heap a b r' f) [
      | inl (p, g) ↦ inl (r, rw (← p) e, rw g l)
      | inr g ↦ inl (q, g, R-refl q)
    ];
  }

  pub Grows-create : (s : Store) (r : Request) → Grows R s (create s r)
  unfolding create
  Grows-create s r = record {
    at = λ a q e. (q, get_elem?-append s.heap a _ q e, R-refl q);
    from = λ a q e. elim (get_elem?-append_cases s.heap a _ e) [
      | inl (_, g) ↦ inr (ap (λ (x : Request). x.state) g)
      | inr g ↦ inl (q, g, R-refl q)
    ];
  }

  pub Grows-transition :
      (s : Store) (now : ℤ) (a : ℕ) (to : State)
      → ((r : Request) → get_elem? s.heap a ≡ some r → R r (settle now to r).1)
      → Grows R s (transition s now a to).1
  unfolding transition
  Grows-transition s now a to h = elim (Option-cases (get_elem? s.heap a)) [
    | inl e ↦ rw (e, transition) (Grows-refl s)
    | inr (r, e) ↦ rw (e, transition) (Grows-write s a r _ e (h r e))
  ]

  pub Grows-put_step_up_sig :
      (s : Store) (a : ℕ) (sig : Bytes)
      → ((r : Request) → get_elem? s.heap a ≡ some r → R r (record r { step_up_sig = sig }))
      → Grows R s (put_step_up_sig s a sig)
  unfolding put_step_up_sig
  Grows-put_step_up_sig s a sig h = elim (Option-cases (get_elem? s.heap a)) [
    | inl e ↦ rw (e, put_step_up_sig) (Grows-refl s)
    | inr (r, e) ↦ rw (e, put_step_up_sig) (Grows-write s a r _ e (h r e))
  ]

  poll_found-Grows :
      (s : Store) (now : ℤ) (o : Option (ℕ × Request))
      → ((a : ℕ) (r : Request) → o ≡ some (a, r) → get_elem? s.heap a ≡ some r)
      → ((r : Request) → R r (expire now r))
      → Grows R s (poll_found s now o).1
  unfolding poll_found
  poll_found-Grows s now none h k = Grows-refl s
  poll_found-Grows s now (some (a, r)) h k = Grows-write s a r _ (h a r refl) (k r)

  pub Grows-poll :
      (s : Store) (now : ℤ) (id : Text)
      → ((r : Request) → R r (expire now r))
      → Grows R s (poll s now id).1
  unfolding poll
  Grows-poll s now id k = poll_found-Grows s now _ (λ a r. deref_sound s _) k

  -- what a task may write
  abbrev pub TaskWrites : ℤ → Task → Store → Type 0
  TaskWrites now (click_checked a) s =
      (r : Request) → get_elem? s.heap a ≡ some r → R r (settle now approved r).1
  TaskWrites now (sig_checked a sig) s =
      (r : Request) → get_elem? s.heap a ≡ some r → R r (record r { step_up_sig = sig })
  TaskWrites now (sig_written a) s =
      (r : Request) → get_elem? s.heap a ≡ some r → R r (settle now approved r).1
  TaskWrites now (deny_found a) s =
      (r : Request) → get_elem? s.heap a ≡ some r → R r (settle now denied r).1
  TaskWrites now finished s = Unit {0}

  pub Grows-run_task :
      (now : ℤ) (t : Task) (s : Store) → TaskWrites now t s → Grows R s (run_task now t s).0
  unfolding run_task
  Grows-run_task now (click_checked a) s w = Grows-transition s now a approved w
  Grows-run_task now (sig_checked a sig) s w = Grows-put_step_up_sig s a sig w
  Grows-run_task now (sig_written a) s w = Grows-transition s now a approved w
  Grows-run_task now (deny_found a) s w = Grows-transition s now a denied w
  Grows-run_task now finished s w = Grows-refl s
