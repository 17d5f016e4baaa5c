-- ===== src/Consent/Concurrent.antt =====
-- internal/consent/consent.go with many calls in flight: between two critical sections of one call
-- any other call may run. The steps are the critical sections, in any order, at any clock readings.
pub mod Evolution
pub mod Finality
pub mod StepUp
pub mod Safety
use signet_ps.Base.{get_elem?, set, ℤ, Bytes, Text, ok, ℕ, ◌≡◌, some, List, [], ◌∷◌, ◌++◌}
use signet_ps.Env.{Env}
use signet_ps.Consent.{routine, approved, denied, Request}
use signet_ps.Consent.Store.{
  Store, new_store, create, poll, by_code_locked, transition, put_step_up_sig, check_step_up,
}

-- A call that has left its first critical section, and what it still does to the object at an
-- address.
pub data Task : Type 0 where
  click_checked : ℕ → Task
  sig_checked : ℕ → Bytes → Task
  sig_written : ℕ → Task
  deny_found : ℕ → Task
  finished : Task

pub record System : Type 0 where
  pub store : Store
  pub tasks : List Task

-- the next critical section of a task
unfoldable pub run_task : ℤ → Task → Store → Store × Task
run_task now (click_checked a) s = ((transition s now a approved).1, finished)
run_task now (sig_checked a sig) s = (put_step_up_sig s a sig, sig_written a)
run_task now (sig_written a) s = ((transition s now a approved).1, finished)
run_task now (deny_found a) s = ((transition s now a denied).1, finished)
run_task now finished s = (s, finished)

abbrev pub start : System → Task → System
start sys t = record sys { tasks = sys.tasks ++ t ∷ [] }

module _ (env : Env) where
  -- ApproveElevated checks against the root, chain and registry that its caller names.
  pub data Step (sys : System) : System → Type 0 where
    creates :
        (r : Request) → r.step_up_sig ≡ [] → Step sys (record sys { store = create sys.store r })
    polls : (now : ℤ) (id : Text) → Step sys (record sys { store = (poll sys.store now id).1 })
    clicks :
        (code : Text) (a : ℕ) (r : Request)
        → by_code_locked sys.store code ≡ ok (a, r)
        → r.tier ≡ routine
        → Step sys (start sys (click_checked a))
    signs :
        (code root : Text) (chain_id : ℤ) (registry : Text) (sig : Bytes) (a : ℕ) (r : Request)
        → by_code_locked sys.store code ≡ ok (a, r)
        → check_step_up env r root chain_id registry sig ≡ ok tt
        → Step sys (start sys (sig_checked a sig))
    denies :
        (code : Text) (a : ℕ) (r : Request)
        → by_code_locked sys.store code ≡ ok (a, r)
        → Step sys (start sys (deny_found a))
    runs :
        (now : ℤ) (i : ℕ) (t : Task)
        → get_elem? sys.tasks i ≡ some t
        → Step sys (record {
          store = (run_task now t sys.store).0;
          tasks = set sys.tasks i (run_task now t sys.store).1;
        })

  pub data Reach : System → Type 0 where
    boot : Reach (record { store = new_store; tasks = [] })
    next : {sys sys' : System} → Reach sys → Step sys sys' → Reach sys'
