-- ===== src/Server/Moves/Atomic.antt =====
-- internal/server over internal/consent: the handlers call the store's methods whole, and each method
-- is a run of critical sections.
use signet_ps.Env.{Env}
use signet_ps.Consent.{Tier, routine, elevated, approved, Request}
use signet_ps.Consent.Store as ConsentStore
use signet_ps.Consent.Store.{
  Store, needs_signature, is_routine, check_step_up, create, by_code_locked, approve_routine,
  transition, put_step_up_sig,
}
use signet_ps.Consent.Concurrent.{
  Task, click_checked, sig_checked, sig_written, finished, run_task, creates, polls, clicks, signs,
  runs, Reach, boot, next,
}
use signet_ps.Store.Tenants.{Tenants}
use signet_ps.Server.State.{Config, Server}
use signet_ps.Server.Stable.{IsReachable, starts, serves, registers}
use signet_ps.Server.Moves.{Move, creating, polling, clicking, signing, Moves, at_rest, moved}
use signet_ps.Server.Moves.Steps.{Step-MovesTo}
use signet_ps.Base.{
  Text, ℤ, ℕ, List, [], ◌∷◌, ◌++◌, length, set, get_elem?-length, ◌≡◌, err, if◌then◌else◌, inl, inr,
  ok, refl, ap, subst, Result-cases,
}

-- no call is in flight
abbrev pub AreFinished : List Task → Type 0
AreFinished [] = Unit {0}
AreFinished (t ∷ tasks) = (t ≡ finished) × AreFinished tasks

AreFinished-append : (tasks : List Task) → AreFinished tasks → AreFinished (tasks ++ finished ∷ [])
AreFinished-append [] h = (refl, tt)
AreFinished-append (t ∷ tasks) h = (h.0, AreFinished-append tasks h.1)

set_last :
    (tasks : List Task) (t u : Task) → set (tasks ++ t ∷ []) (length tasks) u ≡ tasks ++ u ∷ []
set_last [] t u = refl
set_last (x ∷ tasks) t u = ap (λ rest. x ∷ rest) (set_last tasks t u)

module _ (env : Env) where
  abbrev At : Store → List Task → Type 0
  At c tasks = Reach env (record { store = c; tasks = tasks })

  -- the store of a system in which no call is in flight
  abbrev pub IsIdle : Store → Type 0
  IsIdle c =
      (tasks : List Task) × AreFinished tasks × Reach env (record { store = c; tasks = tasks })

  run_last :
      (c : Store) (tasks : List Task) (now : ℤ) (t : Task)
      → At c (tasks ++ t ∷ [])
      → At (run_task now t c).0 (tasks ++ (run_task now t c).1 ∷ [])
  run_last c tasks now t h =
      subst (λ ts. At (run_task now t c).0 ts) (set_last tasks t (run_task now t c).1)
        (next h (runs now (length tasks) t (get_elem?-length tasks t)))

  click_run :
      (c : Store) (tasks : List Task) (now : ℤ) (code : Text) (a : ℕ) (r : Request) (tier : Tier)
      → AreFinished tasks
      → At c tasks
      → by_code_locked c code ≡ ok (a, r)
      → r.tier ≡ tier
      → IsIdle (if is_routine tier then transition c now a approved else (err needs_signature, c)).1
  unfolding is_routine run_task
  click_run c tasks now code a r routine done h p t = (
    tasks ++ finished ∷ [],
    AreFinished-append tasks done,
    run_last c tasks now (click_checked a) (next h (clicks code a r p t)),
  )
  click_run c tasks now code a r elevated done h p t = (tasks, done, h)

  clicking_lem :
      (c : Store) (now : ℤ) (code : Text) → IsIdle c → IsIdle (approve_routine c now code).1
  unfolding approve_routine
  clicking_lem c now code (tasks, done, h) = elim (Result-cases (by_code_locked c code)) [
    | inr (e, p) ↦ rw p (tasks, done, h)
    | inl ((a, r), p) ↦ rw p (click_run c tasks now code a r r.tier done h p refl)
  ]

  sign_run :
      (c : Store) (tasks : List Task) (now : ℤ) (code root : Text) (chain_id : ℤ)
      (registry sig : Text) (a : ℕ) (r : Request)
      → AreFinished tasks
      → At c tasks
      → by_code_locked c code ≡ ok (a, r)
      → check_step_up env r root chain_id registry sig ≡ ok tt
      → IsIdle (transition (put_step_up_sig c a sig) now a approved).1
  unfolding run_task
  sign_run c tasks now code root chain_id registry sig a r done h p q = (
    tasks ++ finished ∷ [],
    AreFinished-append tasks done,
    run_last (put_step_up_sig c a sig) tasks now (sig_written a) (
        run_last c tasks now (sig_checked a sig)
          (next h (signs code root chain_id registry sig a r p q))),
  )

  signing_lem :
      (c : Store) (now : ℤ) (code root : Text) (chain_id : ℤ) (registry sig : Text) (a : ℕ)
      (r : Request)
      → by_code_locked c code ≡ ok (a, r)
      → IsIdle c
      → IsIdle (ConsentStore.approve_elevated env c now code root chain_id registry sig).1
  unfolding ConsentStore.approve_elevated
  signing_lem c now code root chain_id registry sig a r p (tasks, done, h) =
      rw p (elim (Result-cases (check_step_up env r root chain_id registry sig)) [
        | inr (e, q) ↦ rw q (tasks, done, h)
        | inl (u, q) ↦ rw q (sign_run c tasks now code root chain_id registry sig a r done h p q)
      ])

  Move-IsIdle :
      {cfg : Config} {ts : Tenants} {c c' : Store} → Move env cfg ts c c' → IsIdle c → IsIdle c'
  Move-IsIdle (creating r a t fresh _) (tasks, done, h) = (tasks, done, next h (creates r fresh))
  Move-IsIdle (polling now id) (tasks, done, h) = (tasks, done, next h (polls now id))
  Move-IsIdle {cfg} {ts} {c} (clicking now code) h = clicking_lem c now code h
  Move-IsIdle {cfg} {ts} {c} (signing now code sig a r b t p q) h =
      signing_lem c now code t.root cfg.chain_id cfg.registry_addr sig a r p h

  Moves-IsIdle :
      {cfg : Config} {ts : Tenants} {c c' : Store} → Moves env cfg ts c c' → IsIdle c → IsIdle c'
  Moves-IsIdle at_rest h = h
  Moves-IsIdle (moved before m) h = Move-IsIdle m (Moves-IsIdle before h)

  -- Whatever requests a server has served while the registry changes, its store of requests is one
  -- that concurrent calls can reach, with no call left in flight: each handler is a sequence of
  -- whole calls.
  pub reachable-IsIdle :
      {cfg : Config} {s : Server} → IsReachable env cfg s → IsIdle s.pending_store
  reachable-IsIdle starts = ([], tt, boot)
  reachable-IsIdle (serves reached st) =
      Moves-IsIdle (Step-MovesTo env st).1 (reachable-IsIdle reached)
  reachable-IsIdle (registers r reached) = reachable-IsIdle reached
