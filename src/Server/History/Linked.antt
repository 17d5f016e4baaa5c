-- ===== src/Server/History/Linked.antt =====
-- internal/server over internal/missions: the log of every tenant is linked.
use signet_ps.Env.{Env}
use signet_ps.Missions.{Log}
use signet_ps.Missions.Chain.{IsLog, append-IsLog, IsLog-new_log}
use signet_ps.Store.Tenants.{Tenant, new_tenant, Tenants}
use signet_ps.Server.State.{Config, Server}
use signet_ps.Server.Stable.{IsReachable}
use signet_ps.Server.Stable.Kept.{stable_of_reachable}
use signet_ps.Base.{
  get_elem?, get_elem?-set_cases, get_elem?-append_cases, ℕ, ◌≡◌, sym, ap, subst, ◌∙◌, inl, inr,
  some,
}
use signet_ps.Server.History.Touches.{
  LogStep, unlogged, logged, Touches, untouched, rewritten, added, touching_lem,
}

module _ (env : Env) where
  abbrev AreLinked : Tenants → Type 0
  AreLinked ts = (a : ℕ) (t : Tenant) → get_elem? ts.heap a ≡ some t → IsLog env t.log

  LogStep-IsLog : {l l' : Log} → LogStep env l l' → IsLog env l → IsLog env l'
  LogStep-IsLog unlogged h = h
  LogStep-IsLog {l} (logged agent_id e p) h = append-IsLog env l agent_id e p h

  Touches-AreLinked : (ts ts' : Tenants) → Touches env ts ts' → AreLinked ts → AreLinked ts'
  unfolding new_tenant
  Touches-AreLinked ts ts' untouched h b u e = h b u e
  Touches-AreLinked ts ts' (rewritten _ a t t' at st (heap, _)) h b u e =
      elim (get_elem?-set_cases ts.heap a b t' (ap (λ x. get_elem? x b) (sym heap) ∙ e)) [
        | inl (_, same) ↦
            subst (λ (x : Tenant). IsLog env x.log) (sym same) (LogStep-IsLog st (h a t at))
        | inr f ↦ h b u f
      ]
  Touches-AreLinked ts ts' (added psa fresh) h b u e =
      elim (get_elem?-append_cases ts.heap b (new_tenant psa) e) [
        | inl (_, same) ↦ subst (λ (x : Tenant). IsLog env x.log) (sym same) (IsLog-new_log env)
        | inr f ↦ h b u f
      ]

  -- Whatever requests a server has served while the registry changes, the log of each of its
  -- tenants holds for each agent a chain whose entries each name the hash of the one before and
  -- have the right hash.
  pub reachable-IsLog :
      {cfg : Config} {s : Server} (a : ℕ) (t : Tenant)
      → IsReachable env cfg s
      → get_elem? s.tenants.heap a ≡ some t
      → IsLog env t.log
  reachable-IsLog a t reached at =
      stable_of_reachable env (λ cfg ts. AreLinked ts)
        (touching_lem env AreLinked Touches-AreLinked) (λ b u e. absurd (cc)) reached a t at
