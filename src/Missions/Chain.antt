-- ===== src/Missions/Chain.antt =====
-- Appending keeps every chain of a log linked, and is all that changes a chain.
use mathlib.Core.List.{reverse, reverse-append}
use signet_ps.Base.{
  if◌then◌else◌, Bool-cases, get_last?-append, snoc_cases, lookup, lookup-insert, Text, text_eq,
  text_eq_refl, text_eq_iff, ◌≡◌, refl, sym, ap, ◌∙◌, ◌≢◌, inl, inr, List, [], ◌∷◌, ◌++◌, arith,
}
use signet_ps.Env.{Env}
use signet_ps.Missions.{
  Entry, Log, new_log, chain_of, entry_json, entry_hash, link, append, prev_in,
}

-- the hash that the next entry names, of a chain read from its newest entry
abbrev pub head_hash : List Entry → Text
head_hash [] = []
head_hash (e ∷ c) = e.hash

module _ (env : Env) where
  -- Read from the newest entry: each names the hash of the one before it, and its own hash is right.
  abbrev pub Linked : List Entry → Type 0
  Linked [] = Unit {0}
  Linked (e ∷ c) = (e.prev ≡ head_hash c) × ((e.hash ≡ entry_hash env e) × Linked c)

  -- A chain as the log holds it, oldest entry first.
  abbrev pub IsChain : List Entry → Type 0
  IsChain c = Linked (reverse c)

  abbrev pub IsLog : Log → Type 0
  IsLog log = (agent_id : Text) → IsChain (chain_of agent_id log)

  prev-link :
      (c : List Entry) (e : Entry) → e.prev ≡ [] → (link env c e).prev ≡ head_hash (reverse c)
  unfolding link
  prev-link c e p = elim (snoc_cases c) [
    | inl n ↦ rw n p
    | inr (ys, y, n) ↦
        rw (n, get_last?-append ys y, prev_in) (ap head_hash (sym (reverse-append ys (y ∷ []))))
  ]

  hash-link : (c : List Entry) (e : Entry) → (link env c e).hash ≡ entry_hash env (link env c e)
  unfolding link entry_hash entry_json
  hash-link c e = refl

  IsChain-link :
      (c : List Entry) (e : Entry) → e.prev ≡ [] → IsChain c → IsChain (c ++ link env c e ∷ [])
  IsChain-link c e p h =
      rw (reverse-append c (link env c e ∷ [])) (prev-link c e p, (hash-link c e, h))

  lookup-append :
      (log : Log) (a b : Text) (e : Entry)
      → chain_of b (append env log a e) ≡ (
          if text_eq a b
          then chain_of a log ++ link env (chain_of a log) e ∷ []
          else chain_of b log)
  unfolding append chain_of
  lookup-append log a b e =
      ground (arith, lookup-insert a b (chain_of a log ++ link env (chain_of a log) e ∷ []) log)

  -- An append to one agent's chain adds one entry to its end, with the kind, request and time that
  -- were given; the chains of the other agents are as they were.
  pub append_adds_one :
      (log : Log) (a : Text) (e : Entry)
      → (chain_of a (append env log a e) ≡ chain_of a log ++ link env (chain_of a log) e ∷ [])
        × ((link env (chain_of a log) e).kind ≡ e.kind)
        × ((link env (chain_of a log) e).request_id ≡ e.request_id)
        × ((link env (chain_of a log) e).at ≡ e.at)
        × ((b : Text) → a ≢ b → chain_of b (append env log a e) ≡ chain_of b log)
  unfolding link
  append_adds_one log a e = (
    rw (lookup-append log a a e, text_eq_refl a),
    refl,
    refl,
    refl,
    λ b n. lookup-append log a b e ∙ ground (arith, n, text_eq_iff a b),
  )

  -- A log whose chains are all linked stays one when an entry with an empty `Prev` is appended.
  pub append-IsLog :
      (log : Log) (a : Text) (e : Entry) → e.prev ≡ [] → IsLog log → IsLog (append env log a e)
  append-IsLog log a e p h b = elim (Bool-cases (text_eq a b)) [
    | inl t ↦ rw (lookup-append log a b e, t) (IsChain-link (chain_of a log) e p (h a))
    | inr t ↦ rw (lookup-append log a b e, t) (h b)
  ]

  pub IsLog-new_log : IsLog new_log
  unfolding chain_of lookup
  IsLog-new_log b = tt
