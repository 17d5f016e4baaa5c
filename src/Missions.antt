-- ===== src/Missions.antt =====
-- internal/missions/missions.go: the log of an agent's interactions, a hash chain for each agent.
pub mod Chain
pub mod Tamper
use signet_ps.Base.{
  get_last?, ℤ, Map, lookup, insert, Text, codes, text_eq, Result, fail_if, Bool, false, none, some,
  List, [], ◌∷◌, ◌++◌,
}
use signet_ps.Std.Hex.{hex_encode}
use signet_ps.Env.{Json, text, obj, end, field, Slice, Env}

pub record Entry : Type 0 where
  pub kind : Text
  pub request_id : Text
  pub at : ℤ
  pub prev : Text
  pub hash : Text

-- the field `byAgent`
abbrev pub Log : Type 0
Log = Map (List Entry)

abbrev pub new_log : Log
new_log = []

-- a missing key reads as nil
unfoldable pub chain_of : Text → Log → List Entry
chain_of agent_id log = elim (lookup agent_id log) [ none ↦ [] | some c ↦ c ]

-- `if n > 0 { e.Prev = chain[n-1].Hash }`
abbrev prev_in : List Entry → Text → Text
prev_in chain prev = elim (get_last? chain) [ none ↦ prev | some l ↦ l.hash ]

module _ (env : Env) where
  -- the anonymous struct that is hashed
  unfoldable pub entry_json : Entry → Json
  entry_json e = obj (
      field (codes "Kind") (text e.kind) (
        field (codes "RequestID") (text e.request_id) (
          field (codes "Prev") (text e.prev)
            (field (codes "At") (text (env.format_time e.at)) end))))

  unfoldable pub entry_hash : Entry → Text
  entry_hash e = hex_encode (env.sha256 (env.marshal (entry_json e)))

  seal : Entry → Entry
  seal e = record e { hash = entry_hash e }

  -- the entry as it is appended: an empty chain keeps the caller's `Prev`
  unfoldable pub link : List Entry → Entry → Entry
  unfolding seal
  link chain e = seal (record e { prev = prev_in chain e.prev })

  unfoldable pub append : Log → Text → Entry → Log
  unfolding link chain_of
  append log agent_id e =
      let chain = chain_of agent_id log in insert agent_id (chain ++ link chain e ∷ []) log

-- a copy of every chain
unfoldable pub export : Log → Log
export log = log

pub data Error : Type 0 where
  no_mission : Error

-- The v0 judge. The agent, the scope and the amount are not consulted.
unfoldable pub consistent : Text → Text → Slice Text → Text → Result Error (Unit {0})
consistent agent_id mission_s256 scope amount_wei = fail_if (text_eq mission_s256 []) no_mission

unfoldable pub auto_approvable : Text → Slice Text → Text → Bool
auto_approvable agent_id scope amount_wei = false
