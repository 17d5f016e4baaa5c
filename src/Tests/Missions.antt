-- ===== src/Tests/Missions.antt =====
-- The log, on concrete runs.
use mathlib.Core.List.{reverse}
use signet_ps.Base.{pos, ◌%◌, length, replicate, codes, text_eq, refl, ◌⊎◌, List, [], ◌∷◌, arith}
use signet_ps.Env.{null, Env}
use signet_ps.Missions.{Entry, entry_json, entry_hash, link}
use signet_ps.Missions.Tamper.{HashLaws, Collision, SameHistory, head_fixes_chain}
use signet_ps.Tests.Fixture.{env_of, env}

abbrev first_entry : Entry
first_entry = record {
  kind = codes "token";
  request_id = codes "r1";
  at = pos 5;
  prev = [];
  hash = [];
}

-- an environment whose parser knows the one entry, and whose hash keeps the length
abbrev entry_env : Env
entry_env = record (env_of null (entry_json env first_entry)) {
  sha256 = λ b. (length b % 256) ∷ replicate 31 0;
}

abbrev one_entry : List Entry
one_entry = link entry_env [] first_entry ∷ []

laws : HashLaws entry_env
laws = record { size = λ b. refl; bytes = λ b. ground arith }

head_fixes_chain_example :
    SameHistory entry_env laws (reverse one_entry) (reverse one_entry)
    ⊎ Collision entry_env laws (reverse one_entry) (reverse one_entry)
unfolding link entry_json text_eq entry_hash
head_fixes_chain_example =
    head_fixes_chain entry_env laws one_entry one_entry (refl, tt) (refl, tt) (refl, (refl, tt))
      (refl, (refl, tt)) refl
