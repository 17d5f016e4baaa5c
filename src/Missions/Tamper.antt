-- ===== src/Missions/Tamper.antt =====
-- The hash of its newest entry fixes a whole chain, unless SHA-256 has a collision.
use mathlib.Core.List.{reverse}
use signet_ps.Base.{
  Bool-cases, refl, length, Bytes, text_eq, text_eq_iff, ◌≡◌, sym, ap, ◌∙◌, ◌≢◌, ◌⊎◌, inl, inr,
  some, List, [], ◌∷◌, arith,
}
use signet_ps.Std.Hex.{AreBytes, hex_encode_injective, length-hex_encode}
use signet_ps.Env.{Env}
use signet_ps.Missions.{Entry, entry_json, entry_hash}
use signet_ps.Missions.Chain.{head_hash, Linked, IsChain}

-- what is documented of the hash: a SHA-256 sum is 32 bytes
pub record HashLaws (env : Env) : Type 0 where
  pub size : (b : Bytes) → length (env.sha256 b) ≡ 32
  pub bytes : (b : Bytes) → AreBytes (env.sha256 b)

module _ (env : Env) (laws : HashLaws env) where
  abbrev pub IsIn : Entry → List Entry → Type 0
  IsIn e [] = ⊥
  IsIn e (f ∷ c) = (f ≡ e) ⊎ IsIn e c

  -- an entry of each chain, with different JSON texts that have one sum
  abbrev pub Collision : List Entry → List Entry → Type 0
  Collision c d =
      (e : Entry) × (f : Entry) × IsIn e c
      × IsIn f d
      × (env.marshal (entry_json env e) ≢ env.marshal (entry_json env f))
      × (env.sha256 (env.marshal (entry_json env e)) ≡ env.sha256 (env.marshal (entry_json env f)))

  -- Parsing the JSON that was hashed gives it back, for each entry of a chain.
  abbrev pub AreReadable : List Entry → Type 0
  AreReadable [] = Unit {0}
  AreReadable (e ∷ c) =
      (env.unmarshal (env.marshal (entry_json env e)) ≡ some (entry_json env e)) × AreReadable c

  -- Entry by entry, two chains agree on all that an entry holds, its time as it is written.
  abbrev pub SameHistory : List Entry → List Entry → Type 0
  SameHistory [] [] = Unit {0}
  SameHistory [] (f ∷ d) = ⊥
  SameHistory (e ∷ c) [] = ⊥
  SameHistory (e ∷ c) (f ∷ d) =
      (e.kind ≡ f.kind)
      × ((e.request_id ≡ f.request_id)
          × ((e.prev ≡ f.prev)
              × ((e.hash ≡ f.hash)
                  × ((env.format_time e.at ≡ env.format_time f.at) × SameHistory c d))))

  entry_hash-ne-nil : (e : Entry) → entry_hash env e ≢ []
  unfolding entry_hash
  entry_hash-ne-nil e h = omega (
    arith,
    ap length h,
    length-hex_encode (env.sha256 (env.marshal (entry_json env e))),
    laws.size (env.marshal (entry_json env e)),
  )

  sum_of_hash :
      (e f : Entry)
      → entry_hash env e ≡ entry_hash env f
      → env.sha256 (env.marshal (entry_json env e)) ≡ env.sha256 (env.marshal (entry_json env f))
  unfolding entry_hash
  sum_of_hash e f h = hex_encode_injective _ _ (laws.bytes _) (laws.bytes _) h

  same_entry :
      (e f : Entry)
      → entry_json env e ≡ entry_json env f
      → (e.kind ≡ f.kind)
        × (e.request_id ≡ f.request_id)
        × (e.prev ≡ f.prev)
        × (env.format_time e.at ≡ env.format_time f.at)
  unfolding entry_json
  same_entry e f h = (cc, cc, cc, cc)

  same_history :
      (c d : List Entry)
      → AreReadable c
      → AreReadable d
      → Linked env c
      → Linked env d
      → head_hash c ≡ head_hash d
      → SameHistory c d ⊎ Collision c d
  same_history [] [] r r' l l' h = inl tt
  same_history [] (f ∷ d) r r' l l' h = absurd (entry_hash-ne-nil f (sym l'.1.0 ∙ sym h))
  same_history (e ∷ c) [] r r' l l' h = absurd (entry_hash-ne-nil e (sym l.1.0 ∙ h))
  same_history (e ∷ c) (f ∷ d) (re, r) (rf, r') (p, (q, l)) (p', (q', l')) h =
      let sums = sum_of_hash e f (sym q ∙ h ∙ q') in
      elim (Bool-cases
        (text_eq (env.marshal (entry_json env e)) (env.marshal (entry_json env f)))) [
          | inr n ↦ inr (e, f, inl refl, inl refl, (λ x. cc ((text_eq_iff _ _).1 x)), sums)
          | inl y ↦
              let (k, i, pp, t) = same_entry e f (cc ((text_eq_iff _ _).0 y)) in
              elim (same_history c d r r' l l' (sym p ∙ pp ∙ p')) [
                | inl s ↦ inl (k, (i, (pp, (h, (t, s)))))
                | inr (e', f', in_c, in_d, ne, same) ↦ inr (e', f', inr in_c, inr in_d, ne, same)
              ]
        ]

  -- Two linked and readable chains whose newest entries have the same hash are the same history
  -- from the first entry on, or an entry of one and an entry of the other have different JSON texts
  -- with the same SHA-256 sum.
  pub head_fixes_chain :
      (c d : List Entry)
      → AreReadable (reverse c)
      → AreReadable (reverse d)
      → IsChain env c
      → IsChain env d
      → head_hash (reverse c) ≡ head_hash (reverse d)
      → SameHistory (reverse c) (reverse d) ⊎ Collision (reverse c) (reverse d)
  head_fixes_chain c d = same_history (reverse c) (reverse d)
