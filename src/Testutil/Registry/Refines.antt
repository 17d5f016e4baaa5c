-- ===== src/Testutil/Registry/Refines.antt =====
-- internal/testutil/registry.go beside internal/store/registry.go: what callers see of the two.
use mathlib.Core.Path.{ap₂}
use signet_ps.Base.{
  Option-cases, ℤ, lookup, Text, ℕ, ◌≡◌, refl, ◌≢◌, inl, inr, Bool, Option, none, List, [], ◌∷◌,
}
use signet_ps.Store.Registry.{MemoryRegistry, key, revoke, is_revoked}
use signet_ps.Testutil.Registry.{
  FakeRegistry, pair_key, fake_is_revoked, fake_revoke, made, fake_answer, count_call, read_flag,
}

-- a call of Revoke, or of IsRevoked with a chain, a registry, a root and a nonce
pub data RegistryCall : Type 0 where
  revoking : Text → ℕ → RegistryCall
  asking : ℤ → Text → Text → ℕ → RegistryCall

-- the answers to the calls of a sequence that ask
abbrev pub fake_answers : List RegistryCall → FakeRegistry → List (Option Bool)
fake_answers [] f = []
fake_answers (revoking root nonce ∷ calls) f = fake_answers calls (fake_revoke f root nonce)
fake_answers (asking c a root nonce ∷ calls) f =
    (fake_is_revoked f c a root nonce).0 ∷ fake_answers calls (fake_is_revoked f c a root nonce).1

abbrev pub memory_answers : List RegistryCall → MemoryRegistry → List (Option Bool)
memory_answers [] m = []
memory_answers (revoking root nonce ∷ calls) m = memory_answers calls (revoke m root nonce)
memory_answers (asking c a root nonce ∷ calls) m =
    is_revoked m c a root nonce ∷ memory_answers calls m

-- every answer is an error
abbrev pub AreErrors : List (Option Bool) → Type 0
AreErrors [] = Unit {0}
AreErrors (a ∷ rest) = (a ≡ none) × AreErrors rest

-- what stands in the fake's map, which may be nil
abbrev pub held : FakeRegistry → MemoryRegistry
unfolding made
held f = made f.revoked

answer_held :
    (f : FakeRegistry) (c : ℤ) (a root : Text) (nonce : ℕ)
    → f.failure ≡ none
    → (fake_is_revoked f c a root nonce).0 ≡ is_revoked (held f) c a root nonce
unfolding fake_is_revoked fake_answer count_call read_flag pair_key is_revoked key made lookup
answer_held f c a root nonce h = elim (Option-cases f.revoked) [
  | inl e ↦ rw (h, e) refl
  | inr (m, e) ↦ rw (h, e) refl
]

answer_failing :
    (f : FakeRegistry) (c : ℤ) (a root : Text) (nonce : ℕ)
    → f.failure ≢ none
    → (fake_is_revoked f c a root nonce).0 ≡ none
unfolding fake_is_revoked fake_answer count_call
answer_failing f c a root nonce h = elim (Option-cases f.failure) [
  | inl e ↦ absurd (h e)
  | inr (t, e) ↦ rw e refl
]

-- Asked and told the same in any order, a fake registry without an error answers as the registry in
-- memory does that starts with what the fake holds, also if its map is nil.
pub fake_answers-eq-memory_answers :
    (calls : List RegistryCall) (f : FakeRegistry)
    → f.failure ≡ none
    → fake_answers calls f ≡ memory_answers calls (held f)
unfolding fake_revoke revoke held count_call fake_is_revoked
fake_answers-eq-memory_answers [] f h = refl
fake_answers-eq-memory_answers (revoking root nonce ∷ calls) f h =
    fake_answers-eq-memory_answers calls (fake_revoke f root nonce) h
fake_answers-eq-memory_answers (asking c a root nonce ∷ calls) f h =
    ap₂ ◌∷◌ (answer_held f c a root nonce h) (fake_answers-eq-memory_answers calls (count_call f) h)

-- A fake that was given an error answers with it to every call.
pub fake_answers-AreErrors :
    (calls : List RegistryCall) (f : FakeRegistry)
    → f.failure ≢ none
    → AreErrors (fake_answers calls f)
unfolding fake_revoke count_call fake_is_revoked
fake_answers-AreErrors [] f h = tt
fake_answers-AreErrors (revoking root nonce ∷ calls) f h =
    fake_answers-AreErrors calls (fake_revoke f root nonce) h
fake_answers-AreErrors (asking c a root nonce ∷ calls) f h =
    (answer_failing f c a root nonce h, fake_answers-AreErrors calls (count_call f) h)
