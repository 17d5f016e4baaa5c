-- ===== src/Consent/Store.antt =====
-- internal/consent/consent.go: the store of requests. A request is an object that the store and its
-- callers point to, so the store holds a heap of them, and the address of one is its place there.
-- Each critical section under the mutex is one function; a method is a sequence of them.
use signet_ps.Base.{
  if◌then◌else◌, length, get_elem?, set, ℤ, ltb_ℤ, Map, lookup, insert, Bytes, Text, Result, ok,
  err, ◌>>=◌, ◌>>◌, fail_if, or_fail, wrap_err, ℕ, Bool, true, false, not, ◌&&◌, Option, none, some,
  List, [], ◌∷◌, ◌++◌,
}
use signet_ps.Env.{Env}
use signet_ps.Consent.{Tier, routine, elevated, State, pending, approved, denied, expired, Request}
use signet_ps.Consent.Digest.{SigError, approval_digest, verify_eoa_sig}

pub record Store : Type 0 where
  pub heap : List Request
  pub by_id : Map ℕ
  pub by_code : Map Text

abbrev pub new_store : Store
new_store = record { heap = []; by_id = []; by_code = [] }

pub data Error : Type 0 where
  unknown_request unknown_code nil_request : Error
  needs_signature not_elevated bad_digest : Error
  step_up : SigError → Error
  already : State → Error
  window_expired : Error

is_pending : State → Bool
is_pending pending = true
is_pending _ = false

-- `time.Now().After(r.ExpiresAt)`
unfoldable pub is_late : ℤ → Request → Bool
is_late now r = ltb_ℤ r.expires_at now

abbrev write : Store → ℕ → Request → Store
write s a r = record s { heap = set s.heap a r }

-- The caller's object is a new one: every caller makes it for this call.
unfoldable pub create : Store → Request → Store
create s r = record {
  heap = s.heap ++ record r { state = pending } ∷ [];
  by_id = insert r.id (length s.heap) s.by_id;
  by_code = insert r.code r.id s.by_code;
}

-- A pointer that a map does not hold is nil.
unfoldable pub deref : Store → Option ℕ → Option (ℕ × Request)
deref s none = none
deref s (some a) = elim (get_elem? s.heap a) [ none ↦ none | some r ↦ some (a, r) ]

unfoldable pub expire : ℤ → Request → Request
unfolding is_pending is_late
expire now r = if is_pending r.state && is_late now r then record r { state = expired } else r

unfoldable pub poll_found : Store → ℤ → Option (ℕ × Request) → Result Error Request × Store
poll_found s now none = (err unknown_request, s)
poll_found s now (some (a, r)) = (ok (expire now r), write s a (expire now r))

unfoldable pub poll : Store → ℤ → Text → Result Error Request × Store
unfolding poll_found deref expire
poll s now id = poll_found s now (deref s (lookup id s.by_id))

-- `byCodeLocked`, which may find the nil pointer
unfoldable pub by_code_locked : Store → Text → Result Error (ℕ × Request)
unfolding deref
by_code_locked s code = do
  id ← or_fail (lookup code s.by_code) unknown_code
  or_fail (deref s (lookup id s.by_id)) nil_request

-- What `transition` answers, and what the object becomes.
unfoldable pub settle : ℤ → State → Request → Result Error (Unit {0}) × Request
unfolding is_pending is_late
settle now to r =
    if not (is_pending r.state)
    then (err (already r.state), r)
    else if is_late now r
    then (err window_expired, record r { state = expired })
    else (ok tt, record r { state = to })

settle_at : Store → ℕ → Result Error (Unit {0}) × Request → Result Error (Unit {0}) × Store
settle_at s a (answer, r) = (answer, write s a r)

-- The critical section of `transition`, on the object at an address.
unfoldable pub transition : Store → ℤ → ℕ → State → Result Error (Unit {0}) × Store
unfolding settle settle_at
transition s now a to = elim (get_elem? s.heap a) [
  | none ↦ (err nil_request, s)
  | some r ↦ settle_at s a (settle now to r)
]

-- `r.StepUpSig = sig` under the mutex
unfoldable pub put_step_up_sig : Store → ℕ → Bytes → Store
put_step_up_sig s a sig = elim (get_elem? s.heap a) [
  | none ↦ s
  | some r ↦ write s a (record r { step_up_sig = sig })
]

abbrev continue :
    {A : Type 0}
    → Store
    → Result Error A
    → (A → Result Error (Unit {0}) × Store)
    → Result Error (Unit {0}) × Store
continue s (err e) f = (err e, s)
continue s (ok a) f = f a

unfoldable pub is_routine : Tier → Bool
is_routine routine = true
is_routine elevated = false

unfoldable pub approve_routine : Store → ℤ → Text → Result Error (Unit {0}) × Store
unfolding is_routine
approve_routine s now code =
    continue s (by_code_locked s code)
      λ (a, r). if is_routine r.tier then transition s now a approved else (err needs_signature, s)

module _ (env : Env) where
  -- The checks of ApproveElevated before it writes.
  unfoldable pub check_step_up : Request → Text → ℤ → Text → Bytes → Result Error (Unit {0})
  unfolding is_routine
  check_step_up r root chain_id registry sig = do
    fail_if (is_routine r.tier) not_elevated
    digest ← or_fail (approval_digest env r chain_id registry) bad_digest
    wrap_err step_up (verify_eoa_sig env root digest sig)

  unfoldable pub approve_elevated :
      Store → ℤ → Text → Text → ℤ → Text → Bytes → Result Error (Unit {0}) × Store
  approve_elevated s now code root chain_id registry sig =
      continue s (by_code_locked s code) λ (a, r).
        continue s (check_step_up r root chain_id registry sig)
          λ _. transition (put_step_up_sig s a sig) now a approved

unfoldable pub deny : Store → ℤ → Text → Result Error (Unit {0}) × Store
deny s now code = continue s (by_code_locked s code) λ (a, r). transition s now a denied
