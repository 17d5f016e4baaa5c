-- ===== src/Consent.antt =====
-- internal/consent/consent.go: requests, the approval digest, and the store of requests.
pub mod Digest
pub mod Store
pub mod Concurrent
use signet_ps.Base.{ℤ, Bytes, Text}
use signet_ps.Env.{Slice}

pub data Tier : Type 0 where
  routine elevated : Tier

pub data State : Type 0 where
  pending approved denied expired : State

-- Times are nanoseconds since the Unix epoch.
pub record Request : Type 0 where
  pub id : Text
  pub code : Text
  pub agent_id : Text
  pub resource : Text
  pub amount_wei : Text
  pub scope_req : Slice Text
  pub mission_s256 : Text
  pub tier : Tier
  pub state : State
  pub created_at : ℤ
  pub expires_at : ℤ
  pub resource_json : Bytes
  pub step_up_sig : Bytes
