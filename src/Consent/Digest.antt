-- ===== src/Consent/Digest.antt =====
-- internal/consent/consent.go: ApprovalDigest, and the check of a root signature over it.
pub mod Meaning
use mathlib.Core.Option
use signet_ps.Base.{
  ◌==◌, if◌then◌else◌, length, ℤ, Bytes, Text, codes, text_eq, Result, ok, err, Bool, Option, none,
  some, List, [], ◌∷◌, ◌++◌,
}
use signet_ps.Std.Decimal.{show_int}
use signet_ps.Std.Hex.{hex_encode}
use signet_ps.Std.Strings.{trim_prefix, to_lower}
use signet_ps.Env.{Slice, texts_json, word, done, entry, TypedData, Env}
use signet_ps.Attest.Digest.{copy32}
use signet_ps.Attest.Verify.{unix, normalize_v}
use signet_ps.Consent.{Request}

approval_types : List (Text × List (Text × Text))
approval_types =
    (
      codes "EIP712Domain",
      (codes "name", codes "string")
          ∷ (codes "version", codes "string")
          ∷ (codes "chainId", codes "uint256")
          ∷ (codes "verifyingContract", codes "address")
          ∷ [],
    )
    ∷ (
      codes "Approval",
      (codes "requestId", codes "string")
          ∷ (codes "agent", codes "string")
          ∷ (codes "resource", codes "string")
          ∷ (codes "amountWei", codes "uint256")
          ∷ (codes "scopeHash", codes "bytes32")
          ∷ (codes "missionS256", codes "bytes32")
          ∷ (codes "expiresAt", codes "uint256")
          ∷ [],
    )
    ∷ []

or_zero : Text → Text
or_zero [] = codes "0"
or_zero (c ∷ s) = c ∷ s

-- `TrimPrefix` of "0x" and then of "0X"; `unicode` is ToLower beyond ASCII
unfoldable pub normalize_hex : (Text → Text) → Text → Text
unfolding trim_prefix
normalize_hex unicode s = to_lower unicode (trim_prefix (codes "0X") (trim_prefix (codes "0x") s))

unfoldable pub addr_eq : (Text → Text) → Text → Text → Bool
unfolding normalize_hex
addr_eq unicode a b = text_eq (normalize_hex unicode a) (normalize_hex unicode b)

pub data SigError : Type 0 where
  bad_length bad_signature not_root : SigError

module _ (env : Env) where
  keccak_strings : Slice Text → Text
  keccak_strings ts = codes "0x" ++ hex_encode (env.keccak256 (env.marshal (texts_json ts)))

  -- the `td` of ApprovalDigest
  unfoldable pub approval_typed_data : Request → ℤ → Text → TypedData
  unfolding or_zero keccak_strings approval_types
  approval_typed_data r chain_id registry = record {
    types = approval_types;
    primary_type = codes "Approval";
    domain = record {
      name = codes "SignetPS";
      version = codes "1";
      chain_id = chain_id;
      verifying_contract = registry;
    };
    message = entry (codes "requestId") (word r.id) (
        entry (codes "agent") (word r.agent_id) (
          entry (codes "resource") (word r.resource) (
            entry (codes "amountWei") (word (or_zero r.amount_wei)) (
              entry (codes "scopeHash") (word (keccak_strings r.scope_req)) (
                entry (codes "missionS256") (word (codes "0x" ++ r.mission_s256))
                  (entry (codes "expiresAt") (word (show_int (unix r.expires_at))) done))))));
  }

  unfoldable pub approval_digest : Request → ℤ → Text → Option Bytes
  approval_digest r chain_id registry =
      Option.map copy32 (env.typed_data_and_hash (approval_typed_data r chain_id registry))

  signed_by : Text → Option Bytes → Result SigError (Unit {0})
  signed_by root none = err bad_signature
  signed_by root (some key) =
      if addr_eq env.unicode_lower (env.address_hex key) root then ok tt else err not_root

  unfoldable pub verify_eoa_sig : Text → Bytes → Bytes → Result SigError (Unit {0})
  unfolding signed_by
  verify_eoa_sig root digest sig =
      if length sig == 65
      then signed_by root (env.sig_to_pub digest (normalize_v sig))
      else err bad_length
