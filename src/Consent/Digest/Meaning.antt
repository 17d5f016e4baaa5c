-- ===== src/Consent/Digest/Meaning.antt =====
-- internal/consent/consent.go: what a signature that verifyEOASig takes for a request says.
use signet_ps.Base.{
  lookup, if◌then◌else◌, length, Option-cases, ℤ, Bytes, Text, codes, text_eq, text_eq_iff, ok, ◌≡◌,
  ap, ◌∙◌, refl, inl, inr, Option, none, some, [], ◌∷◌, ◌++◌, arith,
}
use signet_ps.Std.Decimal.{show_int}
use signet_ps.Std.Hex.{hex_encode}
use signet_ps.Env.{texts_json, Value, word, Message, done, entry, TypedData, Env}
use signet_ps.Attest.Digest.{copy32}
use signet_ps.Attest.Verify.{unix, normalize_v}
use signet_ps.Consent.{Request}
use signet_ps.Consent.Digest.{
  approval_types, or_zero, normalize_hex, addr_eq, approval_typed_data, approval_digest,
  verify_eoa_sig, signed_by,
}

-- the value of a message's field
abbrev pub field_of : Text → Message → Option Value
field_of name done = none
field_of name (entry k v m) = if text_eq k name then some v else field_of name m

module _ (env : Env) where
  -- An approval declares seven fields, and each, by its name, is what the request says.
  pub record IsApprovalOf (td : TypedData) (r : Request) (chain_id : ℤ) (registry : Text)
      : Type 0 where
    pub primary : td.primary_type ≡ codes "Approval"
    pub declared :
        lookup (codes "Approval") td.types
        ≡ some (
            (codes "requestId", codes "string")
            ∷ (codes "agent", codes "string")
            ∷ (codes "resource", codes "string")
            ∷ (codes "amountWei", codes "uint256")
            ∷ (codes "scopeHash", codes "bytes32")
            ∷ (codes "missionS256", codes "bytes32")
            ∷ (codes "expiresAt", codes "uint256")
            ∷ [])
    pub chain : td.domain.chain_id ≡ chain_id
    pub contract : td.domain.verifying_contract ≡ registry
    pub id : field_of (codes "requestId") td.message ≡ some (word r.id)
    pub agent : field_of (codes "agent") td.message ≡ some (word r.agent_id)
    pub resource : field_of (codes "resource") td.message ≡ some (word r.resource)
    pub amount :
        field_of (codes "amountWei") td.message
        ≡ some (word (if text_eq r.amount_wei [] then codes "0" else r.amount_wei))
    pub scope :
        field_of (codes "scopeHash") td.message
        ≡ some
            (word (codes "0x" ++ hex_encode (env.keccak256 (env.marshal (texts_json r.scope_req)))))
    pub mission :
        field_of (codes "missionS256") td.message ≡ some (word (codes "0x" ++ r.mission_s256))
    pub expires :
        field_of (codes "expiresAt") td.message ≡ some (word (show_int (unix r.expires_at)))

  -- A signature of 65 bytes recovers, over the hash of the approval of the request, to a key whose
  -- address is the root.
  pub record IsStepUp (root : Text) (r : Request) (chain_id : ℤ) (registry : Text) (sig : Bytes)
      : Type 0 where
    pub td : TypedData
    pub approval : IsApprovalOf td r chain_id registry
    pub hash : Bytes
    pub hashed : env.typed_data_and_hash td ≡ some hash
    pub size : length sig ≡ 65
    pub signer : Bytes
    pub recovered : env.sig_to_pub (copy32 hash) (normalize_v sig) ≡ some signer
    pub is_root :
        normalize_hex env.unicode_lower (env.address_hex signer)
        ≡ normalize_hex env.unicode_lower root

  or_zero_lem : (t : Text) → or_zero t ≡ (if text_eq t [] then codes "0" else t)
  unfolding text_eq or_zero
  or_zero_lem [] = refl
  or_zero_lem (c ∷ t) = refl

  approval_typed_data-IsApprovalOf :
      (r : Request) (chain_id : ℤ) (registry : Text)
      → IsApprovalOf (approval_typed_data env r chain_id registry) r chain_id registry
  unfolding approval_typed_data approval_types lookup text_eq
  approval_typed_data-IsApprovalOf r chain_id registry = record {
    primary = refl;
    declared = refl;
    chain = refl;
    contract = refl;
    id = refl;
    agent = refl;
    resource = refl;
    amount = ap (λ t. some (word t)) (or_zero_lem r.amount_wei);
    scope = refl;
    mission = refl;
    expires = refl;
  }

  pub verify_eoa_sig-IsStepUp :
      (root : Text) (r : Request) (chain_id : ℤ) (registry : Text) (digest sig : Bytes)
      → approval_digest env r chain_id registry ≡ some digest
      → verify_eoa_sig env root digest sig ≡ ok tt
      → IsStepUp root r chain_id registry sig
  unfolding approval_digest verify_eoa_sig signed_by addr_eq
  verify_eoa_sig-IsStepUp root r chain_id registry digest sig d v =
      let td = approval_typed_data env r chain_id registry in
      elim (Option-cases (env.typed_data_and_hash td)) [
        | inl e ↦ absurd (ground (arith, e, d))
        | inr (hash, e) ↦ elim (Option-cases (env.sig_to_pub digest (normalize_v sig))) [
          | inl f ↦ absurd (ground (arith, f, v))
          | inr (key, f) ↦
              let same : copy32 hash ≡ digest = ground (arith, e, d) in
              record {
                td = td;
                approval = approval_typed_data-IsApprovalOf r chain_id registry;
                hash = hash;
                hashed = e;
                size = ground (arith, v);
                signer = key;
                recovered = ap (λ x. env.sig_to_pub x (normalize_v sig)) same ∙ f;
                is_root = ground (
                  arith,
                  f,
                  v,
                  text_eq_iff (normalize_hex env.unicode_lower (env.address_hex key))
                      (normalize_hex env.unicode_lower root),
                );
              }
        ]
      ]
