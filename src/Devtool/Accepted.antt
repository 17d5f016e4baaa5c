-- ===== src/Devtool/Accepted.antt =====
-- What the tool signs, the verifiers accept.
use signet_ps.Base.{
  Option-cases, length, ℤ, Bytes, Text, codes, In, ok, ◌≡◌, refl, ap, sym, subst, ◌∙◌, inl, inr,
  true, false, Option, some, [], ◌++◌, arith,
}
use signet_ps.Std.Hex.{hex_encode, hex_decode-hex_encode, AreBytes}
use signet_ps.Env.{elems, Env}
use signet_ps.Attest.{PersonServerAuthorization, AgentGrant}
use signet_ps.Attest.Address.{addr_eq}
use signet_ps.Attest.Digest.{psa_digest, agent_grant_digest, psa_typed_data, agent_grant_typed_data}
use signet_ps.Attest.Verify as AttestVerify
use signet_ps.Attest.Verify.{unix, normalize_v, verify_psa, verify_agent_grant}
use signet_ps.Attest.Verify.Meaning.{Within, EoaSigned, verify_psa_iff, verify_agent_grant_iff}
use signet_ps.Consent.{Request, elevated}
use signet_ps.Consent.Digest as ConsentDigest
use signet_ps.Consent.Digest.{approval_digest, verify_eoa_sig}
use signet_ps.Consent.Store.{check_step_up}
use signet_ps.Std.Strings.{trim_prefix}
use signet_ps.Server.Helpers.{hex_bytes}
use signet_ps.Devtool.{
  Wallet, RootFile, AgentFile, load_root, sign_digest, root_of, sign_psa_of, sign_psa, fill_agent,
  sign_grant_of, sign_grant, digest_to_sign, sign_approval,
}

module _ (env : Env) (w : Wallet) where
  -- The key of a root's file: its address is the file's, and Sign answers 65 bytes from which the key
  -- is recovered, the last of them 0 or 1.
  pub record IsRootKey (file : RootFile) (key : Bytes) : Type 0 where
    pub opens : w.hex_to_ecdsa file.priv ≡ some key
    pub owns : file.address ≡ env.address_hex (w.public_key key)
    pub size : (digest sig : Bytes) → w.sign digest key ≡ some sig → length sig ≡ 65
    pub low_v : (digest sig : Bytes) → w.sign digest key ≡ some sig → normalize_v sig ≡ sig
    pub recovers :
        (digest sig : Bytes)
        → w.sign digest key ≡ some sig
        → env.sig_to_pub digest sig ≡ some (w.public_key key)
    pub bytes : (digest sig : Bytes) → w.sign digest key ≡ some sig → AreBytes sig

  sign_digest_lem :
      (file : RootFile) (key digest sig : Bytes)
      → IsRootKey file key
      → sign_digest env w file digest ≡ some sig
      → w.sign digest key ≡ some sig
  unfolding sign_digest load_root
  sign_digest_lem file key digest sig k h = ground (arith, k.opens, h)

  sign_digest-EoaSigned :
      (file : RootFile) (key digest sig root : Bytes)
      → IsRootKey file key
      → addr_eq file.address root ≡ true
      → sign_digest env w file digest ≡ some sig
      → EoaSigned env root digest sig
  sign_digest-EoaSigned file key digest sig root k same h =
      let s = sign_digest_lem file key digest sig k h in
      (
        w.public_key key,
        k.size digest sig s,
        ap (env.sig_to_pub digest) (k.low_v digest sig s) ∙ k.recovers digest sig s,
        subst (λ x. addr_eq x root ≡ true) k.owns same,
      )

  sign_psa_of_lem :
      (file : RootFile) (p q : PersonServerAuthorization)
      → sign_psa_of env w file p ≡ some q
      → (digest : Bytes) × (psa_digest env q ≡ some digest)
        × (sign_digest env w file digest ≡ some (elems q.signature))
  unfolding sign_psa_of psa_digest psa_typed_data
  sign_psa_of_lem file p q h = elim (Option-cases (psa_digest env p)) [
    | inl e ↦ absurd (ground (arith, e, h))
    | inr (digest, e) ↦ elim (Option-cases (sign_digest env w file digest)) [
      | inl f ↦ absurd (ground (arith, e, f, h))
      | inr (sig, f) ↦
          let same : record p { signature = some sig } ≡ q = ground (arith, e, f, h) in
          (
            digest,
            ap (psa_digest env) (sym same) ∙ e,
            f ∙ ap (λ (x : PersonServerAuthorization). some (elems x.signature)) same,
          )
    ]
  ]

  psa_signed :
      (file : RootFile) (p q : PersonServerAuthorization)
      → sign_psa env w file p ≡ some q
      → (digest : Bytes) × (psa_digest env q ≡ some digest)
        × (sign_digest env w file digest ≡ some (elems q.signature))
  unfolding sign_psa
  psa_signed file p q h = elim (Option-cases (root_of env w file p.root)) [
    | inl e ↦ absurd (ground (arith, e, h))
    | inr (root, e) ↦ sign_psa_of_lem file (record p { root = root }) q (ground (arith, e, h))
  ]

  sign_grant_of_lem :
      (file : RootFile) (g q : AgentGrant)
      → sign_grant_of env w file g ≡ some q
      → (digest : Bytes) × (agent_grant_digest env q ≡ some digest)
        × (sign_digest env w file digest ≡ some (elems q.signature))
  unfolding sign_grant_of agent_grant_digest agent_grant_typed_data
  sign_grant_of_lem file g q h = elim (Option-cases (agent_grant_digest env g)) [
    | inl e ↦ absurd (ground (arith, e, h))
    | inr (digest, e) ↦ elim (Option-cases (sign_digest env w file digest)) [
      | inl f ↦ absurd (ground (arith, e, f, h))
      | inr (sig, f) ↦
          let same : record g { signature = some sig } ≡ q = ground (arith, e, f, h) in
          (
            digest,
            ap (agent_grant_digest env) (sym same) ∙ e,
            f ∙ ap (λ (x : AgentGrant). some (elems x.signature)) same,
          )
    ]
  ]

  grant_signed :
      (file : RootFile) (agent : Option AgentFile) (g q : AgentGrant)
      → sign_grant env w file agent g ≡ some q
      → (digest : Bytes) × (agent_grant_digest env q ≡ some digest)
        × (sign_digest env w file digest ≡ some (elems q.signature))
  unfolding sign_grant
  grant_signed file agent g q h = elim (Option-cases (root_of env w file g.root)) [
    | inl e ↦ absurd (ground (arith, e, h))
    | inr (root, e) ↦
        sign_grant_of_lem file (fill_agent env w agent (record g { root = root })) q
          (ground (arith, e, h))
  ]

  -- An authorization that the tool signed with the key of the root that it names is accepted by
  -- every verifier for its issuer and a key that it lists, in its window and while the registry
  -- answers that it is not revoked.
  pub sign_psa-verify_psa :
      (file : RootFile) (key : Bytes) (p q : PersonServerAuthorization) (v : AttestVerify.Verifier)
      (thumb : Text)
      → IsRootKey file key
      → sign_psa env w file p ≡ some q
      → addr_eq file.address q.root ≡ true
      → Within (unix v.now) q.not_before q.not_after
      → In thumb (elems q.key_thumbprints)
      → v.registry q.registry_chain q.registry q.root q.nonce ≡ some false
      → verify_psa env v q q.issuer thumb ≡ ok tt
  sign_psa-verify_psa file key p q v thumb k h same window listed live =
      let (digest, e, s) = psa_signed file p q h in
      (verify_psa_iff env v q q.issuer thumb).1 (record {
        same_issuer = refl;
        in_window = window;
        key_listed = listed;
        digest = digest;
        digested = e;
        signed = inl (sign_digest-EoaSigned file key digest (elems q.signature) q.root k same s);
        not_revoked = live;
      })

  -- A grant that the tool signed with the key of the root that it names is accepted by every
  -- verifier for its root, agent and key, in its window and while the registry answers that it is
  -- not revoked.
  pub sign_grant-verify_agent_grant :
      (file : RootFile) (key : Bytes) (agent : Option AgentFile) (g q : AgentGrant)
      (v : AttestVerify.Verifier)
      → IsRootKey file key
      → sign_grant env w file agent g ≡ some q
      → addr_eq file.address q.root ≡ true
      → Within (unix v.now) q.not_before q.not_after
      → v.registry q.registry_chain q.registry q.root q.nonce ≡ some false
      → verify_agent_grant env v q q.root q.agent_identifier q.agent_thumbprint ≡ ok tt
  sign_grant-verify_agent_grant file key agent g q v k h same window live =
      let (digest, e, s) = grant_signed file agent g q h in
      (verify_agent_grant_iff env v q q.root q.agent_identifier q.agent_thumbprint).1 (record {
        same_root = refl;
        same_agent = refl;
        same_key = refl;
        in_window = window;
        digest = digest;
        digested = e;
        signed = inl (sign_digest-EoaSigned file key digest (elems q.signature) q.root k same s);
        not_revoked = live;
      })

  printed_lem : (sig : Bytes) → AreBytes sig → hex_bytes (codes "0x" ++ hex_encode sig) ≡ sig
  unfolding hex_bytes trim_prefix
  printed_lem sig h = hex_decode-hex_encode sig h

  verify_signed :
      (file : RootFile) (key digest sig : Bytes) (root : Text)
      → IsRootKey file key
      → w.sign digest key ≡ some sig
      → ConsentDigest.addr_eq env.unicode_lower file.address root ≡ true
      → verify_eoa_sig env root digest sig ≡ ok tt
  unfolding verify_eoa_sig
  verify_signed file key digest sig root k s same =
      let owner : ConsentDigest.addr_eq env.unicode_lower (env.address_hex (w.public_key key)) root
          ≡ true =
        subst (λ x. ConsentDigest.addr_eq env.unicode_lower x root ≡ true) k.owns same in
      let recovered : env.sig_to_pub digest (normalize_v sig) ≡ some (w.public_key key) =
        ap (env.sig_to_pub digest) (k.low_v digest sig s) ∙ k.recovers digest sig s in
      ground (arith, k.size digest sig s, recovered, owner)

  -- What the tool prints for an elevated request passes the check of the server that asked for it,
  -- for the root of the key, the chain and the registry that the tool was given.
  pub sign_approval-check_step_up :
      (file : RootFile) (key : Bytes) (r : Request) (chain_id : ℤ) (registry printed root : Text)
      → IsRootKey file key
      → r.tier ≡ elevated
      → sign_approval env w file [] (some r) chain_id registry ≡ some printed
      → ConsentDigest.addr_eq env.unicode_lower file.address root ≡ true
      → check_step_up env r root chain_id registry (hex_bytes printed) ≡ ok tt
  unfolding sign_approval digest_to_sign check_step_up
  sign_approval-check_step_up file key r chain_id registry printed root k tier h same =
      elim (Option-cases (approval_digest env r chain_id registry)) [
        | inl e ↦ absurd (ground (arith, e, h))
        | inr (digest, e) ↦ elim (Option-cases (sign_digest env w file digest)) [
          | inl f ↦ absurd (ground (arith, e, f, h))
          | inr (sig, f) ↦
              let s = sign_digest_lem file key digest sig k f in
              let text : codes "0x" ++ hex_encode sig ≡ printed = ground (arith, e, f, h) in
              let read : hex_bytes printed ≡ sig =
                ap hex_bytes (sym text) ∙ printed_lem sig (k.bytes digest sig s) in
              let checked : verify_eoa_sig env root digest (hex_bytes printed) ≡ ok tt =
                ap (verify_eoa_sig env root digest) read
                ∙ verify_signed file key digest sig root k s same in
              ground (arith, tier, e, checked)
        ]
      ]
