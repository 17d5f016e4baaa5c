-- ===== src/Devtool.antt =====
-- cmd/devtool/main.go: the stand-in for a person's wallet, which makes keys and signs attestations and
-- approvals. A file is what it holds, decoded; `none` is a message and exit status 1.
use mathlib.Core.Option
use signet_ps.Base.{
  ◌==◌, if◌then◌else◌, length, ℤ, Bytes, Text, codes, text_eq, ℕ, ◌*◌, ◌||◌, ◌&&◌, Option, none,
  some, [], ◌∷◌, ◌++◌,
}
use signet_ps.Std.Hex.{hex_encode, hex_decode}
use signet_ps.Std.Base64.{raw_url_encode}
use signet_ps.Env.{Env}
use signet_ps.Attest.{PersonServerAuthorization, AgentGrant}
use signet_ps.Attest.Digest.{psa_digest, agent_grant_digest}
use signet_ps.Consent.{Request}
use signet_ps.Consent.Digest.{approval_digest}
use signet_ps.Tokens.{Jwk, thumbprint}
pub mod Accepted

-- go-ethereum's crypto for a private key: HexToECDSA, FromECDSA, the public key, and Sign of a digest
pub record Wallet : Type 0 where
  pub hex_to_ecdsa : Text → Option Bytes
  pub from_ecdsa : Bytes → Bytes
  pub public_key : Bytes → Bytes
  pub sign : Bytes → Bytes → Option Bytes

pub record RootFile : Type 0 where
  pub address : Text
  pub priv : Text

pub record AgentFile : Type 0 where
  pub id : Text
  pub jwk : Jwk
  pub thumb : Text
  pub priv : Text

unfoldable pub load_root : RootFile → Option RootFile
load_root rf = if text_eq rf.priv [] then none else some rf

-- what follows "0x" or "0X"
strip_prefix_0x : Text → Text
strip_prefix_0x (a ∷ b ∷ s) = if a == b'0' && (b == b'x' || b == b'X') then s else a ∷ b ∷ s
strip_prefix_0x s = s

-- `mustHex`; a decoding that stops early is an error
unfoldable pub must_hex : Text → Option Bytes
unfolding strip_prefix_0x
must_hex s =
    let digits = strip_prefix_0x s in
    if 2 * length (hex_decode digits) == length digits then some (hex_decode digits) else none

module _ (env : Env) (w : Wallet) where
  -- of the private key that GenerateKey made
  unfoldable pub gen_root : Bytes → RootFile
  gen_root key = record {
    address = env.address_hex (w.public_key key);
    priv = hex_encode (w.from_ecdsa key);
  }

  -- of the key pair that ed25519.GenerateKey made, the private key by its seed
  unfoldable pub gen_agent : Text → Bytes → Bytes → Option AgentFile
  gen_agent id pub_key seed =
      let jwk : Jwk = record {
        kty = codes "OKP";
        crv = codes "Ed25519";
        x = raw_url_encode pub_key;
      } in
      if text_eq id []
      then none
      else some
          (record { id = id; jwk = jwk; thumb = thumbprint env jwk; priv = raw_url_encode seed })

  unfoldable pub thumb_of : AgentFile → Text
  thumb_of af = thumbprint env af.jwk

  unfoldable pub sign_digest : RootFile → Bytes → Option Bytes
  unfolding load_root
  sign_digest file digest = elim (load_root file) [
    | none ↦ none
    | some rf ↦ elim (w.hex_to_ecdsa rf.priv) [ none ↦ none | some key ↦ w.sign digest key ]
  ]

  -- the root that an attestation names, or that of the key file
  unfoldable pub root_of : RootFile → Text → Option Text
  unfolding load_root
  root_of file root =
      if text_eq root []
      then Option.map (λ (rf : RootFile). rf.address) (load_root file)
      else some root

  sign_psa_of : RootFile → PersonServerAuthorization → Option PersonServerAuthorization
  unfolding sign_digest
  sign_psa_of file p = elim (psa_digest env p) [
    | none ↦ none
    | some digest ↦ Option.map (λ sig. record p { signature = some sig }) (sign_digest file digest)
  ]

  unfoldable pub sign_psa : RootFile → PersonServerAuthorization → Option PersonServerAuthorization
  unfolding root_of sign_psa_of
  sign_psa file p = elim (root_of file p.root) [
    | none ↦ none
    | some root ↦ sign_psa_of file (record p { root = root })
  ]

  -- the fields that an agent's file fills
  fill_agent : Option AgentFile → AgentGrant → AgentGrant
  fill_agent none g = g
  fill_agent (some af) g = record g {
    agent_identifier = af.id;
    agent_thumbprint = thumbprint env af.jwk;
    agent_pub_key = af.jwk.x;
  }

  sign_grant_of : RootFile → AgentGrant → Option AgentGrant
  unfolding sign_digest
  sign_grant_of file g = elim (agent_grant_digest env g) [
    | none ↦ none
    | some digest ↦ Option.map (λ sig. record g { signature = some sig }) (sign_digest file digest)
  ]

  unfoldable pub sign_grant : RootFile → Option AgentFile → AgentGrant → Option AgentGrant
  unfolding root_of fill_agent sign_grant_of
  sign_grant file agent g = elim (root_of file g.root) [
    | none ↦ none
    | some root ↦ sign_grant_of file (fill_agent agent (record g { root = root }))
  ]

  -- the digest to sign: that of the flag, or that of the request
  unfoldable pub digest_to_sign : Text → Option Request → ℤ → Text → Option Bytes
  unfolding must_hex
  digest_to_sign [] none chain_id registry = none
  digest_to_sign [] (some r) chain_id registry = approval_digest env r chain_id registry
  digest_to_sign (c ∷ s) r chain_id registry = elim (must_hex (c ∷ s)) [
    | none ↦ none
    | some b ↦ if length b == 32 then some b else none
  ]

  -- what is printed
  unfoldable pub sign_approval : RootFile → Text → Option Request → ℤ → Text → Option Text
  unfolding digest_to_sign sign_digest
  sign_approval file digest_hex r chain_id registry =
      elim (digest_to_sign digest_hex r chain_id registry) [
        | none ↦ none
        | some digest ↦ Option.map (λ sig. codes "0x" ++ hex_encode sig) (sign_digest file digest)
      ]
