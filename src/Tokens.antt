-- ===== src/Tokens.antt =====
-- internal/tokens: the claim shapes of the tokens, key thumbprints, and the small helpers.
pub mod Jwt
pub mod Mint
pub mod Verify
use signet_ps.Base.{ℤ, pos, Bytes, Text, codes, Option, none, some, ◌++◌}
use signet_ps.Std.Decimal.{set_string}
use signet_ps.Std.Strings.{quote}
use signet_ps.Std.Base64.{raw_url_encode}
use signet_ps.Env.{Slice, Env}
use signet_ps.Attest.Content.{omit_empty}

pub record Jwk : Type 0 where
  pub kty : Text
  pub crv : Text
  pub x : Text

pub record MissionRef : Type 0 where
  pub approver : Text
  pub s256 : Text

pub record StepUp : Type 0 where
  pub digest : Text
  pub sig : Text

pub record Vouched : Type 0 where
  pub value : Text
  pub provenance : Text

-- `cnf` is the key that its one member holds.
pub record AuthClaims : Type 0 where
  pub iss : Text
  pub dwk : Text
  pub aud : Text
  pub jti : Text
  pub agent : Text
  pub cnf : Jwk
  pub iat : ℤ
  pub exp : ℤ
  pub sub : Text
  pub mission : Option MissionRef
  pub psa : Text
  pub ag_s256 : Text
  pub step_up : Option StepUp
  pub name : Option Vouched
  pub email : Option Vouched
  pub kyc : Option Vouched

pub record ResourceClaims : Type 0 where
  pub iss : Text
  pub jti : Text
  pub iat : ℤ
  pub exp : ℤ
  pub scope : Slice Text
  pub amount_wei : Text

pub record IssuerKey : Type 0 where
  pub kid : Text
  pub priv : Bytes
  pub pub_jwk : Jwk

-- RFC 7638 for an Ed25519 key
unfoldable pub thumbprint : Env → Jwk → Text
thumbprint env k = raw_url_encode (
    env.sha256 (
      codes "{\"crv\":"
      ++ (quote env.unicode_quote k.crv
          ++ (codes ",\"kty\":"
              ++ (quote env.unicode_quote k.kty
                  ++ (codes ",\"x\":" ++ (quote env.unicode_quote k.x ++ codes "}")))))))

-- a decimal amount, or 0
unfoldable pub big_or_zero : Text → ℤ
big_or_zero s = elim (set_string s) [ none ↦ pos 0 | some n ↦ n ]
