-- ===== src/Testutil/Keys.antt =====
-- internal/testutil/keys.go: the keys of the fixtures, from constants, and the clock.
use mathlib.Core.Option
use signet_ps.Base.{ℤ, pos, ◌*ℤ◌, Bytes, Text, codes, ℕ, zero, suc, ◌+◌, ◌%◌, Option, [], ◌∷◌}
use signet_ps.Std.Base64.{raw_url_encode}
use signet_ps.Env.{Env}
use signet_ps.Devtool.{Wallet}
use signet_ps.Tokens.{Jwk, thumbprint}

-- `ed25519.NewKeyFromSeed`, and `Public` of a private key
pub record Ed25519Keys : Type 0 where
  pub new_key_from_seed : Bytes → Bytes
  pub public : Bytes → Bytes

abbrev pub root_priv_hex : Text
root_priv_hex = codes "4c0883a69102937d6231471b5dbb6204fe5129617082792ae468d01a3f362318"

abbrev pub other_root_priv_hex : Text
other_root_priv_hex = codes "2a871d0798f97d79848a013d4936a73bf4cc922c825d33c1cf7073dff6d409c6"

-- `s[i] = b + byte(i)` for the `n` places from `i` on
seed_from : ℕ → ℕ → ℕ → Bytes
seed_from zero i b = []
seed_from (suc n) i b = ((b + i) % 256) ∷ seed_from n (i + 1) b

-- of `ed25519.SeedSize` bytes
unfoldable pub seed : ℕ → Bytes
unfolding seed_from
seed b = seed_from 32 0 b

module _ (env : Env) (w : Wallet) where
  unfoldable pub root_key : Option Bytes
  root_key = w.hex_to_ecdsa root_priv_hex

  unfoldable pub other_root_key : Option Bytes
  other_root_key = w.hex_to_ecdsa other_root_priv_hex

  unfoldable pub addr_of : Bytes → Text
  addr_of key = env.address_hex (w.public_key key)

  unfoldable pub root_addr : Option Text
  unfolding root_key addr_of
  root_addr = Option.map addr_of root_key

  unfoldable pub other_root_addr : Option Text
  unfolding other_root_key addr_of
  other_root_addr = Option.map addr_of other_root_key

module _ (env : Env) (ed : Ed25519Keys) where
  unfoldable pub issuer_priv : Bytes
  unfolding seed
  issuer_priv = ed.new_key_from_seed (seed 0x11)

  unfoldable pub agent_priv : Bytes
  unfolding seed
  agent_priv = ed.new_key_from_seed (seed 0x22)

  unfoldable pub other_agent_priv : Bytes
  unfolding seed
  other_agent_priv = ed.new_key_from_seed (seed 0x33)

  unfoldable pub jwk_of : Bytes → Jwk
  jwk_of priv = record {
    kty = codes "OKP";
    crv = codes "Ed25519";
    x = raw_url_encode (ed.public priv);
  }

  unfoldable pub issuer_jwk : Jwk
  unfolding issuer_priv jwk_of
  issuer_jwk = jwk_of issuer_priv

  unfoldable pub agent_jwk : Jwk
  unfolding agent_priv jwk_of
  agent_jwk = jwk_of agent_priv

  unfoldable pub other_agent_jwk : Jwk
  unfolding other_agent_priv jwk_of
  other_agent_jwk = jwk_of other_agent_priv

  unfoldable pub issuer_thumb : Text
  unfolding issuer_jwk
  issuer_thumb = thumbprint env issuer_jwk

  unfoldable pub agent_thumb : Text
  unfolding agent_jwk
  agent_thumb = thumbprint env agent_jwk

  unfoldable pub other_agent_thumb : Text
  unfolding other_agent_jwk
  other_agent_thumb = thumbprint env other_agent_jwk

abbrev pub fixture_not_before : ℤ
fixture_not_before = pos 1700000000

abbrev pub fixture_not_after : ℤ
fixture_not_after = pos 1700003600

abbrev pub now_unix : ℤ
now_unix = pos 1700001000

-- `Clock`, in nanoseconds
unfoldable pub clock : ℤ → ℤ
clock u = u *ℤ pos 1000000000

unfoldable pub fixture_now : ℤ
unfolding clock
fixture_now = clock now_unix
