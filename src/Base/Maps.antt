-- ===== src/Base/Maps.antt =====
-- Go maps with string keys, as association lists. The order of the entries is that of the first
-- insertion; the program's results do not depend on it.
use mathlib.Core.Path.{◌≡◌, refl}
use mathlib.Core.List.{List, [], ◌∷◌}
use mathlib.Core.Option.{Option, none, some}
use native.Mathlib.Omega.{arith}
use signet_ps.Base.Tests.{if◌then◌else◌}
use signet_ps.Base.Texts.{Text, text_eq, text_eq_iff}

abbrev pub Map {ℓ} : Type ℓ → Type ℓ
Map V = List (Text × V)

module _ {ℓ} {V : Type ℓ} where
  unfoldable pub lookup : Text → Map V → Option V
  lookup k [] = none
  lookup k ((j, v) ∷ m) = if text_eq j k then some v else lookup k m

  unfoldable pub insert : Text → V → Map V → Map V
  insert k v [] = (k, v) ∷ []
  insert k v ((j, w) ∷ m) = if text_eq j k then (k, v) ∷ m else (j, w) ∷ insert k v m

  pub lookup-insert :
      (k j : Text) (v : V) (entries : Map V)
      → lookup j (insert k v entries) ≡ (if text_eq k j then some v else lookup j entries)
  unfolding insert lookup
  lookup-insert k j v ((i, w) ∷ rest) =
      ground (arith, lookup-insert k j v rest, text_eq_iff i k, text_eq_iff i j, text_eq_iff k j)
  lookup-insert k j v [] = refl
