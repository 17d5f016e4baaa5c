-- ===== src/Base/Texts.antt =====
-- Go strings and byte slices: lists of byte values.
use Prim.Native.Nat.{ℕ}
use Prim.Native.Char.{code}
use Prim.Native.String.{String}
use mathlib.Core.Path.{◌≡◌, refl}
use mathlib.Core.Logic.{◌↔◌, ◌⊎◌}
use mathlib.Core.Bool.{Bool, true, false, not, ◌&&◌}
use mathlib.Core.List.{List, [], ◌∷◌}
use native.Mathlib.Omega.{arith}
use signet_ps.Base.Tests.{◌==◌, if◌then◌else◌}

abbrev pub Bytes : Type 0
Bytes = List ℕ

abbrev pub Text : Type 0
Text = Bytes

-- The code points of a literal, which are its bytes, since every literal of the program is ASCII.
abbrev pub codes : String → Text
codes String.[] = []
codes (String.◌∷◌ c s) = code c ∷ codes s

-- `==` on strings
unfoldable pub text_eq : Text → Text → Bool
text_eq [] [] = true
text_eq [] (b ∷ t) = false
text_eq (a ∷ s) [] = false
text_eq (a ∷ s) (b ∷ t) = a == b && text_eq s t

text_eq_sound : (s t : Text) → text_eq s t ≡ true → s ≡ t
unfolding text_eq
text_eq_sound [] [] h = refl
text_eq_sound [] (b ∷ t) h = cc
text_eq_sound (a ∷ s) [] h = cc
text_eq_sound (a ∷ s) (b ∷ t) h = ground (arith, text_eq_sound s t)

pub text_eq_refl : (s : Text) → text_eq s s ≡ true
unfolding text_eq
text_eq_refl [] = refl
text_eq_refl (a ∷ s) = ground (arith, text_eq_refl s)

pub text_eq_iff : (s t : Text) → (text_eq s t ≡ true) ↔ (s ≡ t)
text_eq_iff s t = (text_eq_sound s t, λ e. rw e (text_eq_refl t))

abbrev pub text_ne : Text → Text → Bool
text_ne s t = not (text_eq s t)

pub eq_of_text_ne : (s t : Text) → text_ne s t ≡ false → s ≡ t
eq_of_text_ne s t h = ground (arith, text_eq_iff s t)

-- the loop of `contains` and `containsStr`
unfoldable pub contains : List Text → Text → Bool
contains [] x = false
contains (v ∷ xs) x = if text_eq v x then true else contains xs x

-- `x` is one of `xs`
abbrev pub In : Text → List Text → Type 0
In x [] = ⊥
In x (v ∷ xs) = (v ≡ x) ⊎ In x xs

pub contains-iff-In : (xs : List Text) (x : Text) → (contains xs x ≡ true) ↔ In x xs
unfolding contains
contains-iff-In [] x = (λ h. cc, λ h. absurd h)
contains-iff-In (v ∷ xs) x =
    let (to, from) = contains-iff-In xs x in
    (λ h. ground (arith, text_eq_iff v x, to), λ h. ground (arith, text_eq_iff v x, from))
