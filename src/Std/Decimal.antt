-- ===== src/Std/Decimal.antt =====
-- Decimal integers: `%d` and `fmt.Sprint` on integers, and `new(big.Int).SetString(s, 10)`.
pub mod RoundTrip
pub mod Uint
use mathlib.Core.Logic.{dite}
use mathlib.Core.WellFounded.{Acc, WellFounded}
use native.Mathlib.Decide.{dec_lt}
use signet_ps.Base.{
  leb, ◌==◌, if◌then◌else◌, ℤ, pos, negsuc, sub_ℕ, Text, codes, ℕ, zero, suc, ◌+◌, ◌-◌, ◌*◌, ◌/◌,
  ◌%◌, ◌<◌, ◌≡◌, refl, Bool, ◌&&◌, Option, none, some, [], ◌∷◌, ◌++◌, arith,
}

acc_under : (bound n : ℕ) → n < bound → Acc ◌<◌ n
acc_under (suc bound) n lt = Acc.intro n λ j below. acc_under bound j (omega arith)
acc_under zero n lt = absurd (omega arith)

lt_wf : WellFounded ◌<◌
unfolding acc_under
lt_wf = record { apply = λ n. acc_under (suc n) n (omega arith) }

tenth_lt : {n : ℕ} → ¬ (n < 10) → n / 10 < n
tenth_lt h = omega arith

show_digits : (n : ℕ) → Acc ◌<◌ n → Text
show_digits n (Acc.intro _ smaller) =
    dite (dec_lt n 10) (λ _. (b'0' + n) ∷ [])
      (λ h. show_digits (n / 10) (smaller (n / 10) (tenth_lt h)) ++ (b'0' + n % 10) ∷ [])

unfoldable pub show_nat : ℕ → Text
unfolding show_digits tenth_lt lt_wf dec_lt
show_nat n = show_digits n (lt_wf.apply n)

unfoldable pub show_int : ℤ → Text
unfolding show_nat
show_int (pos n) = show_nat n
show_int (negsuc n) = b'-' ∷ show_nat (suc n)

is_digit : ℕ → Bool
is_digit c = leb b'0' c && leb c b'9'

-- the digits of `s`, read after those that made `acc`
pub scan : ℕ → Text → Option ℕ
unfolding is_digit
scan acc [] = some acc
scan acc (c ∷ s) = let rest = scan (acc * 10 + (c - b'0')) s in if is_digit c then rest else none

-- at least one digit, and nothing else
scan_nat : Text → Option ℕ
unfolding scan
scan_nat [] = none
scan_nat (c ∷ s) = scan 0 (c ∷ s)

abbrev as_pos : Option ℕ → Option ℤ
as_pos none = none
as_pos (some n) = some (pos n)

abbrev as_neg : Option ℕ → Option ℤ
as_neg none = none
as_neg (some n) = some (sub_ℕ 0 n)

-- `SetString(s, 10)`: one sign, `+` or `-`, may stand before the digits.
unfoldable pub set_string : Text → Option ℤ
unfolding scan_nat
set_string [] = none
set_string (c ∷ s) =
    if c == b'-'
    then as_neg (scan_nat s)
    else if c == b'+'
    then as_pos (scan_nat s)
    else as_pos (scan_nat (c ∷ s))

show_int_example : show_int (negsuc 8452) ≡ codes "-8453"
unfolding show_int
show_int_example = refl

set_string_example :
    (set_string (codes "-12") ≡ some (negsuc 11))
    × (set_string (codes "+007") ≡ some (pos 7))
    × (set_string (codes "1_0") ≡ none)
    × (set_string (codes "-") ≡ none)
unfolding set_string
set_string_example = (refl, refl, refl, refl)
