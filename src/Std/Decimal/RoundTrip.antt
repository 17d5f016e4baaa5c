-- ===== src/Std/Decimal/RoundTrip.antt =====
-- Reading a printed integer gives it back, so printing is injective.
use mathlib.Core.Logic.{dif_pos, dif_neg}
use mathlib.Core.WellFounded.{Acc}
use native.Mathlib.Decide.{dec_lt}
use native.Mathlib.Bridge.{le_prop}
use signet_ps.Base.{
  ℤ, pos, negsuc, Text, ℕ, suc, ◌+◌, ◌-◌, ◌*◌, ◌/◌, ◌%◌, ◌≤◌, ◌<◌, ◌≡◌, ap, ◌∙◌, some, [], ◌∷◌,
  ◌++◌, arith,
}
use signet_ps.Std.Decimal.{show_nat, show_int, set_string, show_digits, scan, lt_wf, tenth_lt}

scan-append_digit :
    (acc d n : ℕ) (s : Text)
    → scan acc s ≡ some n
    → d < 10
    → scan acc (s ++ (b'0' + d) ∷ []) ≡ some (n * 10 + d)
unfolding scan
scan-append_digit acc d n [] e h = ground arith
scan-append_digit acc d n (c ∷ s) e h =
    ground (arith, scan-append_digit (acc * 10 + (c - b'0')) d n s)

scan_digit : (n : ℕ) → n < 10 → scan 0 ((b'0' + n) ∷ []) ≡ some n
unfolding scan
scan_digit n h = ground arith

scan-show_digits : (n : ℕ) (w : Acc ◌<◌ n) → scan 0 (show_digits n w) ≡ some n
unfolding show_digits
scan-show_digits n (Acc.intro _ smaller) = elim (dec_lt n 10) [
  | yes p ↦ rw (dif_pos (dec_lt n 10) le_prop p) (scan_digit n p)
  | no q ↦ rw (dif_neg (dec_lt n 10) q) (
      scan-append_digit 0 (n % 10) (n / 10) _
        (scan-show_digits (n / 10) (smaller (n / 10) (tenth_lt q))) (omega arith)
      ∙ ap some (omega arith))
]

-- the first byte of a printed number is a digit
abbrev StartsWithDigit : Text → Type 0
StartsWithDigit [] = ⊥
StartsWithDigit (c ∷ s) = (b'0' ≤ c) × (c ≤ b'9')

StartsWithDigit-append : (s t : Text) → StartsWithDigit s → StartsWithDigit (s ++ t)
StartsWithDigit-append [] t h = absurd h
StartsWithDigit-append (c ∷ s) t h = h

show_digits_head : (n : ℕ) (w : Acc ◌<◌ n) → StartsWithDigit (show_digits n w)
unfolding show_digits
show_digits_head n (Acc.intro _ smaller) = elim (dec_lt n 10) [
  | yes p ↦ rw (dif_pos (dec_lt n 10) le_prop p) (omega arith)
  | no q ↦
      rw (dif_neg (dec_lt n 10) q)
        (StartsWithDigit-append _ _ (show_digits_head (n / 10) (smaller (n / 10) (tenth_lt q))))
]

show_nat_head : (n : ℕ) → StartsWithDigit (show_nat n)
unfolding show_nat
show_nat_head n = show_digits_head n (lt_wf.apply n)

pub scan-show_nat : (n : ℕ) → scan 0 (show_nat n) ≡ some n
unfolding show_nat
scan-show_nat n = scan-show_digits n (lt_wf.apply n)

set_string_digits :
    (s : Text) (n : ℕ) → StartsWithDigit s → scan 0 s ≡ some n → set_string s ≡ some (pos n)
unfolding set_string
set_string_digits [] n h e = absurd h
set_string_digits (c ∷ s) n h e = ground arith

set_string_minus :
    (s : Text) (n : ℕ)
    → StartsWithDigit s
    → scan 0 s ≡ some (suc n)
    → set_string (b'-' ∷ s) ≡ some (negsuc n)
unfolding set_string
set_string_minus [] n h e = absurd h
set_string_minus (c ∷ s) n h e = ground arith

-- `SetString` reads back what `Sprint` prints, for every integer.
pub set_string-show_int : (a : ℤ) → set_string (show_int a) ≡ some a
unfolding show_int
set_string-show_int (pos n) = set_string_digits (show_nat n) n (show_nat_head n) (scan-show_nat n)
set_string-show_int (negsuc n) =
    set_string_minus (show_nat (suc n)) n (show_nat_head (suc n)) (scan-show_nat (suc n))

pub show_int_injective : (a b : ℤ) → show_int a ≡ show_int b → a ≡ b
show_int_injective a b e = cc (set_string-show_int a, set_string-show_int b)

pub show_nat_injective : (m n : ℕ) → show_nat m ≡ show_nat n → m ≡ n
show_nat_injective m n e = cc (scan-show_nat m, scan-show_nat n)

-- Every byte of a printed number is a digit.
abbrev pub AreDigits : Text → Type 0
AreDigits [] = Unit {0}
AreDigits (c ∷ s) = (b'0' ≤ c) × ((c ≤ b'9') × AreDigits s)

AreDigits-append : (s t : Text) → AreDigits s → AreDigits t → AreDigits (s ++ t)
AreDigits-append [] t h k = k
AreDigits-append (c ∷ s) t h k = (h.0, (h.1.0, AreDigits-append s t h.1.1 k))

AreDigits-show_digits : (n : ℕ) (w : Acc ◌<◌ n) → AreDigits (show_digits n w)
unfolding show_digits
AreDigits-show_digits n (Acc.intro _ smaller) = elim (dec_lt n 10) [
  | yes p ↦ rw (dif_pos (dec_lt n 10) le_prop p) (omega arith, (omega arith, tt))
  | no q ↦ rw (dif_neg (dec_lt n 10) q) (
      AreDigits-append _ _ (AreDigits-show_digits (n / 10) (smaller (n / 10) (tenth_lt q)))
        (omega arith, (omega arith, tt)))
]

pub AreDigits-show_nat : (n : ℕ) → AreDigits (show_nat n)
unfolding show_nat
AreDigits-show_nat n = AreDigits-show_digits n (lt_wf.apply n)
