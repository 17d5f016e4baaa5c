-- ===== src/Std/Decimal/Uint.antt =====
-- strconv.ParseUint of base 10 and 64 bits: the number that it returns, with an error or without.
use signet_ps.Base.{
  ltb, if◌then◌else◌, Text, codes, ℕ, ◌+◌, ◌-◌, ◌*◌, ◌^◌, ◌≤◌, ◌<◌, ◌≡◌, refl, some, [], ◌∷◌, arith,
}
use signet_ps.Std.Decimal.{show_nat, scan, is_digit}
use signet_ps.Std.Decimal.RoundTrip.{scan-show_nat}

-- A bad byte makes it 0, and a number out of range the largest one, whichever comes first.
parse_digits : ℕ → Text → ℕ
unfolding is_digit
parse_digits acc [] = acc
parse_digits acc (c ∷ s) =
    let rest = parse_digits (acc * 10 + (c - b'0')) s in
    if is_digit c then (if ltb (acc * 10 + (c - b'0')) (2 ^ 64) then rest else 2 ^ 64 - 1) else 0

unfoldable pub parse_uint : Text → ℕ
unfolding parse_digits
parse_uint s = parse_digits 0 s

scan-le : (acc n : ℕ) (s : Text) → scan acc s ≡ some n → acc ≤ n
unfolding scan
scan-le acc n [] h = ground arith
scan-le acc n (c ∷ s) h = ground (arith, scan-le (acc * 10 + (c - b'0')) n s)

parse_digits-scan :
    (acc n : ℕ) (s : Text) → scan acc s ≡ some n → n < 2 ^ 64 → parse_digits acc s ≡ n
unfolding scan parse_digits
parse_digits-scan acc n [] h k = ground arith
parse_digits-scan acc n (c ∷ s) h k =
    ground
      (arith, parse_digits-scan (acc * 10 + (c - b'0')) n s, scan-le (acc * 10 + (c - b'0')) n s)

-- A printed number of 64 bits is read back.
pub parse_uint-show_nat : (n : ℕ) → n < 2 ^ 64 → parse_uint (show_nat n) ≡ n
unfolding parse_uint
parse_uint-show_nat n k = parse_digits-scan 0 n (show_nat n) (scan-show_nat n) k

parse_uint_example :
    (parse_uint (codes "12") ≡ 12)
    × (parse_uint (codes "1x") ≡ 0)
    × (parse_uint (codes "99999999999999999999x") ≡ 2 ^ 64 - 1)
unfolding parse_uint
parse_uint_example = (refl, refl, refl)
