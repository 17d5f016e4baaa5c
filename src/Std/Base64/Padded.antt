-- ===== src/Std/Base64/Padded.antt =====
-- What `StdEncoding` writes it reads back.
use signet_ps.Base.{
  ◌==◌, Bytes, Text, ℕ, ◌+◌, ◌*◌, ◌/◌, ◌%◌, ◌<◌, ◌≡◌, refl, ap, ◌∙◌, false, Option, some, [], ◌∷◌,
  arith,
}
use signet_ps.Std.Hex.{AreBytes}
use signet_ps.Std.Base64.{
  std_alphabet, base64_encode, std_decode, char_of, value_of, std_value_of, drop_breaks, last_group,
  quad, quads, push_three,
}

std_char : ℕ → ℕ
unfolding char_of
std_char = char_of std_alphabet

-- what is read back of one character of the alphabet
IsDigit : ℕ → ℕ → Type 0
IsDigit c d =
    (std_value_of c ≡ some d) × ((c == 10) ≡ false) × ((c == 13) ≡ false) × ((c == b'=') ≡ false)

std_char_lem : (d : ℕ) → d < 64 → IsDigit (std_char d) d
unfolding std_char std_value_of value_of IsDigit
std_char_lem d h = (ground arith, ground arith, ground arith, ground arith)

drop_breaks-cons :
    (d : ℕ) (s : Text) → d < 64 → drop_breaks s ≡ s → drop_breaks (std_char d ∷ s) ≡ std_char d ∷ s
unfolding drop_breaks IsDigit
drop_breaks-cons d s h e = ground (arith, std_char_lem d h, e)

drop_breaks-base64_encode :
    (s : Bytes)
    → AreBytes s
    → drop_breaks (base64_encode std_alphabet s) ≡ base64_encode std_alphabet s
unfolding base64_encode std_char drop_breaks
drop_breaks-base64_encode [] h = refl
drop_breaks-base64_encode (a ∷ []) h =
    drop_breaks-cons (a / 4) _ (omega arith) (drop_breaks-cons (a % 4 * 16) _ (omega arith) refl)
drop_breaks-base64_encode (a ∷ b ∷ []) h = drop_breaks-cons (a / 4) _ (omega arith) (
    drop_breaks-cons (a % 4 * 16 + b / 16) _ (omega arith)
      (drop_breaks-cons (b % 16 * 4) _ (omega arith) refl))
drop_breaks-base64_encode (a ∷ b ∷ c ∷ s) h = drop_breaks-cons (a / 4) _ (omega arith) (
    drop_breaks-cons (a % 4 * 16 + b / 16) _ (omega arith) (
      drop_breaks-cons (b % 16 * 4 + c / 64) _ (omega arith)
        (drop_breaks-cons (c % 64) _ (omega arith) (drop_breaks-base64_encode s h.1.1.1))))

quad_full :
    (p q r t : ℕ) (s : Text) (rest : Option Bytes)
    → p < 64
    → q < 64
    → r < 64
    → t < 64
    → quad (std_value_of (std_char p)) (std_value_of (std_char q)) (std_char r) (std_char t) s rest
      ≡ push_three (p * 4 + q / 16) (q % 16 * 16 + r / 4) (r % 4 * 64 + t) rest
unfolding quad IsDigit
quad_full p q r t s rest hp hq hr ht =
    ground (arith, std_char_lem p hp, std_char_lem q hq, std_char_lem r hr, std_char_lem t ht)

quad_two :
    (p q r : ℕ)
    → p < 64
    → q < 64
    → r < 64
    → quad (std_value_of (std_char p)) (std_value_of (std_char q)) (std_char r) b'=' [] (some [])
      ≡ some ((p * 4 + q / 16) ∷ (q % 16 * 16 + r / 4) ∷ [])
unfolding quad IsDigit last_group
quad_two p q r hp hq hr = ground (arith, std_char_lem p hp, std_char_lem q hq, std_char_lem r hr)

quad_one :
    (p q : ℕ)
    → p < 64
    → q < 64
    → quad (std_value_of (std_char p)) (std_value_of (std_char q)) b'=' b'=' [] (some [])
      ≡ some ((p * 4 + q / 16) ∷ [])
unfolding quad IsDigit last_group
quad_one p q hp hq = ground (arith, std_char_lem p hp, std_char_lem q hq)

quads-base64_encode : (s : Bytes) → AreBytes s → quads (base64_encode std_alphabet s) ≡ some s
unfolding quads base64_encode std_char push_three
quads-base64_encode [] h = refl
quads-base64_encode (a ∷ []) h =
    quad_one (a / 4) (a % 4 * 16) (omega arith) (omega arith) ∙ ground (arith, h)
quads-base64_encode (a ∷ b ∷ []) h =
    quad_two (a / 4) (a % 4 * 16 + b / 16) (b % 16 * 4) (omega arith) (omega arith) (omega arith)
    ∙ ground (arith, h)
quads-base64_encode (a ∷ b ∷ c ∷ s) h =
    quad_full (a / 4) (a % 4 * 16 + b / 16) (b % 16 * 4 + c / 64) (c % 64) _ _ (omega arith)
      (omega arith) (omega arith) (omega arith)
    ∙ ground (arith, h, quads-base64_encode s h.1.1.1)

pub std_decode-base64_encode :
    (s : Bytes) → AreBytes s → std_decode (base64_encode std_alphabet s) ≡ some s
unfolding std_decode
std_decode-base64_encode s h = ap quads (drop_breaks-base64_encode s h) ∙ quads-base64_encode s h
