-- ===== src/Std/Hex.antt =====
-- encoding/hex: `EncodeToString`, and the bytes that `DecodeString` returns.
use signet_ps.Base.{
  ltb, leb, if◌then◌else◌, length, Bytes, Text, codes, ℕ, ◌+◌, ◌-◌, ◌*◌, ◌/◌, ◌%◌, ◌<◌, ◌≡◌, refl,
  ◌&&◌, Option, none, some, [], ◌∷◌, ◌++◌, arith,
}

digit_char : ℕ → ℕ
digit_char d = if ltb d 10 then b'0' + d else b'a' + (d - 10)

unfoldable pub hex_encode : Bytes → Text
unfolding digit_char
hex_encode [] = []
hex_encode (b ∷ s) = digit_char (b / 16) ∷ digit_char (b % 16) ∷ hex_encode s

-- `fromHexChar`
digit_value : ℕ → Option ℕ
digit_value c =
    if leb b'0' c && leb c b'9'
    then some (c - b'0')
    else if leb b'a' c && leb c b'f'
    then some (c - b'a' + 10)
    else if leb b'A' c && leb c b'F'
    then some (c - b'A' + 10)
    else none

pair_value : Option ℕ → Option ℕ → Option ℕ
pair_value none l = none
pair_value (some h) none = none
pair_value (some h) (some l) = some (h * 16 + l)

push_pair : Option ℕ → Bytes → Bytes
push_pair none rest = []
push_pair (some b) rest = b ∷ rest

-- `DecodeString` returns the bytes before the first bad or single digit, also with an error.
unfoldable pub hex_decode : Text → Bytes
unfolding digit_value pair_value push_pair
hex_decode [] = []
hex_decode (h ∷ []) = []
hex_decode (h ∷ l ∷ s) = push_pair (pair_value (digit_value h) (digit_value l)) (hex_decode s)

-- every element is a byte
abbrev pub AreBytes : Bytes → Type 0
AreBytes [] = Unit
AreBytes (b ∷ s) = (b < 256) × AreBytes s

digit_value-digit_char : (d : ℕ) → d < 16 → digit_value (digit_char d) ≡ some d
unfolding digit_value digit_char
digit_value-digit_char d h = ground arith

pub hex_decode-hex_encode : (s : Bytes) → AreBytes s → hex_decode (hex_encode s) ≡ s
unfolding hex_decode hex_encode
hex_decode-hex_encode [] h = refl
hex_decode-hex_encode (b ∷ s) h = ground (
  arith,
  digit_value-digit_char (b / 16),
  digit_value-digit_char (b % 16),
  hex_decode-hex_encode s h.1,
)

pub hex_encode_injective :
    (s t : Bytes) → AreBytes s → AreBytes t → hex_encode s ≡ hex_encode t → s ≡ t
hex_encode_injective s t hs ht e = cc (hex_decode-hex_encode s hs, hex_decode-hex_encode t ht)

pub length-hex_encode : (s : Bytes) → length (hex_encode s) ≡ 2 * length s
unfolding hex_encode
length-hex_encode [] = refl
length-hex_encode (b ∷ s) = omega (arith, length-hex_encode s)

pub AreBytes-append : (s t : Bytes) → AreBytes s → AreBytes t → AreBytes (s ++ t)
AreBytes-append [] t hs ht = ht
AreBytes-append (b ∷ s) t hs ht = (hs.0, AreBytes-append s t hs.1 ht)

hex_example : (hex_encode (0 ∷ 171 ∷ []) ≡ codes "00ab") × (hex_decode (codes "aBz1") ≡ 171 ∷ [])
unfolding hex_encode hex_decode
hex_example = (refl, refl)
