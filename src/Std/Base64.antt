-- ===== src/Std/Base64.antt =====
-- encoding/base64: `RawURLEncoding`, and `StdEncoding` as encoding/json writes a `[]byte`.
pub mod RoundTrip
pub mod Padded
use signet_ps.Base.{
  ltb, leb, ◌==◌, if◌then◌else◌, Bytes, Text, codes, ℕ, ◌+◌, ◌-◌, ◌*◌, ◌/◌, ◌%◌, ◌≡◌, refl, ◌&&◌,
  ◌||◌, Option, none, some, List, [], ◌∷◌, ◌++◌,
}

-- the alphabets: the last two characters differ, and the padding
pub record Alphabet : Type 0 where
  pub char62 : ℕ
  pub char63 : ℕ
  pub padding : Text

abbrev pub std_alphabet : Alphabet
std_alphabet = record { char62 = b'+'; char63 = b'/'; padding = codes "=" }

abbrev pub raw_url_alphabet : Alphabet
raw_url_alphabet = record { char62 = b'-'; char63 = b'_'; padding = [] }

module _ (α : Alphabet) where
  char_of : ℕ → ℕ
  char_of d =
      if ltb d 26
      then b'A' + d
      else if ltb d 52
      then b'a' + (d - 26)
      else if ltb d 62
      then b'0' + (d - 52)
      else if d == 62
      then α.char62
      else α.char63

  unfoldable pub base64_encode : Bytes → Text
  unfolding char_of
  base64_encode [] = []
  base64_encode (a ∷ []) = char_of (a / 4) ∷ char_of (a % 4 * 16) ∷ (α.padding ++ α.padding)
  base64_encode (a ∷ b ∷ []) =
      char_of (a / 4) ∷ char_of (a % 4 * 16 + b / 16) ∷ char_of (b % 16 * 4) ∷ α.padding
  base64_encode (a ∷ b ∷ c ∷ s) =
      char_of (a / 4)
      ∷ char_of (a % 4 * 16 + b / 16)
      ∷ char_of (b % 16 * 4 + c / 64)
      ∷ char_of (c % 64)
      ∷ base64_encode s

-- `b64`, and `RawURLEncoding.EncodeToString`
unfoldable pub raw_url_encode : Bytes → Text
unfolding base64_encode
raw_url_encode = base64_encode raw_url_alphabet

value_of : ℕ → Option ℕ
value_of c =
    if leb b'A' c && leb c b'Z'
    then some (c - b'A')
    else if leb b'a' c && leb c b'z'
    then some (c - b'a' + 26)
    else if leb b'0' c && leb c b'9'
    then some (c - b'0' + 52)
    else if c == b'-'
    then some 62
    else if c == b'_'
    then some 63
    else none

-- one character before those that are decoded already; line breaks are skipped
push_char : ℕ → Option (List ℕ) → Option (List ℕ)
unfolding value_of
push_char c none = none
push_char c (some ds) =
    if c == 10 || c == 13
    then some ds
    else elim (value_of c) [ none ↦ none | some d ↦ some (d ∷ ds) ]

values_of : Text → Option (List ℕ)
unfolding push_char
values_of [] = some []
values_of (c ∷ s) = push_char c (values_of s)

push_three : ℕ → ℕ → ℕ → Option Bytes → Option Bytes
push_three a b c none = none
push_three a b c (some s) = some (a ∷ b ∷ c ∷ s)

-- Groups of four; a group of two or three ends the text, and its unused bits are ignored.
join : List ℕ → Option Bytes
unfolding push_three
join [] = some []
join (p ∷ []) = none
join (p ∷ q ∷ []) = some ((p * 4 + q / 16) ∷ [])
join (p ∷ q ∷ r ∷ []) = some ((p * 4 + q / 16) ∷ (q % 16 * 16 + r / 4) ∷ [])
join (p ∷ q ∷ r ∷ t ∷ ds) =
    push_three (p * 4 + q / 16) (q % 16 * 16 + r / 4) (r % 4 * 64 + t) (join ds)

join_all : Option (List ℕ) → Option Bytes
join_all none = none
join_all (some ds) = join ds

-- `RawURLEncoding.DecodeString`
unfoldable pub raw_url_decode : Text → Option Bytes
unfolding values_of join join_all
raw_url_decode s = join_all (values_of s)

-- the value of a character of the standard alphabet
std_value_of : ℕ → Option ℕ
unfolding value_of
std_value_of c =
    if c == b'+'
    then some 62
    else if c == b'/'
    then some 63
    else if c == b'-' || c == b'_'
    then none
    else value_of c

drop_breaks : Text → Text
drop_breaks [] = []
drop_breaks (c ∷ s) = let rest = drop_breaks s in if c == 10 || c == 13 then rest else c ∷ rest

-- a group that ends the text, of one or two bytes
last_group : ℕ → ℕ → Option ℕ → Text → Option Bytes
last_group p q none [] = some ((p * 4 + q / 16) ∷ [])
last_group p q (some r) [] = some ((p * 4 + q / 16) ∷ (q % 16 * 16 + r / 4) ∷ [])
last_group p q o (c ∷ s) = none

-- a group of four characters, and what the text after it decodes to
quad : Option ℕ → Option ℕ → ℕ → ℕ → Text → Option Bytes → Option Bytes
unfolding last_group std_value_of push_three
quad none o r t s rest = none
quad (some p) none r t s rest = none
quad (some p) (some q) r t s rest =
    if t == b'='
    then if r == b'='
      then last_group p q none s
      else elim (std_value_of r) [ none ↦ none | some x ↦ last_group p q (some x) s ]
    else elim (std_value_of r) [
      | none ↦ none
      | some x ↦ elim (std_value_of t) [
        | none ↦ none
        | some y ↦ push_three (p * 4 + q / 16) (q % 16 * 16 + x / 4) (x % 4 * 64 + y) rest
      ]
    ]

quads : Text → Option Bytes
unfolding quad std_value_of
quads [] = some []
quads (a ∷ b ∷ c ∷ d ∷ s) = quad (std_value_of a) (std_value_of b) c d s (quads s)
quads _ = none

-- `StdEncoding.Decode`, as encoding/json reads a `[]byte`: padded to groups of four; line breaks are
-- skipped, and the unused bits of a last group are ignored.
unfoldable pub std_decode : Text → Option Bytes
unfolding drop_breaks quads
std_decode s = quads (drop_breaks s)

std_decode_example :
    (std_decode (codes "//\n4=") ≡ some (255 ∷ 254 ∷ []))
    × (std_decode (codes "//4") ≡ none)
    × (std_decode (codes "/w==/w==") ≡ none)
unfolding std_decode
std_decode_example = (refl, refl, refl)

base64_example :
    (base64_encode std_alphabet (255 ∷ 254 ∷ []) ≡ codes "//4=")
    × (raw_url_encode (255 ∷ 254 ∷ []) ≡ codes "__4")
    × (raw_url_decode (codes "__\n5") ≡ some (255 ∷ 254 ∷ []))
    × (raw_url_decode (codes "__4=") ≡ none)
unfolding raw_url_encode raw_url_decode
base64_example = (refl, refl, refl, refl)
