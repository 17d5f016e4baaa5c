-- ===== src/Std/Base64/RoundTrip.antt =====
-- What `RawURLEncoding` writes it reads back, and it never writes a dot.
use signet_ps.Base.{
  Bytes, ℕ, ◌+◌, ◌*◌, ◌/◌, ◌%◌, ◌<◌, ◌≡◌, refl, ◌≢◌, true, some, List, [], ◌∷◌, map, arith,
}
use signet_ps.Std.Hex.{AreBytes}
use signet_ps.Std.Strings.{Lacks, is_ascii}
use signet_ps.Std.Base64.{
  raw_url_alphabet, raw_url_encode, raw_url_decode, char_of, value_of, push_char, values_of,
  push_three, join,
}

url_char : ℕ → ℕ
unfolding char_of
url_char = char_of raw_url_alphabet

push_char-url_char :
    (d : ℕ) (ds : List ℕ) → d < 64 → push_char (url_char d) (some ds) ≡ some (d ∷ ds)
unfolding push_char value_of url_char
push_char-url_char d ds h = ground arith

url_char-ne-dot : (d : ℕ) → url_char d ≢ b'.'
unfolding url_char
url_char-ne-dot d = ground arith

-- the six-bit groups of a byte string
sextets : Bytes → List ℕ
sextets [] = []
sextets (a ∷ []) = (a / 4) ∷ (a % 4 * 16) ∷ []
sextets (a ∷ b ∷ []) = (a / 4) ∷ (a % 4 * 16 + b / 16) ∷ (b % 16 * 4) ∷ []
sextets (a ∷ b ∷ c ∷ s) =
    (a / 4) ∷ (a % 4 * 16 + b / 16) ∷ (b % 16 * 4 + c / 64) ∷ (c % 64) ∷ sextets s

raw_url_encode-map : (s : Bytes) → raw_url_encode s ≡ map url_char (sextets s)
unfolding raw_url_encode sextets url_char
raw_url_encode-map [] = refl
raw_url_encode-map (a ∷ []) = refl
raw_url_encode-map (a ∷ b ∷ []) = refl
raw_url_encode-map (a ∷ b ∷ c ∷ s) = cc (raw_url_encode-map s)

abbrev AreSextets : List ℕ → Type 0
AreSextets [] = Unit
AreSextets (d ∷ ds) = (d < 64) × AreSextets ds

sextets_small : (s : Bytes) → AreBytes s → AreSextets (sextets s)
unfolding sextets
sextets_small [] h = tt
sextets_small (a ∷ []) h = omega arith
sextets_small (a ∷ b ∷ []) h = omega arith
sextets_small (a ∷ b ∷ c ∷ s) h =
    (omega arith, (omega arith, (omega arith, (omega arith, sextets_small s h.1.1.1))))

join-sextets : (s : Bytes) → AreBytes s → join (sextets s) ≡ some s
unfolding join sextets push_three
join-sextets [] h = refl
join-sextets (a ∷ []) h = ground arith
join-sextets (a ∷ b ∷ []) h = ground arith
join-sextets (a ∷ b ∷ c ∷ s) h = ground (arith, join-sextets s h.1.1.1)

values_of-map : (ds : List ℕ) → AreSextets ds → values_of (map url_char ds) ≡ some ds
unfolding values_of
values_of-map [] h = refl
values_of-map (d ∷ ds) h = rw (values_of-map ds h.1) (push_char-url_char d ds h.0)

pub raw_url_decode-raw_url_encode :
    (s : Bytes) → AreBytes s → raw_url_decode (raw_url_encode s) ≡ some s
unfolding raw_url_decode
raw_url_decode-raw_url_encode s h =
    rw (raw_url_encode-map s, values_of-map (sextets s) (sextets_small s h)) (join-sextets s h)

map-url_char-Lacks : (ds : List ℕ) → Lacks b'.' (map url_char ds)
map-url_char-Lacks [] = tt
map-url_char-Lacks (d ∷ ds) = (url_char-ne-dot d, map-url_char-Lacks ds)

pub raw_url_encode-Lacks : (s : Bytes) → Lacks b'.' (raw_url_encode s)
raw_url_encode-Lacks s = rw (raw_url_encode-map s) (map-url_char-Lacks (sextets s))

url_char_small : (d : ℕ) → url_char d < 128
unfolding url_char
url_char_small d = ground arith

map-url_char-is_ascii : (ds : List ℕ) → is_ascii (map url_char ds) ≡ true
unfolding is_ascii
map-url_char-is_ascii [] = refl
map-url_char-is_ascii (d ∷ ds) = ground (arith, url_char_small d, map-url_char-is_ascii ds)

pub raw_url_encode-is_ascii : (s : Bytes) → is_ascii (raw_url_encode s) ≡ true
raw_url_encode-is_ascii s = rw (raw_url_encode-map s) (map-url_char-is_ascii (sextets s))
