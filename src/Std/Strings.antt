-- ===== src/Std/Strings.antt =====
-- strings.Split, TrimPrefix, HasPrefix, TrimRight, TrimSpace, IndexByte, ToLower and EqualFold; strconv.Quote.
use signet_ps.Base.{
  ltb, leb, ◌==◌, if◌then◌else◌, Text, codes, text_eq, ℕ, ◌+◌, ◌-◌, ◌/◌, ◌%◌, ◌≡◌, refl, ◌≢◌, Bool,
  true, ◌&&◌, ◌||◌, Option, none, some, List, [], ◌∷◌, ◌++◌, map, arith,
}

-- `HasPrefix(s, p)`, and what follows the prefix
unfoldable pub strip_prefix : Text → Text → Option Text
strip_prefix [] s = some s
strip_prefix (a ∷ p) [] = none
strip_prefix (a ∷ p) (b ∷ s) = if a == b then strip_prefix p s else none

abbrev or_else : Option Text → Text → Text
or_else none s = s
or_else (some t) s = t

unfoldable pub trim_prefix : Text → Text → Text
unfolding strip_prefix
trim_prefix p s = or_else (strip_prefix p s) s

abbrev pub cons_head : ℕ → List Text → List Text
cons_head c [] = (c ∷ []) ∷ []
cons_head c (w ∷ ws) = (c ∷ w) ∷ ws

-- `Split(s, sep)` for a separator of one byte
unfoldable pub split : ℕ → Text → List Text
split sep [] = [] ∷ []
split sep (c ∷ s) = let rest = split sep s in if c == sep then [] ∷ rest else cons_head c rest

abbrev pub Lacks : ℕ → Text → Type 0
Lacks b [] = Unit {0}
Lacks b (c ∷ s) = (c ≢ b) × Lacks b s

pub split-Lacks : (sep : ℕ) (s : Text) → Lacks sep s → split sep s ≡ s ∷ []
unfolding split
split-Lacks sep [] h = refl
split-Lacks sep (c ∷ s) h = ground (arith, split-Lacks sep s h.1)

pub split-append : (sep : ℕ) (s t : Text) → Lacks sep s → split sep (s ++ sep ∷ t) ≡ s ∷ split sep t
unfolding split
split-append sep [] t h = ground arith
split-append sep (c ∷ s) t h = ground (arith, split-append sep s t h.1)

unfoldable pub is_ascii : Text → Bool
is_ascii [] = true
is_ascii (c ∷ s) = ltb c 128 && is_ascii s

-- lower case of an ASCII byte
unfoldable pub lower : ℕ → ℕ
lower c = if leb b'A' c && leb c b'Z' then c + 32 else c

-- `ToLower`, with the table for texts beyond ASCII as an argument
unfoldable pub to_lower : (Text → Text) → Text → Text
unfolding is_ascii lower
to_lower unicode s = if is_ascii s then map lower s else unicode s

-- `EqualFold`, likewise
unfoldable pub equal_fold : (Text → Text → Bool) → Text → Text → Bool
unfolding is_ascii lower
equal_fold unicode s t =
    if is_ascii s && is_ascii t then text_eq (map lower s) (map lower t) else unicode s t

-- what stands before and after the first byte `sep`, which IndexByte finds
unfoldable pub cut : ℕ → Text → Option (Text × Text)
cut sep [] = none
cut sep (c ∷ s) =
    let rest = cut sep s in
    if c == sep
    then some ([], s)
    else elim rest [ none ↦ none | some (before, after) ↦ some (c ∷ before, after) ]

pub cut-append : (sep : ℕ) (s t : Text) → Lacks sep s → cut sep (s ++ sep ∷ t) ≡ some (s, t)
unfolding cut
cut-append sep [] t h = ground arith
cut-append sep (c ∷ s) t h = ground (arith, cut-append sep s t h.1)

unfoldable pub trim_start : (ℕ → Bool) → Text → Text
trim_start p [] = []
trim_start p (c ∷ s) = let rest = trim_start p s in if p c then rest else c ∷ s

-- `TrimRight`, of the bytes of a set
unfoldable pub trim_end : (ℕ → Bool) → Text → Text
trim_end p [] = []
trim_end p (c ∷ s) = let rest = trim_end p s in if p c && text_eq rest [] then [] else c ∷ rest

is_space : ℕ → Bool
is_space c = c == b' ' || (leb 9 c && leb c 13)

-- `TrimSpace`, with the answer for texts beyond ASCII as an argument
unfoldable pub trim_space : (Text → Text) → Text → Text
unfolding is_space trim_start trim_end is_ascii
trim_space unicode s = if is_ascii s then trim_end is_space (trim_start is_space s) else unicode s

trim_space_example : trim_space (λ s. s) (codes " a b\t") ≡ codes "a b"
unfolding trim_space text_eq
trim_space_example = refl

hex_digit : ℕ → ℕ
hex_digit d = if ltb d 10 then b'0' + d else b'a' + (d - 10)

-- what `Quote` writes for an ASCII byte
quote_byte : ℕ → Text
unfolding hex_digit
quote_byte c =
    if c == b'"'
    then codes "\\\""
    else if c == b'\\'
    then codes "\\\\"
    else if leb 32 c && ltb c 127
    then c ∷ []
    else if c == 7
    then codes "\\a"
    else if c == 8
    then codes "\\b"
    else if c == 12
    then codes "\\f"
    else if c == 10
    then codes "\\n"
    else if c == 13
    then codes "\\r"
    else if c == 9
    then codes "\\t"
    else if c == 11
    then codes "\\v"
    else codes "\\x" ++ hex_digit (c / 16) ∷ hex_digit (c % 16) ∷ []

quote_bytes : Text → Text
unfolding quote_byte
quote_bytes [] = []
quote_bytes (c ∷ s) = quote_byte c ++ quote_bytes s

-- `%q`, with the rendering of texts beyond ASCII as an argument
unfoldable pub quote : (Text → Text) → Text → Text
unfolding quote_bytes is_ascii
quote unicode s = if is_ascii s then b'"' ∷ (quote_bytes s ++ b'"' ∷ []) else unicode s

quote_example : quote (λ s. s) (codes "OKP\"") ≡ codes "\"OKP\\\"\""
unfolding quote
quote_example = refl

split_example : split b'.' (codes "a..b") ≡ codes "a" ∷ [] ∷ codes "b" ∷ []
unfolding split
split_example = refl
