-- ===== src/Testutil/Jwts.antt =====
-- internal/testutil/tokens.go: compact JWTs of an arbitrary header and payload, and the claims of one.
pub mod Split
pub mod Forged
use signet_ps.Base.{
  ltb, leb, ◌==◌, if◌then◌else◌, Map, Bytes, Text, codes, ℕ, zero, suc, Bool, true, false, ◌&&◌,
  ◌||◌, Option, none, some, List, [], ◌∷◌, ◌++◌,
}
use signet_ps.Std.Base64.{raw_url_encode, raw_url_decode}
use signet_ps.Env.{Json, text, obj, Fields, end, field, Env}
use signet_ps.Tokens.{AuthClaims}
use signet_ps.Tokens.Jwt.Claims.{claims_of_json}
use signet_ps.Testutil.Resolvers.{issuer_kid}

-- `<` on strings, which compares bytes
text_lt : Text → Text → Bool
text_lt s [] = false
text_lt [] (b ∷ t) = true
text_lt (a ∷ s) (b ∷ t) = ltb a b || (a == b && text_lt s t)

-- a map as encoding/json writes it, sorted by its keys
insert_sorted : Text → Json → Fields → Fields
unfolding text_lt
insert_sorted k j end = field k j end
insert_sorted k j (field k' j' fs) =
    if text_lt k k' then field k j (field k' j' fs) else field k' j' (insert_sorted k j fs)

sorted_fields : Map Json → Fields
unfolding insert_sorted
sorted_fields [] = end
sorted_fields ((k, j) ∷ m) = insert_sorted k j (sorted_fields m)

unfoldable pub map_json : Map Json → Json
unfolding sorted_fields
map_json m = obj (sorted_fields m)

unfoldable pub default_jwt_header : Map Json
default_jwt_header =
    (codes "alg", text (codes "EdDSA"))
    ∷ (codes "typ", text (codes "auth+jwt"))
    ∷ (codes "kid", text issuer_kid)
    ∷ []

-- `b64`
unfoldable pub b64 : Bytes → Text
b64 b = raw_url_encode b

-- of a private key, a header and the JSON value of the claims; a value always has a JSON text
unfoldable pub sign_jwt_raw : Env → Bytes → Map Json → Json → Text
unfolding b64
sign_jwt_raw env priv hdr claims =
    let signing = b64 (env.marshal (map_json hdr)) ++ b'.' ∷ b64 (env.marshal claims) in
    signing ++ b'.' ∷ b64 (env.ed25519_sign priv signing)

-- a byte that continues a rune
is_tail : ℕ → Bool
is_tail b = leb 128 b && ltb b 192

-- the second byte that may follow the first one of a rune of three or four bytes
second_ok : ℕ → ℕ → Bool
second_ok a b =
    if a == 224
    then leb 160 b && ltb b 192
    else if a == 237
    then leb 128 b && ltb b 160
    else if a == 240
    then leb 144 b && ltb b 192
    else if a == 244
    then leb 128 b && ltb b 144
    else leb 128 b && ltb b 192

starts_two : ℕ → Text → Bool
unfolding is_tail
starts_two a [] = false
starts_two a (b ∷ s) = leb 194 a && ltb a 224 && is_tail b

starts_three : ℕ → Text → Bool
unfolding is_tail second_ok
starts_three a (b ∷ c ∷ s) = leb 224 a && ltb a 240 && second_ok a b && is_tail c
starts_three a s = false

starts_four : ℕ → Text → Bool
unfolding is_tail second_ok
starts_four a (b ∷ c ∷ d ∷ s) = leb 240 a && ltb a 245 && second_ok a b && is_tail c && is_tail d
starts_four a s = false

-- how many bytes the rune that starts with `a`, and goes on in `s`, has after `a`; `none` if the
-- bytes are not UTF-8, when `range` reads one byte as U+FFFD
rune_tail : ℕ → Text → Option ℕ
unfolding starts_two starts_three starts_four
rune_tail a s =
    if ltb a 128
    then some 0
    else if starts_two a s
    then some 1
    else if starts_three a s
    then some 2
    else if starts_four a s
    then some 3
    else none

-- the segments that are done, and the one being read
abbrev Cut : Type 0
Cut = List Text × Text

push_bytes : Text → Cut → Cut
push_bytes t (out, cur) = (out, cur ++ t)

-- one rune of the loop: its first byte, or the three of U+FFFD
step_rune : ℕ → Option ℕ → Cut → Cut
unfolding push_bytes
step_rune a none (out, cur) = push_bytes (239 ∷ 191 ∷ 189 ∷ []) (out, cur)
step_rune a (some n) (out, cur) =
    if a == b'.' then (out ++ cur ∷ [], []) else push_bytes (a ∷ []) (out, cur)

tail_of : Option ℕ → ℕ
tail_of none = 0
tail_of (some n) = n

-- the loop, with the bytes that are left of the rune that was read
split_loop : ℕ → Text → Cut → Cut
unfolding push_bytes step_rune rune_tail tail_of
split_loop n [] c = c
split_loop (suc n) (a ∷ s) c = split_loop n s (push_bytes (a ∷ []) c)
split_loop zero (a ∷ s) c = split_loop (tail_of (rune_tail a s)) s (step_rune a (rune_tail a s) c)

finish_cut : Cut → List Text
finish_cut (out, cur) = out ++ cur ∷ []

unfoldable pub split_dot : Text → List Text
unfolding split_loop finish_cut
split_dot s = finish_cut (split_loop 0 s ([], []))

three_parts : List Text → Option Text
three_parts (a ∷ b ∷ c ∷ []) = some b
three_parts _ = none

-- the payload of a JWT, with nothing verified
unfoldable pub decode_claims : Env → Text → Option AuthClaims
unfolding three_parts
decode_claims env raw = elim (three_parts (split_dot raw)) [
  | none ↦ none
  | some seg ↦ elim (raw_url_decode seg) [
    | none ↦ none
    | some body ↦ elim (env.unmarshal body) [ none ↦ none | some j ↦ claims_of_json env j ]
  ]
]
