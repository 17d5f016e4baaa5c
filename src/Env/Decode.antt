-- ===== src/Env/Decode.antt =====
-- encoding/json: decoding a JSON value into a struct. A key names a field up to case, an unknown key
-- is skipped, and null leaves a field as it was, but makes a pointer or a slice nil.
use mathlib.Core.Option
use signet_ps.Base.{
  if◌then◌else◌, set, ℤ, ltb_ℤ, max_int64, min_int64, IsInt64, Text, codes, String, ◌≡◌, refl, Bool,
  not, ◌&&◌, Option, none, some, List, [], ◌∷◌, arith,
}
use signet_ps.Std.Strings.{equal_fold}
use signet_ps.Env.{
  Json, null, text, num, arr, obj, Items, nil, cons, Fields, end, field, Slice, text_items,
  texts_json, Env,
}

-- into a string
unfoldable pub get_text : Json → Text → Option Text
get_text null old = some old
get_text (text t) old = some t
get_text _ old = none

in_int64 : ℤ → Bool
in_int64 n = not (ltb_ℤ n min_int64) && not (ltb_ℤ max_int64 n)

-- into an int64
unfoldable pub get_int64 : Json → ℤ → Option ℤ
unfolding in_int64
get_int64 null old = some old
get_int64 (num n) old = if in_int64 n then some n else none
get_int64 _ old = none

unfoldable pub get_items : Items → Option (List Text)
unfolding get_text
get_items nil = some []
get_items (cons j js) = elim (get_text j []) [
  | none ↦ none
  | some t ↦ Option.map (λ ts. t ∷ ts) (get_items js)
]

-- into a []string
unfoldable pub get_texts : Json → Slice Text → Option (Slice Text)
unfolding get_items
get_texts null old = some none
get_texts (arr js) old = Option.map some (get_items js)
get_texts _ old = none

module _ {A : Type 0} where
  abbrev pub and_then : {B : Type 0} → Option B → (B → Option A) → Option A
  and_then none f = none
  and_then (some b) f = f b

  unfoldable pub get_fields : (Text → Json → A → Option A) → Fields → A → Option A
  get_fields set end a = some a
  get_fields set (field k j rest) a = and_then (set k j a) (get_fields set rest)

  -- into a struct, whose fields `set` knows
  unfoldable pub get_struct : (Text → Json → A → Option A) → Json → A → Option A
  unfolding get_fields
  get_struct set (obj fs) a = get_fields set fs a
  get_struct set null a = some a
  get_struct set _ a = none

  abbrev or_zero : Option A → A → A
  or_zero none z = z
  or_zero (some a) z = a

  -- into a pointer to a struct
  unfoldable pub get_pointer : (Json → A → Option A) → A → Json → Option A → Option (Option A)
  get_pointer get fresh null old = some none
  get_pointer get fresh j old = Option.map some (get j (or_zero old fresh))

-- the key of a member names the field
unfoldable pub names : Env → String → Text → Bool
names env name key = equal_fold env.unicode_fold key (codes name)

get_items_example :
    get_texts (arr (cons (text (codes "a")) (cons null nil))) none
    ≡ some (some (codes "a" ∷ [] ∷ []))
unfolding get_texts
get_items_example = refl

pub get_items-text_items : (ts : List Text) → get_items (text_items ts) ≡ some ts
unfolding get_items
get_items-text_items [] = refl
get_items-text_items (t ∷ ts) = rw (get_items-text_items ts)

pub get_texts-texts_json : (ts old : Slice Text) → get_texts (texts_json ts) old ≡ some ts
unfolding get_texts
get_texts-texts_json none old = refl
get_texts-texts_json (some ts) old = rw (get_items-text_items ts)

pub get_int64-num : (n old : ℤ) → IsInt64 n → get_int64 (num n) old ≡ some n
unfolding get_int64
get_int64-num n old h = ground arith
