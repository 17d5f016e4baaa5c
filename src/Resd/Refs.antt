-- ===== src/Resd/Refs.antt =====
-- cmd/resd/main.go: splitRef and bearer.
use signet_ps.Base.{
  if◌then◌else◌, Text, codes, text_eq, ◌≡◌, refl, Option, none, some, List, [], ◌∷◌, ◌++◌,
}
use signet_ps.Std.Strings.{strip_prefix, Lacks, cut, cut-append, trim_space}

-- the value of a fragment `s256=…`, else ""
s256_of : Option (Text × Text) → Text
s256_of none = []
s256_of (some (k, v)) = if text_eq k (codes "s256") then v else []

-- a URL and the content hash that its fragment pins
unfoldable pub split_ref : Text → Text × Text
unfolding s256_of
split_ref ref = elim (cut b'#' ref) [
  | none ↦ (ref, [])
  | some (url, frag) ↦ (url, s256_of (cut b'=' frag))
]

-- The first scheme that the header starts with; the token is what follows it.
bearer_of : (Text → Text) → List Text → Text → Text
bearer_of unicode [] h = []
bearer_of unicode (scheme ∷ schemes) h = elim (strip_prefix scheme h) [
  | none ↦ bearer_of unicode schemes h
  | some t ↦ trim_space unicode t
]

unfoldable pub bearer : (Text → Text) → Text → Text
unfolding bearer_of strip_prefix trim_space
bearer unicode h = bearer_of unicode (codes "AAuth " ∷ codes "Bearer " ∷ []) h

bearer_example :
    (bearer (λ t. t) (codes "Bearer  abc ") ≡ codes "abc")
    × (bearer (λ t. t) (codes "Basic x") ≡ [])
unfolding bearer text_eq
bearer_example = (refl, refl)

split_ref_example :
    split_ref (codes "https://ps/psa/0xab#s256=00=") ≡ (codes "https://ps/psa/0xab", codes "00=")
unfolding split_ref cut text_eq
split_ref_example = refl

-- A reference that pins a hash is taken apart into what it was made of.
pub split_ref-pinned :
    (url hash : Text) → Lacks b'#' url → split_ref (url ++ (codes "#s256=" ++ hash)) ≡ (url, hash)
unfolding split_ref cut text_eq
split_ref-pinned url hash h = rw (cut-append b'#' url (codes "s256=" ++ hash) h, split_ref) refl
