-- ===== src/Server/Helpers/Resource.antt =====
-- The claims of a resource token, through JSON and back.
use signet_ps.Base.{
  IsInt64, Text, codes, text_eq, text_eq_iff, ◌≡◌, ◌≢◌, refl, ◌∙◌, ap, some, none, [], ◌∷◌, ◌++◌,
  arith, append_assoc,
}
use signet_ps.Std.Strings.{equal_fold, split, Lacks, split-Lacks, split-append}
use signet_ps.Std.Hex.{AreBytes}
use signet_ps.Std.Base64.{raw_url_encode}
use signet_ps.Std.Base64.RoundTrip.{raw_url_decode-raw_url_encode, raw_url_encode-Lacks}
use signet_ps.Env.{end, Env}
use signet_ps.Env.Decode.{
  get_text, get_fields, get_struct, names, get_int64-num, get_texts-texts_json,
}
use signet_ps.Attest.Content.{omit_empty}
use signet_ps.Consent.{Request}
use signet_ps.Tokens.{ResourceClaims}
use signet_ps.Server.Helpers.{
  set_resource, resource_of_json, resource_json, marshal_resource, resource_of,
  parse_resource_token,
}

-- The two times are of type int64.
pub record IsResource (c : ResourceClaims) : Type 0 where
  pub iat : IsInt64 c.iat
  pub exp : IsInt64 c.exp

module _ (env : Env) where
  amount_field :
      (t : Text) (a : ResourceClaims)
      → get_fields
          (set_resource env)
          (omit_empty (codes "amount") t end)
          (record a { amount_wei = [] })
        ≡ some (record a { amount_wei = t })
  unfolding set_resource get_struct names equal_fold text_eq get_text omit_empty
  amount_field [] a = refl
  amount_field (x ∷ t) a = refl

  resource_of_json-resource_json :
      (c : ResourceClaims) → IsResource c → resource_of_json env (resource_json env c) ≡ some c
  unfolding resource_of_json resource_json set_resource get_struct names equal_fold text_eq get_text
  resource_of_json-resource_json c h =
      rw
        (
          get_int64-num c.iat _ h.iat,
          get_int64-num c.exp _ h.exp,
          get_texts-texts_json c.scope none,
        )
        (amount_field c.amount_wei c)

  -- the value of this JSON text is read back
  abbrev pub IsReadable : ResourceClaims → Type 0
  IsReadable c = env.unmarshal (marshal_resource env c) ≡ some (resource_json env c)

  -- A request that stores the JSON of resource claims is minted from these claims.
  pub resource_of-marshal_resource :
      (r : Request) (c : ResourceClaims)
      → r.resource_json ≡ marshal_resource env c
      → IsReadable c
      → IsResource c
      → resource_of env r ≡ c
  unfolding resource_of marshal_resource
  resource_of-marshal_resource r c e u h = ground (arith, e, u, resource_of_json-resource_json c h)

  -- A compact JWT whose body holds resource claims with an issuer is parsed into these claims.
  pub parse_resource_token_lem :
      (header sig : Text) (c : ResourceClaims)
      → Lacks b'.' header
      → Lacks b'.' sig
      → AreBytes (marshal_resource env c)
      → IsReadable c
      → IsResource c
      → c.iss ≢ []
      → parse_resource_token env
          ((header ++ b'.' ∷ raw_url_encode (marshal_resource env c)) ++ b'.' ∷ sig)
        ≡ some c
  unfolding parse_resource_token marshal_resource
  parse_resource_token_lem header sig c lh ls bytes u h n =
      let body = raw_url_encode (marshal_resource env c) in
      let segments : split b'.' ((header ++ b'.' ∷ body) ++ b'.' ∷ sig) ≡ header ∷ body ∷ sig ∷ [] =
        ap (split b'.') (append_assoc header (b'.' ∷ body) (b'.' ∷ sig))
        ∙ (split-append b'.' header (body ++ b'.' ∷ sig) lh
            ∙ ap (λ t. header ∷ t)
                (split-append b'.' body sig (raw_url_encode-Lacks _)
                  ∙ ap (λ t. body ∷ t) (split-Lacks b'.' sig ls))) in
      ground (
        arith,
        segments,
        raw_url_decode-raw_url_encode (marshal_resource env c) bytes,
        u,
        resource_of_json-resource_json c h,
        text_eq_iff c.iss [],
        n,
      )
