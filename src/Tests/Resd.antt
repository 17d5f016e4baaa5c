-- ===== src/Tests/Resd.antt =====
-- A resource server, the web that it asks, and two tokens without a chain.
use signet_ps.Base.{
  ap, subst, sym, ◌==◌, if◌then◌else◌, replicate, ℤ, pos, floor_div, wrap64, ◌-ℤ◌, Map, lookup,
  insert, Text, codes, text_eq, ok, ℕ, ◌≡◌, ◌≢◌, ◌↔◌, refl, true, false, none, some, [], ◌∷◌, ◌++◌,
  arith,
}
use signet_ps.Std.Hex.{hex_encode}
use signet_ps.Std.Strings.{Lacks, split, trim_end, equal_fold}
use signet_ps.Std.Base64.{std_alphabet, base64_encode, raw_url_encode, raw_url_decode, std_decode}
use signet_ps.Std.Base64.Padded.{std_decode-base64_encode}
use signet_ps.Env.{Json, text, arr, obj, nil, cons, end, field, Env}
use signet_ps.Env.Decode.{get_struct, get_text, get_fields, get_int64, get_pointer, names}
use signet_ps.Attest.Content.{psa_json, agent_grant_json, content_hash, omit_empty}
use signet_ps.Attest.Decode.RoundTrip.{IsPsa, IsGrant}
use signet_ps.Attest.Verify.{unix}
use signet_ps.Tokens.{AuthClaims, thumbprint}
use signet_ps.Tokens.Jwt.{split3, decode_seg, parse_and_check_sig}
use signet_ps.Tokens.Jwt.Claims.{
  empty_claims, header_json, claims_json, jwk_json, header_of_json, claims_of_json, set_jwk,
  set_claims,
}
use signet_ps.Tokens.Jwt.Signed.{auth_header}
use signet_ps.Tokens.Verify.{verify_layer1, verify_vanilla, check_claims, is_stale}
use signet_ps.Resd.Resolvers.{
  Web, base_url, keys_of_json, resolve_key, resolve_psa, seen_jti, verifier_at,
}
use signet_ps.Resd.Resolvers.Pinned.{resolve_psa_pinned, resolve_psa-served}
use signet_ps.Resd.Handlers.{Resource, admit, whoami}
use signet_ps.Resd.Handlers.Once.{Visited, no_visit, admitted_once}
use signet_ps.Resd.Handlers.Anchored.{IsAnchored, admit-iff-IsAnchored, whoami_keys_only}
use signet_ps.Tests.Fixture.{env, issuer_key, psa, grant}

pub psa_typed : IsPsa psa
psa_typed = record {
  ttl = (omega arith, omega arith);
  not_before = (omega arith, omega arith);
  not_after = (omega arith, omega arith);
  chain = (omega arith, omega arith);
  nonce = omega arith;
  signature = omega arith;
}

pub grant_typed : IsGrant grant
grant_typed = record {
  not_before = (omega arith, omega arith);
  not_after = (omega arith, omega arith);
  chain = (omega arith, omega arith);
  nonce = omega arith;
  signature = omega arith;
}

std_decode-base64_encode_example :
    std_decode (base64_encode std_alphabet (1 ∷ 2 ∷ [])) ≡ some (1 ∷ 2 ∷ [])
std_decode-base64_encode_example = std_decode-base64_encode (1 ∷ 2 ∷ []) (omega arith)

abbrev issuer : Text
issuer = codes "https://ps"

abbrev psa_url : Text
psa_url = codes "https://ps/psa/0xab"

abbrev psa_hash : Text
psa_hash = content_hash env (psa_json psa)

-- the web of one issuer
abbrev web : Web
web url =
    if text_eq url psa_url
    then some (psa_json psa)
    else if text_eq url (codes "https://ps/jwks.json")
    then some (obj (field (codes "keys") (arr (cons (jwk_json issuer_key.pub_jwk) nil)) end))
    else some (agent_grant_json grant)

psa_url-Lacks : Lacks b'#' psa_url
psa_url-Lacks = ground arith

resolved : resolve_psa env web (psa_url ++ (codes "#s256=" ++ psa_hash)) ≡ some psa
unfolding text_eq
resolved = resolve_psa-served env web psa_url psa psa_url-Lacks psa_typed refl

resolve_psa-served_example :
    resolve_psa env web (psa_url ++ (codes "#s256=" ++ psa_hash)) ≡ some psa
unfolding text_eq
resolve_psa-served_example = resolve_psa-served env web psa_url psa psa_url-Lacks psa_typed refl

resolve_psa_pinned_example : content_hash env (psa_json psa) ≡ psa_hash
unfolding content_hash hex_encode
resolve_psa_pinned_example =
    resolve_psa_pinned env web psa_url psa_hash psa psa_url-Lacks (λ e. cc) resolved

abbrev pub resource : Resource
resource = record {
  self = codes "https://r";
  priv = [];
  require_key_rooted = false;
  amount = codes "5";
  scope = codes "read" ∷ [];
}

abbrev token_claims : Text → AuthClaims
token_claims jti = record empty_claims {
  iss = issuer;
  aud = codes "https://r";
  jti = jti;
  iat = pos 1000;
  exp = pos 2000;
}

abbrev token_header : Json
token_header = header_json (auth_header env issuer_key (codes "auth+jwt"))

-- parsing tells a header and two tokens apart by a byte
abbrev two_tokens : Env
two_tokens = record env {
  unmarshal = λ b. elim b [
    | [] ↦ none
    | x ∷ _ ↦
        if x == 1
        then some token_header
        else if x == 2
        then some (claims_json (token_claims (codes "a")))
        else some (claims_json (token_claims (codes "b")))
  ];
}

abbrev token_text : ℕ → Text
token_text x =
    raw_url_encode (1 ∷ [])
    ++ b'.' ∷ (raw_url_encode (x ∷ []) ++ b'.' ∷ raw_url_encode (replicate 64 5))

abbrev thumb : Text
thumb = thumbprint env (token_claims []).cnf

abbrev visiting : ℤ
visiting = pos 1500000000000

first_admitted :
    admit two_tokens web resource [] visiting (token_text 2) thumb
    ≡ (ok (token_claims (codes "a")), (codes "a", pos 2000) ∷ [])
unfolding admit verifier_at verify_vanilla verify_layer1 check_claims parse_and_check_sig split3
    split decode_seg raw_url_decode raw_url_encode header_of_json claims_of_json get_struct
    get_fields get_int64 get_pointer get_text names equal_fold text_eq resolve_key base_url trim_end
    keys_of_json set_jwk set_claims thumbprint unix floor_div is_stale wrap64 ◌-ℤ◌ seen_jti lookup
    insert header_json claims_json jwk_json omit_empty
first_admitted = refl

second_admitted :
    (admit two_tokens web resource ((codes "a", pos 2000) ∷ []) visiting (token_text 3) thumb).0
    ≡ ok (token_claims (codes "b"))
unfolding admit verifier_at verify_vanilla verify_layer1 check_claims parse_and_check_sig split3
    split decode_seg raw_url_decode raw_url_encode header_of_json claims_of_json get_struct
    get_fields get_int64 get_pointer get_text names equal_fold text_eq resolve_key base_url trim_end
    keys_of_json set_jwk set_claims thumbprint unix floor_div is_stale wrap64 ◌-ℤ◌ seen_jti lookup
    insert header_json claims_json jwk_json omit_empty
second_admitted = refl

admitted_once_example : codes "a" ≢ codes "b"
admitted_once_example =
    admitted_once two_tokens web web resource [] ((codes "a", pos 2000) ∷ []) visiting visiting
      (token_text 2) (token_text 3) thumb thumb (token_claims (codes "a"))
      (token_claims (codes "b")) (ap (λ r. r.0) first_admitted)
      (subst (λ (x : Map ℤ). Visited two_tokens resource x ((codes "a", pos 2000) ∷ []))
        (sym (ap (λ r. r.1) first_admitted)) no_visit)
      second_admitted

admit-iff-IsAnchored_example :
    ((admit two_tokens web
        (record resource { require_key_rooted = true })
        []
        visiting
        (token_text 2)
        thumb).0
      ≡ ok (token_claims (codes "a")))
    ↔ IsAnchored two_tokens web
        (record resource { require_key_rooted = true })
        []
        visiting
        (token_text 2)
        thumb
        (token_claims (codes "a"))
admit-iff-IsAnchored_example =
    admit-iff-IsAnchored two_tokens web (record resource { require_key_rooted = true }) [] visiting
      (token_text 2) thumb (token_claims (codes "a")) refl

-- one document for every URL, with the key and the root of an attestation, or with the key alone
abbrev rooted_web : Web
rooted_web url = some (
    obj (
      field (codes "keys") (arr (cons (jwk_json issuer_key.pub_jwk) nil))
        (field (codes "root") (text (codes "0xab")) end)))

abbrev keys_web : Web
keys_web url = some (obj (field (codes "keys") (arr (cons (jwk_json issuer_key.pub_jwk) nil)) end))

same_keys :
    (iss kid : Text)
    → resolve_key two_tokens rooted_web iss kid ≡ resolve_key two_tokens keys_web iss kid
unfolding resolve_key keys_of_json get_struct get_fields names equal_fold text_eq
same_keys iss kid = refl

whoami_keys_only_example :
    whoami two_tokens rooted_web resource [] visiting (codes "AAuth " ++ token_text 2) thumb
    ≡ whoami two_tokens keys_web resource [] visiting (codes "AAuth " ++ token_text 2) thumb
whoami_keys_only_example =
    whoami_keys_only two_tokens rooted_web keys_web resource [] visiting
      (codes "AAuth " ++ token_text 2) thumb refl same_keys
