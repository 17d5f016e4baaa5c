-- ===== src/Tokens/Jwt/RoundTrip.antt =====
-- Decoding the JSON of a header or of claims gives them back.
use signet_ps.Base.{IsInt64, Text, codes, text_eq, ◌≡◌, refl, ◌∙◌, Option, none, some, [], ◌∷◌}
use signet_ps.Std.Strings.{equal_fold}
use signet_ps.Env.{Fields, end, Env}
use signet_ps.Env.Decode.{get_text, get_fields, get_struct, get_pointer, names, get_int64-num}
use signet_ps.Attest.Content.{omit_empty}
use signet_ps.Tokens.{MissionRef, StepUp, Vouched, AuthClaims}
use signet_ps.Tokens.Jwt.Claims.{
  JwtHeader, header_json, mission_json, step_up_json, vouched_json, omit_nil, claims_json,
  header_of_json, set_claims, claims_of_json,
}

module _ (env : Env) where
  pub header_of_json-header_json : (h : JwtHeader) → header_of_json env (header_json h) ≡ some h
  unfolding header_of_json header_json get_struct names equal_fold text_eq get_text
  header_of_json-header_json h = refl

  mission_field :
      (m : Option MissionRef) (rest : Fields) (a : AuthClaims)
      → get_fields
          (set_claims env)
          (omit_nil mission_json (codes "mission") m rest)
          (record a { mission = none })
        ≡ get_fields (set_claims env) rest (record a { mission = m })
  unfolding set_claims get_struct names equal_fold text_eq get_text omit_nil mission_json
      get_pointer
  mission_field none rest a = refl
  mission_field (some m) rest a = refl

  psa_field :
      (t : Text) (rest : Fields) (a : AuthClaims)
      → get_fields (set_claims env) (omit_empty (codes "psa") t rest) (record a { psa = [] })
        ≡ get_fields (set_claims env) rest (record a { psa = t })
  unfolding set_claims get_struct names equal_fold text_eq get_text omit_empty
  psa_field [] rest a = refl
  psa_field (x ∷ t) rest a = refl

  ag_s256_field :
      (t : Text) (rest : Fields) (a : AuthClaims)
      → get_fields
          (set_claims env)
          (omit_empty (codes "ag_s256") t rest)
          (record a { ag_s256 = [] })
        ≡ get_fields (set_claims env) rest (record a { ag_s256 = t })
  unfolding set_claims get_struct names equal_fold text_eq get_text omit_empty
  ag_s256_field [] rest a = refl
  ag_s256_field (x ∷ t) rest a = refl

  step_up_field :
      (s : Option StepUp) (rest : Fields) (a : AuthClaims)
      → get_fields
          (set_claims env)
          (omit_nil step_up_json (codes "step_up") s rest)
          (record a { step_up = none })
        ≡ get_fields (set_claims env) rest (record a { step_up = s })
  unfolding set_claims get_struct names equal_fold text_eq get_text omit_nil step_up_json
      get_pointer
  step_up_field none rest a = refl
  step_up_field (some s) rest a = refl

  name_field :
      (v : Option Vouched) (rest : Fields) (a : AuthClaims)
      → get_fields
          (set_claims env)
          (omit_nil vouched_json (codes "name") v rest)
          (record a { name = none })
        ≡ get_fields (set_claims env) rest (record a { name = v })
  unfolding set_claims get_struct names equal_fold text_eq get_text omit_nil vouched_json
      get_pointer
  name_field none rest a = refl
  name_field (some v) rest a = refl

  email_field :
      (v : Option Vouched) (rest : Fields) (a : AuthClaims)
      → get_fields
          (set_claims env)
          (omit_nil vouched_json (codes "email") v rest)
          (record a { email = none })
        ≡ get_fields (set_claims env) rest (record a { email = v })
  unfolding set_claims get_struct names equal_fold text_eq get_text omit_nil vouched_json
      get_pointer
  email_field none rest a = refl
  email_field (some v) rest a = refl

  kyc_field :
      (v : Option Vouched) (rest : Fields) (a : AuthClaims)
      → get_fields
          (set_claims env)
          (omit_nil vouched_json (codes "kyc") v rest)
          (record a { kyc = none })
        ≡ get_fields (set_claims env) rest (record a { kyc = v })
  unfolding set_claims get_struct names equal_fold text_eq get_text omit_nil vouched_json
      get_pointer
  kyc_field none rest a = refl
  kyc_field (some v) rest a = refl

  abbrev optional_fields : AuthClaims → Fields
  optional_fields c = omit_nil mission_json (codes "mission") c.mission (
      omit_empty (codes "psa") c.psa (
        omit_empty (codes "ag_s256") c.ag_s256 (
          omit_nil step_up_json (codes "step_up") c.step_up (
            omit_nil vouched_json (codes "name") c.name (
              omit_nil vouched_json (codes "email") c.email
                (omit_nil vouched_json (codes "kyc") c.kyc end))))))

  abbrev without_options : AuthClaims → AuthClaims
  without_options c = record c {
    mission = none;
    psa = [];
    ag_s256 = [];
    step_up = none;
    name = none;
    email = none;
    kyc = none;
  }

  get_optional_fields :
      (c : AuthClaims)
      → get_fields (set_claims env) (optional_fields c) (without_options c) ≡ some c
  unfolding get_fields
  get_optional_fields c =
      mission_field c.mission _ (without_options c)
      ∙ (psa_field c.psa _ (record (without_options c) { mission = c.mission })
          ∙ (ag_s256_field c.ag_s256 _
                (record (without_options c) { mission = c.mission; psa = c.psa })
              ∙ (step_up_field c.step_up _
                    (record c { step_up = none; name = none; email = none; kyc = none })
                  ∙ (name_field c.name _ (record c { name = none; email = none; kyc = none })
                      ∙ (email_field c.email _ (record c { email = none; kyc = none })
                          ∙ kyc_field c.kyc end (record c { kyc = none }))))))

  -- The claims of a token survive the trip through JSON, if their two times are of type int64.
  pub claims_of_json-claims_json :
      (c : AuthClaims) → IsInt64 c.iat → IsInt64 c.exp → claims_of_json env (claims_json c) ≡ some c
  unfolding claims_of_json claims_json get_struct names equal_fold text_eq get_text
  claims_of_json-claims_json c hi he =
      rw (get_int64-num c.iat _ hi, get_int64-num c.exp _ he) (get_optional_fields c)
