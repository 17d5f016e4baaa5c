-- ===== src/Tokens/Jwt/Claims.antt =====
-- internal/tokens/tokens.go: the JSON of a JWT's header and claims, from the struct tags, both ways.
use mathlib.Core.Option
use signet_ps.Base.{if◌then◌else◌, pos, Text, codes, Option, none, some, []}
use signet_ps.Env.{Json, text, num, obj, Fields, end, field, Env}
use signet_ps.Env.Decode.{get_text, get_int64, get_struct, get_pointer, names}
use signet_ps.Attest.Content.{omit_empty}
use signet_ps.Tokens.{Jwk, MissionRef, StepUp, Vouched, AuthClaims}

pub record JwtHeader : Type 0 where
  pub alg : Text
  pub typ : Text
  pub kid : Text

abbrev pub empty_header : JwtHeader
empty_header = record { alg = []; typ = []; kid = [] }

unfoldable pub header_json : JwtHeader → Json
header_json h = obj (
    field (codes "alg") (text h.alg)
      (field (codes "typ") (text h.typ) (field (codes "kid") (text h.kid) end)))

unfoldable pub jwk_json : Jwk → Json
jwk_json k = obj (
    field (codes "kty") (text k.kty)
      (field (codes "crv") (text k.crv) (field (codes "x") (text k.x) end)))

unfoldable pub mission_json : MissionRef → Json
mission_json m =
    obj (field (codes "approver") (text m.approver) (field (codes "s256") (text m.s256) end))

unfoldable pub step_up_json : StepUp → Json
step_up_json s = obj (field (codes "digest") (text s.digest) (field (codes "sig") (text s.sig) end))

unfoldable pub vouched_json : Vouched → Json
vouched_json v =
    obj (field (codes "value") (text v.value) (field (codes "provenance") (text v.provenance) end))

-- a pointer tagged `omitempty`
unfoldable pub omit_nil : {A : Type 0} → (A → Json) → Text → Option A → Fields → Fields
omit_nil json k none rest = rest
omit_nil json k (some a) rest = field k (json a) rest

unfoldable pub claims_json : AuthClaims → Json
unfolding jwk_json mission_json step_up_json vouched_json omit_nil
claims_json c = obj (
    field (codes "iss") (text c.iss) (
      field (codes "dwk") (text c.dwk) (
        field (codes "aud") (text c.aud) (
          field (codes "jti") (text c.jti) (
            field (codes "agent") (text c.agent) (
              field (codes "cnf") (obj (field (codes "jwk") (jwk_json c.cnf) end)) (
                field (codes "iat") (num c.iat) (
                  field (codes "exp") (num c.exp) (
                    field (codes "sub") (text c.sub) (
                      omit_nil mission_json (codes "mission") c.mission (
                        omit_empty (codes "psa") c.psa (
                          omit_empty (codes "ag_s256") c.ag_s256 (
                            omit_nil step_up_json (codes "step_up") c.step_up (
                              omit_nil vouched_json (codes "name") c.name (
                                omit_nil vouched_json (codes "email") c.email
                                  (omit_nil vouched_json (codes "kyc") c.kyc end))))))))))))))))

abbrev pub empty_jwk : Jwk
empty_jwk = record { kty = []; crv = []; x = [] }

abbrev pub empty_claims : AuthClaims
empty_claims = record {
  iss = [];
  dwk = [];
  aud = [];
  jti = [];
  agent = [];
  cnf = empty_jwk;
  iat = pos 0;
  exp = pos 0;
  sub = [];
  mission = none;
  psa = [];
  ag_s256 = [];
  step_up = none;
  name = none;
  email = none;
  kyc = none;
}

module _ (env : Env) where
  set_header : Text → Json → JwtHeader → Option JwtHeader
  set_header k j h =
      if names env "alg" k
      then Option.map (λ t. record h { alg = t }) (get_text j h.alg)
      else if names env "typ" k
      then Option.map (λ t. record h { typ = t }) (get_text j h.typ)
      else if names env "kid" k
      then Option.map (λ t. record h { kid = t }) (get_text j h.kid)
      else some h

  unfoldable pub header_of_json : Json → Option JwtHeader
  unfolding set_header
  header_of_json j = get_struct set_header j empty_header

  unfoldable pub set_jwk : Text → Json → Jwk → Option Jwk
  set_jwk k j w =
      if names env "kty" k
      then Option.map (λ t. record w { kty = t }) (get_text j w.kty)
      else if names env "crv" k
      then Option.map (λ t. record w { crv = t }) (get_text j w.crv)
      else if names env "x" k
      then Option.map (λ t. record w { x = t }) (get_text j w.x)
      else some w

  -- the one member of CNF
  set_cnf : Text → Json → Jwk → Option Jwk
  unfolding set_jwk
  set_cnf k j w = if names env "jwk" k then get_struct set_jwk j w else some w

  set_mission : Text → Json → MissionRef → Option MissionRef
  set_mission k j m =
      if names env "approver" k
      then Option.map (λ t. record m { approver = t }) (get_text j m.approver)
      else if names env "s256" k
      then Option.map (λ t. record m { s256 = t }) (get_text j m.s256)
      else some m

  set_step_up : Text → Json → StepUp → Option StepUp
  set_step_up k j s =
      if names env "digest" k
      then Option.map (λ t. record s { digest = t }) (get_text j s.digest)
      else if names env "sig" k
      then Option.map (λ t. record s { sig = t }) (get_text j s.sig)
      else some s

  set_vouched : Text → Json → Vouched → Option Vouched
  set_vouched k j v =
      if names env "value" k
      then Option.map (λ t. record v { value = t }) (get_text j v.value)
      else if names env "provenance" k
      then Option.map (λ t. record v { provenance = t }) (get_text j v.provenance)
      else some v

  get_vouched : Json → Option Vouched → Option (Option Vouched)
  unfolding set_vouched
  get_vouched = get_pointer (get_struct set_vouched) (record { value = []; provenance = [] })

  unfoldable pub set_claims : Text → Json → AuthClaims → Option AuthClaims
  unfolding set_cnf set_mission set_step_up get_vouched
  set_claims k j c =
      if names env "iss" k
      then Option.map (λ t. record c { iss = t }) (get_text j c.iss)
      else if names env "dwk" k
      then Option.map (λ t. record c { dwk = t }) (get_text j c.dwk)
      else if names env "aud" k
      then Option.map (λ t. record c { aud = t }) (get_text j c.aud)
      else if names env "jti" k
      then Option.map (λ t. record c { jti = t }) (get_text j c.jti)
      else if names env "agent" k
      then Option.map (λ t. record c { agent = t }) (get_text j c.agent)
      else if names env "cnf" k
      then Option.map (λ w. record c { cnf = w }) (get_struct set_cnf j c.cnf)
      else if names env "iat" k
      then Option.map (λ n. record c { iat = n }) (get_int64 j c.iat)
      else if names env "exp" k
      then Option.map (λ n. record c { exp = n }) (get_int64 j c.exp)
      else if names env "sub" k
      then Option.map (λ t. record c { sub = t }) (get_text j c.sub)
      else if names env "mission" k
      then Option.map (λ m. record c { mission = m })
          (get_pointer (get_struct set_mission) (record { approver = []; s256 = [] }) j c.mission)
      else if names env "psa" k
      then Option.map (λ t. record c { psa = t }) (get_text j c.psa)
      else if names env "ag_s256" k
      then Option.map (λ t. record c { ag_s256 = t }) (get_text j c.ag_s256)
      else if names env "step_up" k
      then Option.map (λ s. record c { step_up = s })
          (get_pointer (get_struct set_step_up) (record { digest = []; sig = [] }) j c.step_up)
      else if names env "name" k
      then Option.map (λ v. record c { name = v }) (get_vouched j c.name)
      else if names env "email" k
      then Option.map (λ v. record c { email = v }) (get_vouched j c.email)
      else if names env "kyc" k
      then Option.map (λ v. record c { kyc = v }) (get_vouched j c.kyc)
      else some c

  unfoldable pub claims_of_json : Json → Option AuthClaims
  unfolding set_claims
  claims_of_json j = get_struct set_claims j empty_claims
