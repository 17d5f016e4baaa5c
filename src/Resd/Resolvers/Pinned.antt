-- ===== src/Resd/Resolvers/Pinned.antt =====
-- What a reference that pins a hash resolves to.
use signet_ps.Base.{
  Option-cases, text_eq_iff, text_eq_refl, Text, codes, ◌≡◌, ◌≢◌, ◌++◌, [], some, inl, inr, arith,
}
use signet_ps.Std.Strings.{Lacks}
use signet_ps.Env.{Env}
use signet_ps.Attest.{PersonServerAuthorization, AgentGrant}
use signet_ps.Attest.Content.{psa_json, agent_grant_json, content_hash}
use signet_ps.Attest.Decode.{psa_of_json, agent_grant_of_json}
use signet_ps.Attest.Decode.RoundTrip.{
  IsPsa, IsGrant, psa_of_json-psa_json, agent_grant_of_json-agent_grant_json,
}
use signet_ps.Resd.Refs.{split_ref-pinned}
use signet_ps.Resd.Resolvers.{Web, base_url, pinned_psa, pinned_grant, resolve_psa, resolve_grant}

module _ (env : Env) where
  pinned_psa_lem :
      (want : Text) (p q : PersonServerAuthorization)
      → want ≢ []
      → pinned_psa env want p ≡ some q
      → content_hash env (psa_json q) ≡ want
  unfolding pinned_psa
  pinned_psa_lem want p q n h =
      ground (arith, text_eq_iff want [], text_eq_iff (content_hash env (psa_json p)) want)

  pinned_grant_lem :
      (want : Text) (g g' : AgentGrant)
      → pinned_grant env want g ≡ some g'
      → content_hash env (agent_grant_json g') ≡ want
  unfolding pinned_grant
  pinned_grant_lem want g g' h =
      ground (arith, text_eq_iff (content_hash env (agent_grant_json g)) want)

  -- Whatever the web serves, an authorization that resolves from a reference with a hash, whose URL
  -- has no "#", has this content hash.
  pub resolve_psa_pinned :
      (web : Web) (url hash : Text) (p : PersonServerAuthorization)
      → Lacks b'#' url
      → hash ≢ []
      → resolve_psa env web (url ++ (codes "#s256=" ++ hash)) ≡ some p
      → content_hash env (psa_json p) ≡ hash
  unfolding resolve_psa
  resolve_psa_pinned web url hash p l n h = elim (Option-cases (web url)) [
    | inl e ↦ absurd (ground (arith, split_ref-pinned url hash l, e))
    | inr (j, e) ↦ elim (Option-cases (psa_of_json env j)) [
      | inl f ↦ absurd (ground (arith, split_ref-pinned url hash l, e, f))
      | inr (q, f) ↦ pinned_psa_lem hash q p n (ground (arith, split_ref-pinned url hash l, e, f))
    ]
  ]

  -- Whatever the web serves, a grant that resolves for a hash has this content hash.
  pub resolve_grant_pinned :
      (web : Web) (iss hash : Text) (g : AgentGrant)
      → resolve_grant env web iss hash ≡ some g
      → content_hash env (agent_grant_json g) ≡ hash
  unfolding resolve_grant pinned_grant
  resolve_grant_pinned web iss hash g h =
      elim (Option-cases (web (base_url iss ++ (codes "/grants/" ++ hash)))) [
        | inl e ↦ absurd (ground (arith, e))
        | inr (j, e) ↦ elim (Option-cases (agent_grant_of_json env j)) [
          | inl f ↦ absurd (ground (arith, e, f))
          | inr (q, f) ↦ pinned_grant_lem hash q g (ground (arith, e, f))
        ]
      ]

  -- An authorization that the web serves under the URL of a reference resolves from the reference
  -- that pins its content hash.
  pub resolve_psa-served :
      (web : Web) (url : Text) (p : PersonServerAuthorization)
      → Lacks b'#' url
      → IsPsa p
      → web url ≡ some (psa_json p)
      → resolve_psa env web (url ++ (codes "#s256=" ++ content_hash env (psa_json p))) ≡ some p
  unfolding resolve_psa pinned_psa
  resolve_psa-served web url p l t e = ground (
    arith,
    split_ref-pinned url (content_hash env (psa_json p)) l,
    e,
    psa_of_json-psa_json env p t,
    text_eq_iff (content_hash env (psa_json p)) (content_hash env (psa_json p)),
  )

  pub resolve_grant-served :
      (web : Web) (iss : Text) (g : AgentGrant)
      → IsGrant g
      → web (base_url iss ++ (codes "/grants/" ++ content_hash env (agent_grant_json g)))
        ≡ some (agent_grant_json g)
      → resolve_grant env web iss (content_hash env (agent_grant_json g)) ≡ some g
  unfolding resolve_grant pinned_grant
  resolve_grant-served web iss g t e = ground (
    arith,
    e,
    agent_grant_of_json-agent_grant_json env g t,
    text_eq_refl (content_hash env (agent_grant_json g)),
  )
