-- ===== src/Idp/Userinfo/Released.antt =====
-- What /userinfo releases.
use oidc_oauth2_idp.Prelude.{
  All, All-contains, AllDistinct, Bool-cases, List, Option, Option-cases, String, [], ap, arith,
  contains, eq_iff, false, if_split, if◌then◌else◌, inl, inr, none, not, refl, some, some_injective,
  subst, sym, text_cases, true, ◌&&◌, ◌==◌, ◌∙◌, ◌∷◌, ◌≡◌, ◌⊎◌,
}
use oidc_oauth2_idp.Prelude.Dict.{insert, keys, lookup, lookup-insert_ne, lookup-insert_self}
use oidc_oauth2_idp.Idp.State.{
  Claims, ClientSession, Config, Json, Request, Server, Session, str, text_claim, user_claims,
}
use oidc_oauth2_idp.Idp.Scope.{has_scope}
use oidc_oauth2_idp.Idp.Userinfo.{
  claim_scopes, derived_claims, id_token_only_claims, mirror, released_claims, releases, userinfo,
}
use oidc_oauth2_idp.Idp.External.{External}
use oidc_oauth2_idp.Idp.Sessions.{session_by_client_session_id}
use oidc_oauth2_idp.Idp.Claims.{capitalize, extract_access_token, picture_url}

-- A claim that a scope does not release: one about the ID token itself, or one of a scope that the
-- granted one does not have.
abbrev pub IsWithheld : String → String → Type 0
IsWithheld scope name =
    (contains id_token_only_claims name ≡ true)
    ⊎ ((needed : String) × (lookup name claim_scopes ≡ some needed)
        × (has_scope scope needed ≡ false))

releases-IsWithheld : (scope name : String) → IsWithheld scope name → releases scope name ≡ false
unfolding releases
releases-IsWithheld scope name (inl own) = ground arith
releases-IsWithheld scope name (inr (needed, e, h)) = rw (e, h, releases) (ground arith)

mirror-sub :
    (scope : String) (issued out : Claims)
    → lookup "sub" (mirror scope issued out) ≡ lookup "sub" out
unfolding mirror releases
mirror-sub scope [] out = refl
mirror-sub scope ((name, value) ∷ issued) out = elim (Bool-cases (releases scope name)) [
  | inr e ↦ rw (e, mirror) (mirror-sub scope issued out)
  | inl e ↦
      rw (e, mirror)
        (mirror-sub scope issued (insert name value out)
          ∙ lookup-insert_ne name "sub" value out (ground (arith, eq_iff name "sub")))
]

mirror-withheld :
    (scope : String) (issued out : Claims) (name : String)
    → releases scope name ≡ false
    → lookup name (mirror scope issued out) ≡ lookup name out
unfolding mirror
mirror-withheld scope [] out name h = refl
mirror-withheld scope ((j, value) ∷ issued) out name h = elim (Bool-cases (releases scope j)) [
  | inr e ↦ rw (e, mirror) (mirror-withheld scope issued out name h)
  | inl e ↦
      rw (e, mirror)
        (mirror-withheld scope issued (insert j value out) name h
          ∙ lookup-insert_ne j name value out
              (λ same. absurd (ground (arith, ap (releases scope) same))))
]

mirror-absent :
    (scope : String) (issued out : Claims) (name : String)
    → contains (keys issued) name ≡ false
    → lookup name (mirror scope issued out) ≡ lookup name out
unfolding mirror contains
mirror-absent scope [] out name h = refl
mirror-absent scope ((j, value) ∷ issued) out name h = elim (Bool-cases (releases scope j)) [
  | inr e ↦ rw (e, mirror) (mirror-absent scope issued out name (ground arith))
  | inl e ↦
      rw (e, mirror)
        (mirror-absent scope issued (insert j value out) name (ground arith)
          ∙ lookup-insert_ne j name value out (ground (arith, eq_iff j name)))
]

-- A claim that stands once in an ID token and that the scope releases comes out with its value.
pub mirror-released :
    (scope : String) (issued out : Claims) (name : String) (v : Json)
    → AllDistinct (keys issued)
    → releases scope name ≡ true
    → lookup name issued ≡ some v
    → lookup name (mirror scope issued out) ≡ some v
unfolding mirror lookup
mirror-released scope [] out name v d h e = cc
mirror-released scope ((j, value) ∷ issued) out name v d h e = elim (text_cases j name) [
  | inl (same, t) ↦
      let first : value ≡ v = some_injective (rw (t, lookup) at e) in
      rw (ap (releases scope) same ∙ h, mirror)
        (mirror-absent scope issued (insert j value out) name (rw (← same) d.0)
          ∙ subst (λ k. lookup k (insert j value out) ≡ some value) same
              (lookup-insert_self j value out)
          ∙ ap some first)
  | inr (apart, t) ↦ mirror-released scope issued _ name v d.1 h (rw (t, lookup) at e)
]

abbrev profile_claims : List String
profile_claims = "picture" ∷ "name" ∷ "preferred_username" ∷ []

abbrev email_claims : List String
email_claims = "email_verified" ∷ "email" ∷ []

-- A name that the scope does not open.
abbrev IsShut : String → String → Type 0
IsShut scope name =
    (has_scope scope "profile" ≡ true → contains profile_claims name ≡ false)
    × (has_scope scope "email" ≡ true → contains email_claims name ≡ false)

-- Claims that all stand under one scope hold no name that is withheld under it.
not-contained :
    (scope name needed : String) (names : List String)
    → All (λ n. contains id_token_only_claims n ≡ false) names
    → All (λ n. lookup n claim_scopes ≡ some needed) names
    → IsWithheld scope name
    → has_scope scope needed ≡ true
    → contains names name ≡ false
not-contained scope name needed names own under w h = elim (Bool-cases (contains names name)) [
  | inr t ↦ t
  | inl t ↦ elim w [
    | inl i ↦ absurd (
        ground
          (arith, All-contains (λ n. contains id_token_only_claims n ≡ false) names name own t))
    | inr (other, e, q) ↦
        let same : other ≡ needed =
          some_injective
            (sym e ∙ All-contains (λ n. lookup n claim_scopes ≡ some needed) names name under t) in
        absurd (ground (arith, ap (has_scope scope) same))
  ]
]

IsShut-IsWithheld : (scope name : String) → IsWithheld scope name → IsShut scope name
unfolding contains lookup
IsShut-IsWithheld scope name w = (
  not-contained scope name "profile" profile_claims (refl, (refl, (refl, tt)))
      (refl, (refl, (refl, tt))) w,
  not-contained scope name "email" email_claims (refl, (refl, tt)) (refl, (refl, tt)) w,
)

IsShut-sub : (scope : String) → IsShut scope "sub"
unfolding contains
IsShut-sub scope = (λ _. refl, λ _. refl)

lookup-insert_apart :
    (k name : String) (v : Json) (m : Claims)
    → (k == name) ≡ false
    → lookup name (insert k v m) ≡ lookup name m
lookup-insert_apart k name v m h = lookup-insert_ne k name v m (ground (arith, eq_iff k name))

module _ (x : External) (cfg : Config) where
  derived_claims-shut :
      (scope username : String) (out : Claims) (name : String)
      → IsShut scope name
      → lookup name (derived_claims x cfg scope username out) ≡ lookup name out
  unfolding derived_claims contains
  derived_claims-shut scope username out name shut =
      let same : Claims → Type 0 = λ m. lookup name m ≡ lookup name out in
      let with_profile : Claims =
        if not (username == "") && has_scope scope "profile"
        then insert "picture" (str (picture_url x cfg username)) (
            insert "name" (str (capitalize x cfg username))
              (insert "preferred_username" (str username) out))
        else out in
      let profile : same with_profile =
        if_split same (not (username == "") && has_scope scope "profile")
          (λ t.
            lookup-insert_apart "picture" name _ _ (ground (arith, shut.0))
            ∙ lookup-insert_apart "name" name _ _ (ground (arith, shut.0))
            ∙ lookup-insert_apart "preferred_username" name _ _ (ground (arith, shut.0)))
          (λ t. refl) in
      if_split same (not (username == "") && has_scope scope "email")
        (λ t.
          lookup-insert_apart "email_verified" name _ _ (ground (arith, shut.1))
          ∙ lookup-insert_apart "email" name _ _ (ground (arith, shut.1))
          ∙ profile)
        (λ t. profile)

  released_claims-shut :
      (scope : String) (out : Claims) (found : Option (String × Session × ClientSession))
      (name : String)
      → IsShut scope name
      → releases scope name ≡ false
      → lookup name (released_claims x cfg scope out found) ≡ lookup name out
  unfolding released_claims
  released_claims-shut scope out none name shut h = derived_claims-shut scope "" out name shut
  released_claims-shut scope out (some (cookie_id, sess, cs)) name shut h =
      elim (Option-cases cs.id_token_claims) [
        | inl e ↦ rw (e, released_claims) (derived_claims-shut scope sess.username out name shut)
        | inr (issued, e) ↦ rw (e, released_claims) (mirror-withheld scope issued out name h)
      ]

  releases-sub : (scope : String) → releases scope "sub" ≡ false
  unfolding releases
  releases-sub scope = ground arith

  -- What an access token lets out: the subject is its own, and nothing comes out that its scope
  -- withholds.
  pub record IsReleased (claims out : Claims) : Type 0 where
    pub subject : lookup "sub" out ≡ some (str (text_claim claims "sub"))
    pub withheld :
        (name : String) → IsWithheld (text_claim claims "scope") name → lookup name out ≡ none

  user_claims_injective : {a b : Claims} → user_claims a ≡ user_claims b → a ≡ b
  user_claims_injective e = cc

  withheld-absent :
      (scope sub name : String) → IsWithheld scope name → lookup name (("sub", str sub) ∷ []) ≡ none
  unfolding lookup contains
  withheld-absent scope sub name w = elim (text_cases "sub" name) [
    | inr (n, t) ↦ rw (t, lookup)
    | inl (same, t) ↦
        absurd
          (elim w [ inl i ↦ cc (rw (← same) at i) | inr (needed, e, h) ↦ cc (rw (← same) at e) ])
  ]

  -- /userinfo answers with claims only to an access token that is accepted; they name the token's
  -- subject, whatever the session holds, and neither a claim about the ID token itself nor one whose
  -- scope the token lacks.
  pub userinfo-IsReleased :
      (req : Request) (s : Server) (out : Claims)
      → userinfo x cfg req s ≡ user_claims out
      → (claims : Claims) × (extract_access_token x cfg req ≡ some claims) × IsReleased claims out
  unfolding userinfo lookup
  userinfo-IsReleased req s out e =
      elim (Bool-cases (not (req.method == "GET") && not (req.method == "POST"))) [
        | inl t ↦ cc (rw (t, userinfo) at e)
        | inr t ↦ elim (Option-cases (extract_access_token x cfg req)) [
          | inl q ↦ cc (rw (t, q, userinfo) at e)
          | inr (claims, q) ↦
              let scope = text_claim claims "scope" in
              let sub = text_claim claims "sub" in
              let found = session_by_client_session_id (text_claim claims "csid") s.sessions in
              let same = user_claims_injective (rw (t, q, userinfo) at e) in
              (
                claims,
                q,
                subst (IsReleased claims) same (record {
                  subject =
                      released_claims-shut scope (("sub", str sub) ∷ []) found "sub"
                        (IsShut-sub scope) (releases-sub scope);
                  withheld = λ name w.
                      released_claims-shut scope (("sub", str sub) ∷ []) found name
                        (IsShut-IsWithheld scope name w) (releases-IsWithheld scope name w)
                      ∙ withheld-absent scope sub name w;
                }),
              )
        ]
      ]
