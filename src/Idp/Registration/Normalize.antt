-- ===== src/Idp/Registration/Normalize.antt =====
-- What a registration that passes validation looks like.
use oidc_oauth2_idp.Prelude.Text.{fields, join_spaces}
use oidc_oauth2_idp.Prelude.Text.Words.{IsWord, fields-IsWord, fields-join_spaces}
use oidc_oauth2_idp.Idp.Scope.{dedupe_strings}
use oidc_oauth2_idp.Idp.Scope.Dedupe.{
  All-dedupe_strings, contains-dedupe_strings, dedupe_strings-AllDistinct,
  dedupe_strings_of_AllDistinct,
}
use oidc_oauth2_idp.Prelude.{
  All, AllDistinct, List, Option-cases, String, [], ap, arith, contains, eq_iff, false, inl, inr,
  none, refl, subst, true, ◌↔◌, ◌∙◌, ◌∷◌, ◌≡◌, ◌≢◌, ◌⊎◌,
}
use oidc_oauth2_idp.Idp.State.{ClientRegistration}
use oidc_oauth2_idp.Idp.External.{External}
use oidc_oauth2_idp.Idp.Registration.{
  check_registration, dedupe_registration, invalid_redirect_uri, normalize_registration, normalized,
  supported_grant_types, supported_response_types, unsupported, validate_redirect_uri,
  with_defaults,
}

abbrev pub Supported : List String → List String → Type 0
Supported supported vs = All (λ v. contains supported v ≡ true) vs

module _ (x : External) where
  unsupported_iff :
      (supported : List String) (what : String) (vs : List String)
      → (unsupported x supported what vs ≡ none) ↔ Supported supported vs
  unfolding unsupported
  unsupported_iff supported what [] = (λ _. tt, λ _. refl)
  unsupported_iff supported what (v ∷ vs) = ground (arith, unsupported_iff supported what vs)

  abbrev pub ValidUris : List String → Type 0
  ValidUris uris = All (λ u. validate_redirect_uri x u ≡ none) uris

  invalid_redirect_uri_iff :
      (uris : List String) → (invalid_redirect_uri x uris ≡ none) ↔ ValidUris uris
  unfolding invalid_redirect_uri validate_redirect_uri
  invalid_redirect_uri_iff [] = (λ _. tt, λ _. refl)
  invalid_redirect_uri_iff (u ∷ us) = ground (arith, invalid_redirect_uri_iff us)

  -- What the checks accept.
  pub record IsAcceptable (allowed : List String) (reg : ClientRegistration) : Type 0 where
    pub grants : Supported supported_grant_types reg.grant_types
    pub responses : Supported supported_response_types reg.response_types
    pub auth_method : contains allowed reg.token_endpoint_auth_method ≡ true
    pub redirectable :
        (contains reg.grant_types "authorization_code" ≡ false) ⊎ (reg.redirect_uris ≢ [])
    pub uris : ValidUris reg.redirect_uris

  check_registration_iff :
      (reg : ClientRegistration) (allowed : List String)
      → (check_registration x reg allowed ≡ none) ↔ IsAcceptable allowed reg
  unfolding check_registration
  check_registration_iff reg allowed = ground (
    arith,
    unsupported_iff supported_grant_types "grant_type" reg.grant_types,
    unsupported_iff supported_response_types "response_type" reg.response_types,
    invalid_redirect_uri_iff reg.redirect_uris,
  )

  -- What the checked metadata looks like once it is normalised.
  pub record IsNormal (allowed : List String) (reg : ClientRegistration) : Type 0 where
    pub acceptable : IsAcceptable allowed reg
    pub named_method : reg.token_endpoint_auth_method ≢ ""
    pub some_grant : reg.grant_types ≢ []
    pub some_response : reg.response_types ≢ []
    pub distinct_uris : AllDistinct reg.redirect_uris
    pub distinct_grants : AllDistinct reg.grant_types
    pub distinct_responses : AllDistinct reg.response_types
    pub tidy_scope : join_spaces (dedupe_strings (fields reg.scope)) ≡ reg.scope

  tidy_twice :
      (s : String)
      → join_spaces (dedupe_strings (fields (join_spaces (dedupe_strings (fields s)))))
        ≡ join_spaces (dedupe_strings (fields s))
  tidy_twice s =
      ap (λ ws. join_spaces (dedupe_strings ws))
        (fields-join_spaces _ (All-dedupe_strings IsWord _ (fields-IsWord s)))
      ∙ ap join_spaces (dedupe_strings_of_AllDistinct _ (dedupe_strings-AllDistinct (fields s)))

  dedupe_strings-ne-nil : (ss : List String) → ss ≢ [] → dedupe_strings ss ≢ []
  unfolding dedupe_strings
  dedupe_strings-ne-nil [] h = h
  dedupe_strings-ne-nil (s ∷ ss) h = cc

  dedupe_registration-IsAcceptable :
      (allowed : List String) (reg : ClientRegistration)
      → IsAcceptable allowed reg
      → IsAcceptable allowed (dedupe_registration x reg)
  unfolding dedupe_registration
  dedupe_registration-IsAcceptable allowed reg a = record {
    grants = All-dedupe_strings _ reg.grant_types a.grants;
    responses = All-dedupe_strings _ reg.response_types a.responses;
    auth_method = a.auth_method;
    redirectable = elim a.redirectable [
      | inl e ↦ inl (contains-dedupe_strings reg.grant_types "authorization_code" ∙ e)
      | inr h ↦ inr (dedupe_strings-ne-nil reg.redirect_uris h)
    ];
    uris = All-dedupe_strings _ reg.redirect_uris a.uris;
  }

  with_defaults_lem :
      (reg : ClientRegistration) (default_method : String)
      → default_method ≢ ""
      → let full = with_defaults reg default_method in
        (full.token_endpoint_auth_method ≢ "")
        × (full.grant_types ≢ [])
        × (full.response_types ≢ [])
  unfolding with_defaults
  with_defaults_lem reg default_method h = ground (arith, eq_iff reg.token_endpoint_auth_method "")

  -- Metadata that passes comes out normal: supported grant and response types and an allowed
  -- authentication method, at least one grant and response type, valid redirect URIs, at least one of
  -- them under the authorization_code grant, and neither repetitions nor stray spaces.
  pub normalize_registration-IsNormal :
      (reg full : ClientRegistration) (allowed : List String) (default_method : String)
      → default_method ≢ ""
      → normalize_registration x reg allowed default_method ≡ normalized full
      → IsNormal allowed full
  unfolding normalize_registration dedupe_registration
  normalize_registration-IsNormal reg full allowed default_method h e =
      elim (Option-cases (check_registration x (with_defaults reg default_method) allowed)) [
        | inr ((code, description), failed) ↦ absurd (ground arith)
        | inl passed ↦
            let base = with_defaults reg default_method in
            let same : dedupe_registration x base ≡ full = ground arith in
            let (named, grant, response) = with_defaults_lem reg default_method h in
            subst (IsNormal allowed) same (record {
              acceptable =
                  dedupe_registration-IsAcceptable allowed base
                    ((check_registration_iff base allowed).0 passed);
              named_method = named;
              some_grant = dedupe_strings-ne-nil base.grant_types grant;
              some_response = dedupe_strings-ne-nil base.response_types response;
              distinct_uris = dedupe_strings-AllDistinct base.redirect_uris;
              distinct_grants = dedupe_strings-AllDistinct base.grant_types;
              distinct_responses = dedupe_strings-AllDistinct base.response_types;
              tidy_scope = tidy_twice base.scope;
            })
      ]

  with_defaults_of_IsNormal :
      (allowed : List String) (full : ClientRegistration) (default_method : String)
      → IsNormal allowed full
      → with_defaults full default_method ≡ full
  unfolding with_defaults
  with_defaults_of_IsNormal allowed full default_method n = ground (
    arith,
    eq_iff full.token_endpoint_auth_method "",
    n.named_method,
    n.some_grant,
    n.some_response,
  )

  dedupe_registration_of_IsNormal :
      (allowed : List String) (full : ClientRegistration)
      → IsNormal allowed full
      → dedupe_registration x full ≡ full
  unfolding dedupe_registration
  dedupe_registration_of_IsNormal allowed full n = ground (
    arith,
    dedupe_strings_of_AllDistinct full.redirect_uris n.distinct_uris,
    dedupe_strings_of_AllDistinct full.grant_types n.distinct_grants,
    dedupe_strings_of_AllDistinct full.response_types n.distinct_responses,
    n.tidy_scope,
  )

  normalize_registration_of_IsNormal :
      (full : ClientRegistration) (allowed : List String) (default_method : String)
      → IsNormal allowed full
      → normalize_registration x full allowed default_method ≡ normalized full
  unfolding normalize_registration
  normalize_registration_of_IsNormal full allowed default_method n = ground (
    arith,
    with_defaults_of_IsNormal allowed full default_method n,
    (check_registration_iff full allowed).1 n.acceptable,
    dedupe_registration_of_IsNormal allowed full n,
  )

  -- Normalised metadata is normalised to itself, whatever the default of the second time.
  pub normalize_registration_twice :
      (reg full : ClientRegistration) (allowed : List String)
      (default_method later_default : String)
      → default_method ≢ ""
      → normalize_registration x reg allowed default_method ≡ normalized full
      → normalize_registration x full allowed later_default ≡ normalized full
  normalize_registration_twice reg full allowed default_method later_default h e =
      normalize_registration_of_IsNormal full allowed later_default
        (normalize_registration-IsNormal reg full allowed default_method h e)
