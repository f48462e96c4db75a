-- ===== src/Idp/Startup/Listed.antt =====
-- What registered clients name is listed in the discovery document.
use oidc_oauth2_idp.Prelude.{
  All, List, Option, String, arith, contains, inl, inr, some, some_injective, subst, true, ℕ, ◌≡◌,
  ◌⊎◌,
}
use oidc_oauth2_idp.Idp.External.{External}
use oidc_oauth2_idp.Idp.State.{ClientRegistration, Config, Request, Server, registered}
use oidc_oauth2_idp.Idp.Registration.Normalize.{IsNormal}
use oidc_oauth2_idp.Idp.Registration.Dynamic.{register-IsIssued}
use oidc_oauth2_idp.Idp.Metadata.Document.{validate_client_id_metadata-IsDocument}
use oidc_oauth2_idp.Idp.Startup.{Discovery, ServerSettings, openid_configuration}
use oidc_oauth2_idp.Idp.Registration.{register, supported_token_endpoint_auth_methods}
use oidc_oauth2_idp.Idp.Metadata.{client_id_metadata_auth_methods, validate_client_id_metadata}

module _ (x : External) (cfg : Config) where
  -- What a registration names is listed.
  abbrev pub IsListed : Discovery → ClientRegistration → Type 0
  IsListed d reg =
      (contains d.auth_methods_supported reg.token_endpoint_auth_method ≡ true)
      × All (λ v. contains d.grant_types_supported v ≡ true) reg.grant_types
      × All (λ v. contains d.response_types_supported v ≡ true) reg.response_types

  openid_configuration-auth_methods :
      (settings : ServerSettings) (d : Discovery) (method : String)
      → openid_configuration settings "GET" ≡ some d
      → (contains supported_token_endpoint_auth_methods method ≡ true)
        ⊎ (contains client_id_metadata_auth_methods method ≡ true)
      → contains d.auth_methods_supported method ≡ true
  unfolding openid_configuration contains
  openid_configuration-auth_methods settings d method given allowed =
      subst (λ (d : Discovery). contains d.auth_methods_supported method ≡ true)
        (some_injective given) (ground arith)

  IsNormal-IsListed :
      (settings : ServerSettings) (d : Discovery) (allowed : List String) (reg : ClientRegistration)
      → openid_configuration settings "GET" ≡ some d
      → contains d.auth_methods_supported reg.token_endpoint_auth_method ≡ true
      → IsNormal x allowed reg
      → IsListed d reg
  unfolding openid_configuration
  IsNormal-IsListed settings d allowed reg given listed n = (
    listed,
    subst (λ (d : Discovery). All (λ v. contains d.grant_types_supported v ≡ true) reg.grant_types)
        (some_injective given) n.acceptable.grants,
    subst
        (λ (d : Discovery).
          All (λ v. contains d.response_types_supported v ≡ true) reg.response_types)
        (some_injective given) n.acceptable.responses,
  )

  -- A client that /register registers, and one whose metadata document is valid, authenticates at the token
  -- endpoint by a method that the discovery document lists, and has only grant types and response types that
  -- it lists.
  pub openid_configuration-IsListed :
      (settings : ServerSettings) (d : Discovery) (reg : ClientRegistration) (req : Request)
      (body : Option ClientRegistration) (new_id : String) (new_secret : Option String) (now : ℕ)
      (s : Server) (url document : String)
      → openid_configuration settings "GET" ≡ some d
      → ((register x req body new_id new_secret now s).1 ≡ registered reg)
        ⊎ (validate_client_id_metadata x cfg url document now ≡ some reg)
      → IsListed d reg
  openid_configuration-IsListed settings d reg req body new_id new_secret now s url document given
        (inl e) =
      let n = (register-IsIssued x req body new_id new_secret now s reg e).0.normal in
      IsNormal-IsListed settings d supported_token_endpoint_auth_methods reg given
        (openid_configuration-auth_methods settings d reg.token_endpoint_auth_method given
          (inl n.acceptable.auth_method))
        n
  openid_configuration-IsListed settings d reg req body new_id new_secret now s url document given
        (inr e) =
      let n = (validate_client_id_metadata-IsDocument x cfg url document now reg e).normal in
      IsNormal-IsListed settings d client_id_metadata_auth_methods reg given
        (openid_configuration-auth_methods settings d reg.token_endpoint_auth_method given
          (inr n.acceptable.auth_method))
        n
