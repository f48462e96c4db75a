-- ===== src/Idp/ClientAuth/Enforced.antt =====
-- What a client has proved that passes authentication.
use oidc_oauth2_idp.Prelude.{
  Bool, Option, String, ap, arith, eq_iff, false, inl, inr, none, refl, some, sym, text_cases, true,
  ℕ, ◌==◌, ◌∙◌, ◌≡◌, ◌≢◌, ◌⊎◌,
}
use oidc_oauth2_idp.Prelude.Dict.{lookup}
use oidc_oauth2_idp.Idp.State.{
  ClientRegistration, Config, Server, registration_method_client_id_metadata_document,
  registration_method_dynamic,
}
use oidc_oauth2_idp.Idp.External.{External, Network}
use oidc_oauth2_idp.Idp.ClientAuth.{
  ClientCredentials, authenticate_client, authenticate_known, authenticate_refreshed,
  authenticate_registered,
}
use oidc_oauth2_idp.Idp.Assertion.{verify_private_key_jwt}
use oidc_oauth2_idp.Idp.Metadata.{resolve_client_id_metadata}

module _ (x : External) (cfg : Config) (net : Network) where
  -- A client has proved itself under a registration: it is public, or it used the registered method
  -- and either its assertion was verified or it presented its own identifier and secret.
  abbrev pub Proved : String → ClientRegistration → ClientCredentials → ℕ → Server → Type 0
  Proved client_id reg creds now s =
      (reg.token_endpoint_auth_method ≡ "")
      ⊎ (reg.token_endpoint_auth_method ≡ "none")
      ⊎ ((creds.method ≡ "private_key_jwt")
          × (reg.token_endpoint_auth_method ≡ "private_key_jwt")
          × ((creds.client_id ≡ "") ⊎ (creds.client_id ≡ client_id))
          × ((verify_private_key_jwt x cfg net client_id reg creds.assertion now s).1 ≡ true))
      ⊎ ((creds.method ≡ reg.token_endpoint_auth_method)
          × (creds.client_id ≡ client_id)
          × (creds.secret ≡ reg.client_secret)
          × (reg.client_secret ≢ ""))

  authenticate_registered-Proved :
      (client_id : String) (reg : ClientRegistration) (creds : ClientCredentials) (now : ℕ)
      (s : Server)
      → (authenticate_registered x cfg net client_id reg creds now s).1 ≡ true
      → Proved client_id reg creds now s
  unfolding authenticate_registered
  authenticate_registered-Proved client_id reg creds now s e = ground (
    arith,
    eq_iff reg.token_endpoint_auth_method "",
    eq_iff reg.token_endpoint_auth_method "none",
    eq_iff creds.method reg.token_endpoint_auth_method,
    eq_iff reg.token_endpoint_auth_method "private_key_jwt",
    eq_iff creds.client_id "",
    eq_iff creds.client_id client_id,
    eq_iff reg.client_secret "",
    eq_iff creds.secret reg.client_secret,
  )

  authenticate_client-known :
      (client_id : String) (reg : ClientRegistration) (creds : ClientCredentials) (now : ℕ)
      (s : Server)
      → lookup client_id s.clients ≡ some reg
      → authenticate_client x cfg net client_id creds now s
        ≡ authenticate_known x cfg net client_id reg creds now s
  unfolding authenticate_client
  authenticate_client-known client_id reg creds now s known = rw (known, authenticate_client)

  authenticate_known-dynamic :
      (client_id : String) (reg : ClientRegistration) (creds : ClientCredentials) (now : ℕ)
      (s : Server)
      → reg.registration_method ≡ registration_method_dynamic
      → authenticate_known x cfg net client_id reg creds now s
        ≡ authenticate_registered x cfg net client_id reg creds now s
  unfolding authenticate_known
  authenticate_known-dynamic client_id reg creds now s dynamic =
      rw (
        ((eq_iff reg.registration_method registration_method_dynamic).1 dynamic),
        authenticate_known,
      )

  authenticate_known-document :
      (client_id : String) (reg : ClientRegistration) (creds : ClientCredentials) (now : ℕ)
      (s : Server)
      → reg.registration_method ≡ registration_method_client_id_metadata_document
      → authenticate_known x cfg net client_id reg creds now s
        ≡ authenticate_refreshed x cfg net client_id reg creds now
            (resolve_client_id_metadata x cfg net client_id now s)
  unfolding authenticate_known
  authenticate_known-document client_id reg creds now s document =
      let doc : (reg.registration_method == registration_method_client_id_metadata_document)
          ≡ true =
        (eq_iff _ _).1 document in
      let dyn : (reg.registration_method == registration_method_dynamic) ≡ false =
        rw document refl in
      rw (dyn, doc, authenticate_known)

  authenticate_refreshed-Proved :
      (client_id : String) (reg : ClientRegistration) (creds : ClientCredentials) (now : ℕ)
      (r : Server × Option ClientRegistration)
      → (authenticate_refreshed x cfg net client_id reg creds now r).1 ≡ true
      → ((refreshed : ClientRegistration) × (r.1 ≡ some refreshed)
          × Proved client_id refreshed creds now r.0)
        ⊎ ((r.1 ≡ none)
            × (reg.token_endpoint_auth_method ≢ "private_key_jwt")
            × Proved client_id reg creds now r.0)
  unfolding authenticate_refreshed
  authenticate_refreshed-Proved client_id reg creds now (s, some refreshed) e =
      inl (refreshed, refl, authenticate_registered-Proved client_id refreshed creds now s e)
  authenticate_refreshed-Proved client_id reg creds now (s, none) e =
      elim (text_cases reg.token_endpoint_auth_method "private_key_jwt") [
        | inl (_, keyed) ↦ cc (rw (keyed, authenticate_refreshed) at e)
        | inr (apart, keyed) ↦ inr (
          refl,
          apart,
          authenticate_registered-Proved client_id reg creds now s
              (rw (keyed, authenticate_refreshed) at e),
        )
      ]

  -- A dynamically registered client passes only if it has proved itself under its registration.
  pub authenticate_client-Proved :
      (client_id : String) (reg : ClientRegistration) (creds : ClientCredentials) (now : ℕ)
      (s : Server)
      → lookup client_id s.clients ≡ some reg
      → reg.registration_method ≡ registration_method_dynamic
      → (authenticate_client x cfg net client_id creds now s).1 ≡ true
      → Proved client_id reg creds now s
  authenticate_client-Proved client_id reg creds now s known dynamic e =
      authenticate_registered-Proved client_id reg creds now s (
        ap (λ (r : Server × Bool). r.1)
          (sym (
            authenticate_client-known client_id reg creds now s known
            ∙ authenticate_known-dynamic client_id reg creds now s dynamic))
        ∙ e)

  -- A client that is known by its metadata document passes only if it has proved itself under the
  -- document as it is resolved now; or, where the document cannot be resolved, under the stored
  -- registration, and only if that does not name private_key_jwt.
  pub authenticate_client-document :
      (client_id : String) (reg : ClientRegistration) (creds : ClientCredentials) (now : ℕ)
      (s : Server)
      → lookup client_id s.clients ≡ some reg
      → reg.registration_method ≡ registration_method_client_id_metadata_document
      → (authenticate_client x cfg net client_id creds now s).1 ≡ true
      → let r = resolve_client_id_metadata x cfg net client_id now s in
        ((refreshed : ClientRegistration) × (r.1 ≡ some refreshed)
          × Proved client_id refreshed creds now r.0)
        ⊎ ((r.1 ≡ none)
            × (reg.token_endpoint_auth_method ≢ "private_key_jwt")
            × Proved client_id reg creds now r.0)
  authenticate_client-document client_id reg creds now s known document e =
      authenticate_refreshed-Proved client_id reg creds now
        (resolve_client_id_metadata x cfg net client_id now s)
        (ap (λ (r : Server × Bool). r.1)
            (sym (
              authenticate_client-known client_id reg creds now s known
              ∙ authenticate_known-document client_id reg creds now s document))
          ∙ e)
