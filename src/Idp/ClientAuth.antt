-- ===== src/Idp/ClientAuth.antt =====
-- Client authentication at the token endpoint: `parseClientCredentials` and `authenticateClient` of
-- idp-auth-server/main.go.
pub mod Enforced
use oidc_oauth2_idp.Prelude.{
  Bool, Option, String, false, if◌then◌else◌, none, not, some, true, ℕ, ◌&&◌, ◌==◌, ◌||◌,
}
use oidc_oauth2_idp.Prelude.Dict.{lookup}
use oidc_oauth2_idp.Idp.State.{
  ClientRegistration, Config, Request, Server, form_get,
  registration_method_client_id_metadata_document, registration_method_dynamic,
}
use oidc_oauth2_idp.Idp.External.{External, Network}
use oidc_oauth2_idp.Idp.Metadata.{resolve_client_id_metadata}
use oidc_oauth2_idp.Idp.Assertion.{verify_private_key_jwt}

abbrev pub private_key_jwt_assertion_type : String
private_key_jwt_assertion_type = "urn:ietf:params:oauth:client-assertion-type:jwt-bearer"

pub record ClientCredentials : Type 0 where
  pub client_id : String
  pub secret : String
  pub method : String
  pub assertion : String

unfoldable pub parse_client_credentials : Request → ClientCredentials
parse_client_credentials req =
    if form_get req "client_assertion_type" == private_key_jwt_assertion_type
    then record {
      client_id = form_get req "client_id";
      secret = "";
      method = "private_key_jwt";
      assertion = form_get req "client_assertion";
    }
    else elim req.basic_auth [
      | some (client_id, secret) ↦ record {
        client_id = client_id;
        secret = secret;
        method = "client_secret_basic";
        assertion = "";
      }
      | none ↦
          if not (form_get req "client_secret" == "")
          then record {
            client_id = form_get req "client_id";
            secret = form_get req "client_secret";
            method = "client_secret_post";
            assertion = "";
          }
          else record {
            client_id = form_get req "client_id";
            secret = "";
            method = "none";
            assertion = "";
          }
    ]

module _ (x : External) (cfg : Config) (net : Network) where
  -- The comparison of shared secrets.
  unfoldable pub check_secret : String → ClientRegistration → ClientCredentials → Bool
  check_secret client_id reg creds =
      creds.client_id == client_id
      && not (reg.client_secret == "")
      && creds.secret == reg.client_secret

  -- What follows once the registration that counts is known.
  unfoldable pub authenticate_registered :
      String → ClientRegistration → ClientCredentials → ℕ → Server → Server × Bool
  unfolding check_secret
  authenticate_registered client_id reg creds now s =
      if reg.token_endpoint_auth_method == "" || reg.token_endpoint_auth_method == "none"
      then (s, true)
      else if not (creds.method == reg.token_endpoint_auth_method)
      then (s, false)
      else if reg.token_endpoint_auth_method == "private_key_jwt"
      then (if not (creds.client_id == "") && not (creds.client_id == client_id)
          then (s, false)
          else verify_private_key_jwt x cfg net client_id reg creds.assertion now s)
      else (s, check_secret client_id reg creds)

  -- The document of a client that has one is resolved anew; where it cannot be read, a client that
  -- authenticates by keys is refused.
  unfoldable pub authenticate_refreshed :
      String
      → ClientRegistration
      → ClientCredentials
      → ℕ
      → Server × Option ClientRegistration
      → Server × Bool
  authenticate_refreshed client_id reg creds now (s, some refreshed) =
      authenticate_registered client_id refreshed creds now s
  authenticate_refreshed client_id reg creds now (s, none) =
      if reg.token_endpoint_auth_method == "private_key_jwt"
      then (s, false)
      else authenticate_registered client_id reg creds now s

  unfoldable pub authenticate_known :
      String → ClientRegistration → ClientCredentials → ℕ → Server → Server × Bool
  authenticate_known client_id reg creds now s =
      if reg.registration_method == registration_method_dynamic
      then authenticate_registered client_id reg creds now s
      else if reg.registration_method == registration_method_client_id_metadata_document
      then authenticate_refreshed client_id reg creds now
          (resolve_client_id_metadata x cfg net client_id now s)
      else (s, true)

  -- `authenticateClient`, with the state that it leaves.
  unfoldable pub authenticate_client : String → ClientCredentials → ℕ → Server → Server × Bool
  authenticate_client client_id creds now s = elim (lookup client_id s.clients) [
    | none ↦ (s, true)
    | some reg ↦ authenticate_known client_id reg creds now s
  ]
