-- ===== src/Idp/Registration.antt =====
-- The client registry of idp-auth-server/main.go: validation of client metadata, dynamic
-- registration at /register and automatic registration at /authorize.
pub mod Automatic
pub mod Normalize
pub mod Dynamic
use oidc_oauth2_idp.Prelude.{
  List, Option, String, [], contains, if◌then◌else◌, is_nil, none, not, some, ℕ, ◌&&◌, ◌++◌, ◌/◌,
  ◌==◌, ◌||◌, ◌∷◌,
}
use oidc_oauth2_idp.Prelude.Dict.{Dict, insert, lookup}
use oidc_oauth2_idp.Prelude.Text.{contains_char, fields, join_spaces, ◌⧺◌}
use oidc_oauth2_idp.Idp.State.{
  ClientRegistration, Request, Response, Server, empty_registration, not_found, registered,
  registration_error, registration_method_automatic, registration_method_dynamic, second,
}
use oidc_oauth2_idp.Idp.External.{External}
use oidc_oauth2_idp.Idp.Scope.{dedupe_strings, has_scope}

abbrev pub supported_grant_types : List String
supported_grant_types = "authorization_code" ∷ "refresh_token" ∷ []

abbrev pub supported_response_types : List String
supported_response_types = "code" ∷ []

abbrev pub supported_token_endpoint_auth_methods : List String
supported_token_endpoint_auth_methods = "client_secret_basic" ∷ "client_secret_post" ∷ "none" ∷ []

abbrev pub supported_code_challenge_methods : List String
supported_code_challenge_methods = "S256" ∷ "plain" ∷ []

-- A `registrationError`.
pub data Normalized : Type 0 where
  rejected : (code description : String) → Normalized
  normalized : ClientRegistration → Normalized

-- The defaults of RFC 7591.
unfoldable pub with_defaults : ClientRegistration → String → ClientRegistration
with_defaults reg default_auth_method = record reg {
  grant_types = if is_nil reg.grant_types then "authorization_code" ∷ [] else reg.grant_types;
  response_types = if is_nil reg.response_types then "code" ∷ [] else reg.response_types;
  token_endpoint_auth_method =
      if reg.token_endpoint_auth_method == ""
      then default_auth_method
      else reg.token_endpoint_auth_method;
}

module _ (x : External) where
  open x use {parse_url, quote}

  -- A loop that rejects the first element not in a list of supported ones, described by `what`.
  unfoldable pub unsupported : List String → String → List String → Option String
  unfolding contains
  unsupported supported what [] = none
  unsupported supported what (v ∷ vs) =
      if contains supported v
      then unsupported supported what vs
      else some ("unsupported " ⧺ what ⧺ " " ⧺ quote v)

  -- The error of a redirect URI that is not absolute or has a fragment. A URL is absolute
  -- (`IsAbs`) if its scheme is not empty.
  unfoldable pub validate_redirect_uri : String → Option String
  validate_redirect_uri uri = elim (parse_url uri) [
    | none ↦ some ("redirect_uri " ⧺ quote uri ⧺ " is not a valid URI")
    | some u ↦
        if u.scheme == ""
        then some ("redirect_uri " ⧺ quote uri ⧺ " must be an absolute URI")
        else if not (u.fragment == "") || contains_char uri b'#'
        then some ("redirect_uri " ⧺ quote uri ⧺ " must not contain a fragment")
        else none
  ]

  -- The loop over the redirect URIs.
  unfoldable pub invalid_redirect_uri : List String → Option String
  unfolding validate_redirect_uri
  invalid_redirect_uri [] = none
  invalid_redirect_uri (uri ∷ uris) = elim (validate_redirect_uri uri) [
    | some e ↦ some e
    | none ↦ invalid_redirect_uri uris
  ]

  -- The checks, on metadata that has its defaults.
  unfoldable pub check_registration : ClientRegistration → List String → Option (String × String)
  check_registration reg allowed_auth_methods =
      elim (unsupported supported_grant_types "grant_type" reg.grant_types) [
        | some e ↦ some ("invalid_client_metadata", e)
        | none ↦ elim (unsupported supported_response_types "response_type" reg.response_types) [
          | some e ↦ some ("invalid_client_metadata", e)
          | none ↦
              if not (contains allowed_auth_methods reg.token_endpoint_auth_method)
              then some (
                "invalid_client_metadata",
                "unsupported token_endpoint_auth_method " ⧺ quote reg.token_endpoint_auth_method,
              )
              else if contains reg.grant_types "authorization_code" && is_nil reg.redirect_uris
              then some (
                "invalid_redirect_uri",
                "redirect_uris is required for the authorization_code grant",
              )
              else elim (invalid_redirect_uri reg.redirect_uris) [
                | some e ↦ some ("invalid_redirect_uri", e)
                | none ↦ none
              ]
        ]
      ]

  -- What the metadata becomes once it passed.
  unfoldable pub dedupe_registration : ClientRegistration → ClientRegistration
  dedupe_registration reg = record reg {
    redirect_uris = dedupe_strings reg.redirect_uris;
    scope = join_spaces (dedupe_strings (fields reg.scope));
    grant_types = dedupe_strings reg.grant_types;
    response_types = dedupe_strings reg.response_types;
  }

  unfoldable pub normalize_registration : ClientRegistration → List String → String → Normalized
  normalize_registration reg allowed_auth_methods default_auth_method =
      let full = with_defaults reg default_auth_method in
      elim (check_registration full allowed_auth_methods) [
        | some (code, description) ↦ rejected code description
        | none ↦ normalized (dedupe_registration full)
      ]

  -- POST /register. `body` is the decoded request body, `new_id` the identifier and `new_secret`
  -- the secret that are drawn, `none` when drawing one fails.
  unfoldable pub issue_registration :
      ClientRegistration → String → Option String → ℕ → Server → Server × Response
  issue_registration reg new_id new_secret now s =
      let named = record reg {
        client_id = new_id;
        client_id_issued_at = now / second;
        registration_method = registration_method_dynamic;
      } in
      if named.token_endpoint_auth_method == "none"
      then (record s { clients = insert new_id named s.clients }, registered named)
      else elim new_secret [
        | none ↦ (s, registration_error "invalid_client_metadata" "could not issue a client secret")
        | some secret ↦
            let confidential = record named {
              client_secret = secret;
              client_secret_expires_at = some 0;
            } in
            (record s { clients = insert new_id confidential s.clients }, registered confidential)
      ]

  unfoldable pub finish_registration :
      Normalized → String → Option String → ℕ → Server → Server × Response
  unfolding issue_registration
  finish_registration (rejected code description) new_id new_secret now s =
      (s, registration_error code description)
  finish_registration (normalized full) new_id new_secret now s =
      issue_registration full new_id new_secret now s

  unfoldable pub register :
      Request → Option ClientRegistration → String → Option String → ℕ → Server → Server × Response
  unfolding finish_registration
  register req body new_id new_secret now s =
      if not (req.method == "POST") then (s, not_found) else elim body [
        | none ↦ (
          s,
          registration_error "invalid_client_metadata"
              "request body must be a JSON object of client metadata",
        )
        | some reg ↦
            finish_registration
              (normalize_registration reg supported_token_endpoint_auth_methods
                "client_secret_basic")
              new_id new_secret now s
      ]

-- The registration of a client that is seen for the first time.
abbrev pub automatic_registration : String → ℕ → ClientRegistration
automatic_registration client_id now = record empty_registration {
  client_id = client_id;
  client_id_issued_at = now / second;
  response_types = "code" ∷ [];
  grant_types = "authorization_code" ∷ [];
  token_endpoint_auth_method = "none";
  registration_method = registration_method_automatic;
}

-- What a request adds to an automatic registration.
unfoldable pub observe : ClientRegistration → String → String → ClientRegistration
observe reg redirect_uri scope = record reg {
  redirect_uris =
      if redirect_uri == ""
      then reg.redirect_uris
      else dedupe_strings (reg.redirect_uris ++ redirect_uri ∷ []);
  scope =
      if scope == ""
      then reg.scope
      else join_spaces (dedupe_strings (fields reg.scope ++ fields scope));
  grant_types =
      if has_scope scope "offline_access"
      then dedupe_strings (reg.grant_types ++ "refresh_token" ∷ [])
      else reg.grant_types;
}

-- `registerClientLocked`, on the map of clients.
unfoldable pub registered_clients :
    String → String → String → ℕ → Dict ClientRegistration → Dict ClientRegistration
registered_clients client_id redirect_uri scope now clients =
    if client_id == "" then clients else elim (lookup client_id clients) [
      | some reg ↦
          if not (reg.registration_method == registration_method_automatic)
          then clients
          else insert client_id (observe reg redirect_uri scope) clients
      | none ↦
          insert client_id (observe (automatic_registration client_id now) redirect_uri scope)
            clients
    ]

unfoldable pub register_client : String → String → String → ℕ → Server → Server
unfolding registered_clients
register_client client_id redirect_uri scope now s = record s {
  clients = registered_clients client_id redirect_uri scope now s.clients;
}
