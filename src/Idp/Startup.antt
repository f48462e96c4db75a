-- ===== src/Idp/Startup.antt =====
-- How the identity provider starts and what it says of itself: `newServer`, `newMux`, `withCORS` and
-- `openidConfiguration` of idp-auth-server/main.go. The lifetimes and timeouts that `newServer` reads, the
-- key that it draws and the templates are left out; hex is a parameter, whose bytes are characters.
pub mod Honoured
pub mod Listed
use oidc_oauth2_idp.Prelude.{
  Bool, List, Option, String, [], false, if◌then◌else◌, inl, inr, len, ltb, none, not, parse_bool,
  some, ℕ, ◌++◌, ◌==◌, ◌∷◌, ◌⊎◌,
}
use oidc_oauth2_idp.Prelude.Text.{split, trim_space, ◌⧺◌}
use oidc_oauth2_idp.Idp.Registration.{
  supported_code_challenge_methods, supported_token_endpoint_auth_methods,
}
use oidc_oauth2_idp.Idp.Claims.{digit}
use oidc_oauth2_idp.Idp.Metadata.Address.{AddressParsers, external_url_is_loopback}

-- `os.Getenv`: the empty text for a variable that is not set.
abbrev pub Getenv : Type 0
Getenv = String → String

unfoldable pub getenv_default : Getenv → String → String → String
getenv_default getenv name default =
    if trim_space (getenv name) == "" then default else trim_space (getenv name)

unfoldable pub getenv_default_bool : Getenv → String → Bool → Bool
getenv_default_bool getenv name default =
    if trim_space (getenv name) == ""
    then default
    else elim (parse_bool (trim_space (getenv name))) [ none ↦ default | some b ↦ b ]

-- The loop of `getenvCSV`.
unfoldable pub csv_items : List String → List String
csv_items [] = []
csv_items (part ∷ parts) =
    let rest = csv_items parts in if trim_space part == "" then rest else trim_space part ∷ rest

unfoldable pub getenv_csv : Getenv → String → List String
getenv_csv getenv name =
    if trim_space (getenv name) == "" then [] else csv_items (split b',' (trim_space (getenv name)))

-- The settings of a `server`, as far as they are texts and flags.
pub record ServerSettings : Type 0 where
  pub app_port : String
  pub base_url : String
  pub protect_picture_url : Bool
  pub audiences : List String
  pub mail_domain : String
  pub allow_loopback_metadata_fetch : Bool
  pub kind_of_subject : String
  pub salt : String

pub data SaltError : Type 0 where
  salt_required : SaltError
  salt_not_hex : SaltError
  salt_too_short : SaltError
  invalid_subject_type : String → SaltError

pub data NewServer : Type 0 where
  new_server : ServerSettings → NewServer
  no_server : SaltError → NewServer

-- The salt of the configured subject type; `inr` is an error.
abbrev pub checked_salt : Option String → String ⊎ SaltError
checked_salt none = inr salt_not_hex
checked_salt (some bytes) = if ltb (len bytes) 16 then inr salt_too_short else inl bytes

unfoldable pub read_salt : (String → Option String) → Getenv → String → String ⊎ SaltError
read_salt decode_hex getenv subject_type =
    let salt_hex = getenv_default getenv "PAIRWISE_SALT" "" in
    let salt = checked_salt (decode_hex salt_hex) in
    if subject_type == "pairwise"
    then (if salt_hex == "" then inr salt_required else salt)
    else if not (subject_type == "public")
    then inr (invalid_subject_type subject_type)
    else inl ""

abbrev pub default_external_url : String
default_external_url = "http://127.0.0.1:5001"

-- `newServer`.
unfoldable pub read_server : AddressParsers → (String → Option String) → Getenv → NewServer
read_server parsers decode_hex getenv =
    let external_url = getenv_default getenv "IDP_EXTERNAL_URL" default_external_url in
    let subject_type = getenv_default getenv "SUBJECT_TYPE" "public" in
    elim (read_salt decode_hex getenv subject_type) [
      | inr error ↦ no_server error
      | inl bytes ↦ new_server (record {
        app_port = getenv_default getenv "PORT" "5001";
        base_url = external_url;
        protect_picture_url = getenv_default_bool getenv "PROTECT_PICTURE_URL" false;
        audiences = getenv_csv getenv "EXTRA_AUDIENCES";
        mail_domain = getenv_default getenv "EMAIL_DOMAIN" "example.com";
        allow_loopback_metadata_fetch = external_url_is_loopback parsers external_url;
        kind_of_subject = subject_type;
        salt = bytes;
      })
    ]

abbrev avatar_patterns : List ℕ → List String
avatar_patterns [] = []
avatar_patterns (i ∷ is) =
    ("/avatars/" ⧺ digit i ⧺ ".svg")
    ∷ ("/internal/avatars/" ⧺ digit i ⧺ ".svg")
    ∷ avatar_patterns is

-- The patterns that `newMux` registers, in order.
unfoldable pub mux_patterns : List String
mux_patterns =
    "/"
    ∷ "/clients"
    ∷ "/register"
    ∷ "/style.css"
    ∷ "/logout"
    ∷ "/authorize"
    ∷ "/login"
    ∷ "/approve"
    ∷ "/token"
    ∷ "/userinfo"
    ∷ "/endsession"
    ∷ "/endsession-approve"
    ∷ "/.well-known/jwks.json"
    ∷ "/.well-known/openid-configuration"
    ∷ avatar_patterns (1 ∷ 2 ∷ 3 ∷ 4 ∷ 5 ∷ 6 ∷ 7 ∷ 8 ∷ [])

-- `withCORS`: the status of a request that is answered at once.
unfoldable pub with_cors : String → Option ℕ
with_cors method = if method == "OPTIONS" then some 204 else none

abbrev pub advertised_token_endpoint_auth_methods : List String
advertised_token_endpoint_auth_methods =
    supported_token_endpoint_auth_methods ++ ("private_key_jwt" ∷ [])

abbrev pub advertised_token_endpoint_auth_signing_algs : List String
advertised_token_endpoint_auth_signing_algs = "RS256" ∷ "ES256" ∷ []

pub record Discovery : Type 0 where
  pub issuer : String
  pub authorization_endpoint : String
  pub token_endpoint : String
  pub userinfo_endpoint : String
  pub jwks_uri : String
  pub end_session_endpoint : String
  pub registration_endpoint : String
  pub response_types_supported : List String
  pub subject_types_supported : List String
  pub id_token_signing_alg_values_supported : List String
  pub grant_types_supported : List String
  pub code_challenge_methods_supported : List String
  pub scopes_supported : List String
  pub claims_supported : List String
  pub auth_methods_supported : List String
  pub auth_signing_algs_supported : List String

-- `openidConfiguration`, without the flags that are always true; `none` is a 404.
unfoldable pub openid_configuration : ServerSettings → String → Option Discovery
openid_configuration settings method =
    if not (method == "GET")
    then none
    else some (record {
      issuer = settings.base_url;
      authorization_endpoint = settings.base_url ⧺ "/authorize";
      token_endpoint = settings.base_url ⧺ "/token";
      userinfo_endpoint = settings.base_url ⧺ "/userinfo";
      jwks_uri = settings.base_url ⧺ "/.well-known/jwks.json";
      end_session_endpoint = settings.base_url ⧺ "/endsession";
      registration_endpoint = settings.base_url ⧺ "/register";
      response_types_supported = "code" ∷ [];
      subject_types_supported = settings.kind_of_subject ∷ [];
      id_token_signing_alg_values_supported = "RS256" ∷ [];
      grant_types_supported = "authorization_code" ∷ "refresh_token" ∷ [];
      code_challenge_methods_supported = supported_code_challenge_methods;
      scopes_supported = "openid" ∷ "profile" ∷ "email" ∷ "offline_access" ∷ [];
      claims_supported = "sub" ∷ "name" ∷ "picture" ∷ "email" ∷ "email_verified" ∷ [];
      auth_methods_supported = advertised_token_endpoint_auth_methods;
      auth_signing_algs_supported = advertised_token_endpoint_auth_signing_algs;
    })
