-- ===== src/Bff/Config.antt =====
-- The configuration of the backend, bff/internal/config/config.go. The environment is a function from
-- names to values, the empty text for a variable that is not set, as `os.Getenv` reads it.
pub mod Valid
pub mod Prefix
use Prim.Native.Char.{code}
use oidc_oauth2_idp.Prelude.{
  Bool, List, Option, String, [], false, if◌then◌else◌, ltb, map, none, parse_bool, some, ◌++◌,
  ◌==◌, ◌=ℕ◌, ◌||◌, ◌∷◌,
}
use oidc_oauth2_idp.Prelude.Text.{fields, has_prefix, trim_right_by, trim_space, ◌⧺◌}
use oidc_oauth2_idp.Prelude.Text.Affixes.{byte_length, trim_suffix}

abbrev pub Environment : Type 0
Environment = String → String

pub record BffConfig : Type 0 where
  pub oidc_issuer_url : String
  pub oidc_client_id : String
  pub oidc_client_secret : String
  pub oidc_scopes : List String
  pub bff_external_url : String
  pub session_secret : String
  pub session_cookie_name : String
  pub session_storage_type : String
  pub redis_url : String
  pub api_base_url : String
  pub api_path_prefix : String
  pub api_upstream_path_prefix : String
  pub static_assets_base_url : String
  pub content_security_policy : String
  pub insecure_cookies : Bool
  pub auth_bypass_paths : List String

pub record ServerConfig : Type 0 where
  pub port : String

-- The errors that a configuration is refused with.
pub data ConfigError : Type 0 where
  is_required : (variable : String) → ConfigError
  secret_too_short : ConfigError
  unknown_storage_type : (got : String) → ConfigError
  not_boolean : (variable : String) → ConfigError

pub data Loaded (A : Type 0) : Type 0 where
  loaded : A → Loaded A
  refused : List ConfigError → Loaded A

abbrev default_content_security_policy : String
default_content_security_policy = "default-src 'self'; script-src 'self'"

module _ (getenv : Environment) where
  unfoldable pub default_string : String → String → String
  default_string key value =
      if trim_space (getenv key) == "" then value else trim_space (getenv key)

-- `parseBoolDefault`; `none` is an error.
unfoldable pub parse_bool_default : Environment → String → Bool → Option Bool
parse_bool_default getenv key fallback =
    if trim_space (getenv key) == "" then some fallback else parse_bool (trim_space (getenv key))

unfoldable pub parse_scopes : String → List String
parse_scopes raw =
    if trim_space raw == ""
    then "openid" ∷ "profile" ∷ "email" ∷ "offline_access" ∷ []
    else fields (trim_space raw)

unfoldable pub normalize_path_prefix : String → String
normalize_path_prefix p =
    let trimmed = trim_right_by (λ c. code c =ℕ b'/') p in
    if has_prefix trimmed "/" then trimmed else "/" ⧺ trimmed

unfoldable pub parse_auth_bypass_paths : String → List String
parse_auth_bypass_paths raw =
    if trim_space raw == ""
    then "/auth/" ∷ "/assets/" ∷ "/login" ∷ "/healthz" ∷ "/favicon.ico" ∷ []
    else map (λ p. trim_suffix p b'*') (fields (trim_space raw))

abbrev pub missing : String → String → List ConfigError
missing value variable = if value == "" then is_required variable ∷ [] else []

unfoldable pub storage_errors : BffConfig → List ConfigError
storage_errors c =
    if c.session_storage_type == "memory" || c.session_storage_type == "cookie"
    then []
    else if c.session_storage_type == "redis"
    then missing c.redis_url "REDIS_URL"
    else unknown_storage_type c.session_storage_type ∷ []

-- `BFFConfig.Validate`: all the errors, in order; none is no error.
unfoldable pub validate : BffConfig → List ConfigError
validate c =
    missing c.oidc_issuer_url "OIDC_ISSUER_URL"
    ++ missing c.oidc_client_id "OIDC_CLIENT_ID"
    ++ missing c.oidc_client_secret "OIDC_CLIENT_SECRET"
    ++ missing c.bff_external_url "BFF_EXTERNAL_URL"
    ++ (if ltb (byte_length c.session_secret) 32 then secret_too_short ∷ [] else [])
    ++ storage_errors c
    ++ missing c.api_base_url "API_BASE_URL"
    ++ missing c.static_assets_base_url "STATIC_ASSETS_BASE_URL"

unfoldable pub upstream_path_prefix : Environment → String → String
upstream_path_prefix getenv prefix =
    if trim_space (getenv "API_UPSTREAM_PATH_PREFIX") == ""
    then prefix
    else normalize_path_prefix (trim_space (getenv "API_UPSTREAM_PATH_PREFIX"))

unfoldable pub read_bff : Environment → Bool → BffConfig
read_bff getenv insecure =
    let prefix = normalize_path_prefix (default_string getenv "API_PATH_PREFIX" "/api") in
    record {
      oidc_issuer_url = trim_space (getenv "OIDC_ISSUER_URL");
      oidc_client_id = trim_space (getenv "OIDC_CLIENT_ID");
      oidc_client_secret = trim_space (getenv "OIDC_CLIENT_SECRET");
      oidc_scopes = parse_scopes (getenv "OIDC_SCOPES");
      bff_external_url = trim_space (getenv "BFF_EXTERNAL_URL");
      session_secret = getenv "SESSION_SECRET";
      session_cookie_name = default_string getenv "SESSION_COOKIE_NAME" "session";
      session_storage_type = default_string getenv "SESSION_STORAGE_TYPE" "memory";
      redis_url = trim_space (getenv "REDIS_URL");
      api_base_url = trim_space (getenv "API_BASE_URL");
      api_path_prefix = prefix;
      api_upstream_path_prefix = upstream_path_prefix getenv prefix;
      static_assets_base_url = trim_space (getenv "STATIC_ASSETS_BASE_URL");
      content_security_policy =
          default_string getenv "CONTENT_SECURITY_POLICY" default_content_security_policy;
      insecure_cookies = insecure;
      auth_bypass_paths = parse_auth_bypass_paths (getenv "AUTH_BYPASS_PATHS");
    }

abbrev pub if_valid : BffConfig → List ConfigError → Loaded BffConfig
if_valid c [] = loaded c
if_valid c (e ∷ es) = refused (e ∷ es)

unfoldable pub load_bff : Environment → Loaded BffConfig
load_bff getenv = elim (parse_bool_default getenv "INSECURE_COOKIES" false) [
  | none ↦ refused (not_boolean "INSECURE_COOKIES" ∷ [])
  | some insecure ↦ if_valid (read_bff getenv insecure) (validate (read_bff getenv insecure))
]

-- `LoadServer` with the validation of the port.
unfoldable pub load_server : Environment → Loaded ServerConfig
load_server getenv =
    if trim_space (default_string getenv "PORT" "8080") == ""
    then refused (is_required "PORT" ∷ [])
    else loaded (record { port = default_string getenv "PORT" "8080" })
