-- ===== src/Bff/Tests/Startup.antt =====
-- Tests of the configuration and the start at concrete inputs.
use oidc_oauth2_idp.Prelude.{
  String, [], false, if◌then◌else◌, inl, inr, ltb, none, or_empty, parse_bool, refl, some, true, ℕ,
  ◌*◌, ◌==◌, ◌∷◌, ◌≡◌, ◌⊎◌,
}
use oidc_oauth2_idp.Prelude.Text.{fields, trim_right_by}
use oidc_oauth2_idp.Prelude.Text.Affixes.{byte_length, trim_suffix}
use oidc_oauth2_idp.Prelude.Dict.{lookup}
use oidc_oauth2_idp.Idp.State.{second}
use oidc_oauth2_idp.Bff.Config.{
  BffConfig, Environment, default_string, load_bff, load_server, normalize_path_prefix,
  parse_auth_bypass_paths, parse_bool_default, parse_scopes, read_bff, storage_errors,
  upstream_path_prefix, validate,
}
use oidc_oauth2_idp.Bff.Config.Valid.{IsConfigured, load_bff-IsConfigured}
use oidc_oauth2_idp.Bff.Middleware.{is_api, is_bypassed}
use oidc_oauth2_idp.Bff.Account.{build_end_session_url}
use oidc_oauth2_idp.Bff.Routes.{bff_routes, patterns, register_routes}
use oidc_oauth2_idp.Bff.Startup.{
  Application, OidcProvider, World, available, build_oidc_dependencies, client_auth_code_url,
  client_exchange_code, client_refresh_tokens, handler_dependencies, in_memory, level_warn,
  max_attempts, new_session_store, parse_log_level, retry_from, start, with_retry,
}
use oidc_oauth2_idp.Bff.Startup.Retries.{IsOutcome, with_retry-IsOutcome}
use oidc_oauth2_idp.Bff.Startup.Started.{IsStarted, start-IsStarted}
use oidc_oauth2_idp.Bff.Tests.Accounts.{accounts, sample_account, sample_picture_url}

-- Everything that these tests run.
unfoldable startup : Unit {0}
unfolding accounts default_string parse_bool parse_bool_default parse_scopes normalize_path_prefix
    parse_auth_bypass_paths storage_errors validate upstream_path_prefix read_bff load_bff
    load_server retry_from with_retry client_auth_code_url client_exchange_code
    client_refresh_tokens build_oidc_dependencies new_session_store handler_dependencies start
    register_routes bff_routes byte_length trim_suffix fields trim_right_by build_end_session_url
startup = tt

abbrev sample_env : Environment
sample_env name = or_empty (
    lookup name (
      ("OIDC_ISSUER_URL", "https://idp.example")
      ∷ ("OIDC_CLIENT_ID", "bff")
      ∷ ("OIDC_CLIENT_SECRET", "secret")
      ∷ ("BFF_EXTERNAL_URL", "https://bff.example")
      ∷ ("SESSION_SECRET", "0123456789abcdef0123456789abcdef")
      ∷ ("API_BASE_URL", "https://api.example")
      ∷ ("API_PATH_PREFIX", "/api//")
      ∷ ("STATIC_ASSETS_BASE_URL", "https://www.example")
      ∷ ("INSECURE_COOKIES", "T")
      ∷ []))

abbrev slash_env : Environment
slash_env name = if name == "API_PATH_PREFIX" then "/" else sample_env name

abbrev sample_config : BffConfig
sample_config = read_bff sample_env true

load_bff-IsConfigured_example :
    (sample_config ≡ read_bff sample_env true) × IsConfigured sample_env sample_config
unfolding startup
load_bff-IsConfigured_example = load_bff-IsConfigured sample_env sample_config refl

-- A provider that is there at the third attempt.
abbrev sample_provider : OidcProvider
sample_provider = record {
  provider_end_session = some "https://idp.example/endsession";
  provider_code_url = λ c state verifier. state;
  provider_exchange = λ c code verifier. none;
  provider_refresh = λ c token. none;
  provider_verify = λ client raw. none;
}

abbrev late_provider : String → ℕ → OidcProvider ⊎ String
late_provider issuer n = if ltb n 3 then inr "not ready" else inl sample_provider

with_retry-IsOutcome_example :
    IsOutcome (late_provider "i") max_attempts 0 none 0 (available sample_provider 3 (4 * second))
unfolding startup
with_retry-IsOutcome_example = with_retry-IsOutcome (late_provider "i")

abbrev sample_world : World
sample_world = record {
  getenv = slash_env;
  can_parse_redis_url = λ url. true;
  parse_base_url = λ url. some sample_picture_url;
  account_services = sample_account;
  discover = late_provider;
}

abbrev sample_application : Application
sample_application = record {
  config = read_bff slash_env true;
  listen_address = ":8080";
  store_kind = in_memory;
  oidc = record {
    auth_code_url = λ state verifier. state;
    exchange_for_tokens = λ code verifier. none;
    refresh_tokens = λ token. none;
    verify_token = λ raw. none;
    end_session_endpoint = "set";
  };
  dependencies = record {
    api_path_prefix = "/";
    auth_bypass_paths = "/auth/" ∷ "/assets/" ∷ "/login" ∷ "/healthz" ∷ "/favicon.ico" ∷ [];
  };
  api_target = sample_picture_url;
  static_assets_target = sample_picture_url;
  routes = bff_routes true true true "/";
}

start-IsStarted_example : IsStarted sample_world sample_application
unfolding startup
start-IsStarted_example = start-IsStarted sample_world sample_application refl

-- With the prefix "/", the API is known by paths that begin with two slashes.
slash_prefix_example :
    (is_api sample_application.dependencies "/users" ≡ false)
    × (patterns sample_application.routes
        ≡ "GET /healthz" ∷ "GET /auth/login" ∷ "GET /auth/callback" ∷ "POST /auth/logout"
          ∷ "GET /auth/me" ∷ "GET /auth/avatar" ∷ "//" ∷ "/" ∷ "/" ∷ [])
unfolding startup
slash_prefix_example = (refl, refl)

bypass_paths_example :
    (parse_auth_bypass_paths " /* /login " ≡ "/" ∷ "/login" ∷ [])
    × (is_bypassed (handler_dependencies "" ("/" ∷ [])) "/anything" ≡ true)
unfolding startup
bypass_paths_example = (refl, refl)

log_level_example : (parse_log_level "warning" ≡ some level_warn) × (parse_log_level "" ≡ none)
unfolding parse_log_level
log_level_example = (refl, refl)
