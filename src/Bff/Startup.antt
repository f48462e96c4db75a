-- ===== src/Bff/Startup.antt =====
-- How the backend starts: bff/cmd/bff/main.go, bff/internal/handler/oidc_runtime.go and oidc.go. The
-- provider's discovery, the OAuth and OIDC libraries, Redis and the listener are parameters; the log is
-- left out.
pub mod Retries
pub mod Started
use oidc_oauth2_idp.Prelude.{
  Bool, List, Option, String, if◌then◌else◌, inl, inr, ltb, none, or_empty, some, suc, true, zero,
  ℕ, ◌*◌, ◌+◌, ◌==◌, ◌||◌, ◌⊎◌,
}
use oidc_oauth2_idp.Prelude.Text.{◌⧺◌}
use oidc_oauth2_idp.Idp.State.{second}
use oidc_oauth2_idp.Idp.External.{Url}
use oidc_oauth2_idp.Bff.Config.{
  BffConfig, ConfigError, Environment, Loaded, ServerConfig, load_bff, load_server, loaded, refused,
}
use oidc_oauth2_idp.Bff.Middleware.{Dependencies, RefreshedTokens}
use oidc_oauth2_idp.Bff.Callback.{TokenSet}
use oidc_oauth2_idp.Bff.Account.{AccountServices, UserClaims, build_end_session_url}
use oidc_oauth2_idp.Bff.Proxy.{proxy_target}
use oidc_oauth2_idp.Bff.Routes.{Routes, bff_routes}

-- How a repeated attempt ends: with what it gave, or with the last error; after how many attempts, and
-- after how long a sleep in nanoseconds.
pub data Retried (A : Type 0) : Type 0 where
  available : (result : A) (attempts slept : ℕ) → Retried A
  unavailable : (last_error : Option String) (attempts slept : ℕ) → Retried A

abbrev pub max_attempts : ℕ
max_attempts = 30

abbrev pub retry_delay : ℕ
retry_delay = 2 * second

module _ {A : Type 0} (attempts : ℕ → A ⊎ String) where
  -- The loop of `BuildOIDCDependenciesWithRetry` with so many attempts left; `done` of them have failed, the
  -- last with this error. There is no sleep after the last one.
  unfoldable pub retry_from : ℕ → ℕ → Option String → ℕ → Retried A
  retry_from zero done last_error slept = unavailable last_error done slept
  retry_from (suc left) done last_error slept = elim (attempts (suc done)) [
    | inl result ↦ available result (suc done) slept
    | inr error ↦
        retry_from left (suc done) (some error) (if ltb 0 left then slept + retry_delay else slept)
  ]

  unfoldable pub with_retry : Retried A
  with_retry = retry_from max_attempts 0 none 0

-- `oauth2.Config`, without the endpoints of the provider.
pub record OauthConfig : Type 0 where
  pub oauth_client_id : String
  pub oauth_client_secret : String
  pub redirect_url : String
  pub oauth_scopes : List String

-- What the OIDC and OAuth libraries do for a discovered provider. The end session endpoint is `none` where
-- the metadata cannot be read.
pub record OidcProvider : Type 0 where
  pub provider_end_session : Option String
  pub provider_code_url : OauthConfig → String → String → String
  pub provider_exchange : OauthConfig → String → String → Option TokenSet
  pub provider_refresh : OauthConfig → String → Option RefreshedTokens
  pub provider_verify : String → String → Option UserClaims

pub record OidcDependencies : Type 0 where
  pub auth_code_url : String → String → String
  pub exchange_for_tokens : String → String → Option TokenSet
  pub refresh_tokens : String → Option RefreshedTokens
  pub verify_token : String → Option UserClaims
  pub end_session_endpoint : String

-- The methods of `OAuthClient`, whose configuration may be nil.
unfoldable pub client_auth_code_url : OidcProvider → Option OauthConfig → String → String → String
client_auth_code_url provider none state verifier = "/login"
client_auth_code_url provider (some c) state verifier = provider.provider_code_url c state verifier

unfoldable pub client_exchange_code :
    OidcProvider → Option OauthConfig → String → String → Option TokenSet
client_exchange_code provider none code verifier = none
client_exchange_code provider (some c) code verifier = provider.provider_exchange c code verifier

unfoldable pub client_refresh_tokens :
    OidcProvider → Option OauthConfig → String → Option RefreshedTokens
client_refresh_tokens provider none refresh_token = none
client_refresh_tokens provider (some c) refresh_token = provider.provider_refresh c refresh_token

abbrev pub oauth_config : BffConfig → OauthConfig
oauth_config cfg = record {
  oauth_client_id = cfg.oidc_client_id;
  oauth_client_secret = cfg.oidc_client_secret;
  redirect_url = cfg.bff_external_url ⧺ "/auth/callback";
  oauth_scopes = cfg.oidc_scopes;
}

-- `BuildOIDCDependencies`, for a provider as the discovery gives it, or with its error.
unfoldable pub build_oidc_dependencies :
    AccountServices → BffConfig → OidcProvider ⊎ String → OidcDependencies ⊎ String
build_oidc_dependencies services cfg (inr error) = inr error
build_oidc_dependencies services cfg (inl provider) = inl (record {
  auth_code_url = client_auth_code_url provider (some (oauth_config cfg));
  exchange_for_tokens = client_exchange_code provider (some (oauth_config cfg));
  refresh_tokens = client_refresh_tokens provider (some (oauth_config cfg));
  verify_token = provider.provider_verify cfg.oidc_client_id;
  end_session_endpoint =
      build_end_session_url services (or_empty provider.provider_end_session)
        (cfg.bff_external_url ⧺ "/login") "";
})

-- The log level, from the value of the flag in lower case and without spaces around it.
pub data LogLevel : Type 0 where
  level_debug level_info level_warn level_error : LogLevel

unfoldable pub parse_log_level : String → Option LogLevel
parse_log_level value =
    if value == "debug"
    then some level_debug
    else if value == "info"
    then some level_info
    else if value == "warn" || value == "warning"
    then some level_warn
    else if value == "error"
    then some level_error
    else none

pub data StoreKind : Type 0 where
  in_memory : StoreKind
  in_redis : (redis_url key_prefix : String) → StoreKind
  in_cookie : (secret : String) → StoreKind

-- `newSessionStore`; `can_parse` says whether the Redis client accepts the URL. `none` is an error.
unfoldable pub new_session_store : (String → Bool) → BffConfig → Option StoreKind
new_session_store can_parse cfg =
    if cfg.session_storage_type == "redis"
    then (if can_parse cfg.redis_url
        then some (in_redis cfg.redis_url (cfg.session_cookie_name ⧺ "-"))
        else none)
    else if cfg.session_storage_type == "cookie"
    then some (in_cookie cfg.session_secret)
    else some in_memory

-- `New` of the handler: its dependencies, with the default prefix where there is none.
unfoldable pub handler_dependencies : String → List String → Dependencies
handler_dependencies prefix bypass_paths = record {
  api_path_prefix = if prefix == "" then "/api" else prefix;
  auth_bypass_paths = bypass_paths;
}

-- What listens after a start: the handler of the requests, with its parts.
pub record Application : Type 0 where
  pub config : BffConfig
  pub listen_address : String
  pub store_kind : StoreKind
  pub oidc : OidcDependencies
  pub dependencies : Dependencies
  pub api_target : Url
  pub static_assets_target : Url
  pub routes : Routes

pub data StartResult : Type 0 where
  started : Application → StartResult
  invalid_config : List ConfigError → StartResult
  no_session_store : StartResult
  no_oidc : Option String → StartResult
  no_api_proxy : StartResult
  no_static_assets_proxy : StartResult

-- What `run` takes from outside: the environment, the Redis client's check of a URL, `url.Parse`, and the
-- discovery of the issuer at each attempt.
pub record World : Type 0 where
  pub getenv : Environment
  pub can_parse_redis_url : String → Bool
  pub parse_base_url : String → Option Url
  pub account_services : AccountServices
  pub discover : String → ℕ → OidcProvider ⊎ String

module _ (world : World) where
  abbrev pub start_static_assets :
      BffConfig → ServerConfig → StoreKind → OidcDependencies → Url → Option Url → StartResult
  start_static_assets cfg server kind deps api none = no_static_assets_proxy
  start_static_assets cfg server kind deps api (some assets) = started (record {
    config = cfg;
    listen_address = ":" ⧺ server.port;
    store_kind = kind;
    oidc = deps;
    dependencies = handler_dependencies cfg.api_path_prefix cfg.auth_bypass_paths;
    api_target = api;
    static_assets_target = assets;
    routes = bff_routes true true true cfg.api_path_prefix;
  })

  abbrev pub start_api :
      BffConfig → ServerConfig → StoreKind → OidcDependencies → Option Url → StartResult
  start_api cfg server kind deps none = no_api_proxy
  start_api cfg server kind deps (some api) =
      start_static_assets cfg server kind deps api
        (proxy_target world.parse_base_url cfg.static_assets_base_url)

  abbrev pub start_oidc :
      BffConfig → ServerConfig → StoreKind → Retried OidcDependencies → StartResult
  start_oidc cfg server kind (unavailable error attempts slept) = no_oidc error
  start_oidc cfg server kind (available deps attempts slept) =
      start_api cfg server kind deps (proxy_target world.parse_base_url cfg.api_base_url)

  abbrev pub oidc_attempts : BffConfig → ℕ → OidcDependencies ⊎ String
  oidc_attempts cfg n =
      build_oidc_dependencies world.account_services cfg (world.discover cfg.oidc_issuer_url n)

  abbrev pub start_store : BffConfig → ServerConfig → Option StoreKind → StartResult
  start_store cfg server none = no_session_store
  start_store cfg server (some kind) = start_oidc cfg server kind (with_retry (oidc_attempts cfg))

  -- `requireConfig`: the configuration of the backend is looked at first.
  abbrev pub start_config : Loaded BffConfig → Loaded ServerConfig → StartResult
  start_config (refused errors) server = invalid_config errors
  start_config (loaded cfg) (refused errors) = invalid_config errors
  start_config (loaded cfg) (loaded server) =
      start_store cfg server (new_session_store world.can_parse_redis_url cfg)

  -- `run`, up to the listener.
  unfoldable pub start : StartResult
  start = start_config (load_bff world.getenv) (load_server world.getenv)
