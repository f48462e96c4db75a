-- ===== src/Bff/Startup/Started.antt =====
-- What holds of a backend that has started.
use oidc_oauth2_idp.Prelude.{
  AllDistinct, Bool-cases, List, Option, Option-cases, String, arith, eq_iff, false, inl, inr, none,
  refl, some, some_injective, subst, texts_apart, true, ℕ, ◌==◌, ◌||◌, ◌↔◌, ◌≡◌, ◌≢◌, ◌≤◌,
}
use oidc_oauth2_idp.Prelude.Text.{has_prefix, trim_space}
use oidc_oauth2_idp.Prelude.Text.Affixes.{empty_has_no_prefix}
use oidc_oauth2_idp.Idp.External.{Url}
use oidc_oauth2_idp.Bff.Config.{
  BffConfig, Loaded, ServerConfig, load_bff, load_server, loaded, refused,
}
use oidc_oauth2_idp.Bff.Config.Valid.{IsConfigured, load_bff-IsConfigured}
use oidc_oauth2_idp.Bff.Proxy.{proxy_target}
use oidc_oauth2_idp.Bff.Routes.{patterns}
use oidc_oauth2_idp.Bff.Routes.Distinct.{bff_routes-AllDistinct}
use oidc_oauth2_idp.Bff.Startup.{
  Application, OidcDependencies, Retried, StoreKind, World, available, handler_dependencies,
  max_attempts, new_session_store, oidc_attempts, start, start_api, start_config, start_oidc,
  start_static_assets, start_store, started, unavailable, with_retry,
}
use oidc_oauth2_idp.Bff.Startup.Retries.{IsOutcome, with_retry-IsOutcome}
use oidc_oauth2_idp.Bff.Config.Prefix.{IsPathPrefix}

-- A URL that a proxy can forward to.
abbrev pub IsTarget : Url → Type 0
IsTarget url = (url.scheme ≢ "") × (url.host ≢ "")

proxy_target-IsTarget :
    (parse_url : String → Option Url) (base_url : String) (url : Url)
    → proxy_target parse_url base_url ≡ some url
    → IsTarget url
unfolding proxy_target
proxy_target-IsTarget parse_url base_url url e = elim (Bool-cases (trim_space base_url == "")) [
  | inl t ↦ cc (rw (t, proxy_target) at e)
  | inr t ↦ elim (Option-cases (parse_url base_url)) [
    | inl q ↦ cc (rw (t, q, proxy_target) at e)
    | inr (target, q) ↦ elim (Bool-cases (target.scheme == "" || target.host == "")) [
      | inl f ↦ cc (rw (t, q, f, proxy_target) at e)
      | inr f ↦
          subst IsTarget (some_injective (rw (t, q, f, proxy_target) at e))
            (both_given target.scheme target.host f)
    ]
  ]
]
  where
    both_given : (s t : String) → (s == "" || t == "") ≡ false → (s ≢ "") × (t ≢ "")
    both_given s t f = ground (arith, eq_iff s "", eq_iff t "")

module _ (world : World) where
  -- What a started application consists of.
  pub record IsStarted (app : Application) : Type 0 where
    pub configured : IsConfigured world.getenv app.config
    pub stored : new_session_store world.can_parse_redis_url app.config ≡ some app.store_kind
    pub discovered :
        (n : ℕ) × (n ≤ max_attempts) × (oidc_attempts world app.config n ≡ inl app.oidc)
    pub api : IsTarget app.api_target
    pub static_assets : IsTarget app.static_assets_target
    pub guarded_prefix : app.dependencies.api_path_prefix ≡ app.config.api_path_prefix
    pub distinct_routes : AllDistinct (patterns app.routes) ↔ (app.config.api_path_prefix ≢ "/")

  start_static_assets_lem :
      (cfg : BffConfig) (server : ServerConfig) (kind : StoreKind) (deps : OidcDependencies)
      (target : Url) (o : Option Url) (app : Application)
      → start_static_assets world cfg server kind deps target o ≡ started app
      → (assets : Url) × (o ≡ some assets)
        × (start_static_assets world cfg server kind deps target (some assets) ≡ started app)
  start_static_assets_lem cfg server kind deps target none app e = cc
  start_static_assets_lem cfg server kind deps target (some assets) app e = (assets, refl, e)

  start_api_lem :
      (cfg : BffConfig) (server : ServerConfig) (kind : StoreKind) (deps : OidcDependencies)
      (o : Option Url) (app : Application)
      → start_api world cfg server kind deps o ≡ started app
      → (target : Url) × (o ≡ some target)
        × (start_static_assets world cfg server kind deps target
              (proxy_target world.parse_base_url cfg.static_assets_base_url)
            ≡ started app)
  start_api_lem cfg server kind deps none app e = cc
  start_api_lem cfg server kind deps (some target) app e = (target, refl, e)

  start_oidc_lem :
      (cfg : BffConfig) (server : ServerConfig) (kind : StoreKind) (r : Retried OidcDependencies)
      (app : Application)
      → IsOutcome (oidc_attempts world cfg) max_attempts 0 none 0 r
      → start_oidc world cfg server kind r ≡ started app
      → (deps : OidcDependencies) × (n : ℕ) × (n ≤ max_attempts)
        × (oidc_attempts world cfg n ≡ inl deps)
        × (start_api world cfg server kind deps (proxy_target world.parse_base_url cfg.api_base_url)
            ≡ started app)
  start_oidc_lem cfg server kind (unavailable error n slept) app h e = cc
  start_oidc_lem cfg server kind (available deps n slept) app (a, b, c, d, f) e = (deps, n, b, c, e)

  start_store_lem :
      (cfg : BffConfig) (server : ServerConfig) (o : Option StoreKind) (app : Application)
      → start_store world cfg server o ≡ started app
      → (kind : StoreKind) × (o ≡ some kind)
        × (start_oidc world cfg server kind (with_retry (oidc_attempts world cfg)) ≡ started app)
  start_store_lem cfg server none app e = cc
  start_store_lem cfg server (some kind) app e = (kind, refl, e)

  start_config_lem :
      (a : Loaded BffConfig) (b : Loaded ServerConfig) (app : Application)
      → start_config world a b ≡ started app
      → (cfg : BffConfig) × (server : ServerConfig) × (a ≡ loaded cfg)
        × (start_store world cfg server (new_session_store world.can_parse_redis_url cfg)
            ≡ started app)
  start_config_lem (refused errors) b app e = cc
  start_config_lem (loaded cfg) (refused errors) app e = cc
  start_config_lem (loaded cfg) (loaded server) app e = (cfg, server, refl, e)

  given_prefix :
      (p : String) (bypass_paths : List String)
      → IsPathPrefix p
      → (handler_dependencies p bypass_paths).api_path_prefix ≡ p
  unfolding handler_dependencies
  given_prefix p bypass_paths h =
      rw
        (texts_apart {s = p} {t = ""}
          (λ q. empty_has_no_prefix (subst (λ t. has_prefix t "/" ≡ true) q h.0)))
        refl

  started_injective : {a b : Application} → started a ≡ started b → a ≡ b
  started_injective e = cc

  -- A backend starts only with a configuration that is valid, with the session store that it asks for, with a
  -- provider that was discovered within 30 attempts, and with base URLs that have a scheme and a host for
  -- both of its proxies. Its guards know the API by the prefix that its routes have. The patterns of its
  -- routes are distinct if and only if that prefix is not a slash alone.
  pub start-IsStarted : (app : Application) → start world ≡ started app → IsStarted app
  unfolding start
  start-IsStarted app e =
      let (cfg, server, read, e1) =
        start_config_lem (load_bff world.getenv) (load_server world.getenv) app e in
      let (kind, stored, e2) =
        start_store_lem cfg server (new_session_store world.can_parse_redis_url cfg) app e1 in
      let (deps, n, within, found, e3) =
        start_oidc_lem cfg server kind (with_retry (oidc_attempts world cfg)) app
          (with_retry-IsOutcome (oidc_attempts world cfg)) e2 in
      let (target, api, e4) =
        start_api_lem cfg server kind deps (proxy_target world.parse_base_url cfg.api_base_url) app
          e3 in
      let (assets, static_assets, e5) =
        start_static_assets_lem cfg server kind deps target
          (proxy_target world.parse_base_url cfg.static_assets_base_url) app e4 in
      let (_, configured) = load_bff-IsConfigured world.getenv cfg read in
      subst IsStarted (started_injective e5) (record {
        configured = configured;
        stored = stored;
        discovered = (n, within, found);
        api = proxy_target-IsTarget world.parse_base_url cfg.api_base_url target api;
        static_assets =
            proxy_target-IsTarget world.parse_base_url cfg.static_assets_base_url assets
              static_assets;
        guarded_prefix = given_prefix cfg.api_path_prefix cfg.auth_bypass_paths configured.1;
        distinct_routes = bff_routes-AllDistinct cfg.api_path_prefix (configured.1);
      })
