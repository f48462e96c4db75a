-- ===== src/Bff/Routes.antt =====
-- The routes and the middleware stack of the backend: bff/internal/handler/router.go and
-- bff/internal/server/server.go. The matching of requests by `http.ServeMux` is left out, and so are the
-- request log and the recovery from panics.
pub mod Distinct
pub mod Protected
use oidc_oauth2_idp.Prelude.{
  Bool, List, Option, String, [], if◌then◌else◌, map, none, some, ℕ, ◌++◌, ◌∷◌,
}
use oidc_oauth2_idp.Prelude.Text.{◌⧺◌}
use oidc_oauth2_idp.Bff.Store.{Store}
use oidc_oauth2_idp.Bff.Manager.{SetCookie, keep_cookie}
use oidc_oauth2_idp.Bff.Middleware.{
  Dependencies, Passage, RefreshedTokens, WebRequest, auth_guard, csrf_middleware, json_error,
  login_redirect, passed, token_forwarder,
}

-- What serves a pattern.
pub data Endpoint : Type 0 where
  to_health : Endpoint
  to_login : Endpoint
  to_callback : Endpoint
  to_logout : Endpoint
  to_me : Endpoint
  to_avatar : Endpoint
  to_api : Endpoint
  to_static_assets : Endpoint
  to_not_found : Endpoint

abbrev pub Routes : Type 0
Routes = List (String × Endpoint)

abbrev auth_routes : Routes
auth_routes =
    ("GET /auth/login", to_login)
    ∷ ("GET /auth/callback", to_callback)
    ∷ ("POST /auth/logout", to_logout)
    ∷ ("GET /auth/me", to_me)
    ∷ ("GET /auth/avatar", to_avatar)
    ∷ []

abbrev api_routes : String → Routes
api_routes api_path_prefix = (api_path_prefix ⧺ "/", to_api) ∷ (api_path_prefix, to_api) ∷ []

-- `RegisterRoutes`; the flags say which of the handlers are given.
unfoldable pub register_routes : Bool → Bool → Bool → String → Routes
register_routes has_static_assets has_auth has_api api_path_prefix =
    (if has_auth then auth_routes else [])
    ++ ((if has_api then api_routes api_path_prefix else [])
        ++ (if has_static_assets then ("/", to_static_assets) ∷ [] else []))

-- The routes that `NewBFF` registers, in order.
unfoldable pub bff_routes : Bool → Bool → Bool → String → Routes
bff_routes has_static_assets has_auth has_api api_path_prefix =
    (("GET /healthz", to_health) ∷ [])
    ++ (register_routes has_static_assets has_auth has_api api_path_prefix
        ++ (if has_api then [] else (api_path_prefix ⧺ "/", to_not_found) ∷ []))

abbrev pub patterns : Routes → List String
patterns routes = map (λ (route : String × Endpoint). route.0) routes

module _ {S : Type 0} (st : Store S) where
  -- What a middleware that lets the request through hands it to.
  abbrev pub and_then : (S → S × SetCookie × Passage) → S × Passage → S × SetCookie × Passage
  and_then next (s, passed authorization) = next s
  and_then next (s, login_redirect) = (s, keep_cookie, login_redirect)
  and_then next (s, json_error status text) = (s, keep_cookie, json_error status text)

  -- `BuildMiddlewareStack`: which requests reach the routes. Without the handler nothing is checked.
  unfoldable pub middleware_stack :
      Option Dependencies
      → Option (String → Option RefreshedTokens)
      → WebRequest
      → Option String
      → ℕ
      → S
      → S × SetCookie × Passage
  middleware_stack none refresh req id now s = (s, keep_cookie, passed none)
  middleware_stack (some deps) refresh req id now s =
      and_then
        (λ t.
          and_then (token_forwarder st deps refresh req id now) (csrf_middleware st deps req now t))
        (auth_guard st deps req now s)
