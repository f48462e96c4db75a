-- ===== src/Bff/Proxy.antt =====
-- The reverse proxies of bff/internal/handler/proxy.go. `httputil.ReverseProxy` and the director that it
-- comes with are parameters.
pub mod Rewritten
use oidc_oauth2_idp.Prelude.{Option, String, if◌then◌else◌, none, some, ℕ, ◌==◌, ◌||◌}
use oidc_oauth2_idp.Prelude.Text.{has_prefix, trim_space, ◌⧺◌}
use oidc_oauth2_idp.Prelude.Text.Affixes.{trim_prefix}
use oidc_oauth2_idp.Prelude.Text.Paths.{path_join}
use oidc_oauth2_idp.Idp.External.{Url}
use oidc_oauth2_idp.Bff.Store.{BffSession, Store}
use oidc_oauth2_idp.Bff.Manager.{get_session}

-- What the proxy sends upstream; a raw path that is not set is the empty text.
pub record Outgoing : Type 0 where
  pub host : String
  pub url_path : String
  pub raw_path : String
  pub bearer_header : String
  pub forwarded_host : String
  pub forwarded_for : String

-- The checks of the base URL, the same for both proxies; `none` is an error.
unfoldable pub proxy_target : (String → Option Url) → String → Option Url
proxy_target parse_url base_url =
    if trim_space base_url == "" then none else elim (parse_url base_url) [
      | none ↦ none
      | some target ↦ if target.scheme == "" || target.host == "" then none else some target
    ]

unfoldable pub rewritten_path : String → String → String → String
rewritten_path api_path_prefix upstream_path_prefix path =
    path_join upstream_path_prefix (trim_prefix path api_path_prefix)

-- The director of the API proxy, after that of `httputil.NewSingleHostReverseProxy`.
unfoldable pub api_director : (Outgoing → Outgoing) → Url → String → String → Outgoing → Outgoing
api_director original target api_path_prefix upstream_path_prefix req =
    let out = original req in
    record out {
      host = target.host;
      url_path = rewritten_path api_path_prefix upstream_path_prefix out.url_path;
      raw_path =
          if out.raw_path == ""
          then out.raw_path
          else rewritten_path api_path_prefix upstream_path_prefix out.raw_path;
    }

-- The director of the proxy for static assets.
unfoldable pub static_assets_director : (Outgoing → Outgoing) → Url → Outgoing → Outgoing
static_assets_director original target req = record (original req) { host = target.host }

-- What `ServeHTTP` of the API proxy does: the request goes on to the upstream server, or is answered.
pub data Proxied : Type 0 where
  forwarded : Outgoing → Proxied
  proxy_error : (status : ℕ) (text : String) → Proxied

-- `remote_host` is the host part of the remote address, where it has one.
abbrev pub with_forwarding_headers : String → Option String → Outgoing → Outgoing
with_forwarding_headers request_host none req = record req { forwarded_host = request_host }
with_forwarding_headers request_host (some remote_host) req = record req {
  forwarded_host = request_host;
  forwarded_for = remote_host;
}

module _ {S : Type 0} (st : Store S) where
  abbrev pub serve_loaded :
      (Outgoing → Outgoing) → Outgoing → S × Option (Option BffSession) → S × Proxied
  serve_loaded finish req (s, none) = (s, proxy_error 500 "internal server error")
  serve_loaded finish req (s, some none) = (s, proxy_error 401 "unauthorized")
  serve_loaded finish req (s, some (some current)) =
      if trim_space current.access_token == ""
      then (s, proxy_error 401 "unauthorized")
      else (s, forwarded (finish (record req { bearer_header = "Bearer " ⧺ current.access_token })))

  -- `finish` sets the forwarding headers.
  unfoldable pub serve_api : String → Option String → Option String → Outgoing → ℕ → S → S × Proxied
  serve_api request_host remote_host cookie req now s =
      let finish = with_forwarding_headers request_host remote_host in
      if has_prefix (trim_space req.bearer_header) "Bearer "
      then (s, forwarded (finish req))
      else serve_loaded finish req (get_session st cookie now s)
