-- ===== src/Bff/Middleware.antt =====
-- The middleware of bff/internal/handler/middleware.go that lets a request through or stops it, over any
-- session store, and the headers that it sets.
pub mod Guard
pub mod Forward
use oidc_oauth2_idp.Prelude.{
  Bool, List, Option, String, [], any, false, if◌then◌else◌, ltb, none, not, some, true, ℕ, ◌&&◌,
  ◌*◌, ◌+◌, ◌==◌, ◌||◌, ◌∷◌,
}
use oidc_oauth2_idp.Prelude.Text.{has_prefix, trim_space, ◌⧺◌}
use oidc_oauth2_idp.Prelude.Dict.{Dict}
use oidc_oauth2_idp.Idp.State.{second}
use oidc_oauth2_idp.Bff.Store.{BffSession, Store}
use oidc_oauth2_idp.Bff.Manager.{SetCookie, destroy, get_session, keep_cookie, rotate}

pub record WebRequest : Type 0 where
  pub method : String
  pub path : String
  pub session_cookie : Option String
  pub authorization : String
  pub csrf_header : String

-- What happens to a request: it goes on, with an Authorization header that replaces its own or not, or it
-- is answered.
pub data Passage : Type 0 where
  passed : (authorization : Option String) → Passage
  login_redirect : Passage
  json_error : (status : ℕ) (text : String) → Passage

pub record Dependencies : Type 0 where
  pub api_path_prefix : String
  pub auth_bypass_paths : List String

-- What `RefreshTokens` returns; an absent ID token is the empty text.
pub record RefreshedTokens : Type 0 where
  pub new_access_token : String
  pub new_refresh_token : String
  pub new_id_token : String
  pub expiry : Option ℕ

-- The headers that `SecurityHeaders` sets, in order.
unfoldable pub security_headers : String → Dict String
security_headers content_security_policy =
    ("Strict-Transport-Security", "max-age=63072000; includeSubDomains")
    ∷ ("X-Content-Type-Options", "nosniff")
    ∷ ("X-Frame-Options", "DENY")
    ∷ ("Content-Security-Policy", trim_space content_security_policy)
    ∷ ("Referrer-Policy", "strict-origin-when-cross-origin")
    ∷ []

unfoldable pub is_api : Dependencies → String → Bool
is_api deps path = has_prefix path (deps.api_path_prefix ⧺ "/") || path == deps.api_path_prefix

-- The loop over the bypass paths.
unfoldable pub is_bypassed : Dependencies → String → Bool
is_bypassed deps path = any (λ prefix. has_prefix path prefix) deps.auth_bypass_paths

abbrev pub internal_error : Passage
internal_error = json_error 500 "internal server error"

abbrev pub token_refresh_threshold : ℕ
token_refresh_threshold = 60 * second

abbrev pub expired_by : ℕ → Option ℕ → Bool
expired_by now none = false
expired_by now (some expiry) = ltb expiry now

abbrev pub renewed : BffSession → RefreshedTokens → BffSession
renewed current given = record current {
  access_token = given.new_access_token;
  access_token_expiry = given.expiry;
  refresh_token =
      if not (given.new_refresh_token == "")
      then given.new_refresh_token
      else current.refresh_token;
  id_token = if not (given.new_id_token == "") then given.new_id_token else current.id_token;
}

-- The check of the CSRF token, for a session as it is loaded.
unfoldable pub csrf_checked : String → Option (Option BffSession) → Passage
csrf_checked header none = internal_error
csrf_checked header (some none) = json_error 401 "unauthorized"
csrf_checked header (some (some current)) =
    if trim_space header == "" || not (trim_space header == current.csrf_token)
    then json_error 403 "forbidden"
    else passed none

unfoldable pub guarded : Option (Option BffSession) → Passage
guarded none = internal_error
guarded (some none) = login_redirect
guarded (some (some current)) = passed none

-- Requests that `CSRFMiddleware` lets through unchecked.
unfoldable pub csrf_exempt : Dependencies → WebRequest → Bool
csrf_exempt deps req =
    (req.method == "GET" || req.method == "HEAD" || req.method == "OPTIONS")
    || (not (is_api deps req.path) && not (has_prefix req.path "/auth/logout"))

module _ {S : Type 0} (st : Store S) (deps : Dependencies) where
  -- A middleware that looks at the loaded session only.
  abbrev pub by_session :
      (Option (Option BffSession) → Passage) → S × Option (Option BffSession) → S × Passage
  by_session f (s, loaded) = (s, f loaded)

  unfoldable pub auth_guard : WebRequest → ℕ → S → S × Passage
  auth_guard req now s =
      if is_api deps req.path
      then (s, passed none)
      else if is_bypassed deps req.path
      then (s, passed none)
      else by_session guarded (get_session st req.session_cookie now s)

  unfoldable pub csrf_middleware : WebRequest → ℕ → S → S × Passage
  csrf_middleware req now s =
      if csrf_exempt deps req
      then (s, passed none)
      else by_session (csrf_checked req.csrf_header) (get_session st req.session_cookie now s)

  abbrev pub bearer : String → Passage
  bearer token = passed (some ("Bearer " ⧺ token))

  -- The answer where the access token has expired and no new one was had: the session is destroyed.
  abbrev pub ended : S × Option SetCookie → S × SetCookie × Passage
  ended (s, some cookie) = (s, cookie, json_error 401 "session expired")
  ended (s, none) = (s, keep_cookie, json_error 401 "session expired")

  -- A failed refresh: an access token that still has time is used.
  abbrev pub refresh_failed : WebRequest → BffSession → Bool → S → S × SetCookie × Passage
  refresh_failed req current false s = (s, keep_cookie, bearer current.access_token)
  refresh_failed req current true s = ended (destroy st req.session_cookie s)

  -- The end of `refreshAccessToken`, with what the caller makes of its result.
  abbrev pub rotated :
      WebRequest → BffSession → BffSession → Bool → S × Option SetCookie → S × SetCookie × Passage
  rotated req current updated expired (s, some cookie) = (s, cookie, bearer updated.access_token)
  rotated req current updated expired (s, none) = refresh_failed req current expired s

  unfoldable pub refresh_access_token :
      (String → Option RefreshedTokens)
      → WebRequest
      → BffSession
      → Bool
      → Option String
      → ℕ
      → S
      → S × SetCookie × Passage
  refresh_access_token refresh req current expired id now s = elim (refresh current.refresh_token) [
    | none ↦ refresh_failed req current expired s
    | some given ↦
        rotated req current (renewed current given) expired
          (rotate st req.session_cookie id (renewed current given) now s)
  ]

  -- The tokens of a session are refreshed if they can be and if the access token expires within the
  -- threshold, which one that has expired does too.
  unfoldable pub forward_current :
      Option (String → Option RefreshedTokens)
      → WebRequest
      → BffSession
      → Option String
      → ℕ
      → S
      → S × SetCookie × Passage
  forward_current none req current id now s = (s, keep_cookie, bearer current.access_token)
  forward_current (some refresh) req current id now s =
      if not (current.refresh_token == "")
        && expired_by (now + token_refresh_threshold) current.access_token_expiry
      then refresh_access_token refresh req current (expired_by now current.access_token_expiry) id
          now s
      else (s, keep_cookie, bearer current.access_token)

  abbrev pub forward_loaded :
      Option (String → Option RefreshedTokens)
      → WebRequest
      → Option String
      → ℕ
      → S × Option (Option BffSession)
      → S × SetCookie × Passage
  forward_loaded refresh req id now (s, none) = (s, keep_cookie, internal_error)
  forward_loaded refresh req id now (s, some none) = (s, keep_cookie, json_error 401 "unauthorized")
  forward_loaded refresh req id now (s, some (some current)) =
      if trim_space current.access_token == ""
      then (s, keep_cookie, json_error 401 "unauthorized")
      else forward_current refresh req current id now s

  -- `TokenForwarder`; `id` is what a rotation of the session draws.
  unfoldable pub token_forwarder :
      Option (String → Option RefreshedTokens)
      → WebRequest
      → Option String
      → ℕ
      → S
      → S × SetCookie × Passage
  token_forwarder refresh req id now s =
      if not (is_api deps req.path)
      then (s, keep_cookie, passed none)
      else if has_prefix (trim_space req.authorization) "Bearer "
      then (s, keep_cookie, passed none)
      else forward_loaded refresh req id now (get_session st req.session_cookie now s)
