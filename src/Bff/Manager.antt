-- ===== src/Bff/Manager.antt =====
-- The session manager: bff/internal/session/manager.go, over any store.
pub mod Cookies
use oidc_oauth2_idp.Prelude.{
  Bool, Option, String, false, if◌then◌else◌, none, some, true, ℕ, ◌*◌, ◌==◌,
}
use oidc_oauth2_idp.Prelude.Text.{trim_space}
use oidc_oauth2_idp.Idp.State.{second}
use oidc_oauth2_idp.Bff.Store.{BffSession, Store}

abbrev pub session_ttl : ℕ
session_ttl = 86400 * second

-- The session cookie that a response sets: a token, or nothing any more.
pub data SetCookie : Type 0 where
  keep_cookie : SetCookie
  set_cookie : String → SetCookie
  clear_cookie : SetCookie

module _ {S : Type 0} (st : Store S) where
  abbrev pub cookie_of : S × Option String → S × Option SetCookie
  cookie_of (s, none) = (s, none)
  cookie_of (s, some token) = (s, some (set_cookie token))

  -- `Create`; `none` is an error.
  unfoldable pub create : Option String → BffSession → ℕ → S → S × Option SetCookie
  create id sess now s = cookie_of (st.save id sess session_ttl now s)

  -- `Get`, from the value of the session cookie, which is `none` if the request has no such cookie.
  unfoldable pub get_session : Option String → ℕ → S → S × Option (Option BffSession)
  get_session none now s = (s, some none)
  get_session (some value) now s =
      let token = trim_space value in
      let loaded = st.load token now s in if token == "" then (s, some none) else loaded

  -- The deletion that `Rotate` starts with, whose error is dropped.
  unfoldable pub drop_session : Option String → S → S × Bool
  drop_session none s = (s, true)
  drop_session (some value) s =
      let removed = st.remove value s in if trim_space value == "" then (s, true) else removed

  unfoldable pub rotate : Option String → Option String → BffSession → ℕ → S → S × Option SetCookie
  rotate cookie id sess now s = create id sess now (drop_session cookie s).0

  abbrev pub cleared : S × Bool → S × Option SetCookie
  cleared (s, true) = (s, some clear_cookie)
  cleared (s, false) = (s, none)

  -- `Destroy`; `none` is an error.
  unfoldable pub destroy : Option String → S → S × Option SetCookie
  destroy cookie s = cleared (drop_session cookie s)
