-- ===== src/Bff/Account.antt =====
-- The handlers of bff/internal/handler/auth.go around a session: `Login`, `Logout`, `Me` and `Avatar`, with
-- `ParseIDTokenClaims` of bff/internal/session/session.go. Of the cookies only the values are kept, and
-- the log is left out.
pub mod Welcome
pub mod Gone
pub mod Picture
use oidc_oauth2_idp.Prelude.{
  Bool, Option, String, [], if◌then◌else◌, none, not, refl, some, ℕ, ◌&&◌, ◌++◌, ◌==◌, ◌=ℕ◌, ◌||◌,
  ◌∷◌, ◌≡◌,
}
use oidc_oauth2_idp.Prelude.Text.{cut, ◌⧺◌}
use oidc_oauth2_idp.Prelude.Dict.{Dict}
use oidc_oauth2_idp.Idp.External.{HttpResponse, Url}
use oidc_oauth2_idp.Bff.Store.{BffSession, Store}
use oidc_oauth2_idp.Bff.Manager.{SetCookie, destroy, get_session}

pub record UserClaims : Type 0 where
  pub subject : String
  pub full_name : String
  pub email_address : String
  pub picture : String

-- What the handlers take from outside the repository: base64url and JSON of a token's payload, URLs as
-- the identity provider's model has them, and a GET with an Authorization header or none.
pub record AccountServices : Type 0 where
  pub decode_base64url : String → Option String
  pub unmarshal_claims : String → Option UserClaims
  pub parse_url_text : String → Option Url
  pub set_in_query : Url → Dict String → String
  pub url_text : Url → String
  pub can_request : String → Bool
  pub get_with : String → Option String → Option HttpResponse

-- The cookies that `Login` sets, and where it redirects to.
pub record LoginRedirect : Type 0 where
  pub set_state_cookie : String
  pub set_verifier_cookie : String
  pub location : String

-- `Login`; the state and the verifier are drawn.
unfoldable pub start_login : (String → String → String) → String → String → LoginRedirect
start_login auth_code_url state verifier = record {
  set_state_cookie = state;
  set_verifier_cookie = verifier;
  location = auth_code_url state verifier;
}

pub data LogoutAnswer : Type 0 where
  logout_failed : LogoutAnswer
  logged_out_to : (redirect_to : String) (session_cookie : SetCookie) → LogoutAnswer

pub data MeAnswer : Type 0 where
  me_error : (status : ℕ) (text : String) → MeAnswer
  me_claims : UserClaims → MeAnswer

-- An avatar is answered with what the picture's server sent, to which the request that is given went.
pub data AvatarAnswer : Type 0 where
  avatar_error : (status : ℕ) (text : String) → AvatarAnswer
  avatar_sent : (content_type cache_control : String) (body : Option String) → AvatarAnswer

abbrev pub avatar_bearer : BffSession → Option String
avatar_bearer current =
    if current.access_token == "" then none else some ("Bearer " ⧺ current.access_token)

-- The parts of a picture's URL that are looked at.
abbrev pub is_web_url : Url → Bool
is_web_url url = (url.scheme == "http" || url.scheme == "https") && not (url.host == "")

module _ (services : AccountServices) where
  abbrev payload_claims : Option (String × String) → Option UserClaims
  payload_claims none = none
  payload_claims (some (payload, signature)) = elim (services.decode_base64url payload) [
    | none ↦ none
    | some text ↦ services.unmarshal_claims text
  ]

  -- `ParseIDTokenClaims`: what stands between the first two dots.
  unfoldable pub parse_id_token_claims : String → Option UserClaims
  parse_id_token_claims raw = elim (cut b'.' raw) [
    | none ↦ none
    | some (header, rest) ↦ payload_claims (cut b'.' rest)
  ]

  unfoldable pub append_id_token_hint : String → String → String
  append_id_token_hint base_url hint = elim (services.parse_url_text base_url) [
    | none ↦ base_url
    | some url ↦ services.set_in_query url (("id_token_hint", hint) ∷ [])
  ]

  abbrev unless_empty : String → String → Dict String
  unless_empty key value = if value == "" then [] else (key, value) ∷ []

  -- `BuildEndSessionURL`.
  unfoldable pub build_end_session_url : String → String → String → String
  build_end_session_url base_url post_logout_redirect_uri hint =
      if base_url == "" then base_url else elim (services.parse_url_text base_url) [
        | none ↦ base_url
        | some url ↦ services.set_in_query url (
            unless_empty "post_logout_redirect_uri" post_logout_redirect_uri
            ++ unless_empty "id_token_hint" hint)
      ]

  abbrev hinted : String → Option (Option BffSession) → String
  hinted end_session_endpoint (some (some current)) =
      if current.id_token == ""
      then end_session_endpoint
      else append_id_token_hint end_session_endpoint current.id_token
  hinted end_session_endpoint (some none) = end_session_endpoint
  hinted end_session_endpoint none = end_session_endpoint

  -- Where `Logout` sends the browser.
  unfoldable pub logout_url : String → Option (Option BffSession) → String
  logout_url end_session_endpoint loaded =
      if end_session_endpoint == "" then "/login" else hinted end_session_endpoint loaded

  abbrev pub me_of : Option UserClaims → MeAnswer
  me_of none = me_error 500 "internal server error"
  me_of (some claims) =
      me_claims (record claims {
        picture = if claims.picture == "" then claims.picture else "/auth/avatar";
      })

  abbrev pub me_loaded : Option (Option BffSession) → MeAnswer
  me_loaded none = me_error 500 "internal server error"
  me_loaded (some none) = me_error 401 "unauthorized"
  me_loaded (some (some current)) = me_of (parse_id_token_claims current.id_token)

  abbrev bad_gateway : AvatarAnswer
  bad_gateway = avatar_error 502 "bad gateway"

  abbrev pub avatar_of_response : Option HttpResponse → AvatarAnswer
  avatar_of_response none = bad_gateway
  avatar_of_response (some response) =
      if response.status =ℕ 200
      then avatar_sent response.content_type response.cache_control response.body
      else bad_gateway

  abbrev pub fetch_avatar : BffSession → Option Url → AvatarAnswer
  fetch_avatar current none = bad_gateway
  fetch_avatar current (some url) =
      if not (is_web_url url)
      then bad_gateway
      else if not (services.can_request (services.url_text url))
      then bad_gateway
      else avatar_of_response (services.get_with (services.url_text url) (avatar_bearer current))

  abbrev pub avatar_of_claims : BffSession → Option UserClaims → AvatarAnswer
  avatar_of_claims current none = avatar_error 404 "not found"
  avatar_of_claims current (some claims) =
      if claims.picture == ""
      then avatar_error 404 "not found"
      else fetch_avatar current (services.parse_url_text claims.picture)

  abbrev pub avatar_loaded : Option (Option BffSession) → AvatarAnswer
  avatar_loaded none = avatar_error 500 "internal server error"
  avatar_loaded (some none) = avatar_error 401 "unauthorized"
  avatar_loaded (some (some current)) =
      avatar_of_claims current (parse_id_token_claims current.id_token)

  module _ {S : Type 0} (st : Store S) where
    abbrev pub destroyed :
        String → Option (Option BffSession) → S × Option SetCookie → S × LogoutAnswer
    destroyed end_session_endpoint loaded (s, none) = (s, logout_failed)
    destroyed end_session_endpoint loaded (s, some cookie) =
        (s, logged_out_to (logout_url end_session_endpoint loaded) cookie)

    abbrev pub logout_loaded :
        String → Option String → S × Option (Option BffSession) → S × LogoutAnswer
    logout_loaded end_session_endpoint cookie (s, loaded) =
        destroyed end_session_endpoint loaded (destroy st cookie s)

    -- `Logout`: the session is destroyed whether or not it could be loaded.
    unfoldable pub logout_session : String → Option String → ℕ → S → S × LogoutAnswer
    logout_session end_session_endpoint cookie now s =
        logout_loaded end_session_endpoint cookie (get_session st cookie now s)

    abbrev pub after_load :
        {A : Type 0} → (Option (Option BffSession) → A) → S × Option (Option BffSession) → S × A
    after_load f (s, loaded) = (s, f loaded)

    -- `Me`.
    unfoldable pub me : Option String → ℕ → S → S × MeAnswer
    me cookie now s = after_load me_loaded (get_session st cookie now s)

    -- `Avatar`.
    unfoldable pub avatar : Option String → ℕ → S → S × AvatarAnswer
    avatar cookie now s = after_load avatar_loaded (get_session st cookie now s)

    pub after_load_lem :
        {A : Type 0} (f : Option (Option BffSession) → A) (r : S × Option (Option BffSession))
        → (after_load f r).1 ≡ f r.1
    after_load_lem f (s, loaded) = refl
