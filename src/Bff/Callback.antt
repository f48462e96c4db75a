-- ===== src/Bff/Callback.antt =====
-- The callback of a login: `Callback` and `readClaims` of bff/internal/handler/auth.go, over any session
-- store. The cookies of the login that it clears are left out.
pub mod Accepted
use oidc_oauth2_idp.Prelude.{
  Bool, Option, String, false, if◌then◌else◌, none, not, or_empty, some, true, ℕ, ◌&&◌, ◌==◌,
}
use oidc_oauth2_idp.Bff.StateClaims.{StateClaims, claim}
use oidc_oauth2_idp.Bff.Store.{BffSession, Store}
use oidc_oauth2_idp.Bff.Manager.{SetCookie, create}

-- What the handler reads of the request; a query parameter that is absent is the empty text.
pub record CallbackRequest : Type 0 where
  pub state_cookie : Option String
  pub verifier_cookie : Option String
  pub state_param : String
  pub code_param : String

-- What the code exchange gives; an absent ID token is the empty text.
pub record TokenSet : Type 0 where
  pub set_access_token : String
  pub set_refresh_token : String
  pub raw_id_token : String
  pub set_expiry : Option ℕ

-- The functions of `Dependencies` that the handler calls. `verify_id_token` may be nil; it returns the
-- subject.
pub record LoginServices : Type 0 where
  pub exchange_code : String → String → Option TokenSet
  pub verify_id_token : Option (String → Option String)

pub data CallbackResponse : Type 0 where
  unauthorized : CallbackResponse
  callback_failed : CallbackResponse
  -- The redirect to "/", with the session cookie and the CSRF cookie that are set.
  welcome : (session_cookie : SetCookie) (csrf : String) → CallbackResponse

abbrev pub is_state : Option String → String → Bool
is_state none given = false
is_state (some value) given = not (given == "") && value == given

unfoldable pub read_claims : LoginServices → TokenSet → Option String
read_claims services set = elim services.verify_id_token [
  | none ↦ none
  | some verify ↦ verify set.raw_id_token
]

abbrev pub session_of : TokenSet → String → BffSession
session_of set csrf = record {
  access_token = set.set_access_token;
  refresh_token = set.set_refresh_token;
  id_token = set.raw_id_token;
  csrf_token = csrf;
  access_token_expiry = set.set_expiry;
}

module _ {S : Type 0} (st : Store S) (services : LoginServices) where
  abbrev pub created :
      StateClaims → String → S × Option SetCookie → S × StateClaims × CallbackResponse
  created c csrf (s, none) = (s, c, callback_failed)
  created c csrf (s, some cookie) = (s, c, welcome cookie csrf)

  -- What follows once the state is claimed. `id` and `csrf` are drawn.
  unfoldable pub exchanged_code :
      CallbackRequest
      → Option String
      → String
      → ℕ
      → StateClaims
      → S
      → S × StateClaims × CallbackResponse
  exchanged_code req id csrf now c s =
      elim (services.exchange_code req.code_param (or_empty req.verifier_cookie)) [
        | none ↦ (s, c, unauthorized)
        | some set ↦ elim (read_claims services set) [
          | none ↦ (s, c, unauthorized)
          | some sub ↦ created c csrf (create st id (session_of set csrf) now s)
        ]
      ]

  abbrev pub if_claimed :
      CallbackRequest
      → Option String
      → String
      → ℕ
      → S
      → StateClaims × Bool
      → S × StateClaims × CallbackResponse
  if_claimed req id csrf now s (c, false) = (s, c, unauthorized)
  if_claimed req id csrf now s (c, true) = exchanged_code req id csrf now c s

  unfoldable pub callback :
      CallbackRequest
      → Option String
      → String
      → ℕ
      → StateClaims
      → S
      → S × StateClaims × CallbackResponse
  callback req id csrf now c s =
      if not (is_state req.state_cookie req.state_param)
      then (s, c, unauthorized)
      else if or_empty req.verifier_cookie == ""
      then (s, c, unauthorized)
      else if req.code_param == ""
      then (s, c, unauthorized)
      else if_claimed req id csrf now s (claim (or_empty req.state_cookie) now c)
