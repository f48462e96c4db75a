-- ===== src/Idp/Userinfo.antt =====
-- /userinfo, /endsession, /endsession-approve and /logout of idp-auth-server/main.go.
pub mod Released
use oidc_oauth2_idp.Prelude.{
  Bool, List, Option, String, [], contains, if◌then◌else◌, none, not, some, true, ◌&&◌, ◌==◌, ◌∷◌,
}
use oidc_oauth2_idp.Prelude.Dict.{Dict, delete, insert, lookup}
use oidc_oauth2_idp.Idp.State.{
  Claims, ClientSession, Config, Request, Response, Server, Session, bearer_error, bool,
  endsession_page, error_page, form_get, not_found, redirect, str, text_claim, user_claims,
}
use oidc_oauth2_idp.Idp.External.{External}
use oidc_oauth2_idp.Idp.Scope.{has_scope}
use oidc_oauth2_idp.Idp.Sessions.{session_by_advertised_sub, session_by_client_session_id}
use oidc_oauth2_idp.Idp.Claims.{
  capitalize, decode_jwt, email_for_username, extract_access_token, picture_url,
}

-- Claims that describe the ID token rather than the user.
abbrev pub id_token_only_claims : List String
id_token_only_claims =
    "iss" ∷ "aud" ∷ "azp" ∷ "exp" ∷ "iat" ∷ "nbf" ∷ "jti" ∷ "nonce" ∷ "auth_time" ∷ "at_hash"
    ∷ "c_hash" ∷ "acr" ∷ "amr" ∷ []

-- The scope under which a standard claim is released.
abbrev pub claim_scopes : Dict String
claim_scopes =
    ("name", "profile")
    ∷ ("preferred_username", "profile")
    ∷ ("picture", "profile")
    ∷ ("email", "email")
    ∷ ("email_verified", "email")
    ∷ []

-- Whether the loop of `userinfo` copies a claim.
unfoldable pub releases : String → String → Bool
releases scope name =
    not (contains id_token_only_claims name)
    && not (name == "sub")
    && elim (lookup name claim_scopes) [ none ↦ true | some needed ↦ has_scope scope needed ]

-- The loop over the issued ID token's claims.
unfoldable pub mirror : String → Claims → Claims → Claims
mirror scope [] out = out
mirror scope ((name, value) ∷ issued) out =
    mirror scope issued (if releases scope name then insert name value out else out)

module _ (x : External) (cfg : Config) where
  -- Without an issued ID token the claims follow from the login.
  unfoldable pub derived_claims : String → String → Claims → Claims
  derived_claims scope username out =
      let with_profile : Claims =
        if not (username == "") && has_scope scope "profile"
        then insert "picture" (str (picture_url x cfg username)) (
            insert "name" (str (capitalize x cfg username))
              (insert "preferred_username" (str username) out))
        else out in
      if not (username == "") && has_scope scope "email"
      then insert "email_verified" (bool true)
          (insert "email" (str (email_for_username x cfg username)) with_profile)
      else with_profile

  -- The claims that are returned for a client session, as it is found.
  unfoldable pub released_claims :
      String → Claims → Option (String × Session × ClientSession) → Claims
  released_claims scope out none = derived_claims scope "" out
  released_claims scope out (some (cookie_id, sess, cs)) = elim cs.id_token_claims [
    | some issued ↦ mirror scope issued out
    | none ↦ derived_claims scope sess.username out
  ]

  unfoldable pub userinfo : Request → Server → Response
  userinfo req s =
      if not (req.method == "GET") && not (req.method == "POST")
      then not_found
      else elim (extract_access_token x cfg req) [
        | none ↦ bearer_error 401 "invalid_token"
        | some claims ↦ user_claims (
            released_claims (text_claim claims "scope")
              (("sub", str (text_claim claims "sub")) ∷ [])
              (session_by_client_session_id (text_claim claims "csid") s.sessions))
      ]

  unfoldable pub endsession : Request → Server → Response
  endsession req s =
      if not (req.method == "GET") && not (req.method == "POST")
      then not_found
      else elim (decode_jwt x cfg (form_get req "id_token_hint")) [
        | none ↦ error_page 200 "ID token not for us"
        | some claims ↦
            let key = session_by_advertised_sub (text_claim claims "sub") s.sessions in
            let redir_url = form_get req "post_logout_redirect_uri" in
            if key == "" then error_page 200 "Error logging out" else elim (lookup key s.sessions) [
              | none ↦ endsession_page key "" redir_url
              | some sess ↦ endsession_page key sess.username redir_url
            ]
      ]

  unfoldable pub endsession_approve : Request → Server → Server × Response
  endsession_approve req s =
      if not (req.method == "GET") && not (req.method == "POST") then (s, not_found) else (
        record s { sessions = delete (form_get req "sessionid") s.sessions },
        redirect none (form_get req "redirurl"),
      )

  unfoldable pub logout : Request → Server → Server × Response
  logout req s = if not (req.method == "POST") then (s, not_found) else (
    record s { sessions = delete (form_get req "cookieid") s.sessions },
    redirect none cfg.external_url,
  )
