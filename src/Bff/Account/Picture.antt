-- ===== src/Bff/Account/Picture.antt =====
-- Where the access token goes for an avatar.
use oidc_oauth2_idp.Prelude.{
  Bool-cases, Option, String, arith, inl, inr, none, refl, some, sym, text_cases, true, ℕ, ◌=ℕ◌,
  ◌∙◌, ◌≡◌, ◌≢◌,
}
use oidc_oauth2_idp.Idp.External.{HttpResponse, Url}
use oidc_oauth2_idp.Bff.Store.{BffSession, Store}
use oidc_oauth2_idp.Bff.Account.{
  AccountServices, AvatarAnswer, UserClaims, after_load_lem, avatar, avatar_bearer, avatar_loaded,
  avatar_of_claims, avatar_of_response, avatar_sent, fetch_avatar, is_web_url,
  parse_id_token_claims,
}
use oidc_oauth2_idp.Bff.Manager.{get_session}

module _ (services : AccountServices) where
  -- The picture that a session's ID token names, by its URL, which is of the web.
  abbrev pub HasPicture : BffSession → Url → Type 0
  HasPicture current url =
      (claims : UserClaims) × (parse_id_token_claims services current.id_token ≡ some claims)
      × (claims.picture ≢ "")
      × (services.parse_url_text claims.picture ≡ some url)
      × (is_web_url url ≡ true)

  -- An answer that passes on the content of a response with the status 200, which the server of a session's
  -- picture gave to a request to the picture's URL that carries the session's access token if it has one.
  abbrev pub IsPassedOn : BffSession → AvatarAnswer → Type 0
  IsPassedOn current answer =
      (url : Url) × (response : HttpResponse) × HasPicture current url
      × (services.get_with (services.url_text url) (avatar_bearer current) ≡ some response)
      × (response.status ≡ 200)
      × (answer ≡ avatar_sent response.content_type response.cache_control response.body)

  avatar_of_response_lem :
      (r : Option HttpResponse) (content_type cache_control : String) (body : Option String)
      → avatar_of_response services r ≡ avatar_sent content_type cache_control body
      → (response : HttpResponse) × (r ≡ some response)
        × (response.status ≡ 200)
        × (avatar_sent content_type cache_control body
            ≡ avatar_sent response.content_type response.cache_control response.body)
  avatar_of_response_lem none content_type cache_control body e = cc
  avatar_of_response_lem (some response) content_type cache_control body e =
      elim (Bool-cases (response.status =ℕ 200)) [
        | inl t ↦ (response, refl, ground arith, sym (rw t at e))
        | inr t ↦ cc (rw t at e)
      ]

  fetch_avatar_lem :
      (current : BffSession) (o : Option Url) (content_type cache_control : String)
      (body : Option String)
      → fetch_avatar services current o ≡ avatar_sent content_type cache_control body
      → (url : Url) × (o ≡ some url)
        × (is_web_url url ≡ true)
        × (avatar_of_response services
              (services.get_with (services.url_text url) (avatar_bearer current))
            ≡ avatar_sent content_type cache_control body)
  fetch_avatar_lem current none content_type cache_control body e = cc
  fetch_avatar_lem current (some url) content_type cache_control body e =
      elim (Bool-cases (is_web_url url)) [
        | inr f ↦ cc (rw f at e)
        | inl t ↦ elim (Bool-cases (services.can_request (services.url_text url))) [
          | inr f ↦ cc (rw (t, f) at e)
          | inl k ↦ (url, refl, t, rw (t, k) at e)
        ]
      ]

  avatar_of_claims_lem :
      (current : BffSession) (o : Option UserClaims) (content_type cache_control : String)
      (body : Option String)
      → avatar_of_claims services current o ≡ avatar_sent content_type cache_control body
      → (claims : UserClaims) × (o ≡ some claims)
        × (claims.picture ≢ "")
        × (fetch_avatar services current (services.parse_url_text claims.picture)
            ≡ avatar_sent content_type cache_control body)
  avatar_of_claims_lem current none content_type cache_control body e = cc
  avatar_of_claims_lem current (some claims) content_type cache_control body e =
      elim (text_cases claims.picture "") [
        | inl (_, t) ↦ cc (rw t at e)
        | inr (n, t) ↦ (claims, refl, n, rw t at e)
      ]

  avatar_loaded_lem :
      (loaded : Option (Option BffSession)) (content_type cache_control : String)
      (body : Option String)
      → avatar_loaded services loaded ≡ avatar_sent content_type cache_control body
      → (current : BffSession) × (loaded ≡ some (some current))
        × IsPassedOn current (avatar_sent content_type cache_control body)
  avatar_loaded_lem none content_type cache_control body e = cc
  avatar_loaded_lem (some none) content_type cache_control body e = cc
  avatar_loaded_lem (some (some current)) content_type cache_control body e =
      let (claims, read, n, fetching) =
        avatar_of_claims_lem current (parse_id_token_claims services current.id_token) content_type
          cache_control body e in
      let (url, parsed, web, answered) =
        fetch_avatar_lem current (services.parse_url_text claims.picture) content_type cache_control
          body fetching in
      let (response, given, fine, same) =
        avatar_of_response_lem (services.get_with (services.url_text url) (avatar_bearer current))
          content_type cache_control body answered in
      (current, refl, (url, response, (claims, read, n, parsed, web), given, fine, same))

  -- An avatar is shown only to a request with a session behind its cookie. It is what the server of the
  -- picture that the session's ID token names, over http or https, answered with the status 200; and the
  -- session's access token, if there is one, was sent there, whichever host that is.
  pub avatar-IsPassedOn :
      {S : Type 0} (st : Store S) (cookie : Option String) (now : ℕ) (s : S)
      (content_type cache_control : String) (body : Option String)
      → (avatar services st cookie now s).1 ≡ avatar_sent content_type cache_control body
      → (current : BffSession) × ((get_session st cookie now s).1 ≡ some (some current))
        × IsPassedOn current (avatar_sent content_type cache_control body)
  unfolding avatar
  avatar-IsPassedOn st cookie now s content_type cache_control body e =
      avatar_loaded_lem (get_session st cookie now s).1 content_type cache_control body (
        sym (after_load_lem services st (avatar_loaded services) (get_session st cookie now s)) ∙ e)
