-- ===== src/Idp/Avatars.antt =====
-- The avatars of idp-auth-server/main.go: `avatar` and `internalAvatar`, up to the name of the file that is
-- served.
use oidc_oauth2_idp.Prelude.{
  Bool, Bool-cases, List, Option, String, [], if◌then◌else◌, inl, inr, none, not, refl, some, sym,
  text_cases, true, ℕ, ◌==◌, ◌=ℕ◌, ◌∙◌, ◌∷◌, ◌≡◌,
}
use oidc_oauth2_idp.Prelude.Text.{split, trim_right_by, ◌⧺◌}
use oidc_oauth2_idp.Idp.State.{Claims, ClientSession, Config, Request, Server, Session, text_claim}
use oidc_oauth2_idp.Idp.External.{External}
use oidc_oauth2_idp.Idp.Sessions.{session_by_client_session_id}
use oidc_oauth2_idp.Idp.Claims.{avatar_index, digit, extract_access_token}
use Prim.Native.Char.{code}

abbrev last_or : String → List String → String
last_or s [] = s
last_or s (t ∷ ts) = last_or t ts

-- `filepath.Base`.
unfoldable pub path_base : String → String
path_base s =
    let trimmed = trim_right_by (λ c. code c =ℕ b'/') s in
    if s == "" then "." else if trimmed == "" then "/" else last_or "" (split b'/' trimmed)

pub data AvatarResponse : Type 0 where
  avatar_not_found : AvatarResponse
  avatar_refused : (status : ℕ) → AvatarResponse
  avatar_file : (name : String) → AvatarResponse

-- Only the avatar of the session's user is served.
abbrev own_avatar : String → Option (String × Session × ClientSession) → AvatarResponse
own_avatar name none = avatar_refused 401
own_avatar name (some (cookie_id, sess, cs)) =
    if name == digit (avatar_index sess.username) ⧺ ".svg"
    then avatar_file name
    else avatar_refused 403

module _ (x : External) (cfg : Config) where
  abbrev avatar_of_token : String → Server → Option Claims → AvatarResponse
  avatar_of_token name s none = avatar_refused 401
  avatar_of_token name s (some claims) =
      own_avatar name (session_by_client_session_id (text_claim claims "csid") s.sessions)

  -- `avatar`; the flag is `protectPictureURL`.
  unfoldable pub serve_avatar : Bool → Request → String → Server → AvatarResponse
  serve_avatar protect req path s =
      if not (req.method == "GET")
      then avatar_not_found
      else if protect
      then avatar_of_token (path_base path) s (extract_access_token x cfg req)
      else avatar_file (path_base path)

  own_avatar_lem :
      (name file : String) (o : Option (String × Session × ClientSession))
      → own_avatar name o ≡ avatar_file file
      → (cookie_id : String) × (sess : Session) × (cs : ClientSession) × (o
          ≡ some (cookie_id, sess, cs))
        × (file ≡ digit (avatar_index sess.username) ⧺ ".svg")
  own_avatar_lem name file none e = cc
  own_avatar_lem name file (some (cookie_id, sess, cs)) e =
      elim (text_cases name (digit (avatar_index sess.username) ⧺ ".svg")) [
        | inr (_, t) ↦ cc (rw t at e)
        | inl (same, t) ↦ (cookie_id, sess, cs, refl, sym (file_injective (rw t at e)) ∙ same)
      ]
    where
      file_injective : {a b : String} → avatar_file a ≡ avatar_file b → a ≡ b
      file_injective e = cc

  avatar_of_token_lem :
      (name file : String) (s : Server) (o : Option Claims)
      → avatar_of_token name s o ≡ avatar_file file
      → (claims : Claims) × (o ≡ some claims)
        × (own_avatar name (session_by_client_session_id (text_claim claims "csid") s.sessions)
            ≡ avatar_file file)
  avatar_of_token_lem name file s none e = cc
  avatar_of_token_lem name file s (some claims) e = (claims, refl, e)

  -- While pictures are protected, /avatars/ serves only the avatar of the user of a session that has not
  -- ended, to a request with an access token whose "csid" names a client session there.
  pub serve_avatar-own :
      (req : Request) (path file : String) (s : Server)
      → serve_avatar true req path s ≡ avatar_file file
      → (claims : Claims) × (cookie_id : String) × (sess : Session) × (cs : ClientSession)
        × (extract_access_token x cfg req ≡ some claims)
        × (session_by_client_session_id (text_claim claims "csid") s.sessions
            ≡ some (cookie_id, sess, cs))
        × (file ≡ digit (avatar_index sess.username) ⧺ ".svg")
  unfolding serve_avatar
  serve_avatar-own req path file s e = elim (Bool-cases (req.method == "GET")) [
    | inr f ↦ cc (rw (f, serve_avatar) at e)
    | inl t ↦
        let (claims, extracted, e2) =
          avatar_of_token_lem (path_base path) file s (extract_access_token x cfg req)
            (rw (t, serve_avatar) at e) in
        let (cookie_id, sess, cs, found, own) =
          own_avatar_lem (path_base path) file
            (session_by_client_session_id (text_claim claims "csid") s.sessions) e2 in
        (claims, cookie_id, sess, cs, extracted, found, own)
  ]

-- `internalAvatar`: /internal/avatars/ serves any avatar without a token, also while pictures are protected.
unfoldable pub serve_internal_avatar : String → String → AvatarResponse
serve_internal_avatar method path =
    if not (method == "GET") then avatar_not_found else avatar_file (path_base path)
