-- ===== src/Idp/Sessions.antt =====
-- Browser sessions and the client sessions in them: the lookups and updates of
-- idp-auth-server/main.go, with the subject that a client is told.
-- A Go slice of client sessions is shared by the copies of its session; every update here is stored
-- back by its caller, so the list that comes out stands for the shared slice.
pub mod Updates
pub mod Found
use oidc_oauth2_idp.Prelude.{
  Bool, List, Option, String, [], false, if◌then◌else◌, none, some, true, ◌==◌, ◌∷◌,
}
use oidc_oauth2_idp.Prelude.Dict.{Dict}
use oidc_oauth2_idp.Prelude.Text.{nul_text, ◌⧺◌}
use oidc_oauth2_idp.Idp.State.{ClientSession, Config, Session}
use oidc_oauth2_idp.Idp.External.{External}

-- The loop of `getSessionBySubLocked`.
unfoldable pub session_by_sub : String → Dict Session → Option Session
session_by_sub sub [] = none
session_by_sub sub ((k, sess) ∷ rest) =
    if sess.sub == sub then some sess else session_by_sub sub rest

-- The inner loop of `getSessionByAdvertisedSubLocked`.
unfoldable pub has_advertised_sub : String → List ClientSession → Bool
has_advertised_sub sub [] = false
has_advertised_sub sub (cs ∷ rest) =
    if cs.advertised_sub == sub then true else has_advertised_sub sub rest

-- `getSessionByAdvertisedSubLocked`; no session is the empty text.
unfoldable pub session_by_advertised_sub : String → Dict Session → String
session_by_advertised_sub sub [] = ""
session_by_advertised_sub sub ((cookie_id, sess) ∷ rest) =
    if has_advertised_sub sub sess.client_sessions
    then cookie_id
    else session_by_advertised_sub sub rest

-- The inner loop of `getSessionByClientSessionIDLocked`.
unfoldable pub client_session_by_session_id : String → List ClientSession → Option ClientSession
client_session_by_session_id cs_id [] = none
client_session_by_session_id cs_id (cs ∷ rest) =
    if cs.session_id == cs_id then some cs else client_session_by_session_id cs_id rest

unfoldable pub find_client_session :
    String → Dict Session → Option (String × Session × ClientSession)
find_client_session cs_id [] = none
find_client_session cs_id ((cookie_id, sess) ∷ rest) =
    elim (client_session_by_session_id cs_id sess.client_sessions) [
      | some cs ↦ some (cookie_id, sess, cs)
      | none ↦ find_client_session cs_id rest
    ]

-- `getSessionByClientSessionIDLocked`.
unfoldable pub session_by_client_session_id :
    String → Dict Session → Option (String × Session × ClientSession)
unfolding find_client_session
session_by_client_session_id cs_id sessions =
    if cs_id == "" then none else find_client_session cs_id sessions

unfoldable pub client_session_by_id : List ClientSession → String → Option ClientSession
client_session_by_id [] client_id = none
client_session_by_id (cs ∷ rest) client_id =
    if cs.client_id == client_id then some cs else client_session_by_id rest client_id

-- `getClientSessionByID`.
unfoldable pub get_client_session_by_id : Session → String → Option ClientSession
unfolding client_session_by_id
get_client_session_by_id sess client_id = client_session_by_id sess.client_sessions client_id

unfoldable pub upsert_client_session : List ClientSession → ClientSession → List ClientSession
upsert_client_session [] cs = cs ∷ []
upsert_client_session (c ∷ rest) cs =
    if c.client_id == cs.client_id then cs ∷ rest else c ∷ upsert_client_session rest cs

-- A loop that changes the first client session that passes a test, and breaks.
unfoldable pub update_first :
    (ClientSession → Bool)
    → (ClientSession → ClientSession)
    → List ClientSession
    → List ClientSession
update_first p f [] = []
update_first p f (c ∷ rest) = if p c then f c ∷ rest else c ∷ update_first p f rest

unfoldable pub update_client_session_pkce : Session → String → String → String → Session
unfolding update_first
update_client_session_pkce sess client_id challenge challenge_method = record sess {
  client_sessions =
      update_first (λ c. c.client_id == client_id)
        (λ c. record c { code_challenge = challenge; code_challenge_method = challenge_method })
        sess.client_sessions;
}

unfoldable pub update_client_session_redirect_uri : Session → String → String → Session
unfolding update_first
update_client_session_redirect_uri sess client_id uri = record sess {
  client_sessions =
      update_first (λ c. c.client_id == client_id) (λ c. record c { redirect_uri = uri })
        sess.client_sessions;
}

module _ (x : External) (cfg : Config) where
  open x use {parse_url, hmac_base64url}

  -- The host of a redirect URI, or the client's identifier.
  unfoldable pub sector_identifier : String → String → String
  sector_identifier uri client_id = elim (parse_url uri) [
    | none ↦ client_id
    | some u ↦ if u.host == "" then client_id else u.host
  ]

  unfoldable pub compute_advertised_sub : String → String → String
  compute_advertised_sub sub sector_id =
      if cfg.subject_type == "pairwise"
      then hmac_base64url cfg.pairwise_salt (sector_id ⧺ nul_text ⧺ sub)
      else sub
