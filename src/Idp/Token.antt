-- ===== src/Idp/Token.antt =====
-- /token of idp-auth-server/main.go: the two grants, the client authentication that follows them and
-- the tokens that are issued.
pub mod Code
pub mod Issue
pub mod Refresh
pub mod Redeem
use oidc_oauth2_idp.Prelude.{
  Bool, List, Option, String, [], false, if◌then◌else◌, ltb, none, not, some, true, ℕ, ◌%◌, ◌*◌,
  ◌+◌, ◌-◌, ◌==◌, ◌∷◌,
}
use oidc_oauth2_idp.Prelude.Dict.{Dict, delete, insert, lookup}
use oidc_oauth2_idp.Prelude.Text.{◌⧺◌}
use oidc_oauth2_idp.Idp.State.{
  Claims, ClientSession, CodeMetadataEntry, Config, Request, Response, Server, Session,
  empty_auth_context, form_get, not_found, oauth_error, second, server_error, str, text_claim,
  tokens,
}
use oidc_oauth2_idp.Idp.External.{External, Network}
use oidc_oauth2_idp.Idp.Scope.{dedupe_strings, has_scope}
use oidc_oauth2_idp.Idp.Sessions.{
  get_client_session_by_id, session_by_client_session_id, update_first,
}
use oidc_oauth2_idp.Idp.Claims.{
  access_token_claims, decode_jwt, default_access_token_claims, default_id_token_claims,
  issue_token,
}
use oidc_oauth2_idp.Idp.ClientAuth.{
  ClientCredentials, authenticate_client, parse_client_credentials,
}

-- What a grant establishes about the tokens to issue.
pub record Grant : Type 0 where
  pub advertised_sub : String
  pub scope : String
  pub client_id : String
  pub cookie_id : String
  pub client_session_id : String
  pub id_token_claims : Claims
  pub access_claims : Claims

-- The outcome of a grant: an error response, or what it establishes.
pub data GrantResult : Type 0 where
  denied : Response → GrantResult
  granted : Grant → GrantResult

abbrev pub or_default : Option Claims → Claims → Claims
or_default none d = d
or_default (some c) d = c

-- `accessClaims["csid"] = …` writes into the stored map, unless that is nil.
abbrev pub write_csid : String → ClientSession → ClientSession
write_csid csid c = record c {
  access_token_claims = elim c.access_token_claims [
    | none ↦ none
    | some claims ↦ some (insert "csid" (str csid) claims)
  ];
}

-- The client session whose tokens were issued takes the claims as issued.
abbrev pub record_issued :
    String → Claims → Option Claims → Option Claims → ClientSession → ClientSession
record_issued sub access refresh id_claims c = record c {
  advertised_sub = sub;
  access_token_claims = some access;
  refresh_token_claims = refresh;
  id_token_claims = elim id_claims [ none ↦ c.id_token_claims | some claims ↦ some claims ];
}

-- An update of the session under a key, if there is one.
unfoldable pub update_session :
    String → (List ClientSession → List ClientSession) → Dict Session → Dict Session
update_session key f sessions = elim (lookup key sessions) [
  | none ↦ sessions
  | some sess ↦ insert key (record sess { client_sessions = f sess.client_sessions }) sessions
]

module _ (x : External) (cfg : Config) where
  open x use {sha256_base64url}
  open cfg use {external_url, extra_audiences, access_token_lifetime, refresh_token_lifetime}

  -- The PKCE switch.
  unfoldable pub verify_challenge : String → String → String → Bool
  verify_challenge code_challenge challenge_method verifier =
      if code_challenge == ""
      then true
      else if challenge_method == "plain"
      then verifier == code_challenge
      else if challenge_method == "S256"
      then sha256_base64url verifier == code_challenge
      else false

  -- The grant that a client session of a session stands for.
  abbrev pub grant_of : String → Session → ClientSession → String → Grant
  grant_of cookie_id sess cs nonce = record {
    advertised_sub = cs.advertised_sub;
    scope = cs.scope;
    client_id = cs.client_id;
    cookie_id = cookie_id;
    client_session_id = cs.session_id;
    id_token_claims = or_default cs.id_token_claims (
        default_id_token_claims x cfg (record empty_auth_context {
          sub = sess.sub;
          username = sess.username;
          scope = cs.scope;
          client_id = cs.client_id;
          nonce = nonce;
          redirect_uri = cs.redirect_uri;
        }));
    access_claims =
        insert "csid" (str cs.session_id)
          (or_default cs.access_token_claims (default_access_token_claims x cfg cs.scope));
  }

  abbrev pub invalid_grant : ℕ → Response
  invalid_grant status = oauth_error status "invalid_grant" false

  -- The authorization code's session, once the code is known.
  unfoldable pub redeem_code : CodeMetadataEntry → String → Server → Server × GrantResult
  redeem_code code_entry verifier s = elim (lookup code_entry.cookie_id s.sessions) [
    | none ↦ (s, denied (invalid_grant 403))
    | some sess ↦ elim (get_client_session_by_id sess code_entry.client_id) [
      | none ↦ (s, denied (invalid_grant 403))
      | some cs ↦
          if verify_challenge cs.code_challenge cs.code_challenge_method verifier
          then (
            record s {
              sessions =
                  update_session code_entry.cookie_id
                    (update_first (λ c. c.client_id == code_entry.client_id)
                      (write_csid cs.session_id))
                    s.sessions;
            },
            granted (grant_of code_entry.cookie_id sess cs code_entry.nonce),
          )
          else (s, denied (invalid_grant 403))
    ]
  ]

  -- grant_type=authorization_code: a code is deleted as it is read.
  unfoldable pub code_grant : Request → Server → Server × GrantResult
  code_grant req s = elim (lookup (form_get req "code") s.code_meta) [
    | none ↦ (s, denied (invalid_grant 403))
    | some code_entry ↦
        redeem_code code_entry (form_get req "code_verifier")
          (record s { code_meta = delete (form_get req "code") s.code_meta })
  ]

  abbrev pub issued_nonce : ClientSession → String
  issued_nonce cs = elim cs.id_token_claims [ none ↦ "" | some claims ↦ text_claim claims "nonce" ]

  -- The grant for a client session's identifier.
  abbrev pub refresh_client_session : String → Server → Server × GrantResult
  refresh_client_session csid s = elim (session_by_client_session_id csid s.sessions) [
    | none ↦ (s, denied (invalid_grant 401))
    | some (cookie_id, sess, cs) ↦ (
      record s {
        sessions =
            update_session cookie_id
              (update_first (λ c. c.session_id == csid) (write_csid cs.session_id)) s.sessions;
      },
      granted (grant_of cookie_id sess cs (issued_nonce cs)),
    )
  ]

  -- grant_type=refresh_token.
  unfoldable pub refresh_grant : Request → Server → Server × GrantResult
  refresh_grant req s = elim (decode_jwt x cfg (form_get req "refresh_token")) [
    | none ↦ (s, denied (invalid_grant 401))
    | some claims ↦ refresh_client_session (text_claim claims "csid") s
  ]

  unfoldable pub grant : Request → Server → Server × GrantResult
  grant req s =
      if form_get req "grant_type" == "authorization_code"
      then code_grant req s
      else if form_get req "grant_type" == "refresh_token"
      then refresh_grant req s
      else (s, denied (oauth_error 400 "unsupported_grant_type" false))

  -- A token that the scope asks for: `some none` when it does not, `none` when issuing it fails.
  abbrev pub issue_if : Bool → Option (String × Claims) → Option (Option (String × Claims))
  issue_if false issued = some none
  issue_if true none = none
  issue_if true (some t) = some (some t)

  abbrev pub token_of : Option (String × Claims) → Option String
  token_of none = none
  token_of (some (token, claims)) = some token

  abbrev pub claims_of : Option (String × Claims) → Option Claims
  claims_of none = none
  claims_of (some (token, claims)) = some claims

  -- `now.Add(time.Duration(lifetime) * time.Second)` on 64 bits: a product whose sign bit is set is negative,
  -- and the sum then a time before now, here not before the year 1970.
  abbrev pub expiry_after : ℕ → ℕ → ℕ
  expiry_after now lifetime =
      let product = lifetime * second % 0x1_0000_0000_0000_0000 in
      if ltb product 0x8000_0000_0000_0000
      then now + product
      else now - (0x1_0000_0000_0000_0000 - product)

  unfoldable pub issue_access : Grant → ℕ → Option (String × Claims)
  issue_access g now =
      issue_token x cfg g.advertised_sub
        (dedupe_strings ((external_url ⧺ "/userinfo") ∷ extra_audiences)) g.access_claims
        (expiry_after now access_token_lifetime) now

  unfoldable pub issue_refresh : Grant → ℕ → Option (Option (String × Claims))
  issue_refresh g now = issue_if (has_scope g.scope "offline_access") (
      issue_token x cfg g.advertised_sub (dedupe_strings ((external_url ⧺ "/token") ∷ []))
        (("token_use", str "refresh") ∷ ("csid", str g.client_session_id) ∷ [])
        (expiry_after now refresh_token_lifetime) now)

  unfoldable pub issue_id : Grant → ℕ → Option (Option (String × Claims))
  issue_id g now = issue_if (has_scope g.scope "openid") (
      issue_token x cfg g.advertised_sub (g.client_id ∷ []) g.id_token_claims
        (expiry_after now 3600) now)

  -- The tokens of a grant, in the order in which they are signed.
  unfoldable pub issue_tokens : Grant → ℕ → Server → Server × Response
  issue_tokens g now s = elim (issue_access g now) [
    | none ↦ (s, server_error "token issue error")
    | some (access_token, access_claims) ↦ elim (issue_refresh g now) [
      | none ↦ (s, server_error "token issue error")
      | some refresh ↦ elim (issue_id g now) [
        | none ↦ (s, server_error "token issue error")
        | some id_issued ↦ (
          record s {
            sessions =
                update_session g.cookie_id
                  (update_first (λ c. c.session_id == g.client_session_id)
                    (record_issued g.advertised_sub access_claims (claims_of refresh)
                      (claims_of id_issued)))
                  s.sessions;
          },
          tokens (record {
            access_token = access_token;
            expires_in = access_token_lifetime;
            refresh_token = token_of refresh;
            id_token = token_of id_issued;
          }),
        )
      ]
    ]
  ]

  -- `writeClientAuthError`.
  abbrev pub client_auth_error : String → Response
  client_auth_error method = oauth_error 401 "invalid_client" (method == "client_secret_basic")

  abbrev pub issue_if_authentic : ClientCredentials → Grant → ℕ → Server × Bool → Server × Response
  issue_if_authentic creds g now (s, false) = (s, client_auth_error creds.method)
  issue_if_authentic creds g now (s, true) = issue_tokens g now s

  -- What follows a grant.
  unfoldable pub finish_grant :
      Network → ClientCredentials → ℕ → Server × GrantResult → Server × Response
  finish_grant net creds now (s, denied r) = (s, r)
  finish_grant net creds now (s, granted g) =
      issue_if_authentic creds g now (authenticate_client x cfg net g.client_id creds now s)

  unfoldable pub token : Network → Request → ℕ → Server → Server × Response
  token net req now s =
      if not (req.method == "POST")
      then (s, not_found)
      else finish_grant net (parse_client_credentials req) now (grant req s)
