-- ===== src/Idp/Authorize.antt =====
-- /authorize, /login and /approve of idp-auth-server/main.go, with the authorization code that they end in.
pub mod Client
use oidc_oauth2_idp.Prelude.Text.{◌⧺◌}
use oidc_oauth2_idp.Prelude.{
  Bool, Option, String, [], contains, if◌then◌else◌, none, not, or_empty, some, ℕ, ◌&&◌, ◌==◌, ◌||◌,
  ◌∷◌,
}
use oidc_oauth2_idp.Prelude.Dict.{Dict, delete, insert, lookup}
use oidc_oauth2_idp.Idp.State.{
  AuthContextEntry, Claims, ClientRegistration, ClientSession, Config, Request, Response, Server,
  Session, authenticate_page, authorize_page, empty_auth_context, empty_registration, empty_session,
  error_page, form_get, not_found, redirect, registration_method_client_id_metadata_document,
  registration_method_dynamic, server_error, text_claim,
}
use oidc_oauth2_idp.Idp.External.{External, Network}
use oidc_oauth2_idp.Idp.Sessions.{
  compute_advertised_sub, get_client_session_by_id, sector_identifier, session_by_advertised_sub,
  session_by_sub, update_client_session_pkce, update_client_session_redirect_uri,
  upsert_client_session,
}
use oidc_oauth2_idp.Idp.Claims.{
  access_token_claims, decode_jwt, default_access_token_claims, default_id_token_claims,
}
use oidc_oauth2_idp.Idp.Registration.{register_client, supported_code_challenge_methods}
use oidc_oauth2_idp.Idp.Metadata.{is_client_id_metadata_document_url, resolve_client_id_metadata}

-- What `uuid.NewString` returns to a handler, one field for each of its calls.
pub record Fresh : Type 0 where
  pub req_id : String
  pub cookie_id : String
  pub client_session_id : String
  pub code : String

-- A challenge without a method means "plain".
unfoldable pub default_challenge_method : String → String → String
default_challenge_method code_challenge given =
    if not (code_challenge == "") && given == "" then "plain" else given

unfoldable pub unsupported_challenge : String → String → Bool
unfolding contains
unsupported_challenge code_challenge challenge_method =
    not (code_challenge == "") && not (contains supported_code_challenge_methods challenge_method)

-- The registration methods whose clients are held to their redirect URIs.
abbrev pub asserts_uris : ClientRegistration → Bool
asserts_uris reg =
    reg.registration_method == registration_method_client_id_metadata_document
    || reg.registration_method == registration_method_dynamic

-- The error that the registration of a client raises against a request.
unfoldable pub registration_objection : ClientRegistration → String → String → Option String
registration_objection reg redirect_uri code_challenge =
    if asserts_uris reg && not (contains reg.redirect_uris redirect_uri)
    then some "The redirect_uri does not match this client's registration"
    else if reg.registration_method == registration_method_client_id_metadata_document
        && reg.token_endpoint_auth_method == "none"
        && code_challenge == ""
    then some "This client is registered as public and must use PKCE"
    else none

abbrev pub or_empty_registration : Option ClientRegistration → ClientRegistration
or_empty_registration none = empty_registration
or_empty_registration (some reg) = reg

module _ (x : External) (cfg : Config) where
  open x use {parse_url, set_query, parse_claims, print_claims}
  open cfg use {external_url}

  unfoldable pub build_url : String → Dict String → String
  build_url base params = elim (parse_url base) [ none ↦ base | some u ↦ set_query u params ]

  abbrev pub objection_of_document :
      String → String → Server × Option ClientRegistration → Server × Option String
  objection_of_document redirect_uri code_challenge (s, none) =
      (s, some "Could not resolve the client ID metadata document")
  objection_of_document redirect_uri code_challenge (s, some reg) =
      (s, registration_objection reg redirect_uri code_challenge)

  -- `resolveAuthorizeClient`: the state, and the error that stops the request.
  unfoldable pub resolve_authorize_client :
      Network → String → String → String → String → ℕ → Server → Server × Option String
  resolve_authorize_client net client_id redirect_uri scope code_challenge now s =
      if is_client_id_metadata_document_url x cfg client_id
      then objection_of_document redirect_uri code_challenge
          (resolve_client_id_metadata x cfg net client_id now s)
      else let s' = register_client client_id redirect_uri scope now s in
        (
          s',
          registration_objection (or_empty_registration (lookup client_id s'.clients)) redirect_uri
              code_challenge,
        )

  -- `issueCodeAndRedirect`.
  unfoldable pub issue_code_and_redirect :
      Session → String → String → String → String → Server → Server × Response
  issue_code_and_redirect sess client_id state nonce code s =
      let s' = record s {
        code_meta =
            insert code
              (record { cookie_id = sess.cookie_id; client_id = client_id; nonce = nonce })
              s.code_meta;
      } in
      elim (get_client_session_by_id sess client_id) [
        | none ↦ (s', error_page 200 "Unknown client session")
        | some cs ↦ (
          s',
          redirect (some sess.cookie_id) (
              build_url cs.redirect_uri
                (("code", code) ∷ ("state", state) ∷ ("iss", external_url) ∷ [])),
        )
      ]

  -- A request that continues in a session: its client session takes the challenge and the redirect URI.
  unfoldable pub continue_session :
      String
      → Session
      → String
      → String
      → String
      → String
      → String
      → String
      → String
      → Server
      → Server × Response
  continue_session key sess client_id redirect_uri state nonce code_challenge challenge_method code
        s =
      let sess' =
        update_client_session_redirect_uri
          (update_client_session_pkce sess client_id code_challenge challenge_method) client_id
          redirect_uri in
      issue_code_and_redirect sess' client_id state nonce code
        (record s { sessions = insert key sess' s.sessions })

  abbrev pub login_required : String → String → Response
  login_required redirect_uri state = redirect none (
      build_url redirect_uri
        (("error", "login_required") ∷ ("state", state) ∷ ("iss", external_url) ∷ []))

  abbrev pub cookie_session : Option String → Dict Session → Option Session
  cookie_session none sessions = lookup "" sessions
  cookie_session (some value) sessions = lookup value sessions

  -- prompt=none without a session cookie: the session is found by the subject of the hint.
  unfoldable pub authorize_silently : Request → String → String → Server → Server × Response
  authorize_silently req challenge_method code s =
      let redirect_uri = form_get req "redirect_uri" in
      let state = form_get req "state" in
      elim (decode_jwt x cfg (form_get req "id_token_hint")) [
        | none ↦ (s, login_required redirect_uri state)
        | some claims ↦
            let key = session_by_advertised_sub (text_claim claims "sub") s.sessions in
            if key == ""
            then (s, login_required redirect_uri state)
            else elim (lookup key s.sessions) [
              | none ↦
                  continue_session key empty_session (form_get req "client_id") redirect_uri state
                    (form_get req "nonce") (form_get req "code_challenge") challenge_method code s
              | some sess ↦
                  continue_session key sess (form_get req "client_id") redirect_uri state
                    (form_get req "nonce") (form_get req "code_challenge") challenge_method code s
            ]
      ]

  abbrev pub requested_context : Request → String → AuthContextEntry
  requested_context req challenge_method = record empty_auth_context {
    scope = form_get req "scope";
    client_id = form_get req "client_id";
    redirect_uri = form_get req "redirect_uri";
    state = form_get req "state";
    nonce = form_get req "nonce";
    code_challenge = form_get req "code_challenge";
    code_challenge_method = challenge_method;
  }

  -- The exits of `authorize` once the client is established.
  unfoldable pub authorize_resolved : Request → String → Fresh → Server → Server × Response
  authorize_resolved req challenge_method fresh s =
      elim (cookie_session req.session_cookie s.sessions) [
        | some sess ↦
            continue_session (or_empty req.session_cookie) sess (form_get req "client_id")
              (form_get req "redirect_uri") (form_get req "state") (form_get req "nonce")
              (form_get req "code_challenge") challenge_method fresh.code s
        | none ↦
            if form_get req "prompt" == "none"
            then authorize_silently req challenge_method fresh.code s
            else (
              record s {
                auth_context =
                    insert fresh.req_id (requested_context req challenge_method) s.auth_context;
              },
              authenticate_page fresh.req_id,
            )
      ]

  abbrev pub unless_objection :
      (Server → Server × Response) → Server × Option String → Server × Response
  unless_objection k (s, some text) = (s, error_page 400 text)
  unless_objection k (s, none) = k s

  unfoldable pub authorize : Network → Request → Fresh → ℕ → Server → Server × Response
  authorize net req fresh now s =
      if not (req.method == "GET") && not (req.method == "POST")
      then (s, not_found)
      else let code_challenge = form_get req "code_challenge" in
        let challenge_method =
          default_challenge_method code_challenge (form_get req "code_challenge_method") in
        if unsupported_challenge code_challenge challenge_method
        then (s, error_page 400 "Unsupported code_challenge_method")
        else unless_objection (authorize_resolved req challenge_method fresh) (
            resolve_authorize_client net (form_get req "client_id") (form_get req "redirect_uri")
              (form_get req "scope") code_challenge now s)

  abbrev pub or_empty_context : Option AuthContextEntry → AuthContextEntry
  or_empty_context none = empty_auth_context
  or_empty_context (some ctx) = ctx

  -- The authentication context that a login leaves.
  abbrev pub logged_in : Request → Server → AuthContextEntry
  logged_in req s = record (or_empty_context (lookup (form_get req "reqid") s.auth_context)) {
    username = form_get req "username";
    sub = "internal|" ⧺ form_get req "username";
  }

  abbrev pub consent_page : AuthContextEntry → String → Option String → Option String → Response
  consent_page ctx req_id (some id_json) (some access_json) = authorize_page (record {
    client_id = ctx.client_id;
    scope = ctx.scope;
    req_id = req_id;
    id_token_claims_json = id_json;
    access_token_claims_json = access_json;
    error_text = "";
  })
  consent_page ctx req_id _ _ = server_error "claims serialization error"

  unfoldable pub login : Request → Server → Server × Response
  login req s =
      if not (req.method == "POST")
      then (s, not_found)
      else if not (form_get req "password" == "valid")
      then (s, error_page 200 "Authentication error")
      else (
        record s { auth_context = insert (form_get req "reqid") (logged_in req s) s.auth_context },
        consent_page (logged_in req s) (form_get req "reqid")
            (print_claims (default_id_token_claims x cfg (logged_in req s)))
            (print_claims (default_access_token_claims x cfg (logged_in req s).scope)),
      )

  abbrev pub session_or_new : Option Session → AuthContextEntry → String → Session
  session_or_new (some sess) ctx cookie_id = sess
  session_or_new none ctx cookie_id = record {
    username = ctx.username;
    sub = ctx.sub;
    cookie_id = cookie_id;
    client_sessions = [];
  }

  abbrev pub kept_session_id : Option ClientSession → String → String
  kept_session_id none new_id = new_id
  kept_session_id (some cs) new_id = if cs.session_id == "" then new_id else cs.session_id

  -- The session after an approval.
  unfoldable pub approved_session :
      Session → AuthContextEntry → Option Claims → Option Claims → String → Session
  approved_session sess ctx id_claims access_claims new_id = record sess {
    client_sessions = upsert_client_session sess.client_sessions (record {
      session_id = kept_session_id (get_client_session_by_id sess ctx.client_id) new_id;
      client_id = ctx.client_id;
      advertised_sub =
          compute_advertised_sub x cfg ctx.sub
            (sector_identifier x cfg ctx.redirect_uri ctx.client_id);
      scope = ctx.scope;
      redirect_uri = ctx.redirect_uri;
      code_challenge = ctx.code_challenge;
      code_challenge_method = ctx.code_challenge_method;
      id_token_claims = id_claims;
      access_token_claims = access_claims;
      refresh_token_claims = none;
    });
  }

  -- The end of `approve`, once the claims are parsed.
  unfoldable pub grant_approval :
      String → AuthContextEntry → Option Claims → Option Claims → Fresh → Server → Server × Response
  grant_approval req_id ctx id_claims access_claims fresh s =
      let sess =
        approved_session (session_or_new (session_by_sub ctx.sub s.sessions) ctx fresh.cookie_id)
          ctx id_claims access_claims fresh.client_session_id in
      issue_code_and_redirect sess ctx.client_id ctx.state ctx.nonce fresh.code (record s {
        auth_context = delete req_id s.auth_context;
        sessions = insert sess.cookie_id sess s.sessions;
      })

  abbrev pub claims_error : Request → AuthContextEntry → String → Response
  claims_error req ctx text = authorize_page (record {
    client_id = ctx.client_id;
    scope = ctx.scope;
    req_id = form_get req "reqid";
    id_token_claims_json = form_get req "id_token_claims_json";
    access_token_claims_json = form_get req "access_token_claims_json";
    error_text = text;
  })

  unfoldable pub approve : Request → Fresh → Server → Server × Response
  approve req fresh s =
      if not (req.method == "POST")
      then (s, not_found)
      else elim (lookup (form_get req "reqid") s.auth_context) [
        | none ↦ (s, error_page 200 "Unknown request ID")
        | some ctx ↦ elim (lookup "approve" req.form) [
          | none ↦ (s, error_page 200 "Not approved")
          | some _ ↦ elim (parse_claims (form_get req "id_token_claims_json")) [
            | none ↦ (s, claims_error req ctx "ID token claims must be valid JSON object")
            | some id_claims ↦ elim (parse_claims (form_get req "access_token_claims_json")) [
              | none ↦ (s, claims_error req ctx "Access token claims must be valid JSON object")
              | some access_claims ↦
                  grant_approval (form_get req "reqid") ctx id_claims access_claims fresh s
            ]
          ]
        ]
      ]
