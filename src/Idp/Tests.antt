-- ===== src/Idp/Tests.antt =====
-- Tests of the identity provider's model at concrete inputs.
pub mod Addresses
pub mod Clients
pub mod Startup
use oidc_oauth2_idp.Prelude.{
  String, [], contains, false, inr, none, refl, some, ◌*◌, ◌∷◌, ◌≡◌, ◌≢◌, ◌⊎◌,
}
use oidc_oauth2_idp.Prelude.Text.{
  contains_char, cut, equal_fold, fields, has_prefix, has_suffix, join_spaces, positive_number,
  split, sum_bytes, trim, trim_space,
}
use oidc_oauth2_idp.Prelude.Dict.{delete, insert, keys, lookup}
use oidc_oauth2_idp.Idp.State.{
  AuthContextEntry, Claims, ClientRegistration, Request, Server, TokenResponse, arr,
  empty_auth_context, form_get, items, num, oauth_error, second, str,
}
use oidc_oauth2_idp.Idp.Samples.{
  access_as_refresh_request, approve_request, authorize_request, code_request, dead_net,
  document_client, dynamic_client, dynamic_credentials, login_request, logout_request, post,
  sample_cfg, sample_client_session, sample_fresh, sample_lib, sample_net, sample_server,
  sample_session, userinfo_request,
}
use oidc_oauth2_idp.Idp.Scope.{dedupe_strings, has_scope}
use oidc_oauth2_idp.Idp.Sessions.{
  client_session_by_id, client_session_by_session_id, compute_advertised_sub, find_client_session,
  get_client_session_by_id, has_advertised_sub, sector_identifier, session_by_advertised_sub,
  session_by_client_session_id, session_by_sub, update_client_session_pkce,
  update_client_session_redirect_uri, update_first, upsert_client_session,
}
use oidc_oauth2_idp.Idp.Registration.{
  check_registration, dedupe_registration, finish_registration, invalid_redirect_uri,
  issue_registration, normalize_registration, observe, register, register_client,
  registered_clients, unsupported, validate_redirect_uri, with_defaults,
}
use oidc_oauth2_idp.Idp.Claims.{
  access_token_claims, avatar_index, capitalize, decode_jwt, default_access_token_claims,
  default_id_token_claims, email_for_username, extract_access_token, issue_token, picture_url,
  signed_claims,
}
use oidc_oauth2_idp.Idp.Metadata.{
  clamp_ttl, client_id_metadata_ttl_from, document_registration, fetch_client_id_metadata,
  fetch_guarded_json, is_client_id_metadata_document_url, is_client_identifier, keep_issue_time,
  max_age, raw_document_ok, refresh_client_id_metadata, resolve_client_id_metadata, store_document,
  ttl_of_directives, validate_client_id_metadata,
}
use oidc_oauth2_idp.Idp.Assertion.{
  assertion_claims, aud_contains, check_assertion, client_key_set, consume_jti, items_contain,
  keys_such_that, prune, published_keys, resolved_keys, store_keys, usable_key, verification_keys,
  verify_private_key_jwt, verify_with_keys,
}
use oidc_oauth2_idp.Idp.ClientAuth.{
  authenticate_client, authenticate_known, authenticate_refreshed, authenticate_registered,
  check_secret, parse_client_credentials,
}
use oidc_oauth2_idp.Idp.Authorize.{
  approve, approved_session, authorize, authorize_resolved, authorize_silently, build_url,
  continue_session, default_challenge_method, grant_approval, issue_code_and_redirect, login,
  registration_objection, resolve_authorize_client, unsupported_challenge,
}
use oidc_oauth2_idp.Idp.Token.{
  Grant, code_grant, finish_grant, grant, grant_of, granted, issue_access, issue_id, issue_refresh,
  issue_tokens, redeem_code, refresh_grant, token, update_session, verify_challenge,
}
use oidc_oauth2_idp.Idp.Token.Code.{IsRedeemed, code_grant-IsRedeemed, token_code_once}
use oidc_oauth2_idp.Idp.Token.Issue.{IsEntitled, token-IsEntitled}
use oidc_oauth2_idp.Idp.Userinfo.{
  derived_claims, endsession, endsession_approve, logout, mirror, released_claims, releases,
  userinfo,
}
use oidc_oauth2_idp.Idp.Invariant.{IsWell}
use oidc_oauth2_idp.Idp.Invariant.Reach.{
  Reach-IsWell, after, approved, at_start, authorized, exchanged, logged, started,
}
use oidc_oauth2_idp.Idp.ClientAuth.Enforced.{
  Proved, authenticate_client-Proved, authenticate_client-document,
}
use oidc_oauth2_idp.Idp.Authorize.Client.{IsAdmitted, authorize-IsAdmitted}
use oidc_oauth2_idp.Idp.Registration.Automatic.{register_client_keeps}
use oidc_oauth2_idp.Idp.Claims.Issued.{AreSigned, issue_token-AreSigned}
use oidc_oauth2_idp.Idp.Token.Redeem.{code_grant-grant_approval}
use oidc_oauth2_idp.Idp.Token.Refresh.{grant_after_logout}
use oidc_oauth2_idp.Idp.Userinfo.Released.{IsReleased, userinfo-IsReleased}

-- Everything that runs.
unfoldable idp : Unit {0}
unfolding lookup insert delete contains fields join_spaces trim_space has_prefix has_suffix
    contains_char split cut equal_fold trim positive_number sum_bytes dedupe_strings has_scope
    session_by_sub has_advertised_sub session_by_advertised_sub client_session_by_session_id
    find_client_session session_by_client_session_id client_session_by_id get_client_session_by_id
    upsert_client_session update_first update_client_session_pkce update_client_session_redirect_uri
    sector_identifier compute_advertised_sub unsupported with_defaults validate_redirect_uri
    invalid_redirect_uri check_registration dedupe_registration normalize_registration
    issue_registration finish_registration register observe registered_clients register_client
    avatar_index capitalize picture_url email_for_username default_access_token_claims
    default_id_token_claims signed_claims issue_token decode_jwt access_token_claims
    extract_access_token clamp_ttl max_age ttl_of_directives client_id_metadata_ttl_from
    is_client_identifier is_client_id_metadata_document_url fetch_guarded_json raw_document_ok
    document_registration validate_client_id_metadata fetch_client_id_metadata keep_issue_time
    store_document refresh_client_id_metadata resolve_client_id_metadata prune consume_jti
    usable_key keys_such_that verification_keys items_contain aud_contains resolved_keys
    published_keys store_keys client_key_set assertion_claims check_assertion verify_with_keys
    verify_private_key_jwt parse_client_credentials check_secret authenticate_registered
    authenticate_refreshed authenticate_known authenticate_client default_challenge_method
    unsupported_challenge registration_objection build_url resolve_authorize_client
    issue_code_and_redirect continue_session authorize_silently authorize_resolved authorize login
    approved_session grant_approval approve update_session verify_challenge redeem_code code_grant
    refresh_grant grant issue_access issue_refresh issue_id issue_tokens finish_grant token releases
    mirror derived_claims released_claims userinfo endsession endsession_approve logout
idp = tt

-- The state after a request to /authorize, a login, an approval and a token request.
abbrev state_1 : Server
state_1 = (authorize sample_lib sample_cfg sample_net authorize_request sample_fresh 0 started).0

abbrev state_2 : Server
state_2 = (login sample_lib sample_cfg login_request state_1).0

abbrev state_3 : Server
state_3 = (approve sample_lib sample_cfg approve_request sample_fresh state_2).0

state_3_example : (lookup "code2" state_3.code_meta ≢ none) × (keys state_3.sessions ≡ "c2" ∷ [])
unfolding idp
state_3_example = (λ e. cc, refl)

Reach-IsWell_example : IsWell (token sample_lib sample_cfg sample_net code_request 0 state_3).0
Reach-IsWell_example = Reach-IsWell sample_lib sample_cfg (
    after
      (after
        (after (after at_start (authorized sample_net authorize_request sample_fresh 0 started))
          (logged login_request state_1))
        (approved approve_request sample_fresh state_2))
      (exchanged sample_net code_request 0 state_3))

token_code_once_example :
    let s' = (token sample_lib sample_cfg sample_net code_request 0 sample_server).0 in
    (lookup "code1" s'.code_meta ≡ none)
    × (token sample_lib sample_cfg dead_net code_request second s'
        ≡ (s', oauth_error 403 "invalid_grant" false))
unfolding idp
token_code_once_example =
    token_code_once sample_lib sample_cfg sample_net dead_net code_request code_request 0 second
      sample_server refl refl refl refl refl

abbrev sample_tokens : TokenResponse
sample_tokens = record {
  access_token = "signed";
  expires_in = 1200;
  refresh_token = some "signed";
  id_token = some "signed";
}

token-IsEntitled_example :
    IsEntitled sample_lib sample_cfg sample_net code_request 0 sample_server sample_tokens
unfolding idp
token-IsEntitled_example =
    token-IsEntitled sample_lib sample_cfg sample_net code_request 0 sample_server sample_tokens
      refl

abbrev sample_grant : Grant
sample_grant = grant_of sample_lib sample_cfg "c1" sample_session sample_client_session "n1"

code_grant-IsRedeemed_example :
    IsRedeemed sample_lib sample_cfg code_request sample_server sample_grant
unfolding idp
code_grant-IsRedeemed_example =
    code_grant-IsRedeemed sample_lib sample_cfg code_request sample_server sample_grant refl

authorize-IsAdmitted_example :
    IsAdmitted sample_lib sample_cfg sample_net authorize_request 0 sample_server
    × ((form_get authorize_request "code_challenge" ≡ "")
        ⊎ (default_challenge_method "hash of verifier" "S256" ≡ "S256")
        ⊎ (default_challenge_method "hash of verifier" "S256" ≡ "plain"))
unfolding idp
authorize-IsAdmitted_example =
    authorize-IsAdmitted sample_lib sample_cfg sample_net authorize_request sample_fresh 0
      sample_server (λ e. cc) (λ text e. cc)

authenticate_client-Proved_example :
    Proved sample_lib sample_cfg dead_net "dyn" dynamic_client dynamic_credentials 0 sample_server
unfolding idp
authenticate_client-Proved_example =
    authenticate_client-Proved sample_lib sample_cfg dead_net "dyn" dynamic_client
      dynamic_credentials 0 sample_server refl refl refl

authenticate_client-document_example :
    let url : String = "https://app.example/client" in
    let r = resolve_client_id_metadata sample_lib sample_cfg dead_net url 0 sample_server in
    ((refreshed : ClientRegistration) × (r.1 ≡ some refreshed)
      × Proved sample_lib sample_cfg dead_net url refreshed dynamic_credentials 0 r.0)
    ⊎ ((r.1 ≡ none)
        × (document_client.token_endpoint_auth_method ≢ "private_key_jwt")
        × Proved sample_lib sample_cfg dead_net url document_client dynamic_credentials 0 r.0)
unfolding idp
authenticate_client-document_example =
    authenticate_client-document sample_lib sample_cfg dead_net "https://app.example/client"
      document_client dynamic_credentials 0 sample_server refl refl refl

abbrev issued_sample : Claims
issued_sample =
    ("iss", str "https://idp.example")
    ∷ ("role", str "admin")
    ∷ ("sub", str "bob")
    ∷ ("aud", arr (items ("app" ∷ [])))
    ∷ ("exp", num 60)
    ∷ []

issue_token-AreSigned_example :
    (signed : Claims) × (sample_lib.sign_jwt signed ≡ some "signed")
    × AreSigned sample_lib sample_cfg "bob"
        ("app" ∷ [])
        (("iss", str "someone") ∷ ("role", str "admin") ∷ [])
        (60 * second)
        (2 * second)
        signed
    × (issued_sample ≡ delete "iat" signed)
unfolding idp
issue_token-AreSigned_example =
    issue_token-AreSigned sample_lib sample_cfg "bob" ("app" ∷ [])
      (("iss", str "someone") ∷ ("role", str "admin") ∷ []) issued_sample (60 * second) (2 * second)
      "signed" refl

userinfo-IsReleased_example :
    (claims : Claims) × (extract_access_token sample_lib sample_cfg userinfo_request ≡ some claims)
    × IsReleased sample_lib sample_cfg claims (("sub", str "internal|alice") ∷ [])
unfolding idp
userinfo-IsReleased_example =
    userinfo-IsReleased sample_lib sample_cfg userinfo_request sample_server
      (("sub", str "internal|alice") ∷ []) refl

grant_after_logout_example : "c1" ≢ form_get logout_request "cookieid"
unfolding idp
grant_after_logout_example =
    grant_after_logout sample_lib sample_cfg logout_request code_request sample_server sample_grant
      refl refl

-- An access token in place of a refresh token.
access_token_run :
    (refresh_grant sample_lib sample_cfg access_as_refresh_request sample_server).1
    ≡ granted sample_grant
unfolding idp
access_token_run = refl

register_client_keeps_example :
    lookup "dyn" (register_client "dyn" "https://evil.example" "openid" 0 sample_server).clients
    ≡ some dynamic_client
unfolding idp
register_client_keeps_example =
    register_client_keeps "dyn" "https://evil.example" "openid" 0 sample_server "dyn" dynamic_client
      refl (inr (λ e. cc))

abbrev approved_context : AuthContextEntry
approved_context = record empty_auth_context {
  scope = "openid email";
  client_id = "app";
  redirect_uri = "https://app.example/cb";
  code_challenge = "hash of other";
  code_challenge_method = "S256";
  username = "alice";
  sub = "internal|alice";
}

abbrev redeem_request : Request
redeem_request =
    post
      (("grant_type", "authorization_code") ∷ ("code", "code2") ∷ ("code_verifier", "other") ∷ [])

code_grant-grant_approval_example :
    (g : Grant) × ((code_grant sample_lib sample_cfg redeem_request
        (grant_approval sample_lib sample_cfg "r1" approved_context none none sample_fresh
          sample_server).0).1
      ≡ granted g)
    × (g.client_id ≡ "app")
    × (g.scope ≡ "openid email")
unfolding idp
code_grant-grant_approval_example =
    code_grant-grant_approval sample_lib sample_cfg "r1" approved_context none none sample_fresh
      sample_server redeem_request refl refl
