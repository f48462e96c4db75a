-- ===== src/Bff/Tests.antt =====
-- Tests of the backend's model at concrete inputs.
pub mod Accounts
pub mod Stores
pub mod Startup
use oidc_oauth2_idp.Prelude.{Option, String, [], arith, false, none, refl, some, ◌*◌, ◌∷◌, ◌≡◌}
use oidc_oauth2_idp.Prelude.Text.{has_prefix, trim_space}
use oidc_oauth2_idp.Prelude.Dict.{delete, insert, lookup}
use oidc_oauth2_idp.Idp.State.{second}
use oidc_oauth2_idp.Bff.StateClaims.{
  StateClaims, claim, cleaned, cleanup, live_claims, new_state_claims, oidc_state_claim_ttl,
}
use oidc_oauth2_idp.Bff.StateClaims.History.{claim-after_claims, is_free, last_granted}
use oidc_oauth2_idp.Bff.Store.{
  BffSession, MemoryItem, MemoryItems, memory_delete, memory_load, memory_save, memory_store,
}
use oidc_oauth2_idp.Bff.Manager.{
  create, destroy, drop_session, get_session, rotate, session_ttl, set_cookie,
}
use oidc_oauth2_idp.Bff.Middleware.{
  Dependencies, RefreshedTokens, WebRequest, auth_guard, csrf_checked, csrf_exempt, csrf_middleware,
  forward_current, guarded, is_api, is_bypassed, json_error, refresh_access_token, token_forwarder,
}
use oidc_oauth2_idp.Bff.Callback.{
  CallbackRequest, LoginServices, callback, exchanged_code, read_claims, unauthorized,
}
use oidc_oauth2_idp.Bff.Callback.Accepted.{IsAccepted, callback-IsAccepted, callback_once}
use oidc_oauth2_idp.Bff.Manager.Cookies.{get_session-destroy_padded}
use oidc_oauth2_idp.Bff.StateClaims.Once.{after_claims}

-- Everything that runs.
unfoldable bff : Unit {0}
unfolding read_claims exchanged_code callback has_prefix is_api is_bypassed csrf_checked guarded
    csrf_exempt auth_guard csrf_middleware refresh_access_token forward_current token_forwarder
    lookup insert delete trim_space live_claims cleanup cleaned claim memory_save memory_load
    memory_delete create get_session drop_session rotate destroy
bff = tt

abbrev sample_bff_session : BffSession
sample_bff_session = record {
  access_token = "at";
  refresh_token = "rt";
  id_token = "it";
  csrf_token = "ct";
  access_token_expiry = some 0;
}

abbrev sample_item : MemoryItem
sample_item = record { sess = sample_bff_session; expires = 100 * second }

claim-after_claims_example :
    (claim "s1" 20
      (after_claims (("s1", 5) ∷ ("s2", 6) ∷ ("s1", 9) ∷ []) (new_state_claims 10 0))).1
    ≡ is_free 10 20 (last_granted 10 "s1" (("s1", 5) ∷ ("s2", 6) ∷ ("s1", 9) ∷ []) none)
claim-after_claims_example =
    claim-after_claims (("s1", 5) ∷ ("s2", 6) ∷ ("s1", 9) ∷ []) 10 0 20 "s1"
      (ground arith, (ground arith, (ground arith, ground arith)))

claimed_run :
    is_free 10 14 (last_granted 10 "s1" (("s1", 5) ∷ ("s2", 6) ∷ ("s1", 9) ∷ []) none) ≡ false
claimed_run = refl

get_session-destroy_padded_example :
    (get_session memory_store
      (some " tok")
      0
      (destroy memory_store (some " tok") (("tok", sample_item) ∷ [])).0).1
    ≡ some (some sample_bff_session)
unfolding bff
get_session-destroy_padded_example =
    get_session-destroy_padded " tok" sample_item 0 (("tok", sample_item) ∷ []) (λ e. cc) (λ e. cc)
      refl (ground arith)

rotate_example :
    (rotate memory_store (some "old") (some "new") sample_bff_session 0 (("old", sample_item) ∷ []))
    ≡ (
      ("new", record { sess = sample_bff_session; expires = session_ttl }) ∷ [],
      some (set_cookie "new"),
    )
unfolding bff
rotate_example = refl

abbrev sample_items : MemoryItems
sample_items = ("tok", sample_item) ∷ []

abbrev sample_deps : Dependencies
sample_deps = record { api_path_prefix = "/api"; auth_bypass_paths = "/login" ∷ "/auth/" ∷ [] }

abbrev api_request : WebRequest
api_request = record {
  method = "POST";
  path = "/api/items";
  session_cookie = some "tok";
  authorization = "";
  csrf_header = " ct ";
}

abbrev page_request : WebRequest
page_request = record api_request { path = "/index.html" }

-- Refreshing gives an access token, and no other ones.
abbrev sample_refresh : String → Option RefreshedTokens
sample_refresh token =
    some (record {
      new_access_token = "at2";
      new_refresh_token = "";
      new_id_token = "";
      expiry = none;
    })

csrf_missing_example :
    (csrf_middleware memory_store sample_deps
      (record api_request { csrf_header = "x" })
      0
      sample_items).1
    ≡ json_error 403 "forbidden"
unfolding bff
csrf_missing_example = refl

abbrev callback_request : CallbackRequest
callback_request = record {
  state_cookie = some "s1";
  verifier_cookie = some "v1";
  state_param = "s1";
  code_param = "code1";
}

abbrev sample_services : LoginServices
sample_services = record {
  exchange_code = λ code verifier. some (record {
    set_access_token = "at";
    set_refresh_token = "rt";
    raw_id_token = "it";
    set_expiry = none;
  });
  verify_id_token = some (λ raw. some "alice");
}

abbrev sample_claims : StateClaims
sample_claims = new_state_claims oidc_state_claim_ttl 0

callback-IsAccepted_example :
    IsAccepted memory_store sample_services callback_request second sample_claims
unfolding bff
callback-IsAccepted_example =
    callback-IsAccepted memory_store sample_services callback_request (some "tok") "ct" second
      sample_claims [] (set_cookie "tok") "ct" refl

callback_once_example :
    (callback memory_store sample_services callback_request
      (some "tok2")
      "ct2"
      (100 * second)
      (claim "s2"
        (2 * second)
        (callback memory_store sample_services callback_request
          (some "tok")
          "ct"
          second
          sample_claims
          []).1).0
      []).2
    ≡ unauthorized
unfolding bff
callback_once_example =
    callback_once memory_store sample_services callback_request callback_request (some "tok")
      (some "tok2") "ct" "ct2" second (100 * second) sample_claims [] [] (("s2", 2 * second) ∷ [])
      (set_cookie "tok") "ct" refl refl (ground arith, tt) (ground arith)
