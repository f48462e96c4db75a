-- ===== src/Bff/Tests/Accounts.antt =====
-- Tests of logins, logouts, avatars, the middleware stack and the proxy at concrete inputs.
use oidc_oauth2_idp.Prelude.{
  String, [], arith, contains, false, if◌then◌else◌, inr, none, or_empty, refl, some, true, ◌*◌,
  ◌==◌, ◌∷◌, ◌≡◌, ◌≢◌,
}
use oidc_oauth2_idp.Prelude.Text.{cut, split, trim_space, ◌⧺◌}
use oidc_oauth2_idp.Prelude.Text.Affixes.{ends_with, trim_prefix}
use oidc_oauth2_idp.Prelude.Text.Paths.{join_slash, path_clean, path_join, path_names}
use oidc_oauth2_idp.Idp.State.{second}
use oidc_oauth2_idp.Idp.External.{HttpResponse, Url}
use oidc_oauth2_idp.Bff.Store.{BffSession, MemoryItems, memory_store}
use oidc_oauth2_idp.Bff.Store.Memory.{memory_store-IsStore}
use oidc_oauth2_idp.Bff.Manager.{clear_cookie, get_session, keep_cookie, set_cookie}
use oidc_oauth2_idp.Bff.Middleware.Forward.{IsUsable}
use oidc_oauth2_idp.Bff.Callback.{callback, session_of, welcome}
use oidc_oauth2_idp.Bff.Account.{
  AccountServices, UserClaims, append_id_token_hint, avatar, avatar_sent, logout_session,
  logout_url, me, me_claims, parse_id_token_claims, start_login,
}
use oidc_oauth2_idp.Bff.Account.Welcome.{callback-start_login, came_back}
use oidc_oauth2_idp.Bff.Account.Gone.{get_session-logout_session}
use oidc_oauth2_idp.Bff.Account.Picture.{IsPassedOn, avatar-IsPassedOn}
use oidc_oauth2_idp.Bff.Proxy.{
  Outgoing, api_director, forwarded, proxy_target, rewritten_path, serve_api,
}
use oidc_oauth2_idp.Bff.Proxy.Rewritten.{api_director_path}
use oidc_oauth2_idp.Bff.Routes.{middleware_stack}
use oidc_oauth2_idp.Bff.Routes.Protected.{middleware_stack-IsProtected}
use oidc_oauth2_idp.Bff.Tests.{
  api_request, bff, sample_bff_session, sample_claims, sample_deps, sample_items, sample_refresh,
  sample_services,
}
use oidc_oauth2_idp.Bff.Middleware.{passed, security_headers}
use oidc_oauth2_idp.Prelude.Dict.{lookup}

-- Everything that these tests run.
unfoldable pub accounts : Unit {0}
unfolding bff start_login parse_id_token_claims append_id_token_hint logout_url logout_session me
    avatar middleware_stack proxy_target rewritten_path api_director serve_api cut path_join
    path_clean trim_prefix split join_slash contains path_names ends_with
accounts = tt

abbrev pub sample_picture_url : Url
sample_picture_url = record {
  scheme = "https";
  has_user = false;
  host = "pics.example";
  hostname = "pics.example";
  path = "/alice";
  escaped_path = "/alice";
  raw_query = "";
  fragment = "";
}

abbrev alice : UserClaims
alice = record {
  subject = "alice";
  full_name = "Alice";
  email_address = "alice@example.org";
  picture = "https://pics.example/alice";
}

abbrev avatar_response : HttpResponse
avatar_response = record {
  status = 200;
  content_type = "image/png";
  cache_control = "";
  body = some "png";
}

-- A picture server that wants the access token.
abbrev pub sample_account : AccountServices
sample_account = record {
  decode_base64url = λ text. some text;
  unmarshal_claims = λ text. if text == "alice" then some alice else none;
  parse_url_text = λ text. some sample_picture_url;
  set_in_query = λ url query. "set";
  url_text = λ url. "https://pics.example/alice";
  can_request = λ text. true;
  get_with = λ text bearer_text.
      if or_empty bearer_text == "Bearer at" then some avatar_response else none;
}

abbrev alice_session : BffSession
alice_session = record sample_bff_session { id_token = "h.alice.s" }

abbrev alice_items : MemoryItems
alice_items = ("tok", record { sess = alice_session; expires = 100 * second }) ∷ []

callback-start_login_example :
    ((callback memory_store sample_services
        (came_back (start_login (λ state verifier. state) "s1" "v1") "code1")
        (some "tok")
        "ct"
        second
        sample_claims
        []).2
      ≡ welcome (set_cookie "tok") "ct")
    × ((get_session memory_store
          (some "tok")
          (3600 * second)
          (callback memory_store sample_services
            (came_back (start_login (λ state verifier. state) "s1" "v1") "code1")
            (some "tok")
            "ct"
            second
            sample_claims
            []).0).1
        ≡ some (
            some (
              session_of
                (record {
                  set_access_token = "at";
                  set_refresh_token = "rt";
                  raw_id_token = "it";
                  set_expiry = none;
                })
                "ct")))
unfolding accounts
callback-start_login_example =
    callback-start_login memory_store sample_services memory_store-IsStore (λ state verifier. state)
      "s1" "v1" "code1" "ct" "tok" "tok"
      (record {
        set_access_token = "at";
        set_refresh_token = "rt";
        raw_id_token = "it";
        set_expiry = none;
      })
      "alice" second (3600 * second) sample_claims [] (λ e. cc) (λ e. cc) (λ e. cc) refl refl refl
      (refl, λ e. cc) refl (ground arith)

get_session-logout_session_example :
    (clear_cookie ≡ clear_cookie)
    × ("set"
        ≡ logout_url sample_account "https://idp.example/end"
            (get_session memory_store (some "tok") 0 alice_items).1)
    × ((get_session memory_store
          (some "tok")
          second
          (logout_session sample_account memory_store "https://idp.example/end"
            (some "tok")
            0
            alice_items).0).1
        ≡ some none)
unfolding accounts
get_session-logout_session_example =
    get_session-logout_session sample_account "https://idp.example/end" "tok" "set" clear_cookie 0
      second alice_items (refl, λ e. cc) refl

avatar-IsPassedOn_example :
    (current : BffSession) × ((get_session memory_store (some "tok") 0 alice_items).1
      ≡ some (some current))
    × IsPassedOn sample_account current (avatar_sent "image/png" "" (some "png"))
unfolding accounts
avatar-IsPassedOn_example =
    avatar-IsPassedOn sample_account memory_store (some "tok") 0 alice_items "image/png" ""
      (some "png") refl

me_example :
    (me sample_account memory_store (some "tok") 0 alice_items).1
    ≡ me_claims (record alice { picture = "/auth/avatar" })
unfolding accounts
me_example = refl

middleware_stack-IsProtected_example :
    (current : BffSession) × (token : String) × ((get_session memory_store
        (some "tok")
        second
        sample_items).1
      ≡ some (some current))
    × (trim_space " ct " ≢ "")
    × (trim_space " ct " ≡ current.csrf_token)
    × (some "Bearer at2" ≡ some ("Bearer " ⧺ token))
    × IsUsable memory_store sample_deps (some sample_refresh) current second token
unfolding accounts
middleware_stack-IsProtected_example =
    middleware_stack-IsProtected memory_store memory_store-IsStore sample_deps (some sample_refresh)
      api_request (some "new") second sample_items (some "Bearer at2") refl refl refl refl

abbrev sample_outgoing : Outgoing
sample_outgoing = record {
  host = "bff.example";
  url_path = "/api/items/7";
  raw_path = "";
  bearer_header = "";
  forwarded_host = "";
  forwarded_for = "";
}

api_director_path_example :
    (api_director (λ req. req) sample_picture_url "/api" "/v1" sample_outgoing).url_path
    ≡ "/v1/items/7"
unfolding accounts
api_director_path_example =
    api_director_path (λ req. req) sample_picture_url "/api" "/v1" "/items/7" sample_outgoing
      (refl, inr refl) refl refl refl

abbrev sample_forwarded : Outgoing
sample_forwarded = record sample_outgoing {
  bearer_header = "Bearer at";
  forwarded_host = "bff.example";
  forwarded_for = "10.0.0.7";
}

-- The proxy sets the token of the session where the request has none.
serve_api_example :
    (serve_api memory_store "bff.example"
      (some "10.0.0.7")
      (some "tok")
      sample_outgoing
      0
      sample_items).1
    ≡ forwarded sample_forwarded
unfolding accounts
serve_api_example = refl

-- Behind a base URL with the path "/base", the API prefix stays in the path.
base_path_example :
    (api_director
      (λ req. record req { url_path = "/base" ⧺ req.url_path })
      sample_picture_url
      "/api"
      "/v2"
      sample_outgoing).url_path
    ≡ "/v2/base/api/items/7"
unfolding accounts
base_path_example = refl

own_bearer_run :
    middleware_stack memory_store
      (some sample_deps)
      none
      (record api_request {
        method = "GET";
        session_cookie = none;
        authorization = "Bearer anything";
      })
      none
      0
      []
    ≡ ([], keep_cookie, passed none)
unfolding accounts
own_bearer_run = refl

security_headers_example :
    lookup "Content-Security-Policy" (security_headers " default-src 'self' ")
    ≡ some "default-src 'self'"
unfolding accounts security_headers
security_headers_example = refl
