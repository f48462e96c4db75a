-- ===== src/Idp/Samples.antt =====
-- Concrete data for the tests: a library of external functions, a configuration, a state and requests.
use oidc_oauth2_idp.Prelude.{
  String, [], false, if◌then◌else◌, none, or_empty, some, true, ◌==◌, ◌∷◌,
}
use oidc_oauth2_idp.Prelude.Text.{has_prefix, ◌⧺◌}
use oidc_oauth2_idp.Prelude.Dict.{Dict, lookup}
use oidc_oauth2_idp.Idp.State.{
  Claims, ClientRegistration, ClientSession, Config, Jwk, Request, Server, Session, ec_key,
  empty_registration, num, registration_method_client_id_metadata_document,
  registration_method_dynamic, str,
}
use oidc_oauth2_idp.Idp.External.{External, Network, Url}
use oidc_oauth2_idp.Idp.Authorize.{Fresh}
use oidc_oauth2_idp.Idp.ClientAuth.{ClientCredentials}
use Prim.Native.String.{}

abbrev pub sample_url : Url
sample_url = record {
  scheme = "https";
  has_user = false;
  host = "app.example";
  hostname = "app.example";
  path = "/client";
  escaped_path = "/client";
  raw_query = "";
  fragment = "";
}

abbrev pub sample_registration : ClientRegistration
sample_registration = record empty_registration {
  redirect_uris = "https://app.example/cb" ∷ [];
  scope = "openid  openid";
}

abbrev pub sample_key : Jwk
sample_key = record { kid = "k1"; use_for = "sig"; algorithm = ""; kind = ec_key; material = "m" }

-- Tokens decode to claims of one client session; the text of an access token is "at".
abbrev pub sample_token_claims : String → Claims
sample_token_claims token =
    ("csid", str "cs1")
    ∷ ("token_use", str (if token == "at" then "access" else "refresh"))
    ∷ ("sub", str "internal|alice")
    ∷ ("scope", str "openid")
    ∷ []

abbrev pub sample_assertion : Claims
sample_assertion =
    ("iss", str "keyed")
    ∷ ("sub", str "keyed")
    ∷ ("aud", str "https://idp.example/token")
    ∷ ("exp", num 60)
    ∷ ("jti", str "j1")
    ∷ []

-- URLs are the texts that begin with "https://".
abbrev pub sample_lib : External
sample_lib = record {
  parse_url = λ s. if has_prefix s "https://" then some sample_url else none;
  set_query = λ u params. "https://app.example/cb?code=" ⧺ or_empty (lookup "code" params);
  sha256_base64url = λ s. "hash of " ⧺ s;
  hmac_base64url = λ k s. "mac of " ⧺ s;
  parse_claims = λ s. some (some (("client_id", str "https://app.example/client") ∷ []));
  print_claims = λ c. some "{}";
  parse_registration = λ s. some sample_registration;
  parse_jwks = λ s. some (sample_key ∷ []);
  parse_jwt = λ token allow.
      some (record { valid = allow true; claims = some (sample_token_claims token) });
  parse_assertion = λ algorithms leeway now assertion keys. elim (keys "k1" "ES256") [
    | none ↦ none
    | some ks ↦ some sample_assertion
  ];
  sign_jwt = λ c. some "signed";
  parse_media_type = λ s. some s;
  quote = λ s. "[" ⧺ s ⧺ "]";
  to_upper = λ s. s;
  to_lower = λ s. s;
}

abbrev pub sample_cfg : Config
sample_cfg = record {
  external_url = "https://idp.example";
  extra_audiences = [];
  email_domain = "example.com";
  access_token_lifetime = 1200;
  refresh_token_lifetime = 3600;
  client_id_metadata_ttl = 0;
  subject_type = "public";
  pairwise_salt = "";
}

-- A network that serves a document everywhere, and one that does not answer.
abbrev pub sample_net : Network
sample_net = λ url. some (record {
  status = 200;
  content_type = "application/json";
  cache_control = "max-age=120";
  body = some "{}";
})

abbrev pub dead_net : Network
dead_net = λ url. none

abbrev pub sample_fresh : Fresh
sample_fresh = record { req_id = "r1"; cookie_id = "c2"; client_session_id = "cs2"; code = "code2" }

abbrev pub sample_client_session : ClientSession
sample_client_session = record {
  session_id = "cs1";
  client_id = "app";
  advertised_sub = "internal|alice";
  scope = "openid offline_access";
  redirect_uri = "https://app.example/cb";
  code_challenge = "hash of verifier";
  code_challenge_method = "S256";
  id_token_claims = some (("sub", str "internal|alice") ∷ ("name", str "Alice") ∷ []);
  access_token_claims = none;
  refresh_token_claims = none;
}

abbrev pub sample_session : Session
sample_session = record {
  username = "alice";
  sub = "internal|alice";
  cookie_id = "c1";
  client_sessions = sample_client_session ∷ [];
}

abbrev pub dynamic_client : ClientRegistration
dynamic_client = record sample_registration {
  client_id = "dyn";
  client_secret = "s3cret";
  token_endpoint_auth_method = "client_secret_basic";
  registration_method = registration_method_dynamic;
}

abbrev pub document_client : ClientRegistration
document_client = record sample_registration {
  client_id = "https://app.example/client";
  client_id_issued_at = 5;
  token_endpoint_auth_method = "none";
  registration_method = registration_method_client_id_metadata_document;
}

-- One session with a client session for "app", whose code is outstanding.
abbrev pub sample_server : Server
sample_server = record {
  auth_context = [];
  code_meta = ("code1", record { cookie_id = "c1"; client_id = "app"; nonce = "n1" }) ∷ [];
  sessions = ("c1", sample_session) ∷ [];
  clients = ("dyn", dynamic_client) ∷ ("https://app.example/client", document_client) ∷ [];
  client_id_metadata = [];
  private_key_jwt_jtis = [];
}

abbrev pub post : Dict String → Request
post form = record {
  method = "POST";
  form = form;
  session_cookie = none;
  basic_auth = none;
  authorization = "";
}

abbrev pub authorize_request : Request
authorize_request = post (
    ("client_id", "app")
    ∷ ("redirect_uri", "https://app.example/cb")
    ∷ ("scope", "openid")
    ∷ ("code_challenge", "hash of verifier")
    ∷ ("code_challenge_method", "S256")
    ∷ [])

abbrev pub unlisted_request : Request
unlisted_request = post (("client_id", "dyn") ∷ ("redirect_uri", "https://evil.example/cb") ∷ [])

abbrev pub login_request : Request
login_request = post (("reqid", "r1") ∷ ("username", "alice") ∷ ("password", "valid") ∷ [])

abbrev pub approve_request : Request
approve_request = post (("reqid", "r1") ∷ ("approve", "") ∷ [])

abbrev pub code_request : Request
code_request =
    post (
      ("grant_type", "authorization_code") ∷ ("code", "code1") ∷ ("code_verifier", "verifier") ∷ [])

abbrev pub refresh_request : Request
refresh_request = post (("grant_type", "refresh_token") ∷ ("refresh_token", "rt") ∷ [])

abbrev pub access_as_refresh_request : Request
access_as_refresh_request = post (("grant_type", "refresh_token") ∷ ("refresh_token", "at") ∷ [])

abbrev pub logout_request : Request
logout_request = post (("cookieid", "c9") ∷ [])

abbrev pub userinfo_request : Request
userinfo_request = record (post []) { authorization = "Bearer at" }

abbrev pub dynamic_credentials : ClientCredentials
dynamic_credentials = record {
  client_id = "dyn";
  secret = "s3cret";
  method = "client_secret_basic";
  assertion = "";
}
