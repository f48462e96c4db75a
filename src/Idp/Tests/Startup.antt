-- ===== src/Idp/Tests/Startup.antt =====
-- Tests of the start, the discovery document and the avatars at concrete inputs.
use oidc_oauth2_idp.Prelude.{
  Option, String, [], contains, false, if◌then◌else◌, inl, none, refl, some, true, ◌*◌, ◌==◌, ◌∷◌,
  ◌≡◌,
}
use oidc_oauth2_idp.Prelude.Text.{split, trim_right_by, trim_space, ◌⧺◌}
use oidc_oauth2_idp.Idp.Metadata.Address.{
  AddressParsers, external_url_is_loopback, is_loopback, to4,
}
use oidc_oauth2_idp.Idp.State.{Claims, ClientSession, Request, Session, second, text_claim}
use oidc_oauth2_idp.Idp.Sessions.{session_by_client_session_id}
use oidc_oauth2_idp.Idp.Claims.{avatar_index, digit, extract_access_token}
use oidc_oauth2_idp.Idp.Avatars.{avatar_refused, path_base, serve_avatar, serve_avatar-own}
use oidc_oauth2_idp.Idp.Samples.{
  post, sample_cfg, sample_lib, sample_registration, sample_server, userinfo_request,
}
use oidc_oauth2_idp.Idp.Tests.{idp}
use oidc_oauth2_idp.Idp.Startup.{
  Discovery, Getenv, ServerSettings, csv_items, getenv_csv, getenv_default, getenv_default_bool,
  mux_patterns, openid_configuration, read_salt, read_server,
}
use oidc_oauth2_idp.Idp.Startup.Listed.{IsListed, openid_configuration-IsListed}
use oidc_oauth2_idp.Idp.Invariant.Reach.{started}
use oidc_oauth2_idp.Idp.Tests.Clients.{registered_sample}

-- Everything that these tests run.
unfoldable startup : Unit {0}
unfolding trim_space split getenv_default getenv_default_bool csv_items getenv_csv read_salt
    read_server external_url_is_loopback is_loopback to4 mux_patterns openid_configuration contains
startup = tt

abbrev pairwise_env : Getenv
pairwise_env name =
    if name == "SUBJECT_TYPE"
    then "pairwise"
    else if name == "PAIRWISE_SALT"
    then " 00112233445566778899aabbccddeeff "
    else if name == "EXTRA_AUDIENCES"
    then "api, ,web"
    else ""

-- A decoder that leaves the digits as they are.
abbrev no_decoder : String → Option String
no_decoder text = some text

abbrev local_parsers : AddressParsers
local_parsers = record {
  split_host_port = λ address. none;
  parse_ip = λ host. some 0xffff_7f00_0001;
  parse_hostname = λ url. some "127.0.0.1";
}

abbrev pairwise_settings : ServerSettings
pairwise_settings = record {
  app_port = "5001";
  base_url = "http://127.0.0.1:5001";
  protect_picture_url = false;
  audiences = "api" ∷ "web" ∷ [];
  mail_domain = "example.com";
  allow_loopback_metadata_fetch = true;
  kind_of_subject = "pairwise";
  salt = "00112233445566778899aabbccddeeff";
}

abbrev sample_discovery : Discovery
sample_discovery = record {
  issuer = "http://127.0.0.1:5001";
  authorization_endpoint = "http://127.0.0.1:5001/authorize";
  token_endpoint = "http://127.0.0.1:5001/token";
  userinfo_endpoint = "http://127.0.0.1:5001/userinfo";
  jwks_uri = "http://127.0.0.1:5001/.well-known/jwks.json";
  end_session_endpoint = "http://127.0.0.1:5001/endsession";
  registration_endpoint = "http://127.0.0.1:5001/register";
  response_types_supported = "code" ∷ [];
  subject_types_supported = "pairwise" ∷ [];
  id_token_signing_alg_values_supported = "RS256" ∷ [];
  grant_types_supported = "authorization_code" ∷ "refresh_token" ∷ [];
  code_challenge_methods_supported = "S256" ∷ "plain" ∷ [];
  scopes_supported = "openid" ∷ "profile" ∷ "email" ∷ "offline_access" ∷ [];
  claims_supported = "sub" ∷ "name" ∷ "picture" ∷ "email" ∷ "email_verified" ∷ [];
  auth_methods_supported =
      "client_secret_basic" ∷ "client_secret_post" ∷ "none" ∷ "private_key_jwt" ∷ [];
  auth_signing_algs_supported = "RS256" ∷ "ES256" ∷ [];
}

-- A request whose challenge has no method.
abbrev challenge_request : Request
challenge_request = record userinfo_request { method = "GET"; form = ("code_challenge", "c") ∷ [] }

openid_configuration-IsListed_example :
    IsListed sample_lib sample_cfg sample_discovery registered_sample
unfolding startup idp
openid_configuration-IsListed_example =
    openid_configuration-IsListed sample_lib sample_cfg pairwise_settings sample_discovery
      registered_sample (post []) (some sample_registration) "new" (some "drawn") (7 * second)
      started "" "" refl (inl refl)

abbrev avatar_request : Request
avatar_request = record userinfo_request { method = "GET" }

serve_avatar-own_example :
    (claims : Claims) × (cookie_id : String) × (sess : Session) × (cs : ClientSession)
    × (extract_access_token sample_lib sample_cfg avatar_request ≡ some claims)
    × (session_by_client_session_id (text_claim claims "csid") sample_server.sessions
        ≡ some (cookie_id, sess, cs))
    × ("7.svg" ≡ digit (avatar_index sess.username) ⧺ ".svg")
unfolding idp serve_avatar path_base trim_right_by split avatar_index
serve_avatar-own_example =
    serve_avatar-own sample_lib sample_cfg avatar_request "/avatars/7.svg" "7.svg" sample_server
      refl

other_avatar_example :
    serve_avatar sample_lib sample_cfg true avatar_request "/avatars/6.svg" sample_server
    ≡ avatar_refused 403
unfolding idp serve_avatar path_base trim_right_by split avatar_index
other_avatar_example = refl
