-- ===== src/Idp/State.antt =====
-- The data of idp-auth-server/main.go: the registries of the server, its configuration, and the
-- requests and responses of its handlers.
use oidc_oauth2_idp.Prelude.{Bool, List, Option, String, [], none, or_empty, some, ℕ, ◌∷◌}
use oidc_oauth2_idp.Prelude.Dict.{Dict, lookup}

-- A value of type `any` that JSON decoding makes. Of the numbers only the natural ones are kept.
mutual
  pub data Json : Type 0 where
    null : Json
    bool : Bool → Json
    num : ℕ → Json
    str : String → Json
    arr : Items → Json
    obj : Members → Json

  pub data Items : Type 0 where
    nil : Items
    cons : Json → Items → Items

  pub data Members : Type 0 where
    end : Members
    member : String → Json → Members → Members

-- `map[string]any`; where nil matters the type is `Option Claims`.
abbrev pub Claims : Type 0
Claims = Dict Json

abbrev pub items : List String → Items
items [] = nil
items (s ∷ ss) = cons (str s) (items ss)

-- `v, _ := claims[k].(string)`.
abbrev pub json_text : Option Json → String
json_text (some (str s)) = s
json_text _ = ""

abbrev pub text_claim : Claims → String → String
text_claim claims name = json_text (lookup name claims)

pub record ClientSession : Type 0 where
  pub session_id : String
  pub client_id : String
  pub advertised_sub : String
  pub scope : String
  pub redirect_uri : String
  pub code_challenge : String
  pub code_challenge_method : String
  pub id_token_claims : Option Claims
  pub access_token_claims : Option Claims
  pub refresh_token_claims : Option Claims

pub record Session : Type 0 where
  pub username : String
  pub sub : String
  pub cookie_id : String
  pub client_sessions : List ClientSession

-- The zero value of the struct.
abbrev pub empty_session : Session
empty_session = record { username = ""; sub = ""; cookie_id = ""; client_sessions = [] }

pub record AuthContextEntry : Type 0 where
  pub scope : String
  pub client_id : String
  pub redirect_uri : String
  pub state : String
  pub nonce : String
  pub code_challenge : String
  pub code_challenge_method : String
  pub username : String
  pub sub : String

-- The zero value of the struct, which a read of a missing key gives.
abbrev pub empty_auth_context : AuthContextEntry
empty_auth_context = record {
  scope = "";
  client_id = "";
  redirect_uri = "";
  state = "";
  nonce = "";
  code_challenge = "";
  code_challenge_method = "";
  username = "";
  sub = "";
}

pub record CodeMetadataEntry : Type 0 where
  pub cookie_id : String
  pub client_id : String
  pub nonce : String

abbrev pub registration_method_automatic : String
registration_method_automatic = "automatic"

abbrev pub registration_method_dynamic : String
registration_method_dynamic = "dynamic"

abbrev pub registration_method_client_id_metadata_document : String
registration_method_client_id_metadata_document = "client_id_metadata_document"

-- The descriptive members (names, URIs, contacts, software) are carried as one value.
pub record ClientRegistration : Type 0 where
  pub client_id : String
  pub client_id_issued_at : ℕ
  pub client_secret : String
  pub client_secret_expires_at : Option ℕ
  pub redirect_uris : List String
  pub token_endpoint_auth_method : String
  pub grant_types : List String
  pub response_types : List String
  pub scope : String
  pub descriptive : List String
  pub jwks : String
  pub jwks_uri : String
  pub registration_method : String

abbrev pub empty_registration : ClientRegistration
empty_registration = record {
  client_id = "";
  client_id_issued_at = 0;
  client_secret = "";
  client_secret_expires_at = none;
  redirect_uris = [];
  token_endpoint_auth_method = "";
  grant_types = [];
  response_types = [];
  scope = "";
  descriptive = [];
  jwks = "";
  jwks_uri = "";
  registration_method = "";
}

pub data KeyKind : Type 0 where
  rsa_key ec_key symmetric_key other_key : KeyKind

-- A `jose.JSONWebKey`: `kind` is the Go type of its public key, and `material` the key.
pub record Jwk : Type 0 where
  pub kid : String
  pub use_for : String
  pub algorithm : String
  pub kind : KeyKind
  pub material : String

pub record ClientIdMetadataEntry : Type 0 where
  pub reg : ClientRegistration
  pub keys : Option (List Jwk)
  pub expires_at : ℕ

-- The fields of `server` that change. Times are nanoseconds.
pub record Server : Type 0 where
  pub auth_context : Dict AuthContextEntry
  pub code_meta : Dict CodeMetadataEntry
  pub sessions : Dict Session
  pub clients : Dict ClientRegistration
  pub client_id_metadata : Dict ClientIdMetadataEntry
  pub private_key_jwt_jtis : Dict ℕ

-- The fields of `server` that are set at startup. Lifetimes are seconds, durations nanoseconds.
pub record Config : Type 0 where
  pub external_url : String
  pub extra_audiences : List String
  pub email_domain : String
  pub access_token_lifetime : ℕ
  pub refresh_token_lifetime : ℕ
  pub client_id_metadata_ttl : ℕ
  pub subject_type : String
  pub pairwise_salt : String

abbrev pub second : ℕ
second = 1_000_000_000

-- What the handlers read of a request: `form` is the parsed form with each key's first value.
pub record Request : Type 0 where
  pub method : String
  pub form : Dict String
  pub session_cookie : Option String
  pub basic_auth : Option (String × String)
  pub authorization : String

-- `r.Form.Get(k)`.
abbrev pub form_get : Request → String → String
form_get req k = or_empty (lookup k req.form)

pub record AuthorizeData : Type 0 where
  pub client_id : String
  pub scope : String
  pub req_id : String
  pub id_token_claims_json : String
  pub access_token_claims_json : String
  pub error_text : String

pub record TokenResponse : Type 0 where
  pub access_token : String
  pub expires_in : ℕ
  pub refresh_token : Option String
  pub id_token : Option String

pub data Response : Type 0 where
  not_found : Response
  -- The login form, for a request identifier.
  authenticate_page : String → Response
  authorize_page : AuthorizeData → Response
  endsession_page : (session_id subject redir_url : String) → Response
  -- The error page with its status.
  error_page : ℕ → String → Response
  -- A redirect (303), with the session cookie that is set.
  redirect : (cookie : Option String) (url : String) → Response
  -- `writeOAuthError`, with whether Basic authentication is asked for.
  oauth_error : (status : ℕ) (code : String) (basic : Bool) → Response
  bearer_error : (status : ℕ) (code : String) → Response
  registration_error : (code description : String) → Response
  registered : ClientRegistration → Response
  server_error : String → Response
  tokens : TokenResponse → Response
  user_claims : Claims → Response
