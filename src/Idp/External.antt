-- ===== src/Idp/External.antt =====
-- What the identity provider takes from outside the repository: URL parsing, JSON, hashes, JWTs and
-- the network. Nothing is assumed of them here.
use oidc_oauth2_idp.Prelude.{Bool, List, Option, String, ℕ}
use oidc_oauth2_idp.Prelude.Dict.{Dict}
use oidc_oauth2_idp.Idp.State.{Claims, ClientRegistration, Jwk}

-- The parts of a `*url.URL` that the program reads.
pub record Url : Type 0 where
  pub scheme : String
  pub has_user : Bool
  pub host : String
  pub hostname : String
  pub path : String
  pub escaped_path : String
  pub raw_query : String
  pub fragment : String

-- A `*jwt.Token` as `jwt.Parse` returns it; `claims` is `none` when they are no `jwt.MapClaims`.
pub record JwtToken : Type 0 where
  pub valid : Bool
  pub claims : Option Claims

-- What a GET of the guarded client returns; `body` is `none` when reading it fails.
pub record HttpResponse : Type 0 where
  pub status : ℕ
  pub content_type : String
  pub cache_control : String
  pub body : Option String

pub record External : Type 0 where
  -- `url.Parse`, and the text of a URL after `Set` of the given pairs in its query.
  pub parse_url : String → Option Url
  pub set_query : Url → Dict String → String
  -- base64url of SHA-256, and of HMAC-SHA256 under a key.
  pub sha256_base64url : String → String
  pub hmac_base64url : String → String → String
  -- `json.Unmarshal` into a map (`some none` is JSON null, which makes the map nil) and
  -- `json.MarshalIndent`.
  pub parse_claims : String → Option (Option Claims)
  pub print_claims : Claims → Option String
  -- `json.Unmarshal` into the registration struct, and into a JWK set.
  pub parse_registration : String → Option ClientRegistration
  pub parse_jwks : String → Option (List Jwk)
  -- `jwt.Parse`; the second argument is the key function, which is told whether the token's method
  -- is an RSA method and says whether it hands out the key.
  pub parse_jwt : String → (Bool → Bool) → Option JwtToken
  -- `jwt.NewParser` with the valid methods, a required expiry and a leeway, and its `ParseWithClaims` of
  -- an assertion at a time. The key function is given the header's kid and algorithm.
  pub parse_assertion :
      List String → ℕ → ℕ → String → (String → String → Option (List Jwk)) → Option Claims
  -- `token.SignedString` with RS256 and the server's key.
  pub sign_jwt : Claims → Option String
  -- `mime.ParseMediaType`, without the parameters.
  pub parse_media_type : String → Option String
  -- A text under %q of `fmt`.
  pub quote : String → String
  -- `strings.ToUpper` and `strings.ToLower`.
  pub to_upper : String → String
  pub to_lower : String → String

-- The network of one request: what a GET of the guarded client returns for a URL.
abbrev pub Network : Type 0
Network = String → Option HttpResponse
