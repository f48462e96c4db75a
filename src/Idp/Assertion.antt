-- ===== src/Idp/Assertion.antt =====
-- Client assertions (private_key_jwt): idp-auth-server/private_key_jwt.go, with `audContains` of
-- main.go. Errors carry no text here, since the caller only logs it.
pub mod Replay
pub mod Keys
use oidc_oauth2_idp.Prelude.{
  Bool, List, Option, String, [], false, if◌then◌else◌, is_nil, ltb, none, not, some, true, ℕ, ◌&&◌,
  ◌*◌, ◌+◌, ◌==◌, ◌||◌, ◌∷◌,
}
use oidc_oauth2_idp.Prelude.Dict.{Dict, insert, lookup}
use oidc_oauth2_idp.Prelude.Text.{nul_text, ◌⧺◌}
use oidc_oauth2_idp.Idp.State.{
  Claims, ClientIdMetadataEntry, ClientRegistration, Config, Items, Json, Jwk, KeyKind, Server, arr,
  cons, ec_key, nil, num, rsa_key, second, str, text_claim,
}
use oidc_oauth2_idp.Idp.External.{External, Network}
use oidc_oauth2_idp.Idp.Metadata.{fetch_guarded_json}

abbrev pub private_key_jwt_max_lifetime : ℕ
private_key_jwt_max_lifetime = 600 * second

abbrev pub private_key_jwt_leeway : ℕ
private_key_jwt_leeway = 60 * second

abbrev pub private_key_jwt_algorithms : List String
private_key_jwt_algorithms =
    "RS256" ∷ "RS384" ∷ "RS512" ∷ "PS256" ∷ "PS384" ∷ "PS512" ∷ "ES256" ∷ "ES384" ∷ "ES512" ∷ []

-- The loop that prunes the records of assertions which have expired.
unfoldable pub prune : ℕ → Dict ℕ → Dict ℕ
prune now [] = []
prune now ((seen, seen_expiry) ∷ rest) =
    if ltb seen_expiry now then prune now rest else (seen, seen_expiry) ∷ prune now rest

abbrev pub jti_key : String → String → String
jti_key client_id jti = client_id ⧺ nul_text ⧺ jti

-- `consumePrivateKeyJWTJTI`: the new records, and whether the jti is fresh.
unfoldable pub consume_jti : String → String → ℕ → ℕ → Dict ℕ → Dict ℕ × Bool
unfolding prune
consume_jti client_id jti expiry now jtis =
    let live = prune now jtis in
    elim (lookup (jti_key client_id jti) live) [
      | some seen_expiry ↦ (live, false)
      | none ↦ (insert (jti_key client_id jti) (expiry + private_key_jwt_leeway) live, true)
    ]

abbrev pub usable_kind : KeyKind → Bool
usable_kind rsa_key = true
usable_kind ec_key = true
usable_kind _ = false

-- Whether the loop of `verificationKeys` takes a key.
unfoldable pub usable_key : String → Jwk → Bool
usable_key alg key =
    not (not (key.use_for == "") && not (key.use_for == "sig"))
    && not (not (key.algorithm == "") && not (key.algorithm == alg))
    && usable_kind key.kind

unfoldable pub keys_such_that : (Jwk → Bool) → List Jwk → List Jwk
keys_such_that p [] = []
keys_such_that p (k ∷ ks) = if p k then k ∷ keys_such_that p ks else keys_such_that p ks

-- `verificationKeys`; `none` is the error of an unknown kid or of no usable key.
unfoldable pub verification_keys : List Jwk → String → String → Option (List Jwk)
unfolding keys_such_that usable_key
verification_keys keys kid alg =
    let candidates = if kid == "" then keys else keys_such_that (λ k. k.kid == kid) keys in
    let out = keys_such_that (usable_key alg) candidates in if is_nil out then none else some out

abbrev pub json_is : Json → String → Bool
json_is (str s) want = s == want
json_is _ want = false

unfoldable pub items_contain : Items → String → Bool
items_contain nil want = false
items_contain (cons v vs) want = json_is v want || items_contain vs want

unfoldable pub aud_contains : Option Json → String → Bool
unfolding items_contain
aud_contains (some (str s)) want = s == want
aud_contains (some (arr vs)) want = items_contain vs want
aud_contains _ want = false

-- The numeric "exp" claim, in nanoseconds.
abbrev pub expiration : Option Json → Option ℕ
expiration (some (num n)) = some (n * second)
expiration _ = none

module _ (x : External) (cfg : Config) where
  open x use {parse_jwks, parse_assertion}
  open cfg use {external_url}

  -- The keys of a raw JWK set, which must not be empty.
  unfoldable pub resolved_keys : String → Option (List Jwk)
  resolved_keys raw = elim (parse_jwks raw) [
    | none ↦ none
    | some keys ↦ if is_nil keys then none else some keys
  ]

  unfoldable pub published_keys : Network → ClientRegistration → Option (List Jwk)
  unfolding resolved_keys
  published_keys net reg =
      if not (reg.jwks == "")
      then resolved_keys reg.jwks
      else if not (reg.jwks_uri == "")
      then elim (fetch_guarded_json x cfg net reg.jwks_uri) [
        | none ↦ none
        | some (fetched, cache_control) ↦ resolved_keys fetched
      ]
      else none

  -- Keys are stored back onto a live cache entry only.
  unfoldable pub store_keys : String → List Jwk → ℕ → Server → Server
  store_keys client_id keys now s = elim (lookup client_id s.client_id_metadata) [
    | none ↦ s
    | some entry ↦
        if ltb now entry.expires_at
        then record s {
          client_id_metadata =
              insert client_id (record entry { keys = some keys }) s.client_id_metadata;
        }
        else s
  ]

  abbrev pub live_keys : Option ClientIdMetadataEntry → ℕ → Option (List Jwk)
  live_keys none now = none
  live_keys (some entry) now = if ltb now entry.expires_at then entry.keys else none

  -- `clientKeySet`.
  unfoldable pub client_key_set :
      Network → String → ClientRegistration → ℕ → Server → Server × Option (List Jwk)
  unfolding published_keys store_keys
  client_key_set net client_id reg now s =
      elim (live_keys (lookup client_id s.client_id_metadata) now) [
        | some keys ↦ (s, some keys)
        | none ↦ elim (published_keys net reg) [
          | none ↦ (s, none)
          | some keys ↦ (store_keys client_id keys now s, some keys)
        ]
      ]

  -- The claims that the parser accepts, under the client's keys.
  unfoldable pub assertion_claims : List Jwk → String → ℕ → Option Claims
  assertion_claims keys assertion now =
      parse_assertion private_key_jwt_algorithms private_key_jwt_leeway now assertion
        (verification_keys keys)

  -- The checks on the claims of a valid assertion; the result is its jti and its expiry.
  unfoldable pub check_assertion : String → Claims → ℕ → Option (String × ℕ)
  unfolding aud_contains
  check_assertion client_id claims now =
      if not (text_claim claims "iss" == client_id)
        || not (text_claim claims "sub" == client_id)
        || (not (aud_contains (lookup "aud" claims) (external_url ⧺ "/token"))
            && not (aud_contains (lookup "aud" claims) external_url))
      then none
      else elim (expiration (lookup "exp" claims)) [
        | none ↦ none
        | some expiry ↦
            if ltb (now + private_key_jwt_max_lifetime) expiry
            then none
            else if text_claim claims "jti" == ""
            then none
            else some (text_claim claims "jti", expiry)
      ]

  abbrev pub spend : Server → Dict ℕ × Bool → Server × Bool
  spend s (jtis, fresh) = (record s { private_key_jwt_jtis = jtis }, fresh)

  -- The end of `verifyPrivateKeyJWT`, under the client's keys.
  unfoldable pub verify_with_keys : String → List Jwk → String → ℕ → Server → Server × Bool
  unfolding consume_jti assertion_claims check_assertion
  verify_with_keys client_id keys assertion now s = elim (assertion_claims keys assertion now) [
    | none ↦ (s, false)
    | some claims ↦ elim (check_assertion client_id claims now) [
      | none ↦ (s, false)
      | some (jti, expiry) ↦ spend s (consume_jti client_id jti expiry now s.private_key_jwt_jtis)
    ]
  ]

  abbrev pub under_keys : String → String → ℕ → Server × Option (List Jwk) → Server × Bool
  under_keys client_id assertion now (s, none) = (s, false)
  under_keys client_id assertion now (s, some keys) =
      verify_with_keys client_id keys assertion now s

  unfoldable pub verify_private_key_jwt :
      Network → String → ClientRegistration → String → ℕ → Server → Server × Bool
  unfolding client_key_set verify_with_keys
  verify_private_key_jwt net client_id reg assertion now s =
      if assertion == ""
      then (s, false)
      else under_keys client_id assertion now (client_key_set net client_id reg now s)
