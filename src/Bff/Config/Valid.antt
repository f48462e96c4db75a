-- ===== src/Bff/Config/Valid.antt =====
-- Which configurations are accepted.
use oidc_oauth2_idp.Prelude.{
  All, Bool, List, Option-cases, String, [], arith, eq_iff, false, if_both, if◌then◌else◌, inl, inr,
  ltb, refl, some, subst, ◌++◌, ◌==◌, ◌↔◌, ◌∷◌, ◌≡◌, ◌≢◌, ◌≤◌, ◌⊎◌,
}
use oidc_oauth2_idp.Prelude.Text.Affixes.{byte_length}
use oidc_oauth2_idp.Prelude.Text.{fields, trim_space}
use oidc_oauth2_idp.Prelude.Text.Words.{IsWord, fields-IsWord}
use oidc_oauth2_idp.Bff.Config.{
  BffConfig, ConfigError, Environment, default_string, if_valid, load_bff, loaded, missing,
  parse_bool_default, parse_scopes, read_bff, secret_too_short, storage_errors,
  upstream_path_prefix, validate,
}
use oidc_oauth2_idp.Bff.Config.Prefix.{IsPathPrefix, normalize_path_prefix-IsPathPrefix}

-- The settings that the backend cannot do without.
abbrev pub IsValid : BffConfig → Type 0
IsValid c =
    (c.oidc_issuer_url ≢ "")
    × (c.oidc_client_id ≢ "")
    × (c.oidc_client_secret ≢ "")
    × (c.bff_external_url ≢ "")
    × (32 ≤ byte_length c.session_secret)
    × ((c.session_storage_type ≡ "memory")
        ⊎ (c.session_storage_type ≡ "cookie")
        ⊎ ((c.session_storage_type ≡ "redis") × (c.redis_url ≢ "")))
    × (c.api_base_url ≢ "")
    × (c.static_assets_base_url ≢ "")

both : {A P Q : Type 0} {xs ys : List A} → (xs ≡ []) ↔ P → (ys ≡ []) ↔ Q → (xs ++ ys ≡ []) ↔ (P × Q)
both {xs = []} f g = (λ e. (f.0 refl, g.0 e), λ h. g.1 h.1)
both {xs = x ∷ xs} f g = (λ e. cc, λ h. absurd (cons_nil (f.1 h.0)))
  where
    cons_nil : {A : Type 0} {x : A} {xs : List A} → x ∷ xs ≢ []
    cons_nil e = cc

missing_lem : (value variable : String) → (missing value variable ≡ []) ↔ (value ≢ "")
missing_lem value variable = ground (arith, eq_iff value "")

secret_lem :
    (secret : String)
    → ((if ltb (byte_length secret) 32 then secret_too_short ∷ [] else []) ≡ [])
      ↔ (32 ≤ byte_length secret)
secret_lem secret = ground arith

storage_errors_lem :
    (c : BffConfig)
    → (storage_errors c ≡ []) ↔ (
        (c.session_storage_type ≡ "memory")
        ⊎ (c.session_storage_type ≡ "cookie")
        ⊎ ((c.session_storage_type ≡ "redis") × (c.redis_url ≢ "")))
unfolding storage_errors
storage_errors_lem c = ground (
  arith,
  eq_iff c.session_storage_type "memory",
  eq_iff c.session_storage_type "cookie",
  eq_iff c.session_storage_type "redis",
  eq_iff c.redis_url "",
)

-- A configuration has no error if and only if the issuer, the client identifier and its secret, the
-- external URL, the API and the static assets are given, the session secret has at least 32 bytes, and the
-- sessions are kept in memory, in the cookie, or in a Redis server that is given.
pub validate-IsValid : (c : BffConfig) → (validate c ≡ []) ↔ IsValid c
unfolding validate
validate-IsValid c =
    let f =
      both
        (both
          (both
            (both
              (both
                (both
                  (both (missing_lem c.oidc_issuer_url "OIDC_ISSUER_URL")
                    (missing_lem c.oidc_client_id "OIDC_CLIENT_ID"))
                  (missing_lem c.oidc_client_secret "OIDC_CLIENT_SECRET"))
                (missing_lem c.bff_external_url "BFF_EXTERNAL_URL"))
              (secret_lem c.session_secret))
            (storage_errors_lem c))
          (missing_lem c.api_base_url "API_BASE_URL"))
        (missing_lem c.static_assets_base_url "STATIC_ASSETS_BASE_URL") in
    (
      λ e. let (((((((i, k), l), m), o), p), q), r) = f.0 e in (i, k, l, m, o, p, q, r),
      λ (i, k, l, m, o, p, q, r). f.1 (((((((i, k), l), m), o), p), q), r),
    )

abbrev default_scopes : List String
default_scopes = "openid" ∷ "profile" ∷ "email" ∷ "offline_access" ∷ []

default_scopes-IsWord : All IsWord default_scopes
unfolding fields
default_scopes-IsWord = fields-IsWord "openid profile email offline_access"

parse_scopes-IsWord : (raw : String) → All IsWord (parse_scopes raw)
unfolding parse_scopes
parse_scopes-IsWord raw =
    if_both (All IsWord) (trim_space raw == "") default_scopes-IsWord
      (fields-IsWord (trim_space raw))

-- What the rest of the backend finds in a configuration.
abbrev pub IsConfigured : Environment → BffConfig → Type 0
IsConfigured getenv c =
    IsValid c
    × IsPathPrefix c.api_path_prefix
    × IsPathPrefix c.api_upstream_path_prefix
    × All IsWord c.oidc_scopes
    × (parse_bool_default getenv "INSECURE_COOKIES" false ≡ some c.insecure_cookies)

read_bff-IsConfigured :
    (getenv : Environment) (insecure : Bool)
    → parse_bool_default getenv "INSECURE_COOKIES" false ≡ some insecure
    → validate (read_bff getenv insecure) ≡ []
    → IsConfigured getenv (read_bff getenv insecure)
unfolding read_bff upstream_path_prefix
read_bff-IsConfigured getenv insecure b v =
    let own = normalize_path_prefix-IsPathPrefix (default_string getenv "API_PATH_PREFIX" "/api") in
    (
      (validate-IsValid (read_bff getenv insecure)).0 v,
      own,
      if_both IsPathPrefix (trim_space (getenv "API_UPSTREAM_PATH_PREFIX") == "") own
          (normalize_path_prefix-IsPathPrefix (trim_space (getenv "API_UPSTREAM_PATH_PREFIX"))),
      parse_scopes-IsWord (getenv "OIDC_SCOPES"),
      b,
    )

if_valid_lem :
    (c d : BffConfig) (errors : List ConfigError)
    → if_valid c errors ≡ loaded d
    → (errors ≡ []) × (c ≡ d)
if_valid_lem c d [] e = (refl, cc)
if_valid_lem c d (x ∷ xs) e = cc

insecure_cookies_lem :
    (getenv : Environment) (insecure : Bool)
    → read_bff getenv insecure ≡ read_bff getenv (read_bff getenv insecure).insecure_cookies
unfolding read_bff
insecure_cookies_lem getenv insecure = refl

-- A configuration that loads is the one read from the environment. It is valid, its two path prefixes begin
-- with a slash and end with one only if they are one, its scopes are words without spaces, and its cookies
-- are insecure as INSECURE_COOKIES says.
pub load_bff-IsConfigured :
    (getenv : Environment) (c : BffConfig)
    → load_bff getenv ≡ loaded c
    → (c ≡ read_bff getenv c.insecure_cookies) × IsConfigured getenv c
unfolding load_bff
load_bff-IsConfigured getenv c e =
    elim (Option-cases (parse_bool_default getenv "INSECURE_COOKIES" false)) [
      | inl q ↦ cc (rw (q, load_bff) at e)
      | inr (insecure, q) ↦
          let (v, same) =
            if_valid_lem (read_bff getenv insecure) c (validate (read_bff getenv insecure))
              (rw (q, load_bff) at e) in
          subst (λ d. (d ≡ read_bff getenv d.insecure_cookies) × IsConfigured getenv d) same
            (insecure_cookies_lem getenv insecure, read_bff-IsConfigured getenv insecure q v)
    ]
