-- ===== src/Idp/Metadata.antt =====
-- Client ID metadata documents: the fetch, the validation and the cache of
-- idp-auth-server/clientid_metadata.go. Errors carry no text here, since every caller only logs it.
pub mod Lifetime
pub mod Cache
pub mod Document
pub mod Address
use oidc_oauth2_idp.Prelude.{
  Bool, List, Option, String, [], any, false, if◌then◌else◌, len, ltb, max, min, none, not, some,
  true, ℕ, ◌%◌, ◌&&◌, ◌*◌, ◌+◌, ◌/◌, ◌==◌, ◌=ℕ◌, ◌||◌, ◌∷◌,
}
use oidc_oauth2_idp.Prelude.Dict.{insert, lookup}
use oidc_oauth2_idp.Prelude.Text.{
  contains_char, cut, equal_fold, has_suffix, positive_number, split, trim, trim_space,
}
use oidc_oauth2_idp.Idp.State.{
  Claims, ClientRegistration, Config, Server, registration_method_client_id_metadata_document,
  second, text_claim,
}
use oidc_oauth2_idp.Idp.External.{External, Network, Url}
use oidc_oauth2_idp.Idp.Registration.{Normalized, normalize_registration, normalized, rejected}

abbrev pub client_id_metadata_max_bytes : ℕ
client_id_metadata_max_bytes = 5120

abbrev pub client_id_metadata_min_ttl : ℕ
client_id_metadata_min_ttl = 60 * second

abbrev pub client_id_metadata_max_ttl : ℕ
client_id_metadata_max_ttl = 24 * 3600 * second

abbrev pub client_id_metadata_default_ttl : ℕ
client_id_metadata_default_ttl = 900 * second

abbrev pub client_id_metadata_auth_methods : List String
client_id_metadata_auth_methods = "none" ∷ "private_key_jwt" ∷ []

-- `time.Duration(seconds) * time.Second` on 64 bits, brought into the bounds. A product whose sign
-- bit is set is negative, hence below the lower bound.
unfoldable pub clamp_ttl : ℕ → ℕ
clamp_ttl seconds =
    let product = seconds * second % 0x1_0000_0000_0000_0000 in
    if ltb product 0x8000_0000_0000_0000
    then min (max product client_id_metadata_min_ttl) client_id_metadata_max_ttl
    else client_id_metadata_min_ttl

-- The max-age of one directive of a Cache-Control header, where it is usable.
unfoldable pub max_age : String → Option ℕ
max_age directive = elim (cut b'=' (trim_space directive)) [
  | none ↦ none
  | some (name, value) ↦
      if equal_fold (trim_space name) "max-age"
      then positive_number (trim b'"' (trim_space value))
      else none
]

-- The loop over the directives.
unfoldable pub ttl_of_directives : ℕ → List String → ℕ
unfolding clamp_ttl
ttl_of_directives fallback [] = fallback
ttl_of_directives fallback (d ∷ ds) = elim (max_age d) [
  | some seconds ↦ clamp_ttl seconds
  | none ↦ ttl_of_directives fallback ds
]

-- `clientIDMetadataTTLFrom`, under the configured lifetime.
unfoldable pub client_id_metadata_ttl_from : ℕ → String → ℕ
unfolding ttl_of_directives
client_id_metadata_ttl_from configured cache_control =
    ttl_of_directives (if configured =ℕ 0 then client_id_metadata_default_ttl else configured)
      (split b',' cache_control)

module _ (x : External) (cfg : Config) where
  open x use {parse_url, parse_claims, parse_registration, parse_media_type}

  -- Whether a URL is a Client Identifier URL, for the text that it was parsed from.
  unfoldable pub is_client_identifier : Url → String → Bool
  is_client_identifier u client_id =
      (u.scheme == "https" || u.scheme == "http")
      && not u.has_user
      && not (u.host == "")
      && not (u.path == "" || u.path == "/")
      && not (any (λ segment. segment == "." || segment == "..") (split b'/' u.escaped_path))
      && not (not (u.fragment == "") || contains_char client_id b'#')

  -- `clientIDMetadataURL` and `isClientIDMetadataDocumentURL`.
  unfoldable pub is_client_id_metadata_document_url : String → Bool
  unfolding is_client_identifier
  is_client_id_metadata_document_url client_id = elim (parse_url client_id) [
    | none ↦ false
    | some u ↦ is_client_identifier u client_id
  ]

  -- `fetchGuardedJSON`, from the response: the body and the Cache-Control header.
  unfoldable pub fetch_guarded_json : Network → String → Option (String × String)
  fetch_guarded_json net url = elim (net url) [
    | none ↦ none
    | some resp ↦
        if not (resp.status =ℕ 200) then none else elim (parse_media_type resp.content_type) [
          | none ↦ none
          | some media_type ↦
              if not (media_type == "application/json") && not (has_suffix media_type "+json")
              then none
              else elim resp.body [
                | none ↦ none
                | some body ↦
                    if ltb client_id_metadata_max_bytes (len body)
                    then none
                    else some (body, resp.cache_control)
              ]
        ]
  ]

  abbrev pub nil_to_empty : Option Claims → Claims
  nil_to_empty none = []
  nil_to_empty (some m) = m

  abbrev pub is_present {ℓ} : {A : Type ℓ} → Option A → Bool
  is_present none = false
  is_present (some a) = true

  -- The checks on the raw document.
  unfoldable pub raw_document_ok : String → Claims → Bool
  raw_document_ok client_id raw =
      not (text_claim raw "client_id" == "")
      && text_claim raw "client_id" == client_id
      && not (is_present (lookup "client_secret" raw))
      && not (is_present (lookup "client_secret_expires_at" raw))

  -- The end of `validateClientIDMetadata`, from the normalised metadata.
  unfoldable pub document_registration : String → Normalized → ℕ → Option ClientRegistration
  document_registration client_id (rejected code description) now = none
  document_registration client_id (normalized reg) now =
      if reg.token_endpoint_auth_method == "private_key_jwt" && reg.jwks == "" && reg.jwks_uri == ""
      then none
      else some (record reg {
        client_id = client_id;
        client_id_issued_at = now / second;
        client_secret = "";
        client_secret_expires_at = none;
        registration_method = registration_method_client_id_metadata_document;
      })

  unfoldable pub validate_client_id_metadata : String → String → ℕ → Option ClientRegistration
  unfolding document_registration raw_document_ok
  validate_client_id_metadata client_id body now = elim (parse_claims body) [
    | none ↦ none
    | some raw ↦
        if not (raw_document_ok client_id (nil_to_empty raw))
        then none
        else elim (parse_registration body) [
          | none ↦ none
          | some reg ↦
              document_registration client_id
                (normalize_registration x reg client_id_metadata_auth_methods "none") now
        ]
  ]

  unfoldable pub fetch_client_id_metadata : Network → String → ℕ → Option (ClientRegistration × ℕ)
  fetch_client_id_metadata net client_id now = elim (fetch_guarded_json net client_id) [
    | none ↦ none
    | some (body, cache_control) ↦ elim (validate_client_id_metadata client_id body now) [
      | none ↦ none
      | some reg ↦ some (reg, client_id_metadata_ttl_from cfg.client_id_metadata_ttl cache_control)
    ]
  ]

  -- The first issue time of a client that is known by its document already.
  unfoldable pub keep_issue_time :
      Option ClientRegistration → ClientRegistration → ClientRegistration
  keep_issue_time none reg = reg
  keep_issue_time (some previous) reg =
      if previous.registration_method == registration_method_client_id_metadata_document
        && not (previous.client_id_issued_at =ℕ 0)
      then record reg { client_id_issued_at = previous.client_id_issued_at }
      else reg

  unfoldable pub store_document : String → ClientRegistration → ℕ → ℕ → Server → Server
  unfolding keep_issue_time
  store_document client_id fetched ttl now s =
      let reg = keep_issue_time (lookup client_id s.clients) fetched in
      record s {
        client_id_metadata =
            insert client_id (record { reg = reg; keys = none; expires_at = now + ttl })
              s.client_id_metadata;
        clients = insert client_id reg s.clients;
      }

  unfoldable pub refresh_client_id_metadata :
      Network → String → ℕ → Server → Server × Option ClientRegistration
  unfolding store_document
  refresh_client_id_metadata net client_id now s =
      elim (fetch_client_id_metadata net client_id now) [
        | none ↦ (s, none)
        | some (fetched, ttl) ↦ (
          store_document client_id fetched ttl now s,
          some (keep_issue_time (lookup client_id s.clients) fetched),
        )
      ]

  unfoldable pub resolve_client_id_metadata :
      Network → String → ℕ → Server → Server × Option ClientRegistration
  unfolding refresh_client_id_metadata
  resolve_client_id_metadata net client_id now s = elim (lookup client_id s.client_id_metadata) [
    | none ↦ refresh_client_id_metadata net client_id now s
    | some entry ↦
        if ltb now entry.expires_at
        then (s, some entry.reg)
        else refresh_client_id_metadata net client_id now s
  ]
