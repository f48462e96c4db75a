-- ===== src/Idp/Metadata/Document.antt =====
-- What a client ID metadata document that passes validation is like: `validateClientIDMetadata` of
-- idp-auth-server/clientid_metadata.go.
use oidc_oauth2_idp.Prelude.{
  Bool-cases, Option, Option-cases, String, [], ap, arith, eq_iff, false, inl, inr, none, refl,
  some, some_injective, subst, true, ℕ, ◌&&◌, ◌/◌, ◌==◌, ◌∙◌, ◌≡◌, ◌≢◌, ◌⊎◌,
}
use oidc_oauth2_idp.Prelude.Dict.{lookup}
use oidc_oauth2_idp.Idp.State.{
  Claims, ClientRegistration, Config, registration_method_client_id_metadata_document, second,
  text_claim,
}
use oidc_oauth2_idp.Idp.External.{External}
use oidc_oauth2_idp.Idp.Registration.{Normalized, normalize_registration, normalized, rejected}
use oidc_oauth2_idp.Idp.Registration.Normalize.{IsNormal, normalize_registration-IsNormal}
use oidc_oauth2_idp.Idp.Registration.Dynamic.{IsNormal-stamp}
use oidc_oauth2_idp.Idp.Metadata.{
  client_id_metadata_auth_methods, document_registration, nil_to_empty, raw_document_ok,
  validate_client_id_metadata,
}

-- The registration of a valid document, with the document that it was read from.
pub record IsDocument (x : External) (client_id body : String) (now : ℕ) (reg : ClientRegistration)
    : Type 0 where
  pub raw : Claims
  pub parsed : x.parse_claims body ≡ some (some raw)
  pub names_itself : text_claim raw "client_id" ≡ client_id
  pub no_secret : lookup "client_secret" raw ≡ none
  pub normal : IsNormal x client_id_metadata_auth_methods reg
  pub identifier : reg.client_id ≡ client_id
  pub issued_at : reg.client_id_issued_at ≡ now / second
  pub secretless : (reg.client_secret ≡ "") × (reg.client_secret_expires_at ≡ none)
  pub how : reg.registration_method ≡ registration_method_client_id_metadata_document
  pub keyed :
      (reg.token_endpoint_auth_method ≢ "private_key_jwt") ⊎ (reg.jwks ≢ "") ⊎ (reg.jwks_uri ≢ "")

module _ (x : External) (cfg : Config) where
  abbrev RawOk : String → Claims → Type 0
  RawOk client_id raw =
      (text_claim raw "client_id" ≢ "")
      × (text_claim raw "client_id" ≡ client_id)
      × (lookup "client_secret" raw ≡ none)

  raw_document_ok_lem :
      (client_id : String) (raw : Claims)
      → raw_document_ok x cfg client_id raw ≡ true
      → RawOk client_id raw
  unfolding raw_document_ok
  raw_document_ok_lem client_id raw h =
      ground (
        arith,
        eq_iff (text_claim raw "client_id") "",
        eq_iff (text_claim raw "client_id") client_id,
      )

  raw_of :
      (client_id : String) (o : Option Claims)
      → raw_document_ok x cfg client_id (nil_to_empty x cfg o) ≡ true
      → (raw : Claims) × (o ≡ some raw) × RawOk client_id raw
  unfolding lookup
  raw_of client_id none h = absurd ((raw_document_ok_lem client_id [] h).0 refl)
  raw_of client_id (some raw) h = (raw, refl, raw_document_ok_lem client_id raw h)

  keyed_lem :
      (reg : ClientRegistration)
      → (reg.token_endpoint_auth_method == "private_key_jwt"
          && reg.jwks == ""
          && reg.jwks_uri == "")
        ≡ false
      → (reg.token_endpoint_auth_method ≢ "private_key_jwt") ⊎ (reg.jwks ≢ "") ⊎ (reg.jwks_uri ≢ "")
  keyed_lem reg h = ground (
    arith,
    eq_iff reg.token_endpoint_auth_method "private_key_jwt",
    eq_iff reg.jwks "",
    eq_iff reg.jwks_uri "",
  )

  document_registration-IsDocument :
      (client_id body : String) (now : ℕ) (reg given full : ClientRegistration) (raw : Claims)
      → x.parse_claims body ≡ some (some raw)
      → RawOk client_id raw
      → normalize_registration x given client_id_metadata_auth_methods "none" ≡ normalized full
      → document_registration x cfg client_id (normalized full) now ≡ some reg
      → IsDocument x client_id body now reg
  unfolding document_registration
  document_registration-IsDocument client_id body now reg given full raw p ok n e =
      elim (Bool-cases (
        full.token_endpoint_auth_method == "private_key_jwt"
        && full.jwks == ""
        && full.jwks_uri == "")) [
          | inl t ↦ cc (rw (t, document_registration) at e)
          | inr t ↦
              subst (IsDocument x client_id body now)
                (some_injective (rw (t, document_registration) at e))
                (record {
                  raw = raw;
                  parsed = p;
                  names_itself = ok.1;
                  no_secret = ok.2;
                  normal =
                      IsNormal-stamp x client_id_metadata_auth_methods full client_id ""
                        registration_method_client_id_metadata_document (now / second) none
                        (normalize_registration-IsNormal x given full
                          client_id_metadata_auth_methods "none" (ground (arith, eq_iff "none" ""))
                          n);
                  identifier = refl;
                  issued_at = refl;
                  secretless = (refl, refl);
                  how = refl;
                  keyed = keyed_lem full t;
                })
        ]

  checked-IsDocument :
      (client_id body : String) (now : ℕ) (reg given : ClientRegistration) (raw : Claims)
      (n : Normalized)
      → x.parse_claims body ≡ some (some raw)
      → RawOk client_id raw
      → normalize_registration x given client_id_metadata_auth_methods "none" ≡ n
      → document_registration x cfg client_id n now ≡ some reg
      → IsDocument x client_id body now reg
  unfolding document_registration
  checked-IsDocument client_id body now reg given raw (rejected code description) p ok q e = cc
  checked-IsDocument client_id body now reg given raw (normalized full) p ok q e =
      document_registration-IsDocument client_id body now reg given full raw p ok q e

  -- A document that is accepted for a URL names that URL as its client_id and holds no secret; its
  -- registration is normalised, has the URL as identifier and no secret, authenticates by none or
  -- private_key_jwt, and in the second case comes with keys or a place to fetch them from.
  pub validate_client_id_metadata-IsDocument :
      (client_id body : String) (now : ℕ) (reg : ClientRegistration)
      → validate_client_id_metadata x cfg client_id body now ≡ some reg
      → IsDocument x client_id body now reg
  unfolding validate_client_id_metadata
  validate_client_id_metadata-IsDocument client_id body now reg e =
      elim (Option-cases (x.parse_claims body)) [
        | inl p ↦ cc (rw (p, validate_client_id_metadata) at e)
        | inr (o, p) ↦ elim (Bool-cases (raw_document_ok x cfg client_id (nil_to_empty x cfg o))) [
          | inr bad ↦ cc (rw (p, bad, validate_client_id_metadata) at e)
          | inl good ↦ elim (Option-cases (x.parse_registration body)) [
            | inl q ↦ cc (rw (p, good, q, validate_client_id_metadata) at e)
            | inr (given, q) ↦
                let (raw, same, ok) = raw_of client_id o good in
                checked-IsDocument client_id body now reg given raw _ (p ∙ ap some same) ok refl
                  (rw (p, good, q, validate_client_id_metadata) at e)
          ]
        ]
      ]
