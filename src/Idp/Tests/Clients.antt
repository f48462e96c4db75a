-- ===== src/Idp/Tests/Clients.antt =====
-- Tests of registrations, metadata documents and assertions at concrete inputs.
use oidc_oauth2_idp.Prelude.{
  List, String, [], arith, false, none, refl, some, ◌*◌, ◌↔◌, ◌∷◌, ◌≡◌, ◌≢◌, ◌≤◌, ◌⊎◌,
}
use oidc_oauth2_idp.Idp.State.{
  ClientRegistration, Jwk, registration_method_client_id_metadata_document,
  registration_method_dynamic, second,
}
use oidc_oauth2_idp.Idp.Samples.{
  dead_net, sample_cfg, sample_key, sample_lib, sample_net, sample_registration,
}
use oidc_oauth2_idp.Idp.Metadata.{
  clamp_ttl, client_id_metadata_auth_methods, client_id_metadata_ttl_from,
  refresh_client_id_metadata, resolve_client_id_metadata,
}
use oidc_oauth2_idp.Idp.Assertion.{consume_jti, verification_keys}
use oidc_oauth2_idp.Idp.Invariant.Reach.{started}
use oidc_oauth2_idp.Idp.Registration.Normalize.{IsNormal, normalize_registration-IsNormal}
use oidc_oauth2_idp.Idp.Assertion.Replay.{consume_jti_once}
use oidc_oauth2_idp.Idp.Assertion.Keys.{Fits, IsIn, verification_keys_lem}
use oidc_oauth2_idp.Idp.Metadata.Lifetime.{clamp_ttl_overflow, client_id_metadata_ttl_from-bounds}
use oidc_oauth2_idp.Idp.Metadata.Cache.{refresh_client_id_metadata_cached}
use oidc_oauth2_idp.Idp.Metadata.Document.{IsDocument, validate_client_id_metadata-IsDocument}
use oidc_oauth2_idp.Idp.Tests.{idp}

consume_jti_once_example :
    (consume_jti "keyed" "j1"
      (200 * second)
      (50 * second)
      (consume_jti "keyed" "j2"
        (90 * second)
        (20 * second)
        (consume_jti "keyed" "j1" (100 * second) 0 []).0).0).1
    ≡ false
unfolding idp
consume_jti_once_example =
    consume_jti_once "keyed" "j1" (100 * second) 0 []
      (("keyed", "j2", 90 * second, 20 * second) ∷ []) (200 * second) (50 * second) refl
      (ground arith, tt) (ground arith)

verification_keys_lem_example :
    ((out : List Jwk) × (verification_keys (sample_key ∷ []) "k1" "ES256" ≡ some out)
      × (out ≢ [])
      × ((key : Jwk) → IsIn key out ↔ (IsIn key (sample_key ∷ []) × Fits "k1" "ES256" key)))
    ⊎ ((verification_keys (sample_key ∷ []) "k1" "ES256" ≡ none)
        × ((key : Jwk) → IsIn key (sample_key ∷ []) → ¬ Fits "k1" "ES256" key))
verification_keys_lem_example = verification_keys_lem (sample_key ∷ []) "k1" "ES256"

abbrev pub registered_sample : ClientRegistration
registered_sample = record sample_registration {
  client_id = "new";
  client_id_issued_at = 7;
  client_secret = "drawn";
  client_secret_expires_at = some 0;
  token_endpoint_auth_method = "client_secret_basic";
  grant_types = "authorization_code" ∷ [];
  response_types = "code" ∷ [];
  scope = "openid";
  registration_method = registration_method_dynamic;
}

abbrev normal_sample : ClientRegistration
normal_sample = record sample_registration {
  token_endpoint_auth_method = "none";
  grant_types = "authorization_code" ∷ [];
  response_types = "code" ∷ [];
  scope = "openid";
}

normalize_registration-IsNormal_example :
    IsNormal sample_lib client_id_metadata_auth_methods normal_sample
unfolding idp
normalize_registration-IsNormal_example =
    normalize_registration-IsNormal sample_lib sample_registration normal_sample
      client_id_metadata_auth_methods "none" (λ e. cc) refl

abbrev document_sample : ClientRegistration
document_sample = record normal_sample {
  client_id = "https://app.example/client";
  client_id_issued_at = 3;
  registration_method = registration_method_client_id_metadata_document;
}

validate_client_id_metadata-IsDocument_example :
    IsDocument sample_lib "https://app.example/client" "{}" (3 * second) document_sample
unfolding idp
validate_client_id_metadata-IsDocument_example =
    validate_client_id_metadata-IsDocument sample_lib sample_cfg "https://app.example/client" "{}"
      (3 * second) document_sample refl

refresh_client_id_metadata_cached_example :
    let url : String = "https://app.example/client" in
    let r = refresh_client_id_metadata sample_lib sample_cfg sample_net url (3 * second) started in
    resolve_client_id_metadata sample_lib sample_cfg dead_net url (100 * second) r.0 ≡ r
unfolding idp
refresh_client_id_metadata_cached_example =
    refresh_client_id_metadata_cached sample_lib sample_cfg sample_net dead_net
      "https://app.example/client" (3 * second) (100 * second) started document_sample
      (120 * second) refl (ground arith)

client_id_metadata_ttl_from-bounds_example :
    let ttl = client_id_metadata_ttl_from 0 "no-cache, max-age=\"30\"" in
    (ttl ≡ 900 * second) ⊎ ((60 * second ≤ ttl) × (ttl ≤ 24 * 3600 * second))
client_id_metadata_ttl_from-bounds_example =
    client_id_metadata_ttl_from-bounds 0 "no-cache, max-age=\"30\""

clamp_ttl_overflow_example : clamp_ttl 9_223_372_037 ≡ 60 * second
clamp_ttl_overflow_example = clamp_ttl_overflow 9_223_372_037 (ground arith) (ground arith)
