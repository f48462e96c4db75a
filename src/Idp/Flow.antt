-- ===== src/Idp/Flow.antt =====
-- What resolving and authenticating a client leaves alone: the authorization flow's own state.
use oidc_oauth2_idp.Prelude.{
  Bool, Bool-cases, List, Option, Option-cases, String, arith, if_both, inl, inr, none, refl, some,
  ℕ, ◌==◌, ◌∙◌, ◌≡◌,
}
use oidc_oauth2_idp.Idp.State.{
  ClientRegistration, Config, Jwk, Server, registration_method_client_id_metadata_document,
  registration_method_dynamic,
}
use oidc_oauth2_idp.Idp.External.{External, Network}
use oidc_oauth2_idp.Idp.Metadata.{
  is_client_id_metadata_document_url, refresh_client_id_metadata, resolve_client_id_metadata,
}
use oidc_oauth2_idp.Idp.Assertion.{
  client_key_set, under_keys, verify_private_key_jwt, verify_with_keys,
}
use oidc_oauth2_idp.Prelude.Dict.{lookup}
use oidc_oauth2_idp.Idp.ClientAuth.{
  ClientCredentials, authenticate_client, authenticate_known, authenticate_refreshed,
  authenticate_registered,
}
use oidc_oauth2_idp.Idp.Authorize.{objection_of_document, resolve_authorize_client}
use oidc_oauth2_idp.Idp.Registration.{register_client}

-- Two states with the same requests under way, codes and sessions.
pub record SameFlow (s t : Server) : Type 0 where
  pub contexts : t.auth_context ≡ s.auth_context
  pub codes : t.code_meta ≡ s.code_meta
  pub browser_sessions : t.sessions ≡ s.sessions

-- An operation that returns such a state.
abbrev Leaves {ℓ} : {B : Type ℓ} → Server → Server × B → Type 0
Leaves s r = SameFlow s r.0

pub SameFlow-refl : (s : Server) → SameFlow s s
SameFlow-refl s = record { contexts = refl; codes = refl; browser_sessions = refl }

SameFlow-trans : {s t u : Server} → SameFlow s t → SameFlow t u → SameFlow s u
SameFlow-trans a b = record {
  contexts = b.contexts ∙ a.contexts;
  codes = b.codes ∙ a.codes;
  browser_sessions = b.browser_sessions ∙ a.browser_sessions;
}

module _ (x : External) (cfg : Config) (net : Network) where
  refresh-SameFlow :
      (client_id : String) (now : ℕ) (s : Server)
      → SameFlow s (refresh_client_id_metadata x cfg net client_id now s).0
  unfolding refresh_client_id_metadata
  refresh-SameFlow client_id now s = ground arith

  pub resolve-SameFlow :
      (client_id : String) (now : ℕ) (s : Server)
      → SameFlow s (resolve_client_id_metadata x cfg net client_id now s).0
  unfolding resolve_client_id_metadata
  resolve-SameFlow client_id now s = ground arith

  client_key_set-SameFlow :
      (client_id : String) (reg : ClientRegistration) (now : ℕ) (s : Server)
      → SameFlow s (client_key_set x cfg net client_id reg now s).0
  unfolding client_key_set
  client_key_set-SameFlow client_id reg now s = ground arith

  verify_with_keys-SameFlow :
      (client_id : String) (keys : List Jwk) (assertion : String) (now : ℕ) (s : Server)
      → SameFlow s (verify_with_keys x cfg client_id keys assertion now s).0
  unfolding verify_with_keys
  verify_with_keys-SameFlow client_id keys assertion now s = ground arith

  under_keys-SameFlow :
      (client_id assertion : String) (now : ℕ) (s : Server) (r : Server × Option (List Jwk))
      → SameFlow s r.0
      → SameFlow s (under_keys x cfg client_id assertion now r).0
  under_keys-SameFlow client_id assertion now s (t, none) h = h
  under_keys-SameFlow client_id assertion now s (t, some keys) h =
      SameFlow-trans h (verify_with_keys-SameFlow client_id keys assertion now t)

  verify-SameFlow :
      (client_id : String) (reg : ClientRegistration) (assertion : String) (now : ℕ) (s : Server)
      → SameFlow s (verify_private_key_jwt x cfg net client_id reg assertion now s).0
  unfolding verify_private_key_jwt
  verify-SameFlow client_id reg assertion now s =
      if_both (Leaves {B = Bool} s) (assertion == "") (SameFlow-refl s) (
        under_keys-SameFlow client_id assertion now s _
          (client_key_set-SameFlow client_id reg now s))

  registered-SameFlow :
      (client_id : String) (reg : ClientRegistration) (creds : ClientCredentials) (now : ℕ)
      (s : Server)
      → SameFlow s (authenticate_registered x cfg net client_id reg creds now s).0
  unfolding authenticate_registered
  registered-SameFlow client_id reg creds now s =
      ground (arith, verify-SameFlow client_id reg creds.assertion now s)

  refreshed-SameFlow :
      (client_id : String) (reg : ClientRegistration) (creds : ClientCredentials) (now : ℕ)
      (s : Server) (r : Server × Option ClientRegistration)
      → SameFlow s r.0
      → SameFlow s (authenticate_refreshed x cfg net client_id reg creds now r).0
  unfolding authenticate_refreshed
  refreshed-SameFlow client_id reg creds now s (t, some refreshed) h =
      SameFlow-trans h (registered-SameFlow client_id refreshed creds now t)
  refreshed-SameFlow client_id reg creds now s (t, none) h =
      SameFlow-trans h (ground (arith, registered-SameFlow client_id reg creds now t))

  known-SameFlow :
      (client_id : String) (reg : ClientRegistration) (creds : ClientCredentials) (now : ℕ)
      (s : Server)
      → SameFlow s (authenticate_known x cfg net client_id reg creds now s).0
  unfolding authenticate_known
  known-SameFlow client_id reg creds now s =
      elim (Bool-cases (reg.registration_method == registration_method_dynamic)) [
        | inl e ↦ rw (e, authenticate_known) (registered-SameFlow client_id reg creds now s)
        | inr e ↦
            elim (Bool-cases
              (reg.registration_method == registration_method_client_id_metadata_document)) [
                | inl d ↦
                    rw (e, d, authenticate_known)
                      (refreshed-SameFlow client_id reg creds now s
                        (resolve_client_id_metadata x cfg net client_id now s)
                        (resolve-SameFlow client_id now s))
                | inr d ↦ rw (e, d, authenticate_known) (SameFlow-refl s)
              ]
      ]

  -- Authenticating a client leaves the requests under way, the codes and the sessions as they are.
  pub authenticate_client-SameFlow :
      (client_id : String) (creds : ClientCredentials) (now : ℕ) (s : Server)
      → SameFlow s (authenticate_client x cfg net client_id creds now s).0
  unfolding authenticate_client
  authenticate_client-SameFlow client_id creds now s =
      elim (Option-cases (lookup client_id s.clients)) [
        | inl e ↦ rw (e, authenticate_client) (SameFlow-refl s)
        | inr (reg, e) ↦ rw (e, authenticate_client) (known-SameFlow client_id reg creds now s)
      ]

  objection-SameFlow :
      (redirect_uri code_challenge : String) (s : Server) (r : Server × Option ClientRegistration)
      → SameFlow s r.0
      → SameFlow s (objection_of_document x cfg redirect_uri code_challenge r).0
  objection-SameFlow redirect_uri code_challenge s (t, none) h = h
  objection-SameFlow redirect_uri code_challenge s (t, some reg) h = h

  -- So does establishing the client of an authorization request.
  pub resolve_authorize_client-SameFlow :
      (client_id redirect_uri scope code_challenge : String) (now : ℕ) (s : Server)
      → SameFlow s
          (resolve_authorize_client x cfg net client_id redirect_uri scope code_challenge now s).0
  unfolding resolve_authorize_client register_client
  resolve_authorize_client-SameFlow client_id redirect_uri scope code_challenge now s =
      if_both (Leaves {B = Option String} s) (is_client_id_metadata_document_url x cfg client_id)
        (objection-SameFlow redirect_uri code_challenge s _ (resolve-SameFlow client_id now s))
        (record { contexts = refl; codes = refl; browser_sessions = refl })
