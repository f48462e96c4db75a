-- ===== src/Idp/Authorize/Client.antt =====
-- Which requests are turned away before a redirect.
use oidc_oauth2_idp.Prelude.{
  Bool-cases, Option, String, ap, arith, contains, eq_iff, false, inl, inr, none, not, refl, some,
  true, ℕ, ◌&&◌, ◌==◌, ◌↔◌, ◌∙◌, ◌≡◌, ◌≢◌, ◌⊎◌,
}
use oidc_oauth2_idp.Prelude.Dict.{lookup}
use oidc_oauth2_idp.Idp.State.{
  ClientRegistration, Config, Request, Response, Server, error_page, form_get, not_found,
  registration_method_automatic, registration_method_client_id_metadata_document,
  registration_method_dynamic,
}
use oidc_oauth2_idp.Idp.External.{External, Network}
use oidc_oauth2_idp.Idp.Registration.{register_client}
use oidc_oauth2_idp.Idp.Metadata.{is_client_id_metadata_document_url, resolve_client_id_metadata}
use oidc_oauth2_idp.Idp.Authorize.{
  Fresh, asserts_uris, authorize, authorize_resolved, default_challenge_method,
  objection_of_document, or_empty_registration, registration_objection, resolve_authorize_client,
  unless_objection, unsupported_challenge,
}
use oidc_oauth2_idp.Idp.Registration.Automatic.{register_client_same}

-- A registration admits a request: one that asserts its redirect URIs lists the request's, and a public
-- client with a metadata document sends a challenge.
abbrev pub Admits : ClientRegistration → String → String → Type 0
Admits reg redirect_uri code_challenge =
    ((asserts_uris reg ≡ false) ⊎ (contains reg.redirect_uris redirect_uri ≡ true))
    × ((reg.registration_method ≢ registration_method_client_id_metadata_document)
        ⊎ (reg.token_endpoint_auth_method ≢ "none")
        ⊎ (code_challenge ≢ ""))

registration_objection_iff :
    (reg : ClientRegistration) (redirect_uri code_challenge : String)
    → (registration_objection reg redirect_uri code_challenge ≡ none)
      ↔ Admits reg redirect_uri code_challenge
unfolding registration_objection
registration_objection_iff reg redirect_uri code_challenge = ground (
  arith,
  eq_iff reg.registration_method registration_method_client_id_metadata_document,
  eq_iff reg.token_endpoint_auth_method "none",
  eq_iff code_challenge "",
)

objection_unlisted :
    (reg : ClientRegistration) (redirect_uri code_challenge : String)
    → reg.registration_method ≡ registration_method_dynamic
    → contains reg.redirect_uris redirect_uri ≡ false
    → registration_objection reg redirect_uri code_challenge
      ≡ some "The redirect_uri does not match this client's registration"
unfolding registration_objection
objection_unlisted reg redirect_uri code_challenge dynamic unlisted =
    ground (arith, eq_iff reg.registration_method registration_method_dynamic)

pub unsupported_challenge_iff :
    (code_challenge challenge_method : String)
    → (unsupported_challenge code_challenge challenge_method ≡ false)
      ↔ ((code_challenge ≡ "") ⊎ (challenge_method ≡ "S256") ⊎ (challenge_method ≡ "plain"))
unfolding unsupported_challenge
unsupported_challenge_iff c m = ground (arith, eq_iff c "", eq_iff "S256" m, eq_iff "plain" m)

module _ (x : External) (cfg : Config) (net : Network) where
  -- The client of a request is admitted: the document's registration as it is resolved, or the one that
  -- the registry holds after automatic registration.
  abbrev pub IsAdmitted : Request → ℕ → Server → Type 0
  IsAdmitted req now s =
      let client_id = form_get req "client_id" in
      let redirect_uri = form_get req "redirect_uri" in
      let code_challenge = form_get req "code_challenge" in
      ((reg : ClientRegistration) × (is_client_id_metadata_document_url x cfg client_id ≡ true)
        × ((resolve_client_id_metadata x cfg net client_id now s).1 ≡ some reg)
        × Admits reg redirect_uri code_challenge)
      ⊎ ((is_client_id_metadata_document_url x cfg client_id ≡ false)
          × Admits
              (or_empty_registration (
                lookup client_id
                  (register_client client_id redirect_uri (form_get req "scope") now s).clients))
              redirect_uri code_challenge)

  objection_of_document_lem :
      (redirect_uri code_challenge : String) (r : Server × Option ClientRegistration)
      → (objection_of_document x cfg redirect_uri code_challenge r).1 ≡ none
      → (reg : ClientRegistration) × (r.1 ≡ some reg) × Admits reg redirect_uri code_challenge
  objection_of_document_lem redirect_uri code_challenge (s, none) e = cc
  objection_of_document_lem redirect_uri code_challenge (s, some reg) e =
      (reg, refl, (registration_objection_iff reg redirect_uri code_challenge).0 e)

  resolve_authorize_client-IsAdmitted :
      (req : Request) (now : ℕ) (s : Server)
      → (resolve_authorize_client x cfg net
          (form_get req "client_id")
          (form_get req "redirect_uri")
          (form_get req "scope")
          (form_get req "code_challenge")
          now
          s).1
        ≡ none
      → IsAdmitted req now s
  unfolding resolve_authorize_client
  resolve_authorize_client-IsAdmitted req now s e =
      elim (Bool-cases (is_client_id_metadata_document_url x cfg (form_get req "client_id"))) [
        | inl url ↦
            let (reg, resolved, ok) =
              objection_of_document_lem (form_get req "redirect_uri")
                (form_get req "code_challenge")
                (resolve_client_id_metadata x cfg net (form_get req "client_id") now s)
                (rw (url, resolve_authorize_client) at e) in
            inl (reg, url, resolved, ok)
        | inr plain ↦ inr (
          plain,
          (registration_objection_iff _ _ _).0 (rw (plain, resolve_authorize_client) at e),
        )
      ]

  unless_objection_lem :
      (k : Server → Server × Response) (r : Server × Option String)
      → ((text : String) → (unless_objection x cfg k r).1 ≢ error_page 400 text)
      → r.1 ≡ none
  unless_objection_lem k (s, some text) h = absurd (h text refl)
  unless_objection_lem k (s, none) h = refl

  -- The method under which the challenge of a request is stored.
  abbrev pub challenge_method_of : Request → String
  challenge_method_of req =
      default_challenge_method (form_get req "code_challenge")
        (form_get req "code_challenge_method")

  -- The client of a request, as it is resolved.
  abbrev pub resolved_client : Request → ℕ → Server → Server × Option String
  resolved_client req now s =
      resolve_authorize_client x cfg net (form_get req "client_id") (form_get req "redirect_uri")
        (form_get req "scope") (form_get req "code_challenge") now s

  -- The three ways through `authorize`.
  pub authorize_cases :
      (req : Request) (fresh : Fresh) (now : ℕ) (s : Server)
      → (authorize x cfg net req fresh now s ≡ (s, not_found))
        ⊎ (authorize x cfg net req fresh now s
            ≡ (s, error_page 400 "Unsupported code_challenge_method"))
        ⊎ ((unsupported_challenge (form_get req "code_challenge") (challenge_method_of req) ≡ false)
            × (authorize x cfg net req fresh now s
                ≡ unless_objection x cfg
                    (authorize_resolved x cfg req (challenge_method_of req) fresh)
                    (resolved_client req now s)))
  unfolding authorize
  authorize_cases req fresh now s =
      elim (Bool-cases (not (req.method == "GET") && not (req.method == "POST"))) [
        | inl wrong ↦ inl (rw (wrong, authorize))
        | inr right ↦
            elim (Bool-cases
              (unsupported_challenge (form_get req "code_challenge") (challenge_method_of req))) [
                | inl bad ↦ inr (inl (rw (right, bad, authorize)))
                | inr good ↦ inr (inr (good, rw (right, good, authorize)))
              ]
      ]

  -- A request to /authorize that ends in anything but "not found" or an error page with status 400 is for a
  -- client whose registration admits it: the redirect URI is one that a dynamically registered client or a
  -- metadata document lists, a public client with a document sent a challenge, and a challenge that was
  -- sent has a supported method.
  pub authorize-IsAdmitted :
      (req : Request) (fresh : Fresh) (now : ℕ) (s : Server)
      → (authorize x cfg net req fresh now s).1 ≢ not_found
      → ((text : String) → (authorize x cfg net req fresh now s).1 ≢ error_page 400 text)
      → IsAdmitted req now s
        × ((form_get req "code_challenge" ≡ "")
            ⊎ (default_challenge_method
                  (form_get req "code_challenge")
                  (form_get req "code_challenge_method")
                ≡ "S256")
            ⊎ (default_challenge_method
                  (form_get req "code_challenge")
                  (form_get req "code_challenge_method")
                ≡ "plain"))
  authorize-IsAdmitted req fresh now s found fine = elim (authorize_cases req fresh now s) [
    | inl wrong ↦ absurd (found (ap (λ (r : Server × Response). r.1) wrong))
    | inr (inl bad) ↦ absurd (fine _ (ap (λ (r : Server × Response). r.1) bad))
    | inr (inr (good, e)) ↦ (
      resolve_authorize_client-IsAdmitted req now s (
          unless_objection_lem (authorize_resolved x cfg req (challenge_method_of req) fresh)
            (resolved_client req now s) (rw e at fine)),
      (unsupported_challenge_iff _ _).0 good,
    )
  ]

  resolve_unregistered_uri :
      (req : Request) (now : ℕ) (s : Server) (reg : ClientRegistration)
      → is_client_id_metadata_document_url x cfg (form_get req "client_id") ≡ false
      → lookup (form_get req "client_id") s.clients ≡ some reg
      → reg.registration_method ≡ registration_method_dynamic
      → contains reg.redirect_uris (form_get req "redirect_uri") ≡ false
      → resolved_client req now s
        ≡ (s, some "The redirect_uri does not match this client's registration")
  unfolding resolve_authorize_client registration_objection
  resolve_unregistered_uri req now s reg plain known dynamic unlisted =
      rw (plain, resolve_authorize_client)
        (rw
          (register_client_same (form_get req "client_id") (form_get req "redirect_uri")
            (form_get req "scope") now s reg known
            (ground (arith, eq_iff registration_method_dynamic registration_method_automatic)))
          (rw known (ap (λ o. (s, o)) (objection_unlisted reg _ _ dynamic unlisted))))

  -- An /authorize request for a dynamically registered client, whose identifier is no metadata document
  -- URL, with a redirect URI that the client did not register changes nothing and is answered by an
  -- error page (or not at all, if it is neither GET nor POST): there is no redirect and no code.
  pub authorize_unregistered_uri :
      (req : Request) (fresh : Fresh) (now : ℕ) (s : Server) (reg : ClientRegistration)
      → is_client_id_metadata_document_url x cfg (form_get req "client_id") ≡ false
      → lookup (form_get req "client_id") s.clients ≡ some reg
      → reg.registration_method ≡ registration_method_dynamic
      → contains reg.redirect_uris (form_get req "redirect_uri") ≡ false
      → (authorize x cfg net req fresh now s ≡ (s, not_found))
        ⊎ ((text : String) × (authorize x cfg net req fresh now s ≡ (s, error_page 400 text)))
  authorize_unregistered_uri req fresh now s reg plain known dynamic unlisted =
      elim (authorize_cases req fresh now s) [
        | inl wrong ↦ inl wrong
        | inr (inl bad) ↦ inr (_, bad)
        | inr (inr (_, e)) ↦ inr (
          _,
          e
              ∙ ap
                  (unless_objection x cfg
                    (authorize_resolved x cfg req (challenge_method_of req) fresh))
                  (resolve_unregistered_uri req now s reg plain known dynamic unlisted),
        )
      ]
