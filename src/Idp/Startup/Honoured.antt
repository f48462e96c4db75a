-- ===== src/Idp/Startup/Honoured.antt =====
-- What the discovery document promises is what the server does.
use oidc_oauth2_idp.Prelude.{
  All, String, [], contains, false, len, true, ℕ, ◌∷◌, ◌≡◌, ◌≢◌, ◌≤◌, ◌⊎◌,
}
use oidc_oauth2_idp.Prelude.Text.{◌⧺◌}
use oidc_oauth2_idp.Idp.External.{External, Network}
use oidc_oauth2_idp.Idp.State.{Config, Request, Server, error_page, not_found}
use oidc_oauth2_idp.Idp.Authorize.Client.{challenge_method_of, resolved_client}
use oidc_oauth2_idp.Idp.Startup.{Discovery, ServerSettings, mux_patterns}
use oidc_oauth2_idp.Idp.Authorize.{Fresh, authorize, authorize_resolved, unless_objection}

-- A URL at which the server has a handler.
abbrev pub IsServed : ServerSettings → String → Type 0
IsServed settings url =
    (path : String) × (url ≡ settings.base_url ⧺ path) × (contains mux_patterns path ≡ true)

abbrev IsSubjectType : ServerSettings → Type 0
IsSubjectType settings =
    (settings.kind_of_subject ≡ "public")
    ⊎ ((settings.kind_of_subject ≡ "pairwise") × (16 ≤ len settings.salt))

module _ (x : External) (cfg : Config) (net : Network) where
  -- How /authorize answers a challenge: one by neither GET nor POST is not found, a method of the challenge that
  -- is not listed is refused, with the state as it was, and with one that is listed the request goes on to
  -- its client. The method is that of the request, or the one that the server puts in its place if the
  -- request has none.
  abbrev pub AnswersChallenge : Discovery → Request → Fresh → ℕ → Server → Type 0
  AnswersChallenge d req fresh now s =
      let challenge_method = challenge_method_of x cfg net req in
      ((req.method ≢ "GET")
        × (req.method ≢ "POST")
        × (authorize x cfg net req fresh now s ≡ (s, not_found)))
      ⊎ ((contains d.code_challenge_methods_supported challenge_method ≡ false)
          × (authorize x cfg net req fresh now s
              ≡ (s, error_page 400 "Unsupported code_challenge_method")))
      ⊎ ((contains d.code_challenge_methods_supported challenge_method ≡ true)
          × (authorize x cfg net req fresh now s
              ≡ unless_objection x cfg (authorize_resolved x cfg req challenge_method fresh)
                  (resolved_client x cfg net req now s)))

  pub record IsHonoured (settings : ServerSettings) (d : Discovery) (req : Request) (fresh : Fresh)
      (now : ℕ) (s : Server) : Type 0 where
    pub served : All (IsServed settings) (
        d.authorization_endpoint ∷ d.token_endpoint ∷ d.userinfo_endpoint ∷ d.jwks_uri
        ∷ d.end_session_endpoint ∷ d.registration_endpoint ∷ [])
    pub subject :
        (d.subject_types_supported ≡ settings.kind_of_subject ∷ []) × IsSubjectType settings
    pub challenges : AnswersChallenge d req fresh now s
