-- ===== src/Bff/Routes/Protected.antt =====
-- What a request must carry to reach the API.
use oidc_oauth2_idp.Prelude.{
  Bool-cases, Option, String, ap, false, inl, inr, none, not, refl, some, some_injective, subst,
  sym, true, ℕ, ◌==◌, ◌||◌, ◌∙◌, ◌≡◌, ◌≢◌,
}
use oidc_oauth2_idp.Prelude.Text.{has_prefix, trim_space, ◌⧺◌}
use oidc_oauth2_idp.Bff.Store.{BffSession, IsStore, Store}
use oidc_oauth2_idp.Bff.Manager.{SetCookie, get_session}
use oidc_oauth2_idp.Bff.Middleware.{
  Dependencies, Passage, RefreshedTokens, WebRequest, auth_guard, by_session, csrf_checked,
  csrf_exempt, csrf_middleware, is_api, json_error, login_redirect, passed, token_forwarder,
}
use oidc_oauth2_idp.Bff.Middleware.Forward.{IsUsable, token_forwarder-Uses}
use oidc_oauth2_idp.Bff.Routes.{and_then, middleware_stack}
use oidc_oauth2_idp.Bff.Middleware.Guard.{csrf_middleware_passed}

module _ {S : Type 0} (st : Store S) (deps : Dependencies) where
  auth_guard_api :
      (req : WebRequest) (now : ℕ) (s : S)
      → is_api deps req.path ≡ true
      → auth_guard st deps req now s ≡ (s, passed none)
  unfolding auth_guard
  auth_guard_api req now s api = rw (api, auth_guard) refl

module _ {S : Type 0} (st : Store S) (ok : IsStore st) (deps : Dependencies) where
  get_session_twice :
      (cookie : Option String) (now : ℕ) (s : S)
      → (get_session st cookie now (get_session st cookie now s).0).1
        ≡ (get_session st cookie now s).1
  unfolding get_session
  get_session_twice none now s = refl
  get_session_twice (some value) now s = elim (Bool-cases (trim_space value == "")) [
    | inl t ↦ rw (t, get_session) refl
    | inr t ↦ rw (t, get_session) (ok.load_twice (trim_space value) now s)
  ]

  -- The next handler is reached from a middleware only if that lets the request through.
  and_then_lem :
      (next : S → S × SetCookie × Passage) (r : S × Passage) (a : Option String)
      → (and_then st next r).2 ≡ passed a
      → (b : Option String) × (r.1 ≡ passed b) × ((next r.0).2 ≡ passed a)
  and_then_lem next (s, passed b) a e = (b, refl, e)
  and_then_lem next (s, login_redirect) a e = cc
  and_then_lem next (s, json_error status text) a e = cc

  csrf_checked-none :
      (header : String) (loaded : Option (Option BffSession)) (b : Option String)
      → csrf_checked header loaded ≡ passed b
      → passed b ≡ passed none
  unfolding csrf_checked
  csrf_checked-none header none b e = cc
  csrf_checked-none header (some none) b e = cc
  csrf_checked-none header (some (some current)) b e =
      elim (Bool-cases (trim_space header == "" || not (trim_space header == current.csrf_token))) [
        | inl t ↦ cc (rw t at e)
        | inr t ↦ sym (rw t at e)
      ]

  by_session_both :
      (f : Option (Option BffSession) → Passage) (r : S × Option (Option BffSession))
      → ((by_session st deps f r).0 ≡ r.0) × ((by_session st deps f r).1 ≡ f r.1)
  by_session_both f (s, loaded) = (refl, refl)

  -- Of a request that is not exempt, the CSRF check loads the session and lets it through unchanged.
  csrf_middleware_lem :
      (req : WebRequest) (now : ℕ) (s : S) (b : Option String)
      → csrf_exempt deps req ≡ false
      → (csrf_middleware st deps req now s).1 ≡ passed b
      → ((csrf_middleware st deps req now s).0 ≡ (get_session st req.session_cookie now s).0)
        × ((csrf_middleware st deps req now s).1 ≡ passed none)
  unfolding csrf_middleware
  csrf_middleware_lem req now s b h e =
      let (kept, result) =
        by_session_both (csrf_checked req.csrf_header) (get_session st req.session_cookie now s) in
      rw (h, csrf_middleware)
        (
          kept,
          result
              ∙ (sym result ∙ rw (h, csrf_middleware) at e)
              ∙ csrf_checked-none req.csrf_header (get_session st req.session_cookie now s).1 b
                  (sym result ∙ rw (h, csrf_middleware) at e),
        )

  -- A request to the API that may change something and has no bearer token of its own passes the middleware
  -- only with a session behind its cookie, with that session's CSRF token, which is not empty, in its header,
  -- and as bearer of that session's access token, which has not expired if it could have been refreshed, or
  -- of the access token that refreshing gave.
  pub middleware_stack-IsProtected :
      (refresh : Option (String → Option RefreshedTokens)) (req : WebRequest) (id : Option String)
      (now : ℕ) (s : S) (a : Option String)
      → is_api deps req.path ≡ true
      → csrf_exempt deps req ≡ false
      → has_prefix (trim_space req.authorization) "Bearer " ≡ false
      → (middleware_stack st (some deps) refresh req id now s).2 ≡ passed a
      → (current : BffSession) × (token : String) × ((get_session st req.session_cookie now s).1
          ≡ some (some current))
        × (trim_space req.csrf_header ≢ "")
        × (trim_space req.csrf_header ≡ current.csrf_token)
        × (a ≡ some ("Bearer " ⧺ token))
        × IsUsable st deps refresh current now token
  unfolding middleware_stack
  middleware_stack-IsProtected refresh req id now s a api checked own e =
      let (b, q, reached) =
        and_then_lem (token_forwarder st deps refresh req id now)
          (csrf_middleware st deps req now s) a (rw (auth_guard_api st deps req now s api) at e) in
      let (kept, let_through) = csrf_middleware_lem req now s b checked q in
      let (current, found, given, same) =
        csrf_middleware_passed st deps req now s checked let_through in
      let (used, token, loaded, bears, usable) =
        token_forwarder-Uses st deps refresh req id now (csrf_middleware st deps req now s).0 a api
          own reached in
      let one : used ≡ current = some_injective (
        some_injective (
          sym loaded
          ∙ ap (λ t. (get_session st req.session_cookie now t).1) kept
          ∙ get_session_twice req.session_cookie now s
          ∙ found)) in
      (
        current,
        token,
        found,
        given,
        same,
        bears,
        subst (λ x. IsUsable st deps refresh x now token) one usable,
      )
