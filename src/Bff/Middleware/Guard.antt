-- ===== src/Bff/Middleware/Guard.antt =====
-- Which requests the authentication guard and the CSRF check let through.
use oidc_oauth2_idp.Prelude.{
  Bool-cases, Option, String, arith, eq_iff, false, inl, inr, none, refl, some, sym, true, ℕ, ◌∙◌,
  ◌≡◌, ◌≢◌, ◌⊎◌,
}
use oidc_oauth2_idp.Prelude.Text.{trim_space}
use oidc_oauth2_idp.Bff.Store.{BffSession, Store}
use oidc_oauth2_idp.Bff.Manager.{get_session}
use oidc_oauth2_idp.Bff.Middleware.{
  Dependencies, Passage, WebRequest, auth_guard, by_session, csrf_checked, csrf_exempt,
  csrf_middleware, guarded, is_api, is_bypassed, passed,
}

csrf_checked_lem :
    (header : String) (loaded : Option (Option BffSession))
    → csrf_checked header loaded ≡ passed none
    → (current : BffSession) × (loaded ≡ some (some current))
      × (trim_space header ≢ "")
      × (trim_space header ≡ current.csrf_token)
unfolding csrf_checked
csrf_checked_lem header none e = cc
csrf_checked_lem header (some none) e = cc
csrf_checked_lem header (some (some current)) e = (
  current,
  refl,
  ground (arith, eq_iff (trim_space header) ""),
  ground (arith, eq_iff (trim_space header) current.csrf_token),
)

guarded_lem :
    (loaded : Option (Option BffSession))
    → guarded loaded ≡ passed none
    → (current : BffSession) × (loaded ≡ some (some current))
unfolding guarded
guarded_lem none e = cc
guarded_lem (some none) e = cc
guarded_lem (some (some current)) e = (current, refl)

module _ {S : Type 0} (st : Store S) (deps : Dependencies) where
  by_session_lem :
      (f : Option (Option BffSession) → Passage) (r : S × Option (Option BffSession))
      → (by_session st deps f r).1 ≡ f r.1
  by_session_lem f (s, loaded) = refl

  -- A request that changes state, to the API or to /auth/logout, passes the CSRF check only with a session
  -- and with that session's token, which is not empty, in its X-CSRF-Token header.
  pub csrf_middleware_passed :
      (req : WebRequest) (now : ℕ) (s : S)
      → csrf_exempt deps req ≡ false
      → (csrf_middleware st deps req now s).1 ≡ passed none
      → (current : BffSession) × ((get_session st req.session_cookie now s).1 ≡ some (some current))
        × (trim_space req.csrf_header ≢ "")
        × (trim_space req.csrf_header ≡ current.csrf_token)
  unfolding csrf_middleware
  csrf_middleware_passed req now s h e =
      csrf_checked_lem req.csrf_header (get_session st req.session_cookie now s).1 (
        sym
          (by_session_lem (csrf_checked req.csrf_header) (get_session st req.session_cookie now s))
        ∙ rw (h, csrf_middleware) at e)

  -- A request passes the authentication guard only if its path is of the API or begins with a bypass path,
  -- or if its cookie has a session.
  pub auth_guard_passed :
      (req : WebRequest) (now : ℕ) (s : S)
      → (auth_guard st deps req now s).1 ≡ passed none
      → (is_api deps req.path ≡ true)
        ⊎ (is_bypassed deps req.path ≡ true)
        ⊎ ((current : BffSession) × ((get_session st req.session_cookie now s).1
              ≡ some (some current)))
  unfolding auth_guard
  auth_guard_passed req now s e = elim (Bool-cases (is_api deps req.path)) [
    | inl a ↦ inl a
    | inr a ↦ elim (Bool-cases (is_bypassed deps req.path)) [
      | inl b ↦ inr (inl b)
      | inr b ↦ inr (
          inr (
            guarded_lem (get_session st req.session_cookie now s).1 (
              sym (by_session_lem guarded (get_session st req.session_cookie now s))
              ∙ rw (a, b, auth_guard) at e)))
    ]
  ]
