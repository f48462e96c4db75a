-- ===== src/Bff/Account/Welcome.antt =====
-- What a login leads to.
use oidc_oauth2_idp.Prelude.{
  Bool, Option, String, ap, eq_refl, false, none, refl, some, some_injective, texts_apart, true, ℕ,
  ◌+◌, ◌∙◌, ◌≡◌, ◌≢◌, ◌≤◌,
}
use oidc_oauth2_idp.Bff.StateClaims.{StateClaims, claim}
use oidc_oauth2_idp.Bff.Store.{IsStore, IsToken, Store}
use oidc_oauth2_idp.Bff.Manager.{SetCookie, create, get_session, session_ttl, set_cookie}
use oidc_oauth2_idp.Bff.Callback.{
  CallbackRequest, LoginServices, TokenSet, callback, created, exchanged_code, if_claimed,
  read_claims, session_of, welcome,
}
use oidc_oauth2_idp.Bff.Account.{LoginRedirect, start_login}
use oidc_oauth2_idp.Bff.Manager.Cookies.{get_session-create}

-- The request with which a browser comes back from a login with a code: with the cookies that were set, and
-- with the state that it was sent away with.
abbrev pub came_back : LoginRedirect → String → CallbackRequest
came_back login code = record {
  state_cookie = some login.set_state_cookie;
  verifier_cookie = some login.set_verifier_cookie;
  state_param = login.set_state_cookie;
  code_param = code;
}

module _ {S : Type 0} (st : Store S) (services : LoginServices) where
  if_claimed_free :
      (req : CallbackRequest) (id : Option String) (csrf : String) (now : ℕ) (s : S)
      (r : StateClaims × Bool)
      → r.1 ≡ true
      → if_claimed st services req id csrf now s r
        ≡ exchanged_code st services req id csrf now r.0 s
  if_claimed_free req id csrf now s (c, true) e = refl
  if_claimed_free req id csrf now s (c, false) e = cc

  created_lem :
      (c : StateClaims) (csrf : String) (r : S × Option SetCookie) (cookie : SetCookie)
      → r.1 ≡ some cookie
      → created st services c csrf r ≡ (r.0, c, welcome cookie csrf)
  created_lem c csrf (s, none) cookie e = cc
  created_lem c csrf (s, some given) cookie e = ap (λ k. (s, c, welcome k csrf)) (some_injective e)

  callback-came_back :
      (auth_code_url : String → String → String) (state verifier code csrf : String)
      (id : Option String) (set : TokenSet) (sub : String) (now : ℕ) (c : StateClaims) (s : S)
      → state ≢ ""
      → verifier ≢ ""
      → code ≢ ""
      → (claim state now c).1 ≡ true
      → services.exchange_code code verifier ≡ some set
      → read_claims services set ≡ some sub
      → callback st services
          (came_back (start_login auth_code_url state verifier) code)
          id
          csrf
          now
          c
          s
        ≡ created st services (claim state now c).0 csrf (create st id (session_of set csrf) now s)
  unfolding callback start_login exchanged_code
  callback-came_back auth_code_url state verifier code csrf id set sub now c s a b k free exchanged
        read =
      rw (texts_apart a, eq_refl state, texts_apart b, texts_apart k, callback)
        (if_claimed_free (came_back (start_login auth_code_url state verifier) code) id csrf now s
            (claim state now c) free
          ∙ rw (exchanged, read, exchanged_code) refl)

  -- A login comes to its end: a browser that returns with the cookies of its login, the state and a code is
  -- welcomed, provided that the state has not been claimed, that the code is exchanged for tokens with the
  -- login's verifier, that their ID token is verified, and that the session is saved. Its new cookie then
  -- gives access to a session with these tokens for 24 hours.
  pub callback-start_login :
      (ok : IsStore st) (auth_code_url : String → String → String)
      (state verifier code csrf id token : String) (set : TokenSet) (sub : String) (now later : ℕ)
      (c : StateClaims) (s : S)
      → state ≢ ""
      → verifier ≢ ""
      → code ≢ ""
      → (claim state now c).1 ≡ true
      → services.exchange_code code verifier ≡ some set
      → read_claims services set ≡ some sub
      → IsToken id
      → (create st (some id) (session_of set csrf) now s).1 ≡ some (set_cookie token)
      → later ≤ now + session_ttl
      → ((callback st services
            (came_back (start_login auth_code_url state verifier) code)
            (some id)
            csrf
            now
            c
            s).2
          ≡ welcome (set_cookie token) csrf)
        × ((get_session st
              (some token)
              later
              (callback st services
                (came_back (start_login auth_code_url state verifier) code)
                (some id)
                csrf
                now
                c
                s).0).1
            ≡ some (some (session_of set csrf)))
  callback-start_login ok auth_code_url state verifier code csrf id token set sub now later c s a b
        k free exchanged read valid saved h =
      rw
        (callback-came_back auth_code_url state verifier code csrf (some id) set sub now c s a b k
            free exchanged read
          ∙ created_lem (claim state now c).0 csrf (create st (some id) (session_of set csrf) now s)
              (set_cookie token) saved)
        (refl, get_session-create st ok id token (session_of set csrf) now later s valid saved h)
