-- ===== src/Bff/Account/Gone.antt =====
-- What a logout leaves.
use oidc_oauth2_idp.Prelude.{
  Bool, Option, String, false, none, refl, some, some_injective, sym, true, ℕ, ◌∙◌, ◌≡◌,
}
use oidc_oauth2_idp.Bff.Store.{BffSession, IsStore, IsToken, MemoryItems, Store, memory_store}
use oidc_oauth2_idp.Bff.Store.Memory.{memory_store-IsStore}
use oidc_oauth2_idp.Bff.Manager.{
  SetCookie, clear_cookie, cleared, destroy, drop_session, get_session,
}
use oidc_oauth2_idp.Bff.Manager.Cookies.{get_session-destroy}
use oidc_oauth2_idp.Bff.Account.{
  AccountServices, destroyed, logged_out_to, logout_loaded, logout_session, logout_url,
}

module _ (services : AccountServices) {S : Type 0} (st : Store S) (ok : IsStore st) where
  logout_loaded_lem :
      (end_session_endpoint : String) (cookie : Option String) (r : S × Option (Option BffSession))
      (url : String) (given : SetCookie)
      → (logout_loaded services st end_session_endpoint cookie r).1 ≡ logged_out_to url given
      → ((destroy st cookie r.0).1 ≡ some given)
        × ((logout_loaded services st end_session_endpoint cookie r).0 ≡ (destroy st cookie r.0).0)
        × (logout_url services end_session_endpoint r.1 ≡ url)
  logout_loaded_lem end_session_endpoint cookie (s, loaded) url given e =
      of_destroyed (destroy st cookie s) e
    where
      of_destroyed :
          (d : S × Option SetCookie)
          → (destroyed services st end_session_endpoint loaded d).1 ≡ logged_out_to url given
          → (d.1 ≡ some given)
            × ((destroyed services st end_session_endpoint loaded d).0 ≡ d.0)
            × (logout_url services end_session_endpoint loaded ≡ url)
      of_destroyed (t, none) e = cc
      of_destroyed (t, some c) e = (cc, refl, cc)

  cleared-clear_cookie :
      (r : S × Bool) (given : SetCookie)
      → (cleared st r).1 ≡ some given
      → (cleared st r).1 ≡ some clear_cookie
  cleared-clear_cookie (s, true) given e = refl
  cleared-clear_cookie (s, false) given e = cc

  destroy-clear_cookie :
      (cookie : Option String) (s : S) (given : SetCookie)
      → (destroy st cookie s).1 ≡ some given
      → (destroy st cookie s).1 ≡ some clear_cookie
  unfolding destroy
  destroy-clear_cookie cookie s given e = cleared-clear_cookie (drop_session st cookie s) given e

  -- Over any store whose promises hold, one that forgets a session that is deleted among them.
  logout_session_lem :
      (end_session_endpoint token url : String) (given : SetCookie) (now later : ℕ) (s : S)
      → IsToken token
      → (logout_session services st end_session_endpoint (some token) now s).1
        ≡ logged_out_to url given
      → (given ≡ clear_cookie)
        × (url ≡ logout_url services end_session_endpoint (get_session st (some token) now s).1)
        × ((get_session st
              (some token)
              later
              (logout_session services st end_session_endpoint (some token) now s).0).1
            ≡ some none)
  unfolding logout_session
  logout_session_lem end_session_endpoint token url given now later s valid e =
      let loaded = get_session st (some token) now s in
      let (ended, same, to) =
        logout_loaded_lem end_session_endpoint (some token) loaded url given e in
      let cleared = destroy-clear_cookie (some token) loaded.0 given ended in
      (
        some_injective (sym ended ∙ cleared),
        sym to,
        rw same (get_session-destroy st ok token later loaded.0 valid cleared),
      )

-- With the memory store, a logout that does not fail answers with the URL to go to, and with a session cookie
-- that is cleared. From then on the old cookie gives access to no session, if its value is not empty and
-- has no spaces around it.
pub get_session-logout_session :
    (services : AccountServices) (end_session_endpoint token url : String) (given : SetCookie)
    (now later : ℕ) (items : MemoryItems)
    → IsToken token
    → (logout_session services memory_store end_session_endpoint (some token) now items).1
      ≡ logged_out_to url given
    → (given ≡ clear_cookie)
      × (url
          ≡ logout_url services end_session_endpoint
              (get_session memory_store (some token) now items).1)
      × ((get_session memory_store
            (some token)
            later
            (logout_session services memory_store end_session_endpoint (some token) now items).0).1
          ≡ some none)
get_session-logout_session services end_session_endpoint token url given now later items valid e =
    logout_session_lem services memory_store memory_store-IsStore end_session_endpoint token url
      given now later items valid e
