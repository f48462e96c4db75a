-- ===== src/Bff/Manager/Cookies.antt =====
-- What the session cookie gives access to.
use oidc_oauth2_idp.Prelude.{
  Bool, Option, String, ap, arith, eq_iff, false, none, refl, some, sym, true, ℕ, ◌+◌, ◌∙◌, ◌≡◌,
  ◌≢◌, ◌≤◌,
}
use oidc_oauth2_idp.Prelude.Dict.{lookup, lookup-delete_ne}
use oidc_oauth2_idp.Bff.Store.{
  BffSession, IsStore, IsToken, MemoryItem, MemoryItems, Store, memory_delete, memory_load,
  memory_store,
}
use oidc_oauth2_idp.Bff.Manager.{
  clear_cookie, cleared, cookie_of, create, destroy, drop_session, get_session, session_ttl,
  set_cookie,
}
use oidc_oauth2_idp.Prelude.Text.{trim_space}

module _ {S : Type 0} (st : Store S) (ok : IsStore st) where
  get_session-load :
      (token : String) (now : ℕ) (s : S)
      → IsToken token
      → get_session st (some token) now s ≡ st.load token now s
  unfolding get_session
  get_session-load token now s (same, n) = rw same (ground (arith, eq_iff token ""))

  drop_session-remove :
      (token : String) (s : S) → IsToken token → drop_session st (some token) s ≡ st.remove token s
  unfolding drop_session
  drop_session-remove token s (same, n) = rw same (ground (arith, eq_iff token ""))

  cookie_of_lem :
      (r : S × Option String) (token : String)
      → (cookie_of st r).1 ≡ some (set_cookie token)
      → (r.1 ≡ some token) × ((cookie_of st r).0 ≡ r.0)
  cookie_of_lem (s, none) token e = cc
  cookie_of_lem (s, some t) token e = (cc, refl)

  -- A session that is created, under an identifier that a cookie can carry, is what the cookie gives
  -- access to for the next 24 hours, in the state that creating it leaves.
  pub get_session-create :
      (id token : String) (sess : BffSession) (now later : ℕ) (s : S)
      → IsToken id
      → (create st (some id) sess now s).1 ≡ some (set_cookie token)
      → later ≤ now + session_ttl
      → (get_session st (some token) later (create st (some id) sess now s).0).1 ≡ some (some sess)
  unfolding create
  get_session-create id token sess now later s valid e h =
      let (saved, same) = cookie_of_lem (st.save (some id) sess session_ttl now s) token e in
      rw same (
        ap (λ (r : S × Option (Option BffSession)). r.1)
          (get_session-load token later _
            (ok.saved_token id sess session_ttl now s token valid saved))
        ∙ ok.load_saved (some id) sess session_ttl now later s token saved h)

  cleared_lem :
      (r : S × Bool)
      → (cleared st r).1 ≡ some clear_cookie
      → (r.1 ≡ true) × ((cleared st r).0 ≡ r.0)
  cleared_lem (s, true) e = (refl, refl)
  cleared_lem (s, false) e = cc

  -- After a logout that succeeds for a cookie without spaces around its value, that cookie gives access to
  -- no session any more.
  pub get_session-destroy :
      (token : String) (later : ℕ) (s : S)
      → IsToken token
      → (destroy st (some token) s).1 ≡ some clear_cookie
      → (get_session st (some token) later (destroy st (some token) s).0).1 ≡ some none
  unfolding destroy
  get_session-destroy token later s valid e =
      let (gone, same) = cleared_lem (drop_session st (some token) s) e in
      let removed = drop_session-remove token s valid in
      rw (same, removed)
        (ap (λ (r : S × Option (Option BffSession)). r.1) (get_session-load token later _ valid)
          ∙ ok.load_removed token later s (ap (λ (r : S × Bool). r.1) (sym removed) ∙ gone))

-- A cookie whose value has spaces around its token is read without them and deleted with them: over the
-- memory store its session survives a logout and is still given to the same cookie.
pub get_session-destroy_padded :
    (value : String) (item : MemoryItem) (now : ℕ) (items : MemoryItems)
    → trim_space value ≢ ""
    → trim_space value ≢ value
    → lookup (trim_space value) items ≡ some item
    → now ≤ item.expires
    → (get_session memory_store (some value) now (destroy memory_store (some value) items).0).1
      ≡ some (some item.sess)
unfolding get_session destroy drop_session memory_load memory_delete
get_session-destroy_padded value item now items n padded e h = ground (
  arith,
  eq_iff (trim_space value) "",
  lookup-delete_ne value (trim_space value) items (λ same. padded (sym same)),
)
