-- ===== src/Bff/Middleware/Forward.antt =====
-- Which access token an API request is forwarded with.
use oidc_oauth2_idp.Prelude.{
  Bool, Bool-cases, Option, Option-cases, String, arith, eq_iff, false, inl, inr, none, not, refl,
  some, sym, true, ℕ, ◌&&◌, ◌+◌, ◌==◌, ◌≡◌, ◌≢◌, ◌⊎◌,
}
use oidc_oauth2_idp.Bff.Store.{BffSession, Store}
use oidc_oauth2_idp.Bff.Manager.{SetCookie, get_session, rotate}
use oidc_oauth2_idp.Bff.Middleware.{
  Dependencies, RefreshedTokens, WebRequest, ended, expired_by, forward_current, forward_loaded,
  is_api, passed, refresh_access_token, refresh_failed, renewed, rotated, token_forwarder,
  token_refresh_threshold,
}
use oidc_oauth2_idp.Prelude.Text.{has_prefix, trim_space, ◌⧺◌}

module _ {S : Type 0} (st : Store S) (deps : Dependencies) where
  -- An access token that may be used now, for a session: its own, unless that has expired and a refresh
  -- was possible; or the one that a refresh gave.
  abbrev pub IsUsable : Option (String → Option RefreshedTokens) → BffSession → ℕ → String → Type 0
  IsUsable refresh current now token =
      ((token ≡ current.access_token)
        × ((expired_by now current.access_token_expiry ≡ false)
            ⊎ (current.refresh_token ≡ "")
            ⊎ (refresh ≡ none)))
      ⊎ ((f : String → Option RefreshedTokens) × (given : RefreshedTokens) × (refresh ≡ some f)
          × (f current.refresh_token ≡ some given)
          × (token ≡ given.new_access_token))

  -- A passage with a usable token.
  abbrev Uses : Option (String → Option RefreshedTokens) → BffSession → ℕ → Option String → Type 0
  Uses refresh current now a =
      (token : String) × (a ≡ some ("Bearer " ⧺ token)) × IsUsable refresh current now token

  ended_lem : (r : S × Option SetCookie) (a : Option String) → (ended st deps r).2 ≢ passed a
  ended_lem (s, some cookie) a = λ e. cc
  ended_lem (s, none) a = λ e. cc

  passed_injective : {a b : Option String} → passed a ≡ passed b → a ≡ b
  passed_injective e = cc

  refresh_failed_lem :
      (req : WebRequest) (current : BffSession) (expired : Bool) (s : S) (a : Option String)
      → (refresh_failed st deps req current expired s).2 ≡ passed a
      → (expired ≡ false) × (a ≡ some ("Bearer " ⧺ current.access_token))
  refresh_failed_lem req current false s a e = (refl, sym (passed_injective e))
  refresh_failed_lem req current true s a e = absurd (ended_lem _ a e)

  rotated_lem :
      (req : WebRequest) (current updated : BffSession) (expired : Bool) (r : S × Option SetCookie)
      (a : Option String)
      → (rotated st deps req current updated expired r).2 ≡ passed a
      → (a ≡ some ("Bearer " ⧺ updated.access_token))
        ⊎ ((expired ≡ false) × (a ≡ some ("Bearer " ⧺ current.access_token)))
  rotated_lem req current updated expired (s, some cookie) a e = inl (sym (passed_injective e))
  rotated_lem req current updated expired (s, none) a e =
      inr (refresh_failed_lem req current expired s a e)

  refresh_access_token-Uses :
      (refresh : String → Option RefreshedTokens) (req : WebRequest) (current : BffSession)
      (id : Option String) (now : ℕ) (s : S) (a : Option String)
      → (refresh_access_token st deps refresh req current
          (expired_by now current.access_token_expiry)
          id
          now
          s).2
        ≡ passed a
      → Uses (some refresh) current now a
  unfolding refresh_access_token
  refresh_access_token-Uses refresh req current id now s a e =
      elim (Option-cases (refresh current.refresh_token)) [
        | inl q ↦
            let (live, same) =
              refresh_failed_lem req current (expired_by now current.access_token_expiry) s a
                (rw (q, refresh_access_token) at e) in
            (current.access_token, same, inl (refl, inl live))
        | inr (given, q) ↦
            elim (rotated_lem req current (renewed current given)
              (expired_by now current.access_token_expiry)
              (rotate st req.session_cookie id (renewed current given) now s) a
              (rw (q, refresh_access_token) at e)) [
                | inl same ↦ (given.new_access_token, same, inr (refresh, given, refl, q, refl))
                | inr (live, same) ↦ (current.access_token, same, inl (refl, inl live))
              ]
      ]

  -- What has expired by now has also expired by a later time.
  expired_by-later :
      (now : ℕ) (expiry : Option ℕ)
      → expired_by (now + token_refresh_threshold) expiry ≡ false
      → expired_by now expiry ≡ false
  expired_by-later now none e = refl
  expired_by-later now (some expiry) e = ground arith

  forward_current-Uses :
      (refresh : Option (String → Option RefreshedTokens)) (req : WebRequest) (current : BffSession)
      (id : Option String) (now : ℕ) (s : S) (a : Option String)
      → (forward_current st deps refresh req current id now s).2 ≡ passed a
      → Uses refresh current now a
  unfolding forward_current
  forward_current-Uses none req current id now s a e =
      (current.access_token, sym (passed_injective e), inl (refl, inr (inr refl)))
  forward_current-Uses (some refresh) req current id now s a e =
      elim (Bool-cases (
        not (current.refresh_token == "")
        && expired_by (now + token_refresh_threshold) current.access_token_expiry)) [
          | inl t ↦
              refresh_access_token-Uses refresh req current id now s a
                (rw (t, forward_current) at e)
          | inr t ↦ (
            current.access_token,
            sym (passed_injective (rw (t, forward_current) at e)),
            inl (
              refl,
              elim (Bool-cases (current.refresh_token == "")) [
                | inl q ↦ inr (inl ((eq_iff current.refresh_token "").0 q))
                | inr q ↦ inl (expired_by-later now current.access_token_expiry (ground arith))
              ],
            ),
          )
        ]

  forward_loaded-Uses :
      (refresh : Option (String → Option RefreshedTokens)) (req : WebRequest) (id : Option String)
      (now : ℕ) (r : S × Option (Option BffSession)) (a : Option String)
      → (forward_loaded st deps refresh req id now r).2 ≡ passed a
      → (current : BffSession) × (r.1 ≡ some (some current)) × Uses refresh current now a
  forward_loaded-Uses refresh req id now (s, none) a e = cc
  forward_loaded-Uses refresh req id now (s, some none) a e = cc
  forward_loaded-Uses refresh req id now (s, some (some current)) a e =
      elim (Bool-cases (trim_space current.access_token == "")) [
        | inl t ↦ cc (rw t at e)
        | inr t ↦ (current, refl, forward_current-Uses refresh req current id now s a (rw t at e))
      ]

  -- A request to the API that has no bearer token of its own goes on only with a session behind its cookie
  -- and as bearer of that session's access token, which has not expired if it could have been refreshed, or
  -- of the access token that refreshing gave.
  pub token_forwarder-Uses :
      (refresh : Option (String → Option RefreshedTokens)) (req : WebRequest) (id : Option String)
      (now : ℕ) (s : S) (a : Option String)
      → is_api deps req.path ≡ true
      → has_prefix (trim_space req.authorization) "Bearer " ≡ false
      → (token_forwarder st deps refresh req id now s).2 ≡ passed a
      → (current : BffSession) × (token : String) × ((get_session st req.session_cookie now s).1
          ≡ some (some current))
        × (a ≡ some ("Bearer " ⧺ token))
        × IsUsable refresh current now token
  unfolding token_forwarder
  token_forwarder-Uses refresh req id now s a api own e =
      let (current, found, (token, same, usable)) =
        forward_loaded-Uses refresh req id now (get_session st req.session_cookie now s) a
          (rw (api, own, token_forwarder) at e) in
      (current, token, found, same, usable)
