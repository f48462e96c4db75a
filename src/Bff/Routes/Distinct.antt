-- ===== src/Bff/Routes/Distinct.antt =====
-- When the backend's patterns can be registered.
use oidc_oauth2_idp.Prelude.{
  AllDistinct, String, ap, arith, contains, eq_iff, false, inl, inr, refl, sym, texts_apart, true,
  ◌==◌, ◌↔◌, ◌∙◌, ◌≡◌, ◌≢◌,
}
use oidc_oauth2_idp.Prelude.Text.{has_prefix, ◌⧺◌}
use oidc_oauth2_idp.Bff.Config.Prefix.{IsPathPrefix}
use oidc_oauth2_idp.Bff.Routes.{bff_routes, patterns, register_routes}
use oidc_oauth2_idp.Prelude.Text.Affixes.{
  ends_with, ends_with-append, has_prefix_longer, longer_than_slash,
}

abbrev IsDistinct : String → String → Type 0
IsDistinct s t = (s == t) ≡ false

true_not_false : true ≢ false
true_not_false e = cc

apart : (p s : String) → has_prefix p "/" ≡ true → has_prefix s "/" ≡ false → IsDistinct p s
apart p s t f = texts_apart (λ q. true_not_false (sym t ∙ ap (λ u. has_prefix u "/") q ∙ f))

-- The two patterns of the API differ, and the first is not the one of the static assets.
apart_slash : (p : String) → IsPathPrefix p → IsDistinct p (p ⧺ "/") × IsDistinct "/" (p ⧺ "/")
unfolding ends_with
apart_slash p (begins, inl same) = rw same (refl, refl)
apart_slash p (begins, inr e) = (
  texts_apart (λ q.
      true_not_false
        (sym (ends_with-append b'/' p "/" (λ h. cc)) ∙ ap (λ u. ends_with u b'/') (sym q) ∙ e)),
  texts_apart (λ q. longer_than_slash p begins (sym q)),
)

-- For a path prefix, the patterns that the backend registers are distinct if and only if the prefix is not
-- a slash alone.
pub bff_routes-AllDistinct :
    (p : String) → IsPathPrefix p → AllDistinct (patterns (bff_routes true true true p)) ↔ (p ≢ "/")
unfolding bff_routes register_routes contains has_prefix
bff_routes-AllDistinct p h =
    let long : has_prefix (p ⧺ "/") "/" ≡ true = has_prefix_longer p "/" "/" h.0 in
    ground (
      arith,
      eq_iff "/" p,
      apart p "GET /healthz" h.0 refl,
      apart p "GET /auth/login" h.0 refl,
      apart p "GET /auth/callback" h.0 refl,
      apart p "POST /auth/logout" h.0 refl,
      apart p "GET /auth/me" h.0 refl,
      apart p "GET /auth/avatar" h.0 refl,
      apart (p ⧺ "/") "GET /healthz" long refl,
      apart (p ⧺ "/") "GET /auth/login" long refl,
      apart (p ⧺ "/") "GET /auth/callback" long refl,
      apart (p ⧺ "/") "POST /auth/logout" long refl,
      apart (p ⧺ "/") "GET /auth/me" long refl,
      apart (p ⧺ "/") "GET /auth/avatar" long refl,
      apart_slash p h,
    )
