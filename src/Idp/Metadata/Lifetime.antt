-- ===== src/Idp/Metadata/Lifetime.antt =====
-- How long a client ID metadata document is kept: `clientIDMetadataTTLFrom` of
-- idp-auth-server/clientid_metadata.go.
use oidc_oauth2_idp.Prelude.{
  List, Option-cases, String, [], arith, if◌then◌else◌, inl, inr, ltb, refl, some, ℕ, ◌*◌, ◌=ℕ◌,
  ◌∷◌, ◌≡◌, ◌≤◌, ◌⊎◌,
}
use oidc_oauth2_idp.Prelude.Text.{split}
use oidc_oauth2_idp.Idp.State.{second}
use oidc_oauth2_idp.Idp.Metadata.{
  clamp_ttl, client_id_metadata_default_ttl, client_id_metadata_max_ttl, client_id_metadata_min_ttl,
  client_id_metadata_ttl_from, max_age, ttl_of_directives,
}

-- The nearest lifetime within the bounds.
abbrev pub nearest : ℕ → ℕ
nearest ttl =
    if ltb ttl client_id_metadata_min_ttl
    then client_id_metadata_min_ttl
    else if ltb client_id_metadata_max_ttl ttl
    then client_id_metadata_max_ttl
    else ttl

clamp_ttl_bounds :
    (seconds : ℕ)
    → (client_id_metadata_min_ttl ≤ clamp_ttl seconds)
      × (clamp_ttl seconds ≤ client_id_metadata_max_ttl)
unfolding clamp_ttl
clamp_ttl_bounds seconds = ground arith

clamp_ttl-nearest :
    (seconds : ℕ) → seconds ≤ 9_223_372_036 → clamp_ttl seconds ≡ nearest (seconds * second)
unfolding clamp_ttl
clamp_ttl-nearest seconds h = ground arith

ttl_of_directives-bounds :
    (fallback : ℕ) (ds : List String)
    → (ttl_of_directives fallback ds ≡ fallback)
      ⊎ ((client_id_metadata_min_ttl ≤ ttl_of_directives fallback ds)
          × (ttl_of_directives fallback ds ≤ client_id_metadata_max_ttl))
unfolding ttl_of_directives
ttl_of_directives-bounds fallback [] = inl refl
ttl_of_directives-bounds fallback (d ∷ ds) = elim (Option-cases (max_age d)) [
  | inl e ↦ rw (e, ttl_of_directives) (ttl_of_directives-bounds fallback ds)
  | inr (seconds, e) ↦ rw (e, ttl_of_directives) (inr (clamp_ttl_bounds seconds))
]

-- What the configuration falls back to.
abbrev pub fallback_ttl : ℕ → ℕ
fallback_ttl configured = if configured =ℕ 0 then client_id_metadata_default_ttl else configured

-- Whatever a Cache-Control header says, the lifetime is the configured one (15 minutes where none is
-- configured) or lies between one minute and 24 hours.
pub client_id_metadata_ttl_from-bounds :
    (configured : ℕ) (cache_control : String)
    → let ttl = client_id_metadata_ttl_from configured cache_control in
      (ttl ≡ fallback_ttl configured)
      ⊎ ((client_id_metadata_min_ttl ≤ ttl) × (ttl ≤ client_id_metadata_max_ttl))
unfolding client_id_metadata_ttl_from
client_id_metadata_ttl_from-bounds configured cache_control =
    ttl_of_directives-bounds (fallback_ttl configured) (split b',' cache_control)

-- A max-age whose duration fits 64 bits gives the nearest lifetime within the bounds, when it is the
-- first usable directive of the header.
pub client_id_metadata_ttl_from-nearest :
    (configured seconds : ℕ) (cache_control directive : String) (rest : List String)
    → split b',' cache_control ≡ directive ∷ rest
    → max_age directive ≡ some seconds
    → seconds ≤ 9_223_372_036
    → client_id_metadata_ttl_from configured cache_control ≡ nearest (seconds * second)
unfolding client_id_metadata_ttl_from ttl_of_directives
client_id_metadata_ttl_from-nearest configured seconds cache_control directive rest s e h =
    rw (s, e, ttl_of_directives, client_id_metadata_ttl_from) (clamp_ttl-nearest seconds h)

-- A max-age of 9223372037 seconds or somewhat more, whose duration overflows, is kept for one minute only.
pub clamp_ttl_overflow :
    (seconds : ℕ)
    → 9_223_372_037 ≤ seconds
    → seconds ≤ 18_446_744_073
    → clamp_ttl seconds ≡ client_id_metadata_min_ttl
unfolding clamp_ttl
clamp_ttl_overflow seconds h k = ground arith
