-- ===== src/Bff/Config/Prefix.antt =====
-- The path prefixes that the configuration holds.
use Prim.Native.Char.{code}
use oidc_oauth2_idp.Prelude.{
  String, false, if_split, inl, inr, refl, text_cases, true, ◌=ℕ◌, ◌∙◌, ◌≡◌, ◌⊎◌,
}
use oidc_oauth2_idp.Prelude.Text.{has_prefix, trim_right_by, ◌⧺◌}
use oidc_oauth2_idp.Prelude.Text.Affixes.{
  ends_with, ends_with-append, ends_with-trim_right_by, has_prefix-append, trim_right_by_id,
}
use oidc_oauth2_idp.Bff.Config.{normalize_path_prefix}

-- A path that begins with a slash and, unless it is one, does not end with a slash.
abbrev pub IsPathPrefix : String → Type 0
IsPathPrefix p = (has_prefix p "/" ≡ true) × ((p ≡ "/") ⊎ (ends_with p b'/' ≡ false))

slash : (t : String) → ends_with t b'/' ≡ false → IsPathPrefix ("/" ⧺ t)
unfolding has_prefix ends_with
slash t e = elim (text_cases t "") [
  | inl (q, _) ↦ (has_prefix-append "/" t, inl (rw q refl))
  | inr (q, _) ↦ (has_prefix-append "/" t, inr (ends_with-append b'/' "/" t q ∙ e))
]

pub normalize_path_prefix-IsPathPrefix : (p : String) → IsPathPrefix (normalize_path_prefix p)
unfolding normalize_path_prefix
normalize_path_prefix-IsPathPrefix p =
    let trimmed = ends_with-trim_right_by b'/' p in
    if_split IsPathPrefix (has_prefix (trim_right_by (λ c. code c =ℕ b'/') p) "/")
      (λ e. (e, inr trimmed)) (λ e. slash (trim_right_by (λ c. code c =ℕ b'/') p) trimmed)

-- A path prefix is normalised already.
pub normalize_path_prefix_id : (p : String) → IsPathPrefix p → normalize_path_prefix p ≡ p
unfolding normalize_path_prefix trim_right_by has_prefix
normalize_path_prefix_id p (begins, inl same) = rw same refl
normalize_path_prefix_id p (begins, inr e) =
    rw (normalize_path_prefix, trim_right_by_id b'/' p e, begins) refl
