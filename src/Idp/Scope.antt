-- ===== src/Idp/Scope.antt =====
-- Lists without repetitions and scopes: `dedupeStrings` and `hasScope` of idp-auth-server/main.go.
pub mod Dedupe
use oidc_oauth2_idp.Prelude.{Bool, List, String, [], contains, if◌then◌else◌, ◌∷◌}
use oidc_oauth2_idp.Prelude.Text.{fields}

-- The loop of `dedupeStrings`; what it appends to `out` is the list that comes out.
dedupe_from : List String → List String → List String
dedupe_from seen [] = []
dedupe_from seen (s ∷ ss) =
    let skipped = dedupe_from seen ss in
    let kept = s ∷ dedupe_from (s ∷ seen) ss in if contains seen s then skipped else kept

unfoldable pub dedupe_strings : List String → List String
unfolding dedupe_from contains
dedupe_strings ss = dedupe_from [] ss

unfoldable pub has_scope : String → String → Bool
unfolding contains fields
has_scope scope target = contains (fields scope) target
