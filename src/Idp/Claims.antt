-- ===== src/Idp/Claims.antt =====
-- Token claims: the defaults, and the issuing and decoding of tokens (idp-auth-server/main.go).
pub mod Issued
use Prim.Native.String.{slice}
use oidc_oauth2_idp.Prelude.{
  List, Option, String, [], if◌then◌else◌, len, none, not, some, true, ℕ, ◌%◌, ◌&&◌, ◌+◌, ◌/◌, ◌==◌,
  ◌∷◌,
}
use oidc_oauth2_idp.Prelude.Dict.{delete, insert, lookup}
use oidc_oauth2_idp.Prelude.Text.{equal_fold, fields, sum_bytes, ◌⧺◌}
use oidc_oauth2_idp.Idp.State.{
  AuthContextEntry, Claims, Config, Request, arr, bool, items, num, second, str, text_claim,
}
use oidc_oauth2_idp.Idp.External.{External}
use oidc_oauth2_idp.Idp.Scope.{has_scope}
use oidc_oauth2_idp.Idp.Sessions.{compute_advertised_sub, sector_identifier}

unfoldable pub avatar_index : String → ℕ
unfolding sum_bytes
avatar_index username = sum_bytes username % 8 + 1

-- The text of a number below ten.
abbrev pub digit : ℕ → String
digit n = slice "0123456789" n (n + 1)

module _ (x : External) (cfg : Config) where
  open x use {to_upper, to_lower, sign_jwt, parse_jwt}
  open cfg use {external_url, email_domain}

  -- For a text whose first character is one byte.
  unfoldable pub capitalize : String → String
  capitalize s = if s == "" then s else to_upper (slice s 0 1) ⧺ to_lower (slice s 1 (len s))

  unfoldable pub picture_url : String → String
  unfolding avatar_index
  picture_url username = external_url ⧺ "/avatars/" ⧺ digit (avatar_index username) ⧺ ".svg"

  unfoldable pub email_for_username : String → String
  email_for_username username = username ⧺ "@" ⧺ email_domain

  unfoldable pub default_access_token_claims : String → Claims
  unfolding insert
  default_access_token_claims scope = ("token_use", str "access") ∷ ("scope", str scope) ∷ []

  unfoldable pub default_id_token_claims : AuthContextEntry → Claims
  unfolding insert
  default_id_token_claims ctx =
      let base : Claims =
        (
          "sub",
          str (
              compute_advertised_sub x cfg ctx.sub
                (sector_identifier x cfg ctx.redirect_uri ctx.client_id)),
        )
        ∷ ("azp", str ctx.client_id)
        ∷ [] in
      let with_nonce : Claims =
        if ctx.nonce == "" then base else insert "nonce" (str ctx.nonce) base in
      let with_profile : Claims =
        if has_scope ctx.scope "profile"
        then insert "picture" (str (picture_url ctx.username)) (
            insert "preferred_username" (str ctx.username)
              (insert "name" (str (capitalize ctx.username)) with_nonce))
        else with_nonce in
      if not (ctx.username == "") && has_scope ctx.scope "email"
      then insert "email_verified" (bool true)
          (insert "email" (str (email_for_username ctx.username)) with_profile)
      else with_profile

  -- The claims that `issueToken` signs.
  unfoldable pub signed_claims : String → List String → Claims → ℕ → ℕ → Claims
  signed_claims subject audience claims expiry now =
      let with_sub : Claims = elim (lookup "sub" claims) [
        | some v ↦ claims
        | none ↦ insert "sub" (str subject) claims
      ] in
      insert "exp" (num (expiry / second)) (
        insert "iat" (num (now / second))
          (insert "aud" (arr (items audience)) (insert "iss" (str external_url) with_sub)))

  -- The token and the claims as issued, without "iat".
  unfoldable pub issue_token : String → List String → Claims → ℕ → ℕ → Option (String × Claims)
  unfolding signed_claims
  issue_token subject audience claims expiry now =
      let all_claims = signed_claims subject audience claims expiry now in
      elim (sign_jwt all_claims) [
        | none ↦ none
        | some token ↦ some (token, delete "iat" all_claims)
      ]

  -- `decodeJWT`: only an RSA method is given the key.
  unfoldable pub decode_jwt : String → Option Claims
  decode_jwt token = elim (parse_jwt token (λ is_rsa. is_rsa)) [
    | none ↦ none
    | some tok ↦ if tok.valid then tok.claims else none
  ]

  -- `extractAccessToken`, from the words of the Authorization header.
  unfoldable pub access_token_claims : List String → Option Claims
  access_token_claims (scheme ∷ token ∷ []) =
      if not (equal_fold scheme "bearer") then none else elim (decode_jwt token) [
        | none ↦ none
        | some claims ↦ if text_claim claims "token_use" == "access" then some claims else none
      ]
  access_token_claims _ = none

  unfoldable pub extract_access_token : Request → Option Claims
  unfolding access_token_claims
  extract_access_token req = access_token_claims (fields req.authorization)
