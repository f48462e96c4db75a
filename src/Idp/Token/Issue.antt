-- ===== src/Idp/Token/Issue.antt =====
-- When tokens are issued, and which.
use oidc_oauth2_idp.Prelude.{
  Bool, Option, Option-cases, String, ap, arith, false, inl, inr, none, refl, some, subst,
  text_cases, true, ℕ, ◌↔◌, ◌≡◌, ◌≢◌,
}
use oidc_oauth2_idp.Idp.State.{
  Claims, CodeMetadataEntry, Config, Request, Server, TokenResponse, form_get, tokens,
}
use oidc_oauth2_idp.Idp.External.{External, Network}
use oidc_oauth2_idp.Idp.Scope.{has_scope}
use oidc_oauth2_idp.Idp.ClientAuth.{
  ClientCredentials, authenticate_client, parse_client_credentials,
}
use oidc_oauth2_idp.Idp.Token.{
  Grant, GrantResult, code_grant, denied, finish_grant, grant, granted, issue_access, issue_id,
  issue_if, issue_if_authentic, issue_refresh, issue_tokens, redeem_code, refresh_grant, token,
  token_of,
}
use oidc_oauth2_idp.Prelude.Dict.{lookup}

module _ (x : External) (cfg : Config) where
  -- The tokens of a response are those of a grant: an access token always, a refresh token and an ID
  -- token as the scope asks for them.
  pub record AreTokensOf (g : Grant) (now : ℕ) (t : TokenResponse) : Type 0 where
    pub access_claims : Claims
    pub access : issue_access x cfg g now ≡ some (t.access_token, access_claims)
    pub refresh : (has_scope g.scope "offline_access" ≡ true) ↔ (t.refresh_token ≢ none)
    pub id : (has_scope g.scope "openid" ≡ true) ↔ (t.id_token ≢ none)

  issue_if_iff :
      (wanted : Bool) (issued : Option (String × Claims)) (out : Option (String × Claims))
      → issue_if x cfg wanted issued ≡ some out
      → (wanted ≡ true) ↔ (token_of x cfg out ≢ none)
  issue_if_iff false issued out e = ground arith
  issue_if_iff true none out e = ground arith
  issue_if_iff true (some t) out e = ground arith

  issue_refresh_iff :
      (g : Grant) (now : ℕ) (out : Option (String × Claims))
      → issue_refresh x cfg g now ≡ some out
      → (has_scope g.scope "offline_access" ≡ true) ↔ (token_of x cfg out ≢ none)
  unfolding issue_refresh
  issue_refresh_iff g now out e = issue_if_iff _ _ out e

  issue_id_iff :
      (g : Grant) (now : ℕ) (out : Option (String × Claims))
      → issue_id x cfg g now ≡ some out
      → (has_scope g.scope "openid" ≡ true) ↔ (token_of x cfg out ≢ none)
  unfolding issue_id
  issue_id_iff g now out e = issue_if_iff _ _ out e

  tokens_injective : {a b : TokenResponse} → tokens a ≡ tokens b → a ≡ b
  tokens_injective e = cc

  issue_tokens-AreTokensOf :
      (g : Grant) (now : ℕ) (s : Server) (t : TokenResponse)
      → (issue_tokens x cfg g now s).1 ≡ tokens t
      → AreTokensOf g now t
  unfolding issue_tokens
  issue_tokens-AreTokensOf g now s t e = elim (Option-cases (issue_access x cfg g now)) [
    | inl a ↦ cc (rw (a, issue_tokens) at e)
    | inr ((access_token, access_claims), a) ↦ elim (Option-cases (issue_refresh x cfg g now)) [
      | inl r ↦ cc (rw (a, r, issue_tokens) at e)
      | inr (refresh, r) ↦ elim (Option-cases (issue_id x cfg g now)) [
        | inl i ↦ cc (rw (a, r, i, issue_tokens) at e)
        | inr (id_issued, i) ↦
            subst (AreTokensOf g now) (tokens_injective (rw (a, r, i, issue_tokens) at e)) (record {
              access_claims = access_claims;
              access = a;
              refresh = issue_refresh_iff g now refresh r;
              id = issue_id_iff g now id_issued i;
            })
      ]
    ]
  ]

  -- What has happened when the token endpoint answers with tokens.
  pub record IsEntitled (net : Network) (req : Request) (now : ℕ) (s : Server) (t : TokenResponse)
      : Type 0 where
    pub posted : req.method ≡ "POST"
    pub g : Grant
    pub established : (grant x cfg req s).1 ≡ granted g
    pub authentic :
        (authenticate_client x cfg net g.client_id
          (parse_client_credentials req)
          now
          (grant x cfg req s).0).1
        ≡ true
    pub issued : AreTokensOf g now t

  redeem_code-ne :
      (code_entry : CodeMetadataEntry) (verifier : String) (s : Server) (t : TokenResponse)
      → (redeem_code x cfg code_entry verifier s).1 ≢ denied (tokens t)
  unfolding redeem_code
  redeem_code-ne code_entry verifier s t = ground arith

  code_grant-ne :
      (req : Request) (s : Server) (t : TokenResponse)
      → (code_grant x cfg req s).1 ≢ denied (tokens t)
  unfolding code_grant
  code_grant-ne req s t = elim (Option-cases (lookup (form_get req "code") s.code_meta)) [
    | inl q ↦ rw (q, code_grant) (λ e. cc)
    | inr (code_entry, q) ↦ rw (q, code_grant) (redeem_code-ne code_entry _ _ t)
  ]

  refresh_grant-ne :
      (req : Request) (s : Server) (t : TokenResponse)
      → (refresh_grant x cfg req s).1 ≢ denied (tokens t)
  unfolding refresh_grant
  refresh_grant-ne req s t = ground arith

  grant-ne :
      (req : Request) (s : Server) (t : TokenResponse) → (grant x cfg req s).1 ≢ denied (tokens t)
  unfolding grant
  grant-ne req s t = ground (arith, code_grant-ne req s t, refresh_grant-ne req s t)

  issue_if_authentic_lem :
      (creds : ClientCredentials) (g : Grant) (now : ℕ) (r : Server × Bool) (t : TokenResponse)
      → (issue_if_authentic x cfg creds g now r).1 ≡ tokens t
      → (r.1 ≡ true) × AreTokensOf g now t
  issue_if_authentic_lem creds g now (s, false) t e = cc
  issue_if_authentic_lem creds g now (s, true) t e = (refl, issue_tokens-AreTokensOf g now s t e)

  finish_grant_lem :
      (net : Network) (creds : ClientCredentials) (now : ℕ) (r : Server × GrantResult)
      (t : TokenResponse)
      → r.1 ≢ denied (tokens t)
      → (finish_grant x cfg net creds now r).1 ≡ tokens t
      → (g : Grant) × (r.1 ≡ granted g)
        × ((authenticate_client x cfg net g.client_id creds now r.0).1 ≡ true)
        × AreTokensOf g now t
  unfolding finish_grant
  finish_grant_lem net creds now (s, denied resp) t h e = absurd (h (ap denied e))
  finish_grant_lem net creds now (s, granted g) t h e =
      let (authentic, issued) =
        issue_if_authentic_lem creds g now (authenticate_client x cfg net g.client_id creds now s) t
          e in
      (g, refl, authentic, issued)

  -- Tokens are issued only for a POST whose grant was established and whose client, the one that the
  -- grant names, passed authentication; a refresh token comes along exactly when the granted scope has
  -- offline_access, an ID token exactly when it has openid.
  pub token-IsEntitled :
      (net : Network) (req : Request) (now : ℕ) (s : Server) (t : TokenResponse)
      → (token x cfg net req now s).1 ≡ tokens t
      → IsEntitled net req now s t
  unfolding token
  token-IsEntitled net req now s t e = elim (text_cases req.method "POST") [
    | inr (_, get) ↦ cc (rw (get, token) at e)
    | inl (posted, post) ↦
        let (g, established, authentic, issued) =
          finish_grant_lem net (parse_client_credentials req) now (grant x cfg req s) t
            (grant-ne req s t) (rw (post, token) at e) in
        record {
          posted = posted;
          g = g;
          established = established;
          authentic = authentic;
          issued = issued;
        }
  ]
