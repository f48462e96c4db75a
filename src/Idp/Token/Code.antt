-- ===== src/Idp/Token/Code.antt =====
-- Authorization codes are redeemed once, and under their challenge.
use oidc_oauth2_idp.Prelude.{
  Bool, Bool-cases, Option, Option-cases, String, ap, arith, eq_iff, false, inl, inr, none, refl,
  some, subst, sym, true, ℕ, ◌∙◌, ◌≡◌, ◌⊎◌,
}
use oidc_oauth2_idp.Prelude.Dict.{delete, lookup, lookup-delete_self}
use oidc_oauth2_idp.Idp.State.{
  Claims, ClientSession, CodeMetadataEntry, Config, Request, Server, Session, form_get, oauth_error,
}
use oidc_oauth2_idp.Idp.External.{External, Network}
use oidc_oauth2_idp.Idp.ClientAuth.{
  ClientCredentials, authenticate_client, parse_client_credentials,
}
use oidc_oauth2_idp.Idp.Flow.{authenticate_client-SameFlow}
use oidc_oauth2_idp.Idp.Token.{
  Grant, GrantResult, code_grant, denied, finish_grant, grant, grant_of, granted, invalid_grant,
  issue_if_authentic, issue_tokens, or_default, redeem_code, token, verify_challenge,
}
use oidc_oauth2_idp.Idp.Sessions.{get_client_session_by_id}

module _ (x : External) (cfg : Config) where
  redeem_code-codes :
      (code_entry : CodeMetadataEntry) (verifier : String) (s : Server)
      → (redeem_code x cfg code_entry verifier s).0.code_meta ≡ s.code_meta
  unfolding redeem_code
  redeem_code-codes code_entry verifier s = ground arith

  -- However the grant ends, the code is gone.
  code_grant-spent :
      (req : Request) (s : Server)
      → lookup (form_get req "code") (code_grant x cfg req s).0.code_meta ≡ none
  unfolding code_grant
  code_grant-spent req s = elim (Option-cases (lookup (form_get req "code") s.code_meta)) [
    | inl e ↦ rw (e, code_grant) e
    | inr (code_entry, e) ↦
        rw (e, code_grant)
          (ap (lookup (form_get req "code")) (
              redeem_code-codes code_entry (form_get req "code_verifier")
                (record s { code_meta = delete (form_get req "code") s.code_meta }))
            ∙ lookup-delete_self (form_get req "code") s.code_meta)
  ]

  issue_tokens-codes :
      (g : Grant) (now : ℕ) (s : Server) → (issue_tokens x cfg g now s).0.code_meta ≡ s.code_meta
  unfolding issue_tokens
  issue_tokens-codes g now s = ground arith

  issue_if_authentic-codes :
      (creds : ClientCredentials) (g : Grant) (now : ℕ) (r : Server × Bool)
      → (issue_if_authentic x cfg creds g now r).0.code_meta ≡ r.0.code_meta
  issue_if_authentic-codes creds g now (s, false) = refl
  issue_if_authentic-codes creds g now (s, true) = issue_tokens-codes g now s

  -- What follows a grant leaves the codes as they are.
  pub finish_grant-codes :
      (net : Network) (creds : ClientCredentials) (now : ℕ) (r : Server × GrantResult)
      → (finish_grant x cfg net creds now r).0.code_meta ≡ r.0.code_meta
  unfolding finish_grant
  finish_grant-codes net creds now (s, denied resp) = refl
  finish_grant-codes net creds now (s, granted g) =
      issue_if_authentic-codes creds g now (authenticate_client x cfg net g.client_id creds now s)
      ∙ (authenticate_client-SameFlow x cfg net g.client_id creds now s).codes

  token-code_grant :
      (net : Network) (req : Request) (now : ℕ) (s : Server)
      → req.method ≡ "POST"
      → form_get req "grant_type" ≡ "authorization_code"
      → token x cfg net req now s
        ≡ finish_grant x cfg net (parse_client_credentials req) now (code_grant x cfg req s)
  unfolding token grant
  token-code_grant net req now s post code =
      ground
        (arith, eq_iff req.method "POST", eq_iff (form_get req "grant_type") "authorization_code")

  code_grant-unknown :
      (req : Request) (s : Server)
      → lookup (form_get req "code") s.code_meta ≡ none
      → code_grant x cfg req s ≡ (s, denied (invalid_grant x cfg 403))
  unfolding code_grant
  code_grant-unknown req s e = rw (e, code_grant)

  token-unknown_code :
      (net : Network) (req : Request) (now : ℕ) (s : Server)
      → req.method ≡ "POST"
      → form_get req "grant_type" ≡ "authorization_code"
      → lookup (form_get req "code") s.code_meta ≡ none
      → token x cfg net req now s ≡ (s, oauth_error 403 "invalid_grant" false)
  unfolding finish_grant
  token-unknown_code net req now s post code e =
      token-code_grant net req now s post code
      ∙ ap (finish_grant x cfg net (parse_client_credentials req) now) (code_grant-unknown req s e)

  -- A POST to /token with grant_type authorization_code leaves no trace of its code, whatever its
  -- outcome: in the state after it, a further such request with the same code is refused with
  -- invalid_grant and changes nothing.
  pub token_code_once :
      (net later_net : Network) (req later_req : Request) (now later : ℕ) (s : Server)
      → req.method ≡ "POST"
      → form_get req "grant_type" ≡ "authorization_code"
      → later_req.method ≡ "POST"
      → form_get later_req "grant_type" ≡ "authorization_code"
      → form_get later_req "code" ≡ form_get req "code"
      → let s' = (token x cfg net req now s).0 in
        (lookup (form_get req "code") s'.code_meta ≡ none)
        × (token x cfg later_net later_req later s' ≡ (s', oauth_error 403 "invalid_grant" false))
  token_code_once net later_net req later_req now later s post code later_post later_code same =
      let s' = (token x cfg net req now s).0 in
      let spent : lookup (form_get req "code") s'.code_meta ≡ none =
        rw (token-code_grant net req now s post code) (
          ap (lookup (form_get req "code"))
            (finish_grant-codes net (parse_client_credentials req) now (code_grant x cfg req s))
          ∙ code_grant-spent req s) in
      (spent, token-unknown_code later_net later_req later s' later_post later_code (rw same spent))

  -- How a verifier answers a challenge.
  abbrev pub Answers : String → String → String → Type 0
  Answers code_challenge challenge_method verifier =
      (code_challenge ≡ "")
      ⊎ ((challenge_method ≡ "plain") × (verifier ≡ code_challenge))
      ⊎ ((challenge_method ≡ "S256") × (x.sha256_base64url verifier ≡ code_challenge))

  verify_challenge_sound :
      (code_challenge challenge_method verifier : String)
      → verify_challenge x cfg code_challenge challenge_method verifier ≡ true
      → Answers code_challenge challenge_method verifier
  unfolding verify_challenge
  verify_challenge_sound c m v h = ground (
    arith,
    eq_iff c "",
    eq_iff m "plain",
    eq_iff m "S256",
    eq_iff v c,
    eq_iff (x.sha256_base64url v) c,
  )

  -- What a code grant rests on: the code's entry, its session, the client session of the code's client
  -- there, and a verifier that answers the challenge of that client session, which a later request to
  -- /authorize for the same client replaces.
  pub record IsRedeemed (req : Request) (s : Server) (g : Grant) : Type 0 where
    pub code_entry : CodeMetadataEntry
    pub sess : Session
    pub cs : ClientSession
    pub known : lookup (form_get req "code") s.code_meta ≡ some code_entry
    pub in_session : lookup code_entry.cookie_id s.sessions ≡ some sess
    pub of_client : get_client_session_by_id sess code_entry.client_id ≡ some cs
    pub answered : Answers cs.code_challenge cs.code_challenge_method (form_get req "code_verifier")
    pub own_claims : (cs.id_token_claims ≡ none) ⊎ (cs.id_token_claims ≡ some g.id_token_claims)
    pub granted_is : g ≡ grant_of x cfg code_entry.cookie_id sess cs code_entry.nonce

  granted_injective : {g h : Grant} → granted g ≡ granted h → g ≡ h
  granted_injective e = cc

  or_default_lem :
      (claims : Option Claims) (default : Claims)
      → (claims ≡ none) ⊎ (claims ≡ some (or_default claims default))
  or_default_lem none default = inl refl
  or_default_lem (some claims) default = inr refl

  grant_of-claims :
      (cookie_id : String) (sess : Session) (cs : ClientSession) (nonce : String)
      → (cs.id_token_claims ≡ none)
        ⊎ (cs.id_token_claims ≡ some (grant_of x cfg cookie_id sess cs nonce).id_token_claims)
  grant_of-claims cookie_id sess cs nonce = or_default_lem cs.id_token_claims _

  redeem_code-IsRedeemed :
      (req : Request) (s : Server) (g : Grant) (code_entry : CodeMetadataEntry)
      → lookup (form_get req "code") s.code_meta ≡ some code_entry
      → (redeem_code x cfg code_entry
          (form_get req "code_verifier")
          (record s { code_meta = delete (form_get req "code") s.code_meta })).1
        ≡ granted g
      → IsRedeemed req s g
  unfolding redeem_code
  redeem_code-IsRedeemed req s g code_entry known e =
      elim (Option-cases (lookup code_entry.cookie_id s.sessions)) [
        | inl q ↦ cc (rw (q, redeem_code) at e)
        | inr (sess, q) ↦ elim (Option-cases (get_client_session_by_id sess code_entry.client_id)) [
          | inl r ↦ cc (rw (q, r, redeem_code) at e)
          | inr (cs, r) ↦
              elim (Bool-cases (
                verify_challenge x cfg cs.code_challenge cs.code_challenge_method
                  (form_get req "code_verifier"))) [
                    | inr bad ↦ cc (rw (q, r, bad, redeem_code) at e)
                    | inl good ↦ record {
                      code_entry = code_entry;
                      sess = sess;
                      cs = cs;
                      known = known;
                      in_session = q;
                      of_client = r;
                      answered = verify_challenge_sound _ _ _ good;
                      own_claims =
                          subst
                            (λ (h : Grant).
                              (cs.id_token_claims ≡ none)
                              ⊎ (cs.id_token_claims ≡ some h.id_token_claims))
                            (granted_injective (rw (q, r, good, redeem_code) at e))
                            (grant_of-claims code_entry.cookie_id sess cs code_entry.nonce);
                      granted_is = sym (cc (rw (q, r, good, redeem_code) at e));
                    }
                  ]
        ]
      ]

  -- A code is granted only while it is stored, and for the client session that the code's client now has in
  -- the code's session, to a request whose verifier answers the challenge that this client session now has.
  -- The grant is that client session's; the nonce stored with the code goes into it only if the client
  -- session has no claims for ID tokens, and if it has some, these are the grant's.
  pub code_grant-IsRedeemed :
      (req : Request) (s : Server) (g : Grant)
      → (code_grant x cfg req s).1 ≡ granted g
      → IsRedeemed req s g
  unfolding code_grant
  code_grant-IsRedeemed req s g e = elim (Option-cases (lookup (form_get req "code") s.code_meta)) [
    | inl q ↦ cc (rw (q, code_grant) at e)
    | inr (code_entry, q) ↦ redeem_code-IsRedeemed req s g code_entry q (rw (q, code_grant) at e)
  ]
