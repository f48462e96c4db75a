-- ===== src/Idp/Token/Refresh.antt =====
-- The refresh grant, and grants after a logout.
use oidc_oauth2_idp.Prelude.{
  Bool-cases, Option-cases, String, ap, arith, contains, eq_iff, false, inl, inr, some, subst, true,
  ◌≡◌, ◌≢◌,
}
use oidc_oauth2_idp.Prelude.Dict.{contains-keys-delete_self, delete, keys, lookup}
use oidc_oauth2_idp.Idp.State.{
  Claims, ClientSession, CodeMetadataEntry, Config, Request, Server, Session, form_get, text_claim,
}
use oidc_oauth2_idp.Idp.External.{External}
use oidc_oauth2_idp.Idp.Sessions.{get_client_session_by_id, session_by_client_session_id}
use oidc_oauth2_idp.Idp.Claims.{decode_jwt}
use oidc_oauth2_idp.Idp.Token.{
  Grant, code_grant, grant, grant_of, granted, issued_nonce, redeem_code, refresh_client_session,
  refresh_grant, verify_challenge,
}
use oidc_oauth2_idp.Idp.Userinfo.{logout}
use oidc_oauth2_idp.Idp.Sessions.Found.{lookup-key, session_by_client_session_id-key}

module _ (x : External) (cfg : Config) where
  granted_injective : {g h : Grant} → granted g ≡ granted h → g ≡ h
  granted_injective e = cc

  redeem_code-cookie :
      (code_entry : CodeMetadataEntry) (verifier : String) (s : Server) (g : Grant)
      → (redeem_code x cfg code_entry verifier s).1 ≡ granted g
      → contains (keys s.sessions) g.cookie_id ≡ true
  unfolding redeem_code
  redeem_code-cookie code_entry verifier s g e =
      elim (Option-cases (lookup code_entry.cookie_id s.sessions)) [
        | inl q ↦ cc (rw (q, redeem_code) at e)
        | inr (sess, q) ↦ elim (Option-cases (get_client_session_by_id sess code_entry.client_id)) [
          | inl r ↦ cc (rw (q, r, redeem_code) at e)
          | inr (cs, r) ↦
              elim (Bool-cases
                (verify_challenge x cfg cs.code_challenge cs.code_challenge_method verifier)) [
                  | inr bad ↦ cc (rw (q, r, bad, redeem_code) at e)
                  | inl good ↦
                      subst (λ (h : Grant). contains (keys s.sessions) h.cookie_id ≡ true)
                        (granted_injective (rw (q, r, good, redeem_code) at e))
                        (lookup-key code_entry.cookie_id s.sessions sess q)
                ]
        ]
      ]

  refresh_grant-cookie :
      (req : Request) (s : Server) (g : Grant)
      → (refresh_grant x cfg req s).1 ≡ granted g
      → contains (keys s.sessions) g.cookie_id ≡ true
  unfolding refresh_grant
  refresh_grant-cookie req s g e =
      elim (Option-cases (decode_jwt x cfg (form_get req "refresh_token"))) [
        | inl q ↦ cc (rw (q, refresh_grant) at e)
        | inr (claims, q) ↦
            elim (Option-cases
              (session_by_client_session_id (text_claim claims "csid") s.sessions)) [
                | inl r ↦ cc (rw (q, r, refresh_grant, refresh_client_session) at e)
                | inr ((cookie_id, sess, cs), r) ↦
                    subst (λ (h : Grant). contains (keys s.sessions) h.cookie_id ≡ true)
                      (granted_injective (rw (q, r, refresh_grant, refresh_client_session) at e))
                      (session_by_client_session_id-key (text_claim claims "csid") s.sessions
                        cookie_id sess cs r)
              ]
      ]

  code_grant-cookie :
      (req : Request) (s : Server) (g : Grant)
      → (code_grant x cfg req s).1 ≡ granted g
      → contains (keys s.sessions) g.cookie_id ≡ true
  unfolding code_grant
  code_grant-cookie req s g e = elim (Option-cases (lookup (form_get req "code") s.code_meta)) [
    | inl q ↦ cc (rw (q, code_grant) at e)
    | inr (code_entry, q) ↦
        redeem_code-cookie code_entry _
          (record s { code_meta = delete (form_get req "code") s.code_meta }) g
          (rw (q, code_grant) at e)
  ]

  grant-cookie :
      (req : Request) (s : Server) (g : Grant)
      → (grant x cfg req s).1 ≡ granted g
      → contains (keys s.sessions) g.cookie_id ≡ true
  unfolding grant
  grant-cookie req s g e = ground (arith, code_grant-cookie req s g, refresh_grant-cookie req s g)

  logout-deleted :
      (req : Request) (s : Server)
      → req.method ≡ "POST"
      → contains (keys (logout x cfg req s).0.sessions) (form_get req "cookieid") ≡ false
  unfolding logout
  logout-deleted req s post =
      rw ((eq_iff req.method "POST").1 post, logout)
        (contains-keys-delete_self (form_get req "cookieid") s.sessions)

  -- After a POST to /logout no grant, of a code or of a refresh token, rests on the session that was
  -- logged out.
  pub grant_after_logout :
      (req later_req : Request) (s : Server) (g : Grant)
      → req.method ≡ "POST"
      → (grant x cfg later_req (logout x cfg req s).0).1 ≡ granted g
      → g.cookie_id ≢ form_get req "cookieid"
  grant_after_logout req later_req s g post e same = absurd (
      ground (
        arith,
        grant-cookie later_req (logout x cfg req s).0 g e,
        logout-deleted req s post,
        ap (contains (keys (logout x cfg req s).0.sessions)) same,
      ))

  -- What a refresh grant rests on: claims that the token decodes to, and the client session that they name,
  -- in a session that has not ended.
  pub record IsRefreshed (req : Request) (s : Server) (g : Grant) : Type 0 where
    pub claims : Claims
    pub cookie_id : String
    pub sess : Session
    pub cs : ClientSession
    pub decoded : decode_jwt x cfg (form_get req "refresh_token") ≡ some claims
    pub live :
        session_by_client_session_id (text_claim claims "csid") s.sessions
        ≡ some (cookie_id, sess, cs)
    pub in_session : contains (keys s.sessions) cookie_id ≡ true
    pub named : cs.session_id ≡ text_claim claims "csid"
    pub granted_is : grant_of x cfg cookie_id sess cs (issued_nonce x cfg cs) ≡ g
