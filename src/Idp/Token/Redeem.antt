-- ===== src/Idp/Token/Redeem.antt =====
-- The code that an approval issues can be redeemed.
use oidc_oauth2_idp.Prelude.{
  List, Option, Option-cases, String, arith, eq_refl, inl, inr, refl, some, true, ◌≡◌,
}
use oidc_oauth2_idp.Prelude.Dict.{delete, insert, lookup, lookup-insert_self}
use oidc_oauth2_idp.Idp.State.{
  AuthContextEntry, Claims, ClientSession, CodeMetadataEntry, Config, Request, Server, Session,
  form_get,
}
use oidc_oauth2_idp.Idp.External.{External}
use oidc_oauth2_idp.Idp.Sessions.{
  client_session_by_id, get_client_session_by_id, session_by_sub, upsert_client_session,
}
use oidc_oauth2_idp.Idp.Authorize.{
  Fresh, approved_session, grant_approval, issue_code_and_redirect, session_or_new,
}
use oidc_oauth2_idp.Idp.Token.{Grant, code_grant, grant_of, granted, redeem_code, verify_challenge}
use oidc_oauth2_idp.Idp.Sessions.Updates.{client_session_by_id-upsert}

upsert_found :
    (cs : List ClientSession) (new : ClientSession)
    → client_session_by_id (upsert_client_session cs new) new.client_id ≡ some new
upsert_found cs new =
    ground (arith, client_session_by_id-upsert cs new new.client_id, eq_refl new.client_id)

module _ (x : External) (cfg : Config) where
  issue_code_and_redirect-state :
      (sess : Session) (client_id state nonce code : String) (s : Server)
      → (issue_code_and_redirect x cfg sess client_id state nonce code s).0 ≡ record s {
        code_meta =
            insert code
              (record { cookie_id = sess.cookie_id; client_id = client_id; nonce = nonce })
              s.code_meta;
      }
  unfolding issue_code_and_redirect
  issue_code_and_redirect-state sess client_id state nonce code s =
      elim (Option-cases (get_client_session_by_id sess client_id)) [
        | inl e ↦ rw (e, issue_code_and_redirect)
        | inr (cs, e) ↦ rw (e, issue_code_and_redirect)
      ]

  redeem_code-granted :
      (code_entry : CodeMetadataEntry) (verifier : String) (s : Server) (sess : Session)
      (cs : ClientSession)
      → lookup code_entry.cookie_id s.sessions ≡ some sess
      → get_client_session_by_id sess code_entry.client_id ≡ some cs
      → verify_challenge x cfg cs.code_challenge cs.code_challenge_method verifier ≡ true
      → (redeem_code x cfg code_entry verifier s).1
        ≡ granted (grant_of x cfg code_entry.cookie_id sess cs code_entry.nonce)
  unfolding redeem_code
  redeem_code-granted code_entry verifier s sess cs q r good = rw (q, r, good, redeem_code)

  code_grant-granted :
      (req : Request) (s : Server) (code_entry : CodeMetadataEntry) (sess : Session)
      (cs : ClientSession)
      → lookup (form_get req "code") s.code_meta ≡ some code_entry
      → lookup code_entry.cookie_id s.sessions ≡ some sess
      → get_client_session_by_id sess code_entry.client_id ≡ some cs
      → verify_challenge x cfg cs.code_challenge cs.code_challenge_method
          (form_get req "code_verifier")
        ≡ true
      → (code_grant x cfg req s).1
        ≡ granted (grant_of x cfg code_entry.cookie_id sess cs code_entry.nonce)
  unfolding code_grant
  code_grant-granted req s code_entry sess cs known q r good =
      rw (known, code_grant)
        (redeem_code-granted code_entry (form_get req "code_verifier")
          (record s { code_meta = delete (form_get req "code") s.code_meta }) sess cs q r good)

  -- The client session that an approval leaves is for its client, scope and challenge.
  abbrev IsApproved : AuthContextEntry → ClientSession → Type 0
  IsApproved ctx cs =
      (cs.client_id ≡ ctx.client_id)
      × (cs.scope ≡ ctx.scope)
      × (cs.code_challenge ≡ ctx.code_challenge)
      × (cs.code_challenge_method ≡ ctx.code_challenge_method)

  approved_session-IsApproved :
      (sess : Session) (ctx : AuthContextEntry) (id_claims access_claims : Option Claims)
      (new_id : String)
      → (cs : ClientSession) × (get_client_session_by_id
            (approved_session x cfg sess ctx id_claims access_claims new_id)
            ctx.client_id
          ≡ some cs)
        × IsApproved ctx cs
  unfolding approved_session get_client_session_by_id
  approved_session-IsApproved sess ctx id_claims access_claims new_id =
      (_, upsert_found sess.client_sessions _, (refl, refl, refl, refl))

  -- The code that an approval issues is granted to the first request that answers the challenge of the
  -- approved authorization request, for the client and the scope of that request.
  pub code_grant-grant_approval :
      (req_id : String) (ctx : AuthContextEntry) (id_claims access_claims : Option Claims)
      (fresh : Fresh) (s : Server) (req : Request)
      → form_get req "code" ≡ fresh.code
      → verify_challenge x cfg ctx.code_challenge ctx.code_challenge_method
          (form_get req "code_verifier")
        ≡ true
      → (g : Grant) × ((code_grant x cfg req
            (grant_approval x cfg req_id ctx id_claims access_claims fresh s).0).1
          ≡ granted g)
        × (g.client_id ≡ ctx.client_id)
        × (g.scope ≡ ctx.scope)
  unfolding grant_approval
  code_grant-grant_approval req_id ctx id_claims access_claims fresh s req code good =
      let old = session_or_new x cfg (session_by_sub ctx.sub s.sessions) ctx fresh.cookie_id in
      let sess = approved_session x cfg old ctx id_claims access_claims fresh.client_session_id in
      let approved = record s {
        auth_context = delete req_id s.auth_context;
        sessions = insert sess.cookie_id sess s.sessions;
      } in
      let code_entry : CodeMetadataEntry = record {
        cookie_id = sess.cookie_id;
        client_id = ctx.client_id;
        nonce = ctx.nonce;
      } in
      let (cs, found, (client, scope, challenge, challenge_method)) =
        approved_session-IsApproved old ctx id_claims access_claims fresh.client_session_id in
      (
        grant_of x cfg sess.cookie_id sess cs ctx.nonce,
        rw
            (issue_code_and_redirect-state sess ctx.client_id ctx.state ctx.nonce fresh.code
              approved)
            (code_grant-granted req
              (record approved { code_meta = insert fresh.code code_entry s.code_meta }) code_entry
              sess cs (rw code (lookup-insert_self fresh.code code_entry s.code_meta))
              (lookup-insert_self sess.cookie_id sess s.sessions) found
              (rw (challenge, challenge_method) good)),
        client,
        scope,
      )
