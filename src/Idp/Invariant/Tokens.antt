-- ===== src/Idp/Invariant/Tokens.antt =====
-- The invariant through /token.
use oidc_oauth2_idp.Prelude.{
  AllDistinct, Bool, Bool-cases, Option, Option-cases, String, arith, false, if_both, inl, inr, not,
  refl, subst, sym, true, ℕ, ◌==◌, ◌≡◌,
}
use oidc_oauth2_idp.Prelude.Dict.{Dict, Entries-lookup, delete, lookup}
use oidc_oauth2_idp.Idp.State.{
  Claims, ClientSession, CodeMetadataEntry, Config, Request, Response, Server, Session, form_get,
  text_claim,
}
use oidc_oauth2_idp.Idp.External.{External, Network}
use oidc_oauth2_idp.Idp.Sessions.{
  get_client_session_by_id, session_by_client_session_id, update_first,
}
use oidc_oauth2_idp.Idp.Sessions.Updates.{All-update_first, client_ids-update_first}
use oidc_oauth2_idp.Idp.Token.{
  Grant, GrantResult, claims_of, code_grant, denied, finish_grant, grant, granted, issue_access,
  issue_id, issue_if_authentic, issue_refresh, issue_tokens, record_issued, redeem_code,
  refresh_client_session, refresh_grant, token, update_session, verify_challenge, write_csid,
}
use oidc_oauth2_idp.Idp.Invariant.Login.{SameFlow-IsWell}
use oidc_oauth2_idp.Idp.Flow.{authenticate_client-SameFlow}
use oidc_oauth2_idp.Idp.ClientAuth.{
  ClientCredentials, authenticate_client, parse_client_credentials,
}
use oidc_oauth2_idp.Idp.Claims.{decode_jwt}
use oidc_oauth2_idp.Idp.Invariant.{
  AreSessions, HasKnownChallenge, IsSession, IsWell, insert-AreSessions, sessions_of,
}

-- An update of one client session that leaves its client and its challenge alone.
record IsMild (f : ClientSession → ClientSession) : Type 0 where
  same_client : (c : ClientSession) → (f c).client_id ≡ c.client_id
  same_challenge :
      (c : ClientSession)
      → ((f c).code_challenge ≡ c.code_challenge)
        × ((f c).code_challenge_method ≡ c.code_challenge_method)

update_session-AreSessions :
    (key : String) (p : ClientSession → Bool) (f : ClientSession → ClientSession)
    (sessions : Dict Session)
    → IsMild f
    → AreSessions sessions
    → AreSessions (update_session key (update_first p f) sessions)
unfolding update_session
update_session-AreSessions key p f sessions mild a = elim (Option-cases (lookup key sessions)) [
  | inl e ↦ rw (e, update_session) a
  | inr (sess, e) ↦
      let ok = Entries-lookup IsSession key sessions a.each e in
      rw (e, update_session)
        (insert-AreSessions key sess _ sessions a e
          (record {
            keyed = ok.keyed;
            known_challenges =
                All-update_first HasKnownChallenge p f sess.client_sessions (kept f mild)
                  ok.known_challenges;
            one_per_client =
                subst AllDistinct
                  (sym (client_ids-update_first p f sess.client_sessions mild.same_client))
                  ok.one_per_client;
          })
          refl)
]
  where
    kept :
        (f : ClientSession → ClientSession)
        → IsMild f
        → (c : ClientSession) → HasKnownChallenge c
        → HasKnownChallenge (f c)
    kept f mild c h = ground (arith, mild.same_challenge c)

module _ (x : External) (cfg : Config) where
  sessions-IsWell :
      (s : Server) (sessions : Dict Session)
      → IsWell s
      → AreSessions sessions
      → IsWell (record s { sessions = sessions })
  sessions-IsWell s sessions w a = record {
    contexts = w.contexts;
    well_sessions = a.each;
    cookies = a.cookies;
    one_per_sub = a.one_per_sub;
  }

  write_csid-IsMild : (csid : String) → IsMild (write_csid csid)
  write_csid-IsMild csid = record { same_client = λ c. refl; same_challenge = λ c. (refl, refl) }

  record_issued-IsMild :
      (sub : String) (access : Claims) (refresh id_claims : Option Claims)
      → IsMild (record_issued sub access refresh id_claims)
  record_issued-IsMild sub access refresh id_claims = record {
    same_client = λ c. refl;
    same_challenge = λ c. (refl, refl);
  }

  redeem_code-IsWell :
      (code_entry : CodeMetadataEntry) (verifier : String) (s : Server)
      → IsWell s
      → IsWell (redeem_code x cfg code_entry verifier s).0
  unfolding redeem_code
  redeem_code-IsWell code_entry verifier s w =
      elim (Option-cases (lookup code_entry.cookie_id s.sessions)) [
        | inl q ↦ rw (q, redeem_code) w
        | inr (sess, q) ↦ elim (Option-cases (get_client_session_by_id sess code_entry.client_id)) [
          | inl r ↦ rw (q, r, redeem_code) w
          | inr (cs, r) ↦
              elim (Bool-cases
                (verify_challenge x cfg cs.code_challenge cs.code_challenge_method verifier)) [
                  | inr bad ↦ rw (q, r, bad, redeem_code) w
                  | inl good ↦
                      rw (q, r, good, redeem_code)
                        (sessions-IsWell s _ w (
                          update_session-AreSessions code_entry.cookie_id
                            (λ c. c.client_id == code_entry.client_id) (write_csid cs.session_id)
                            s.sessions (write_csid-IsMild cs.session_id) (sessions_of w)))
                ]
        ]
      ]

  code_grant-IsWell : (req : Request) (s : Server) → IsWell s → IsWell (code_grant x cfg req s).0
  unfolding code_grant
  code_grant-IsWell req s w = elim (Option-cases (lookup (form_get req "code") s.code_meta)) [
    | inl e ↦ rw (e, code_grant) w
    | inr (code_entry, e) ↦
        rw (e, code_grant)
          (redeem_code-IsWell code_entry (form_get req "code_verifier")
            (record s { code_meta = delete (form_get req "code") s.code_meta })
            (record {
              contexts = w.contexts;
              well_sessions = w.well_sessions;
              cookies = w.cookies;
              one_per_sub = w.one_per_sub;
            }))
  ]

  refresh_grant-IsWell :
      (req : Request) (s : Server) → IsWell s → IsWell (refresh_grant x cfg req s).0
  unfolding refresh_grant
  refresh_grant-IsWell req s w =
      elim (Option-cases (decode_jwt x cfg (form_get req "refresh_token"))) [
        | inl e ↦ rw (e, refresh_grant) w
        | inr (claims, e) ↦
            elim (Option-cases
              (session_by_client_session_id (text_claim claims "csid") s.sessions)) [
                | inl q ↦ rw (e, q, refresh_grant, refresh_client_session) w
                | inr ((cookie_id, sess, cs), q) ↦
                    rw (e, q, refresh_grant, refresh_client_session)
                      (sessions-IsWell s _ w (
                        update_session-AreSessions cookie_id
                          (λ c. c.session_id == text_claim claims "csid") (write_csid cs.session_id)
                          s.sessions (write_csid-IsMild cs.session_id) (sessions_of w)))
              ]
      ]

  grant-IsWell : (req : Request) (s : Server) → IsWell s → IsWell (grant x cfg req s).0
  unfolding grant
  grant-IsWell req s w =
      if_both (λ (r : Server × GrantResult). IsWell r.0)
        (form_get req "grant_type" == "authorization_code") (code_grant-IsWell req s w)
        (if_both (λ (r : Server × GrantResult). IsWell r.0)
          (form_get req "grant_type" == "refresh_token") (refresh_grant-IsWell req s w) w)

  issue_tokens-IsWell :
      (g : Grant) (now : ℕ) (s : Server) → IsWell s → IsWell (issue_tokens x cfg g now s).0
  unfolding issue_tokens
  issue_tokens-IsWell g now s w = elim (Option-cases (issue_access x cfg g now)) [
    | inl a ↦ rw (a, issue_tokens) w
    | inr ((access_token, access_claims), a) ↦ elim (Option-cases (issue_refresh x cfg g now)) [
      | inl r ↦ rw (a, r, issue_tokens) w
      | inr (refresh, r) ↦ elim (Option-cases (issue_id x cfg g now)) [
        | inl i ↦ rw (a, r, i, issue_tokens) w
        | inr (id_issued, i) ↦
            rw (a, r, i, issue_tokens)
              (sessions-IsWell s _ w (
                update_session-AreSessions g.cookie_id (λ c. c.session_id == g.client_session_id)
                  (record_issued g.advertised_sub access_claims (claims_of x cfg refresh)
                    (claims_of x cfg id_issued))
                  s.sessions (record_issued-IsMild g.advertised_sub access_claims _ _)
                  (sessions_of w)))
      ]
    ]
  ]

  finish_grant-IsWell :
      (net : Network) (creds : ClientCredentials) (now : ℕ) (r : Server × GrantResult)
      → IsWell r.0
      → IsWell (finish_grant x cfg net creds now r).0
  unfolding finish_grant
  finish_grant-IsWell net creds now (s, denied resp) w = w
  finish_grant-IsWell net creds now (s, granted g) w =
      authentic (authenticate_client x cfg net g.client_id creds now s)
        (SameFlow-IsWell (authenticate_client-SameFlow x cfg net g.client_id creds now s) w)
    where
      authentic :
          (r : Server × Bool) → IsWell r.0 → IsWell (issue_if_authentic x cfg creds g now r).0
      authentic (t, false) w = w
      authentic (t, true) w = issue_tokens-IsWell g now t w

  pub token-IsWell :
      (net : Network) (req : Request) (now : ℕ) (s : Server)
      → IsWell s
      → IsWell (token x cfg net req now s).0
  unfolding token
  token-IsWell net req now s w =
      if_both (λ (r : Server × Response). IsWell r.0) (not (req.method == "POST")) w
        (finish_grant-IsWell net (parse_client_credentials req) now (grant x cfg req s)
          (grant-IsWell req s w))
