-- ===== src/Idp/Invariant/Approval.antt =====
-- The invariant through /approve.
use oidc_oauth2_idp.Prelude.{
  Bool-cases, Option, Option-cases, String, [], inl, inr, none, not, refl, some, subst, sym, ◌==◌,
  ◌∷◌, ◌≡◌,
}
use oidc_oauth2_idp.Idp.State.{AuthContextEntry, Claims, Config, Request, Server, Session, form_get}
use oidc_oauth2_idp.Idp.External.{External}
use oidc_oauth2_idp.Idp.Sessions.{session_by_sub}
use oidc_oauth2_idp.Idp.Sessions.Updates.{
  All-upsert_client_session, session_by_sub-lookup, session_by_sub-none, upsert-AllDistinct,
}
use oidc_oauth2_idp.Idp.Authorize.{Fresh, approve, approved_session, grant_approval, session_or_new}
use oidc_oauth2_idp.Idp.Invariant.{
  AreSessions, HasKnownChallenge, IsKnownChallenge, IsSession, IsWell, insert-AreSessions,
  insert_new-AreSessions, sessions_of,
}
use oidc_oauth2_idp.Prelude.Dict.{
  Dict, Entries, Entries-delete, Entries-lookup, delete, insert, lookup,
}
use oidc_oauth2_idp.Idp.Invariant.Login.{issue_code-IsWell}

module _ (x : External) (cfg : Config) where
  approved-IsSession :
      (key : String) (sess : Session) (ctx : AuthContextEntry)
      (id_claims access_claims : Option Claims) (new_id : String)
      → IsKnownChallenge ctx.code_challenge ctx.code_challenge_method
      → IsSession key sess
      → IsSession key (approved_session x cfg sess ctx id_claims access_claims new_id)
  unfolding approved_session
  approved-IsSession key sess ctx id_claims access_claims new_id known ok = record {
    keyed = ok.keyed;
    known_challenges =
        All-upsert_client_session HasKnownChallenge sess.client_sessions _ known
          ok.known_challenges;
    one_per_client = upsert-AllDistinct sess.client_sessions _ ok.one_per_client;
  }

  approved_session-frame :
      (sess : Session) (ctx : AuthContextEntry) (id_claims access_claims : Option Claims)
      (new_id : String)
      → let sess' = approved_session x cfg sess ctx id_claims access_claims new_id in
        (sess'.cookie_id ≡ sess.cookie_id) × (sess'.sub ≡ sess.sub)
  unfolding approved_session
  approved_session-frame sess ctx id_claims access_claims new_id = (refl, refl)

  Entries-keyed : (m : Dict Session) → Entries IsSession m → Entries (λ k v. v.cookie_id ≡ k) m
  Entries-keyed [] h = tt
  Entries-keyed ((k, v) ∷ m) h = (h.0.keyed, Entries-keyed m h.1)

  approved-AreSessions :
      (ctx : AuthContextEntry) (id_claims access_claims : Option Claims) (cookie_id new_id : String)
      (sessions : Dict Session) (found : Option Session)
      → session_by_sub ctx.sub sessions ≡ found
      → IsKnownChallenge ctx.code_challenge ctx.code_challenge_method
      → AreSessions sessions
      → let sess =
          approved_session x cfg
            (session_or_new x cfg found ctx cookie_id)
            ctx
            id_claims
            access_claims
            new_id in
        AreSessions (insert sess.cookie_id sess sessions)
  approved-AreSessions ctx id_claims access_claims cookie_id new_id sessions none e known a =
      let new = session_or_new x cfg none ctx cookie_id in
      let sess = approved_session x cfg new ctx id_claims access_claims new_id in
      let (same_cookie, same) = approved_session-frame new ctx id_claims access_claims new_id in
      subst (λ k. AreSessions (insert k sess sessions)) (sym same_cookie)
        (insert_new-AreSessions cookie_id sess sessions a
          (rw same (session_by_sub-none ctx.sub sessions e))
          (approved-IsSession cookie_id new ctx id_claims access_claims new_id known
            (record { keyed = refl; known_challenges = tt; one_per_client = tt })))
  approved-AreSessions ctx id_claims access_claims cookie_id new_id sessions (some old) e known a =
      let sess = approved_session x cfg old ctx id_claims access_claims new_id in
      let (same_cookie, same) = approved_session-frame old ctx id_claims access_claims new_id in
      let (stored, _) =
        session_by_sub-lookup ctx.sub sessions old a.cookies (Entries-keyed sessions a.each) e in
      subst (λ k. AreSessions (insert k sess sessions)) (sym same_cookie)
        (insert-AreSessions old.cookie_id old sess sessions a stored
          (approved-IsSession old.cookie_id old ctx id_claims access_claims new_id known
            (Entries-lookup IsSession old.cookie_id sessions a.each stored))
          (sym same))

  grant_approval-IsWell :
      (req_id : String) (ctx : AuthContextEntry) (id_claims access_claims : Option Claims)
      (fresh : Fresh) (s : Server)
      → IsKnownChallenge ctx.code_challenge ctx.code_challenge_method
      → IsWell s
      → IsWell (grant_approval x cfg req_id ctx id_claims access_claims fresh s).0
  unfolding grant_approval
  grant_approval-IsWell req_id ctx id_claims access_claims fresh s known w =
      let sess =
        approved_session x cfg
          (session_or_new x cfg (session_by_sub ctx.sub s.sessions) ctx fresh.cookie_id) ctx
          id_claims access_claims fresh.client_session_id in
      let a =
        approved-AreSessions ctx id_claims access_claims fresh.cookie_id fresh.client_session_id
          s.sessions (session_by_sub ctx.sub s.sessions) refl known (sessions_of w) in
      issue_code-IsWell x cfg sess ctx.client_id ctx.state ctx.nonce fresh.code
        (record s {
          auth_context = delete req_id s.auth_context;
          sessions = insert sess.cookie_id sess s.sessions;
        })
        (record {
          contexts =
              Entries-delete
                (λ k (c : AuthContextEntry).
                  IsKnownChallenge c.code_challenge c.code_challenge_method)
                req_id s.auth_context w.contexts;
          well_sessions = a.each;
          cookies = a.cookies;
          one_per_sub = a.one_per_sub;
        })

  pub approve-IsWell :
      (req : Request) (fresh : Fresh) (s : Server) → IsWell s → IsWell (approve x cfg req fresh s).0
  unfolding approve
  approve-IsWell req fresh s w = elim (Bool-cases (not (req.method == "POST"))) [
    | inl t ↦ rw (t, approve) w
    | inr t ↦ elim (Option-cases (lookup (form_get req "reqid") s.auth_context)) [
      | inl e ↦ rw (t, e, approve) w
      | inr (ctx, e) ↦ elim (Option-cases (lookup "approve" req.form)) [
        | inl q ↦ rw (t, e, q, approve) w
        | inr (_, q) ↦ elim (Option-cases (x.parse_claims (form_get req "id_token_claims_json"))) [
          | inl i ↦ rw (t, e, q, i, approve) w
          | inr (id_claims, i) ↦
              elim (Option-cases (x.parse_claims (form_get req "access_token_claims_json"))) [
                | inl a ↦ rw (t, e, q, i, a, approve) w
                | inr (access_claims, a) ↦
                    rw (t, e, q, i, a, approve)
                      (grant_approval-IsWell (form_get req "reqid") ctx id_claims access_claims
                        fresh s
                        (Entries-lookup
                          (λ k (c : AuthContextEntry).
                            IsKnownChallenge c.code_challenge c.code_challenge_method)
                          (form_get req "reqid") s.auth_context w.contexts e)
                        w)
              ]
        ]
      ]
    ]
  ]
