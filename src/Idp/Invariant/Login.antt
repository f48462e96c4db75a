-- ===== src/Idp/Invariant/Login.antt =====
-- The invariant through /authorize and /login.
use oidc_oauth2_idp.Prelude.{
  AllDistinct, Bool-cases, Option, Option-cases, String, arith, inl, inr, none, not, or_empty, refl,
  some, subst, sym, ℕ, ◌==◌, ◌∙◌, ◌≡◌,
}
use oidc_oauth2_idp.Idp.State.{
  AuthContextEntry, Config, Request, Server, Session, form_get, text_claim,
}
use oidc_oauth2_idp.Idp.External.{External, Network}
use oidc_oauth2_idp.Idp.Sessions.{
  get_client_session_by_id, session_by_advertised_sub, update_client_session_pkce,
  update_client_session_redirect_uri,
}
use oidc_oauth2_idp.Idp.Sessions.Updates.{
  All-update_first, client_ids-update_first, session_by_advertised_sub-lookup,
}
use oidc_oauth2_idp.Idp.Flow.{SameFlow, resolve_authorize_client-SameFlow}
use oidc_oauth2_idp.Idp.Authorize.{
  Fresh, authorize, authorize_resolved, authorize_silently, continue_session, cookie_session,
  issue_code_and_redirect, logged_in, login, or_empty_context, requested_context, unless_objection,
}
use oidc_oauth2_idp.Idp.Invariant.{
  HasKnownChallenge, IsKnownChallenge, IsSession, IsWell, insert-AreSessions, sessions_of,
}
use oidc_oauth2_idp.Prelude.Dict.{Dict, Entries, Entries-insert, Entries-lookup, insert, lookup}
use oidc_oauth2_idp.Idp.Claims.{decode_jwt}
use oidc_oauth2_idp.Idp.Authorize.Client.{
  authorize_cases, challenge_method_of, resolved_client, unsupported_challenge_iff,
}

pub SameFlow-IsWell : {s t : Server} → SameFlow s t → IsWell s → IsWell t
SameFlow-IsWell f w = record {
  contexts = rw f.contexts w.contexts;
  well_sessions = rw f.browser_sessions w.well_sessions;
  cookies = rw f.browser_sessions w.cookies;
  one_per_sub = rw f.browser_sessions w.one_per_sub;
}

module _ (x : External) (cfg : Config) where
  pub issue_code-IsWell :
      (sess : Session) (client_id state nonce code : String) (s : Server)
      → IsWell s
      → IsWell (issue_code_and_redirect x cfg sess client_id state nonce code s).0
  unfolding issue_code_and_redirect
  issue_code-IsWell sess client_id state nonce code s w =
      elim (Option-cases (get_client_session_by_id sess client_id)) [
        | inl e ↦
            rw (e, issue_code_and_redirect)
              (record {
                contexts = w.contexts;
                well_sessions = w.well_sessions;
                cookies = w.cookies;
                one_per_sub = w.one_per_sub;
              })
        | inr (cs, e) ↦
            rw (e, issue_code_and_redirect)
              (record {
                contexts = w.contexts;
                well_sessions = w.well_sessions;
                cookies = w.cookies;
                one_per_sub = w.one_per_sub;
              })
      ]

  -- The session that a request continues takes its challenge and its redirect URI.
  updated-IsSession :
      (key : String) (sess : Session) (client_id uri challenge challenge_method : String)
      → IsKnownChallenge challenge challenge_method
      → IsSession key sess
      → IsSession key (
          update_client_session_redirect_uri
            (update_client_session_pkce sess client_id challenge challenge_method)
            client_id
            uri)
  unfolding update_client_session_redirect_uri update_client_session_pkce
  updated-IsSession key sess client_id uri challenge challenge_method known ok = record {
    keyed = ok.keyed;
    known_challenges =
        All-update_first HasKnownChallenge _ _ _ (λ c h. h)
          (All-update_first HasKnownChallenge _ _ _ (λ c h. known) ok.known_challenges);
    one_per_client =
        subst AllDistinct
          (sym
            (client_ids-update_first _ _ _ (λ c. refl) ∙ client_ids-update_first _ _ _ (λ c. refl)))
          ok.one_per_client;
  }

  same_sub :
      (sess : Session) (client_id uri challenge challenge_method : String)
      → sess.sub
        ≡ (update_client_session_redirect_uri
            (update_client_session_pkce sess client_id challenge challenge_method)
            client_id
            uri).sub
  unfolding update_client_session_redirect_uri update_client_session_pkce
  same_sub sess client_id uri challenge challenge_method = refl

  continue_session-IsWell :
      (key : String) (sess : Session)
      (client_id uri state nonce challenge challenge_method code : String) (s : Server)
      → IsKnownChallenge challenge challenge_method
      → lookup key s.sessions ≡ some sess
      → IsWell s
      → IsWell
          (continue_session x cfg key sess client_id uri state nonce challenge challenge_method code
            s).0
  unfolding continue_session
  continue_session-IsWell key sess client_id uri state nonce challenge challenge_method code s known
        found w =
      let sess' =
        update_client_session_redirect_uri
          (update_client_session_pkce sess client_id challenge challenge_method) client_id uri in
      let a =
        insert-AreSessions key sess sess' s.sessions (sessions_of w) found
          (updated-IsSession key sess client_id uri challenge challenge_method known
            (Entries-lookup IsSession key s.sessions w.well_sessions found))
          (same_sub sess client_id uri challenge challenge_method) in
      issue_code-IsWell sess' client_id state nonce code
        (record s { sessions = insert key sess' s.sessions })
        (record {
          contexts = w.contexts;
          well_sessions = a.each;
          cookies = a.cookies;
          one_per_sub = a.one_per_sub;
        })

  authorize_silently-IsWell :
      (req : Request) (challenge_method code : String) (s : Server)
      → IsKnownChallenge (form_get req "code_challenge") challenge_method
      → IsWell s
      → IsWell (authorize_silently x cfg req challenge_method code s).0
  unfolding authorize_silently
  authorize_silently-IsWell req challenge_method code s known w =
      elim (Option-cases (decode_jwt x cfg (form_get req "id_token_hint"))) [
        | inl e ↦ rw (e, authorize_silently) w
        | inr (claims, e) ↦
            let key = session_by_advertised_sub (text_claim claims "sub") s.sessions in
            elim (Bool-cases (key == "")) [
              | inl t ↦ rw (e, t, authorize_silently) w
              | inr t ↦ elim (Option-cases (lookup key s.sessions)) [
                | inl q ↦ absurd (
                    ground (
                      arith,
                      session_by_advertised_sub-lookup (text_claim claims "sub") s.sessions q,
                    ))
                | inr (sess, q) ↦
                    rw (e, t, q, authorize_silently)
                      (continue_session-IsWell key sess (form_get req "client_id")
                        (form_get req "redirect_uri") (form_get req "state") (form_get req "nonce")
                        (form_get req "code_challenge") challenge_method code s known q w)
              ]
            ]
      ]

  cookie_session-lookup :
      (cookie : Option String) (sessions : Dict Session)
      → cookie_session x cfg cookie sessions ≡ lookup (or_empty cookie) sessions
  cookie_session-lookup none sessions = refl
  cookie_session-lookup (some value) sessions = refl

  authorize_resolved-IsWell :
      (req : Request) (challenge_method : String) (fresh : Fresh) (s : Server)
      → IsKnownChallenge (form_get req "code_challenge") challenge_method
      → IsWell s
      → IsWell (authorize_resolved x cfg req challenge_method fresh s).0
  unfolding authorize_resolved
  authorize_resolved-IsWell req challenge_method fresh s known w =
      elim (Option-cases (cookie_session x cfg req.session_cookie s.sessions)) [
        | inr (sess, e) ↦
            rw (e, authorize_resolved)
              (continue_session-IsWell (or_empty req.session_cookie) sess (form_get req "client_id")
                (form_get req "redirect_uri") (form_get req "state") (form_get req "nonce")
                (form_get req "code_challenge") challenge_method fresh.code s known
                (sym (cookie_session-lookup req.session_cookie s.sessions) ∙ e) w)
        | inl e ↦ elim (Bool-cases (form_get req "prompt" == "none")) [
          | inl t ↦
              rw (e, t, authorize_resolved)
                (authorize_silently-IsWell req challenge_method fresh.code s known w)
          | inr t ↦
              rw (e, t, authorize_resolved)
                (record {
                  contexts =
                      Entries-insert _ fresh.req_id (requested_context x cfg req challenge_method)
                        s.auth_context known w.contexts;
                  well_sessions = w.well_sessions;
                  cookies = w.cookies;
                  one_per_sub = w.one_per_sub;
                })
        ]
      ]

  unless_objection-IsWell :
      (req : Request) (challenge_method : String) (fresh : Fresh) (r : Server × Option String)
      → IsKnownChallenge (form_get req "code_challenge") challenge_method
      → IsWell r.0
      → IsWell (unless_objection x cfg (authorize_resolved x cfg req challenge_method fresh) r).0
  unless_objection-IsWell req challenge_method fresh (s, some text) known w = w
  unless_objection-IsWell req challenge_method fresh (s, none) known w =
      authorize_resolved-IsWell req challenge_method fresh s known w

  pub authorize-IsWell :
      (net : Network) (req : Request) (fresh : Fresh) (now : ℕ) (s : Server)
      → IsWell s
      → IsWell (authorize x cfg net req fresh now s).0
  authorize-IsWell net req fresh now s w = elim (authorize_cases x cfg net req fresh now s) [
    | inl e ↦ rw e w
    | inr (inl e) ↦ rw e w
    | inr (inr (good, e)) ↦ rw e (
        unless_objection-IsWell req (challenge_method_of x cfg net req) fresh
          (resolved_client x cfg net req now s) ((unsupported_challenge_iff _ _).0 good)
          (SameFlow-IsWell
            (resolve_authorize_client-SameFlow x cfg net (form_get req "client_id")
              (form_get req "redirect_uri") (form_get req "scope") (form_get req "code_challenge")
              now s)
            w))
  ]

  or_empty_context-known :
      (o : Option AuthContextEntry) (k : String) (m : Dict AuthContextEntry)
      → lookup k m ≡ o
      → Entries
          (λ k (ctx : AuthContextEntry).
            IsKnownChallenge ctx.code_challenge ctx.code_challenge_method)
          m
      → IsKnownChallenge
          (or_empty_context x cfg o).code_challenge
          (or_empty_context x cfg o).code_challenge_method
  or_empty_context-known none k m e h = inl refl
  or_empty_context-known (some ctx) k m e h =
      Entries-lookup
        (λ k (ctx : AuthContextEntry).
          IsKnownChallenge ctx.code_challenge ctx.code_challenge_method)
        k m h e

  pub login-IsWell : (req : Request) (s : Server) → IsWell s → IsWell (login x cfg req s).0
  unfolding login
  login-IsWell req s w = elim (Bool-cases (not (req.method == "POST"))) [
    | inl t ↦ rw (t, login) w
    | inr t ↦ elim (Bool-cases (not (form_get req "password" == "valid"))) [
      | inl q ↦ rw (t, q, login) w
      | inr q ↦
          rw (t, q, login)
            (record {
              contexts =
                  Entries-insert _ (form_get req "reqid") (logged_in x cfg req s) s.auth_context
                    (or_empty_context-known (lookup (form_get req "reqid") s.auth_context)
                      (form_get req "reqid") s.auth_context refl w.contexts)
                    w.contexts;
              well_sessions = w.well_sessions;
              cookies = w.cookies;
              one_per_sub = w.one_per_sub;
            })
    ]
  ]
