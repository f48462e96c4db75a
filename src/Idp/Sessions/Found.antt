-- ===== src/Idp/Sessions/Found.antt =====
-- What the lookup of a client session by its identifier finds.
use oidc_oauth2_idp.Prelude.{
  List, Option-cases, String, [], ap, arith, contains, eq_iff, inl, inr, some, some_injective,
  subst, text_cases, true, ◌∷◌, ◌≡◌,
}
use oidc_oauth2_idp.Prelude.Dict.{Dict, keys, lookup}
use oidc_oauth2_idp.Idp.State.{ClientSession, Session}
use oidc_oauth2_idp.Idp.Sessions.{
  client_session_by_session_id, find_client_session, session_by_client_session_id,
}

-- The session that a client session is found in is one of the sessions.
find_client_session-key :
    (cs_id : String) (sessions : Dict Session) (k : String) (sess : Session) (cs : ClientSession)
    → find_client_session cs_id sessions ≡ some (k, sess, cs)
    → contains (keys sessions) k ≡ true
unfolding find_client_session contains
find_client_session-key cs_id [] k sess cs e = cc
find_client_session-key cs_id ((j, found) ∷ rest) k sess cs e =
    elim (Option-cases (client_session_by_session_id cs_id found.client_sessions)) [
      | inr (c, q) ↦
          let same =
            ap (λ (r : String × Session × ClientSession). r.0)
              (some_injective (rw (q, find_client_session) at e)) in
          ground (arith, eq_iff j k, same)
      | inl q ↦
          ground
            (arith, find_client_session-key cs_id rest k sess cs (rw (q, find_client_session) at e))
    ]

pub session_by_client_session_id-key :
    (cs_id : String) (sessions : Dict Session) (k : String) (sess : Session) (cs : ClientSession)
    → session_by_client_session_id cs_id sessions ≡ some (k, sess, cs)
    → contains (keys sessions) k ≡ true
unfolding session_by_client_session_id
session_by_client_session_id-key cs_id sessions k sess cs e =
    ground (arith, find_client_session-key cs_id sessions k sess cs)

client_session_by_session_id-named :
    (cs_id : String) (css : List ClientSession) (cs : ClientSession)
    → client_session_by_session_id cs_id css ≡ some cs
    → cs.session_id ≡ cs_id
unfolding client_session_by_session_id
client_session_by_session_id-named cs_id [] cs e = cc
client_session_by_session_id-named cs_id (c ∷ css) cs e = elim (text_cases c.session_id cs_id) [
  | inl (same, t) ↦
      subst (λ (d : ClientSession). d.session_id ≡ cs_id)
        (some_injective (rw (t, client_session_by_session_id) at e)) same
  | inr (_, t) ↦
      client_session_by_session_id-named cs_id css cs (rw (t, client_session_by_session_id) at e)
]

find_client_session-named :
    (cs_id : String) (sessions : Dict Session) (k : String) (sess : Session) (cs : ClientSession)
    → find_client_session cs_id sessions ≡ some (k, sess, cs)
    → cs.session_id ≡ cs_id
unfolding find_client_session
find_client_session-named cs_id [] k sess cs e = cc
find_client_session-named cs_id ((j, found) ∷ rest) k sess cs e =
    elim (Option-cases (client_session_by_session_id cs_id found.client_sessions)) [
      | inr (c, q) ↦
          subst (λ (d : ClientSession). d.session_id ≡ cs_id)
            (ap (λ (r : String × Session × ClientSession). r.2)
              (some_injective (rw (q, find_client_session) at e)))
            (client_session_by_session_id-named cs_id found.client_sessions c q)
      | inl q ↦ find_client_session-named cs_id rest k sess cs (rw (q, find_client_session) at e)
    ]

pub session_by_client_session_id-named :
    (cs_id : String) (sessions : Dict Session) (k : String) (sess : Session) (cs : ClientSession)
    → session_by_client_session_id cs_id sessions ≡ some (k, sess, cs)
    → cs.session_id ≡ cs_id
unfolding session_by_client_session_id
session_by_client_session_id-named cs_id sessions k sess cs e =
    ground (arith, find_client_session-named cs_id sessions k sess cs)

pub lookup-key :
    {V : Type 0} (k : String) (m : Dict V) (v : V)
    → lookup k m ≡ some v
    → contains (keys m) k ≡ true
unfolding lookup contains
lookup-key k [] v e = cc
lookup-key k ((j, w) ∷ m) v e = ground (arith, lookup-key k m v)
