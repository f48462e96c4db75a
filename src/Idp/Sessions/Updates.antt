-- ===== src/Idp/Sessions/Updates.antt =====
-- What the lookups find and what the updates of client sessions keep.
use oidc_oauth2_idp.Prelude.{
  All, AllDistinct, Bool, Bool-cases, List, Option, String, [], ap, arith, contains, eq_iff,
  eq_refl, false, if◌then◌else◌, inl, inr, none, refl, some, some_injective, subst, text_cases,
  true, ◌==◌, ◌∷◌, ◌≡◌, ◌≢◌,
}
use oidc_oauth2_idp.Prelude.Dict.{Dict, Entries, column, keys, lookup, lookup_behind}
use oidc_oauth2_idp.Idp.State.{ClientSession, Session}
use oidc_oauth2_idp.Idp.Sessions.{
  client_session_by_id, has_advertised_sub, session_by_advertised_sub, session_by_sub, update_first,
  upsert_client_session,
}

abbrev pub client_ids : List ClientSession → List String
client_ids [] = []
client_ids (c ∷ cs) = c.client_id ∷ client_ids cs

module _ {κ} (P : ClientSession → Type κ) where
  pub All-update_first :
      (p : ClientSession → Bool) (f : ClientSession → ClientSession) (cs : List ClientSession)
      → ((c : ClientSession) → P c → P (f c))
      → All P cs
      → All P (update_first p f cs)
  unfolding update_first
  All-update_first p f [] keep h = tt
  All-update_first p f (c ∷ cs) keep h = elim (Bool-cases (p c)) [
    | inl t ↦ rw (t, update_first) (keep c h.0, h.1)
    | inr t ↦ rw (t, update_first) (h.0, All-update_first p f cs keep h.1)
  ]

  pub All-upsert_client_session :
      (cs : List ClientSession) (new : ClientSession)
      → P new
      → All P cs
      → All P (upsert_client_session cs new)
  unfolding upsert_client_session
  All-upsert_client_session [] new p h = (p, tt)
  All-upsert_client_session (c ∷ cs) new p h = elim (Bool-cases (c.client_id == new.client_id)) [
    | inl t ↦ rw (t, upsert_client_session) (p, h.1)
    | inr t ↦ rw (t, upsert_client_session) (h.0, All-upsert_client_session cs new p h.1)
  ]

  -- A client session that is found is one of the list.
  pub All-client_session_by_id :
      (cs : List ClientSession) (client_id : String) {c : ClientSession}
      → All P cs
      → client_session_by_id cs client_id ≡ some c
      → P c
  unfolding client_session_by_id
  All-client_session_by_id [] client_id h e = cc
  All-client_session_by_id (d ∷ cs) client_id {c} h e =
      elim (Bool-cases (d.client_id == client_id)) [
        | inl t ↦ subst P (some_injective (rw (t, client_session_by_id) at e)) h.0
        | inr t ↦ All-client_session_by_id cs client_id h.1 (rw (t, client_session_by_id) at e)
      ]

-- An update that leaves the client of a client session alone leaves the clients of the list alone.
pub client_ids-update_first :
    (p : ClientSession → Bool) (f : ClientSession → ClientSession) (cs : List ClientSession)
    → ((c : ClientSession) → (f c).client_id ≡ c.client_id)
    → client_ids (update_first p f cs) ≡ client_ids cs
unfolding update_first
client_ids-update_first p f [] keep = refl
client_ids-update_first p f (c ∷ cs) keep = elim (Bool-cases (p c)) [
  | inl t ↦ rw (t, update_first) (ap (λ (i : String). i ∷ client_ids cs) (keep c))
  | inr t ↦ rw (t, update_first) (ap (λ l. c.client_id ∷ l) (client_ids-update_first p f cs keep))
]

contains-client_ids-upsert :
    (cs : List ClientSession) (new : ClientSession) (t : String)
    → contains (client_ids cs) t ≡ false
    → new.client_id ≢ t
    → contains (client_ids (upsert_client_session cs new)) t ≡ false
unfolding upsert_client_session contains
contains-client_ids-upsert [] new t h n = ground (arith, eq_iff new.client_id t)
contains-client_ids-upsert (c ∷ cs) new t h n =
    ground (arith, eq_iff new.client_id t, contains-client_ids-upsert cs new t)

-- No client gets a second client session.
pub upsert-AllDistinct :
    (cs : List ClientSession) (new : ClientSession)
    → AllDistinct (client_ids cs)
    → AllDistinct (client_ids (upsert_client_session cs new))
unfolding upsert_client_session contains
upsert-AllDistinct [] new d = (refl, tt)
upsert-AllDistinct (c ∷ cs) new d = ground (
  arith,
  upsert-AllDistinct cs new d.1,
  contains-client_ids-upsert cs new c.client_id d.0,
  eq_iff c.client_id new.client_id,
  eq_iff new.client_id c.client_id,
  d.0,
  d.1,
)

-- The client session that is put in is the one that is found for its client, and those of the other
-- clients are found as before.
pub client_session_by_id-upsert :
    (cs : List ClientSession) (new : ClientSession) (client_id : String)
    → client_session_by_id (upsert_client_session cs new) client_id
      ≡ (if new.client_id == client_id then some new else client_session_by_id cs client_id)
unfolding upsert_client_session client_session_by_id
client_session_by_id-upsert [] new client_id = refl
client_session_by_id-upsert (c ∷ cs) new client_id = ground (
  arith,
  client_session_by_id-upsert cs new client_id,
  eq_iff c.client_id new.client_id,
  eq_iff c.client_id client_id,
  eq_iff new.client_id client_id,
)

-- A session that is found by its subject stands under its own cookie, if every session does.
pub session_by_sub-lookup :
    (sub : String) (m : Dict Session) (sess : Session)
    → AllDistinct (keys m)
    → Entries (λ k v. v.cookie_id ≡ k) m
    → session_by_sub sub m ≡ some sess
    → (lookup sess.cookie_id m ≡ some sess) × (sess.sub ≡ sub)
unfolding session_by_sub lookup
session_by_sub-lookup sub [] sess d h e = cc
session_by_sub-lookup sub ((k, v) ∷ m) sess d h e = elim (text_cases v.sub sub) [
  | inl (same, t) ↦
      let found : v ≡ sess = some_injective (rw (t, session_by_sub) at e) in
      (rw (← found) (rw (h.0, eq_refl k) refl), rw (← found) same)
  | inr (apart, t) ↦
      let (found, same) = session_by_sub-lookup sub m sess d.1 h.1 (rw (t, session_by_sub) at e) in
      (lookup_behind k sess.cookie_id v sess m d.0 found, same)
]

pub session_by_sub-none :
    (sub : String) (m : Dict Session)
    → session_by_sub sub m ≡ none
    → contains (column (λ (v : Session). v.sub) m) sub ≡ false
unfolding session_by_sub contains
session_by_sub-none sub [] e = refl
session_by_sub-none sub ((k, v) ∷ m) e = ground (arith, session_by_sub-none sub m)

-- A session that is found by an advertised subject is one of the sessions.
pub session_by_advertised_sub-lookup :
    (sub : String) (sessions : Dict Session)
    → lookup (session_by_advertised_sub sub sessions) sessions ≡ none
    → (session_by_advertised_sub sub sessions == "") ≡ true
unfolding session_by_advertised_sub lookup
session_by_advertised_sub-lookup sub [] e = refl
session_by_advertised_sub-lookup sub ((cookie_id, sess) ∷ rest) e =
    elim (Bool-cases (has_advertised_sub sub sess.client_sessions)) [
      | inl t ↦ absurd (ground (arith, eq_refl cookie_id))
      | inr t ↦ ground (
        arith,
        session_by_advertised_sub-lookup sub rest,
        if_none (cookie_id == session_by_advertised_sub sub rest)
            (lookup (session_by_advertised_sub sub rest) rest) sess,
      )
    ]
  where
    if_none :
        (b : Bool) (o : Option Session) (v : Session) → (if b then some v else o) ≡ none → o ≡ none
    if_none b o v e = ground arith
