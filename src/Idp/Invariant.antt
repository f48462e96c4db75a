-- ===== src/Idp/Invariant.antt =====
-- The invariant of the server's state.
pub mod Login
pub mod Approval
pub mod Tokens
pub mod Reach
use oidc_oauth2_idp.Prelude.{
  All, AllDistinct, List, String, contains, false, some, subst, sym, ◌≡◌, ◌⊎◌,
}
use oidc_oauth2_idp.Prelude.Dict.{
  Dict, Entries, Entries-delete, Entries-insert, column, column-delete-AllDistinct,
  column-insert-AllDistinct, column-insert_same, delete, insert, keys, keys-delete-AllDistinct,
  keys-insert-AllDistinct, lookup,
}
use oidc_oauth2_idp.Idp.State.{AuthContextEntry, ClientSession, Server, Session}
use oidc_oauth2_idp.Idp.Sessions.Updates.{client_ids}

-- A challenge that is stored is empty or has a method that the token endpoint knows.
abbrev pub IsKnownChallenge : String → String → Type 0
IsKnownChallenge code_challenge challenge_method =
    (code_challenge ≡ "") ⊎ (challenge_method ≡ "S256") ⊎ (challenge_method ≡ "plain")

abbrev pub HasKnownChallenge : ClientSession → Type 0
HasKnownChallenge cs = IsKnownChallenge cs.code_challenge cs.code_challenge_method

-- A session stands under its cookie, each client has one client session in it, and the challenges in
-- it are known.
pub record IsSession (key : String) (sess : Session) : Type 0 where
  pub keyed : sess.cookie_id ≡ key
  pub known_challenges : All HasKnownChallenge sess.client_sessions
  pub one_per_client : AllDistinct (client_ids sess.client_sessions)

abbrev pub subs : Dict Session → List String
subs = column (λ (v : Session). v.sub)

-- What holds of every reachable state: known challenges in the requests under way, well-formed sessions
-- under distinct cookies, and one session for each subject.
pub record IsWell (s : Server) : Type 0 where
  pub contexts :
      Entries
        (λ k (ctx : AuthContextEntry).
          IsKnownChallenge ctx.code_challenge ctx.code_challenge_method)
        s.auth_context
  pub well_sessions : Entries IsSession s.sessions
  pub cookies : AllDistinct (keys s.sessions)
  pub one_per_sub : AllDistinct (subs s.sessions)

-- What is left to show where only the sessions changed.
pub record AreSessions (sessions : Dict Session) : Type 0 where
  pub each : Entries IsSession sessions
  pub cookies : AllDistinct (keys sessions)
  pub one_per_sub : AllDistinct (subs sessions)

pub sessions_of : {s : Server} → IsWell s → AreSessions s.sessions
sessions_of w = record { each = w.well_sessions; cookies = w.cookies; one_per_sub = w.one_per_sub }

-- Writing back a changed session under its key, for the same subject.
pub insert-AreSessions :
    (key : String) (old new : Session) (sessions : Dict Session)
    → AreSessions sessions
    → lookup key sessions ≡ some old
    → IsSession key new
    → old.sub ≡ new.sub
    → AreSessions (insert key new sessions)
insert-AreSessions key old new sessions a found ok same = record {
  each = Entries-insert IsSession key new sessions ok a.each;
  cookies = keys-insert-AllDistinct key new sessions a.cookies;
  one_per_sub =
      subst AllDistinct
        (sym (column-insert_same (λ (v : Session). v.sub) key new old sessions found same))
        a.one_per_sub;
}

pub insert_new-AreSessions :
    (key : String) (new : Session) (sessions : Dict Session)
    → AreSessions sessions
    → contains (subs sessions) new.sub ≡ false
    → IsSession key new
    → AreSessions (insert key new sessions)
insert_new-AreSessions key new sessions a unseen ok = record {
  each = Entries-insert IsSession key new sessions ok a.each;
  cookies = keys-insert-AllDistinct key new sessions a.cookies;
  one_per_sub =
      column-insert-AllDistinct (λ (v : Session). v.sub) key new sessions a.one_per_sub unseen;
}

pub delete-AreSessions :
    (key : String) (sessions : Dict Session)
    → AreSessions sessions
    → AreSessions (delete key sessions)
delete-AreSessions key sessions a = record {
  each = Entries-delete IsSession key sessions a.each;
  cookies = keys-delete-AllDistinct key sessions a.cookies;
  one_per_sub = column-delete-AllDistinct (λ (v : Session). v.sub) key sessions a.one_per_sub;
}
