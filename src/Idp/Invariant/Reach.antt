-- ===== src/Idp/Invariant/Reach.antt =====
-- The states that the server's handlers reach from its start.
use oidc_oauth2_idp.Prelude.{Option, String, [], arith, if_both, none, not, some, ℕ, ◌&&◌, ◌==◌}
use oidc_oauth2_idp.Prelude.Dict.{delete}
use oidc_oauth2_idp.Idp.State.{ClientRegistration, Config, Request, Response, Server, form_get}
use oidc_oauth2_idp.Idp.External.{External, Network}
use oidc_oauth2_idp.Idp.Flow.{SameFlow, SameFlow-refl}
use oidc_oauth2_idp.Idp.Authorize.{Fresh, approve, authorize, login}
use oidc_oauth2_idp.Idp.Token.{token}
use oidc_oauth2_idp.Idp.Userinfo.{endsession_approve, logout}
use oidc_oauth2_idp.Idp.Invariant.{IsWell, delete-AreSessions, sessions_of}
use oidc_oauth2_idp.Idp.Invariant.Login.{SameFlow-IsWell, authorize-IsWell, login-IsWell}
use oidc_oauth2_idp.Idp.Invariant.Approval.{approve-IsWell}
use oidc_oauth2_idp.Idp.Invariant.Tokens.{token-IsWell}
use oidc_oauth2_idp.Idp.Registration.{
  Normalized, finish_registration, issue_registration, normalize_registration, normalized, register,
  rejected, supported_token_endpoint_auth_methods,
}

-- The server's registries at its start.
abbrev pub started : Server
started = record {
  auth_context = [];
  code_meta = [];
  sessions = [];
  clients = [];
  client_id_metadata = [];
  private_key_jwt_jtis = [];
}

-- One request to a handler, from the state before it to the state after it.
pub data Step (x : External) (cfg : Config) : Server → Server → Type 0 where
  authorized :
      (net : Network) (req : Request) (fresh : Fresh) (now : ℕ) (s : Server)
      → Step x cfg s (authorize x cfg net req fresh now s).0
  logged : (req : Request) (s : Server) → Step x cfg s (login x cfg req s).0
  approved :
      (req : Request) (fresh : Fresh) (s : Server) → Step x cfg s (approve x cfg req fresh s).0
  exchanged :
      (net : Network) (req : Request) (now : ℕ) (s : Server)
      → Step x cfg s (token x cfg net req now s).0
  client_registered :
      (req : Request) (body : Option ClientRegistration) (new_id : String)
      (new_secret : Option String) (now : ℕ) (s : Server)
      → Step x cfg s (register x req body new_id new_secret now s).0
  session_ended : (req : Request) (s : Server) → Step x cfg s (endsession_approve x cfg req s).0
  logged_out : (req : Request) (s : Server) → Step x cfg s (logout x cfg req s).0

-- Any number of requests after the start.
pub data Reach (x : External) (cfg : Config) : Server → Type 0 where
  at_start : Reach x cfg started
  after : {s t : Server} → Reach x cfg s → Step x cfg s t → Reach x cfg t

module _ (x : External) (cfg : Config) where
  delete_session-IsWell :
      (key : String) (s : Server)
      → IsWell s
      → IsWell (record s { sessions = delete key s.sessions })
  delete_session-IsWell key s w =
      let a = delete-AreSessions key s.sessions (sessions_of w) in
      record {
        contexts = w.contexts;
        well_sessions = a.each;
        cookies = a.cookies;
        one_per_sub = a.one_per_sub;
      }

  endsession_approve-IsWell :
      (req : Request) (s : Server) → IsWell s → IsWell (endsession_approve x cfg req s).0
  unfolding endsession_approve
  endsession_approve-IsWell req s w =
      if_both (λ (r : Server × Response). IsWell r.0)
        (not (req.method == "GET") && not (req.method == "POST")) w
        (delete_session-IsWell (form_get req "sessionid") s w)

  logout-IsWell : (req : Request) (s : Server) → IsWell s → IsWell (logout x cfg req s).0
  unfolding logout
  logout-IsWell req s w =
      if_both (λ (r : Server × Response). IsWell r.0) (not (req.method == "POST")) w
        (delete_session-IsWell (form_get req "cookieid") s w)

  finish_registration-SameFlow :
      (n : Normalized) (new_id : String) (new_secret : Option String) (now : ℕ) (s : Server)
      → SameFlow s (finish_registration x n new_id new_secret now s).0
  unfolding finish_registration issue_registration
  finish_registration-SameFlow (rejected code description) new_id new_secret now s = SameFlow-refl s
  finish_registration-SameFlow (normalized full) new_id new_secret now s = ground arith

  register-IsWell :
      (req : Request) (body : Option ClientRegistration) (new_id : String)
      (new_secret : Option String) (now : ℕ) (s : Server)
      → IsWell s
      → IsWell (register x req body new_id new_secret now s).0
  unfolding register
  register-IsWell req none new_id new_secret now s w =
      if_both (λ (r : Server × Response). IsWell r.0) (not (req.method == "POST")) w w
  register-IsWell req (some reg) new_id new_secret now s w =
      if_both (λ (r : Server × Response). IsWell r.0) (not (req.method == "POST")) w
        (SameFlow-IsWell
          (finish_registration-SameFlow
            (normalize_registration x reg supported_token_endpoint_auth_methods
              "client_secret_basic")
            new_id new_secret now s)
          w)

  Step-IsWell : {s t : Server} → Step x cfg s t → IsWell s → IsWell t
  Step-IsWell (authorized net req fresh now s) w = authorize-IsWell x cfg net req fresh now s w
  Step-IsWell (logged req s) w = login-IsWell x cfg req s w
  Step-IsWell (approved req fresh s) w = approve-IsWell x cfg req fresh s w
  Step-IsWell (exchanged net req now s) w = token-IsWell x cfg net req now s w
  Step-IsWell (client_registered req body new_id new_secret now s) w =
      register-IsWell req body new_id new_secret now s w
  Step-IsWell (session_ended req s) w = endsession_approve-IsWell req s w
  Step-IsWell (logged_out req s) w = logout-IsWell req s w

  -- Whatever requests to /authorize, /login, /approve, /token, /register, /endsession-approve and
  -- /logout came before, sessions stand under their own cookies, no two sessions are of one
  -- subject, a session has one client session for each client, and every stored challenge is empty or
  -- has a supported method.
  pub Reach-IsWell : {s : Server} → Reach x cfg s → IsWell s
  Reach-IsWell at_start = record {
    contexts = tt;
    well_sessions = tt;
    cookies = tt;
    one_per_sub = tt;
  }
  Reach-IsWell (after r step) = Step-IsWell step (Reach-IsWell r)
