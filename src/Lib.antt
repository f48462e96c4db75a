-- ===== src/Lib.antt =====
-- A model of an OpenID Connect identity provider, idp-auth-server/, and of a backend for frontends, bff/,
-- with proofs of what makes them correct.
--
-- The program. The identity provider keeps, in memory and under one mutex, the authorization requests
-- under way, the authorization codes, the browser sessions with a client session for each client, the
-- registered clients, the cache of client ID metadata documents and the identifiers of the client
-- assertions seen. A browser goes through /authorize, /login and /approve and is sent back to its client
-- with a code; the client redeems the code, or a refresh token, at /token, where it also authenticates;
-- /userinfo serves claims for an access token; /logout and /endsession-approve end sessions. A client is
-- registered automatically when it is first seen, by itself at /register, or by the metadata document
-- that its identifier, a URL, points to.
--
-- The backend reads its configuration from the environment, waits for the provider's discovery and then
-- serves. It keeps the tokens of a browser's session in a store, behind a cookie, and sees to it that the
-- state of a login is used once. Every request goes through its middleware, which asks for a session, checks
-- the CSRF token and puts the session's access token into requests to the API; its proxies pass these on to
-- the API and all else to the static assets, but for the handlers of the login, of the logout and of what the
-- frontend asks about its user.
--
-- The model. The state is the record Server of Idp/State, and a handler is a function from the state, the
-- request and what it draws from outside to the state and the response. Maps are association lists, whose
-- order stands for the order of `range`; times are nanoseconds; claims are lists of JSON values.
--   Prelude              texts, maps, lists and tests that the other modules share
--   Idp/State            the types of idp-auth-server/main.go
--   Idp/External         what comes from libraries and the network, as parameters: URL parsing, JSON,
--                        hashes, JWTs, HTTP. Nothing is assumed of them.
--   Idp/Scope            dedupeStrings, hasScope                                      (main.go)
--   Idp/Sessions         the lookups and updates of sessions                          (main.go)
--   Idp/Registration     register, normalizeRegistration, registerClientLocked        (main.go)
--   Idp/Claims           the claims of tokens, issueToken, decodeJWT                  (main.go)
--   Idp/Metadata         client ID metadata documents                  (clientid_metadata.go)
--   Idp/Metadata/Address metadataHTTPClient, checkFetchAddress         (clientid_metadata.go)
--   Idp/Assertion        private_key_jwt                                 (private_key_jwt.go)
--   Idp/ClientAuth       parseClientCredentials, authenticateClient                   (main.go)
--   Idp/Authorize        authorize, login, approve, issueCodeAndRedirect              (main.go)
--   Idp/Token            token                                                        (main.go)
--   Idp/Userinfo         userinfo, endsession, endsessionApprove, logout              (main.go)
--   Idp/Avatars          avatar, internalAvatar                                       (main.go)
--   Idp/Startup          newServer, newMux, withCORS, openidConfiguration            (main.go)
--   Idp/Flow             what resolving and authenticating a client leaves alone
--   Idp/Invariant        the invariant of the state, and the states that are reached
--   Idp/Samples, Tests   concrete data and runs
--   Bff/StateClaims      stateClaims            (bff/internal/handler/state_claims.go)
--   Bff/Store            Store and MemoryStore       (bff/internal/session/store.go)
--   Bff/Store/Encrypted  RedisStore and CookieStore (bff/internal/session/store.go, cookie_store.go)
--   Bff/Manager          Manager, over any Store   (bff/internal/session/manager.go)
--   Bff/Middleware       SecurityHeaders, AuthGuard, CSRFMiddleware, TokenForwarder
--                                            (bff/internal/handler/middleware.go)
--   Bff/Callback         Callback                  (bff/internal/handler/auth.go)
--   Bff/Account          Login, Logout, Me, Avatar (bff/internal/handler/auth.go),
--                        ParseIDTokenClaims        (bff/internal/session/session.go)
--   Bff/Config           everything of                (bff/internal/config/config.go)
--   Bff/Proxy            the two proxies             (bff/internal/handler/proxy.go)
--   Bff/Routes           RegisterRoutes, BuildMiddlewareStack (bff/internal/handler/router.go), NewBFF
--                                                     (bff/internal/server/server.go)
--   Bff/Startup          run and what it calls (bff/cmd/bff/main.go), the discovery with its retries and
--                        OAuthClient        (bff/internal/handler/oidc_runtime.go, oidc.go)
--   Bff/Tests            runs
-- The other files below a component hold its proofs, named for what they prove.
--
-- Bounds. Every loop of the program runs over a list and is structural recursion, so no fuel is used, but for
-- the retries of the discovery, which recurse on the number of attempts left, 30 at first. Addresses are
-- numbers below 2 ^ 128, the 16 bytes of a `net.IP`.
-- The lifetimes in clientIDMetadataTTLFrom and of the tokens are machine integers: their products are taken
-- modulo 2 ^ 64 and read as signed.
--
-- Simplifications. A handler is one step with one reading of the clock, so the interleaving of two
-- requests between the critical sections of a handler is not modelled. What uuid.NewString returns comes
-- with the request. A Go slice or map that two records share is written back where it is stored, which is
-- how the claims map of a client session takes its csid at /token. Texts of errors that are only logged
-- are left out, and so are headers other than those that a response carries in Idp/State. Numbers in
-- claims and configured lifetimes are natural numbers: a negative lifetime of the metadata cache, which
-- the source takes like 0, cannot be given. The first letter of a name is one byte. The start is over when
-- all has been set up: that registering the routes panics for API_PATH_PREFIX=/ is not modelled.
-- Saving in the record Store draws one identifier. The Redis store draws three values and the cookie store
-- none, so these two are functions of their own and not instances of Store; and the promise that a deleted
-- session is not loaded is one that the cookie store, whose Delete does nothing, does not keep.
--
-- Not modelled: the pages of the identity provider, the lifetimes that it reads from the environment and its
-- log; of bff/ the request log, the recovery from panics, the matching of requests to
-- patterns, and the reverse proxy of the standard library.
pub mod Prelude
pub mod Idp
pub mod Bff
