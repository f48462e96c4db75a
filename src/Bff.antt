-- ===== src/Bff.antt =====
-- The backend for frontends, bff/: configuration, login states, sessions, the middleware, the handlers around
-- a session, the proxies, the routes and the start.
pub mod StateClaims
pub mod Store
pub mod Manager
pub mod Middleware
pub mod Callback
pub mod Config
pub mod Account
pub mod Proxy
pub mod Routes
pub mod Startup
pub mod Tests
