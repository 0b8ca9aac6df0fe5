-- ===== src/Auth.antt =====
-- internal/platform/auth: login flows, web sessions and the principals behind them.
pub mod Flows
pub mod Principals
pub mod Sessions
pub mod Bearer
pub mod Return
pub mod Oidc
pub mod Login
pub mod Middleware
