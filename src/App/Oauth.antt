-- ===== src/App/Oauth.antt =====
-- The OAuth server in front of the MCP tools: app/mcp_server.py, with the revocations that app/settings.py makes on
-- the same file. `Limits` has the rate limits, `Tokens` the token store, `Server` the state and the request,
-- `Register`, `Authorize` and `Exchange` the handlers, and `Dispatch` the application.
pub mod Limits
pub mod Tokens
pub mod Server
pub mod Register
pub mod Authorize
pub mod Exchange
pub mod Dispatch
pub mod Holds
pub mod Grants
pub mod Codes
pub mod Absent
pub mod Rejected
pub mod Revoked
pub mod Logins
