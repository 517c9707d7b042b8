-- ===== src/App.antt =====
-- The application beside its AI calls: the ingestion of found jobs, the start-up guard, the bearer token of
-- the MCP server, and the retries of database calls.
pub mod Ingest
pub mod Deploy
pub mod McpAuth
pub mod Retry
pub mod Oauth
pub mod Vault
pub mod Search
