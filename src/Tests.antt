-- ===== src/Tests.antt =====
-- Runs of the definitions on concrete data, and the theorems at inputs that meet their hypotheses.
mod Fallback
mod Chunks
mod Triage
mod Cli
mod App
mod Oauth
mod Vault
mod Search
mod Dotenv
