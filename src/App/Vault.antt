-- ===== src/App/Vault.antt =====
-- The redaction of texts in app/privacy.py: `Placeholder` has the placeholders, `Redact` the passes that put them into
-- a text, and `Store` the vault and the way back.
pub mod Placeholder
pub mod Store
pub mod Found
pub mod RoundTrip
pub mod Lost
pub mod Words
pub mod Redact
pub mod Resolves
pub mod Minted
pub mod Passes
