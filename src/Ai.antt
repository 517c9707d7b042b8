-- ===== src/Ai.antt =====
-- app/ai.py and app/privacy.py: the calls to AI providers.
pub mod Context
pub mod Privacy
pub mod Provider
pub mod Attempt
pub mod Fallback
pub mod Chunks
pub mod Triage
pub mod AutoTriage
