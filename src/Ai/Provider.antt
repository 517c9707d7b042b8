-- ===== src/Ai/Provider.antt =====
-- `AIProviderConfig`, `AITaskConfig` and `AIConfig` of app/models.py, the columns that the calls
-- read, with `_PROVIDER_URLS` and `AI_TRIAGE_TASKS`.
use job_squire.Base.{ℕ, Bool, Option, List, [], ◌∷◌, Text, txt, contains, list_eq, nat_eq}
use job_squire.Base.Dict.{Dict}

pub record Provider : Type 0 where
  pub id : ℕ
  pub rank : ℕ
  pub provider : Text
  pub api_key_enc : Text
  pub base_url : Text
  pub model : Text
  pub triage_model : Text
  pub num_ctx : Option ℕ
  pub use_for_triage : Bool
  pub use_for_analysis : Bool
  pub enabled : Bool

-- A relationship is `some` row when its foreign key is set and the row is there.
pub record TaskConfig : Type 0 where
  pub provider : Option Provider
  pub backup_provider : Option Provider
  pub use_ranked_chain_fallback : Option Bool

-- The singleton row. Each flag is the truth value of its column.
pub record AiConfig : Type 0 where
  pub api_key_enc : Text
  pub model : Text
  pub fallback_to_anthropic : Bool
  pub redaction_enabled : Bool
  pub redact_local : Bool

abbrev pub provider_urls : Dict Text Text
provider_urls =
    (txt "openrouter", txt "https://openrouter.ai/api/v1")
    ∷ (txt "gemini", txt "https://generativelanguage.googleapis.com/v1beta/openai")
    ∷ (txt "cerebras", txt "https://api.cerebras.ai/v1")
    ∷ (txt "github_models", txt "https://models.github.ai/inference")
    ∷ (txt "nous_portal", txt "https://inference-api.nousresearch.com/v1")
    ∷ (txt "ollama", txt "http://localhost:11434/v1")
    ∷ (txt "litellm", txt "http://localhost:4000/v1")
    ∷ (txt "mistral", txt "https://api.mistral.ai/v1")
    ∷ (txt "groq", txt "https://api.groq.com/openai/v1")
    ∷ (txt "openai", txt "https://api.openai.com/v1")
    ∷ []

abbrev pub ai_triage_tasks : List Text
ai_triage_tasks = txt "triage" ∷ txt "followup" ∷ []

unfoldable pub is_triage_task : Bool → Option Text → Bool
unfolding list_eq
is_triage_task use_triage_model Option.none = use_triage_model
is_triage_task Bool.true (Option.some task) = Bool.true
is_triage_task Bool.false (Option.some task) = contains ai_triage_tasks task
