-- ===== src/App/Vault/Passes.antt =====
-- Whatever a redaction of app/privacy.py stores a placeholder for is found again by every later rehydration.
use job_squire.Base.{Option, none, some, Text, list_eq, nat_eq, pair_eq}
use job_squire.Base.Values.{Keys}
use job_squire.App.Vault.Store.{Mapping}
use job_squire.App.Vault.Redact.{Engine, Values}
use job_squire.App.Vault.Minted.{Minted, Kinds}

module _ (e : Engine) where
  abbrev AllMinted : Text × Mapping → Type 0
  AllMinted x = Keys (Minted e.digest) x.1

  abbrev pub StrictKinds : Option Values → Type 0
  StrictKinds none = Unit
  StrictKinds (some vs) = Kinds vs
