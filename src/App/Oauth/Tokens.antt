-- ===== src/App/Oauth/Tokens.antt =====
-- The token store: `_tokens` in memory and oauth_tokens.json on disk. The web process revokes on disk only. The
-- encryption of the file does not show, and a file that is there can be read.
use job_squire.Base.{
  ℕ, Bool, true, false, Option, none, some, List, [], ◌∷◌, Text, nonempty, length, ltb, ◌==◌,
  list_eq, nat_eq, if◌then◌else◌,
}
use job_squire.Base.Dict.{Dict, keys, erase}
use job_squire.App.McpAuth.{compare_digest}

pub record Token : Type 0 where
  pub client_id : Text
  pub client_name : Text
  pub issued_at : ℕ
  pub exp : ℕ

abbrev pub Tokens : Type 0
Tokens = Dict Text Token

-- `_TOKEN_TTL` and `_TOKENS_CACHE_TTL`
abbrev pub token_ttl : ℕ
token_ttl = 2592000

abbrev pub tokens_cache_ttl : ℕ
tokens_cache_ttl = 2

-- `{k: v for k, v in d.items() if v["exp"] > now}`: what `_load_tokens` reads and `_save_tokens` writes.
unfoldable pub live : ℕ → Tokens → Tokens
live now [] = []
live now ((k, v) ∷ d) = let rest = live now d in if ltb now v.exp then (k, v) ∷ rest else rest

-- The deletions of the tokens of one client.
unfoldable pub without_client : Text → Tokens → Tokens
without_client client [] = []
without_client client ((k, v) ∷ d) =
    let rest = without_client client d in if v.client_id == client then rest else (k, v) ∷ rest

-- The loop of `_match_bearer_token`. The outer `none` is the `TypeError` of the comparison.
unfoldable pub match_in : Text → List Text → Option (Option Text)
match_in bearer [] = some none
match_in bearer (candidate ∷ rest) = elim (compare_digest bearer candidate) [
  | none ↦ none
  | some true ↦ some (some candidate)
  | some false ↦ match_in bearer rest
]

unfoldable pub match_bearer_token : Text → Tokens → Option (Option Text)
match_bearer_token bearer tokens =
    if nonempty bearer then match_in bearer (keys tokens) else some none

-- `next((k for k in data if sha256(k) == token_id), None)`
unfoldable pub find_by_id : (Text → Text) → Text → Tokens → Option Text
find_by_id sha256 id [] = none
find_by_id sha256 id ((k, v) ∷ d) = if sha256 k == id then some k else find_by_id sha256 id d

unfoldable pub erase_found : Option Text → Tokens → Bool × Tokens
erase_found none disk = (false, disk)
erase_found (some k) disk = if nonempty k then (true, erase k disk) else (false, disk)

-- `_revoke_oauth_token_by_id` of app/settings.py, on the file.
unfoldable pub revoke_oauth_token_by_id : (Text → Text) → Text → Tokens → Bool × Tokens
revoke_oauth_token_by_id sha256 id disk = erase_found (find_by_id sha256 id disk) disk

-- `_revoke_all_oauth_tokens`
unfoldable pub revoke_all_oauth_tokens : Tokens → ℕ × Tokens
revoke_all_oauth_tokens disk = (length disk, [])
