-- ===== src/Ai/Privacy.antt =====
-- The decision of app/privacy.py whether a provider gets redacted text.
use job_squire.Base.{
  ℕ, Bool, true, false, not, ◌&&◌, ◌||◌, Option, none, some, List, [], ◌∷◌, Text, txt, strip, lower,
  starts_with, before, after_last, before_last, strip_chars, nonempty, drop, leb, contains, ◌==◌,
  list_eq, nat_eq, if◌then◌else◌,
}
use job_squire.Ai.Provider.{Provider, AiConfig}

abbrev pub local_hosts : List Text
local_hosts =
    txt "localhost" ∷ txt "127.0.0.1" ∷ txt "0.0.0.0" ∷ txt "host.docker.internal" ∷ txt "::1" ∷ []

-- `[a-z+]` with IGNORECASE
unfoldable pub is_scheme_char : ℕ → Bool
unfolding nat_eq
is_scheme_char c = (leb 97 c && leb c 122) || (leb 65 c && leb c 90) || c == 43

unfoldable pub after_scheme_chars : Text → Text
unfolding is_scheme_char
after_scheme_chars [] = []
after_scheme_chars (c ∷ s) = if is_scheme_char c then after_scheme_chars s else c ∷ s

-- `re.sub(r"^[a-z+]+://", "", url, flags=re.IGNORECASE)`
unfoldable pub drop_scheme : Text → Text
unfolding is_scheme_char after_scheme_chars starts_with
drop_scheme [] = []
drop_scheme (c ∷ s) =
    let rest = after_scheme_chars s in
    if is_scheme_char c && starts_with rest (txt "://") then drop 3 rest else c ∷ s

unfoldable pub url_host : Text → Text
unfolding drop_scheme before after_last before_last strip_chars
url_host url =
    strip_chars (b'[' ∷ b']' ∷ [])
      (before_last b':' (after_last b'@' (before b'/' (drop_scheme url))))

unfoldable pub is_local_provider : Provider → Bool
unfolding url_host list_eq strip lower
is_local_provider p =
    let base_url = strip p.base_url in
    if (p.provider == txt "ollama" || p.provider == txt "litellm") && not (nonempty base_url)
    then true
    else if nonempty base_url
    then contains local_hosts (lower (url_host base_url))
    else false

-- A missing row counts as redaction on.
unfoldable pub redaction_enabled : Option AiConfig → Bool
redaction_enabled none = true
redaction_enabled (some cfg) = cfg.redaction_enabled

unfoldable pub redact_local : Option AiConfig → Bool
redact_local none = false
redact_local (some cfg) = cfg.redact_local

unfoldable pub should_redact_for : Option AiConfig → Provider → Bool
unfolding redaction_enabled redact_local
should_redact_for cfg p =
    if not (redaction_enabled cfg)
    then false
    else if is_local_provider p && not (redact_local cfg)
    then false
    else true
