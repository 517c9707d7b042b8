-- ===== src/App/Oauth/Dispatch.antt =====
-- `asgi_app` of app/mcp_server.py on HTTP requests, and the revocations of the web process in app/settings.py.
use job_squire.Base.{
  ℕ, ◌+◌, Bool, true, false, not, ◌&&◌, ◌||◌, Option, none, some, List, [], ◌∷◌, Text, txt, upper,
  starts_with, ltb, contains, ◌==◌, list_eq, nat_eq, if◌then◌else◌,
}
use job_squire.Base.Dict.{lookup}
use job_squire.App.McpAuth.{verify_static_token}
use job_squire.App.Oauth.Tokens.{
  Token, tokens_cache_ttl, live, match_bearer_token, revoke_oauth_token_by_id,
  revoke_all_oauth_tokens,
}
use job_squire.App.Oauth.Server.{
  Server, McpConfig, Http, Runtime, Response, healthy, not_found, metadata, served, unauthorized,
  crashed, extract_bearer,
}
use job_squire.App.Oauth.Register.{handle_register}
use job_squire.App.Oauth.Authorize.{handle_authorize_get, handle_authorize_post}
use job_squire.App.Oauth.Exchange.{handle_token, handle_revoke}

abbrev pub last_used_write_throttle : ℕ
last_used_write_throttle = 300

-- `_refresh_tokens_cache`
unfoldable pub refresh_tokens_cache : ℕ → Server → Server
refresh_tokens_cache now s =
    if ltb now (s.cache_time + tokens_cache_ttl)
    then s
    else record s { tokens = live now s.disk; cache_time = now }

-- `_should_write_last_used` and the write.
unfoldable pub write_last_used : ℕ → Server → Server
write_last_used now s =
    if ltb now (s.last_used_write_time + last_used_write_throttle)
    then s
    else record s { last_used_write_time = now; key_last_used_at = some now }

-- The test of the token that matched.
unfoldable pub admit : ℕ → Option Token → Server → Response × Server
admit now none s = (crashed, s)
admit now (some t) s = if ltb now t.exp then (served (some t.client_id), s) else (unauthorized, s)

unfoldable pub serve_oauth : ℕ → Text → Server → Response × Server
serve_oauth now bearer s = elim (match_bearer_token bearer s.tokens) [
  | none ↦ (crashed, s)
  | some none ↦ (unauthorized, s)
  | some (some matched) ↦ admit now (lookup matched s.tokens) s
]

-- The MCP end point: the static key, then the tokens.
unfoldable pub serve_mcp : Runtime → McpConfig → ℕ → Http → Server → Response × Server
serve_mcp env cfg now r s =
    elim (verify_static_token env.decrypt (extract_bearer r.headers) cfg.mcp_api_key_enc
      env.deploy_mode cfg.mcp_api_key_allow_network cfg.mcp_api_key_expires_at now) [
        | none ↦ (crashed, s)
        | some true ↦ (served none, write_last_used now s)
        | some false ↦ serve_oauth now (extract_bearer r.headers) (refresh_tokens_cache now s)
      ]

pub data Route : Type 0 where
  to_metadata : Route
  to_register : Route
  to_authorize_get : Route
  to_authorize_post : Route
  to_token : Route
  to_revoke : Route
  to_mcp : Route

abbrev pub two : Text → Text → List Text
two a b = a ∷ b ∷ []

-- The tests of `asgi_app` behind the switch, in their order.
unfoldable pub route : Text → Text → Route
route path method =
    if path == txt "/.well-known/oauth-protected-resource"
      || starts_with path (txt "/.well-known/oauth-protected-resource/")
    then to_metadata
    else if path == txt "/.well-known/oauth-authorization-server"
    then to_metadata
    else if contains (two (txt "/oauth/register") (txt "/register")) path && method == txt "POST"
    then to_register
    else if contains (two (txt "/oauth/authorize") (txt "/authorize")) path
    then (if method == txt "GET" then to_authorize_get else to_authorize_post)
    else if contains (two (txt "/oauth/token") (txt "/token")) path && method == txt "POST"
    then to_token
    else if contains (two (txt "/oauth/revoke") (txt "/revoke")) path && method == txt "POST"
    then to_revoke
    else to_mcp

unfoldable pub follow : Runtime → McpConfig → ℕ → Text → Http → Route → Server → Response × Server
follow env cfg now fresh r to_metadata s = (metadata, s)
follow env cfg now fresh r to_register s = handle_register env now fresh r s
follow env cfg now fresh r to_authorize_get s = handle_authorize_get env r s
follow env cfg now fresh r to_authorize_post s = handle_authorize_post env now fresh r s
follow env cfg now fresh r to_token s = handle_token env now fresh r s
follow env cfg now fresh r to_revoke s = handle_revoke env now r s
follow env cfg now fresh r to_mcp s = serve_mcp env cfg now r s

-- `asgi_app`; `config` is the row of the settings, if there is one.
unfoldable pub asgi_app : Runtime → Option McpConfig → ℕ → Text → Http → Server → Response × Server
asgi_app env config now fresh r s = if r.path == txt "/health" then (healthy, s) else elim config [
  | none ↦ (not_found, s)
  | some cfg ↦
      if not cfg.mcp_enabled
      then (not_found, s)
      else follow env cfg now fresh r (route r.path (upper r.method)) s
]

-- What happens to the server: a request at a time, with the random value it may draw, a revocation by the web
-- process, which edits the file only, or a change of whether the file can be written. A revocation that cannot write
-- raises in the web process.
pub data Event : Type 0 where
  request : Option McpConfig → ℕ → Text → Http → Event
  revoke_by_id : Text → Event
  revoke_all : Event
  set_writable : Bool → Event

unfoldable pub handle : Runtime → (Text → Text) → Event → Server → Server
handle env sha256 (request config now fresh r) s = (asgi_app env config now fresh r s).1
handle env sha256 (revoke_by_id id) s =
    if s.writable then record s { disk = (revoke_oauth_token_by_id sha256 id s.disk).1 } else s
handle env sha256 revoke_all s =
    if s.writable then record s { disk = (revoke_all_oauth_tokens s.disk).1 } else s
handle env sha256 (set_writable b) s = record s { writable = b }

-- The events one after the other, the first first.
unfoldable pub handle_all : Runtime → (Text → Text) → List Event → Server → Server
handle_all env sha256 [] s = s
handle_all env sha256 (e ∷ es) s = handle_all env sha256 es (handle env sha256 e s)
