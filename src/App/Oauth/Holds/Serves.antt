-- ===== src/App/Oauth/Holds/Serves.antt =====
-- The MCP end point and the handlers together keep what holds of the clients, and a client that is served satisfies
-- it.
use mathlib.Core.Path.{subst}
use mathlib.Core.Option.{some-injective}
use job_squire.Base.{
  keeps_if, ℕ, ◌+◌, Bool, true, false, ◌≡◌, refl, Option, none, some, Text, txt, ltb, list_eq,
  nat_eq,
}
use job_squire.Base.Dict.{lookup}
use job_squire.Base.Values.{Values-lookup}
use job_squire.App.McpAuth.{verify_static_token}
use job_squire.App.Oauth.Tokens.{Token, tokens_cache_ttl, match_bearer_token}
use job_squire.App.Oauth.Server.{
  Server, McpConfig, Http, Runtime, Response, get, extract_bearer, client_of,
}
use job_squire.App.Oauth.Authorize.{Params, is_authed}
use job_squire.App.Oauth.Dispatch.{
  Route, to_metadata, to_register, to_authorize_get, to_authorize_post, to_token, to_revoke, to_mcp,
  follow, refresh_tokens_cache, write_last_used, last_used_write_throttle, admit, serve_oauth,
  serve_mcp,
}
use job_squire.App.Oauth.Holds.{Holds, Values-live}
use job_squire.App.Oauth.Holds.Exchange.{handle_token-Keeps, handle_revoke-Keeps}
use job_squire.App.Oauth.Holds.Forms.{
  handle_register-Keeps, handle_authorize_get-Keeps, handle_authorize_post-Keeps,
}

module _ (P : Text → Type 0) where
  pub refresh_tokens_cache-Holds :
      (now : ℕ) (s : Server) → Holds P s → Holds P (refresh_tokens_cache now s)
  unfolding refresh_tokens_cache
  refresh_tokens_cache-Holds now s h =
      keeps_if (Holds P) (ltb now (s.cache_time + tokens_cache_ttl)) _ _ h
        (record { codes = h.codes; tokens = Values-live P now s.disk h.disk; disk = h.disk })

  pub write_last_used-Holds : (now : ℕ) (s : Server) → Holds P s → Holds P (write_last_used now s)
  unfolding write_last_used
  write_last_used-Holds now s h =
      keeps_if (Holds P) (ltb now (s.last_used_write_time + last_used_write_throttle)) _ _ h
        (record { codes = h.codes; tokens = h.tokens; disk = h.disk })

  -- `P` still holds, and holds of the client that is served, if one is.
  abbrev pub Serves : Response × Server → Type 0
  Serves x = Holds P x.1 × ((c : Text) → client_of x.0 ≡ some c → P c)

  nobody : (c : Text) → none ≡ some c → P c
  nobody c e = absurd (cc (e))

  admit-Serves :
      (now : ℕ) (o : Option Token) (s : Server)
      → ((t : Token) → o ≡ some t → P t.client_id)
      → Holds P s
      → Serves (admit now o s)
  unfolding admit
  admit-Serves now none s p h = (h, nobody)
  admit-Serves now (some t) s p h =
      keeps_if (Serves) (ltb now t.exp) _ _
        (
          h,
          λ c e.
              let same : t.client_id ≡ c = some-injective t.client_id c e in
              subst P same (p t refl),
        )
        (h, nobody)

  serve_oauth-Serves :
      (now : ℕ) (bearer : Text) (s : Server) → Holds P s → Serves (serve_oauth now bearer s)
  unfolding serve_oauth
  serve_oauth-Serves now bearer s h = matched (match_bearer_token bearer s.tokens) refl
    where
      matched :
          (o : Option (Option Text))
          → match_bearer_token bearer s.tokens ≡ o
          → Serves (serve_oauth now bearer s)
      matched none e = rw (e, serve_oauth) (h, nobody)
      matched (some none) e = rw (e, serve_oauth) (h, nobody)
      matched (some (some k)) e =
          rw (e, serve_oauth)
            (admit-Serves now (lookup k s.tokens) s
              (λ t q. Values-lookup (λ (t : Token). P t.client_id) k t s.tokens q h.tokens) h)

  pub serve_mcp-Serves :
      (env : Runtime) (cfg : McpConfig) (now : ℕ) (r : Http) (s : Server)
      → Holds P s
      → Serves (serve_mcp env cfg now r s)
  unfolding serve_mcp
  serve_mcp-Serves env cfg now r s h =
      by_key
        (verify_static_token env.decrypt (extract_bearer r.headers) cfg.mcp_api_key_enc
          env.deploy_mode cfg.mcp_api_key_allow_network cfg.mcp_api_key_expires_at now)
        refl
    where
      by_key :
          (o : Option Bool)
          → verify_static_token env.decrypt
              (extract_bearer r.headers)
              cfg.mcp_api_key_enc
              env.deploy_mode
              cfg.mcp_api_key_allow_network
              cfg.mcp_api_key_expires_at
              now
            ≡ o
          → Serves (serve_mcp env cfg now r s)
      by_key none e = rw (e, serve_mcp) (h, nobody)
      by_key (some true) e = rw (e, serve_mcp) (write_last_used-Holds now s h, nobody)
      by_key (some false) e =
          rw (e, serve_mcp)
            (serve_oauth-Serves now (extract_bearer r.headers) (refresh_tokens_cache now s)
              (refresh_tokens_cache-Holds now s h))

  pub follow-Holds :
      (env : Runtime) (cfg : McpConfig) (now : ℕ) (fresh : Text) (r : Http) (x : Route) (s : Server)
      → ((params : Params)
          → x ≡ to_authorize_post
          → env.parse_qs r.body ≡ some params
          → is_authed env params ≡ true
          → P (get (txt "client_id") params))
      → Holds P s
      → Holds P (follow env cfg now fresh r x s).1
  unfolding follow
  follow-Holds env cfg now fresh r to_metadata s p h = h
  follow-Holds env cfg now fresh r to_register s p h =
      (handle_register-Keeps P env now fresh r s h).0
  follow-Holds env cfg now fresh r to_authorize_get s p h =
      (handle_authorize_get-Keeps P env r s h).0
  follow-Holds env cfg now fresh r to_authorize_post s p h =
      (handle_authorize_post-Keeps P env now fresh r s (λ params. p params refl) h).0
  follow-Holds env cfg now fresh r to_token s p h = (handle_token-Keeps P env now fresh r s h).0
  follow-Holds env cfg now fresh r to_revoke s p h = (handle_revoke-Keeps P env now r s h).0
  follow-Holds env cfg now fresh r to_mcp s p h = (serve_mcp-Serves env cfg now r s h).0
