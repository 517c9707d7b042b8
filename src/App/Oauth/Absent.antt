-- ===== src/App/Oauth/Absent.antt =====
-- A token that is in neither store of app/mcp_server.py: the handlers bring it back only if they draw it again.
pub mod Events
use job_squire.Base.{
  keeps_if, keeps_if_known, ℕ, Bool, true, false, not, ◌||◌, ◌≡◌, refl, sym, ap, ◌∙◌, ◌+◌, inl, inr,
  Option, none, some, List, [], ◌∷◌, Text, txt, nonempty, strip, upper, length, ltb, leb, ◌==◌,
  ==_iff, list_eq, nat_eq, Bool-cases, Option-cases,
}
use job_squire.Base.Dict.{Dict, lookup, insert, erase, lookup-erase, lookup-insert}
use job_squire.App.Oauth.Limits.{login_max_failures, register_max_per_window, rate_ok}
use job_squire.App.Oauth.Tokens.{
  Token, Tokens, tokens_cache_ttl, live, without_client, find_by_id, erase_found,
  revoke_oauth_token_by_id, revoke_all_oauth_tokens,
}
use job_squire.App.Oauth.Server.{
  Code, Json, not_json, not_object, object, McpConfig, Server, Http, Runtime, Response, get,
  max_body, max_clients, client_ip, merge, extract_bearer,
}
use job_squire.App.McpAuth.{verify_static_token}
use job_squire.App.Oauth.Register.{
  all_valid, add_client, check_uris, check_list, parse_registration, handle_register,
}
use job_squire.App.Oauth.Authorize.{
  Params, is_registered, has_s256, is_authed, grant, check_form, handle_authorize_get,
  handle_authorize_post,
}
use job_squire.App.Oauth.Exchange.{
  issue, token_of, save_tokens, redeem, exchange_code, handle_token, revoke, handle_revoke,
}
use job_squire.App.Oauth.Dispatch.{
  refresh_tokens_cache, last_used_write_throttle, write_last_used, admit, serve_oauth, serve_mcp,
  Route, to_metadata, to_register, to_authorize_get, to_authorize_post, to_token, to_revoke, to_mcp,
  route, follow, asgi_app, Event, request, revoke_by_id, revoke_all, set_writable, handle,
  handle_all,
}
use job_squire.App.McpAuth.{compare_digest}
use job_squire.App.Oauth.Tokens.{match_bearer_token}

-- A token that is not found is not found among the live ones.
pub lookup-live-none :
    (now : ℕ) (k : Text) (d : Tokens) → lookup k d ≡ none → lookup k (live now d) ≡ none
unfolding live lookup
lookup-live-none now k [] e = e
lookup-live-none now k ((j, v) ∷ d) e = elim (Bool-cases (k == j)) [
  | inl g ↦ absurd (cc (rw g at e))
  | inr g ↦ elim (Bool-cases (ltb now v.exp)) [
    | inl h ↦ rw (h, g) (lookup-live-none now k d (rw g at e))
    | inr h ↦ rw h (lookup-live-none now k d (rw g at e))
  ]
]

lookup-without_client-none :
    (client k : Text) (d : Tokens) → lookup k d ≡ none → lookup k (without_client client d) ≡ none
unfolding without_client lookup
lookup-without_client-none client k [] e = e
lookup-without_client-none client k ((j, v) ∷ d) e = elim (Bool-cases (k == j)) [
  | inl g ↦ absurd (cc (rw g at e))
  | inr g ↦ elim (Bool-cases (v.client_id == client)) [
    | inl h ↦ rw h (lookup-without_client-none client k d (rw g at e))
    | inr h ↦ rw (h, g) (lookup-without_client-none client k d (rw g at e))
  ]
]

module _ (k : Text) where
  -- The token is in neither store.
  abbrev pub Absent : Server → Type 0
  Absent s = (lookup k s.tokens ≡ none) × (lookup k s.disk ≡ none)

  lookup-erase-none : (j : Text) (d : Tokens) → lookup k d ≡ none → lookup k (erase j d) ≡ none
  lookup-erase-none j d e =
      lookup-erase k j d ∙ keeps_if (λ (o : Option Token). o ≡ none) (k == j) _ _ refl e

  save_tokens-Absent : (now : ℕ) (s : Server) → Absent s → Absent (save_tokens now s)
  unfolding save_tokens
  save_tokens-Absent now s a =
      keeps_if Absent s.writable _ _ (a.0, lookup-live-none now k s.tokens a.0) a

  abbrev Leaves : Response × Server → Type 0
  Leaves x = Absent x.1

  issue-Absent :
      (now : ℕ) (fresh client : Text) (s : Server)
      → (k == fresh) ≡ false
      → Absent s
      → Leaves (issue now fresh client s)
  unfolding issue
  issue-Absent now fresh client s f a =
      let d = without_client client s.tokens in
      save_tokens-Absent now (record s { tokens = insert fresh (token_of now client s) d })
        (
          lookup-insert k fresh (token_of now client s) d
              ∙ rw f (lookup-without_client-none client k s.tokens a.0),
          a.1,
        )

  pub revoke-Absent : (now : ℕ) (token : Text) (s : Server) → Absent s → Leaves (revoke now token s)
  unfolding revoke
  revoke-Absent now token s a = elim (Option-cases (lookup token s.tokens)) [
    | inl e ↦ rw (e, revoke) a
    | inr e ↦
        rw (e.1, revoke)
          (keeps_if Leaves (nonempty token) _ _
            (save_tokens-Absent now (record s { tokens = erase token s.tokens })
              (lookup-erase-none token s.tokens a.0, a.1))
            a)
  ]

  pub refresh_tokens_cache-Absent :
      (now : ℕ) (s : Server) → Absent s → Absent (refresh_tokens_cache now s)
  unfolding refresh_tokens_cache
  refresh_tokens_cache-Absent now s a =
      keeps_if Absent (ltb now (s.cache_time + tokens_cache_ttl)) _ _ a
        (lookup-live-none now k s.disk a.1, a.1)

  write_last_used-Absent : (now : ℕ) (s : Server) → Absent s → Absent (write_last_used now s)
  unfolding write_last_used
  write_last_used-Absent now s a =
      keeps_if Absent (ltb now (s.last_used_write_time + last_used_write_throttle)) _ _ a a

  serve_oauth-Absent :
      (now : ℕ) (bearer : Text) (s : Server) → Absent s → Leaves (serve_oauth now bearer s)
  unfolding serve_oauth admit
  serve_oauth-Absent now bearer s a = matched (match_bearer_token bearer s.tokens) refl
    where
      admitted : (o : Option Token) → Leaves (admit now o s)
      admitted none = a
      admitted (some t) = keeps_if Leaves (ltb now t.exp) _ _ a a

      matched :
          (o : Option (Option Text))
          → match_bearer_token bearer s.tokens ≡ o
          → Leaves (serve_oauth now bearer s)
      matched none h = rw (h, serve_oauth) a
      matched (some none) h = rw (h, serve_oauth) a
      matched (some (some j)) h = rw (h, serve_oauth) (admitted (lookup j s.tokens))

  module _ (env : Runtime) where
    redeem-Absent :
        (now : ℕ) (fresh verifier : Text) (o : Option Code) (s : Server)
        → (k == fresh) ≡ false
        → Absent s
        → Leaves (redeem env now fresh verifier o s)
    unfolding redeem
    redeem-Absent now fresh verifier none s f a = a
    redeem-Absent now fresh verifier (some c) s f a = keeps_if Leaves (ltb c.exp now) _ _ a (
        keeps_if Leaves
          (not (nonempty c.code_challenge) || not (env.digest verifier == c.code_challenge)) _ _ a
          (issue-Absent now fresh c.client_id s f a))

    handle_token-Absent :
        (now : ℕ) (fresh : Text) (r : Http) (s : Server)
        → (k == fresh) ≡ false
        → Absent s
        → Leaves (handle_token env now fresh r s)
    unfolding handle_token exchange_code
    handle_token-Absent now fresh r s f a = elim (Option-cases (env.parse_qs r.query_string)) [
      | inl e ↦ rw (e, handle_token) a
      | inr q ↦ elim (Option-cases (env.parse_qs r.body)) [
        | inl e ↦ rw (q.1, e, handle_token) (keeps_if Leaves (ltb max_body (length r.body)) _ _ a a)
        | inr e ↦
            let params = merge q.0 e.0 in
            let code = get (txt "code") params in
            rw (q.1, e.1, handle_token)
              (keeps_if Leaves (ltb max_body (length r.body)) _ _ a (
                redeem-Absent now fresh (get (txt "code_verifier") params) (lookup code s.codes)
                  (record s { codes = erase code s.codes }) f a))
      ]
    ]

    handle_revoke-Absent :
        (now : ℕ) (r : Http) (s : Server) → Absent s → Leaves (handle_revoke env now r s)
    unfolding handle_revoke
    handle_revoke-Absent now r s a = elim (Option-cases (env.parse_qs r.body)) [
      | inl e ↦ rw (e, handle_revoke) (keeps_if Leaves (ltb max_body (length r.body)) _ _ a a)
      | inr e ↦
          rw (e.1, handle_revoke)
            (keeps_if Leaves (ltb max_body (length r.body)) _ _ a
              (revoke-Absent now (strip (get (txt "token") e.0)) s a))
    ]

    serve_mcp-Absent :
        (cfg : McpConfig) (now : ℕ) (r : Http) (s : Server)
        → Absent s
        → Leaves (serve_mcp env cfg now r s)
    unfolding serve_mcp
    serve_mcp-Absent cfg now r s a =
        elim (Option-cases (
          verify_static_token env.decrypt (extract_bearer r.headers) cfg.mcp_api_key_enc
            env.deploy_mode cfg.mcp_api_key_allow_network cfg.mcp_api_key_expires_at now)) [
              | inl e ↦ rw (e, serve_mcp) a
              | inr q ↦ elim (Bool-cases q.0) [
                | inl g ↦ rw (q.1 ∙ ap some g, serve_mcp) (write_last_used-Absent now s a)
                | inr g ↦
                    rw (q.1 ∙ ap some g, serve_mcp)
                      (serve_oauth-Absent now (extract_bearer r.headers)
                        (refresh_tokens_cache now s) (refresh_tokens_cache-Absent now s a))
              ]
            ]
