-- ===== src/App/Oauth/Rejected.antt =====
-- A token that app/mcp_server.py has revoked is not served again.
use mathlib.Core.Path.{subst}
use mathlib.Core.Option.{some-injective}
use job_squire.Base.{
  ℕ, true, false, ◌≡◌, ◌≢◌, refl, sym, ap, ◌∙◌, inl, inr, Option, none, some, List, [], ◌∷◌, Text,
  txt, nonempty, strip, length, ltb, ==_refl, list_eq, nat_eq, Bool-cases, Option-cases, All,
}
use job_squire.Base.Dict.{Dict, keys, lookup, erase, lookup-erase}
use job_squire.App.McpAuth.{compare_digest, compare_digest_iff, verify_static_token}
use job_squire.App.Oauth.Tokens.{Token, Tokens, match_in, match_bearer_token}
use job_squire.App.Oauth.Server.{
  McpConfig, Server, Http, Runtime, Response, served, get, max_body, client_of, extract_bearer,
}
use job_squire.App.Oauth.Exchange.{save_tokens, revoke, handle_revoke}
use job_squire.App.Oauth.Dispatch.{
  refresh_tokens_cache, admit, serve_oauth, serve_mcp, asgi_app, Event, handle_all,
}
use job_squire.App.Oauth.Absent.{Absent, lookup-live-none, refresh_tokens_cache-Absent}
use job_squire.App.Oauth.Absent.Events.{NotDrawn, handle_all-Absent}
use job_squire.App.Oauth.Grants.{asgi_app_serves}

match_in_sound :
    (bearer k : Text) (ks : List Text) → match_in bearer ks ≡ some (some k) → k ≡ bearer
unfolding match_in
match_in_sound bearer k [] e = absurd (cc (e))
match_in_sound bearer k (j ∷ ks) e = elim (Option-cases (compare_digest bearer j)) [
  | inl q ↦ absurd (cc (rw (q, match_in) at e))
  | inr q ↦ elim (Bool-cases q.0) [
    | inl g ↦
        let found : compare_digest bearer j ≡ some true = q.1 ∙ ap some g in
        let same : j ≡ k =
          some-injective j k (some-injective (some j) (some k) (rw (found, match_in) at e)) in
        sym same ∙ ((compare_digest_iff bearer j).0 found).0
    | inr g ↦
        let other : compare_digest bearer j ≡ some false = q.1 ∙ ap some g in
        match_in_sound bearer k ks (rw (other, match_in) at e)
  ]
]

match_bearer_token_sound :
    (bearer k : Text) (d : Tokens) → match_bearer_token bearer d ≡ some (some k) → k ≡ bearer
unfolding match_bearer_token
match_bearer_token_sound bearer k d e = elim (Bool-cases (nonempty bearer)) [
  | inl g ↦ match_in_sound bearer k (keys d) (rw (g, match_bearer_token) at e)
  | inr g ↦ absurd (cc (rw (g, match_bearer_token) at e))
]

-- A bearer that is not in memory is served for no OAuth client.
unknown_bearer :
    (now : ℕ) (bearer : Text) (s : Server)
    → lookup bearer s.tokens ≡ none
    → client_of (serve_oauth now bearer s).0 ≡ none
unfolding serve_oauth admit
unknown_bearer now bearer s e = matched (match_bearer_token bearer s.tokens) refl
  where
    matched :
        (o : Option (Option Text))
        → match_bearer_token bearer s.tokens ≡ o
        → client_of (serve_oauth now bearer s).0 ≡ none
    matched none h = rw (h, serve_oauth) refl
    matched (some none) h = rw (h, serve_oauth) refl
    matched (some (some k)) h =
        let gone : lookup k s.tokens ≡ none =
          ap (λ j. lookup j s.tokens) (match_bearer_token_sound bearer k s.tokens h) ∙ e in
        rw (h, gone, serve_oauth, admit) refl

-- A request with the token as its bearer is served for no OAuth client.
serve_mcp_rejects :
    (env : Runtime) (cfg : McpConfig) (now : ℕ) (r : Http) (s : Server)
    → Absent (extract_bearer r.headers) s
    → client_of (serve_mcp env cfg now r s).0 ≡ none
unfolding serve_mcp
serve_mcp_rejects env cfg now r s a =
    elim (Option-cases (
      verify_static_token env.decrypt (extract_bearer r.headers) cfg.mcp_api_key_enc env.deploy_mode
        cfg.mcp_api_key_allow_network cfg.mcp_api_key_expires_at now)) [
          | inl e ↦ rw (e, serve_mcp) refl
          | inr o ↦ elim (Bool-cases o.0) [
            | inl g ↦ rw (o.1 ∙ ap some g, serve_mcp) refl
            | inr g ↦
                rw (o.1 ∙ ap some g, serve_mcp)
                  (unknown_bearer now (extract_bearer r.headers) (refresh_tokens_cache now s)
                    (refresh_tokens_cache-Absent (extract_bearer r.headers) now s a).0)
          ]
        ]

-- After a revocation of a token that is in memory, it is neither in memory nor in the file.
revoke_removes :
    (now : ℕ) (token : Text) (t : Token) (s : Server)
    → nonempty token ≡ true
    → s.writable ≡ true
    → lookup token s.tokens ≡ some t
    → Absent token (revoke now token s).1
unfolding revoke save_tokens
revoke_removes now token t s g w e =
    let gone : lookup token (erase token s.tokens) ≡ none =
      lookup-erase token token s.tokens ∙ rw (==_refl token) refl in
    rw (e, g, w, revoke) (gone, lookup-live-none now token (erase token s.tokens) gone)

-- After a revocation request for a token that is in memory, in which the body is not too long and can be decoded, and
-- with a file that can be written then: whatever requests, revocations by the web process and failing writes follow, so
-- long as none of the requests draws the token again as its random value, the token is in neither store, and no later
-- request with it as the bearer is served for an OAuth client.
pub revoked_is_rejected :
    (env : Runtime) (sha256 : Text → Text) (now : ℕ) (r : Http) (s : Server)
    (params : Dict Text Text) (t : Token) (es : List Event)
    → ltb max_body (length r.body) ≡ false
    → env.parse_qs r.body ≡ some params
    → nonempty (strip (get (txt "token") params)) ≡ true
    → s.writable ≡ true
    → lookup (strip (get (txt "token") params)) s.tokens ≡ some t
    → All (NotDrawn (strip (get (txt "token") params))) es
    → let token = strip (get (txt "token") params) in
      let after = handle_all env sha256 es (handle_revoke env now r s).1 in
      ((lookup token after.tokens ≡ none) × (lookup token after.disk ≡ none))
      × ((config : Option McpConfig) (later : ℕ) (fresh : Text) (q : Http) (client : Text)
          → extract_bearer q.headers ≡ token
          → (asgi_app env config later fresh q after).0 ≢ served (some client))
unfolding handle_revoke
revoked_is_rejected env sha256 now r s params t es g p n w e f =
    let token = strip (get (txt "token") params) in
    let done : handle_revoke env now r s ≡ revoke now token s = rw (p, g, handle_revoke) refl in
    let removed : Absent token (handle_revoke env now r s).1 =
      subst (λ (x : Response × Server). Absent token x.1) (sym done)
        (revoke_removes now token t s n w e) in
    let after = handle_all env sha256 es (handle_revoke env now r s).1 in
    let gone : Absent token after =
      handle_all-Absent token env sha256 es (handle_revoke env now r s).1 f removed in
    (
      gone,
      λ config later fresh q client b served_it.
          asgi_app_serves (λ c. ⊥) env config later fresh q after
            (λ cfg c h. absurd (
              cc (
                serve_mcp_rejects env cfg later q after (subst (λ k. Absent k after) (sym b) gone),
                h,
              )))
            client (ap client_of served_it),
    )
