-- ===== src/App/Oauth/Absent/Events.antt =====
-- Whatever happens to app/mcp_server.py, a token that is in neither store stays away unless it is drawn again.
use job_squire.Base.{
  keeps_if, ℕ, Bool, false, not, ◌≡◌, refl, inl, inr, Option, none, some, List, [], ◌∷◌, Text, txt,
  upper, length, ltb, leb, ◌==◌, list_eq, nat_eq, Option-cases, All, nonempty,
}
use job_squire.Base.Dict.{lookup}
use job_squire.App.Oauth.Limits.{login_max_failures, register_max_per_window, rate_ok}
use job_squire.App.Oauth.Tokens.{
  Tokens, find_by_id, erase_found, revoke_oauth_token_by_id, revoke_all_oauth_tokens,
}
use job_squire.App.Oauth.Server.{
  Json, not_json, not_object, object, McpConfig, Server, Http, Runtime, max_body, max_clients,
  client_ip,
}
use job_squire.App.Oauth.Register.{
  all_valid, add_client, check_uris, check_list, parse_registration, handle_register,
}
use job_squire.App.Oauth.Authorize.{
  Params, is_registered, has_s256, is_authed, grant, check_form, handle_authorize_get,
  handle_authorize_post,
}
use job_squire.App.Oauth.Dispatch.{
  Route, to_metadata, to_register, to_authorize_get, to_authorize_post, to_token, to_revoke, to_mcp,
  route, follow, asgi_app, Event, request, revoke_by_id, revoke_all, set_writable, handle,
  handle_all,
}
use job_squire.App.Oauth.Absent.{
  Absent, Leaves, lookup-erase-none, handle_token-Absent, handle_revoke-Absent, serve_mcp-Absent,
}

module _ (k : Text) where
  module _ (env : Runtime) where
    check_form-Absent :
        (now : ℕ) (fresh ip : Text) (params : Params) (s : Server)
        → Absent k s
        → Leaves k (check_form env now fresh ip params s)
    unfolding check_form grant
    check_form-Absent now fresh ip params s a =
        keeps_if (Leaves k) (not (is_registered params s)) _ _ a (
          keeps_if (Leaves k) (not (has_s256 params)) _ _ a
            (keeps_if (Leaves k) (is_authed env params) _ _ a a))

    handle_authorize_post-Absent :
        (now : ℕ) (fresh : Text) (r : Http) (s : Server)
        → Absent k s
        → Leaves k (handle_authorize_post env now fresh r s)
    unfolding handle_authorize_post
    handle_authorize_post-Absent now fresh r s a = elim (Option-cases (env.parse_qs r.body)) [
      | inl e ↦
          rw (e, handle_authorize_post) (keeps_if (Leaves k) (ltb max_body (length r.body)) _ _ a a)
      | inr e ↦
          let s' = record s {
            login_failures = (rate_ok login_max_failures now (client_ip r) s.login_failures).1;
          } in
          rw (e.1, handle_authorize_post)
            (keeps_if (Leaves k) (ltb max_body (length r.body)) _ _ a (
              keeps_if (Leaves k)
                (not (rate_ok login_max_failures now (client_ip r) s.login_failures).0) _ _ a
                (check_form-Absent now fresh (client_ip r) e.0 s' a)))
    ]

    handle_authorize_get-Absent :
        (r : Http) (s : Server) → Absent k s → Leaves k (handle_authorize_get env r s)
    unfolding handle_authorize_get
    handle_authorize_get-Absent r s a = elim (Option-cases (env.parse_qs r.query_string)) [
      | inl e ↦ rw (e, handle_authorize_get) a
      | inr e ↦
          rw (e.1, handle_authorize_get)
            (keeps_if (Leaves k) (not (is_registered e.0 s)) _ _ a
              (keeps_if (Leaves k) (not (has_s256 e.0)) _ _ a a))
    ]

    check_uris-Absent :
        (now : ℕ) (fresh ip : Text) (name : Option Text) (o : Option (Option (List Text)))
        (s : Server)
        → Absent k s
        → Leaves k (check_uris now fresh ip name o s)
    unfolding check_uris add_client
    check_uris-Absent now fresh ip name none s a = a
    check_uris-Absent now fresh ip name (some none) s a = a
    check_uris-Absent now fresh ip none (some (some uris)) s a = a
    check_uris-Absent now fresh ip (some name) (some (some uris)) s a = a

    check_list-Absent :
        (now : ℕ) (fresh ip : Text) (name : Option Text) (o : Option (List (Option Text)))
        (s : Server)
        → Absent k s
        → Leaves k (check_list env now fresh ip name o s)
    unfolding check_list
    check_list-Absent now fresh ip name none s a = a
    check_list-Absent now fresh ip name (some []) s a = a
    check_list-Absent now fresh ip name (some (u ∷ us)) s a =
        check_uris-Absent now fresh ip name (all_valid env.urlsplit (u ∷ us)) s a

    parse_registration-Absent :
        (now : ℕ) (fresh ip : Text) (json : Json) (s : Server)
        → Absent k s
        → Leaves k (parse_registration env now fresh ip json s)
    unfolding parse_registration
    parse_registration-Absent now fresh ip not_json s a = a
    parse_registration-Absent now fresh ip not_object s a = a
    parse_registration-Absent now fresh ip (object d) s a =
        check_list-Absent now fresh ip d.client_name d.redirect_uris s a

    handle_register-Absent :
        (now : ℕ) (fresh : Text) (r : Http) (s : Server)
        → Absent k s
        → Leaves k (handle_register env now fresh r s)
    unfolding handle_register
    handle_register-Absent now fresh r s a =
        let rate = rate_ok register_max_per_window now (client_ip r) s.register_attempts in
        let s' = record s { register_attempts = rate.1 } in
        keeps_if (Leaves k) (not rate.0) _ _ a (
          keeps_if (Leaves k) (leb max_clients (length s.clients)) _ _ a (
            keeps_if (Leaves k) (ltb max_body (length r.body)) _ _ a
              (parse_registration-Absent now fresh (client_ip r) (env.json_loads r.body) s' a)))

    follow-Absent :
        (cfg : McpConfig) (now : ℕ) (fresh : Text) (r : Http) (x : Route) (s : Server)
        → (k == fresh) ≡ false
        → Absent k s
        → Leaves k (follow env cfg now fresh r x s)
    unfolding follow
    follow-Absent cfg now fresh r to_metadata s f a = a
    follow-Absent cfg now fresh r to_register s f a = handle_register-Absent now fresh r s a
    follow-Absent cfg now fresh r to_authorize_get s f a = handle_authorize_get-Absent r s a
    follow-Absent cfg now fresh r to_authorize_post s f a =
        handle_authorize_post-Absent now fresh r s a
    follow-Absent cfg now fresh r to_token s f a = handle_token-Absent k env now fresh r s f a
    follow-Absent cfg now fresh r to_revoke s f a = handle_revoke-Absent k env now r s a
    follow-Absent cfg now fresh r to_mcp s f a = serve_mcp-Absent k env cfg now r s a

    asgi_app-Absent :
        (config : Option McpConfig) (now : ℕ) (fresh : Text) (r : Http) (s : Server)
        → (k == fresh) ≡ false
        → Absent k s
        → Leaves k (asgi_app env config now fresh r s)
    unfolding asgi_app
    asgi_app-Absent none now fresh r s f a = keeps_if (Leaves k) (r.path == txt "/health") _ _ a a
    asgi_app-Absent (some cfg) now fresh r s f a =
        keeps_if (Leaves k) (r.path == txt "/health") _ _ a (
          keeps_if (Leaves k) (not cfg.mcp_enabled) _ _ a
            (follow-Absent cfg now fresh r (route r.path (upper r.method)) s f a))

  -- The event does not draw the token as a new one.
  abbrev pub NotDrawn : Event → Type 0
  NotDrawn (request config now fresh r) = (k == fresh) ≡ false
  NotDrawn (revoke_by_id id) = Unit
  NotDrawn revoke_all = Unit
  NotDrawn (set_writable b) = Unit

  erase_found-none :
      (o : Option Text) (d : Tokens) → lookup k d ≡ none → lookup k (erase_found o d).1 ≡ none
  unfolding erase_found
  erase_found-none none d e = e
  erase_found-none (some j) d e =
      keeps_if (λ (x : Bool × Tokens). lookup k x.1 ≡ none) (nonempty j) _ _
        (lookup-erase-none k j d e) e

  handle-Absent :
      (env : Runtime) (sha256 : Text → Text) (e : Event) (s : Server)
      → NotDrawn e
      → Absent k s
      → Absent k (handle env sha256 e s)
  unfolding handle revoke_oauth_token_by_id revoke_all_oauth_tokens lookup
  handle-Absent env sha256 (request config now fresh r) s f a =
      asgi_app-Absent env config now fresh r s f a
  handle-Absent env sha256 (revoke_by_id id) s f a =
      keeps_if (Absent k) s.writable _ _
        (a.0, erase_found-none (find_by_id sha256 id s.disk) s.disk a.1) a
  handle-Absent env sha256 revoke_all s f a = keeps_if (Absent k) s.writable _ _ (a.0, refl) a
  handle-Absent env sha256 (set_writable b) s f a = a

  pub handle_all-Absent :
      (env : Runtime) (sha256 : Text → Text) (es : List Event) (s : Server)
      → All NotDrawn es
      → Absent k s
      → Absent k (handle_all env sha256 es s)
  unfolding handle_all
  handle_all-Absent env sha256 [] s f a = a
  handle_all-Absent env sha256 (e ∷ es) s f a =
      handle_all-Absent env sha256 es (handle env sha256 e s) f.1
        (handle-Absent env sha256 e s f.0 a)
