-- ===== src/App/Oauth/Grants.antt =====
-- Every OAuth client that app/mcp_server.py serves has been authorized by a login.
use job_squire.Base.{
  keeps_if, ℕ, Bool, true, not, ◌≡◌, refl, ap, ◌⊎◌, inl, inr, Option, none, some, List, [], ◌∷◌,
  Text, txt, nonempty, upper, ◌==◌, list_eq, nat_eq, Empty,
}
use job_squire.Base.Dict.{Dict}
use job_squire.Base.Values.{Values, Values-mono, Values-erase}
use job_squire.App.Oauth.Tokens.{
  Token, Tokens, find_by_id, erase_found, revoke_oauth_token_by_id, revoke_all_oauth_tokens,
}
use job_squire.App.Oauth.Server.{
  Code, Server, McpConfig, Http, Runtime, Response, served, get, client_of,
}
use job_squire.App.Oauth.Authorize.{Params, is_authed}
use job_squire.App.Oauth.Dispatch.{
  Route, to_metadata, to_register, to_authorize_get, to_authorize_post, to_token, to_revoke, to_mcp,
  route, follow, serve_mcp, asgi_app, Event, request, revoke_by_id, revoke_all, set_writable,
  handle,
}
use job_squire.App.Oauth.Holds.{Holds}
use job_squire.App.Oauth.Holds.Exchange.{handle_token-Keeps, handle_revoke-Keeps}
use job_squire.App.Oauth.Holds.Forms.{
  handle_register-Keeps, handle_authorize_get-Keeps, handle_authorize_post-Keeps,
}
use job_squire.App.Oauth.Holds.Serves.{follow-Holds, serve_mcp-Serves}

-- A request to the authorization end point with a right login, for the client.
pub data IsLogin (env : Runtime) (client : Text) : Event → Type 0 where
  login :
      {config : Option McpConfig} {now : ℕ} {fresh : Text} {r : Http} (params : Params)
      → route r.path (upper r.method) ≡ to_authorize_post
      → env.parse_qs r.body ≡ some params
      → is_authed env params ≡ true
      → get (txt "client_id") params ≡ client
      → IsLogin env client (request config now fresh r)

-- One of the events is such a request.
abbrev pub Authorized : Runtime → List Event → Text → Type 0
Authorized env [] client = Empty
Authorized env (e ∷ es) client = IsLogin env client e ⊎ Authorized env es client

module _ (P : Text → Type 0) where
  asgi_app-Holds :
      (env : Runtime) (config : Option McpConfig) (now : ℕ) (fresh : Text) (r : Http) (s : Server)
      → ((c : Text) → IsLogin env c (request config now fresh r) → P c)
      → Holds P s
      → Holds P (asgi_app env config now fresh r s).1
  unfolding asgi_app
  asgi_app-Holds env none now fresh r s p h =
      keeps_if (λ (x : Response × Server). Holds P x.1) (r.path == txt "/health") _ _ h h
  asgi_app-Holds env (some cfg) now fresh r s p h =
      keeps_if (λ (x : Response × Server). Holds P x.1) (r.path == txt "/health") _ _ h
        (keeps_if (λ (x : Response × Server). Holds P x.1) (not cfg.mcp_enabled) _ _ h
          (follow-Holds P env cfg now fresh r (route r.path (upper r.method)) s
            (λ params e f g. p (get (txt "client_id") params) (login params e f g refl)) h))

  erase_found-Values :
      (o : Option Text) (d : Tokens)
      → Values (λ (t : Token). P t.client_id) d
      → Values (λ (t : Token). P t.client_id) (erase_found o d).1
  unfolding erase_found
  erase_found-Values none d h = h
  erase_found-Values (some k) d h =
      keeps_if (λ (x : Bool × Tokens). Values (λ (t : Token). P t.client_id) x.1) (nonempty k) _ _
        (Values-erase (λ (t : Token). P t.client_id) k d h) h

  handle-Holds :
      (env : Runtime) (sha256 : Text → Text) (e : Event) (s : Server)
      → ((c : Text) → IsLogin env c e → P c)
      → Holds P s
      → Holds P (handle env sha256 e s)
  unfolding handle revoke_oauth_token_by_id revoke_all_oauth_tokens
  handle-Holds env sha256 (request config now fresh r) s p h =
      asgi_app-Holds env config now fresh r s p h
  handle-Holds env sha256 (revoke_by_id id) s p h =
      keeps_if (Holds P) s.writable _ _
        (record {
          codes = h.codes;
          tokens = h.tokens;
          disk = erase_found-Values (find_by_id sha256 id s.disk) s.disk h.disk;
        })
        h
  handle-Holds env sha256 revoke_all s p h =
      keeps_if (Holds P) s.writable _ _ (record { codes = h.codes; tokens = h.tokens; disk = tt }) h
  handle-Holds env sha256 (set_writable b) s p h = record {
    codes = h.codes;
    tokens = h.tokens;
    disk = h.disk;
  }

Holds-mono : {P Q : Text → Type 0} → ((c : Text) → P c → Q c) → (s : Server) → Holds P s → Holds Q s
Holds-mono f s h = record {
  codes = Values-mono (λ (c : Code). f c.client_id) s.codes h.codes;
  tokens = Values-mono (λ (t : Token). f t.client_id) s.tokens h.tokens;
  disk = Values-mono (λ (t : Token). f t.client_id) s.disk h.disk;
}

abbrev Anyone : Text → Type 0
Anyone c = Unit

Values-Unit : {A : Type 0} (d : Dict Text A) → Values {0, 0, 0} (λ (x : A). Unit) d
Values-Unit [] = tt
Values-Unit ((k, x) ∷ d) = (tt, Values-Unit d)

-- No handler but that of the MCP end point serves a client.
follow_serves :
    (P : Text → Type 0) (env : Runtime) (cfg : McpConfig) (now : ℕ) (fresh : Text) (r : Http)
    (x : Route) (s : Server)
    → ((c : Text) → client_of (serve_mcp env cfg now r s).0 ≡ some c → P c)
    → (c : Text) → client_of (follow env cfg now fresh r x s).0 ≡ some c
    → P c
unfolding follow
follow_serves P env cfg now fresh r x s h = by_route x
  where
    any : Holds Anyone s
    any = record {
      codes = Values-Unit s.codes;
      tokens = Values-Unit s.tokens;
      disk = Values-Unit s.disk;
    }

    silent : (o : Option Text) → o ≡ none → (c : Text) → o ≡ some c → P c
    silent o e c q = absurd (cc (e, q))

    by_route :
        (x : Route) → (c : Text) → client_of (follow env cfg now fresh r x s).0 ≡ some c → P c
    by_route to_metadata = silent none refl
    by_route to_register = silent _ (handle_register-Keeps Anyone env now fresh r s any).1
    by_route to_authorize_get = silent _ (handle_authorize_get-Keeps Anyone env r s any).1
    by_route to_authorize_post =
        silent _ (handle_authorize_post-Keeps Anyone env now fresh r s (λ p e q. tt) any).1
    by_route to_token = silent _ (handle_token-Keeps Anyone env now fresh r s any).1
    by_route to_revoke = silent _ (handle_revoke-Keeps Anyone env now r s any).1
    by_route to_mcp = h

-- What holds of every client that the MCP end point serves holds of every client that is served.
pub asgi_app_serves :
    (P : Text → Type 0) (env : Runtime) (config : Option McpConfig) (now : ℕ) (fresh : Text)
    (r : Http) (s : Server)
    → ((cfg : McpConfig) (c : Text) → client_of (serve_mcp env cfg now r s).0 ≡ some c → P c)
    → (c : Text) → client_of (asgi_app env config now fresh r s).0 ≡ some c
    → P c
unfolding asgi_app
asgi_app_serves P env config now fresh r s h c = by_config config
  where
    Silent : Response × Server → Type 0
    Silent x = client_of x.0 ≡ some c → P c

    by_config : (config : Option McpConfig) → Silent (asgi_app env config now fresh r s)
    by_config none =
        keeps_if Silent (r.path == txt "/health") _ _ (λ q. absurd (cc (q))) (λ q. absurd (cc (q)))
    by_config (some cfg) =
        keeps_if Silent (r.path == txt "/health") _ _ (λ q. absurd (cc (q)))
          (keeps_if Silent (not cfg.mcp_enabled) _ _ (λ q. absurd (cc (q)))
            (follow_serves P env cfg now fresh r (route r.path (upper r.method)) s (h cfg) c))

-- The server after a history of events, the last first, from one without codes and tokens.
pub data Reach (env : Runtime) (sha256 : Text → Text) : List Event → Server → Type 0 where
  fresh_server : {s : Server} → s.codes ≡ [] → s.tokens ≡ [] → s.disk ≡ [] → Reach env sha256 [] s
  after_event :
      {es : List Event} {s : Server} (e : Event)
      → Reach env sha256 es s
      → Reach env sha256 (e ∷ es) (handle env sha256 e s)

Reach-Holds :
    (env : Runtime) (sha256 : Text → Text) (es : List Event) (s : Server)
    → Reach env sha256 es s
    → Holds (Authorized env es) s
Reach-Holds env sha256 _ s (fresh_server a b c) = record {
  codes = rw a tt;
  tokens = rw b tt;
  disk = rw c tt;
}
Reach-Holds env sha256 (_ ∷ es) _ (after_event {s = s} e r) =
    handle-Holds (Authorized env (e ∷ es)) env sha256 e s (λ c l. inl l)
      (Holds-mono (λ c a. inr a) s (Reach-Holds env sha256 es s r))

-- After any requests and revocations by the web process, from a server without codes and tokens: an OAuth client that
-- a request is served for is one for which an earlier request gave a right login to the authorization
-- end point.
pub served_was_logged_in :
    (env : Runtime) (sha256 : Text → Text) (es : List Event) (s : Server)
    → Reach env sha256 es s
    → (config : Option McpConfig) (now : ℕ) (fresh : Text) (r : Http) (client : Text)
    → (asgi_app env config now fresh r s).0 ≡ served (some client)
    → Authorized env es client
served_was_logged_in env sha256 es s reach config now fresh r client e =
    asgi_app_serves (Authorized env es) env config now fresh r s
      (λ cfg.
        (serve_mcp-Serves (Authorized env es) env cfg now r s
          (Reach-Holds env sha256 es s reach)).1)
      client (ap client_of e)
