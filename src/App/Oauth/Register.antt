-- ===== src/App/Oauth/Register.antt =====
-- Dynamic registration of clients in app/mcp_server.py: the test of redirect addresses and `_handle_register`.
use job_squire.Base.{
  ℕ, Bool, true, false, not, ◌&&◌, ◌||◌, Option, none, some, List, [], ◌∷◌, Text, txt, nonempty,
  length, strip, ltb, leb, contains, ◌==◌, list_eq, nat_eq, if◌then◌else◌,
}
use job_squire.Base.Dict.{insert}
use job_squire.App.Oauth.Limits.{register_max_per_window, rate_ok, record_time}
use job_squire.App.Oauth.Server.{
  Client, Server, Url, Json, not_json, not_object, object, Http, Runtime, Response,
  payload_too_large, too_many_requests, registration_unavailable, invalid_request,
  invalid_redirect_uri, registered, crashed, max_clients, max_body, client_ip,
}

module _ (urlsplit : Text → Option Url) where
  unfoldable pub is_valid_url : Url → Bool
  is_valid_url u =
      if nonempty u.fragment
      then false
      else if u.scheme == txt "https" && nonempty u.netloc
      then true
      else u.scheme == txt "http" && elim u.hostname [
        | none ↦ false
        | some h ↦ contains (txt "localhost" ∷ txt "127.0.0.1" ∷ txt "::1" ∷ []) h
      ]

  -- `_valid_redirect_uri`; `none` is an exception of `urlsplit`.
  unfoldable pub valid_redirect_uri : Option Text → Option Bool
  valid_redirect_uri none = some false
  valid_redirect_uri (some uri) =
      if not (nonempty uri) || ltb 2048 (length uri)
      then some false
      else elim (urlsplit uri) [ none ↦ none | some u ↦ some (is_valid_url u) ]

  -- `all(_valid_redirect_uri(u) for u in uris)`, with the texts.
  unfoldable pub all_valid : List (Option Text) → Option (Option (List Text))
  all_valid [] = some (some [])
  all_valid (none ∷ uris) = some none
  all_valid (some u ∷ uris) = elim (valid_redirect_uri (some u)) [
    | none ↦ none
    | some false ↦ some none
    | some true ↦ elim (all_valid uris) [
      | none ↦ none
      | some none ↦ some none
      | some (some us) ↦ some (some (u ∷ us))
    ]
  ]

-- `(data.get("client_name") or "").strip() or "Unknown client"`
unfoldable pub client_name_of : Text → Text
client_name_of name = let s = strip name in if nonempty s then s else txt "Unknown client"

-- From `_record_register_attempt` on. The attempt stays recorded if the name raises.
unfoldable pub add_client : ℕ → Text → Text → List Text → Option Text → Server → Response × Server
add_client now fresh ip uris none s =
    (crashed, record s { register_attempts = record_time now ip s.register_attempts })
add_client now fresh ip uris (some name) s =
    let c : Client = record { redirect_uris = uris; client_name = client_name_of name } in
    (
      registered fresh c,
      record s {
        register_attempts = record_time now ip s.register_attempts;
        clients = insert fresh c s.clients;
      },
    )

-- With the result of the test of each address.
unfoldable pub check_uris :
    ℕ → Text → Text → Option Text → Option (Option (List Text)) → Server → Response × Server
check_uris now fresh ip name none s = (crashed, s)
check_uris now fresh ip name (some none) s = (invalid_redirect_uri, s)
check_uris now fresh ip name (some (some uris)) s = add_client now fresh ip uris name s

-- The tests of `redirect_uris`.
unfoldable pub check_list :
    Runtime
    → ℕ
    → Text
    → Text
    → Option Text
    → Option (List (Option Text))
    → Server
    → Response × Server
check_list env now fresh ip name none s = (invalid_redirect_uri, s)
check_list env now fresh ip name (some []) s = (invalid_redirect_uri, s)
check_list env now fresh ip name (some (u ∷ us)) s =
    check_uris now fresh ip name (all_valid env.urlsplit (u ∷ us)) s

unfoldable pub parse_registration : Runtime → ℕ → Text → Text → Json → Server → Response × Server
parse_registration env now fresh ip not_json s = (invalid_request, s)
parse_registration env now fresh ip not_object s = (crashed, s)
parse_registration env now fresh ip (object request) s =
    check_list env now fresh ip request.client_name request.redirect_uris s

-- `_handle_register`; `fresh` is the new client id.
unfoldable pub handle_register : Runtime → ℕ → Text → Http → Server → Response × Server
handle_register env now fresh r s =
    let ip = client_ip r in
    let rate = rate_ok register_max_per_window now ip s.register_attempts in
    let s' = record s { register_attempts = rate.1 } in
    if not rate.0
    then (too_many_requests, s')
    else if leb max_clients (length s.clients)
    then (registration_unavailable, s')
    else if ltb max_body (length r.body)
    then (payload_too_large, s')
    else parse_registration env now fresh ip (env.json_loads r.body) s'
