-- ===== src/Tests/Oauth.antt =====
-- A client that registers, is authorized, gets a token, uses it and revokes it.
use job_squire.Base.{
  ℕ, true, false, ◌≡◌, ◌≢◌, ◌↔◌, refl, Option, none, some, List, [], ◌∷◌, ◌++◌, Text, txt, strip,
  lstrip, rstrip, is_space, lower, upper, lower_char, upper_char, starts_with, ◌==◌, list_eq,
  nat_eq, if◌then◌else◌,
}
use job_squire.Base.Dict.{lookup, insert, erase}
use job_squire.App.Deploy.{network}
use job_squire.App.McpAuth.{verify_static_token, compare_digest, is_ascii}
use job_squire.App.Oauth.Limits.{times_of, recent, rate_ok, record_time}
use job_squire.App.Oauth.Tokens.{Token, live, without_client, match_in, match_bearer_token}
use job_squire.App.Oauth.Server.{
  Server, McpConfig, object, Http, Runtime, issued, redirected, served, get, uris_of, name_of,
  merge, header, is_private, client_ip, extract_bearer, is_s256,
}
use job_squire.App.Oauth.Register.{
  is_valid_url, valid_redirect_uri, all_valid, client_name_of, add_client, check_uris, check_list,
  parse_registration, handle_register,
}
use job_squire.App.Oauth.Authorize.{
  Params, is_registered, has_s256, code_of, grant, is_authed, check_form, handle_authorize_post,
}
use job_squire.App.Oauth.Exchange.{
  save_tokens, token_of, issue, redeem, exchange_code, token_params, handle_token, handle_revoke,
}
use job_squire.App.Oauth.Dispatch.{
  refresh_tokens_cache, admit, serve_oauth, serve_mcp, route, follow, asgi_app, Event, request,
  revoke_all, set_writable, handle, handle_all,
}
use job_squire.App.Oauth.Grants.{Authorized, Reach, fresh_server, after_event, served_was_logged_in}
use job_squire.App.Oauth.Codes.{Redeems, handle_token_iff, code_used_once}
use job_squire.App.Oauth.Revoked.{revoked_is_restored}
use job_squire.App.Oauth.Rejected.{revoked_is_rejected}
use job_squire.App.Oauth.Logins.{Grants, handle_authorize_post_iff}

abbrev login_form : Params
login_form =
    (txt "username", txt "ann")
    ∷ (txt "client_id", txt "id")
    ∷ (txt "redirect_uri", txt "https://c")
    ∷ (txt "code_challenge", txt "#v")
    ∷ (txt "code_challenge_method", txt "S256")
    ∷ []

abbrev token_form : Params
token_form = (txt "code", txt "code") ∷ (txt "code_verifier", txt "v") ∷ []

abbrev revoke_form : Params
revoke_form = (txt "token", txt "key") ∷ []

parse_qs : Text → Option Params
parse_qs raw =
    if raw == []
    then some []
    else if raw == txt "login"
    then some login_form
    else if raw == txt "token"
    then some token_form
    else if raw == txt "revoke"
    then some revoke_form
    else none

abbrev environment : Runtime
environment = record {
  parse_qs = parse_qs;
  json_loads = λ raw.
      object (record { redirect_uris = some (some (txt "https://c") ∷ []); client_name = some [] });
  urlsplit = λ uri.
      some (record {
        scheme = txt "https";
        netloc = txt "c";
        hostname = some (txt "c");
        fragment = [];
      });
  check_login = λ username password. username == txt "ann";
  digest = λ verifier. txt "#" ++ verifier;
  decrypt = λ s. s;
  deploy_mode = network;
}

abbrev config : Option McpConfig
config = some (record {
  mcp_enabled = true;
  mcp_api_key_enc = [];
  mcp_api_key_allow_network = false;
  mcp_api_key_expires_at = none;
})

abbrev post : Text → Text → Http
post path body = record {
  path = path;
  method = txt "post";
  query_string = [];
  headers = [];
  peer = txt "9.9.9.9";
  body = body;
}

abbrev empty_server : Server
empty_server = record {
  clients = [];
  codes = [];
  tokens = [];
  disk = [];
  writable = true;
  cache_time = 0;
  login_failures = [];
  register_attempts = [];
  last_used_write_time = 0;
  key_last_used_at = none;
}

abbrev registers : Event
registers = request config 10 (txt "id") (post (txt "/register") [])

abbrev logs_in : Event
logs_in = request config 11 (txt "code") (post (txt "/oauth/authorize") (txt "login"))

abbrev gets_token : Event
gets_token = request config 12 (txt "key") (post (txt "/token") (txt "token"))

abbrev call : Http
call = record (post (txt "/mcp") []) { headers = (txt "Authorization", txt "Bearer key") ∷ [] }

abbrev history : List Event
history = gets_token ∷ logs_in ∷ registers ∷ []

abbrev plain_digest : Text → Text
plain_digest s = s

abbrev registered_server : Server
registered_server = handle environment plain_digest registers empty_server

abbrev coded_server : Server
coded_server = handle environment plain_digest logs_in registered_server

abbrev ready : Server
ready = handle environment plain_digest gets_token coded_server

ready-Reach : Reach environment plain_digest history ready
ready-Reach =
    after_event gets_token
      (after_event logs_in (after_event registers (fresh_server refl refl refl)))

is_served : (asgi_app environment config 13 [] call ready).0 ≡ served (some (txt "id"))
unfolding parse_qs handle asgi_app route follow handle_register rate_ok times_of recent record_time
    client_ip is_private header parse_registration check_list check_uris all_valid
    valid_redirect_uri is_valid_url add_client client_name_of handle_authorize_post check_form
    is_registered has_s256 is_s256 is_authed grant code_of get uris_of handle_token exchange_code
    redeem issue save_tokens token_of name_of merge live without_client serve_mcp serve_oauth admit
    refresh_tokens_cache verify_static_token match_bearer_token match_in compare_digest is_ascii
    extract_bearer lookup insert erase list_eq nat_eq strip lstrip rstrip is_space upper lower
    lower_char upper_char starts_with
is_served = refl

served_was_logged_in_example : Authorized environment history (txt "id")
served_was_logged_in_example =
    served_was_logged_in environment plain_digest history ready ready-Reach config 13 [] call
      (txt "id") is_served

abbrev token_post : Http
token_post = post (txt "/token") (txt "token")

parses : token_params environment token_post ≡ some token_form
unfolding token_params parse_qs merge insert list_eq nat_eq
parses = refl

handle_token_iff_example :
    ((handle_token environment 12 (txt "key") token_post coded_server).0 ≡ issued (txt "key"))
    ↔ (Redeems environment 12 token_post coded_server × (txt "key" ≡ txt "key"))
handle_token_iff_example =
    handle_token_iff environment 12 (txt "key") token_post coded_server (txt "key")

code_used_once_example :
    (handle_token environment 13
      (txt "key2")
      token_post
      (handle_token environment 12 (txt "key") token_post coded_server).1).0
    ≢ issued (txt "key2")
code_used_once_example =
    code_used_once environment 12 13 (txt "key") (txt "key2") token_post token_post coded_server
      token_form token_form refl parses parses refl (txt "key2")

handle_authorize_post_iff_example :
    ((handle_authorize_post environment 11
        (txt "code")
        (post (txt "/authorize") (txt "login"))
        registered_server).0
      ≡ redirected (txt "https://c") (txt "code"))
    ↔ ((a : Grants environment 11 (post (txt "/authorize") (txt "login")) registered_server) × ((txt
              "https://c"
            ≡ get (txt "redirect_uri") a.params)
          × (txt "code" ≡ txt "code")))
handle_authorize_post_iff_example =
    handle_authorize_post_iff environment 11 (txt "code") (post (txt "/authorize") (txt "login"))
      registered_server (txt "https://c") (txt "code")

abbrev key_token : Token
key_token = record { client_id = txt "id"; client_name = txt "App"; issued_at = 12; exp = 99 }

abbrev holding : Server
holding = record empty_server {
  tokens = (txt "key", key_token) ∷ [];
  disk = (txt "key", key_token) ∷ [];
}

key_found : lookup (txt "key") holding.tokens ≡ some key_token
unfolding lookup list_eq nat_eq
key_found = refl

-- The web process revokes all tokens, the file cannot be written, and another client gets a token.
abbrev later_events : List Event
later_events = revoke_all ∷ set_writable false ∷ request config 30 (txt "new") token_post ∷ []

revoked_is_rejected_example :
    let key = strip (get (txt "token") revoke_form) in
    let after =
      handle_all environment plain_digest later_events
        (handle_revoke environment 20 (post (txt "/revoke") (txt "revoke")) holding).1 in
    ((lookup key after.tokens ≡ none) × (lookup key after.disk ≡ none))
    × ((config : Option McpConfig) (later : ℕ) (fresh : Text) (q : Http) (client : Text)
        → extract_bearer q.headers ≡ key
        → (asgi_app environment config later fresh q after).0 ≢ served (some client))
unfolding parse_qs get lookup strip lstrip rstrip is_space list_eq nat_eq
revoked_is_rejected_example =
    revoked_is_rejected environment plain_digest 20 (post (txt "/revoke") (txt "revoke")) holding
      revoke_form key_token later_events refl refl refl refl refl (tt, (tt, (refl, tt)))

abbrev other_code : Server
other_code = record holding {
  codes =
      (
        txt "code",
        record {
          client_id = txt "other";
          redirect_uri = txt "https://c";
          code_challenge = txt "#v";
          code_challenge_method = txt "S256";
          exp = 611;
        },
      )
      ∷ [];
}

redeems : Redeems environment 12 token_post other_code
unfolding get lookup list_eq nat_eq
redeems = record {
  params = token_form;
  code = record {
    client_id = txt "other";
    redirect_uri = txt "https://c";
    code_challenge = txt "#v";
    code_challenge_method = txt "S256";
    exp = 611;
  };
  fits = refl;
  parsed = parses;
  found = refl;
  current = refl;
  protected = refl;
  proven = refl;
}

revoked_is_restored_example :
    ((handle environment plain_digest revoke_all other_code).disk ≡ [])
    × (lookup
          (txt "key")
          (handle_token environment 12
            (txt "new")
            token_post
            (handle environment plain_digest revoke_all other_code)).1.disk
        ≡ some key_token)
unfolding redeems list_eq nat_eq
revoked_is_restored_example =
    revoked_is_restored environment plain_digest 12 (txt "new") token_post other_code refl redeems
      (txt "key") key_token key_found refl refl refl
