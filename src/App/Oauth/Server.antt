-- ===== src/App/Oauth/Server.antt =====
-- The handlers and the dispatch of app/mcp_server.py. A handler takes the state and gives its response and the next
-- state. It runs at one time `now`, and a random value that it draws is an argument.
use job_squire.Base.{
  ℕ, Bool, ◌&&◌, ◌||◌, Option, none, some, List, [], ◌∷◌, Text, txt, nonempty, strip, lower,
  starts_with, drop, ◌==◌, list_eq, nat_eq, if◌then◌else◌,
}
use job_squire.Base.Dict.{Dict, lookup, insert}
use job_squire.App.Deploy.{Mode}
use job_squire.App.Oauth.Limits.{Times}
use job_squire.App.Oauth.Tokens.{Tokens}

pub record Client : Type 0 where
  pub redirect_uris : List Text
  pub client_name : Text

pub record Code : Type 0 where
  pub client_id : Text
  pub redirect_uri : Text
  pub code_challenge : Text
  pub code_challenge_method : Text
  pub exp : ℕ

-- The variables of the module, the file of tokens with whether it can be written now, and the column
-- `mcp_api_key_last_used_at`.
pub record Server : Type 0 where
  pub clients : Dict Text Client
  pub codes : Dict Text Code
  pub tokens : Tokens
  pub disk : Tokens
  pub writable : Bool
  pub cache_time : ℕ
  pub login_failures : Times
  pub register_attempts : Times
  pub last_used_write_time : ℕ
  pub key_last_used_at : Option ℕ

-- What `urlsplit` gives; `none` where it raises.
pub record Url : Type 0 where
  pub scheme : Text
  pub netloc : Text
  pub hostname : Option Text
  pub fragment : Text

-- `AIConfig`, as far as the server reads it.
pub record McpConfig : Type 0 where
  pub mcp_enabled : Bool
  pub mcp_api_key_enc : Text
  pub mcp_api_key_allow_network : Bool
  pub mcp_api_key_expires_at : Option ℕ

-- A JSON body. `redirect_uris` is `none` where it is no list, and an element where it is no text; a name that is
-- missing or falsy is empty, and one that is true but no text is `none`.
pub record Registration : Type 0 where
  pub redirect_uris : Option (List (Option Text))
  pub client_name : Option Text

pub data Json : Type 0 where
  not_json : Json
  not_object : Json
  object : Registration → Json

-- Names and values of headers.
abbrev pub Headers : Type 0
Headers = Dict Text Text

pub record Http : Type 0 where
  pub path : Text
  pub method : Text
  pub query_string : Text
  pub headers : Headers
  pub peer : Text
  pub body : Text

-- What the module calls: `parse_qs` with the first value of each key (`none` where decoding raises), `json.loads`,
-- `urlsplit`, the look-up of the user with `check_password_hash`, the base64 digest of PKCE, and decryption.
pub record Runtime : Type 0 where
  pub parse_qs : Text → Option (Dict Text Text)
  pub json_loads : Text → Json
  pub urlsplit : Text → Option Url
  pub check_login : Text → Text → Bool
  pub digest : Text → Text
  pub decrypt : Text → Text
  pub deploy_mode : Mode

-- A response, by what it says. `served` calls the MCP tools, for an OAuth client or for the static key.
pub data Response : Type 0 where
  payload_too_large : Response
  too_many_requests : Response
  registration_unavailable : Response
  invalid_request : Response
  invalid_redirect_uri : Response
  registered : Text → Client → Response
  unknown_client : Response
  pkce_required : Response
  login_page : Response
  login_failed : Response
  redirected : Text → Text → Response
  code_not_found : Response
  pkce_failed : Response
  issued : Text → Response
  revoked : Response
  healthy : Response
  not_found : Response
  metadata : Response
  served : Option Text → Response
  unauthorized : Response
  crashed : Response

-- The OAuth client that a response serves.
abbrev pub client_of : Response → Option Text
client_of (served client) = client
client_of _ = none

abbrev pub max_clients : ℕ
max_clients = 500

-- `_MAX_OAUTH_BODY_BYTES`; a body is a text of bytes.
abbrev pub max_body : ℕ
max_body = 65536

-- `d.get(key, "")`
unfoldable pub get : Text → Dict Text Text → Text
get key d = elim (lookup key d) [ none ↦ [] | some v ↦ v ]

-- `_clients.get(client_id, {}).get("redirect_uris", [])`
unfoldable pub uris_of : Text → Dict Text Client → List Text
uris_of client clients = elim (lookup client clients) [ none ↦ [] | some c ↦ c.redirect_uris ]

unfoldable pub name_of : Text → Dict Text Client → Text
name_of client clients = elim (lookup client clients) [
  | none ↦ txt "Unknown client"
  | some c ↦ c.client_name
]

-- `{**qs_params, **body_params}`
unfoldable pub merge : Dict Text Text → Dict Text Text → Dict Text Text
merge d [] = d
merge d ((k, v) ∷ e) = merge (insert k v d) e

-- `{k.lower(): v for k, v in headers}.get(name, "")`, where the last header of a name counts.
unfoldable pub header : Text → Headers → Text → Text
header name [] found = found
header name ((k, v) ∷ hs) found = header name hs (if lower k == name then v else found)

unfoldable pub is_private : Text → Bool
is_private ip =
    starts_with ip (txt "10.")
    || starts_with ip (txt "172.")
    || starts_with ip (txt "192.168.")
    || starts_with ip (txt "127.")
    || starts_with ip (txt "::1")
    || starts_with ip (txt "fc")
    || starts_with ip (txt "fd")

-- `_get_client_ip`
unfoldable pub client_ip : Http → Text
client_ip r =
    let real = strip (header (txt "x-real-ip") r.headers []) in
    if is_private r.peer && nonempty real then real else r.peer

-- `_extract_bearer`
unfoldable pub extract_bearer : Headers → Text
extract_bearer [] = []
extract_bearer ((k, v) ∷ hs) =
    let rest = extract_bearer hs in
    if lower k == txt "authorization" && starts_with (lower v) (txt "bearer ")
    then strip (drop 7 v)
    else rest

unfoldable pub is_s256 : Text → Text → Bool
is_s256 challenge method = nonempty challenge && method == txt "S256"
