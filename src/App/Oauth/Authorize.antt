-- ===== src/App/Oauth/Authorize.antt =====
-- The authorization end point of app/mcp_server.py: `_handle_authorize_get` and `_handle_authorize_post`.
use job_squire.Base.{
  ℕ, ◌+◌, Bool, not, none, some, Text, txt, length, strip, ltb, contains, list_eq, nat_eq,
  if◌then◌else◌,
}
use job_squire.Base.Dict.{Dict, insert, erase}
use job_squire.App.Oauth.Limits.{login_max_failures, rate_ok, record_time}
use job_squire.App.Oauth.Server.{
  Code, Server, Http, Runtime, Response, payload_too_large, too_many_requests, unknown_client,
  pkce_required, login_page, login_failed, redirected, crashed, max_body, client_ip, get, uris_of,
  is_s256,
}

abbrev pub Params : Type 0
Params = Dict Text Text

-- `redirect_uri in registered`, which is false if there are none.
unfoldable pub is_registered : Params → Server → Bool
is_registered params s =
    contains (uris_of (get (txt "client_id") params) s.clients) (get (txt "redirect_uri") params)

unfoldable pub has_s256 : Params → Bool
has_s256 params =
    is_s256 (get (txt "code_challenge") params) (get (txt "code_challenge_method") params)

-- `_handle_authorize_get`
unfoldable pub handle_authorize_get : Runtime → Http → Server → Response × Server
handle_authorize_get env r s = elim (env.parse_qs r.query_string) [
  | none ↦ (crashed, s)
  | some params ↦
      if not (is_registered params s)
      then (unknown_client, s)
      else if not (has_s256 params)
      then (pkce_required, s)
      else (login_page, s)
]

unfoldable pub code_of : ℕ → Params → Code
code_of now params = record {
  client_id = get (txt "client_id") params;
  redirect_uri = get (txt "redirect_uri") params;
  code_challenge = get (txt "code_challenge") params;
  code_challenge_method = get (txt "code_challenge_method") params;
  exp = now + 600;
}

-- The end of `_handle_authorize_post` with the right login.
unfoldable pub grant : ℕ → Text → Text → Params → Server → Response × Server
grant now fresh ip params s = (
  redirected (get (txt "redirect_uri") params) fresh,
  record s {
    login_failures = erase ip s.login_failures;
    codes = insert fresh (code_of now params) s.codes;
  },
)

-- The query of `User` and `check_password_hash`.
unfoldable pub is_authed : Runtime → Params → Bool
is_authed env params =
    env.check_login (strip (get (txt "username") params)) (get (txt "password") params)

-- Behind the rate limit.
unfoldable pub check_form : Runtime → ℕ → Text → Text → Params → Server → Response × Server
check_form env now fresh ip params s =
    if not (is_registered params s)
    then (unknown_client, s)
    else if not (has_s256 params)
    then (pkce_required, s)
    else if is_authed env params
    then grant now fresh ip params s
    else (login_failed, record s { login_failures = record_time now ip s.login_failures })

-- `_handle_authorize_post`; `fresh` is the new code.
unfoldable pub handle_authorize_post : Runtime → ℕ → Text → Http → Server → Response × Server
handle_authorize_post env now fresh r s =
    if ltb max_body (length r.body) then (payload_too_large, s) else elim (env.parse_qs r.body) [
      | none ↦ (crashed, s)
      | some params ↦
          let ip = client_ip r in
          let rate = rate_ok login_max_failures now ip s.login_failures in
          let s' = record s { login_failures = rate.1 } in
          if not rate.0 then (too_many_requests, s') else check_form env now fresh ip params s'
    ]
