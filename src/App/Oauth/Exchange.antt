-- ===== src/App/Oauth/Exchange.antt =====
-- The exchange of a code for a token and the revocation of a token in app/mcp_server.py: `_handle_token` and
-- `_handle_revoke`.
use job_squire.Base.{
  ℕ, ◌+◌, not, ◌||◌, Option, none, some, Text, txt, nonempty, length, strip, ltb, ◌==◌, list_eq,
  nat_eq, if◌then◌else◌,
}
use job_squire.Base.Dict.{Dict, lookup, insert, erase}
use job_squire.App.Oauth.Tokens.{Token, token_ttl, live, without_client}
use job_squire.App.Oauth.Server.{
  Code, Server, Http, Runtime, Response, payload_too_large, code_not_found, pkce_failed, issued,
  revoked, crashed, max_body, get, name_of, merge,
}

-- `_save_tokens`. The file is replaced in one step, and an `OSError` of the write is logged only, so that the file
-- stays as it is.
unfoldable pub save_tokens : ℕ → Server → Server
save_tokens now s = if s.writable then record s { disk = live now s.tokens } else s

unfoldable pub token_of : ℕ → Text → Server → Token
token_of now client s = record {
  client_id = client;
  client_name = name_of client s.clients;
  issued_at = now;
  exp = now + token_ttl;
}

-- The end of `_handle_token`: the tokens of the client go, and a new one is stored.
unfoldable pub issue : ℕ → Text → Text → Server → Response × Server
issue now fresh client s = (
  issued fresh,
  save_tokens now
      (record s { tokens = insert fresh (token_of now client s) (without_client client s.tokens) }),
)

-- The tests of the record that was popped.
unfoldable pub redeem : Runtime → ℕ → Text → Text → Option Code → Server → Response × Server
redeem env now fresh verifier none s = (code_not_found, s)
redeem env now fresh verifier (some c) s =
    if ltb c.exp now
    then (code_not_found, s)
    else if not (nonempty c.code_challenge) || not (env.digest verifier == c.code_challenge)
    then (pkce_failed, s)
    else issue now fresh c.client_id s

unfoldable pub exchange_code : Runtime → ℕ → Text → Dict Text Text → Server → Response × Server
exchange_code env now fresh params s =
    let code = get (txt "code") params in
    redeem env now fresh (get (txt "code_verifier") params) (lookup code s.codes)
      (record s { codes = erase code s.codes })

-- `params` of a token request; the body's values win.
unfoldable pub token_params : Runtime → Http → Option (Dict Text Text)
token_params env r = elim (env.parse_qs r.query_string) [
  | none ↦ none
  | some query ↦ elim (env.parse_qs r.body) [ none ↦ none | some form ↦ some (merge query form) ]
]

-- `_handle_token`; `fresh` is the new token. An undecodable query raises before the body is read.
unfoldable pub handle_token : Runtime → ℕ → Text → Http → Server → Response × Server
handle_token env now fresh r s = elim (env.parse_qs r.query_string) [
  | none ↦ (crashed, s)
  | some query ↦
      if ltb max_body (length r.body) then (payload_too_large, s) else elim (env.parse_qs r.body) [
        | none ↦ (crashed, s)
        | some form ↦ exchange_code env now fresh (merge query form) s
      ]
]

unfoldable pub revoke : ℕ → Text → Server → Response × Server
revoke now token s = elim (lookup token s.tokens) [
  | none ↦ (revoked, s)
  | some _ ↦
      if nonempty token
      then (revoked, save_tokens now (record s { tokens = erase token s.tokens }))
      else (revoked, s)
]

-- `_handle_revoke`
unfoldable pub handle_revoke : Runtime → ℕ → Http → Server → Response × Server
handle_revoke env now r s =
    if ltb max_body (length r.body) then (payload_too_large, s) else elim (env.parse_qs r.body) [
      | none ↦ (crashed, s)
      | some params ↦ revoke now (strip (get (txt "token") params)) s
    ]
