-- ===== src/App/Oauth/Holds.antt =====
-- What holds of the clients of all codes and tokens of app/mcp_server.py. `Exchange`, `Forms` and `Serves` show that the
-- handlers keep it.
pub mod Exchange
pub mod Forms
pub mod Serves
use job_squire.Base.{
  keeps_if, ℕ, Bool, true, false, not, ◌||◌, ◌≡◌, refl, inl, inr, Option, none, some, List, [], ◌∷◌,
  Text, txt, nonempty, length, strip, ltb, leb, ◌==◌, list_eq, nat_eq, if◌then◌else◌, Option-cases,
}
use job_squire.Base.Dict.{lookup, insert, erase}
use job_squire.Base.Values.{Values, Values-insert, Values-erase, Values-lookup}
use job_squire.App.Oauth.Limits.{login_max_failures, register_max_per_window, rate_ok}
use job_squire.App.Oauth.Tokens.{Token, Tokens, live, without_client}
use job_squire.App.Oauth.Server.{
  client_of, Code, Json, not_json, not_object, object, Server, Http, Runtime, Response, get,
  max_body, max_clients, client_ip, merge,
}
use job_squire.App.Oauth.Register.{
  all_valid, add_client, check_uris, check_list, parse_registration, handle_register,
}
use job_squire.App.Oauth.Authorize.{
  Params, is_registered, has_s256, is_authed, grant, code_of, check_form, handle_authorize_get,
  handle_authorize_post,
}
use job_squire.App.Oauth.Exchange.{
  issue, token_of, save_tokens, redeem, exchange_code, handle_token, revoke, handle_revoke,
}

-- The clients of all codes and tokens, in memory and on disk, satisfy `P`.
pub record Holds (P : Text → Type 0) (s : Server) : Type 0 where
  pub codes : Values (λ (c : Code). P c.client_id) s.codes
  pub tokens : Values (λ (t : Token). P t.client_id) s.tokens
  pub disk : Values (λ (t : Token). P t.client_id) s.disk

module _ (P : Text → Type 0) where
  abbrev pub OfToken : Token → Type 0
  OfToken t = P t.client_id

  abbrev pub OfCode : Code → Type 0
  OfCode c = P c.client_id

  -- `P` still holds, and no OAuth client is served.
  abbrev pub Keeps : Response × Server → Type 0
  Keeps x = Holds P x.1 × (client_of x.0 ≡ none)

  pub Values-live : (now : ℕ) (d : Tokens) → Values OfToken d → Values OfToken (live now d)
  unfolding live
  Values-live now [] h = tt
  Values-live now ((k, v) ∷ d) h =
      keeps_if (Values OfToken) (ltb now v.exp) ((k, v) ∷ live now d) (live now d)
        (h.0, Values-live now d h.1) (Values-live now d h.1)

  pub Values-without_client :
      (client : Text) (d : Tokens) → Values OfToken d → Values OfToken (without_client client d)
  unfolding without_client
  Values-without_client client [] h = tt
  Values-without_client client ((k, v) ∷ d) h =
      keeps_if (Values OfToken) (v.client_id == client) (without_client client d)
        ((k, v) ∷ without_client client d) (Values-without_client client d h.1)
        (h.0, Values-without_client client d h.1)
