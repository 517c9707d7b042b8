-- ===== src/App/Oauth/Holds/Exchange.antt =====
-- The exchange and the revocation keep what holds of the clients of the codes and tokens.
use job_squire.Base.{
  keeps_if, ℕ, not, ◌||◌, ◌≡◌, refl, inl, inr, Option, none, some, Text, txt, nonempty, length,
  strip, ltb, ◌==◌, list_eq, nat_eq, Option-cases,
}
use job_squire.Base.Dict.{lookup, insert, erase}
use job_squire.Base.Values.{Values-insert, Values-erase, Values-lookup}
use job_squire.App.Oauth.Tokens.{without_client}
use job_squire.App.Oauth.Server.{Code, Server, Http, Runtime, get, max_body, merge}
use job_squire.App.Oauth.Authorize.{Params}
use job_squire.App.Oauth.Exchange.{
  issue, token_of, save_tokens, redeem, exchange_code, handle_token, revoke, handle_revoke,
}
use job_squire.App.Oauth.Holds.{Holds, OfToken, OfCode, Keeps, Values-live, Values-without_client}

module _ (P : Text → Type 0) where
  save_tokens-Holds : (now : ℕ) (s : Server) → Holds P s → Holds P (save_tokens now s)
  unfolding save_tokens
  save_tokens-Holds now s h =
      keeps_if (Holds P) s.writable _ _
        (record { codes = h.codes; tokens = h.tokens; disk = Values-live P now s.tokens h.tokens })
        h

  issue-Keeps :
      (now : ℕ) (fresh client : Text) (s : Server)
      → P client
      → Holds P s
      → Keeps P (issue now fresh client s)
  unfolding issue token_of
  issue-Keeps now fresh client s p h =
      let kept =
        Values-insert (OfToken P) fresh (token_of now client s) (without_client client s.tokens) p
          (Values-without_client P client s.tokens h.tokens) in
      (
        save_tokens-Holds now
            (record s {
              tokens = insert fresh (token_of now client s) (without_client client s.tokens);
            })
            (record { codes = h.codes; tokens = kept; disk = h.disk }),
        refl,
      )

  module _ (env : Runtime) where
    redeem-Keeps :
        (now : ℕ) (fresh verifier : Text) (o : Option Code) (s : Server)
        → ((c : Code) → o ≡ some c → P c.client_id)
        → Holds P s
        → Keeps P (redeem env now fresh verifier o s)
    unfolding redeem
    redeem-Keeps now fresh verifier none s p h = (h, refl)
    redeem-Keeps now fresh verifier (some c) s p h =
        keeps_if (Keeps P) (ltb c.exp now) _ _ (h, refl)
          (keeps_if (Keeps P)
            (not (nonempty c.code_challenge) || not (env.digest verifier == c.code_challenge)) _ _
            (h, refl) (issue-Keeps now fresh c.client_id s (p c refl) h))

    exchange_code-Keeps :
        (now : ℕ) (fresh : Text) (params : Params) (s : Server)
        → Holds P s
        → Keeps P (exchange_code env now fresh params s)
    unfolding exchange_code
    exchange_code-Keeps now fresh params s h =
        let code = get (txt "code") params in
        redeem-Keeps now fresh (get (txt "code_verifier") params) (lookup code s.codes)
          (record s { codes = erase code s.codes })
          (λ c e. Values-lookup (OfCode P) code c s.codes e h.codes)
          (record {
            codes = Values-erase (OfCode P) code s.codes h.codes;
            tokens = h.tokens;
            disk = h.disk;
          })

    pub handle_token-Keeps :
        (now : ℕ) (fresh : Text) (r : Http) (s : Server)
        → Holds P s
        → Keeps P (handle_token env now fresh r s)
    unfolding handle_token
    handle_token-Keeps now fresh r s h = elim (Option-cases (env.parse_qs r.query_string)) [
      | inl e ↦ rw (e, handle_token) (h, refl)
      | inr q ↦ elim (Option-cases (env.parse_qs r.body)) [
        | inl e ↦
            rw (q.1, e, handle_token)
              (keeps_if (Keeps P) (ltb max_body (length r.body)) _ _ (h, refl) (h, refl))
        | inr e ↦
            rw (q.1, e.1, handle_token)
              (keeps_if (Keeps P) (ltb max_body (length r.body)) _ _ (h, refl)
                (exchange_code-Keeps now fresh (merge q.0 e.0) s h))
      ]
    ]

    revoke-Keeps : (now : ℕ) (token : Text) (s : Server) → Holds P s → Keeps P (revoke now token s)
    unfolding revoke
    revoke-Keeps now token s h =
        let kept = Values-erase (OfToken P) token s.tokens h.tokens in
        elim (Option-cases (lookup token s.tokens)) [
          | inl e ↦ rw (e, revoke) (h, refl)
          | inr e ↦
              rw (e.1, revoke)
                (keeps_if (Keeps P) (nonempty token) _ _
                  (
                    save_tokens-Holds now (record s { tokens = erase token s.tokens })
                        (record { codes = h.codes; tokens = kept; disk = h.disk }),
                    refl,
                  )
                  (h, refl))
        ]

    pub handle_revoke-Keeps :
        (now : ℕ) (r : Http) (s : Server) → Holds P s → Keeps P (handle_revoke env now r s)
    unfolding handle_revoke
    handle_revoke-Keeps now r s h = elim (Option-cases (env.parse_qs r.body)) [
      | inl e ↦
          rw (e, handle_revoke)
            (keeps_if (Keeps P) (ltb max_body (length r.body)) _ _ (h, refl) (h, refl))
      | inr e ↦
          rw (e.1, handle_revoke)
            (keeps_if (Keeps P) (ltb max_body (length r.body)) _ _ (h, refl)
              (revoke-Keeps now (strip (get (txt "token") e.0)) s h))
    ]
