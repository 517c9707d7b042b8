-- ===== src/App/Oauth/Revoked.antt =====
-- A revocation by the web process, and what the process of app/mcp_server.py writes after it.
use mathlib.Core.Path.{subst}
use mathlib.Core.Option.{some-injective}
use job_squire.Base.{
  ℕ, true, false, ◌≡◌, refl, sym, ap, ◌∙◌, inl, inr, some, [], ◌∷◌, Text, txt, if◌then◌else◌, ltb,
  ◌==◌, list_eq, nat_eq, Bool-cases,
}
use job_squire.Base.Dict.{lookup, insert, erase, lookup-insert}
use job_squire.App.Oauth.Tokens.{Token, Tokens, revoke_all_oauth_tokens, live, without_client}
use job_squire.App.Oauth.Server.{Server, Http, Runtime, Response, get}
use job_squire.App.Oauth.Exchange.{issue, token_of, save_tokens, handle_token}
use job_squire.App.Oauth.Dispatch.{revoke_all, handle}
use job_squire.App.Oauth.Codes.{Redeems, handle_token-Redeems}

-- A token that has not expired is found among the live ones.
lookup-live-some :
    (now : ℕ) (k : Text) (t : Token) (d : Tokens)
    → lookup k d ≡ some t
    → ltb now t.exp ≡ true
    → lookup k (live now d) ≡ some t
unfolding live lookup
lookup-live-some now k t [] e l = absurd (cc (e))
lookup-live-some now k t ((j, v) ∷ d) e l = elim (Bool-cases (k == j)) [
  | inl g ↦
      let same : v ≡ t = some-injective v t (rw g at e) in
      let h : ltb now v.exp ≡ true = ap (λ (x : Token). ltb now x.exp) same ∙ l in
      rw (h, g) (ap some same)
  | inr g ↦ elim (Bool-cases (ltb now v.exp)) [
    | inl h ↦ rw (h, g) (lookup-live-some now k t d (rw g at e) l)
    | inr h ↦ rw h (lookup-live-some now k t d (rw g at e) l)
  ]
]

lookup-without_client :
    (client k : Text) (t : Token) (d : Tokens)
    → lookup k d ≡ some t
    → (t.client_id == client) ≡ false
    → lookup k (without_client client d) ≡ some t
unfolding without_client lookup
lookup-without_client client k t [] e l = absurd (cc (e))
lookup-without_client client k t ((j, v) ∷ d) e l = elim (Bool-cases (k == j)) [
  | inl g ↦
      let same : v ≡ t = some-injective v t (rw g at e) in
      let h : (v.client_id == client) ≡ false =
        ap (λ (x : Token). x.client_id == client) same ∙ l in
      rw (h, g) (ap some same)
  | inr g ↦ elim (Bool-cases (v.client_id == client)) [
    | inl h ↦ rw h (lookup-without_client client k t d (rw g at e) l)
    | inr h ↦ rw (h, g) (lookup-without_client client k t d (rw g at e) l)
  ]
]

save_tokens-disk :
    (now : ℕ) (s : Server) → s.writable ≡ true → (save_tokens now s).disk ≡ live now s.tokens
unfolding save_tokens
save_tokens-disk now s w = ap (λ b. (if b then record s { disk = live now s.tokens } else s).disk) w

issue-disk :
    (now : ℕ) (fresh client k : Text) (t : Token) (s : Server)
    → s.writable ≡ true
    → lookup k s.tokens ≡ some t
    → ltb now t.exp ≡ true
    → (t.client_id == client) ≡ false
    → (k == fresh) ≡ false
    → lookup k (issue now fresh client s).1.disk ≡ some t
unfolding issue
issue-disk now fresh client k t s w e l c f =
    let d = insert fresh (token_of now client s) (without_client client s.tokens) in
    ap (lookup k) (save_tokens-disk now (record s { tokens = d }) w)
    ∙ lookup-live-some now k t d
        (lookup-insert k fresh (token_of now client s) (without_client client s.tokens)
          ∙ rw f (lookup-without_client client k t s.tokens e c))
        l

-- The web process revokes all tokens in the file, which can be written. If a code is exchanged then, before a request for the tools reloads
-- the file, every token in memory that has not expired is in the file again, but for those of the code's client (and
-- one that the new token replaces).
pub revoked_is_restored :
    (env : Runtime) (sha256 : Text → Text) (now : ℕ) (fresh : Text) (r : Http) (s : Server)
    → s.writable ≡ true
    → (a : Redeems env now r s) → (k : Text) (t : Token) → lookup k s.tokens ≡ some t
    → ltb now t.exp ≡ true
    → (t.client_id == a.code.client_id) ≡ false
    → (k == fresh) ≡ false
    → ((handle env sha256 revoke_all s).disk ≡ [])
      × (lookup k (handle_token env now fresh r (handle env sha256 revoke_all s)).1.disk ≡ some t)
unfolding handle revoke_all_oauth_tokens issue
revoked_is_restored env sha256 now fresh r s w a k t e l c f =
    let cleared = record s { disk = [] } in
    let is_cleared : handle env sha256 revoke_all s ≡ cleared = rw (w, handle) refl in
    let b : Redeems env now r cleared = record {
      params = a.params;
      code = a.code;
      fits = a.fits;
      parsed = a.parsed;
      found = a.found;
      current = a.current;
      protected = a.protected;
      proven = a.proven;
    } in
    let done = handle_token-Redeems env now fresh r cleared b in
    subst
      (λ (x : Server). (x.disk ≡ []) × (lookup k (handle_token env now fresh r x).1.disk ≡ some t))
      (sym is_cleared)
      (
        refl,
        ap (λ (x : Response × Server). lookup k x.1.disk) done
            ∙ issue-disk now fresh a.code.client_id k t
                (record cleared { codes = erase (get (txt "code") a.params) s.codes }) w e l c f,
      )
