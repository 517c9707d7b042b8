-- ===== src/App/Oauth/Codes.antt =====
-- When app/mcp_server.py exchanges a code for a token, and that a code is used once.
use mathlib.Core.Path.{subst}
use mathlib.Core.Option.{some-injective}
use job_squire.Base.{
  keeps_if, ℕ, true, false, not, ◌||◌, ◌≡◌, ◌≢◌, ◌↔◌, refl, sym, ap, ◌∙◌, ◌⊎◌, inl, inr, Option,
  none, some, Text, txt, nonempty, length, ltb, ◌==◌, ==_iff, ==_refl, list_eq, nat_eq, Bool-cases,
  Option-cases,
}
use job_squire.Base.Dict.{Dict, lookup, insert, erase, lookup-erase}
use job_squire.App.Oauth.Tokens.{without_client}
use job_squire.App.Oauth.Server.{
  Code, Server, Http, Runtime, Response, issued, get, max_body, merge,
}
use job_squire.App.Oauth.Exchange.{
  issue, token_of, save_tokens, redeem, exchange_code, token_params, handle_token,
}

-- The request carries a code that is stored and has not expired, and the verifier of its challenge.
pub record Redeems (env : Runtime) (now : ℕ) (r : Http) (s : Server) : Type 0 where
  pub params : Dict Text Text
  pub code : Code
  pub fits : ltb max_body (length r.body) ≡ false
  pub parsed : token_params env r ≡ some params
  pub found : lookup (get (txt "code") params) s.codes ≡ some code
  pub current : ltb code.exp now ≡ false
  pub protected : nonempty code.code_challenge ≡ true
  pub proven : env.digest (get (txt "code_verifier") params) ≡ code.code_challenge

module _ (env : Runtime) where
  -- The branches of `handle_token`: it ends early, or it is an exchange.
  pub data TokenEntry (now : ℕ) (fresh : Text) (r : Http) (s : Server)
      : Response × Server → Type 0 where
    ended :
        (x : Response)
        → ((t : Text) → x ≢ issued t)
        → ltb max_body (length r.body) ≡ true ⊎ token_params env r ≡ none
        → TokenEntry now fresh r s (x, s)
    exchanged :
        (params : Dict Text Text)
        → ltb max_body (length r.body) ≡ false
        → token_params env r ≡ some params
        → TokenEntry now fresh r s (exchange_code env now fresh params s)

  pub entry :
      (now : ℕ) (fresh : Text) (r : Http) (s : Server)
      → TokenEntry now fresh r s (handle_token env now fresh r s)
  unfolding handle_token token_params
  entry now fresh r s = elim (Option-cases (env.parse_qs r.query_string)) [
    | inl e ↦ rw (e, handle_token) (ended _ (λ t q. cc) (inr (rw (e, token_params) refl)))
    | inr q ↦ elim (Bool-cases (ltb max_body (length r.body))) [
      | inl g ↦ rw (q.1, g, handle_token) (ended _ (λ t q. cc) (inl g))
      | inr g ↦ elim (Option-cases (env.parse_qs r.body)) [
        | inl e ↦
            rw (q.1, g, e, handle_token)
              (ended _ (λ t q. cc) (inr (rw (q.1, e, token_params) refl)))
        | inr e ↦
            rw (q.1, g, e.1, handle_token)
              (exchanged (merge q.0 e.0) g (rw (q.1, e.1, token_params) refl))
      ]
    ]
  ]

  -- The tests of `redeem` on a record that was popped.
  abbrev Good : ℕ → Text → Code → Type 0
  Good now verifier c =
      (ltb c.exp now ≡ false)
      × ((nonempty c.code_challenge ≡ true) × (env.digest verifier ≡ c.code_challenge))

  redeem-some_iff :
      (now : ℕ) (fresh verifier t : Text) (c : Code) (s : Server)
      → ((redeem env now fresh verifier (some c) s).0 ≡ issued t)
        ↔ (Good now verifier c × (t ≡ fresh))
  unfolding redeem issue
  redeem-some_iff now fresh verifier t c s = elim (Bool-cases (ltb c.exp now)) [
    | inl g ↦ ((λ q. absurd (cc (rw (g, redeem) at q))), λ a. absurd (cc (g, a.0.0)))
    | inr g ↦ elim (Bool-cases (nonempty c.code_challenge)) [
      | inr k ↦ ((λ q. absurd (cc (rw (g, k, redeem) at q))), λ a. absurd (cc (k, a.0.1.0)))
      | inl k ↦ elim (Bool-cases (env.digest verifier == c.code_challenge)) [
        | inr l ↦ (
          (λ q. absurd (cc (rw (g, k, l, redeem) at q))),
          λ a. absurd (cc (l, (==_iff (env.digest verifier) c.code_challenge).1 a.0.1.1)),
        )
        | inl l ↦ (
          λ q. (
            (g, (k, (==_iff (env.digest verifier) c.code_challenge).0 l)),
            cc (rw (g, k, l, redeem) at q),
          ),
          λ a. rw (g, k, l, redeem) (ap issued (sym a.1)),
        )
      ]
    ]
  ]

  redeem_iff :
      (now : ℕ) (fresh verifier t : Text) (o : Option Code) (s : Server)
      → ((redeem env now fresh verifier o s).0 ≡ issued t)
        ↔ (((c : Code) × ((o ≡ some c) × Good now verifier c)) × (t ≡ fresh))
  unfolding redeem
  redeem_iff now fresh verifier t none s = (λ q. absurd (cc (q)), λ a. absurd (cc (a.0.1.0)))
  redeem_iff now fresh verifier t (some c) s = (
    λ q. let good = (redeem-some_iff now fresh verifier t c s).0 q in ((c, (refl, good.0)), good.1),
    λ a.
        let same : a.0.0 ≡ c = sym (some-injective c a.0.0 a.0.1.0) in
        (redeem-some_iff now fresh verifier t c s).1 (subst (Good now verifier) same a.0.1.1, a.1),
  )

  -- A token request is answered with a token exactly if its body is not too long, its parameters can be decoded, its
  -- code is stored and has not expired, and its verifier has the digest that the code was stored with, which is not
  -- empty; and the token is the new random value.
  pub handle_token_iff :
      (now : ℕ) (fresh : Text) (r : Http) (s : Server) (t : Text)
      → ((handle_token env now fresh r s).0 ≡ issued t) ↔ (Redeems env now r s × (t ≡ fresh))
  unfolding exchange_code
  handle_token_iff now fresh r s t = (to _ (entry now fresh r s), from _ (entry now fresh r s))
    where
      popped : Dict Text Text → Server
      popped params = record s { codes = erase (get (txt "code") params) s.codes }

      to :
          (y : Response × Server)
          → TokenEntry now fresh r s y
          → y.0 ≡ issued t
          → Redeems env now r s × (t ≡ fresh)
      to _ (ended x n _) q = absurd (n t q)
      to _ (exchanged params g e) q =
          let good =
            (redeem_iff now fresh (get (txt "code_verifier") params) t
                (lookup (get (txt "code") params) s.codes) (popped params)).0
              q in
          (
            record {
              params = params;
              code = good.0.0;
              fits = g;
              parsed = e;
              found = good.0.1.0;
              current = good.0.1.1.0;
              protected = good.0.1.1.1.0;
              proven = good.0.1.1.1.1;
            },
            good.1,
          )

      from :
          (y : Response × Server)
          → TokenEntry now fresh r s y
          → Redeems env now r s × (t ≡ fresh)
          → y.0 ≡ issued t
      from _ (ended x n (inl g)) a = absurd (cc (g, a.0.fits))
      from _ (ended x n (inr e)) a = absurd (cc (e, a.0.parsed))
      from _ (exchanged params g e) a =
          let same : a.0.params ≡ params = some-injective a.0.params params (sym a.0.parsed ∙ e) in
          subst (λ p. (exchange_code env now fresh p s).0 ≡ issued t) same
            ((redeem_iff now fresh (get (txt "code_verifier") a.0.params) t
                (lookup (get (txt "code") a.0.params) s.codes) (popped a.0.params)).1
              ((a.0.code, (a.0.found, (a.0.current, (a.0.protected, a.0.proven)))), a.1))

  redeem-issue :
      (now : ℕ) (fresh verifier : Text) (c : Code) (s : Server)
      → Good now verifier c
      → redeem env now fresh verifier (some c) s ≡ issue now fresh c.client_id s
  unfolding redeem
  redeem-issue now fresh verifier c s h =
      rw (h.0, h.1.0, (==_iff (env.digest verifier) c.code_challenge).1 h.1.1, redeem) refl

  -- Such a request does what `issue` does after the code is gone.
  pub handle_token-Redeems :
      (now : ℕ) (fresh : Text) (r : Http) (s : Server) (a : Redeems env now r s)
      → handle_token env now fresh r s
        ≡ issue now fresh a.code.client_id
            (record s { codes = erase (get (txt "code") a.params) s.codes })
  unfolding exchange_code
  handle_token-Redeems now fresh r s a = by_entry _ (entry now fresh r s)
    where
      next : Server
      next = record s { codes = erase (get (txt "code") a.params) s.codes }

      by_entry :
          (y : Response × Server)
          → TokenEntry now fresh r s y
          → y ≡ issue now fresh a.code.client_id next
      by_entry _ (ended x n (inl g)) = absurd (cc (g, a.fits))
      by_entry _ (ended x n (inr e)) = absurd (cc (e, a.parsed))
      by_entry _ (exchanged params g e) =
          let same : a.params ≡ params = some-injective a.params params (sym a.parsed ∙ e) in
          subst (λ p. exchange_code env now fresh p s ≡ issue now fresh a.code.client_id next) same
            (ap (λ o. redeem env now fresh (get (txt "code_verifier") a.params) o next) a.found
              ∙ redeem-issue now fresh (get (txt "code_verifier") a.params) a.code next
                  (a.current, (a.protected, a.proven)))

  save_tokens-codes : (now : ℕ) (s : Server) → (save_tokens now s).codes ≡ s.codes
  unfolding save_tokens
  save_tokens-codes now s = keeps_if (λ (x : Server). x.codes ≡ s.codes) s.writable _ _ refl refl

  redeem-codes :
      (now : ℕ) (fresh verifier : Text) (o : Option Code) (s : Server)
      → (redeem env now fresh verifier o s).1.codes ≡ s.codes
  unfolding redeem issue
  redeem-codes now fresh verifier none s = refl
  redeem-codes now fresh verifier (some c) s =
      keeps_if (λ (x : Response × Server). x.1.codes ≡ s.codes) (ltb c.exp now) _ _ refl
        (keeps_if (λ (x : Response × Server). x.1.codes ≡ s.codes)
          (not (nonempty c.code_challenge) || not (env.digest verifier == c.code_challenge)) _ _
          refl
          (save_tokens-codes now (record s {
            tokens =
                insert fresh (token_of now c.client_id s) (without_client c.client_id s.tokens);
          })))

  handle_token-codes :
      (now : ℕ) (fresh : Text) (r : Http) (s : Server) (params : Dict Text Text)
      → ltb max_body (length r.body) ≡ false
      → token_params env r ≡ some params
      → (y : Response × Server) → TokenEntry now fresh r s y
      → lookup (get (txt "code") params) y.1.codes ≡ none
  unfolding exchange_code
  handle_token-codes now fresh r s params g e _ (ended x n (inl h)) = absurd (cc (g, h))
  handle_token-codes now fresh r s params g e _ (ended x n (inr h)) = absurd (cc (e, h))
  handle_token-codes now fresh r s params g e _ (exchanged p h q) =
      let code = get (txt "code") p in
      let same : get (txt "code") params ≡ code =
        ap (get (txt "code")) (some-injective params p (sym e ∙ q)) in
      let codes =
        redeem-codes now fresh (get (txt "code_verifier") p) (lookup code s.codes)
          (record s { codes = erase code s.codes }) in
      ap (λ k. lookup k (exchange_code env now fresh p s).1.codes) same
      ∙ (ap (lookup code) codes ∙ (lookup-erase code code s.codes ∙ rw (==_refl code) refl))

  -- Of two token requests with the same code, the second is not answered with a token, whether or not the first one
  -- was, if the first one's body is not too long and its parameters can be decoded.
  pub code_used_once :
      (now now' : ℕ) (fresh fresh' : Text) (r r' : Http) (s : Server)
      (params params' : Dict Text Text)
      → ltb max_body (length r.body) ≡ false
      → token_params env r ≡ some params
      → token_params env r' ≡ some params'
      → get (txt "code") params' ≡ get (txt "code") params
      → (t : Text)
      → (handle_token env now' fresh' r' (handle_token env now fresh r s).1).0 ≢ issued t
  code_used_once now now' fresh fresh' r r' s params params' g e e' same t q =
      let s' = (handle_token env now fresh r s).1 in
      let a = ((handle_token_iff now' fresh' r' s' t).0 q).0 in
      let gone = handle_token-codes now fresh r s params g e _ (entry now fresh r s) in
      let p : a.params ≡ params' = some-injective a.params params' (sym a.parsed ∙ e') in
      let k : get (txt "code") a.params ≡ get (txt "code") params =
        ap (get (txt "code")) p ∙ same in
      let none_found : lookup (get (txt "code") a.params) s'.codes ≡ none = rw k gone in
      absurd (cc (none_found, a.found))
