-- ===== src/App/Oauth/Logins.antt =====
-- When the authorization end point of app/mcp_server.py gives a code.
use job_squire.Base.{
  ℕ, true, false, ◌≡◌, ◌↔◌, inl, inr, some, Text, txt, length, ltb, list_eq, nat_eq, Bool-cases,
  Option-cases,
}
use job_squire.App.Oauth.Limits.{login_max_failures, rate_ok, recent, times_of}
use job_squire.App.Oauth.Server.{Server, Http, Runtime, redirected, get, max_body, client_ip}
use job_squire.App.Oauth.Authorize.{
  Params, is_registered, has_s256, is_authed, grant, check_form, handle_authorize_post,
}

-- The form can be read, fewer than five recent failures are recorded for the address, the redirect address is
-- registered for the client, there is an S256 challenge, and the login is right.
pub record Grants (env : Runtime) (now : ℕ) (r : Http) (s : Server) : Type 0 where
  pub params : Params
  pub fits : ltb max_body (length r.body) ≡ false
  pub parsed : env.parse_qs r.body ≡ some params
  pub allowed :
      ltb (length (recent now (times_of (client_ip r) s.login_failures))) login_max_failures ≡ true
  pub registered : is_registered params s ≡ true
  pub challenged : has_s256 params ≡ true
  pub authed : is_authed env params ≡ true

module _ (env : Runtime) where
  abbrev Right : Params → Server → Type 0
  Right params s =
      (is_registered params s ≡ true) × ((has_s256 params ≡ true) × (is_authed env params ≡ true))

  check_form_iff :
      (now : ℕ) (fresh ip : Text) (params : Params) (s : Server) (uri code : Text)
      → ((check_form env now fresh ip params s).0 ≡ redirected uri code)
        ↔ (Right params s × ((uri ≡ get (txt "redirect_uri") params) × (code ≡ fresh)))
  unfolding check_form grant
  check_form_iff now fresh ip params s uri code = elim (Bool-cases (is_registered params s)) [
    | inr g ↦ ((λ q. absurd (cc (rw (g, check_form) at q))), λ a. absurd (cc (g, a.0.0)))
    | inl g ↦ elim (Bool-cases (has_s256 params)) [
      | inr k ↦ ((λ q. absurd (cc (rw (g, k, check_form) at q))), λ a. absurd (cc (k, a.0.1.0)))
      | inl k ↦ elim (Bool-cases (is_authed env params)) [
        | inr l ↦
            ((λ q. absurd (cc (rw (g, k, l, check_form) at q))), λ a. absurd (cc (l, a.0.1.1)))
        | inl l ↦ (
          λ q. (
            (g, (k, l)),
            (cc (rw (g, k, l, check_form) at q), cc (rw (g, k, l, check_form) at q)),
          ),
          λ a. rw (g, k, l, check_form) (cc (a.1.0, a.1.1)),
        )
      ]
    ]
  ]

  -- A login form is answered with a redirect exactly if it can be read and is not too long, the address has fewer than
  -- five failures in the window, the redirect address is registered for the client, there is an S256 challenge and the
  -- login is right; and the redirect is to the address of the form, with the new random code.
  pub handle_authorize_post_iff :
      (now : ℕ) (fresh : Text) (r : Http) (s : Server) (uri code : Text)
      → ((handle_authorize_post env now fresh r s).0 ≡ redirected uri code)
        ↔ ((a : Grants env now r s) × ((uri ≡ get (txt "redirect_uri") a.params) × (code ≡ fresh)))
  unfolding handle_authorize_post rate_ok is_registered
  handle_authorize_post_iff now fresh r s uri code = (to, from)
    where
      limited : Server
      limited = record s {
        login_failures = (rate_ok login_max_failures now (client_ip r) s.login_failures).1;
      }

      to :
          (handle_authorize_post env now fresh r s).0 ≡ redirected uri code
          → (a : Grants env now r s) × ((uri ≡ get (txt "redirect_uri") a.params) × (code ≡ fresh))
      to q = elim (Bool-cases (ltb max_body (length r.body))) [
        | inl g ↦ absurd (cc (rw (g, handle_authorize_post) at q))
        | inr g ↦ elim (Option-cases (env.parse_qs r.body)) [
          | inl e ↦ absurd (cc (rw (g, e, handle_authorize_post) at q))
          | inr e ↦
              elim (Bool-cases (
                ltb (length (recent now (times_of (client_ip r) s.login_failures)))
                  login_max_failures)) [
                    | inr l ↦ absurd (cc (rw (g, e.1, l, handle_authorize_post) at q))
                    | inl l ↦
                        let done =
                          (check_form_iff now fresh (client_ip r) e.0 limited uri code).0
                            (rw (g, e.1, l, handle_authorize_post) at q) in
                        (
                          record {
                            params = e.0;
                            fits = g;
                            parsed = e.1;
                            allowed = l;
                            registered = done.0.0;
                            challenged = done.0.1.0;
                            authed = done.0.1.1;
                          },
                          done.1,
                        )
                  ]
        ]
      ]

      from :
          (a : Grants env now r s) × ((uri ≡ get (txt "redirect_uri") a.params) × (code ≡ fresh))
          → (handle_authorize_post env now fresh r s).0 ≡ redirected uri code
      from a =
          rw (a.0.fits, a.0.parsed, a.0.allowed, handle_authorize_post)
            ((check_form_iff now fresh (client_ip r) a.0.params limited uri code).1
              ((a.0.registered, (a.0.challenged, a.0.authed)), a.1))
