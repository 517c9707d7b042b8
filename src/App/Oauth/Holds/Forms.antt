-- ===== src/App/Oauth/Holds/Forms.antt =====
-- The registration and the authorization keep what holds of the clients of the codes and tokens.
use job_squire.Base.{
  keeps_if, keeps_if_known, ℕ, true, not, ◌≡◌, refl, inl, inr, Option, none, some, List, [], ◌∷◌,
  Text, txt, length, ltb, leb, list_eq, nat_eq, Option-cases,
}
use job_squire.Base.Values.{Values-insert}
use job_squire.App.Oauth.Limits.{login_max_failures, register_max_per_window, rate_ok}
use job_squire.App.Oauth.Server.{
  Json, not_json, not_object, object, Server, Http, Runtime, get, max_body, max_clients, client_ip,
}
use job_squire.App.Oauth.Register.{
  all_valid, add_client, check_uris, check_list, parse_registration, handle_register,
}
use job_squire.App.Oauth.Authorize.{
  Params, is_registered, has_s256, is_authed, grant, code_of, check_form, handle_authorize_get,
  handle_authorize_post,
}
use job_squire.App.Oauth.Holds.{Holds, OfCode, Keeps}

module _ (P : Text → Type 0) where
  module _ (env : Runtime) where
    check_form-Keeps :
        (now : ℕ) (fresh ip : Text) (params : Params) (s : Server)
        → (is_authed env params ≡ true → P (get (txt "client_id") params))
        → Holds P s
        → Keeps P (check_form env now fresh ip params s)
    unfolding check_form grant code_of
    check_form-Keeps now fresh ip params s p h =
        keeps_if (Keeps P) (not (is_registered params s)) _ _ (h, refl)
          (keeps_if (Keeps P) (not (has_s256 params)) _ _ (h, refl)
            (keeps_if_known (Keeps P) (is_authed env params) _ _
              (λ e. (
                record {
                  codes = Values-insert (OfCode P) fresh (code_of now params) s.codes (p e) h.codes;
                  tokens = h.tokens;
                  disk = h.disk;
                },
                refl,
              ))
              (record { codes = h.codes; tokens = h.tokens; disk = h.disk }, refl)))

    pub handle_authorize_post-Keeps :
        (now : ℕ) (fresh : Text) (r : Http) (s : Server)
        → ((params : Params)
            → env.parse_qs r.body ≡ some params
            → is_authed env params ≡ true
            → P (get (txt "client_id") params))
        → Holds P s
        → Keeps P (handle_authorize_post env now fresh r s)
    unfolding handle_authorize_post
    handle_authorize_post-Keeps now fresh r s p h = elim (Option-cases (env.parse_qs r.body)) [
      | inl e ↦
          rw (e, handle_authorize_post)
            (keeps_if (Keeps P) (ltb max_body (length r.body)) _ _ (h, refl) (h, refl))
      | inr e ↦
          let s' = record s {
            login_failures = (rate_ok login_max_failures now (client_ip r) s.login_failures).1;
          } in
          let h' : Holds P s' = record { codes = h.codes; tokens = h.tokens; disk = h.disk } in
          rw (e.1, handle_authorize_post)
            (keeps_if (Keeps P) (ltb max_body (length r.body)) _ _ (h, refl)
              (keeps_if (Keeps P)
                (not (rate_ok login_max_failures now (client_ip r) s.login_failures).0) _ _
                (h', refl) (check_form-Keeps now fresh (client_ip r) e.0 s' (p e.0 e.1) h')))
    ]

    pub handle_authorize_get-Keeps :
        (r : Http) (s : Server) → Holds P s → Keeps P (handle_authorize_get env r s)
    unfolding handle_authorize_get
    handle_authorize_get-Keeps r s h = elim (Option-cases (env.parse_qs r.query_string)) [
      | inl e ↦ rw (e, handle_authorize_get) (h, refl)
      | inr e ↦
          rw (e.1, handle_authorize_get)
            (keeps_if (Keeps P) (not (is_registered e.0 s)) _ _ (h, refl)
              (keeps_if (Keeps P) (not (has_s256 e.0)) _ _ (h, refl) (h, refl)))
    ]

    add_client-Keeps :
        (now : ℕ) (fresh ip : Text) (uris : List Text) (name : Option Text) (s : Server)
        → Holds P s
        → Keeps P (add_client now fresh ip uris name s)
    unfolding add_client
    add_client-Keeps now fresh ip uris none s h =
        (record { codes = h.codes; tokens = h.tokens; disk = h.disk }, refl)
    add_client-Keeps now fresh ip uris (some name) s h =
        (record { codes = h.codes; tokens = h.tokens; disk = h.disk }, refl)

    check_uris-Keeps :
        (now : ℕ) (fresh ip : Text) (name : Option Text) (o : Option (Option (List Text)))
        (s : Server)
        → Holds P s
        → Keeps P (check_uris now fresh ip name o s)
    unfolding check_uris
    check_uris-Keeps now fresh ip name none s h = (h, refl)
    check_uris-Keeps now fresh ip name (some none) s h = (h, refl)
    check_uris-Keeps now fresh ip name (some (some uris)) s h =
        add_client-Keeps now fresh ip uris name s h

    check_list-Keeps :
        (now : ℕ) (fresh ip : Text) (name : Option Text) (o : Option (List (Option Text)))
        (s : Server)
        → Holds P s
        → Keeps P (check_list env now fresh ip name o s)
    unfolding check_list
    check_list-Keeps now fresh ip name none s h = (h, refl)
    check_list-Keeps now fresh ip name (some []) s h = (h, refl)
    check_list-Keeps now fresh ip name (some (u ∷ us)) s h =
        check_uris-Keeps now fresh ip name (all_valid env.urlsplit (u ∷ us)) s h

    parse_registration-Keeps :
        (now : ℕ) (fresh ip : Text) (json : Json) (s : Server)
        → Holds P s
        → Keeps P (parse_registration env now fresh ip json s)
    unfolding parse_registration
    parse_registration-Keeps now fresh ip not_json s h = (h, refl)
    parse_registration-Keeps now fresh ip not_object s h = (h, refl)
    parse_registration-Keeps now fresh ip (object d) s h =
        check_list-Keeps now fresh ip d.client_name d.redirect_uris s h

    pub handle_register-Keeps :
        (now : ℕ) (fresh : Text) (r : Http) (s : Server)
        → Holds P s
        → Keeps P (handle_register env now fresh r s)
    unfolding handle_register
    handle_register-Keeps now fresh r s h =
        let s' = record s {
          register_attempts =
              (rate_ok register_max_per_window now (client_ip r) s.register_attempts).1;
        } in
        let h' : Holds P s' = record { codes = h.codes; tokens = h.tokens; disk = h.disk } in
        keeps_if (Keeps P)
          (not (rate_ok register_max_per_window now (client_ip r) s.register_attempts).0) _ _
          (h', refl)
          (keeps_if (Keeps P) (leb max_clients (length s.clients)) _ _ (h', refl)
            (keeps_if (Keeps P) (ltb max_body (length r.body)) _ _ (h', refl)
              (parse_registration-Keeps now fresh (client_ip r) (env.json_loads r.body) s' h')))
