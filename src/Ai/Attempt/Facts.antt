-- ===== src/Ai/Attempt/Facts.antt =====
-- What one attempt does to the requests sent and to the set of providers tried.
use job_squire.Base.{
  Bool, true, ◌≡◌, refl, ◌⊎◌, inl, inr, Option, none, some, [], ◌∷◌, ◌++◌, Text, txt, nonempty, All,
  All-append, ◌==◌, list_eq, nat_eq, arith, Bool-cases,
}
use job_squire.Ai.Provider.{Provider}
use job_squire.Ai.Attempt.{
  Request, Reply, content, http_error, timeout, failure, Services, Tables, Call, Chain, is_capable,
  model_for, base_url_of, send, settle, request_to, exchange, dispatch, fit_of, try_one,
}

-- A provider that an attempt sends a request to.
pub record IsReady (V : Services) (T : Tables) (c : Call) (p : Provider) : Type 0 where
  pub capable : is_capable c.is_triage p ≡ true
  pub has_model : nonempty (model_for c.is_triage p) ≡ true
  pub fits : (fit_of V T c p).fits ≡ true

module _ (V : Services) where
  pub sent-settle : (b : Bool) (x : Reply × Chain) → (settle V b x).1.sent ≡ x.1.sent
  unfolding settle
  sent-settle b (content c, s) = refl
  sent-settle b (http_error none, s) = refl
  sent-settle b (http_error (some code), s) = ground arith
  sent-settle b (timeout, s) = refl
  sent-settle b (failure, s) = refl

  pub tried-settle : (b : Bool) (x : Reply × Chain) → (settle V b x).1.tried ≡ x.1.tried
  unfolding settle
  tried-settle b (content c, s) = refl
  tried-settle b (http_error none, s) = refl
  tried-settle b (http_error (some code), s) = ground arith
  tried-settle b (timeout, s) = refl
  tried-settle b (failure, s) = refl

  module _ (T : Tables) (c : Call) (p : Provider) where
    pub sent-exchange :
        (u : Option Text) (s : Chain)
        → (exchange V T c p u s).1.sent ≡ s.sent ++ request_to V T c p u ∷ []
    unfolding exchange send
    sent-exchange u s = sent-settle _ (send V (request_to V T c p u) s)

    pub tried-exchange : (u : Option Text) (s : Chain) → (exchange V T c p u s).1.tried ≡ s.tried
    unfolding exchange send
    tried-exchange u s = tried-settle _ (send V (request_to V T c p u) s)

  module _ (T : Tables) (c : Call) (p : Provider) (s : Chain) where
    pub sent-dispatch :
        ((dispatch V T c p s).1.sent ≡ s.sent)
        ⊎ ((u : Option Text) × ((dispatch V T c p s).1.sent ≡ s.sent ++ request_to V T c p u ∷ []))
    unfolding dispatch
    sent-dispatch = elim (Bool-cases (p.provider == txt "anthropic")) [
      | inl e ↦ inr (none, rw e (sent-exchange T c p _ _))
      | inr e ↦ elim (Bool-cases (nonempty (base_url_of p))) [
        | inl k ↦ inr (some (base_url_of p), rw (e, k) (sent-exchange T c p _ _))
        | inr k ↦ inl (rw (e, k))
      ]
    ]

    pub sent-try_one :
        ((try_one V T c p s).1.sent ≡ s.sent)
        ⊎ (IsReady V T c p
            × ((u : Option Text) × ((try_one V T c p s).1.sent
                  ≡ s.sent ++ request_to V T c p u ∷ [])))
    unfolding try_one
    sent-try_one = elim (Bool-cases (is_capable c.is_triage p)) [
      | inr e ↦ inl (rw e)
      | inl e ↦ elim (Bool-cases (nonempty (model_for c.is_triage p))) [
        | inr k ↦ inl (rw (e, k))
        | inl k ↦ elim (Bool-cases (fit_of V T c p).fits) [
          | inr m ↦ inl (rw (e, k, m))
          | inl m ↦ elim sent-dispatch [
            | inl q ↦ inl (rw (e, k, m) q)
            | inr q ↦ inr (record { capable = e; has_model = k; fits = m }, rw (e, k, m) q)
          ]
        ]
      ]
    ]

    pub All-try_one :
        (P : Request → Type 0)
        → (IsReady V T c p → (u : Option Text) → P (request_to V T c p u))
        → All P s.sent
        → All P (try_one V T c p s).1.sent
    All-try_one P h a = elim sent-try_one [
      | inl e ↦ rw e a
      | inr (r, (u, e)) ↦ rw e (All-append P s.sent _ a (h r u, tt))
    ]
