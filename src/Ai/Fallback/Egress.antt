-- ===== src/Ai/Fallback/Egress.antt =====
-- What leaves the machine in a call: to whom a request goes, and with which texts.
use job_squire.Base.{
  ℕ, suc, ◌+◌, ◌*◌, ◌≤◌, Bool, true, false, ◌&&◌, ◌≡◌, ◌⊎◌, inl, inr, refl, sym, Option, none, some,
  [], ◌∷◌, ◌++◌, Text, All, Occurs, of_All, All-append, arith, Bool-cases, length, nonempty,
}
use mathlib.Core.Path.{subst}
use mathlib.Core.Option.{some-injective, none-ne-some}
use job_squire.Ai.Provider.{Provider, AiConfig}
use job_squire.Ai.Context.{fits_in_context_bound}
use job_squire.Ai.Privacy.{redaction_enabled, redact_local, is_local_provider, should_redact_for}
use job_squire.Ai.Attempt.{
  Request, Reply, content, http_error, timeout, failure, Services, Tables, Call, Chain, start,
  is_capable, model_for, request_to, send, fit_of, try_one, outbound_system, outbound_user,
}
use job_squire.Ai.Attempt.Facts.{IsReady, All-try_one}
use job_squire.Ai.Fallback.{
  primary_of, backup_of, assigned_step, ranked_step, legacy_request, settle_legacy, legacy_with,
  legacy_step, run_steps, requests,
}
use job_squire.Ai.Fallback.Steps.{
  IsEnabled, or_next-keeps, assigned_step-keeps, ranked_step-keeps, legacy_step-keeps,
}

module _ (V : Services) (T : Tables) (c : Call) where
  sent-settle_legacy : (b : Bool) (x : Reply × Chain) → (settle_legacy V T c b x).1.sent ≡ x.1.sent
  unfolding settle_legacy
  sent-settle_legacy b (content none, s) = refl
  sent-settle_legacy true (content (some t), s) = refl
  sent-settle_legacy false (content (some t), s) = refl
  sent-settle_legacy b (http_error code, s) = refl
  sent-settle_legacy b (timeout, s) = refl
  sent-settle_legacy b (failure, s) = refl

  pub sent-legacy_with :
      (cfg : AiConfig) (s : Chain)
      → ((legacy_with V T c cfg s).1.sent ≡ s.sent)
        ⊎ ((legacy_with V T c cfg s).1.sent ≡ s.sent ++ legacy_request V T c cfg ∷ [])
  unfolding legacy_with send
  sent-legacy_with cfg s =
      let r = legacy_request V T c cfg in
      elim (Bool-cases (
        cfg.fallback_to_anthropic
        && nonempty cfg.api_key_enc
        && nonempty r.api_key
        && nonempty r.model)) [
          | inl k ↦ inr (rw k (sent-settle_legacy (redaction_enabled T.ai_config) (send V r s)))
          | inr k ↦ inl (rw k)
        ]

  module _ (P : Request → Type 0)
      (rows : (p : Provider)
        → IsEnabled p
        → IsReady V T c p
        → (u : Option Text) → P (request_to V T c p u))
      (legacy : (cfg : AiConfig) → P (legacy_request V T c cfg)) where
    attempt :
        (p : Provider) → IsEnabled p → (s : Chain) → All P s.sent → All P (try_one V T c p s).1.sent
    attempt p e s h = All-try_one V T c p s P (rows p e) h

    legacy_sends :
        (cfg : AiConfig) (s : Chain) → All P s.sent → All P (legacy_with V T c cfg s).1.sent
    legacy_sends cfg s h = elim (sent-legacy_with cfg s) [
      | inl e ↦ rw e h
      | inr e ↦ rw e (All-append P s.sent _ h (legacy cfg, tt))
    ]

    -- What holds of every request that a step can send holds of all requests.
    All-requests : All P (requests V T c)
    unfolding requests run_steps
    All-requests =
        let Q : Chain → Type 0 = λ s. All P s.sent in
        or_next-keeps Q (assigned_step V T c (primary_of T.task_config) start) _
          (assigned_step-keeps Q V T c (primary_of T.task_config) start
            (λ p _ e. attempt p e start tt) tt)
          λ s1 h1.
            or_next-keeps Q (assigned_step V T c (backup_of T.task_config) s1) _
              (assigned_step-keeps Q V T c (backup_of T.task_config) s1 (λ p _ e. attempt p e s1 h1)
                h1)
              λ s2 h2.
                or_next-keeps Q (ranked_step V T c s2) (legacy_step V T c T.ai_config)
                  (ranked_step-keeps Q V T c (λ p e s _ h. attempt p e s h) s2 h2)
                  (legacy_step-keeps Q V T c (λ cfg _ s h. legacy_sends cfg s h))

  -- Redaction is on, and the request goes to the legacy key, or to a provider that is not local, or to
  -- a local one where local redaction is on.
  abbrev pub OwesRedaction : Option Provider → Type 0
  OwesRedaction none = redaction_enabled T.ai_config ≡ true
  OwesRedaction (some p) =
      (redaction_enabled T.ai_config ≡ true)
      × ((is_local_provider p ≡ false) ⊎ (redact_local T.ai_config ≡ true))

  abbrev HasRedactedTexts : Request → Type 0
  HasRedactedTexts r =
      OwesRedaction r.row
      → (r.system ≡ V.redact (c.system ++ V.untrusted_job_data_notice)) × (r.user ≡ V.redact c.user)

  outbound_redacted :
      (b : Bool)
      → b ≡ true
      → (outbound_system V T c b ≡ V.redact (c.system ++ V.untrusted_job_data_notice))
        × (outbound_user V T c b ≡ V.redact c.user)
  unfolding outbound_system outbound_user
  outbound_redacted b e = rw e (refl, refl)

  should_redact_for_owed :
      (p : Provider) → OwesRedaction (some p) → should_redact_for T.ai_config p ≡ true
  unfolding should_redact_for
  should_redact_for_owed p (on, inl e) = rw (on, e)
  should_redact_for_owed p (on, inr e) = rw (on, e) (ground arith)

  -- Every request that owes redaction carries the redacted system prompt, the notice on untrusted
  -- data included, and the redacted prompt of the caller.
  pub requests_redacted :
      (r : Request)
      → Occurs r (requests V T c)
      → OwesRedaction r.row
      → (r.system ≡ V.redact (c.system ++ V.untrusted_job_data_notice)) × (r.user ≡ V.redact c.user)
  unfolding request_to legacy_request
  requests_redacted r = of_All HasRedactedTexts (requests V T c) r (
      All-requests HasRedactedTexts
        (λ p e k u owed. outbound_redacted _ (should_redact_for_owed p owed))
        (λ cfg owed. outbound_redacted _ owed))

  fits-request_to :
      (p : Provider) (u : Option Text) (n : ℕ)
      → (fit_of V T c p).fits ≡ true
      → p.num_ctx ≡ some (suc n)
      → length (request_to V T c p u).system
          + length (request_to V T c p u).user
          + 4 * (c.max_tokens + 256)
        ≤ 4 * suc n + 6
  unfolding fit_of request_to
  fits-request_to p u n h e =
      (fits_in_context_bound (suc n) _ _ c.max_tokens (omega arith) (simp e at h)).0

  abbrev Qualifies : Request → Type 0
  Qualifies r =
      (p : Provider)
      → r.row ≡ some p
      → (p.enabled ≡ true) × (is_capable c.is_triage p ≡ true) × (nonempty r.model ≡ true)

  abbrev FitsWindow : Request → Type 0
  FitsWindow r =
      (p : Provider) (n : ℕ)
      → r.row ≡ some p
      → p.num_ctx ≡ some (suc n)
      → length r.system + length r.user + 4 * (c.max_tokens + 256) ≤ 4 * suc n + 6

  -- A request to a provider row goes to one that is enabled and has the capability that the task
  -- needs, and it names a model.
  pub requests_qualify :
      (r : Request) (p : Provider)
      → Occurs r (requests V T c)
      → r.row ≡ some p
      → (p.enabled ≡ true) × (is_capable c.is_triage p ≡ true) × (nonempty r.model ≡ true)
  unfolding request_to legacy_request
  requests_qualify r p o =
      of_All Qualifies (requests V T c) r
        (All-requests Qualifies
          (λ q e k u p row.
            subst
              (λ x.
                (x.enabled ≡ true)
                × (is_capable c.is_triage x ≡ true)
                × (nonempty (model_for c.is_triage q) ≡ true))
              (some-injective q p row) (e, k.capable, k.has_model))
          (λ cfg p row. absurd (none-ne-some p row)))
        o p

  -- The two texts of a request to a row with a window of n tokens, n > 0, are sent only if their
  -- characters and four for each token of the answer and the margin are at most 4 * n + 6.
  pub requests_fit :
      (r : Request) (p : Provider) (n : ℕ)
      → Occurs r (requests V T c)
      → r.row ≡ some p
      → p.num_ctx ≡ some (suc n)
      → length r.system + length r.user + 4 * (c.max_tokens + 256) ≤ 4 * suc n + 6
  unfolding legacy_request
  requests_fit r p n o =
      of_All FitsWindow (requests V T c) r
        (All-requests FitsWindow
          (λ q e k u p n row w. fits-request_to q u n k.fits (
            subst (λ x. x.num_ctx ≡ some (suc n))
              (sym (some-injective q p (unfold request_to in row))) w))
          (λ cfg p n row w. absurd (none-ne-some p row)))
        o p n
