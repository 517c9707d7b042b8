-- ===== src/Ai/Fallback/Answers.antt =====
-- The text of an answer is what the last request brought back.
use mathlib.Core.Path.{subst}
use job_squire.Base.{
  sym, Bool, true, false, ◌&&◌, ◌≡◌, inl, inr, refl, Option, none, some, List, [], ◌∷◌, ◌++◌, Text,
  txt, length, contains, ◌==◌, nat_eq, list_eq, arith, Bool-cases, nonempty, returns,
}
use job_squire.Ai.Provider.{Provider, AiConfig}
use job_squire.Ai.Privacy.{redaction_enabled, should_redact_for}
use job_squire.Ai.Attempt.{
  Request, Reply, content, http_error, timeout, failure, Services, Tables, Call, Chain, start,
  Attempt, text, skipped, raised, send, settle, settle_content, is_capable, model_for, base_url_of,
  request_to, outbound_system, outbound_user, exchange, dispatch, fit_of, try_one,
}
use job_squire.Ai.Fallback.{
  Answer, answered, failed, go_on, or_next, answer_of, primary_of, backup_of, assigned_step,
  chain_step, ranked_rows, uses_chain, ranked_step, legacy_request, settle_legacy, legacy_with,
  legacy_step, run_steps, finish, call_with_fallback, requests,
}

module _ (V : Services) (T : Tables) (c : Call) where
  -- Whether the texts are redacted for a row, or for the legacy key.
  abbrev pub is_redacted : Option Provider → Bool
  is_redacted none = redaction_enabled T.ai_config
  is_redacted (some p) = should_redact_for T.ai_config p

  -- The text `t` stands for the content `o` of a reply: rehydrated if the request was redacted, where a null content
  -- gives the empty text, and else the content itself.
  abbrev pub StandsFor : Bool → Text → Option Text → Type 0
  StandsFor true t none = t ≡ []
  StandsFor true t (some u) = t ≡ V.rehydrate u
  StandsFor false t none = ⊥
  StandsFor false t (some u) = t ≡ u

  -- The last request of `s`, with its texts redacted or not, brought a content back for which `t` stands.
  record Given (t : Text) (s : Chain) : Type 0 where
    before : List Request
    last : Request
    reply : Option Text
    sent_last : s.sent ≡ before ++ last ∷ []
    system : last.system ≡ outbound_system V T c (is_redacted last.row)
    user : last.user ≡ outbound_user V T c (is_redacted last.row)
    replied : V.post (length before) last ≡ content reply
    stands : StandsFor (is_redacted last.row) t reply

  -- The request is redacted as its row says.
  abbrev IsOutbound : Bool → Request → Type 0
  IsOutbound b r =
      (is_redacted r.row ≡ b)
      × ((r.system ≡ outbound_system V T c b) × (r.user ≡ outbound_user V T c b))

  sent-Given :
      (b : Bool) (r : Request) (s t : Chain) (o : Option Text) (x : Text)
      → IsOutbound b r
      → V.post (length s.sent) r ≡ content o
      → t.sent ≡ s.sent ++ r ∷ []
      → StandsFor b x o
      → Given x t
  sent-Given b r s t o x (k, (m, n)) e q st = record {
    before = s.sent;
    last = r;
    reply = o;
    sent_last = q;
    system = rw k m;
    user = rw k n;
    replied = e;
    stands = subst (λ j. StandsFor j x o) (sym k) st;
  }

  settle-Given :
      (b : Bool) (r : Request) (s : Chain) (y : Reply) (t : Text)
      → IsOutbound b r
      → V.post (length s.sent) r ≡ y
      → (settle V b (y, (send V r s).1)).0 ≡ text t
      → Given t (settle V b (y, (send V r s).1)).1
  unfolding settle settle_content send
  settle-Given true r s (content none) t k e h =
      sent-Given true r s _ none t k e refl (ground arith)
  settle-Given false r s (content none) t k e h = absurd (cc)
  settle-Given true r s (content (some u)) t k e h =
      sent-Given true r s _ (some u) t k e refl (ground arith)
  settle-Given false r s (content (some u)) t k e h =
      sent-Given false r s _ (some u) t k e refl (ground arith)
  settle-Given b r s (http_error none) t k e h = absurd (cc)
  settle-Given b r s (http_error (some code)) t k e h = absurd (ground arith)
  settle-Given b r s timeout t k e h = absurd (cc)
  settle-Given b r s failure t k e h = absurd (cc)

  exchange-Given :
      (p : Provider) (u : Option Text) (s : Chain) (t : Text)
      → (exchange V T c p u s).0 ≡ text t
      → Given t (exchange V T c p u s).1
  unfolding exchange send request_to
  exchange-Given p u s t h =
      settle-Given (should_redact_for T.ai_config p) (request_to V T c p u) s _ t
        (refl, (refl, refl)) refl h

  dispatch-Given :
      (p : Provider) (s : Chain) (t : Text)
      → (dispatch V T c p s).0 ≡ text t
      → Given t (dispatch V T c p s).1
  unfolding dispatch
  dispatch-Given p s t = elim (Bool-cases (p.provider == txt "anthropic")) [
    | inl e ↦ rw e (exchange-Given p none _ t)
    | inr e ↦ elim (Bool-cases (nonempty (base_url_of p))) [
      | inl k ↦ rw (e, k) (exchange-Given p (some (base_url_of p)) _ t)
      | inr k ↦ rw (e, k) (λ h. absurd (cc))
    ]
  ]

  try_one-Given :
      (p : Provider) (s : Chain) (t : Text)
      → (try_one V T c p s).0 ≡ text t
      → Given t (try_one V T c p s).1
  unfolding try_one
  try_one-Given p s t = elim (Bool-cases (is_capable c.is_triage p)) [
    | inr e ↦ rw e (λ h. absurd (cc))
    | inl e ↦ elim (Bool-cases (nonempty (model_for c.is_triage p))) [
      | inr k ↦ rw (e, k) (λ h. absurd (cc))
      | inl k ↦ elim (Bool-cases (fit_of V T c p).fits) [
        | inr m ↦ rw (e, k, m) (λ h. absurd (cc))
        | inl m ↦ rw (e, k, m) (dispatch-Given p s t)
      ]
    ]
  ]

  -- If a step answers, then with a text that the last request gave.
  abbrev Answers : Answer × Chain → Type 0
  Answers x = (t name : Text) → x.0 ≡ answered t name → Given t x.1

  answer_of-Given :
      (p : Provider) (x : Attempt × Chain)
      → ((t : Text) → x.0 ≡ text t → Given t x.1)
      → Answers (answer_of p x)
  unfolding answer_of
  answer_of-Given p (text u, s) h t name e = h t (ground arith)
  answer_of-Given p (skipped, s) h t name e = absurd (cc)
  answer_of-Given p (raised k, s) h t name e = absurd (cc)

  or_next_given :
      (x : Answer × Chain) (next : Chain → Answer × Chain)
      → Answers x
      → ((s : Chain) → Answers (next s))
      → Answers (or_next x next)
  unfolding or_next
  or_next_given (answered u n, s) next h k = h
  or_next_given (failed e, s) next h k = h
  or_next_given (go_on, s) next h k = k s

  assigned_step_given : (o : Option Provider) (s : Chain) → Answers (assigned_step V T c o s)
  unfolding assigned_step
  assigned_step_given none s = λ t name e. absurd (cc)
  assigned_step_given (some p) s = elim (Bool-cases p.enabled) [
    | inl k ↦ simp k (answer_of-Given p (try_one V T c p s) (try_one-Given p s))
    | inr k ↦ simp k (λ t name e. absurd (cc))
  ]

  chain_step_given : (ps : List Provider) (s : Chain) → Answers (chain_step V T c ps s)
  unfolding chain_step
  chain_step_given [] s = λ t name e. absurd (cc)
  chain_step_given (p ∷ ps) s = elim (Bool-cases (contains s.tried p.id)) [
    | inl k ↦ rw (k, chain_step) (chain_step_given ps s)
    | inr k ↦
        rw (k, chain_step)
          (or_next_given (answer_of p (try_one V T c p s)) (chain_step V T c ps)
            (answer_of-Given p (try_one V T c p s) (try_one-Given p s)) (chain_step_given ps))
  ]

  ranked_step_given : (s : Chain) → Answers (ranked_step V T c s)
  unfolding ranked_step
  ranked_step_given s = elim (Bool-cases (uses_chain T.task_config)) [
    | inl k ↦ rw k (chain_step_given (ranked_rows T.rows) s)
    | inr k ↦ rw k (λ t name e. absurd (cc))
  ]

  settle_legacy_given :
      (b : Bool) (r : Request) (s : Chain) (y : Reply)
      → IsOutbound b r
      → V.post (length s.sent) r ≡ y
      → Answers (settle_legacy V T c b (y, (send V r s).1))
  unfolding settle_legacy send
  settle_legacy_given b r s (content none) k e t name h = absurd (cc)
  settle_legacy_given true r s (content (some u)) k e t name h =
      sent-Given true r s _ (some u) t k e refl (ground arith)
  settle_legacy_given false r s (content (some u)) k e t name h =
      sent-Given false r s _ (some u) t k e refl (ground arith)
  settle_legacy_given b r s (http_error code) k e t name h = absurd (cc)
  settle_legacy_given b r s timeout k e t name h = absurd (cc)
  settle_legacy_given b r s failure k e t name h = absurd (cc)

  legacy_with_given : (cfg : AiConfig) (s : Chain) → Answers (legacy_with V T c cfg s)
  unfolding legacy_with send legacy_request
  legacy_with_given cfg s =
      let r = legacy_request V T c cfg in
      elim (Bool-cases (
        cfg.fallback_to_anthropic
        && nonempty cfg.api_key_enc
        && nonempty r.api_key
        && nonempty r.model)) [
          | inl k ↦
              rw k (
                settle_legacy_given (redaction_enabled T.ai_config) r s _ (refl, (refl, refl)) refl)
          | inr k ↦ rw k (λ t name e. absurd (cc))
        ]

  legacy_step_given : (o : Option AiConfig) (s : Chain) → Answers (legacy_step V T c o s)
  unfolding legacy_step
  legacy_step_given none s = λ t name e. absurd (cc)
  legacy_step_given (some cfg) s = legacy_with_given cfg s

  run_steps_given : Answers (run_steps V T c)
  unfolding run_steps
  run_steps_given = or_next_given _ _ (assigned_step_given (primary_of T.task_config) start) λ s1.
      or_next_given _ _ (assigned_step_given (backup_of T.task_config) s1)
        λ s2. or_next_given _ _ (ranked_step_given s2) (legacy_step_given T.ai_config)

  finish_returns :
      (x : Answer × Chain) (t name : Text)
      → finish V T c x ≡ returns (t, name)
      → x.0 ≡ answered t name
  unfolding finish
  finish_returns (answered u n, s) t name h = ground arith
  finish_returns (failed e, s) t name h = absurd (cc)
  finish_returns (go_on, s) t name h = absurd (cc)

  -- A call that returns has sent a request. The last one carried texts that are redacted exactly if its row, or the
  -- legacy key, demands it, and it brought a content back: the answer is that content rehydrated if they were
  -- redacted, where a null content gives the empty text, and else the content as it is.
  pub answer_is_last_reply :
      (t name : Text)
      → call_with_fallback V T c ≡ returns (t, name)
      → (before : List Request) × (last : Request) × (reply : Option Text) × (requests V T c
          ≡ before ++ last ∷ [])
        × (last.system ≡ outbound_system V T c (is_redacted last.row))
        × (last.user ≡ outbound_user V T c (is_redacted last.row))
        × (V.post (length before) last ≡ content reply)
        × StandsFor (is_redacted last.row) t reply
  unfolding call_with_fallback requests
  answer_is_last_reply t name h =
      let g = run_steps_given t name (finish_returns (run_steps V T c) t name h) in
      (g.before, g.last, g.reply, g.sent_last, g.system, g.user, g.replied, g.stands)
