-- ===== src/Ai/Fallback/Progress.antt =====
-- A working provider in the ranking is reached, whatever stands before it.
use mathlib.Core.Path.{subst}
use job_squire.Base.{
  ℕ, Bool, true, false, ◌≡◌, ◌≢◌, ◌⊎◌, inl, inr, refl, sym, Option, none, some, List, [], ◌∷◌, Text,
  txt, length, contains, ◌==◌, ==_iff, nat_eq, list_eq, arith, Bool-cases, Occurs, nonempty,
  returns,
}
use job_squire.Ai.Provider.{Provider}
use job_squire.Ai.Privacy.{should_redact_for}
use job_squire.Ai.Attempt.{
  Request, Reply, content, http_error, timeout, failure, Error, Services, Tables, Call, Chain,
  start, Attempt, text, skipped, raised, send, settle, settle_content, is_fallback_status,
  is_capable, model_for, base_url_of, request_to, exchange, dispatch, fit_of, try_one,
}
use job_squire.Ai.Attempt.Facts.{IsReady}
use job_squire.Ai.Fallback.{
  Answer, answered, failed, go_on, or_next, answer_of, primary_of, backup_of, assigned_step,
  chain_step, ranked_rows, uses_chain, ranked_step, legacy_step, run_steps, finish,
  call_with_fallback,
}
use job_squire.Ai.Fallback.Ranking.{Occurs-ranked_rows, of_ranked_rows}
use job_squire.Ai.Fallback.Distinct.{try_one_effect, effect_tried}

-- A reply that lets the lookup go on: anything but an error of another kind than rate limits,
-- overload and timeouts.
abbrev pub IsTransient : Reply → Type 0
IsTransient (content o) = Unit {0}
IsTransient (http_error none) = ⊥
IsTransient (http_error (some code)) = is_fallback_status code ≡ true
IsTransient timeout = Unit {0}
IsTransient failure = ⊥

module _ (V : Services) (T : Tables) (c : Call) where
  -- A provider that gets requests and answers every one with a text.
  pub record IsWorking (p : Provider) : Type 0 where
    pub ready : IsReady V T c p
    pub endpoint : (p.provider ≡ txt "anthropic") ⊎ (nonempty (base_url_of p) ≡ true)
    pub replies :
        (n : ℕ) (u : Option Text)
        → (t : Text) × (V.post n (request_to V T c p u) ≡ content (some t))

  -- A row that the call can meet.
  abbrev pub IsKnown : Provider → Type 0
  IsKnown q =
      (primary_of T.task_config ≡ some q) ⊎ (backup_of T.task_config ≡ some q) ⊎ Occurs q T.rows

  abbrev IsAnswered : Answer × Chain → Type 0
  IsAnswered x = (t : Text) × (name : Text) × (x.0 ≡ answered t name)

  settle_working :
      (b : Bool) (y : Reply) (s : Chain) (u : Text)
      → y ≡ content (some u)
      → (t : Text) × ((settle V b (y, s)).0 ≡ text t)
  unfolding settle settle_content
  settle_working true y s u e = (V.rehydrate u, rw e)
  settle_working false y s u e = (u, rw e)

  exchange_working :
      (p : Provider) (u : Option Text) (s : Chain)
      → IsWorking p
      → (t : Text) × ((exchange V T c p u s).0 ≡ text t)
  unfolding exchange send
  exchange_working p u s w =
      let (t, e) = w.replies (length s.sent) u in
      settle_working (should_redact_for T.ai_config p) _ _ t e

  dispatch_working :
      (p : Provider) (s : Chain) → IsWorking p → (t : Text) × ((dispatch V T c p s).0 ≡ text t)
  unfolding dispatch
  dispatch_working p s w = elim (Bool-cases (p.provider == txt "anthropic")) [
    | inl e ↦ rw e (exchange_working p none _ w)
    | inr e ↦ rw (e, has_url e w.endpoint) (exchange_working p (some (base_url_of p)) _ w)
  ]
    where
      has_url :
          (p.provider == txt "anthropic") ≡ false
          → (p.provider ≡ txt "anthropic") ⊎ (nonempty (base_url_of p) ≡ true)
          → nonempty (base_url_of p) ≡ true
      has_url e (inl k) = absurd (cc ((==_iff p.provider (txt "anthropic")).1 k))
      has_url e (inr k) = k

  try_one_working :
      (p : Provider) (s : Chain) → IsWorking p → (t : Text) × ((try_one V T c p s).0 ≡ text t)
  unfolding try_one
  try_one_working p s w =
      rw (w.ready.capable, w.ready.has_model, w.ready.fits) (dispatch_working p s w)

  module _ (soft : (n : ℕ) (r : Request) → IsTransient (V.post n r)) where
    settle_soft :
        (b : Bool) (y : Reply) (s : Chain) (e : Error)
        → IsTransient y
        → (settle V b (y, s)).0 ≢ raised e
    unfolding settle settle_content
    settle_soft true (content none) s e h k = cc
    settle_soft false (content none) s e h k = cc
    settle_soft true (content (some t)) s e h k = cc
    settle_soft false (content (some t)) s e h k = cc
    settle_soft b (http_error none) s e h k = h
    settle_soft b (http_error (some code)) s e h k = ground arith
    settle_soft b timeout s e h k = cc
    settle_soft b failure s e h k = h

    dispatch_soft : (p : Provider) (s : Chain) (e : Error) → (dispatch V T c p s).0 ≢ raised e
    unfolding dispatch exchange send
    dispatch_soft p s e = elim (Bool-cases (p.provider == txt "anthropic")) [
      | inl h ↦ rw h (settle_soft _ _ _ e (soft _ _))
      | inr h ↦ elim (Bool-cases (nonempty (base_url_of p))) [
        | inl k ↦ rw (h, k) (settle_soft _ _ _ e (soft _ _))
        | inr k ↦ rw (h, k) (λ m. cc)
      ]
    ]

    try_one_soft : (p : Provider) (s : Chain) (e : Error) → (try_one V T c p s).0 ≢ raised e
    unfolding try_one
    try_one_soft p s e = elim (Bool-cases (is_capable c.is_triage p)) [
      | inr h ↦ rw h (λ m. cc)
      | inl h ↦ elim (Bool-cases (nonempty (model_for c.is_triage p))) [
        | inr k ↦ rw (h, k) (λ m. cc)
        | inl k ↦ elim (Bool-cases (fit_of V T c p).fits) [
          | inr m ↦ rw (h, k, m) (λ m. cc)
          | inl m ↦ rw (h, k, m) (dispatch_soft p s e)
        ]
      ]
    ]

    module _ (p : Provider) (w : IsWorking p)
        (key : (q : Provider) → IsKnown q → q.id ≡ p.id → q ≡ p) where
      -- The step has answered, or it goes on and `p` is still untried.
      abbrev Reaches : Answer × Chain → Type 0
      Reaches x = IsAnswered x ⊎ ((x.0 ≡ go_on) × (contains x.1.tried p.id ≡ false))

      answer_of-Reaches :
          (q : Provider) (x : Attempt × Chain)
          → ((e : Error) → x.0 ≢ raised e)
          → (x.0 ≡ skipped → contains x.1.tried p.id ≡ false)
          → Reaches (answer_of q x)
      unfolding answer_of
      answer_of-Reaches q (text t, s) soft h = inl (t, q.provider, refl)
      answer_of-Reaches q (skipped, s) soft h = inr (refl, h refl)
      answer_of-Reaches q (raised e, s) soft h = absurd (soft e refl)

      attempt-Reaches :
          (q : Provider) (s : Chain)
          → IsKnown q
          → contains s.tried p.id ≡ false
          → Reaches (answer_of q (try_one V T c q s))
      attempt-Reaches q s known h = answer_of-Reaches q (try_one V T c q s) (try_one_soft q s) λ e.
          effect_tried V T c q s (try_one_effect V T c q s) p.id
            (λ same.
              let (t, f) = try_one_working p s w in
              cc (subst (λ x. (try_one V T c x s).0 ≡ skipped) (key q known (sym same)) e, f))
            h

      or_next-Reaches :
          (x : Answer × Chain) (next : Chain → Answer × Chain)
          → Reaches x
          → ((s : Chain) → contains s.tried p.id ≡ false → Reaches (next s))
          → Reaches (or_next x next)
      unfolding or_next
      or_next-Reaches (answered t name, s) next r k = inl (t, name, refl)
      or_next-Reaches (failed e, s) next (inl (t, name, h)) k = absurd (cc)
      or_next-Reaches (failed e, s) next (inr h) k = absurd (cc (h.0))
      or_next-Reaches (go_on, s) next (inl (t, name, h)) k = absurd (cc)
      or_next-Reaches (go_on, s) next (inr h) k = k s h.1

      assigned_step-Reaches :
          (o : Option Provider) (s : Chain)
          → ((q : Provider) → o ≡ some q → IsKnown q)
          → contains s.tried p.id ≡ false
          → Reaches (assigned_step V T c o s)
      unfolding assigned_step
      assigned_step-Reaches none s known h = inr (refl, h)
      assigned_step-Reaches (some q) s known h = elim (Bool-cases q.enabled) [
        | inl k ↦ simp k (attempt-Reaches q s (known q refl) h)
        | inr k ↦ simp k (inr (refl, h))
      ]

      IsAnswered-stays :
          (x : Answer × Chain) (next : Chain → Answer × Chain)
          → IsAnswered x
          → IsAnswered (or_next x next)
      unfolding or_next
      IsAnswered-stays (answered t name, s) next a = (t, name, refl)
      IsAnswered-stays (failed e, s) next (t, name, h) = absurd (cc)
      IsAnswered-stays (go_on, s) next (t, name, h) = absurd (cc)

      or_next_answers :
          (x : Answer × Chain) (next : Chain → Answer × Chain)
          → Reaches x
          → ((s : Chain) → contains s.tried p.id ≡ false → IsAnswered (next s))
          → IsAnswered (or_next x next)
      unfolding or_next
      or_next_answers (answered t name, s) next r k = (t, name, refl)
      or_next_answers (failed e, s) next (inl (t, name, h)) k = absurd (cc)
      or_next_answers (failed e, s) next (inr h) k = absurd (cc (h.0))
      or_next_answers (go_on, s) next (inl (t, name, h)) k = absurd (cc)
      or_next_answers (go_on, s) next (inr h) k = k s h.1

      answer_of_text :
          (q : Provider) (x : Attempt × Chain) (t : Text)
          → x.0 ≡ text t
          → IsAnswered (answer_of q x)
      unfolding answer_of
      answer_of_text q (text u, s) t e = (u, q.provider, refl)
      answer_of_text q (skipped, s) t e = absurd (cc)
      answer_of_text q (raised k, s) t e = absurd (cc)

      working_answers :
          (q : Provider) (s : Chain) → p ≡ q → IsAnswered (answer_of q (try_one V T c q s))
      working_answers q s e =
          let (t, f) = try_one_working p s w in
          answer_of_text q (try_one V T c q s) t (subst (λ x. (try_one V T c x s).0 ≡ text t) e f)

      chain_step_reaches :
          (ps : List Provider) (s : Chain)
          → ((q : Provider) → Occurs q ps → IsKnown q)
          → Occurs p ps
          → contains s.tried p.id ≡ false
          → IsAnswered (chain_step V T c ps s)
      unfolding chain_step
      chain_step_reaches [] s known o h = elim o [ ]
      chain_step_reaches (q ∷ ps) s known (inl e) h =
          rw (subst (λ x. contains s.tried x.id ≡ false) e h, chain_step)
            (IsAnswered-stays (answer_of q (try_one V T c q s)) (chain_step V T c ps)
              (working_answers q s e))
      chain_step_reaches (q ∷ ps) s known (inr o) h = elim (Bool-cases (contains s.tried q.id)) [
        | inl k ↦ rw (k, chain_step) (chain_step_reaches ps s (λ r m. known r (inr m)) o h)
        | inr k ↦
            rw (k, chain_step)
              (or_next_answers (answer_of q (try_one V T c q s)) (chain_step V T c ps)
                (attempt-Reaches q s (known q (inl refl)) h)
                (λ s'. chain_step_reaches ps s' (λ r m. known r (inr m)) o))
      ]

      ranked_step_answers :
          (s : Chain)
          → Occurs p T.rows
          → p.enabled ≡ true
          → uses_chain T.task_config ≡ true
          → contains s.tried p.id ≡ false
          → IsAnswered (ranked_step V T c s)
      unfolding ranked_step
      ranked_step_answers s o e used h = rw used (
          chain_step_reaches (ranked_rows T.rows) s (λ q m. inr (inr (of_ranked_rows q T.rows m)))
            (Occurs-ranked_rows p T.rows o e) h)

      finish_answered :
          (x : Answer × Chain)
          → IsAnswered x
          → (t : Text) × (name : Text) × (finish V T c x ≡ returns (t, name))
      unfolding finish
      finish_answered (answered t name, s) a = (t, name, refl)
      finish_answered (failed e, s) (t, name, h) = absurd (cc)
      finish_answered (go_on, s) (t, name, h) = absurd (cc)

      run_steps_answers :
          Occurs p T.rows
          → p.enabled ≡ true
          → uses_chain T.task_config ≡ true
          → IsAnswered (run_steps V T c)
      unfolding run_steps
      run_steps_answers o e used =
          or_next_answers (assigned_step V T c (primary_of T.task_config) start) _
            (assigned_step-Reaches (primary_of T.task_config) start (λ q h. inl h) refl)
            λ s1 h1.
              or_next_answers (assigned_step V T c (backup_of T.task_config) s1) _
                (assigned_step-Reaches (backup_of T.task_config) s1 (λ q h. inr (inl h)) h1)
                λ s2 h2.
                  IsAnswered-stays (ranked_step V T c s2) (legacy_step V T c T.ai_config)
                    (ranked_step_answers s2 o e used h2)

      -- If no reply is an error beyond rate limits, overload and timeouts, ids tell the known rows from
      -- `p`, and `p` is a working enabled row of the table, then a call that uses the ranked chain
      -- returns a text.
      pub call_with_fallback_succeeds :
          Occurs p T.rows
          → p.enabled ≡ true
          → uses_chain T.task_config ≡ true
          → (t : Text) × (name : Text) × (call_with_fallback V T c ≡ returns (t, name))
      unfolding call_with_fallback
      call_with_fallback_succeeds o e used =
          finish_answered (run_steps V T c) (run_steps_answers o e used)
