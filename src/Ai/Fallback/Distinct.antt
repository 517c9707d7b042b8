-- ===== src/Ai/Fallback/Distinct.antt =====
-- No provider is asked twice in a call.
use job_squire.Base.{
  ℕ, true, false, ◌&&◌, ◌||◌, ◌≡◌, ◌≢◌, inl, inr, refl, ap, Bool, Option, none, some, List, [], ◌∷◌,
  ◌++◌, Text, txt, contains, ◌==◌, nat_eq, list_eq, arith, Bool-cases, if◌then◌else◌, nonempty,
}
use job_squire.Ai.Provider.{Provider, AiConfig}
use job_squire.Ai.Privacy.{redaction_enabled}
use job_squire.Ai.Attempt.{
  Request, Reply, content, http_error, timeout, failure, Services, Tables, Call, Chain, start, add,
  discard, send, is_capable, model_for, base_url_of, request_to, dispatch, fit_of, try_one,
}
use job_squire.Ai.Attempt.Facts.{sent-exchange, tried-exchange}
use job_squire.Ai.Fallback.{
  or_next, primary_of, backup_of, assigned_step, ranked_step, legacy_request, settle_legacy,
  legacy_with, legacy_step, run_steps, requests,
}
use job_squire.Ai.Fallback.Steps.{
  IsEnabled, or_next-leads, or_next-keeps, assigned_step-keeps, ranked_step-keeps,
  legacy_step-keeps,
}
use job_squire.Ai.Fallback.Egress.{sent-legacy_with}

contains-add : (i j : ℕ) (l : List ℕ) → contains (add i l) j ≡ (j == i || contains l j)
unfolding add
contains-add i j l = ground arith

contains-discard :
    (i j : ℕ) (l : List ℕ) → contains (discard i l) j ≡ (if j == i then false else contains l j)
unfolding discard
contains-discard i j [] = ground arith
contains-discard i j (k ∷ l) = ground (arith, contains-discard i j l)

contains-append_end : (l : List ℕ) (i j : ℕ) → contains (l ++ i ∷ []) j ≡ (j == i || contains l j)
contains-append_end [] i j = refl
contains-append_end (k ∷ l) i j = ground (arith, contains-append_end l i j)

-- No number occurs twice.
abbrev pub Distinct : List ℕ → Type 0
Distinct [] = Unit
Distinct (i ∷ is) = (contains is i ≡ false) × Distinct is

Distinct-append_end :
    (l : List ℕ) (i : ℕ) → Distinct l → contains l i ≡ false → Distinct (l ++ i ∷ [])
Distinct-append_end [] i d h = (refl, tt)
Distinct-append_end (k ∷ l) i d h =
    (ground (arith, contains-append_end l i k), Distinct-append_end l i d.1 (ground arith))

-- The ids of the rows that requests went to, in order.
abbrev pub row_ids : List Request → List ℕ
row_ids [] = []
row_ids (r ∷ rs) = elim r.row [ none ↦ row_ids rs | some p ↦ p.id ∷ row_ids rs ]

row_ids-append_some :
    (rs : List Request) (r : Request) (p : Provider)
    → r.row ≡ some p
    → row_ids (rs ++ r ∷ []) ≡ row_ids rs ++ p.id ∷ []
row_ids-append_some [] r p e = simp e
row_ids-append_some (q ∷ rs) r p e = ground (arith, row_ids-append_some rs r p e)

row_ids-append_none :
    (rs : List Request) (r : Request) → r.row ≡ none → row_ids (rs ++ r ∷ []) ≡ row_ids rs
row_ids-append_none [] r e = simp e
row_ids-append_none (q ∷ rs) r e = ground (arith, row_ids-append_none rs r e)

-- The providers asked are different, and are among the tried ones.
record IsOnce (s : Chain) : Type 0 where
  distinct : Distinct (row_ids s.sent)
  known : (i : ℕ) → contains s.tried i ≡ false → contains (row_ids s.sent) i ≡ false

module _ (V : Services) (T : Tables) (c : Call) (p : Provider) (s : Chain) where
  -- What an attempt does to the two lists.
  pub data Effect (t : Chain) : Type 0 where
    idle : t.sent ≡ s.sent → t.tried ≡ s.tried → Effect t
    undone : t.sent ≡ s.sent → t.tried ≡ discard p.id (add p.id s.tried) → Effect t
    asked :
        (u : Option Text)
        → t.sent ≡ s.sent ++ request_to V T c p u ∷ []
        → t.tried ≡ add p.id s.tried
        → Effect t

  dispatch_effect : Effect (dispatch V T c p s).1
  unfolding dispatch
  dispatch_effect = elim (Bool-cases (p.provider == txt "anthropic")) [
    | inl e ↦ asked none (rw e (sent-exchange V T c p _ _)) (rw e (tried-exchange V T c p _ _))
    | inr e ↦ elim (Bool-cases (nonempty (base_url_of p))) [
      | inl k ↦
          asked (some (base_url_of p)) (rw (e, k) (sent-exchange V T c p _ _))
            (rw (e, k) (tried-exchange V T c p _ _))
      | inr k ↦ undone (rw (e, k)) (rw (e, k))
    ]
  ]

  pub try_one_effect : Effect (try_one V T c p s).1
  unfolding try_one
  try_one_effect = elim (Bool-cases (is_capable c.is_triage p)) [
    | inr e ↦ idle (rw e) (rw e)
    | inl e ↦ elim (Bool-cases (nonempty (model_for c.is_triage p))) [
      | inr k ↦ idle (rw (e, k)) (rw (e, k))
      | inl k ↦ elim (Bool-cases (fit_of V T c p).fits) [
        | inr m ↦ idle (rw (e, k, m)) (rw (e, k, m))
        | inl m ↦ rw (e, k, m) dispatch_effect
      ]
    ]
  ]

  effect-IsOnce : {t : Chain} → Effect t → contains s.tried p.id ≡ false → IsOnce s → IsOnce t
  unfolding request_to
  effect-IsOnce (idle es et) h o = record {
    distinct = rw es o.distinct;
    known = λ i. rw (es, et) (o.known i);
  }
  effect-IsOnce (undone es et) h o = record {
    distinct = rw es o.distinct;
    known = λ i g. rw es (
        o.known i (
          ground (
            arith,
            ap (λ l. contains l i) et,
            contains-discard p.id i (add p.id s.tried),
            contains-add p.id i s.tried,
          )));
  }
  effect-IsOnce (asked u es et) h o = record {
    distinct =
        rw (es, row_ids-append_some s.sent (request_to V T c p u) p refl)
          (Distinct-append_end _ p.id o.distinct (o.known p.id h));
    known = λ i g.
        rw (es, row_ids-append_some s.sent (request_to V T c p u) p refl, contains-append_end)
          (ground (arith, ap (λ l. contains l i) et, contains-add p.id i s.tried, o.known i));
  }

  pub effect_tried :
      {t : Chain}
      → Effect t
      → (j : ℕ) → j ≢ p.id
      → contains s.tried j ≡ false
      → contains t.tried j ≡ false
  effect_tried (idle es et) j n h = rw et h
  effect_tried (undone es et) j n h = rw (et, contains-discard, contains-add) (ground arith)
  effect_tried (asked u es et) j n h = rw (et, contains-add) (ground arith)

module _ (V : Services) (T : Tables) (c : Call) where
  attempt-IsOnce :
      (p : Provider)
      → IsEnabled p
      → (s : Chain) → contains s.tried p.id ≡ false
      → IsOnce s
      → IsOnce (try_one V T c p s).1
  attempt-IsOnce p e s h o = effect-IsOnce V T c p s (try_one_effect V T c p s) h o

  tried-settle_legacy :
      (b : Bool) (x : Reply × Chain) → (settle_legacy V T c b x).1.tried ≡ x.1.tried
  unfolding settle_legacy
  tried-settle_legacy b (content none, s) = refl
  tried-settle_legacy true (content (some t), s) = refl
  tried-settle_legacy false (content (some t), s) = refl
  tried-settle_legacy b (http_error code, s) = refl
  tried-settle_legacy b (timeout, s) = refl
  tried-settle_legacy b (failure, s) = refl

  tried-legacy_with : (cfg : AiConfig) (s : Chain) → (legacy_with V T c cfg s).1.tried ≡ s.tried
  unfolding legacy_with send
  tried-legacy_with cfg s =
      let r = legacy_request V T c cfg in
      elim (Bool-cases (
        cfg.fallback_to_anthropic
        && nonempty cfg.api_key_enc
        && nonempty r.api_key
        && nonempty r.model)) [
          | inl k ↦ rw k (tried-settle_legacy (redaction_enabled T.ai_config) (send V r s))
          | inr k ↦ rw k
        ]

  ids-legacy_with :
      (cfg : AiConfig) (s : Chain) → row_ids (legacy_with V T c cfg s).1.sent ≡ row_ids s.sent
  unfolding legacy_request
  ids-legacy_with cfg s = elim (sent-legacy_with V T c cfg s) [
    | inl e ↦ rw e
    | inr e ↦ rw e (row_ids-append_none s.sent (legacy_request V T c cfg) refl)
  ]

  legacy_with-IsOnce : (cfg : AiConfig) (s : Chain) → IsOnce s → IsOnce (legacy_with V T c cfg s).1
  legacy_with-IsOnce cfg s o = record {
    distinct = rw ids-legacy_with o.distinct;
    known = λ i. rw (ids-legacy_with, tried-legacy_with) (o.known i);
  }

  abbrev BackupUntried : Chain → Type 0
  BackupUntried s =
      IsOnce s × ((q : Provider) → backup_of T.task_config ≡ some q → contains s.tried q.id ≡ false)

  abbrev Differ : Type 0
  Differ =
      (p q : Provider)
      → primary_of T.task_config ≡ some p
      → backup_of T.task_config ≡ some q
      → q.id ≢ p.id

  run_steps-IsOnce : Differ → IsOnce (run_steps V T c).1
  unfolding run_steps
  run_steps-IsOnce differ =
      or_next-leads BackupUntried IsOnce (assigned_step V T c (primary_of T.task_config) start) _
        (assigned_step-keeps BackupUntried V T c (primary_of T.task_config) start
          (λ p e k. (
            attempt-IsOnce p k start refl fresh,
            λ q b.
                effect_tried V T c p start (try_one_effect V T c p start) q.id (differ p q e b)
                  refl,
          ))
          (fresh, λ q b. refl))
        (λ s h. h.0) from_backup
    where
      fresh : IsOnce start
      fresh = record { distinct = tt; known = λ i _. refl }

      from_ranked :
          (s : Chain)
          → IsOnce s
          → IsOnce (or_next (ranked_step V T c s) (legacy_step V T c T.ai_config)).1
      from_ranked s o =
          or_next-keeps IsOnce (ranked_step V T c s) (legacy_step V T c T.ai_config)
            (ranked_step-keeps IsOnce V T c attempt-IsOnce s o)
            (legacy_step-keeps IsOnce V T c (λ cfg _ s. legacy_with-IsOnce cfg s))

      from_backup :
          (s : Chain)
          → BackupUntried s
          → IsOnce
              (or_next
                (assigned_step V T c (backup_of T.task_config) s)
                (λ s2. or_next (ranked_step V T c s2) (legacy_step V T c T.ai_config))).1
      from_backup s h =
          or_next-keeps IsOnce (assigned_step V T c (backup_of T.task_config) s) _
            (assigned_step-keeps IsOnce V T c (backup_of T.task_config) s
              (λ p e k. attempt-IsOnce p k s (h.1 p e) h.0) h.0)
            from_ranked

  -- If the task's primary and backup are not the same row, then no row is asked twice in a call.
  pub requests-Distinct :
      ((p q : Provider)
        → primary_of T.task_config ≡ some p
        → backup_of T.task_config ≡ some q
        → q.id ≢ p.id)
      → Distinct (row_ids (requests V T c))
  unfolding requests
  requests-Distinct differ = (run_steps-IsOnce differ).distinct
