-- ===== src/App/Retry.antt =====
-- Database calls that are tried again: app/db_utils.py.
use job_squire.Base.{
  ℕ, zero, suc, ◌≤◌, Bool, true, false, not, ◌||◌, ◌≡◌, refl, ap, ◌∙◌, List, [], ◌∷◌, ◌++◌, Text,
  txt, lower, starts_with, append-nil, Outcome, returns, raises, arith,
}

-- An `OperationalError` with its message, or another exception.
pub data Fault : Type 0 where
  operational : Text → Fault
  other : Fault

-- `p in s`
unfoldable pub is_part : Text → Text → Bool
is_part p [] = starts_with [] p
is_part p (c ∷ s) = starts_with (c ∷ s) p || is_part p s

unfoldable pub is_transient_text : Text → Bool
is_transient_text s =
    is_part (txt "disk i/o error") s
    || is_part (txt "database is locked") s
    || is_part (txt "database is busy") s

-- `_is_transient`, and false for what the handler does not catch.
unfoldable pub is_transient : Fault → Bool
is_transient (operational message) = is_transient_text (lower message)
is_transient other = false

-- `fn` is a call on a session, which it may leave changed, also where it raises.
module _ {S A : Type 0} (fn : S → Outcome Fault A × S) (rollback : S → S) where
  -- What follows the call of an attempt: the loop goes on unless its result ends it.
  unfoldable pub after_call :
      Bool → Outcome Fault A × S → (S → Outcome Fault A × S) → Outcome Fault A × S
  after_call is_last (returns a, s) next = (returns a, s)
  after_call is_last (raises e, s) next = elim (is_last || not (is_transient e)) [
    | true ↦ (raises e, s)
    | false ↦ next (rollback s)
  ]

  -- `with_db_retry` with one attempt and `more` further ones.
  unfoldable pub with_db_retry : ℕ → S → Outcome Fault A × S
  with_db_retry zero s = after_call true (fn s) (λ t. (raises other, t))
  with_db_retry (suc more) s = after_call false (fn s) (λ t. with_db_retry more t)

  -- From the session `s`, the next `n` calls raise transient errors, each with a rollback after it, and the session
  -- is then `t`.
  pub data Flaky : ℕ → S → S → Type 0 where
    stop : {s : S} → Flaky zero s s
    once :
        {n : ℕ} {s t u : S} (e : Fault)
        → fn s ≡ (raises e, t)
        → is_transient e ≡ true
        → Flaky n (rollback t) u
        → Flaky (suc n) s u

  step_on :
      (more : ℕ) (s t : S) (e : Fault)
      → fn s ≡ (raises e, t)
      → is_transient e ≡ true
      → with_db_retry (suc more) s ≡ with_db_retry more (rollback t)
  unfolding with_db_retry after_call
  step_on more s t e f h = rw f (rw (h, after_call) refl)

  last :
      (more : ℕ) (s u : S) (a : A) → fn s ≡ (returns a, u) → with_db_retry more s ≡ (returns a, u)
  unfolding with_db_retry after_call
  last zero s u a f = rw f refl
  last (suc more) s u a f = rw f refl

  -- If `n` calls in a row raise transient errors, each followed by a rollback, and the next call returns, then any
  -- number of attempts above `n` returns what this call returns and leaves the session that it leaves.
  pub with_db_retry_returns :
      (n more : ℕ) (s t u : S) (a : A)
      → Flaky n s t
      → n ≤ more
      → fn t ≡ (returns a, u)
      → with_db_retry more s ≡ (returns a, u)
  with_db_retry_returns _ more s _ u a stop l f = last more s u a f
  with_db_retry_returns (suc n) zero s t u a (once e g h k) l f = absurd (omega (arith, l))
  with_db_retry_returns (suc n) (suc more) s t u a (once {t = v} e g h k) l f =
      step_on more s v e g h
      ∙ with_db_retry_returns n more (rollback v) t u a k (omega (arith, l)) f

  module _ {R : Type 0} (committed pending : S → List R)
      (rollback-pending : (s : S) → pending (rollback s) ≡ [])
      (rollback-committed : (s : S) → committed (rollback s) ≡ committed s)
      (raises-committed : (s t : S) (e : Fault) → fn s ≡ (raises e, t) → committed t ≡ committed s)
      (returns-committed : (s t : S) (a : A)
        → fn s ≡ (returns a, t)
        → committed t ≡ committed s ++ pending s) where
    Flaky-committed : (n : ℕ) (s t : S) → Flaky n s t → committed t ≡ committed s
    Flaky-committed _ s _ stop = refl
    Flaky-committed (suc n) s t (once {t = v} e g h k) =
        Flaky-committed n (rollback v) t k ∙ rollback-committed v ∙ raises-committed s v e g

    Flaky-pending : (n : ℕ) (v t : S) → Flaky n v t → pending v ≡ [] → pending t ≡ []
    Flaky-pending _ v _ stop p = p
    Flaky-pending (suc n) v t (once {t = w} e g h k) p =
        Flaky-pending n (rollback w) t k (rollback-pending w)

    -- Retrying a commit: if a rollback discards the pending rows and keeps the committed ones, and a commit that
    -- returns adds the pending rows to them, then after at least one transient failure the retries return as if the
    -- commit had been made, but the committed rows are those from before: the pending rows are lost.
    pub with_db_retry_loses :
        (n more : ℕ) (s t u : S) (a : A)
        → Flaky (suc n) s t
        → suc n ≤ more
        → fn t ≡ (returns a, u)
        → (with_db_retry more s ≡ (returns a, u)) × (committed u ≡ committed s)
    with_db_retry_loses n more s t u a h l f =
        (with_db_retry_returns (suc n) more s t u a h l f, returns-committed t u a f ∙ rest h)
      where
        rest : Flaky (suc n) s t → committed t ++ pending t ≡ committed s
        rest (once {t = v} e g i k) =
            ap (λ l. committed t ++ l) (Flaky-pending n (rollback v) t k (rollback-pending v))
            ∙ append-nil (committed t)
            ∙ Flaky-committed (suc n) s t h
