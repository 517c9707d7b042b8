-- ===== src/Ai/Fallback/Steps.antt =====
-- Invariants of the lookup: what every attempt keeps, the steps keep.
use job_squire.Base.{
  true, false, ◌≡◌, refl, Option, none, some, List, [], ◌∷◌, All, contains, nat_eq, Bool-cases, inl,
  inr, leb,
}
use job_squire.Ai.Provider.{Provider, AiConfig}
use job_squire.Ai.Attempt.{Services, Tables, Call, Chain, Attempt, text, skipped, raised, try_one}
use job_squire.Ai.Fallback.{
  Answer, answered, failed, go_on, or_next, answer_of, by_rank, ranked_rows, assigned_step,
  chain_step, uses_chain, ranked_step, legacy_with, legacy_step,
}

abbrev pub IsEnabled : Provider → Type 0
IsEnabled p = p.enabled ≡ true

by_rank-IsEnabled :
    (p : Provider) (ps : List Provider)
    → IsEnabled p
    → All IsEnabled ps
    → All IsEnabled (by_rank p ps)
unfolding by_rank
by_rank-IsEnabled p [] e a = (e, tt)
by_rank-IsEnabled p (q ∷ qs) e a = elim (Bool-cases (leb p.rank q.rank)) [
  | inl k ↦ rw k (e, a)
  | inr k ↦ rw k (a.0, by_rank-IsEnabled p qs e a.1)
]

pub ranked_rows-IsEnabled : (ps : List Provider) → All IsEnabled (ranked_rows ps)
unfolding ranked_rows
ranked_rows-IsEnabled [] = tt
ranked_rows-IsEnabled (p ∷ ps) = elim (Bool-cases p.enabled) [
  | inl k ↦ simp k (by_rank-IsEnabled p (ranked_rows ps) k (ranked_rows-IsEnabled ps))
  | inr k ↦ simp k (ranked_rows-IsEnabled ps)
]

pub state-answer_of : (p : Provider) (x : Attempt × Chain) → (answer_of p x).1 ≡ x.1
unfolding answer_of
state-answer_of p (text t, s) = refl
state-answer_of p (skipped, s) = refl
state-answer_of p (raised e, s) = refl

-- After a step that leads to `P`, the next leads to `Q`, and so does stopping.
pub or_next-leads :
    (P Q : Chain → Type 0) (x : Answer × Chain) (next : Chain → Answer × Chain)
    → P x.1
    → ((s : Chain) → P s → Q s)
    → ((s : Chain) → P s → Q (next s).1)
    → Q (or_next x next).1
unfolding or_next
or_next-leads P Q (answered t name, s) next h w k = w s h
or_next-leads P Q (failed e, s) next h w k = w s h
or_next-leads P Q (go_on, s) next h w k = k s h

module _ (P : Chain → Type 0) where
  pub or_next-keeps :
      (x : Answer × Chain) (next : Chain → Answer × Chain)
      → P x.1
      → ((s : Chain) → P s → P (next s).1)
      → P (or_next x next).1
  unfolding or_next
  or_next-keeps (answered t name, s) next h k = h
  or_next-keeps (failed e, s) next h k = h
  or_next-keeps (go_on, s) next h k = k s h

  module _ (V : Services) (T : Tables) (c : Call) where
    -- An attempt at an enabled provider that is not yet among the tried ones keeps `P`.
    abbrev pub Attempts : Type 0
    Attempts =
        (p : Provider)
        → IsEnabled p
        → (s : Chain) → contains s.tried p.id ≡ false
        → P s
        → P (try_one V T c p s).1

    pub chain_step-keeps :
        Attempts
        → (ps : List Provider) → All IsEnabled ps
        → (s : Chain) → P s
        → P (chain_step V T c ps s).1
    unfolding chain_step
    chain_step-keeps step [] a s h = h
    chain_step-keeps step (p ∷ ps) a s h = elim (Bool-cases (contains s.tried p.id)) [
      | inl k ↦ rw (k, chain_step) (chain_step-keeps step ps a.1 s h)
      | inr k ↦
          rw (k, chain_step)
            (or_next-keeps (answer_of p (try_one V T c p s)) (chain_step V T c ps)
              (rw (state-answer_of p (try_one V T c p s)) (step p a.0 s k h))
              (chain_step-keeps step ps a.1))
    ]

    pub ranked_step-keeps : Attempts → (s : Chain) → P s → P (ranked_step V T c s).1
    unfolding ranked_step
    ranked_step-keeps step s h = elim (Bool-cases (uses_chain T.task_config)) [
      | inl k ↦ rw k (chain_step-keeps step (ranked_rows T.rows) (ranked_rows-IsEnabled T.rows) s h)
      | inr k ↦ rw k h
    ]

    pub legacy_step-keeps :
        ((cfg : AiConfig)
          → T.ai_config ≡ some cfg
          → (s : Chain) → P s
          → P (legacy_with V T c cfg s).1)
        → (s : Chain) → P s
        → P (legacy_step V T c T.ai_config s).1
    unfolding legacy_step
    legacy_step-keeps h s k = go T.ai_config refl
      where
        go : (o : Option AiConfig) → T.ai_config ≡ o → P (legacy_step V T c o s).1
        go none e = k
        go (some cfg) e = h cfg e s k

    pub assigned_step-keeps :
        (o : Option Provider) (s : Chain)
        → ((p : Provider) → o ≡ some p → IsEnabled p → P (try_one V T c p s).1)
        → P s
        → P (assigned_step V T c o s).1
    unfolding assigned_step
    assigned_step-keeps none s step h = h
    assigned_step-keeps (some p) s step h = elim (Bool-cases p.enabled) [
      | inl k ↦ simp k (rw state-answer_of (step p refl k))
      | inr k ↦ simp k h
    ]
