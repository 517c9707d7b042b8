-- ===== src/Ai/Triage/Writes.antt =====
-- What a batch writes to the table, and which jobs the next page shows.
use mathlib.Core.Path.{subst}
use mathlib.Core.Option.{some-injective}
use job_squire.Base.{
  ℕ, ◌≤◌, Bool, true, false, ◌≡◌, refl, sym, ◌∙◌, ==_iff, inl, inr, Option, none, some, List, [],
  ◌∷◌, Text, contains, ◌==◌, nat_eq, All, if◌then◌else◌, Bool-cases,
}
use job_squire.Ai.Triage.{
  Job, Item, Scored, Pass, Report, find_job, collect, write, write_all, finish, run_page,
  run_triage_batch, page,
}
use job_squire.Ai.Triage.Sound.{IsSound, collected-IsSound}
use job_squire.Ai.Triage.Missing.{ids, DistinctIds, contains-find_job}

-- The row `j` with another score and reason.
abbrev pub rescored : Job → ℕ → Text → Job
rescored j score reason = record j { ai_fit_score = some score; ai_fit_reason = reason }

-- The row of id `i` after one write.
abbrev touch : ℕ → Scored → Option Job → Option Job
touch i p none = none
touch i p (some j) = if p.id == i then some (rescored j p.score p.reason) else some j

find_job-write :
    (i : ℕ) (p : Scored) (rows : List Job) → find_job i (write p rows) ≡ touch i p (find_job i rows)
unfolding find_job write
find_job-write i p [] = refl
find_job-write i p (k ∷ rows) = elim (Bool-cases (p.id == k.id)) [
  | inl h ↦ simp h (elim (Bool-cases (i == k.id)) [
    | inl g ↦ simp g (rw ((==_iff p.id i).1 ((==_iff p.id k.id).0 h ∙ sym ((==_iff i k.id).0 g))))
    | inr g ↦ simp g (find_job-write i p rows)
  ])
  | inr h ↦ simp h (elim (Bool-cases (i == k.id)) [
    | inl g ↦ simp g (rw (differ ((==_iff i k.id).0 g) h))
    | inr g ↦ simp g (find_job-write i p rows)
  ])
]
  where
    differ : i ≡ k.id → (p.id == k.id) ≡ false → (p.id == i) ≡ false
    differ e h = rw e h

-- A row keeps all but its score and reason, and these change only to a score between 1 and 10, for a
-- row of the page.
pub data Kept (jobs : List Job) (j : Job) : Job → Type 0 where
  same : Kept jobs j j
  changed :
      (score : ℕ) (reason : Text)
      → 1 ≤ score
      → score ≤ 10
      → contains (ids jobs) j.id ≡ true
      → Kept jobs j (rescored j score reason)

-- A row found under an id before the batch is found under it after, kept.
pub record Keeps (jobs : List Job) (i : ℕ) (rows after : List Job) : Type 0 where
  pub absent : find_job i rows ≡ none → find_job i after ≡ none
  pub present :
      (j : Job)
      → find_job i rows ≡ some j
      → (j' : Job) × (find_job i after ≡ some j') × Kept jobs j j'

module _ (jobs : List Job) where
  pub Keeps-same : (i : ℕ) (rows : List Job) → Keeps jobs i rows rows
  Keeps-same i rows = record { absent = λ e. e; present = λ j e. (j, e, same) }

  Kept-write :
      (i : ℕ) (p : Scored) (j k : Job) (rows : List Job)
      → (1 ≤ p.score) × (p.score ≤ 10)
      → contains (ids jobs) p.id ≡ true
      → j.id ≡ i
      → Kept jobs j k
      → find_job i rows ≡ some k
      → (j' : Job) × (find_job i (write p rows) ≡ some j') × Kept jobs j j'
  Kept-write i p j k rows b m own keep e = elim (Bool-cases (p.id == i)) [
    | inl h ↦ (
      rescored k p.score p.reason,
      rw (find_job-write, e) (rw h),
      again keep (changed p.score p.reason b.0 b.1 (rw (own ∙ sym ((==_iff p.id i).0 h)) m)),
    )
    | inr h ↦ (k, rw (find_job-write, e) (rw h), keep)
  ]
    where
      again :
          {k' : Job}
          → Kept jobs j k'
          → Kept jobs j (rescored j p.score p.reason)
          → Kept jobs j (rescored k' p.score p.reason)
      again same c = c
      again (changed score reason x y z) c = c

  pub Keeps-write_all :
      (ps : List Scored) (i : ℕ) (rows after : List Job)
      → All (λ (p : Scored). (1 ≤ p.score) × (p.score ≤ 10)) ps
      → All (λ (p : Scored). contains (ids jobs) p.id ≡ true) ps
      → Keeps jobs i rows after
      → Keeps jobs i rows (write_all ps after)
  unfolding write_all
  Keeps-write_all [] i rows after b m v = v
  Keeps-write_all (p ∷ ps) i rows after b m v =
      Keeps-write_all ps i rows (write p after) b.1 m.1 (record {
        absent = λ e. rw (find_job-write, v.absent e);
        present = λ j e.
            let (k, f, keep) = v.present j e in
            Kept-write i p j k after b.0 m.0 (contains-find_job i j rows e).0 keep f;
      })

module _ (reply : ℕ → List Job → Option (List Item)) (blocked : Option Text) (commits : Bool)
    (offset limit : ℕ) (rows : List Job) where
  finish-Keeps :
      (jobs : List Job) (s : Pass) (i : ℕ)
      → IsSound jobs s
      → Keeps jobs i rows (finish reply blocked commits offset limit rows jobs s).1
  unfolding finish
  finish-Keeps jobs s i v = elim (Bool-cases commits) [
    | inl h ↦
        rw h (
          Keeps-write_all jobs s.pending i rows rows v.in_range v.in_batch (Keeps-same jobs i rows))
    | inr h ↦ rw h (Keeps-same jobs i rows)
  ]

  run_page-Keeps :
      (jobs : List Job) (why : Option Text) (r : Report) (after : List Job) (i : ℕ)
      → DistinctIds jobs
      → run_page reply blocked commits offset limit rows jobs why ≡ some (r, after)
      → Keeps jobs i rows after
  unfolding run_page
  run_page-Keeps [] why r after i d e =
      subst (λ (x : Report × List Job). Keeps [] i rows x.1) (some-injective _ (r, after) e)
        (Keeps-same [] i rows)
  run_page-Keeps (j ∷ jobs) (some why) r after i d e =
      subst (λ (x : Report × List Job). Keeps (j ∷ jobs) i rows x.1) (some-injective _ (r, after) e)
        (Keeps-same (j ∷ jobs) i rows)
  run_page-Keeps (j ∷ jobs) none r after i d e = go (collect (j ∷ jobs) reply) refl e
    where
      go :
          (o : Option Pass)
          → collect (j ∷ jobs) reply ≡ o
          → run_page reply blocked commits offset limit rows (j ∷ jobs) none ≡ some (r, after)
          → Keeps (j ∷ jobs) i rows after
      go none q h = absurd (cc (rw (q, run_page) at h))
      go (some s) q h =
          subst (λ (x : Report × List Job). Keeps (j ∷ jobs) i rows x.1)
            (some-injective _ (r, after) (rw (q, run_page) at h))
            (finish-Keeps (j ∷ jobs) s i (collected-IsSound (j ∷ jobs) d reply s q))

  -- Whatever the replies say, a batch that reports adds and removes no id of the table, and it changes
  -- a row only in its score and reason, to a score between 1 and 10, and only if the page has its id.
  pub run_triage_batch_writes :
      (r : Report) (after : List Job) (i : ℕ)
      → DistinctIds (page offset limit rows)
      → run_triage_batch reply blocked commits offset limit rows ≡ some (r, after)
      → Keeps (page offset limit rows) i rows after
  unfolding run_triage_batch
  run_triage_batch_writes r after i d e =
      run_page-Keeps (page offset limit rows) blocked r after i d e
