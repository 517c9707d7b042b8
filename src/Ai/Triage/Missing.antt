-- ===== src/Ai/Triage/Missing.antt =====
-- The jobs of a page that are not scored yet, and what a list of results says of a page.
use job_squire.Base.{
  ℕ, suc, ◌+◌, ◌≤◌, true, false, ◌≡◌, refl, ap, inl, inr, some, none, List, [], ◌∷◌, ◌++◌, length,
  contains, ◌==◌, ==_iff, ==_refl, nat_eq, if◌then◌else◌, All, arith, ◌⊎◌, keeps_if, Bool-cases,
  Text,
}
use job_squire.Ai.Triage.{Job, Result, find_job, missing, unanswered, unanswered_all}

abbrev pub ids : List Job → List ℕ
ids [] = []
ids (j ∷ jobs) = j.id ∷ ids jobs

-- No id stands twice.
abbrev pub DistinctIds : List Job → Type 0
DistinctIds [] = Unit
DistinctIds (j ∷ jobs) = (contains (ids jobs) j.id ≡ false) × DistinctIds jobs

pub missing-nil : (jobs : List Job) → missing [] jobs ≡ jobs
unfolding missing
missing-nil [] = refl
missing-nil (j ∷ jobs) = ap (λ l. j ∷ l) (missing-nil jobs)

missing-absent :
    (i : ℕ) (applied : List ℕ) (jobs : List Job)
    → contains (ids jobs) i ≡ false
    → missing (i ∷ applied) jobs ≡ missing applied jobs
unfolding missing
missing-absent i applied [] h = refl
missing-absent i applied (j ∷ jobs) h = ground (arith, missing-absent i applied jobs)

pub contains-find_job :
    (i : ℕ) (j : Job) (jobs : List Job)
    → find_job i jobs ≡ some j
    → (j.id ≡ i) × (contains (ids jobs) i ≡ true)
unfolding find_job
contains-find_job i j [] h = absurd (cc)
contains-find_job i j (k ∷ jobs) h = ground (arith, contains-find_job i j jobs)

-- Taking a new id of the jobs leaves one job less to ask for.
pub missing-cons :
    (i : ℕ) (applied : List ℕ) (jobs : List Job)
    → DistinctIds jobs
    → contains applied i ≡ false
    → contains (ids jobs) i ≡ true
    → length (missing (i ∷ applied) jobs) + 1 ≡ length (missing applied jobs)
unfolding missing
missing-cons i applied [] d n h = absurd (cc)
missing-cons i applied (j ∷ jobs) d n h =
    ground (arith, missing-cons i applied jobs d.1 n, missing-absent i applied jobs)

-- How often a number stands in a list.
abbrev pub tally : ℕ → List ℕ → ℕ
tally i [] = 0
tally i (k ∷ ks) = let rest = tally i ks in if i == k then suc rest else rest

abbrev pub result_ids : List Result → List ℕ
result_ids [] = []
result_ids (r ∷ rs) = r.id ∷ result_ids rs

-- The number of results that are ok.
abbrev pub successes : List Result → ℕ
successes [] = 0
successes (r ∷ rs) = let rest = successes rs in if r.ok then suc rest else rest

-- A result is ok and has a score between 1 and 10, or is not ok and has none.
abbrev pub HasScore : Result → Type 0
HasScore r =
    ((n : ℕ) × (r.score ≡ some n) × (r.ok ≡ true) × ((1 ≤ n) × (n ≤ 10)))
    ⊎ ((r.score ≡ none) × (r.ok ≡ false))

-- A result names a job of the page, with its title and company.
abbrev pub IsFaithful : List Job → Result → Type 0
IsFaithful jobs r =
    (j : Job) × (find_job r.id jobs ≡ some j)
    × (r.title ≡ j.title)
    × (r.company ≡ j.company)
    × HasScore r

-- Scoring a new id of the jobs takes that id, and no other, from the missing ones.
pub tally-missing :
    (i x : ℕ) (applied : List ℕ) (jobs : List Job)
    → DistinctIds jobs
    → contains applied x ≡ false
    → contains (ids jobs) x ≡ true
    → tally i (x ∷ ids (missing (x ∷ applied) jobs)) ≡ tally i (ids (missing applied jobs))
unfolding missing
tally-missing i x applied [] d n h = absurd (cc)
tally-missing i x applied (j ∷ jobs) d n h =
    ground (arith, tally-missing i x applied jobs d.1 n, missing-absent x applied jobs)

pub tally-append :
    (i : ℕ) (rs ts : List Result)
    → tally i (result_ids (rs ++ ts)) ≡ tally i (result_ids rs) + tally i (result_ids ts)
tally-append i [] ts = omega arith
tally-append i (r ∷ rs) ts = ground (arith, tally-append i rs ts)

pub successes-append : (rs ts : List Result) → successes (rs ++ ts) ≡ successes rs + successes ts
successes-append [] ts = omega arith
successes-append (r ∷ rs) ts = ground (arith, successes-append rs ts)

pub result_ids-unanswered_all :
    (why : Text) (jobs : List Job) → result_ids (unanswered_all why jobs) ≡ ids jobs
unfolding unanswered_all unanswered
result_ids-unanswered_all why [] = refl
result_ids-unanswered_all why (j ∷ jobs) = ap (λ l. j.id ∷ l) (result_ids-unanswered_all why jobs)

pub successes-unanswered_all :
    (why : Text) (jobs : List Job) → successes (unanswered_all why jobs) ≡ 0
unfolding unanswered_all unanswered
successes-unanswered_all why [] = refl
successes-unanswered_all why (j ∷ jobs) = successes-unanswered_all why jobs

All-missing :
    (P : Job → Type 0) (applied : List ℕ) (jobs : List Job)
    → All P jobs
    → All P (missing applied jobs)
unfolding missing
All-missing P applied [] h = tt
All-missing P applied (j ∷ jobs) h =
    keeps_if (All P) (contains applied j.id) _ _ (All-missing P applied jobs h.1)
      (h.0, All-missing P applied jobs h.1)

find_job-skip :
    (j : Job) (jobs ks : List Job)
    → contains (ids jobs) j.id ≡ false
    → All (λ (k : Job). find_job k.id jobs ≡ some k) ks
    → All (λ (k : Job). find_job k.id (j ∷ jobs) ≡ some k) ks
unfolding find_job
find_job-skip j jobs [] n h = tt
find_job-skip j jobs (k ∷ ks) n h =
    (here (Bool-cases (k.id == j.id)), find_job-skip j jobs ks n h.1)
  where
    here : ((k.id == j.id) ≡ true) ⊎ ((k.id == j.id) ≡ false) → find_job k.id (j ∷ jobs) ≡ some k
    here (inl e) =
        let same : k.id ≡ j.id = (==_iff k.id j.id).0 e in
        let known = (contains-find_job k.id k jobs h.0).1 in
        absurd (cc (ap (contains (ids jobs)) same, known, n))
    here (inr e) = rw (e, find_job) h.0

-- Where no id stands twice, each job is found under its id.
find_job_self :
    (jobs : List Job) → DistinctIds jobs → All (λ (k : Job). find_job k.id jobs ≡ some k) jobs
unfolding find_job
find_job_self [] d = tt
find_job_self (j ∷ jobs) d =
    (rw (==_refl j.id) refl, find_job-skip j jobs jobs d.0 (find_job_self jobs d.1))

unanswered_found :
    (why : Text) (jobs ks : List Job)
    → All (λ (k : Job). find_job k.id jobs ≡ some k) ks
    → All (IsFaithful jobs) (unanswered_all why ks)
unfolding unanswered_all unanswered
unanswered_found why jobs [] h = tt
unanswered_found why jobs (k ∷ ks) h =
    ((k, h.0, refl, refl, inr (refl, refl)), unanswered_found why jobs ks h.1)

-- The results for the missing jobs are faithful.
pub unanswered_all-IsFaithful :
    (why : Text) (applied : List ℕ) (jobs : List Job)
    → DistinctIds jobs
    → All (IsFaithful jobs) (unanswered_all why (missing applied jobs))
unanswered_all-IsFaithful why applied jobs d =
    unanswered_found why jobs (missing applied jobs)
      (All-missing (λ (k : Job). find_job k.id jobs ≡ some k) applied jobs (find_job_self jobs d))

pub unanswered_page :
    (why : Text) (jobs : List Job)
    → DistinctIds jobs
    → All (IsFaithful jobs) (unanswered_all why jobs)
unanswered_page why jobs d = unanswered_found why jobs jobs (find_job_self jobs d)
