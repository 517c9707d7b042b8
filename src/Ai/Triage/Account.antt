-- ===== src/Ai/Triage/Account.antt =====
-- Every job of a page is reported once, as scored or as failed.
use job_squire.Base.{
  ◌∙◌, ℕ, suc, ◌+◌, Bool, ◌≡◌, refl, ap, Option, none, some, List, [], ◌∷◌, Text, length,
  length-append, nat_eq, All, All-append, arith, txt,
}
use mathlib.Core.Path.{subst}
use mathlib.Core.Option.{some-injective}
use job_squire.Ai.Triage.Sound.{IsSound, collected-IsSound}
use job_squire.Ai.Triage.Missing.{
  ids, DistinctIds, tally, result_ids, successes, IsFaithful, tally-append, successes-append,
  result_ids-unanswered_all, successes-unanswered_all, unanswered_all-IsFaithful, unanswered_page,
}
use job_squire.Ai.Triage.{
  Job, Item, Pass, Report, missing, collect, unanswered_all, finish, run_page, run_triage_batch,
  page,
}

length-unanswered_all :
    (why : Text) (jobs : List Job) → length (unanswered_all why jobs) ≡ length jobs
unfolding unanswered_all
length-unanswered_all why [] = refl
length-unanswered_all why (j ∷ jobs) = ap suc (length-unanswered_all why jobs)

-- A report accounts for the jobs of a page: each id of the page stands in as many results as jobs, and no other stands
-- in one; a result has the title and company of its job, and is ok with a score or not ok without one; the ok results
-- are those counted as scored.
abbrev pub Accounts : ℕ → List Job → Report → Type 0
Accounts offset jobs r =
    ((i : ℕ) → tally i (result_ids r.results) ≡ tally i (ids jobs))
    × All (IsFaithful jobs) r.results
    × (successes r.results ≡ r.scored)
    × (r.scored + r.failed ≡ length jobs)
    × (length r.results ≡ length jobs)
    × (r.next_offset ≡ offset + length jobs)

module _ (reply : ℕ → List Job → Option (List Item)) (blocked : Option Text) (commits : Bool)
    (offset limit : ℕ) (rows : List Job) where
  finish-Accounts :
      (jobs : List Job) (s : Pass)
      → DistinctIds jobs
      → IsSound jobs s
      → Accounts offset jobs (finish reply blocked commits offset limit rows jobs s).0
  unfolding finish
  finish-Accounts jobs s d v =
      let left = missing s.applied_ids jobs in
      let why = txt "not returned by AI" in
      (
        λ i.
            tally-append i s.results (unanswered_all why left)
            ∙ (ap (λ l. tally i (result_ids s.results) + tally i l)
                  (result_ids-unanswered_all why left)
                ∙ v.answered i),
        All-append (IsFaithful jobs) s.results (unanswered_all why left) v.faithful
            (unanswered_all-IsFaithful why s.applied_ids jobs d),
        omega (
          arith,
          v.succeeded,
          successes-append s.results (unanswered_all why left),
          successes-unanswered_all why left,
        ),
        v.account,
        omega (
          arith,
          v.account,
          v.reported,
          length-append {0} s.results,
          length-unanswered_all (txt "not returned by AI") (missing s.applied_ids jobs),
        ),
        refl,
      )

  run_page-Accounts :
      (jobs : List Job) (why : Option Text) (r : Report) (after : List Job)
      → DistinctIds jobs
      → run_page reply blocked commits offset limit rows jobs why ≡ some (r, after)
      → Accounts offset jobs r
  unfolding run_page
  run_page-Accounts [] why r after d e =
      subst (λ (x : Report × List Job). Accounts offset [] x.0) (some-injective _ (r, after) e)
        ((λ i. refl), tt, refl, omega arith, refl, omega arith)
  run_page-Accounts (j ∷ jobs) (some why) r after d e =
      subst (λ (x : Report × List Job). Accounts offset (j ∷ jobs) x.0)
        (some-injective _ (r, after) e)
        (
          (λ i. ap (tally i) (result_ids-unanswered_all why (j ∷ jobs))),
          unanswered_page why (j ∷ jobs) d,
          successes-unanswered_all why (j ∷ jobs),
          omega arith,
          length-unanswered_all why (j ∷ jobs),
          refl,
        )
  run_page-Accounts (j ∷ jobs) none r after d e = go (collect (j ∷ jobs) reply) refl e
    where
      go :
          (o : Option Pass)
          → collect (j ∷ jobs) reply ≡ o
          → run_page reply blocked commits offset limit rows (j ∷ jobs) none ≡ some (r, after)
          → Accounts offset (j ∷ jobs) r
      go none q h = absurd (cc (rw (q, run_page) at h))
      go (some s) q h =
          subst (λ (x : Report × List Job). Accounts offset (j ∷ jobs) x.0)
            (some-injective _ (r, after) (rw (q, run_page) at h))
            (finish-Accounts (j ∷ jobs) s d (collected-IsSound (j ∷ jobs) d reply s q))

  -- Whenever a batch reports, on any page of jobs with different ids and whatever the replies: every id of the page
  -- stands in one result and no other id in any, each result has the title and company of its job, and is ok with a
  -- score between 1 and 10 or not ok without a score, the ok results are as many as the count of scored jobs, that and
  -- the count of failed jobs add up to the jobs of the page, and the next offset lies behind the page.
  pub run_triage_batch-Accounts :
      (r : Report) (after : List Job)
      → DistinctIds (page offset limit rows)
      → run_triage_batch reply blocked commits offset limit rows ≡ some (r, after)
      → Accounts offset (page offset limit rows) r
  unfolding run_triage_batch
  run_triage_batch-Accounts r after d e =
      run_page-Accounts (page offset limit rows) blocked r after d e
