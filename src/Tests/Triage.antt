-- ===== src/Tests/Triage.antt =====
-- A page of three unscored jobs: the first reply scores one of them twice and a foreign job, and the
-- second reply fails; the third scores another job.
use job_squire.Base.{
  ℕ, zero, suc, true, false, ◌≡◌, refl, Option, none, some, List, [], ◌∷◌, txt, list_eq, nat_eq,
  bool_eq, option_eq, strip,
}
use job_squire.Base.Int.{pos, negsuc}
use job_squire.Ai.Triage.{
  Job, not_a_number, integer, Item, entry, Report, clamp_score, find_job, is_unscored, unscored,
  page, missing, and_then, accept, apply_scored, apply, count, apply_all, hear, ask, ask_chunks,
  ask_each, retry_missing, collect, unanswered, unanswered_all, write, write_all, finish, run_page,
  run_triage_batch,
}
use job_squire.Base.{returns}
use job_squire.Ai.AutoTriage.{run_auto_triage}
use job_squire.Ai.AutoTriage.Scores.{Ends, run_auto_triage-Ends}
use job_squire.Ai.Triage.Account.{Accounts, run_triage_batch-Accounts}
use job_squire.Ai.Triage.Writes.{Keeps, run_triage_batch_writes}

abbrev job : ℕ → Option ℕ → Job
job i score = record {
  id = i;
  title = txt "T";
  company = txt "C";
  status = txt "Saved";
  ai_fit_score = score;
  ai_fit_reason = [];
}

abbrev rows : List Job
rows = job 1 none ∷ job 2 (some 7) ∷ job 3 (some 0) ∷ job 4 none ∷ []

abbrev reply : ℕ → List Job → Option (List Item)
reply zero jobs = some (
    entry (integer (pos 1)) (integer (pos 12)) (some (txt " good "))
    ∷ entry (integer (pos 1)) (integer (pos 3)) (some [])
    ∷ entry (integer (pos 2)) (integer (pos 1)) (some [])
    ∷ entry not_a_number (integer (pos 1)) (some [])
    ∷ [])
reply (suc zero) jobs = none
reply (suc (suc n)) jobs = some (entry (integer (pos 3)) (integer (negsuc 4)) (some []) ∷ [])

batch : Option (Report × List Job)
unfolding clamp_score find_job is_unscored unscored page missing and_then accept apply_scored apply
    count apply_all hear ask ask_chunks ask_each retry_missing collect unanswered unanswered_all
    write write_all finish run_page run_triage_batch list_eq nat_eq bool_eq option_eq strip
batch = run_triage_batch reply none true 0 3 rows

abbrev scored_rows : List Job
scored_rows =
    record {
      id = 1;
      title = txt "T";
      company = txt "C";
      status = txt "Saved";
      ai_fit_score = some 10;
      ai_fit_reason = txt "good";
    }
    ∷ job 2 (some 7)
    ∷ job 3 (some 1)
    ∷ job 4 none
    ∷ []

abbrev report : Report
report = record {
  results =
      record {
        id = 1;
        title = txt "T";
        company = txt "C";
        score = some 10;
        reason = txt "good";
        ok = true;
      }
      ∷ record {
        id = 3;
        title = txt "T";
        company = txt "C";
        score = some 1;
        reason = [];
        ok = true;
      }
      ∷ record {
        id = 4;
        title = txt "T";
        company = txt "C";
        score = none;
        reason = txt "not returned by AI";
        ok = false;
      }
      ∷ [];
  scored = 2;
  failed = 1;
  total_remaining = 1;
  next_offset = 3;
}

batch_scores_two : batch ≡ some (report, scored_rows)
unfolding batch
batch_scores_two = refl

run_triage_batch-Accounts_example : Accounts 0 (page 0 3 rows) report
unfolding batch
run_triage_batch-Accounts_example =
    run_triage_batch-Accounts reply none true 0 3 rows report scored_rows (refl, (refl, (refl, tt)))
      refl

run_triage_batch_writes_example : Keeps (page 0 3 rows) 3 rows scored_rows
unfolding batch
run_triage_batch_writes_example =
    run_triage_batch_writes reply none true 0 3 rows report scored_rows 3 (refl, (refl, (refl, tt)))
      refl

run_auto_triage-Ends_example : Ends rows (
    run_auto_triage
      (λ n. true)
      (λ n jobs. returns (entry (integer (pos 2)) (integer (pos 12)) (some []) ∷ []))
      rows)
run_auto_triage-Ends_example =
    run_auto_triage-Ends (λ n. true)
      (λ n jobs. returns (entry (integer (pos 2)) (integer (pos 12)) (some []) ∷ [])) rows
