-- ===== src/Ai/Triage.antt =====
-- `run_triage_batch` and `_retry_missing_triage_jobs` of app/ai.py: one page of unscored jobs is scored
-- by the AI, with retries for the jobs that its replies leave out. The proofs stand in the modules below.
pub mod Missing
pub mod Sound
pub mod Account
pub mod Writes
pub mod Returns
use job_squire.Base.{
  ℕ, zero, suc, ◌+◌, min, max, Bool, true, false, not, ◌&&◌, ◌||◌, Option, none, some, List, [],
  ◌∷◌, ◌++◌, Text, txt, length, take, drop, contains, ◌==◌, nat_eq, option_eq, list_eq, strip,
  if◌then◌else◌,
}
use job_squire.Base.Int.{ℤ, pos, negsuc}

-- The columns of `Job` that the batch reads or writes.
pub record Job : Type 0 where
  pub id : ℕ
  pub title : Text
  pub company : Text
  pub status : Text
  pub ai_fit_score : Option ℕ
  pub ai_fit_reason : Text

-- What `int` makes of a value: it raises a `TypeError` or a `ValueError`, it raises an `OverflowError` on an infinite
-- number (`1e999` and `Infinity` are read as one), or it gives an integer.
pub data Number : Type 0 where
  not_a_number : Number
  infinite : Number
  integer : ℤ → Number

-- An element of a parsed reply: an object with its id, score and reason, or another value, on which `.get` raises. A
-- missing id is no number, and a missing score reads 5. A reason is `none` where it is true but no text, so that
-- `.strip` raises; a missing or falsy one is empty.
pub data Item : Type 0 where
  entry : Number → Number → Option Text → Item
  not_an_object : Item

-- An element of the report.
pub record Result : Type 0 where
  pub id : ℕ
  pub title : Text
  pub company : Text
  pub score : Option ℕ
  pub reason : Text
  pub ok : Bool

-- A value of `pending`.
pub record Scored : Type 0 where
  pub id : ℕ
  pub score : ℕ
  pub reason : Text

-- The variables that the closure `_apply` writes. `pending` is in the order of insertion, and has the
-- keys of `applied_ids`.
pub record Pass : Type 0 where
  pub applied_ids : List ℕ
  pub pending : List Scored
  pub results : List Result
  pub calls : ℕ
  pub scored : ℕ

pub record Report : Type 0 where
  pub results : List Result
  pub scored : ℕ
  pub failed : ℕ
  pub total_remaining : ℕ
  pub next_offset : ℕ

-- `max(1, min(10, score))`
unfoldable pub clamp_score : ℤ → ℕ
clamp_score (pos n) = max 1 (min 10 n)
clamp_score (negsuc n) = 1

-- `job_map.get(jid)`
unfoldable pub find_job : ℕ → List Job → Option Job
find_job i [] = none
find_job i (j ∷ jobs) = if i == j.id then some j else find_job i jobs

-- `status == "Saved"` and a score that is NULL or 0
unfoldable pub is_unscored : Job → Bool
is_unscored j = j.status == txt "Saved" && (j.ai_fit_score == none || j.ai_fit_score == some 0)

unfoldable pub unscored : List Job → List Job
unscored [] = []
unscored (j ∷ rows) = let rest = unscored rows in if is_unscored j then j ∷ rest else rest

-- `.offset(offset).limit(limit)` over the rows, which stand in the order of the query.
unfoldable pub page : ℕ → ℕ → List Job → List Job
page offset limit rows = take limit (drop offset (unscored rows))

unfoldable pub missing : List ℕ → List Job → List Job
missing applied [] = []
missing applied (j ∷ jobs) =
    let rest = missing applied jobs in if contains applied j.id then rest else j ∷ rest

-- What follows is done unless an exception was raised.
unfoldable pub and_then : Option Pass → (Pass → Option Pass) → Option Pass
and_then none next = none
and_then (some s) next = next s

module _ (jobs : List Job) where
  -- A result is taken over: the last lines of `_apply`.
  unfoldable pub accept : Job → ℕ → Text → Pass → Bool × Pass
  accept j score reason s = (
    true,
    record s {
      applied_ids = j.id ∷ s.applied_ids;
      pending = s.pending ++ record { id = j.id; score = score; reason = reason } ∷ [];
      results =
          s.results
          ++ record {
            id = j.id;
            title = j.title;
            company = j.company;
            score = some score;
            reason = reason;
            ok = true;
          }
            ∷ [];
    },
  )

  -- The tests of `_apply` on an id, with the score and the reason that it read.
  unfoldable pub apply_scored : ℕ → ℕ → Text → Pass → Bool × Pass
  apply_scored jid score reason s =
      if contains s.applied_ids jid
      then (false, s)
      else elim (find_job jid jobs) [ none ↦ (false, s) | some j ↦ accept j score reason s ]

  -- `_apply`. `none` is an `AttributeError` or an `OverflowError`, which its handler does not catch. A negative id is
  -- in no batch.
  unfoldable pub apply : Item → Pass → Option (Bool × Pass)
  apply not_an_object s = none
  apply (entry not_a_number score reason) s = some (false, s)
  apply (entry infinite score reason) s = none
  apply (entry (integer i) not_a_number reason) s = some (false, s)
  apply (entry (integer i) infinite reason) s = none
  apply (entry (integer i) (integer score) none) s = none
  apply (entry (integer (negsuc n)) (integer score) (some reason)) s = some (false, s)
  apply (entry (integer (pos jid)) (integer score) (some reason)) s =
      some (apply_scored jid (clamp_score score) (strip reason) s)

  unfoldable pub count : Bool × Pass → Pass
  count (taken, s) = record s { scored = if taken then s.scored + 1 else s.scored }

  -- The loops that count what `_apply` takes over.
  unfoldable pub apply_all : List Item → Pass → Option Pass
  apply_all [] s = some s
  apply_all (item ∷ items) s = elim (apply item s) [
    | none ↦ none
    | some x ↦ apply_all items (count x)
  ]

  unfoldable pub hear : Option (List Item) → Pass → Option Pass
  hear none s = some s
  hear (some items) s = apply_all items s

  module _ (reply : ℕ → List Job → Option (List Item)) where
    -- The next AI call, on some jobs, with its reply parsed. An exception of the call leaves the pass
    -- as it is.
    unfoldable pub ask : List Job → Pass → Option Pass
    ask chunk s = hear (reply s.calls chunk) (record s { calls = s.calls + 1 })

    -- `range(0, len(missing), 5)`. There are at most as many chunks as jobs.
    unfoldable pub ask_chunks : ℕ → List Job → Pass → Option Pass
    ask_chunks zero left s = some s
    ask_chunks (suc n) [] s = some s
    ask_chunks (suc n) (j ∷ left) s =
        and_then (ask (take 5 (j ∷ left)) s) (ask_chunks n (drop 5 (j ∷ left)))

    unfoldable pub ask_each : List Job → Pass → Option Pass
    ask_each [] s = some s
    ask_each (j ∷ left) s = and_then (ask (j ∷ []) s) (ask_each left)

    -- `_retry_missing_triage_jobs`
    unfoldable pub retry_missing : Pass → Option Pass
    retry_missing s =
        let left = missing s.applied_ids jobs in
        and_then (ask_chunks (length left) left s) λ s'. ask_each (missing s'.applied_ids jobs) s'

    abbrev pub first_pass : Pass
    first_pass = record { applied_ids = []; pending = []; results = []; calls = 0; scored = 0 }

    unfoldable pub collect : Option Pass
    collect = and_then (ask jobs first_pass) retry_missing

-- An entry for a job with no score.
unfoldable pub unanswered : Text → Job → Result
unanswered why j = record {
  id = j.id;
  title = j.title;
  company = j.company;
  score = none;
  reason = why;
  ok = false;
}

unfoldable pub unanswered_all : Text → List Job → List Result
unanswered_all why [] = []
unanswered_all why (j ∷ jobs) = unanswered why j ∷ unanswered_all why jobs

-- One step of the persistence loop: `db.session.get` and the two writes.
unfoldable pub write : Scored → List Job → List Job
write p [] = []
write p (j ∷ rows) =
    (if p.id == j.id then record j { ai_fit_score = some p.score; ai_fit_reason = p.reason } else j)
    ∷ write p rows

unfoldable pub write_all : List Scored → List Job → List Job
write_all [] rows = rows
write_all (p ∷ ps) rows = write_all ps (write p rows)

-- The report and the table after the batch. `blocked` is the reason for which the chosen provider row
-- cannot be used, if there is one; `commits` says whether the commit succeeds.
module _ (reply : ℕ → List Job → Option (List Item)) (blocked : Option Text) (commits : Bool)
    (offset limit : ℕ) (rows : List Job) where
  unfoldable pub finish : List Job → Pass → Report × List Job
  finish jobs s =
      let left = missing s.applied_ids jobs in
      let rows' = if commits then write_all s.pending rows else rows in
      (
        record {
          results = s.results ++ unanswered_all (txt "not returned by AI") left;
          scored = s.scored;
          failed = length left;
          total_remaining = length (unscored rows');
          next_offset = offset + length jobs;
        },
        rows',
      )

  unfoldable pub run_page : List Job → Option Text → Option (Report × List Job)
  run_page [] why = some (
    record {
      results = [];
      scored = 0;
      failed = 0;
      total_remaining = length (unscored rows);
      next_offset = offset;
    },
    rows,
  )
  run_page (j ∷ jobs) (some why) = some (
    record {
      results = unanswered_all why (j ∷ jobs);
      scored = 0;
      failed = length (j ∷ jobs);
      total_remaining = length (unscored rows);
      next_offset = offset + length (j ∷ jobs);
    },
    rows,
  )
  run_page (j ∷ jobs) none = elim (collect (j ∷ jobs) reply) [
    | none ↦ none
    | some s ↦ some (finish (j ∷ jobs) s)
  ]

  -- `none` is an exception, after which nothing is written.
  unfoldable pub run_triage_batch : Option (Report × List Job)
  run_triage_batch = run_page (page offset limit rows) blocked
