-- ===== src/App/Search/Daily.antt =====
-- The daily limit of a board over the runs of a day (app/search.py).
use mathlib.Core.Path.{subst}
use job_squire.Base.{
  ℕ, ◌+◌, ◌≤◌, suc, Bool, true, not, ◌≡◌, refl, sym, ap, ◌∙◌, inl, inr, some, List, [], ◌∷◌, Text,
  nonempty, list_eq, nat_eq, arith, Bool-cases, All, keeps_if,
}
use job_squire.App.Ingest.{Item}
use job_squire.App.Search.{
  Files, Board, SearchConfig, Boards, Loop, running, provider_runs_today, mark_progress, visit_all,
  Status, error, still_running, SearchRun, no_run, uncaught, ended, Trigger, manual, scheduled,
  record_error, Storage, written, load, write_file, save, status_of, finish_run, first_loop, begin,
  run_titled, run_search_locked,
}
use job_squire.App.Search.Limit.{
  state, times, runs, Fair, Fair-refl, Fair-trans, Same-Fair, mark_progress-Same, Limited,
  visit_all-Fair,
}

-- The files after a run.
unfoldable pub files_after : Files → SearchRun → Files
files_after disk no_run = disk
files_after disk uncaught = disk
files_after disk (ended status files s) = files

-- How often a run asked a board.
unfoldable pub asked : Text → SearchRun → ℕ
asked p no_run = 0
asked p uncaught = 0
asked p (ended status files s) = times p s.searched

module _ (p : Text) (limit today : ℕ) where
  abbrev pub runs_in : Files → ℕ
  runs_in disk = provider_runs_today today p disk.daily_runs

  -- A run adds to the count in the file what it asked, and stays within the limit.
  abbrev Adds : Files → SearchRun → Type 0
  Adds disk r =
      (runs_in (files_after disk r) ≡ runs_in disk + asked p r)
      × (runs_in disk ≤ limit → runs_in (files_after disk r) ≤ limit)

  Adds-none : (disk : Files) → Adds disk no_run
  unfolding files_after asked
  Adds-none disk = (omega arith, λ h. h)

  Adds-uncaught : (disk : Files) → Adds disk uncaught
  unfolding files_after asked
  Adds-uncaught disk = (omega arith, λ h. h)

  module _ (b : Boards) (io : Storage) (ingests : List Item → Bool)
      (reads : io.reads_daily_runs ≡ true) (writes : io.writes_daily_runs ≡ written) where
    load-runs : (disk : Files) → (load io disk).daily_runs ≡ disk.daily_runs
    unfolding load
    load-runs disk = rw reads refl

    save-runs :
        (disk : Files) (s : Loop)
        → Fair p limit today (first_loop (load io disk)) s
        → runs_in (save io disk s) ≡ runs p limit today s
    unfolding save first_loop write_file
    save-runs disk s f = elim (Bool-cases s.daily_runs_dirty) [
      | inl d ↦ rw (d, writes) refl
      | inr d ↦ rw d (ap (provider_runs_today today p) (sym (load-runs disk) ∙ sym (f.clean d).0))
    ]

    Adds-ended :
        (disk : Files) (status : Status) (s t : Loop)
        → Fair p limit today (first_loop (load io disk)) s
        → t.searched ≡ s.searched
        → Adds disk (ended status (save io disk s) t)
    unfolding files_after asked first_loop
    Adds-ended disk status s t f e = (
      save-runs disk s f
          ∙ rw e (
              let c : runs p limit today s + 0 ≡ runs_in (load io disk) + times p s.searched =
                f.counted in
              let l : runs_in (load io disk) ≡ runs_in disk =
                ap (provider_runs_today today p) (load-runs disk) in
              omega (arith, c, l)),
      λ h.
          subst (λ n. n ≤ limit) (sym (save-runs disk s f))
            (f.bounded
              (subst (λ n. n ≤ limit) (ap (provider_runs_today today p) (sym (load-runs disk))) h)),
    )

    record_error-Adds :
        (disk : Files) (s t : Loop)
        → Fair p limit today (first_loop (load io disk)) s
        → t.searched ≡ s.searched
        → Adds disk (record_error b io ingests (save io disk s) t)
    unfolding record_error
    record_error-Adds disk s t f e =
        keeps_if (Adds disk) (b.commits t.commit_count) _ _ (Adds-ended disk error s t f e)
          (Adds-ended disk still_running s t f e)

    finish_run-Adds :
        (disk : Files) (s : Loop)
        → Fair p limit today (first_loop (load io disk)) s
        → Adds disk (finish_run b io ingests disk (running s))
    unfolding finish_run
    finish_run-Adds disk s f =
        keeps_if (Adds disk) (not (ingests s.all_items)) _ _ (record_error-Adds disk s s f refl) (
          keeps_if (Adds disk) (b.commits s.commit_count) _ _
            (Adds-ended disk (status_of s) s s f refl)
            (record_error-Adds disk s (record s { commit_count = suc s.commit_count }) f refl))

    begin-Fair :
        (cfg : SearchConfig) (rows : List (ℕ × Board)) (disk : Files)
        → Fair p limit today (first_loop (load io disk)) (state (begin b io ingests cfg rows disk))
    unfolding begin
    begin-Fair cfg [] disk = Fair-refl p limit today (first_loop (load io disk))
    begin-Fair cfg (row ∷ rows) disk =
        Same-Fair p limit today (first_loop (load io disk))
          (state (mark_progress b cfg (first_loop (load io disk))))
          (mark_progress-Same p limit today b cfg (first_loop (load io disk)))

    run_titled-Adds :
        (cfg : SearchConfig) (rows : List (ℕ × Board)) (disk : Files) (s : Loop)
        → 1 ≤ limit
        → All (Limited p limit today) rows
        → visit_all b cfg rows (begin b io ingests cfg rows disk) ≡ running s
        → Adds disk (run_titled b io ingests cfg rows disk)
    unfolding run_titled
    run_titled-Adds cfg rows disk s z l e =
        let first = begin b io ingests cfg rows disk in
        let whole =
          Fair-trans p limit today (first_loop (load io disk)) (state first)
            (state (visit_all b cfg rows first)) (begin-Fair cfg rows disk)
            (visit_all-Fair p limit today b cfg rows first z l) in
        keeps_if (Adds disk) (not (nonempty cfg.titles)) _ _ (Adds-none disk) (
          keeps_if (Adds disk) (not (b.commits 0)) _ _ (Adds-uncaught disk) (
            rw e (
              finish_run-Adds disk s
                (subst (λ x. Fair p limit today (first_loop (load io disk)) (state x)) e whole))))

  module _ (b : Boards) (io : Storage) (ingests : List Item → Bool)
      (reads : io.reads_daily_runs ≡ true) (writes : io.writes_daily_runs ≡ written) where
    run_search_locked-Adds :
        (trigger : Trigger) (cfg : SearchConfig) (rows : List (ℕ × Board)) (disk : Files) (s : Loop)
        → 1 ≤ limit
        → All (Limited p limit today) rows
        → visit_all b cfg rows (begin b io ingests cfg rows disk) ≡ running s
        → Adds disk (run_search_locked b io ingests trigger (some cfg) rows disk)
    unfolding run_search_locked
    run_search_locked-Adds manual cfg rows disk s z l e =
        run_titled-Adds b io ingests reads writes cfg rows disk s z l e
    run_search_locked-Adds scheduled cfg rows disk s z l e =
        keeps_if (Adds disk) (not cfg.enabled) _ _ (Adds-none disk)
          (run_titled-Adds b io ingests reads writes cfg rows disk s z l e)

  -- Runs of one day, one after the other, from some files: how often they asked the board, and the files they leave.
  -- In each, the file of the counts can be read and written, every row of the board has the limit, and the loop ends
  -- without an exception.
  pub data Day (disk : Files) : ℕ → Files → Type 0 where
    morning : Day disk 0 disk
    run :
        {n : ℕ} {now : Files} (b : Boards) (io : Storage) (ingests : List Item → Bool)
        (trigger : Trigger) (cfg : SearchConfig) (rows : List (ℕ × Board)) (s : Loop)
        → Day disk n now
        → io.reads_daily_runs ≡ true
        → io.writes_daily_runs ≡ written
        → All (Limited p limit today) rows
        → visit_all b cfg rows (begin b io ingests cfg rows now) ≡ running s
        → Day disk
            (n + asked p (run_search_locked b io ingests trigger (some cfg) rows now))
            (files_after now (run_search_locked b io ingests trigger (some cfg) rows now))

  day_counts :
      (disk : Files) (n : ℕ) (after : Files)
      → 1 ≤ limit
      → Day disk n after
      → (runs_in after ≡ runs_in disk + n) × (runs_in disk ≤ limit → runs_in after ≤ limit)
  day_counts disk _ _ z morning = (omega arith, λ h. h)
  day_counts disk _ _ z (run {n = n} {now = now} b io ingests trigger cfg rows s d r w l e) =
      let before = day_counts disk n now z d in
      let one = run_search_locked-Adds b io ingests r w trigger cfg rows now s z l e in
      (
        one.0
            ∙ (ap (λ k. k + asked p (run_search_locked b io ingests trigger (some cfg) rows now))
                  before.0
                ∙ omega arith),
        λ h. one.1 (before.1 h),
      )

  -- A board with a daily limit is asked at most that often in one day, over any runs of the search that come one after
  -- the other, if it was not asked before on that day, every row of it has the limit, every visit is on that day, every
  -- run can read and write the file of the counts, and no run's loop is left by an exception.
  pub daily_limit_holds :
      (disk : Files) (n : ℕ) (after : Files)
      → 1 ≤ limit
      → runs_in disk ≡ 0
      → Day disk n after
      → n ≤ limit
  daily_limit_holds disk n after z fresh d =
      let c = day_counts disk n after z d in
      let start : runs_in disk ≤ limit = subst (λ k. k ≤ limit) (sym fresh) (omega arith) in
      let within = c.1 start in omega (arith, c.0, fresh, within)
