-- ===== src/App/Search.antt =====
-- A run of the job search: the limits and `_run_search_locked` of app/search.py. The boards are asked through a
-- parameter, which gives the results and the error of `search_provider`; a commit may raise. Times are in seconds of UTC.
pub mod Limit
pub mod Daily
use job_squire.Base.{
  nonempty, ℕ, ◌+◌, ◌/◌, suc, Bool, true, false, not, ◌&&◌, ◌||◌, Option, none, some, List, [], ◌∷◌,
  ◌++◌, Text, txt, lower, take, ltb, leb, ◌==◌, list_eq, nat_eq, if◌then◌else◌,
}
use job_squire.Base.Dict.{Dict, lookup, insert}
use job_squire.App.Retry.{is_part}
use job_squire.App.Ingest.{Item}

-- An entry of provider_daily_runs.json.
pub record DayRuns : Type 0 where
  pub date : ℕ
  pub count : ℕ

-- The two files; a time in the first that cannot be read is `none`.
pub record Files : Type 0 where
  pub cooldowns : Dict Text (Option ℕ)
  pub daily_runs : Dict Text DayRuns

-- A row of `ProviderCredential` that is enabled, with the two limits of its credentials; `none` is a limit that `int`
-- refuses, and a limit that is missing or negative is 0.
pub record Board : Type 0 where
  pub provider : Text
  pub max_runs_per_day : Option ℕ
  pub max_titles_per_run : Option ℕ

pub record SearchConfig : Type 0 where
  pub enabled : Bool
  pub titles : List Text
  pub include_remote : Bool
  pub cooldown_seconds : ℕ

-- What a run calls: `PROVIDERS` and `REMOTE_ONLY_PROVIDERS`, `search_provider`, and whether the numbered commit
-- succeeds.
pub record Boards : Type 0 where
  pub is_provider : Text → Bool
  pub is_remote_only : Text → Bool
  pub search_provider : Text → List Text → List Item × Option Text
  pub commits : ℕ → Bool

-- What is known of each note.
pub data Note : Type 0 where
  remote_off : Text → Note
  in_cooldown : Text → Note
  daily_limit : Text → ℕ → Note
  failed : Text → Note

-- The variables of the loop; `searched` has the boards that were asked, the last first, and `commit_count` numbers the
-- commits.
pub record Loop : Type 0 where
  pub files : Files
  pub cooldowns_dirty : Bool
  pub daily_runs_dirty : Bool
  pub all_items : List Item
  pub notes : List Note
  pub searched : List Text
  pub commit_count : ℕ

-- The loop goes on, or an exception left it.
pub data Progress : Type 0 where
  running : Loop → Progress
  raised : Loop → Progress

unfoldable pub day_of : ℕ → ℕ
day_of now = now / 86400

-- `_in_cooldown`
unfoldable pub is_in_cooldown : ℕ → Text → Dict Text (Option ℕ) → Bool
is_in_cooldown now p d = elim (lookup p d) [
  | none ↦ false
  | some none ↦ false
  | some (some until) ↦ ltb now until
]

unfoldable pub runs_on : ℕ → Option DayRuns → ℕ
runs_on today none = 0
runs_on today (some e) = if e.date == today then e.count else 0

-- `_provider_runs_today`
unfoldable pub provider_runs_today : ℕ → Text → Dict Text DayRuns → ℕ
provider_runs_today today p d = runs_on today (lookup p d)

-- `_increment_provider_runs`; both of its branches store one more than was counted today.
unfoldable pub increment_provider_runs : ℕ → Text → Dict Text DayRuns → Dict Text DayRuns
increment_provider_runs today p d =
    insert p (record { date = today; count = suc (provider_runs_today today p d) }) d

-- `err` reports an outage.
unfoldable pub is_outage : Text → Bool
is_outage err = is_part (txt "503") err || is_part (txt "service unavailable") (lower err)

module _ (b : Boards) (cfg : SearchConfig) where
  -- `_mark_progress`, and then the rest of the iteration.
  unfoldable pub mark_progress : Loop → Progress
  mark_progress s =
      let s' = record s { commit_count = suc s.commit_count } in
      if b.commits s.commit_count then running s' else raised s'

  unfoldable pub note : Note → Loop → Loop
  note n s = record s { notes = s.notes ++ n ∷ [] }

  unfoldable pub count_run : ℕ → Text → ℕ → Loop → Loop
  count_run now p max_runs s =
      if ltb 0 max_runs
      then record s {
        files = record s.files {
          daily_runs = increment_provider_runs (day_of now) p s.files.daily_runs;
        };
        daily_runs_dirty = true;
      }
      else s

  unfoldable pub note_error : ℕ → Text → Option Text → Loop → Loop
  note_error now p none s = s
  note_error now p (some err) s =
      let s' = note (failed err) s in
      if is_outage err
      then record s' {
        files = record s'.files {
          cooldowns = insert p (some (now + cfg.cooldown_seconds)) s'.files.cooldowns;
        };
        cooldowns_dirty = true;
      }
      else s'

  -- The board was asked: the run is counted, an error is noted, and the results are kept.
  unfoldable pub take_results : ℕ → Text → ℕ → List Item × Option Text → Loop → Progress
  take_results now p max_runs (results, err) s =
      let s' = note_error now p err (count_run now p max_runs s) in
      mark_progress (record s' { all_items = s'.all_items ++ results })

  unfoldable pub run_titles : ℕ → List Text
  run_titles max_titles = if ltb 0 max_titles then take max_titles cfg.titles else cfg.titles

  unfoldable pub ask_board : ℕ → Text → ℕ → ℕ → Progress → Progress
  ask_board now p max_runs max_titles (raised s) = raised s
  ask_board now p max_runs max_titles (running s) =
      take_results now p max_runs (b.search_provider p (run_titles max_titles))
        (record s { searched = p ∷ s.searched })

  -- Behind the daily limit, a limit of titles that cannot be read raises.
  unfoldable pub search_titles : ℕ → Text → ℕ → Option ℕ → Loop → Progress
  search_titles now p max_runs none s = raised s
  search_titles now p max_runs (some max_titles) s =
      ask_board now p max_runs max_titles (mark_progress s)

  unfoldable pub limit_runs : ℕ → Board → Option ℕ → Loop → Progress
  limit_runs now row none s = raised s
  limit_runs now row (some max_runs) s =
      if ltb 0 max_runs
        && leb max_runs (provider_runs_today (day_of now) row.provider s.files.daily_runs)
      then mark_progress (note (daily_limit row.provider max_runs) s)
      else search_titles now row.provider max_runs row.max_titles_per_run s

  -- One round of the loop over the boards.
  unfoldable pub visit : ℕ → Board → Loop → Progress
  visit now row s =
      if not (b.is_provider row.provider)
      then running s
      else if b.is_remote_only row.provider && not cfg.include_remote
      then mark_progress (note (remote_off row.provider) s)
      else if is_in_cooldown now row.provider s.files.cooldowns
      then mark_progress (note (in_cooldown row.provider) s)
      else limit_runs now row row.max_runs_per_day s

  -- The loop; each board is visited at its time.
  unfoldable pub visit_all : List (ℕ × Board) → Progress → Progress
  visit_all [] x = x
  visit_all (row ∷ rows) (raised s) = raised s
  visit_all ((now, row) ∷ rows) (running s) = visit_all rows (visit now row s)

pub data Status : Type 0 where
  ok : Status
  error : Status
  still_running : Status

-- The result of a call: no run, an exception before the handler, or a run with its last status, the files and the loop.
pub data SearchRun : Type 0 where
  no_run : SearchRun
  uncaught : SearchRun
  ended : Status → Files → Loop → SearchRun

pub data Trigger : Type 0 where
  manual : Trigger
  scheduled : Trigger

-- What a write of a file does. A failure is only logged: it leaves the file as it was, or a file that cannot be
-- read, which counts as empty.
pub data Writing : Type 0 where
  written : Writing
  untouched : Writing
  broken : Writing

-- Whether the two files can be read in a run, and what their writes do.
pub record Storage : Type 0 where
  pub reads_cooldowns : Bool
  pub reads_daily_runs : Bool
  pub writes_cooldowns : Writing
  pub writes_daily_runs : Writing

-- `_load_cooldowns` and `_load_daily_runs`; a file that cannot be read gives `{}`.
unfoldable pub load : Storage → Files → Files
load io disk = record {
  cooldowns = if io.reads_cooldowns then disk.cooldowns else [];
  daily_runs = if io.reads_daily_runs then disk.daily_runs else [];
}

unfoldable pub write_file : {A : Type 0} → Writing → Dict Text A → Dict Text A → Dict Text A
write_file written new old = new
write_file untouched new old = old
write_file broken new old = []

-- `_save_cooldowns` and `_save_daily_runs`, each where something has changed.
unfoldable pub save : Storage → Files → Loop → Files
save io disk s = record {
  cooldowns =
      if s.cooldowns_dirty
      then write_file io.writes_cooldowns s.files.cooldowns disk.cooldowns
      else disk.cooldowns;
  daily_runs =
      if s.daily_runs_dirty
      then write_file io.writes_daily_runs s.files.daily_runs disk.daily_runs
      else disk.daily_runs;
}

unfoldable pub status_of : Loop → Status
status_of s = if nonempty s.notes && not (nonempty s.all_items) then error else ok

-- The variables before the loop, from the files as they are read; the row of the run is the first commit.
unfoldable pub first_loop : Files → Loop
first_loop files = record {
  files = files;
  cooldowns_dirty = false;
  daily_runs_dirty = false;
  all_items = [];
  notes = [];
  searched = [];
  commit_count = 1;
}

module _ (b : Boards) (io : Storage) (ingests : List Item → Bool) where
  -- The handler of the exceptions: a rollback and one more commit.
  unfoldable pub record_error : Files → Loop → SearchRun
  record_error disk s =
      if b.commits s.commit_count then ended error disk s else ended still_running disk s

  -- Behind the loop: the files are saved, the jobs are ingested, and the run is committed. A failing digest adds a note
  -- only where jobs were created, so it does not change the status.
  unfoldable pub finish_run : Files → Progress → SearchRun
  finish_run disk (raised s) = record_error disk s
  finish_run disk (running s) =
      let disk' = save io disk s in
      if not (ingests s.all_items)
      then record_error disk' s
      else if b.commits s.commit_count
      then ended (status_of s) disk' s
      else record_error disk' (record s { commit_count = suc s.commit_count })

  -- `_mark_progress` where there is a board.
  unfoldable pub begin : SearchConfig → List (ℕ × Board) → Files → Progress
  begin cfg [] disk = running (first_loop (load io disk))
  begin cfg (row ∷ rows) disk = mark_progress b cfg (first_loop (load io disk))

  unfoldable pub run_titled : SearchConfig → List (ℕ × Board) → Files → SearchRun
  run_titled cfg rows disk =
      if not (nonempty cfg.titles)
      then no_run
      else if not (b.commits 0)
      then uncaught
      else finish_run disk (visit_all b cfg rows (begin cfg rows disk))

  -- `_run_search_locked`, with the enabled boards and the time of each.
  unfoldable pub run_search_locked :
      Trigger → Option SearchConfig → List (ℕ × Board) → Files → SearchRun
  run_search_locked trigger none rows disk = no_run
  run_search_locked scheduled (some cfg) rows disk =
      if not cfg.enabled then no_run else run_titled cfg rows disk
  run_search_locked manual (some cfg) rows disk = run_titled cfg rows disk
