-- ===== src/Tests/Search.antt =====
-- Two runs of the search on one day with a board that may be asked once.
use job_squire.Base.{
  ℕ, ◌≤◌, ◌+◌, Bool, true, false, ◌≡◌, refl, none, some, List, [], ◌∷◌, txt, list_eq, nat_eq, All,
  arith,
}
use job_squire.Base.Dict.{lookup, insert}
use job_squire.App.Search.{
  Files, Board, SearchConfig, Boards, Loop, running, raised, day_of, runs_on, provider_runs_today,
  increment_provider_runs, is_in_cooldown, is_outage, mark_progress, note, count_run, note_error,
  take_results, run_titles, ask_board, search_titles, limit_runs, visit, visit_all, manual, Storage,
  written, untouched, load, first_loop, begin, run_search_locked,
}
use job_squire.App.Search.Limit.{Limited}
use job_squire.App.Search.Daily.{files_after, asked, Day, morning, run, daily_limit_holds}

abbrev boards : (ℕ → Bool) → Boards
boards commits = record {
  is_provider = λ p. true;
  is_remote_only = λ p. false;
  search_provider = λ p titles. ([], none);
  commits = commits;
}

abbrev config : SearchConfig
config = record {
  enabled = true;
  titles = txt "clerk" ∷ [];
  include_remote = true;
  cooldown_seconds = 14400;
}

abbrev rows : List (ℕ × Board)
rows =
    (100, record { provider = txt "a"; max_runs_per_day = some 1; max_titles_per_run = some 0 })
    ∷ []

abbrev empty : Files
empty = record { cooldowns = []; daily_runs = [] }

abbrev storage : Storage
storage = record {
  reads_cooldowns = true;
  reads_daily_runs = true;
  writes_cooldowns = untouched;
  writes_daily_runs = written;
}

abbrev always : ℕ → Bool
always n = true

abbrev ingests : List job_squire.App.Ingest.Item → Bool
ingests items = true

rows-Limited : All (Limited (txt "a") 1 0) rows
unfolding Limited day_of
rows-Limited = ((refl, λ e. refl), tt)

first_state : Loop
unfolding visit_all visit limit_runs search_titles ask_board take_results run_titles note_error
    count_run note mark_progress is_in_cooldown is_outage provider_runs_today runs_on
    increment_provider_runs day_of begin first_loop load lookup insert list_eq nat_eq
first_state =
    elim (visit_all (boards always) config rows
      (begin (boards always) storage ingests config rows empty)) [ running s ↦ s | raised s ↦ s ]

first_runs :
    visit_all (boards always) config rows (begin (boards always) storage ingests config rows empty)
    ≡ running first_state
unfolding first_state
first_runs = refl

one_day :
    Day
      (txt "a")
      1
      0
      empty
      (0
        + asked
            (txt "a")
            (run_search_locked (boards always) storage ingests manual (some config) rows empty))
      (files_after empty
        (run_search_locked (boards always) storage ingests manual (some config) rows empty))
one_day =
    run (boards always) storage ingests manual config rows first_state morning refl refl
      rows-Limited first_runs

daily_limit_holds_example :
    0
      + asked
          (txt "a")
          (run_search_locked (boards always) storage ingests manual (some config) rows empty)
    ≤ 1
unfolding provider_runs_today runs_on lookup
daily_limit_holds_example =
    daily_limit_holds (txt "a") 1 0 empty
      (0
        + asked (txt "a")
            (run_search_locked (boards always) storage ingests manual (some config) rows empty))
      (files_after empty
        (run_search_locked (boards always) storage ingests manual (some config) rows empty))
      (omega arith) refl one_day
