-- ===== src/App/Search/Limit.antt =====
-- The daily limit of a board holds over the runs of a day.
use mathlib.Core.Path.{subst}
use mathlib.Core.Option.{some-injective}
use job_squire.Base.{
  ℕ, ◌+◌, ◌≤◌, suc, true, false, not, ◌&&◌, ◌≡◌, refl, sym, ap, ◌∙◌, inl, inr, Option, none, some,
  List, [], ◌∷◌, ◌++◌, Text, ltb, leb, ◌==◌, ==_iff, ==_refl, list_eq, nat_eq, if◌then◌else◌, arith,
  Bool-cases, All, keeps_if,
}
use job_squire.Base.Dict.{Dict, lookup, insert, lookup-insert}
use job_squire.App.Ingest.{Item}
use job_squire.App.Search.{
  DayRuns, Board, SearchConfig, Boards, Note, remote_off, in_cooldown, daily_limit, Loop, Progress,
  running, raised, day_of, runs_on, provider_runs_today, increment_provider_runs, is_outage,
  mark_progress, note, count_run, note_error, take_results, run_titles, ask_board, search_titles,
  limit_runs, is_in_cooldown, visit, visit_all,
}

abbrev pub state : Progress → Loop
state (running s) = s
state (raised s) = s

-- How often a board was asked.
abbrev pub times : Text → List Text → ℕ
times p [] = 0
times p (q ∷ qs) = let rest = times p qs in if p == q then suc rest else rest

below_limit :
    (m limit n k : ℕ)
    → 1 ≤ limit
    → m ≡ limit
    → n ≡ k
    → (ltb 0 m && leb m n) ≡ false
    → (ltb 0 m ≡ true) × (suc k ≤ limit)
below_limit m limit n k z e f g = (ground arith, ground arith)

module _ (p : Text) (limit today : ℕ) where
  abbrev pub runs : Loop → ℕ
  runs s = provider_runs_today today p s.files.daily_runs

  -- From `s` to `t` the count of the board grows by the number of times that it was asked, and stays within the limit.
  pub record Fair (s t : Loop) : Type 0 where
    pub counted : runs t + times p s.searched ≡ runs s + times p t.searched
    pub bounded : runs s ≤ limit → runs t ≤ limit
    pub clean :
        t.daily_runs_dirty ≡ false
        → (t.files.daily_runs ≡ s.files.daily_runs) × (s.daily_runs_dirty ≡ false)

  pub Fair-refl : (s : Loop) → Fair s s
  Fair-refl s = record { counted = refl; bounded = λ h. h; clean = λ e. (refl, e) }

  pub Fair-trans : (s t u : Loop) → Fair s t → Fair t u → Fair s u
  Fair-trans s t u f g = record {
    counted = omega (arith, f.counted, g.counted);
    bounded = λ h. g.bounded (f.bounded h);
    clean = λ e. ((g.clean e).0 ∙ (f.clean (g.clean e).1).0, (f.clean (g.clean e).1).1);
  }

  -- A step that leaves the counts, and what was asked, as they were.
  abbrev pub Same : Loop → Loop → Type 0
  Same s t =
      (t.files.daily_runs ≡ s.files.daily_runs)
      × ((t.searched ≡ s.searched) × (t.daily_runs_dirty ≡ s.daily_runs_dirty))

  pub Same-Fair : (s t : Loop) → Same s t → Fair s t
  Same-Fair s t e = record {
    counted = rw (e.0, e.1.0) refl;
    bounded = λ h. rw e.0 h;
    clean = λ d. (e.0, sym e.1.1 ∙ d);
  }

  increment_other :
      (q : Text) (d : Dict Text DayRuns)
      → (p == q) ≡ false
      → provider_runs_today today p (increment_provider_runs today q d)
        ≡ provider_runs_today today p d
  unfolding provider_runs_today increment_provider_runs
  increment_other q d e = ap (runs_on today) (lookup-insert p q _ d ∙ rw e refl)

  increment_same :
      (d : Dict Text DayRuns)
      → provider_runs_today today p (increment_provider_runs today p d)
        ≡ suc (provider_runs_today today p d)
  unfolding provider_runs_today increment_provider_runs runs_on
  increment_same d =
      let entry : DayRuns = record { date = today; count = suc (provider_runs_today today p d) } in
      let found : lookup p (insert p entry d) ≡ some entry =
        lookup-insert p p entry d ∙ rw (==_refl p) refl in
      let current : runs_on today (some entry) ≡ suc (provider_runs_today today p d) =
        rw (==_refl today) refl in
      ap (runs_on today) found ∙ current

  -- The visit is on the day, and a visit of the board has the limit.
  unfoldable pub Limited : ℕ × Board → Type 0
  Limited (now, row) =
      (day_of now ≡ today) × ((p == row.provider) ≡ true → row.max_runs_per_day ≡ some limit)

  module _ (b : Boards) (cfg : SearchConfig) where
    pub mark_progress-Same : (s : Loop) → Same s (state (mark_progress b cfg s))
    unfolding mark_progress
    mark_progress-Same s =
        keeps_if (λ (x : Progress). Same s (state x)) (b.commits s.commit_count) _ _
          (refl, (refl, refl)) (refl, (refl, refl))

    noted-Fair : (n : Note) (s : Loop) → Fair s (state (mark_progress b cfg (note b cfg n s)))
    unfolding note
    noted-Fair n s = Same-Fair s _ (mark_progress-Same (note b cfg n s))

    note_error-Same :
        (now : ℕ) (q : Text) (err : Option Text) (s : Loop) → Same s (note_error b cfg now q err s)
    unfolding note_error note
    note_error-Same now q none s = (refl, (refl, refl))
    note_error-Same now q (some err) s =
        keeps_if (Same s) (is_outage err) _ _ (refl, (refl, refl)) (refl, (refl, refl))

    -- The step that asks a board: of another board, or of this one below its limit.
    Asks : ℕ → Text → ℕ → Loop → Type 0
    Asks now q max_runs s =
        (day_of now ≡ today) × ((p == q) ≡ true → (ltb 0 max_runs ≡ true) × (suc (runs s) ≤ limit))

    counted-Fair :
        (now : ℕ) (q : Text) (max_runs : ℕ) (s : Loop)
        → Asks now q max_runs s
        → Fair s (count_run b cfg now q max_runs (record s { searched = q ∷ s.searched }))
    unfolding Asks count_run
    counted-Fair now q max_runs s a = elim (Bool-cases (p == q)) [
      | inl g ↦
          let same : p ≡ q = (==_iff p q).0 g in
          let more : provider_runs_today today p
                (increment_provider_runs (day_of now) q s.files.daily_runs)
              ≡ suc (runs s) =
            ap (λ d. provider_runs_today today p (increment_provider_runs d q s.files.daily_runs))
              a.0
            ∙ (ap
                  (λ x.
                    provider_runs_today today p
                      (increment_provider_runs today x s.files.daily_runs))
                  (sym same)
                ∙ increment_same s.files.daily_runs) in
          rw ((a.1 g).0, count_run)
            (record {
              counted = rw (more, g) (omega arith);
              bounded = λ h. subst (λ n. n ≤ limit) (sym more) (a.1 g).1;
              clean = λ e. absurd (cc (e));
            })
      | inr g ↦
          let other : provider_runs_today today p
                (increment_provider_runs (day_of now) q s.files.daily_runs)
              ≡ runs s =
            ap (λ d. provider_runs_today today p (increment_provider_runs d q s.files.daily_runs))
              a.0
            ∙ increment_other q s.files.daily_runs g in
          elim (Bool-cases (ltb 0 max_runs)) [
            | inl m ↦
                rw (m, count_run)
                  (record {
                    counted = rw (other, g) refl;
                    bounded = λ h. subst (λ n. n ≤ limit) (sym other) h;
                    clean = λ e. absurd (cc (e));
                  })
            | inr m ↦
                rw (m, count_run)
                  (record { counted = rw g refl; bounded = λ h. h; clean = λ e. (refl, e) })
          ]
    ]

    take_results-Fair :
        (now : ℕ) (q : Text) (max_runs : ℕ) (x : List Item × Option Text) (s : Loop)
        → Asks now q max_runs s
        → Fair s
            (state (take_results b cfg now q max_runs x (record s { searched = q ∷ s.searched })))
    unfolding take_results
    take_results-Fair now q max_runs (items, err) s a =
        let asked = record s { searched = q ∷ s.searched } in
        let counted = count_run b cfg now q max_runs asked in
        let noted = note_error b cfg now q err counted in
        let kept = record noted { all_items = noted.all_items ++ items } in
        Fair-trans s counted (state (mark_progress b cfg kept)) (counted-Fair now q max_runs s a) (
          Fair-trans counted noted (state (mark_progress b cfg kept))
            (Same-Fair counted noted (note_error-Same now q err counted))
            (Fair-trans noted kept (state (mark_progress b cfg kept))
              (Same-Fair noted kept (refl, (refl, refl)))
              (Same-Fair kept (state (mark_progress b cfg kept)) (mark_progress-Same kept))))

    Asks-Same :
        (now : ℕ) (q : Text) (max_runs : ℕ) (s t : Loop)
        → Same s t
        → Asks now q max_runs s
        → Asks now q max_runs t
    unfolding Asks
    Asks-Same now q max_runs s t e a = (a.0, λ g. ((a.1 g).0, rw e.0 (a.1 g).1))

    ask_board-Fair :
        (now : ℕ) (q : Text) (max_runs max_titles : ℕ) (x : Progress)
        → Asks now q max_runs (state x)
        → Fair (state x) (state (ask_board b cfg now q max_runs max_titles x))
    unfolding ask_board
    ask_board-Fair now q max_runs max_titles (raised s) a = Fair-refl s
    ask_board-Fair now q max_runs max_titles (running s) a =
        take_results-Fair now q max_runs (b.search_provider q (run_titles b cfg max_titles)) s a

    search_titles-Fair :
        (now : ℕ) (q : Text) (max_runs : ℕ) (o : Option ℕ) (s : Loop)
        → Asks now q max_runs s
        → Fair s (state (search_titles b cfg now q max_runs o s))
    unfolding search_titles
    search_titles-Fair now q max_runs none s a = Fair-refl s
    search_titles-Fair now q max_runs (some max_titles) s a =
        let marked = mark_progress b cfg s in
        Fair-trans s (state marked) (state (ask_board b cfg now q max_runs max_titles marked))
          (Same-Fair s (state marked) (mark_progress-Same s))
          (ask_board-Fair now q max_runs max_titles marked
            (Asks-Same now q max_runs s (state marked) (mark_progress-Same s) a))

    may_ask :
        (now : ℕ) (row : Board) (max_runs : ℕ) (s : Loop)
        → 1 ≤ limit
        → day_of now ≡ today
        → ((p == row.provider) ≡ true → some max_runs ≡ some limit)
        → (ltb 0 max_runs
            && leb max_runs (provider_runs_today (day_of now) row.provider s.files.daily_runs))
          ≡ false
        → Asks now row.provider max_runs s
    unfolding Asks
    may_ask now row max_runs s z d l e = (
      d,
      λ g.
          let same : p ≡ row.provider = (==_iff p row.provider).0 g in
          let m : max_runs ≡ limit = some-injective max_runs limit (l g) in
          let n : provider_runs_today (day_of now) row.provider s.files.daily_runs
              ≡ provider_runs_today today p s.files.daily_runs =
            ap (λ x. provider_runs_today x row.provider s.files.daily_runs) d
            ∙ ap (λ x. provider_runs_today today x s.files.daily_runs) (sym same) in
          below_limit max_runs limit
            (provider_runs_today (day_of now) row.provider s.files.daily_runs)
            (provider_runs_today today p s.files.daily_runs) z m n e,
    )

    limit_runs-Fair :
        (now : ℕ) (row : Board) (o : Option ℕ) (s : Loop)
        → 1 ≤ limit
        → day_of now ≡ today
        → ((p == row.provider) ≡ true → o ≡ some limit)
        → Fair s (state (limit_runs b cfg now row o s))
    unfolding limit_runs
    limit_runs-Fair now row none s z d l = Fair-refl s
    limit_runs-Fair now row (some max_runs) s z d l =
        elim (Bool-cases (
          ltb 0 max_runs
          && leb max_runs (provider_runs_today (day_of now) row.provider s.files.daily_runs))) [
            | inl g ↦ rw (g, limit_runs) (noted-Fair (daily_limit row.provider max_runs) s)
            | inr g ↦
                rw (g, limit_runs)
                  (search_titles-Fair now row.provider max_runs row.max_titles_per_run s
                    (may_ask now row max_runs s z d l g))
          ]

    visit-Fair :
        (now : ℕ) (row : Board) (s : Loop)
        → 1 ≤ limit
        → Limited (now, row)
        → Fair s (state (visit b cfg now row s))
    unfolding visit Limited
    visit-Fair now row s z l =
        let P : Progress → Type 0 = λ x. Fair s (state x) in
        keeps_if P (not (b.is_provider row.provider)) _ _ (Fair-refl s) (
          keeps_if P (b.is_remote_only row.provider && not cfg.include_remote) _ _
            (noted-Fair (remote_off row.provider) s)
            (keeps_if P (is_in_cooldown now row.provider s.files.cooldowns) _ _
              (noted-Fair (in_cooldown row.provider) s)
              (limit_runs-Fair now row row.max_runs_per_day s z l.0 l.1)))

    pub visit_all-Fair :
        (rows : List (ℕ × Board)) (x : Progress)
        → 1 ≤ limit
        → All Limited rows
        → Fair (state x) (state (visit_all b cfg rows x))
    unfolding visit_all
    visit_all-Fair [] x z l = Fair-refl (state x)
    visit_all-Fair (row ∷ rows) (raised s) z l = Fair-refl s
    visit_all-Fair ((now, row) ∷ rows) (running s) z l =
        let next = visit b cfg now row s in
        Fair-trans s (state next) (state (visit_all b cfg rows next)) (visit-Fair now row s z l.0)
          (visit_all-Fair rows next z l.1)
