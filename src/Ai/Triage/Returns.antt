-- ===== src/Ai/Triage/Returns.antt =====
-- When a triage batch returns a report.
use job_squire.Base.{
  ℕ, zero, suc, ◌+◌, Bool, false, ◌≡◌, refl, Option, none, some, List, [], ◌∷◌, Text, length, take,
  drop, All, strip,
}
use job_squire.Base.Int.{pos, negsuc}
use job_squire.Ai.Triage.{
  Job, not_a_number, infinite, integer, Item, entry, not_an_object, Pass, missing, apply,
  apply_scored, clamp_score, count, apply_all, hear, ask, ask_chunks, ask_each, retry_missing,
  first_pass, collect, and_then, run_page, run_triage_batch, page,
}

-- An object whose id is no number, or whose id is an integer and whose score is no number, or both are integers and
-- the reason is a text.
abbrev IsReadable : Item → Type 0
IsReadable (entry not_a_number score reason) = Unit
IsReadable (entry infinite score reason) = ⊥
IsReadable (entry (integer i) not_a_number reason) = Unit
IsReadable (entry (integer i) infinite reason) = ⊥
IsReadable (entry (integer i) (integer score) none) = ⊥
IsReadable (entry (integer i) (integer score) (some reason)) = Unit
IsReadable not_an_object = ⊥

abbrev Returns : {A : Type 0} → Option A → Type 0
Returns none = ⊥
Returns (some a) = Unit

and_then-Returns :
    (o : Option Pass) (next : Pass → Option Pass)
    → Returns o
    → ((s : Pass) → Returns (next s))
    → Returns (and_then o next)
unfolding and_then
and_then-Returns none next h k = h
and_then-Returns (some s) next h k = k s

apply_all-Returns :
    (jobs : List Job) (items : List Item) (s : Pass)
    → All IsReadable items
    → Returns (apply_all jobs items s)
unfolding apply_all apply
apply_all-Returns jobs [] s h = tt
apply_all-Returns jobs (entry not_a_number score reason ∷ items) s h =
    apply_all-Returns jobs items (count jobs (false, s)) h.1
apply_all-Returns jobs (entry infinite score reason ∷ items) s h = absurd h.0
apply_all-Returns jobs (entry (integer i) not_a_number reason ∷ items) s h =
    apply_all-Returns jobs items (count jobs (false, s)) h.1
apply_all-Returns jobs (entry (integer i) infinite reason ∷ items) s h = absurd h.0
apply_all-Returns jobs (entry (integer i) (integer score) none ∷ items) s h = absurd h.0
apply_all-Returns jobs (entry (integer (negsuc n)) (integer score) (some reason) ∷ items) s h =
    apply_all-Returns jobs items (count jobs (false, s)) h.1
apply_all-Returns jobs (entry (integer (pos i)) (integer score) (some reason) ∷ items) s h =
    apply_all-Returns jobs items
      (count jobs (apply_scored jobs i (clamp_score score) (strip reason) s)) h.1
apply_all-Returns jobs (not_an_object ∷ items) s h = absurd h.0

-- Every element of a reply is readable.
abbrev AllReadable : Option (List Item) → Type 0
AllReadable none = Unit
AllReadable (some items) = All IsReadable items

module _ (reply : ℕ → List Job → Option (List Item))
    (readable : (n : ℕ) (chunk : List Job) → AllReadable (reply n chunk)) where
  module _ (jobs : List Job) where
    hear-Returns : (o : Option (List Item)) (s : Pass) → AllReadable o → Returns (hear jobs o s)
    unfolding hear
    hear-Returns none s h = tt
    hear-Returns (some items) s h = apply_all-Returns jobs items s h

    ask-Returns : (chunk : List Job) (s : Pass) → Returns (ask jobs reply chunk s)
    unfolding ask
    ask-Returns chunk s =
        hear-Returns (reply s.calls chunk) (record s { calls = s.calls + 1 })
          (readable s.calls chunk)

    ask_chunks-Returns :
        (n : ℕ) (left : List Job) (s : Pass) → Returns (ask_chunks jobs reply n left s)
    unfolding ask_chunks
    ask_chunks-Returns zero left s = tt
    ask_chunks-Returns (suc n) [] s = tt
    ask_chunks-Returns (suc n) (j ∷ left) s =
        and_then-Returns (ask jobs reply (take 5 (j ∷ left)) s)
          (ask_chunks jobs reply n (drop 5 (j ∷ left))) (ask-Returns (take 5 (j ∷ left)) s)
          (ask_chunks-Returns n (drop 5 (j ∷ left)))

    ask_each-Returns : (left : List Job) (s : Pass) → Returns (ask_each jobs reply left s)
    unfolding ask_each
    ask_each-Returns [] s = tt
    ask_each-Returns (j ∷ left) s =
        and_then-Returns (ask jobs reply (j ∷ []) s) (ask_each jobs reply left)
          (ask-Returns (j ∷ []) s) (ask_each-Returns left)

    collect-Returns : Returns (collect jobs reply)
    unfolding collect retry_missing
    collect-Returns =
        and_then-Returns (ask jobs reply jobs (first_pass jobs reply)) (retry_missing jobs reply)
          (ask-Returns jobs (first_pass jobs reply))
          (λ s.
            and_then-Returns
              (ask_chunks jobs reply (length (missing s.applied_ids jobs))
                (missing s.applied_ids jobs) s)
              (λ t. ask_each jobs reply (missing t.applied_ids jobs) t)
              (ask_chunks-Returns (length (missing s.applied_ids jobs)) (missing s.applied_ids jobs)
                s)
              (λ t. ask_each-Returns (missing t.applied_ids jobs) t))

  module _ (blocked : Option Text) (commits : Bool) (offset limit : ℕ) (rows : List Job) where
    run_page-Returns :
        (jobs : List Job) (why : Option Text)
        → Returns (run_page reply blocked commits offset limit rows jobs why)
    unfolding run_page
    run_page-Returns [] why = tt
    run_page-Returns (j ∷ jobs) (some why) = tt
    run_page-Returns (j ∷ jobs) none =
        go (collect (j ∷ jobs) reply) refl (collect-Returns (j ∷ jobs))
      where
        go :
            (o : Option Pass)
            → collect (j ∷ jobs) reply ≡ o
            → Returns o
            → Returns (run_page reply blocked commits offset limit rows (j ∷ jobs) none)
        go none e h = absurd h
        go (some s) e h = rw (e, run_page) tt

    -- If every element of every reply is an object whose id and score are no infinite number, and whose reason is a
    -- text where both are integers, then the batch returns a report, also where calls fail or the commit fails.
    run_triage_batch-Returns : Returns (run_triage_batch reply blocked commits offset limit rows)
    unfolding run_triage_batch
    run_triage_batch-Returns = run_page-Returns (page offset limit rows) blocked
