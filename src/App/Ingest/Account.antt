-- ===== src/App/Ingest/Account.antt =====
-- What an ingestion counts, and the addresses that it stores.
use mathlib.Core.Path.{subst}
use job_squire.Base.{
  ℕ, suc, ◌+◌, ◌≤◌, Bool, true, ◌||◌, ◌≡◌, ◌⊎◌, refl, ap, ◌∙◌, inl, inr, List, [], ◌∷◌, Text, txt,
  strip, lower, starts_with, length, length-append, arith, Bool-cases, All, All-append,
}
use job_squire.App.Ingest.{
  Item, Job, http_url, job_of, State, skip, see, visible, insert_job, ingest_one, ingest_all, start,
  ingest_jobs,
}
use job_squire.App.Ingest.Again.{Step, invalid, repeated, known, new, step}

-- An address that is empty or begins with `http://` or `https://`, in any case of the letters.
abbrev pub IsSafe : Text → Type 0
IsSafe u =
    (u ≡ [])
    ⊎ ((starts_with (lower u) (txt "http://") || starts_with (lower u) (txt "https://")) ≡ true)

abbrev pub HasSafeUrl : Job → Type 0
HasSafeUrl j = IsSafe j.url

http_url-IsSafe : (u : Text) → IsSafe (http_url u)
unfolding http_url
http_url-IsSafe u =
    elim (Bool-cases (
      starts_with (lower (strip u)) (txt "http://")
      || starts_with (lower (strip u)) (txt "https://"))) [
        | inl h ↦ rw h (inr h)
        | inr h ↦ rw h (inl refl)
      ]

add_zero : (n : ℕ) → n ≡ n + 0
add_zero n = omega arith

add_suc : (n m : ℕ) → suc n + m ≡ n + suc m
add_suc n m = omega arith

module _ (fold_case : Text → Text) (violates : ℕ → Bool) (created_by status : Text)
    (rows : List Job) where
  -- The counts after `n` items.
  record Counts (n : ℕ) (s : State) : Type 0 where
    items : length s.created + s.skipped ≡ n
    grown : length s.added ≤ length s.created
    kept : s.committed ≡ rows
    urls : All HasSafeUrl s.created

  insert_job-Counts :
      (n : ℕ) (it : Item) (s : State)
      → Counts n s
      → Counts
          (suc n)
          (insert_job fold_case violates created_by status (job_of created_by status it) s)
  unfolding insert_job job_of
  insert_job-Counts n it s h = elim (Bool-cases (violates s.flushes)) [
    | inl v ↦ simp v (record {
      items = omega (arith, h.items);
      grown = omega arith;
      kept = h.kept;
      urls = h.urls;
    })
    | inr v ↦ simp v (record {
      items = omega (arith, h.items, length-append s.created (job_of created_by status it ∷ []));
      grown = omega (arith, h.grown, length-append s.created (job_of created_by status it ∷ []));
      kept = h.kept;
      urls =
          All-append HasSafeUrl s.created (job_of created_by status it ∷ []) h.urls
            (http_url-IsSafe it.url, tt);
    })
  ]

  one-Counts :
      (n : ℕ) (it : Item) (s t : State)
      → Step fold_case violates created_by status it s t
      → Counts n s
      → Counts (suc n) t
  unfolding skip see
  one-Counts n it s _ (invalid h) c = record {
    items = omega (arith, c.items);
    grown = c.grown;
    kept = c.kept;
    urls = c.urls;
  }
  one-Counts n it s _ (repeated h g) c = record {
    items = omega (arith, c.items);
    grown = c.grown;
    kept = c.kept;
    urls = c.urls;
  }
  one-Counts n it s _ (known h g k) c = record {
    items = omega (arith, c.items);
    grown = c.grown;
    kept = c.kept;
    urls = c.urls;
  }
  one-Counts n it s _ (new h g k) c =
      insert_job-Counts n it (see fold_case it s)
        (record { items = c.items; grown = c.grown; kept = c.kept; urls = c.urls })

  all-Counts :
      (items : List Item) (n : ℕ) (s : State)
      → Counts n s
      → Counts (n + length items) (ingest_all fold_case violates created_by status items s)
  unfolding ingest_all
  all-Counts [] n s c = subst (λ k. Counts k s) (add_zero n) c
  all-Counts (it ∷ items) n s c =
      subst (λ k. Counts k (ingest_all fold_case violates created_by status (it ∷ items) s))
        (add_suc n (length items))
        (all-Counts items (suc n) (ingest_one fold_case violates created_by status it s) (
          one-Counts n it s (ingest_one fold_case violates created_by status it s)
            (step fold_case violates created_by status it s) c))

  -- Whichever flushes meet a row of another writer: the jobs created and the items skipped add up to the items,
  -- the table grows by at most as many rows as jobs are created, and every job created has an address that is
  -- empty or begins with `http://` or `https://`.
  pub ingest_jobs_accounts :
      (items : List Item)
      → let r = ingest_jobs fold_case violates created_by status items rows in
        (length r.1.0 + r.1.1 ≡ length items)
        × ((length r.0 ≤ length r.1.0 + length rows) × All HasSafeUrl r.1.0)
  unfolding ingest_jobs
  ingest_jobs_accounts items =
      let end = ingest_all fold_case violates created_by status items (start rows) in
      let c : Counts (0 + length items) end =
        all-Counts items 0 (start rows)
          (record { items = refl; grown = omega arith; kept = refl; urls = tt }) in
      let size : length (visible end) ≡ length end.added + length rows =
        length-append end.added end.committed ∙ ap (λ l. length end.added + length l) c.kept in
      (omega (arith, c.items), (omega (arith, size, c.grown), c.urls))
