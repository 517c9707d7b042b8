-- ===== src/App/Ingest/Again.antt =====
-- Ingesting the same items again creates nothing.
use mathlib.Core.Path.{subst}
use job_squire.Base.{
  ℕ, ◌≤◌, ◌⊎◌, All, Bool, true, false, not, ◌||◌, ◌≡◌, refl, ap, sym, ◌∙◌, inl, inr, List, [], ◌∷◌,
  Text, nonempty, strip, lower, ==_refl, contains, list_eq, nat_eq, option_eq, arith, Bool-cases,
}
use job_squire.App.Ingest.{
  Item, Job, norm, batch_key, has_external, has_title, is_known, job_of, State, skip, see, visible,
  insert_job, ingest_one, ingest_all, start, ingest_jobs,
}

-- Whatever item is known among `rows` is known among `more`.
abbrev pub Knows : (Text → Text) → List Job → List Job → Type 0
Knows fold_case more rows =
    (it : Item) → is_known fold_case it rows ≡ true → is_known fold_case it more ≡ true

Knows-refl : (fold_case : Text → Text) (rows : List Job) → Knows fold_case rows rows
Knows-refl fold_case rows it h = h

Knows-cons : (fold_case : Text → Text) (j : Job) (rows : List Job) → Knows fold_case (j ∷ rows) rows
unfolding is_known has_external has_title
Knows-cons fold_case j rows it h = ground arith

abbrev pub IsAscii : Text → Type 0
IsAscii s = All (λ c. c ≤ 127) s

-- An item that has an external id, or whose company and title are ASCII.
abbrev pub IsFindable : Item → Type 0
IsFindable it =
    (nonempty (strip it.external_id) ≡ true)
    ⊎ (IsAscii (strip it.company) × IsAscii (strip it.title))

-- On ASCII texts, `lower()` maps the ASCII letters.
abbrev pub FoldsAscii : (Text → Text) → Type 0
FoldsAscii fold_case = (s : Text) → IsAscii s → fold_case s ≡ lower s

is_known-job_of :
    (fold_case : Text → Text) (created_by status : Text) (it : Item) (rows : List Job)
    → FoldsAscii fold_case
    → IsFindable it
    → is_known fold_case it (job_of created_by status it ∷ rows) ≡ true
unfolding is_known has_external has_title job_of norm
is_known-job_of fold_case created_by status it rows law (inl e) =
    ground (arith, e, ==_refl (strip it.source), ==_refl (strip it.external_id))
is_known-job_of fold_case created_by status it rows law (inr (c, t)) =
    rw (law (strip it.company) c, law (strip it.title) t)
      (ground (arith, ==_refl (lower (strip it.company)), ==_refl (lower (strip it.title))))

module _ (fold_case : Text → Text) (violates : ℕ → Bool) (created_by status : Text) where
  -- The branches of `ingest_one`.
  pub data Step (it : Item) (s : State) : State → Type 0 where
    invalid :
        (not (nonempty (strip it.title)) || not (nonempty (strip it.company))) ≡ true
        → Step it s (skip s)
    repeated :
        (not (nonempty (strip it.title)) || not (nonempty (strip it.company))) ≡ false
        → contains s.seen (batch_key fold_case it) ≡ true
        → Step it s (skip s)
    known :
        (not (nonempty (strip it.title)) || not (nonempty (strip it.company))) ≡ false
        → contains s.seen (batch_key fold_case it) ≡ false
        → is_known fold_case it (visible s) ≡ true
        → Step it s (skip (see fold_case it s))
    new :
        (not (nonempty (strip it.title)) || not (nonempty (strip it.company))) ≡ false
        → contains s.seen (batch_key fold_case it) ≡ false
        → is_known fold_case it (visible s) ≡ false
        → Step it s (
            insert_job fold_case violates created_by status
              (job_of created_by status it)
              (see fold_case it s))

  pub step :
      (it : Item) (s : State) → Step it s (ingest_one fold_case violates created_by status it s)
  unfolding ingest_one
  step it s =
      elim (Bool-cases (not (nonempty (strip it.title)) || not (nonempty (strip it.company)))) [
        | inl h ↦ rw h (invalid h)
        | inr h ↦ elim (Bool-cases (contains s.seen (batch_key fold_case it))) [
          | inl g ↦ rw (h, g) (repeated h g)
          | inr g ↦ elim (Bool-cases (is_known fold_case it (visible s))) [
            | inl k ↦ rw (h, g, k) (known h g k)
            | inr k ↦ rw (h, g, k) (new h g k)
          ]
        ]
      ]

abbrev pub never : ℕ → Bool
never n = false

module _ (fold_case : Text → Text) (created_by status : Text) where
  ingest_one-Knows :
      (it : Item) (s t : State)
      → Step fold_case never created_by status it s t
      → Knows fold_case (visible t) (visible s)
  unfolding skip see insert_job
  ingest_one-Knows it s _ (invalid h) = Knows-refl fold_case (visible s)
  ingest_one-Knows it s _ (repeated h g) = Knows-refl fold_case (visible s)
  ingest_one-Knows it s _ (known h g k) = Knows-refl fold_case (visible s)
  ingest_one-Knows it s _ (new h g k) =
      Knows-cons fold_case (job_of created_by status it) (visible s)

  knows_one :
      (it : Item) (s t : State)
      → FoldsAscii fold_case
      → IsFindable it
      → Step fold_case never created_by status it s t
      → (not (nonempty (strip it.title)) || not (nonempty (strip it.company))) ≡ false
      → contains s.seen (batch_key fold_case it) ≡ false
      → (is_known fold_case it (visible t) ≡ true) × (t.seen ≡ batch_key fold_case it ∷ s.seen)
  unfolding skip see insert_job
  knows_one it s _ law a (invalid h) v w = absurd (cc (h, v))
  knows_one it s _ law a (repeated h g) v w = absurd (cc (g, w))
  knows_one it s _ law a (known h g k) v w = (k, refl)
  knows_one it s _ law a (new h g k) v w =
      (is_known-job_of fold_case created_by status it (visible s) law a, refl)

  -- A second state in which the item is known, or is not looked up, does the same but creates nothing.
  abbrev Follows : Item → State → State → Type 0
  Follows it s t =
      ((ingest_one fold_case never created_by status it t).seen
        ≡ (ingest_one fold_case never created_by status it s).seen)
      × (((ingest_one fold_case never created_by status it t).created ≡ t.created)
          × (visible (ingest_one fold_case never created_by status it t) ≡ visible t))

  follows :
      (it : Item) (s t : State)
      → FoldsAscii fold_case
      → IsFindable it
      → t.seen ≡ s.seen
      → Knows fold_case (visible t) (visible (ingest_one fold_case never created_by status it s))
      → Follows it s t
  unfolding ingest_one skip see
  follows it s t law a e k =
      elim (Bool-cases (not (nonempty (strip it.title)) || not (nonempty (strip it.company)))) [
        | inl h ↦ rw h (e, (refl, refl))
        | inr h ↦ elim (Bool-cases (contains s.seen (batch_key fold_case it))) [
          | inl g ↦
              let g' : contains t.seen (batch_key fold_case it) ≡ true =
                ap (λ l. contains l (batch_key fold_case it)) e ∙ g in
              rw (h, g, g') (e, (refl, refl))
          | inr g ↦
              let g' : contains t.seen (batch_key fold_case it) ≡ false =
                ap (λ l. contains l (batch_key fold_case it)) e ∙ g in
              let one =
                knows_one it s (ingest_one fold_case never created_by status it s) law a
                  (step fold_case never created_by status it s) h g in
              let k' : is_known fold_case it (visible t) ≡ true = k it one.0 in
              let second : skip (see fold_case it t)
                  ≡ ingest_one fold_case never created_by status it t =
                rw (h, g', k') refl in
              subst
                (λ (x : State).
                  (x.seen ≡ (ingest_one fold_case never created_by status it s).seen)
                  × ((x.created ≡ t.created) × (visible x ≡ visible t)))
                second (ap (λ l. batch_key fold_case it ∷ l) e ∙ sym one.1, (refl, refl))
        ]
      ]

  ingest_all-Knows :
      (items : List Item) (s : State)
      → Knows fold_case (visible (ingest_all fold_case never created_by status items s)) (visible s)
  unfolding ingest_all
  ingest_all-Knows [] s = Knows-refl fold_case (visible s)
  ingest_all-Knows (it ∷ items) s = λ x h.
      ingest_all-Knows items (ingest_one fold_case never created_by status it s) x (
        ingest_one-Knows it s (ingest_one fold_case never created_by status it s)
          (step fold_case never created_by status it s) x h)

  again :
      (items : List Item) (s t : State)
      → FoldsAscii fold_case
      → All IsFindable items
      → t.seen ≡ s.seen
      → Knows fold_case (visible t) (visible (ingest_all fold_case never created_by status items s))
      → ((ingest_all fold_case never created_by status items t).created ≡ t.created)
        × (visible (ingest_all fold_case never created_by status items t) ≡ visible t)
  unfolding ingest_all
  again [] s t law a e k = (refl, refl)
  again (it ∷ items) s t law a e k =
      let s' = ingest_one fold_case never created_by status it s in
      let t' = ingest_one fold_case never created_by status it t in
      let now : Follows it s t =
        follows it s t law a.0 e (λ x h. k x (ingest_all-Knows items s' x h)) in
      let rest = again items s' t' law a.1 now.0 (
        subst
          (λ v. Knows fold_case v (visible (ingest_all fold_case never created_by status items s')))
          (sym now.1.1) k) in
      (rest.0 ∙ now.1.0, rest.1 ∙ now.1.1)

  -- If no other writer interferes, every item has an external id or an ASCII company and title, and `lower()` maps
  -- ASCII texts as SQLite does, then ingesting the same items a second time creates no job and leaves the table as the
  -- first time left it, whatever the table.
  pub ingest_jobs_again :
      (items : List Item) (rows : List Job)
      → FoldsAscii fold_case
      → All IsFindable items
      → let after = (ingest_jobs fold_case never created_by status items rows).0 in
        let second = ingest_jobs fold_case never created_by status items after in
        (second.1.0 ≡ []) × (second.0 ≡ after)
  unfolding ingest_jobs
  ingest_jobs_again items rows law a =
      let table = visible (ingest_all fold_case never created_by status items (start rows)) in
      again items (start rows) (start table) law a refl (Knows-refl fold_case table)
