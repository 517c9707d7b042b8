-- ===== src/App/Ingest.antt =====
-- `ingest_jobs` of app/search.py with `_norm` and `_http_url`. The proofs stand in the modules below. `lower()` of Python
-- maps letters beyond ASCII too, and is the parameter `fold_case` where that shows; the function `lower` of SQLite maps
-- the ASCII letters only, as `lower` here does.
pub mod Again
pub mod Account
use job_squire.Base.{
  ℕ, suc, ◌+◌, Bool, true, false, not, ◌&&◌, ◌||◌, Option, none, some, List, [], ◌∷◌, ◌++◌, Text,
  txt, nonempty, strip, lower, starts_with, ◌==◌, contains, list_eq, nat_eq, option_eq,
  if◌then◌else◌,
}

-- The fields of a found job. A field that is missing or `None` is empty, as `or ""` makes it.
pub record Item : Type 0 where
  pub title : Text
  pub company : Text
  pub source : Text
  pub external_id : Text
  pub location : Text
  pub url : Text
  pub salary : Text
  pub description : Text
  pub date_posted : Text

-- The columns of `Job` that the ingestion sets.
pub record Job : Type 0 where
  pub company : Text
  pub title : Text
  pub location : Text
  pub work_mode : Text
  pub source : Text
  pub external_id : Option Text
  pub url : Text
  pub salary : Text
  pub status : Text
  pub notes : Text
  pub created_by : Text

-- The `batch_key` of an item, as the list of its parts.
abbrev pub Key : Type 0
Key = List Text

-- `_norm`
unfoldable pub norm : (Text → Text) → Text → Text
norm fold_case s = fold_case (strip s)

-- `_http_url`. No letter beyond ASCII becomes one of these in lower case.
unfoldable pub http_url : Text → Text
http_url u =
    let url = strip u in
    if starts_with (lower url) (txt "http://") || starts_with (lower url) (txt "https://")
    then url
    else []

unfoldable pub batch_key : (Text → Text) → Item → Key
batch_key fold_case it =
    let ext = strip it.external_id in
    if nonempty ext
    then txt "ext" ∷ strip it.source ∷ ext ∷ []
    else txt "ct"
      ∷ norm fold_case it.company
      ∷ norm fold_case it.title
      ∷ norm fold_case it.location
      ∷ []

-- `Job.query.filter_by(source=source, external_id=ext).first()`
unfoldable pub has_external : Text → Text → List Job → Bool
has_external source ext [] = false
has_external source ext (j ∷ rows) =
    (j.source == source && j.external_id == some ext) || has_external source ext rows

-- The query on `db.func.lower` of the company and the title.
unfoldable pub has_title : Text → Text → List Job → Bool
has_title company title [] = false
has_title company title (j ∷ rows) =
    (lower j.company == company && lower j.title == title) || has_title company title rows

-- `exists`
unfoldable pub is_known : (Text → Text) → Item → List Job → Bool
is_known fold_case it rows =
    let ext = strip it.external_id in
    (nonempty ext && has_external (strip it.source) ext rows)
    || has_title (norm fold_case it.company) (norm fold_case it.title) rows

-- A blank line, and a middle dot between blanks.
abbrev pub blank_line : Text
blank_line = 10 ∷ 10 ∷ []

abbrev pub dot : Text
dot = 32 ∷ 183 ∷ 32 ∷ []

unfoldable pub notes_of : Item → Text
notes_of it =
    let notes = strip it.description in
    let source = strip it.source in
    if nonempty it.date_posted
    then if nonempty source
      then strip (
          notes
          ++ blank_line
          ++ txt "Posted: "
          ++ it.date_posted
          ++ dot
          ++ txt "Found via: "
          ++ source)
      else strip (notes ++ blank_line ++ txt "Posted: " ++ it.date_posted)
    else if nonempty source
    then strip (notes ++ blank_line ++ txt "Found via: " ++ source)
    else notes

unfoldable pub job_of : Text → Text → Item → Job
job_of created_by status it = record {
  company = strip it.company;
  title = strip it.title;
  location = strip it.location;
  work_mode = txt "Unknown";
  source = strip it.source;
  external_id = if nonempty (strip it.external_id) then some (strip it.external_id) else none;
  url = http_url it.url;
  salary = strip it.salary;
  status = status;
  notes = notes_of it;
  created_by = created_by;
}

-- The variables of the loop: the rows that are committed, the rows that the transaction adds, the keys seen,
-- and the two results. `flushes` counts the flushes.
pub record State : Type 0 where
  pub committed : List Job
  pub added : List Job
  pub seen : List Key
  pub created : List Job
  pub skipped : ℕ
  pub flushes : ℕ

unfoldable pub skip : State → State
skip s = record s { skipped = suc s.skipped }

unfoldable pub see : (Text → Text) → Item → State → State
see fold_case it s = record s { seen = batch_key fold_case it ∷ s.seen }

-- The queries see the committed rows and those of the transaction.
abbrev pub visible : State → List Job
visible s = s.added ++ s.committed

abbrev pub start : List Job → State
start rows = record {
  committed = rows;
  added = [];
  seen = [];
  created = [];
  skipped = 0;
  flushes = 0;
}

-- `violates n` says whether the n-th flush meets a row of another writer, so that it raises an
-- `IntegrityError`; that row itself is not shown here.
module _ (fold_case : Text → Text) (violates : ℕ → Bool) (created_by status : Text) where
  -- The flush. On an `IntegrityError` the session is rolled back, with all that the transaction added.
  unfoldable pub insert_job : Job → State → State
  insert_job j s =
      if violates s.flushes
      then record s { added = []; skipped = suc s.skipped; flushes = suc s.flushes }
      else record s { added = j ∷ s.added; created = s.created ++ j ∷ []; flushes = suc s.flushes }

  -- The body of the loop.
  unfoldable pub ingest_one : Item → State → State
  ingest_one it s =
      if not (nonempty (strip it.title)) || not (nonempty (strip it.company))
      then skip s
      else if contains s.seen (batch_key fold_case it)
      then skip s
      else if is_known fold_case it (visible s)
      then skip (see fold_case it s)
      else insert_job (job_of created_by status it) (see fold_case it s)

  unfoldable pub ingest_all : List Item → State → State
  ingest_all [] s = s
  ingest_all (it ∷ items) s = ingest_all items (ingest_one it s)

  -- The rows after the commit, with `created` and `skipped`.
  unfoldable pub ingest_jobs : List Item → List Job → List Job × (List Job × ℕ)
  ingest_jobs items rows =
      let s = ingest_all items (start rows) in (visible s, (s.created, s.skipped))
