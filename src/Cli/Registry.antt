-- ===== src/Cli/Registry.antt =====
-- The instance registry of job_squire_cli/job_squire_cli/ops/registry.py: the file of instances, and its
-- operations as functions of the file's content. The proofs stand in the modules below.
pub mod Rows
pub mod Lookup
pub mod Names
pub mod Divergence
pub mod Refines
use job_squire.Base.{
  ℕ, Bool, true, false, not, ◌&&◌, ◌||◌, Option, none, some, List, [], ◌∷◌, ◌++◌, Text, txt,
  nonempty, length, ◌==◌, list_eq, nat_eq, option_eq, if◌then◌else◌, Outcome, returns, raises,
  ◌>>=◌,
}
use job_squire.Cli.Slug.{sanitize_slug}

pub record Instance : Type 0 where
  pub name : Text
  pub mode : Text
  pub runtime : Text
  pub data_dir : Text
  pub app_port : Option ℕ
  pub mcp_port : Option ℕ
  pub cookie_name : Text
  pub public_url : Text
  pub created : Text

-- The registry file: it may be missing, or hold no JSON object. Its rows have the fields of `Instance`,
-- as this module writes them.
pub data File : Type 0 where
  missing : File
  malformed : File
  holds : ℕ → List Instance → File

-- `RegistryError` and its kinds.
pub data RegistryError : Type 0 where
  invalid_name : RegistryError
  name_collision : RegistryError
  unreadable : RegistryError
  unknown_field : RegistryError
  not_registered : RegistryError

-- The keyword arguments of `add_instance`.
pub record NewInstance : Type 0 where
  pub name : Text
  pub mode : Text
  pub runtime : Text
  pub data_dir : Text
  pub public_url : Text
  pub app_port : Option ℕ
  pub mcp_port : Option ℕ
  pub cookie_name : Option Text
  pub created : Option Text

-- A keyword argument of `update_instance`; `another` is `name` or a field that is not declared.
pub data Change : Type 0 where
  mode : Text → Change
  runtime : Text → Change
  data_dir : Text → Change
  app_port : Option ℕ → Change
  mcp_port : Option ℕ → Change
  cookie_name : Text → Change
  public_url : Text → Change
  created : Text → Change
  another : Text → Change

abbrev pub registry_version : ℕ
registry_version = 1

unfoldable pub derive_cookie_name : Text → Text
derive_cookie_name name = name ++ txt "_session"

unfoldable pub derive_compose_project : Text → Text
derive_compose_project name = txt "job-squire-" ++ name

unfoldable pub load_registry : File → Outcome RegistryError (ℕ × List Instance)
load_registry missing = returns (registry_version, [])
load_registry malformed = raises unreadable
load_registry (holds version rows) = returns (version, rows)

-- The first row of a name.
unfoldable pub find : Text → List Instance → Option Instance
find n [] = none
find n (i ∷ rows) = if i.name == n then some i else find n rows

unfoldable pub get_instance : Text → File → Outcome RegistryError (Option Instance)
get_instance n f = load_registry f >>= λ x. returns (find n x.1)

-- `any(row["name"] == slug for row in data["instances"])`
unfoldable pub is_taken : Text → List Instance → Bool
is_taken n [] = false
is_taken n (i ∷ rows) = i.name == n || is_taken n rows

-- `given or derived`
unfoldable pub or_derived : Option Text → Text → Text
or_derived none derived = derived
or_derived (some given) derived = if nonempty given then given else derived

-- The record that `add_instance` builds; `today` is the date of the call.
unfoldable pub new_row : Text → Text → NewInstance → Instance
new_row today slug new = record {
  name = slug;
  mode = new.mode;
  runtime = new.runtime;
  data_dir = new.data_dir;
  app_port = new.app_port;
  mcp_port = new.mcp_port;
  cookie_name = or_derived new.cookie_name (derive_cookie_name slug);
  public_url = new.public_url;
  created = or_derived new.created today;
}

unfoldable pub add_row :
    Text → Text → NewInstance → ℕ × List Instance → Outcome RegistryError (File × Instance)
add_row today slug new (version, rows) =
    if is_taken slug rows
    then raises name_collision
    else returns (holds version (rows ++ new_row today slug new ∷ []), new_row today slug new)

-- An operation gives the file that it leaves and its result, or raises and leaves the file as it was.
unfoldable pub add_instance : Text → NewInstance → File → Outcome RegistryError (File × Instance)
add_instance today new f = elim (sanitize_slug new.name) [
  | none ↦ raises invalid_name
  | some slug ↦ load_registry f >>= add_row today slug new
]

-- `set(changes) - (_INSTANCE_FIELD_NAMES - {"name"})` is empty.
unfoldable pub are_known : List Change → Bool
are_known [] = true
are_known (another field ∷ changes) = false
are_known (c ∷ changes) = are_known changes

unfoldable pub set_field : Change → Instance → Instance
set_field (mode v) i = record i { mode = v }
set_field (runtime v) i = record i { runtime = v }
set_field (data_dir v) i = record i { data_dir = v }
set_field (app_port v) i = record i { app_port = v }
set_field (mcp_port v) i = record i { mcp_port = v }
set_field (cookie_name v) i = record i { cookie_name = v }
set_field (public_url v) i = record i { public_url = v }
set_field (created v) i = record i { created = v }
set_field (another field) i = i

-- `row.update(changes)`
unfoldable pub set_fields : List Change → Instance → Instance
set_fields [] i = i
set_fields (c ∷ changes) i = set_fields changes (set_field c i)

-- The first row of the name is updated.
unfoldable pub update_rows : Text → List Change → List Instance → Option (List Instance × Instance)
update_rows n changes [] = none
update_rows n changes (i ∷ rows) =
    let rest = update_rows n changes rows in
    if i.name == n
    then some (set_fields changes i ∷ rows, set_fields changes i)
    else elim rest [ none ↦ none | some x ↦ some (i ∷ x.0, x.1) ]

unfoldable pub update_loaded :
    Text → List Change → ℕ × List Instance → Outcome RegistryError (File × Instance)
update_loaded n changes (version, rows) = elim (update_rows n changes rows) [
  | none ↦ raises not_registered
  | some x ↦ returns (holds version x.0, x.1)
]

unfoldable pub update_instance : Text → List Change → File → Outcome RegistryError (File × Instance)
update_instance n changes f =
    if are_known changes then load_registry f >>= update_loaded n changes else raises unknown_field

-- `[row for row in data["instances"] if row["name"] != name]`
unfoldable pub without : Text → List Instance → List Instance
without n [] = []
without n (i ∷ rows) = let rest = without n rows in if i.name == n then rest else i ∷ rest

-- The two lists have one length exactly if no row has the name.
unfoldable pub remove_loaded : Text → File → ℕ × List Instance → Outcome RegistryError (File × Bool)
remove_loaded n f (version, rows) =
    if length (without n rows) == length rows
    then returns (f, false)
    else returns (holds version (without n rows), true)

unfoldable pub remove_instance : Text → File → Outcome RegistryError (File × Bool)
remove_instance n f = load_registry f >>= remove_loaded n f

pub record ObservedState : Type 0 where
  pub container_running : Bool
  pub container_name : Option Text
  pub app_port : Option ℕ
  pub mcp_port : Option ℕ
  pub data_dir_exists : Option Bool

-- A `Drift` by its field, with what was expected and what was found.
pub data Drift : Type 0 where
  container : Text → Drift
  container_name : Text → Text → Drift
  app_port : Option ℕ → ℕ → Drift
  mcp_port : Option ℕ → ℕ → Drift
  data_dir : Text → Drift

-- The container that should run, whether one runs, and its name where that is known.
unfoldable pub container_drift : Text → Bool → Option Text → List Drift
container_drift project false name = container project ∷ []
container_drift project true none = []
container_drift project true (some n) = if n == project then [] else container_name project n ∷ []

unfoldable pub port_drift : (Option ℕ → ℕ → Drift) → Option ℕ → Option ℕ → List Drift
port_drift drift expected none = []
port_drift drift expected (some p) = if some p == expected then [] else drift expected p ∷ []

unfoldable pub data_drift : Text → Option Bool → List Drift
data_drift dir none = []
data_drift dir (some true) = []
data_drift dir (some false) = data_dir dir ∷ []

unfoldable pub check_divergence : Instance → ObservedState → List Drift
check_divergence i o =
    container_drift (derive_compose_project i.name) o.container_running o.container_name
    ++ port_drift app_port i.app_port o.app_port
    ++ port_drift mcp_port i.mcp_port o.mcp_port
    ++ data_drift i.data_dir o.data_dir_exists
