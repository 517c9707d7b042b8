-- ===== src/Tests/Cli.antt =====
-- Names, a registry of two instances, and their ports.
use job_squire.Base.{
  List, Bool, true, false, not, ◌≡◌, ◌≢◌, ◌↔◌, ◌⊎◌, refl, Option, none, some, [], ◌∷◌, Text, txt,
  list_eq, nat_eq, bool_eq, option_eq, ◌==◌, strip, lower, strip_chars, Outcome, returns, raises,
}
use job_squire.Cli.Slug.{
  sanitize_slug, clean, gaps_to_hyphens, drop_invalid, collapse, is_gap, is_slug_char,
}
use job_squire.Cli.Slug.Shape.{IsSlug, sanitize_slug-IsSlug}
use job_squire.Cli.Slug.Fixed.{sanitize_slug_iff}
use job_squire.Cli.Registry.{
  registry_version, find, Instance, File, missing, holds, RegistryError, name_collision,
  NewInstance, mode, get_instance, find, load_registry, is_taken, or_derived, derive_cookie_name,
  new_row, add_row, add_instance, are_known, set_field, set_fields, update_rows, update_loaded,
  update_instance, without, remove_loaded, remove_instance, ObservedState,
}
use job_squire.Cli.Registry.Lookup.{add_instance_collides}
use job_squire.Cli.Registry.Refines.{IsView, apply_operations, perform_all-IsView}
use job_squire.Cli.Registry.Names.{
  add, update, remove, perform_all, IsRegistry, perform_all-IsRegistry,
}
use job_squire.Base.Dict.{lookup, insert, erase}
use job_squire.Cli.QueryConfig.{
  Config, empty_config, set_instance, next_default, is_set, without_slash, next_token, old_token,
  clear_token, clear_found, remove_instance_config, remove_found, first_key, resolve_instance_name,
}
use job_squire.Cli.QueryConfig.Default.{set, clear, HasDefault, Resolved, perform_all-HasDefault}
use job_squire.Cli.QueryConfig.Default
use job_squire.Cli.Ports.{allocate_port_pair, Allocated, allocate_port_pair-IsFirst}

slug : Text → Option Text
unfolding sanitize_slug clean gaps_to_hyphens drop_invalid collapse is_gap is_slug_char strip lower
    strip_chars nat_eq
slug = sanitize_slug

slug_demo : slug (txt " My__Job  Squire!-") ≡ some (txt "my-job-squire")
unfolding slug
slug_demo = refl

sanitize_slug-IsSlug_example : IsSlug (txt "a-b")
unfolding slug
sanitize_slug-IsSlug_example = sanitize_slug-IsSlug (txt " A_b ") (txt "a-b") refl

sanitize_slug_iff_example : (sanitize_slug (txt "a-b") ≡ some (txt "a-b")) ↔ IsSlug (txt "a-b")
sanitize_slug_iff_example = sanitize_slug_iff (txt "a-b")

abbrev work : NewInstance
work = record {
  name = txt "Work";
  mode = txt "local";
  runtime = txt "docker";
  data_dir = txt "/w";
  public_url = txt "u";
  app_port = some 8080;
  mcp_port = some 9000;
  cookie_name = none;
  created = none;
}

abbrev work_row : Instance
work_row = record {
  name = txt "work";
  mode = txt "local";
  runtime = txt "docker";
  data_dir = txt "/w";
  app_port = some 8080;
  mcp_port = some 9000;
  cookie_name = txt "work_session";
  public_url = txt "u";
  created = txt "D";
}

abbrev home_row : Instance
home_row = record {
  name = txt "home";
  mode = txt "local";
  runtime = txt "docker";
  data_dir = txt "/h";
  app_port = some 8081;
  mcp_port = none;
  cookie_name = txt "home_session";
  public_url = txt "u";
  created = txt "D";
}

abbrev one : File
one = holds 1 (home_row ∷ [])

abbrev both : File
both = holds 1 (home_row ∷ work_row ∷ [])

adding : Outcome RegistryError (File × Instance)
unfolding slug add_instance add_row new_row is_taken or_derived derive_cookie_name load_registry
    list_eq
adding = add_instance (txt "D") work one

add_instance_collides_example :
    ((some work_row ≡ none)
      × ((x : File × Instance) × (add_instance (txt "D") work both ≡ returns x)))
    ⊎ ((some work_row ≢ none) × (add_instance (txt "D") work both ≡ raises name_collision))
unfolding slug get_instance find load_registry list_eq
add_instance_collides_example =
    add_instance_collides (txt "D") (txt "work") work both (some work_row) refl refl

updating : Outcome RegistryError (File × Instance)
unfolding update_instance update_loaded update_rows are_known set_fields set_field load_registry
    list_eq nat_eq
updating = update_instance (txt "work") (mode (txt "proxy") ∷ []) both

abbrev moved_row : Instance
moved_row = record work_row { mode = txt "proxy" }

removing : Outcome RegistryError (File × Bool)
unfolding remove_instance remove_loaded without load_registry list_eq nat_eq
removing = remove_instance (txt "work") both

perform_all-IsRegistry_example :
    IsRegistry
      (perform_all (add (txt "D") work ∷ add (txt "E") work ∷ remove (txt "home") ∷ []) missing)
perform_all-IsRegistry_example =
    perform_all-IsRegistry (add (txt "D") work ∷ add (txt "E") work ∷ remove (txt "home") ∷ [])
      missing tt

perform_all-IsView_example :
    IsView
      (perform_all
        (add (txt "D") work
          ∷ update (txt "work") (mode (txt "proxy") ∷ [])
          ∷ remove (txt "home")
          ∷ [])
        missing)
      (apply_operations
        (add (txt "D") work
          ∷ update (txt "work") (mode (txt "proxy") ∷ [])
          ∷ remove (txt "home")
          ∷ [])
        (λ n. none))
unfolding load_registry find
perform_all-IsView_example =
    perform_all-IsView
      (add (txt "D") work
        ∷ update (txt "work") (mode (txt "proxy") ∷ [])
        ∷ remove (txt "home")
        ∷ [])
      missing (λ n. none) ((registry_version, []), (refl, λ n. refl))

abbrev seen : ObservedState
seen = record {
  container_running = true;
  container_name = some (txt "job-squire-work");
  app_port = some 8080;
  mcp_port = none;
  data_dir_exists = some true;
}

allocate_port_pair-IsFirst_example :
    Allocated
      (λ p. not (p == 8082))
      (home_row ∷ work_row ∷ [])
      (allocate_port_pair (λ p. not (p == 8082)) (home_row ∷ work_row ∷ []))
allocate_port_pair-IsFirst_example =
    allocate_port_pair-IsFirst (λ p. not (p == 8082)) (home_row ∷ work_row ∷ [])

abbrev operations : List job_squire.Cli.QueryConfig.Default.Operation
operations =
    set (txt "home") (txt "http://h/mcp/") (some (txt "t")) false none
    ∷ set (txt "work") (txt "http://w/mcp") none false (some true)
    ∷ job_squire.Cli.QueryConfig.Default.remove (txt "work")
    ∷ clear (txt "home")
    ∷ []

configured : Option Text
unfolding set_instance next_default is_set without_slash next_token old_token clear_token
    clear_found remove_instance_config remove_found first_key lookup insert erase list_eq nat_eq
    option_eq
configured = (job_squire.Cli.QueryConfig.Default.perform_all operations empty_config).default

home_is_default : configured ≡ some (txt "home")
unfolding configured
home_is_default = refl

perform_all-HasDefault_example :
    HasDefault (job_squire.Cli.QueryConfig.Default.perform_all operations empty_config)
perform_all-HasDefault_example = perform_all-HasDefault operations empty_config tt

abbrev home_config : Config
home_config = set_instance (txt "home") (txt "http://h/mcp/") none false none empty_config
