-- ===== src/Cli/QueryConfig.antt =====
-- The configuration of the query client: job_squire_cli/job_squire_cli/query/config.py. The operations work on the
-- content of a file that could be read, where a missing file is the empty configuration. The proofs stand in the
-- module below.
pub mod Default
use job_squire.Base.{
  ℕ, Bool, true, false, not, ◌&&◌, ◌||◌, Option, none, some, List, [], ◌∷◌, Text, txt, nonempty,
  rstrip_chars, ◌==◌, list_eq, nat_eq, option_eq, if◌then◌else◌, Outcome, returns, raises,
}
use job_squire.Base.Dict.{Dict, lookup, insert, erase}

pub record Entry : Type 0 where
  pub endpoint : Text
  pub token : Option Text

pub record Config : Type 0 where
  pub default : Option Text
  pub instances : Dict Text Entry

-- `QueryConfigError` by its message, and the `KeyError` of a default that has no entry.
pub data QueryConfigError : Type 0 where
  unknown_instance : QueryConfigError
  nothing_configured : QueryConfigError
  no_default : QueryConfigError
  missing_endpoint : QueryConfigError
  key_error : QueryConfigError

pub record QueryConfig : Type 0 where
  pub endpoint : Text
  pub token : Option Text
  pub instance_name : Option Text

abbrev pub empty_config : Config
empty_config = record { default = none; instances = [] }

-- `s.rstrip("/")`
unfoldable pub without_slash : Text → Text
without_slash = rstrip_chars (b'/' ∷ [])

-- `bool(x)` for a text or `None`.
unfoldable pub is_set : Option Text → Bool
is_set none = false
is_set (some s) = nonempty s

unfoldable pub old_token : Option Entry → Option Text
old_token none = none
old_token (some e) = e.token

-- The token of the entry: cleared, given, or kept.
unfoldable pub next_token : Bool → Option Text → Option Text → Option Text
next_token true given old = none
next_token false none old = old
next_token false (some t) old = some t

-- The default after an upsert of `name`.
unfoldable pub next_default : Text → Option Bool → Option Text → Option Text
next_default name (some true) old = some name
next_default name (some false) old = if old == some name then none else old
next_default name none old = if is_set old then old else some name

unfoldable pub set_instance : Text → Text → Option Text → Bool → Option Bool → Config → Config
set_instance name endpoint token clear make_default cfg = record {
  default = next_default name make_default cfg.default;
  instances =
      insert name
        (record {
          endpoint = without_slash endpoint;
          token = next_token clear token (old_token (lookup name cfg.instances));
        })
        cfg.instances;
}

unfoldable pub clear_found : Text → Option Entry → Config → Config
clear_found name none cfg = cfg
clear_found name (some e) cfg = record cfg {
  instances = insert name (record { endpoint = e.endpoint; token = none }) cfg.instances;
}

unfoldable pub clear_token : Text → Config → Config
clear_token name cfg = clear_found name (lookup name cfg.instances) cfg

-- `next(iter(d), None)`
unfoldable pub first_key : Dict Text Entry → Option Text
first_key [] = none
first_key ((k, e) ∷ d) = some k

unfoldable pub remove_found : Text → Option Entry → Config → Config
remove_found name none cfg = cfg
remove_found name (some e) cfg =
    let left = erase name cfg.instances in
    record {
      default = if cfg.default == some name then first_key left else cfg.default;
      instances = left;
    }

unfoldable pub remove_instance_config : Text → Config → Config
remove_instance_config name cfg = remove_found name (lookup name cfg.instances) cfg

unfoldable pub sole_instance : Dict Text Entry → Outcome QueryConfigError Text
sole_instance [] = raises nothing_configured
sole_instance ((k, e) ∷ []) = returns k
sole_instance ((k, e) ∷ x ∷ d) = raises no_default

unfoldable pub default_instance : Option Text → Dict Text Entry → Outcome QueryConfigError Text
default_instance none d = sole_instance d
default_instance (some name) d = if nonempty name then returns name else sole_instance d

-- `_resolve_instance_name`
unfoldable pub resolve_instance_name : Config → Option Text → Outcome QueryConfigError Text
resolve_instance_name cfg none = default_instance cfg.default cfg.instances
resolve_instance_name cfg (some name) =
    if nonempty name
    then elim (lookup name cfg.instances) [ none ↦ raises unknown_instance | some e ↦ returns name ]
    else default_instance cfg.default cfg.instances

-- The end of `load_query_config`.
unfoldable pub query_entry : Text → Option Entry → Outcome QueryConfigError QueryConfig
query_entry name none = raises key_error
query_entry name (some e) =
    if nonempty e.endpoint
    then returns
        (record { endpoint = without_slash e.endpoint; token = e.token; instance_name = some name })
    else raises missing_endpoint

unfoldable pub query_file :
    Config → Outcome QueryConfigError Text → Outcome QueryConfigError QueryConfig
query_file cfg (raises e) = raises e
query_file cfg (returns name) = query_entry name (lookup name cfg.instances)

-- The first two arguments are the environment variables of the endpoint and the token.
unfoldable pub load_query_config :
    Option Text → Option Text → Config → Option Text → Outcome QueryConfigError QueryConfig
load_query_config none env_token cfg name = query_file cfg (resolve_instance_name cfg name)
load_query_config (some env_endpoint) env_token cfg name =
    if nonempty env_endpoint
    then returns
        (record { endpoint = without_slash env_endpoint; token = env_token; instance_name = none })
    else query_file cfg (resolve_instance_name cfg name)
