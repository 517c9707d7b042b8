-- ===== src/Cli/QueryConfig/Default.antt =====
-- The default of the configuration, through any sequence of operations.
use job_squire.Base.{
  Bool, true, false, ◌≡◌, ◌≢◌, ap, inl, inr, Option, none, some, List, [], ◌∷◌, Text, nonempty,
  ◌==◌, ==_iff, ==_refl, list_eq, nat_eq, option_eq, Outcome, returns, raises, Bool-cases,
  Option-cases,
}
use job_squire.Base.Dict.{Dict, lookup, insert, erase, lookup-insert, lookup-erase, lookup-cons}
use job_squire.Cli.QueryConfig.{
  Entry, Config, QueryConfigError, is_set, old_token, next_token, next_default, without_slash,
  set_instance, clear_found, clear_token, first_key, remove_found, remove_instance_config,
  sole_instance, default_instance, resolve_instance_name,
}

-- A default is the name of an entry.
abbrev pub IsConfigured : Option Text → Dict Text Entry → Type 0
IsConfigured none d = Unit
IsConfigured (some name) d = lookup name d ≢ none

abbrev pub HasDefault : Config → Type 0
HasDefault cfg = IsConfigured cfg.default cfg.instances

insert-configured :
    (name : Text) (e : Entry) (d : Dict Text Entry) → lookup name (insert name e d) ≢ none
insert-configured name e d h = absurd (cc (lookup-insert name name e d, ==_refl name, h))

insert-IsConfigured :
    (name : Text) (e : Entry) (o : Option Text) (d : Dict Text Entry)
    → IsConfigured o d
    → IsConfigured o (insert name e d)
insert-IsConfigured name e none d h = tt
insert-IsConfigured name e (some m) d h = λ p. elim (Bool-cases (m == name)) [
  | inl g ↦ absurd (cc (rw (lookup-insert m name e d, g) at p))
  | inr g ↦ h (rw (lookup-insert m name e d, g) at p)
]

next_default-IsConfigured :
    (name : Text) (e : Entry) (make : Option Bool) (o : Option Text) (d : Dict Text Entry)
    → IsConfigured o d
    → IsConfigured (next_default name make o) (insert name e d)
unfolding next_default
next_default-IsConfigured name e (some true) o d h = insert-configured name e d
next_default-IsConfigured name e (some false) o d h = elim (Bool-cases (o == some name)) [
  | inl g ↦ rw g tt
  | inr g ↦ rw g (insert-IsConfigured name e o d h)
]
next_default-IsConfigured name e none o d h = elim (Bool-cases (is_set o)) [
  | inl g ↦ rw g (insert-IsConfigured name e o d h)
  | inr g ↦ rw g (insert-configured name e d)
]

first_key-IsConfigured : (d : Dict Text Entry) → IsConfigured (first_key d) d
unfolding first_key
first_key-IsConfigured [] = tt
first_key-IsConfigured ((k, e) ∷ d) = λ p. absurd (cc (rw (lookup-cons k k e d, ==_refl k) at p))

erase-IsConfigured :
    (name : Text) (o : Option Text) (d : Dict Text Entry)
    → (o == some name) ≡ false
    → IsConfigured o d
    → IsConfigured o (erase name d)
erase-IsConfigured name none d n h = tt
erase-IsConfigured name (some m) d n h = λ p. elim (Bool-cases (m == name)) [
  | inl g ↦ differ ((==_iff m name).0 g)
  | inr g ↦ h (rw (lookup-erase m name d, g) at p)
]
  where
    differ : m ≡ name → ⊥
    differ q = absurd (cc ((==_iff (some m) (some name)).1 (ap some q), n))

set_instance-HasDefault :
    (name endpoint : Text) (token : Option Text) (clear : Bool) (make : Option Bool) (cfg : Config)
    → HasDefault cfg
    → HasDefault (set_instance name endpoint token clear make cfg)
unfolding set_instance
set_instance-HasDefault name endpoint token clear make cfg h =
    next_default-IsConfigured name
      (record {
        endpoint = without_slash endpoint;
        token = next_token clear token (old_token (lookup name cfg.instances));
      })
      make cfg.default cfg.instances h

clear_token-HasDefault :
    (name : Text) (cfg : Config) → HasDefault cfg → HasDefault (clear_token name cfg)
unfolding clear_token clear_found
clear_token-HasDefault name cfg h = go (lookup name cfg.instances)
  where
    go : (o : Option Entry) → HasDefault (clear_found name o cfg)
    go none = h
    go (some e) =
        insert-IsConfigured name (record { endpoint = e.endpoint; token = none }) cfg.default
          cfg.instances h

remove_instance_config-HasDefault :
    (name : Text) (cfg : Config) → HasDefault cfg → HasDefault (remove_instance_config name cfg)
unfolding remove_instance_config remove_found
remove_instance_config-HasDefault name cfg h = go (lookup name cfg.instances)
  where
    go : (o : Option Entry) → HasDefault (remove_found name o cfg)
    go none = h
    go (some e) = elim (Bool-cases (cfg.default == some name)) [
      | inl g ↦ simp g (first_key-IsConfigured (erase name cfg.instances))
      | inr g ↦ simp g (erase-IsConfigured name cfg.default cfg.instances g h)
    ]

-- A call that may write the file.
pub data Operation : Type 0 where
  set : Text → Text → Option Text → Bool → Option Bool → Operation
  clear : Text → Operation
  remove : Text → Operation

abbrev pub perform : Operation → Config → Config
perform (set name endpoint token erased make) cfg = set_instance name endpoint token erased make cfg
perform (clear name) cfg = clear_token name cfg
perform (remove name) cfg = remove_instance_config name cfg

abbrev pub perform_all : List Operation → Config → Config
perform_all [] cfg = cfg
perform_all (op ∷ ops) cfg = perform_all ops (perform op cfg)

perform-HasDefault : (op : Operation) (cfg : Config) → HasDefault cfg → HasDefault (perform op cfg)
perform-HasDefault (set name endpoint token erased make) cfg h =
    set_instance-HasDefault name endpoint token erased make cfg h
perform-HasDefault (clear name) cfg h = clear_token-HasDefault name cfg h
perform-HasDefault (remove name) cfg h = remove_instance_config-HasDefault name cfg h

-- From a configuration whose default, if it has one, is the name of an entry, such as the empty one, any sequence of
-- upserts, token removals and removals of instances leads to such a configuration.
pub perform_all-HasDefault :
    (ops : List Operation) (cfg : Config) → HasDefault cfg → HasDefault (perform_all ops cfg)
perform_all-HasDefault [] cfg h = h
perform_all-HasDefault (op ∷ ops) cfg h =
    perform_all-HasDefault ops (perform op cfg) (perform-HasDefault op cfg h)

-- What a resolution gives: the name of an entry, or an error.
abbrev pub Resolved : Dict Text Entry → Outcome QueryConfigError Text → Type 0
Resolved d (returns name) = lookup name d ≢ none
Resolved d (raises e) = Unit

sole_instance-Resolved : (d : Dict Text Entry) → Resolved d (sole_instance d)
unfolding sole_instance first_key
sole_instance-Resolved [] = tt
sole_instance-Resolved ((k, e) ∷ []) = first_key-IsConfigured ((k, e) ∷ [])
sole_instance-Resolved ((k, e) ∷ x ∷ d) = tt

default_instance-Resolved :
    (o : Option Text) (d : Dict Text Entry) → IsConfigured o d → Resolved d (default_instance o d)
unfolding default_instance
default_instance-Resolved none d h = sole_instance-Resolved d
default_instance-Resolved (some name) d h = elim (Bool-cases (nonempty name)) [
  | inl g ↦ rw g h
  | inr g ↦ rw g (sole_instance-Resolved d)
]

-- If the default, where there is one, is the name of an entry, then the name that is resolved, from an argument or
-- without one, is the name of an entry, so that no lookup of it fails.
resolve_instance_name-Resolved :
    (cfg : Config) (name : Option Text)
    → HasDefault cfg
    → Resolved cfg.instances (resolve_instance_name cfg name)
unfolding resolve_instance_name
resolve_instance_name-Resolved cfg none h = default_instance-Resolved cfg.default cfg.instances h
resolve_instance_name-Resolved cfg (some name) h = elim (Bool-cases (nonempty name)) [
  | inr g ↦ rw g (default_instance-Resolved cfg.default cfg.instances h)
  | inl g ↦ elim (Option-cases (lookup name cfg.instances)) [
    | inl l ↦ rw (g, l, resolve_instance_name) tt
    | inr (e, l) ↦ rw (g, l, resolve_instance_name) (λ p. absurd (cc (l, p)))
  ]
]
