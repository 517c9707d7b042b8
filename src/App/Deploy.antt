-- ===== src/App/Deploy.antt =====
-- The deployment flags and the start-up guard of app/deploy.py. The environment is a dict; `urlsplit` and
-- `ip_address` are parameters.
use mathlib.Core.Path.{subst}
use job_squire.Base.{
  Bool, true, false, not, ◌&&◌, ◌≡◌, ◌↔◌, refl, sym, ap, ◌∙◌, inl, inr, Option, none, some, List,
  [], ◌∷◌, ◌++◌, Text, txt, nonempty, strip, lower, starts_with, contains, ◌==◌, list_eq, nat_eq,
  if◌then◌else◌, Outcome, returns, raises, Bool-cases,
}
use job_squire.Base.Dict.{Dict, lookup}

pub data Mode : Type 0 where
  local : Mode
  network : Mode

pub record Flags : Type 0 where
  pub mode : Mode
  pub trust_proxy : Bool
  pub secure_cookie : Bool

pub data Severity : Type 0 where
  fatal : Severity
  warning : Severity

-- An issue without its `reason` and `fix`, which are fixed texts for each severity and variable.
pub record Issue : Type 0 where
  pub severity : Severity
  pub mode : Mode
  pub variable : Text
  pub value : Text

-- What ends the start: `sys.exit(1)`, or a `ValueError` of `urlsplit`.
pub data Stop : Type 0 where
  exit : List Issue → Stop
  invalid_url : Stop

abbrev pub Env : Type 0
Env = Dict Text Text

-- `_PRESETS`, which has one value for both flags of a mode.
abbrev pub preset : Mode → Bool
preset local = false
preset network = true

unfoldable pub is_true_word : Text → Bool
unfolding list_eq nat_eq
is_true_word s = contains (txt "1" ∷ txt "true" ∷ txt "yes" ∷ txt "on" ∷ []) s

-- `_bool_env`
unfoldable pub bool_env : Env → Text → Bool → Bool
unfolding lookup is_true_word
bool_env env name default = elim (lookup name env) [
  | none ↦ default
  | some val ↦ is_true_word (lower (strip val))
]

-- `mode if mode in _PRESETS else DEFAULT_MODE`
unfoldable pub mode_of : Text → Mode
unfolding list_eq nat_eq
mode_of s = if s == txt "network" then network else local

unfoldable pub resolve_deploy_mode : Env → Mode
unfolding lookup mode_of
resolve_deploy_mode env = elim (lookup (txt "DEPLOY_MODE") env) [
  | none ↦ local
  | some val ↦ mode_of (lower (strip val))
]

unfoldable pub resolve_deploy_flags : Env → Flags
unfolding resolve_deploy_mode bool_env
resolve_deploy_flags env =
    let m = resolve_deploy_mode env in
    record {
      mode = m;
      trust_proxy = bool_env env (txt "TRUST_PROXY") (preset m);
      secure_cookie = bool_env env (txt "SESSION_COOKIE_SECURE") (preset m);
    }

-- `os.environ.get(name, default)`
unfoldable pub env_or : Env → Text → Text → Text
unfolding lookup
env_or env name default = elim (lookup name env) [ none ↦ default | some val ↦ val ]

-- `os.environ.get("PUBLIC_URL", "").strip()`
unfoldable pub public_url_of : Env → Text
unfolding env_or
public_url_of env = strip (env_or env (txt "PUBLIC_URL") [])

unfoldable pub is_https : Text → Bool
is_https url = starts_with (lower url) (txt "https://")

unfoldable pub fatal_of : List Issue → List Issue
fatal_of [] = []
fatal_of (i ∷ issues) = elim i.severity [ fatal ↦ i ∷ fatal_of issues | warning ↦ fatal_of issues ]

unfoldable pub warnings_of : List Issue → List Issue
warnings_of [] = []
warnings_of (i ∷ issues) = elim i.severity [
  | fatal ↦ warnings_of issues
  | warning ↦ i ∷ warnings_of issues
]

unfoldable pub guard : List Issue → List Issue → Outcome Stop (List Issue)
guard [] warnings = returns warnings
guard (i ∷ fatals) warnings = raises (exit (i ∷ fatals))

unfoldable pub conclude : Option (List Issue) → Outcome Stop (List Issue)
conclude none = raises invalid_url
conclude (some issues) = guard (fatal_of issues) (warnings_of issues)

-- `hostname url` is the host of `urlsplit(url)`, empty where it has none, and `none` where `urlsplit` raises.
-- `is_loopback_ip host` is `none` where `ip_address` raises.
module _ (hostname : Text → Option Text) (is_loopback_ip : Text → Option Bool) where
  unfoldable pub is_loopback_host : Text → Bool
  is_loopback_host host =
      if not (nonempty host)
      then true
      else if host == txt "localhost"
      then true
      else elim (is_loopback_ip host) [ none ↦ false | some b ↦ b ]

  -- `_is_loopback_url`; `none` is the `ValueError` of `urlsplit`.
  unfoldable pub is_loopback_url : Text → Option Bool
  is_loopback_url url = elim (hostname url) [
    | none ↦ none
    | some host ↦ some (is_loopback_host (lower (strip host)))
  ]

  unfoldable pub network_issues : Env → Flags → Text → List Issue
  network_issues env flags url =
      (if is_https url
        then []
        else record {
          severity = fatal;
          mode = flags.mode;
          variable = txt "PUBLIC_URL";
          value = if nonempty url then url else txt "(unset)";
        }
          ∷ [])
      ++ (if flags.trust_proxy
          then []
          else record {
            severity = fatal;
            mode = flags.mode;
            variable = txt "TRUST_PROXY";
            value = env_or env (txt "TRUST_PROXY") (txt "(unset)");
          }
            ∷ [])

  unfoldable pub local_warning : Flags → Text → Issue
  local_warning flags url = record {
    severity = warning;
    mode = flags.mode;
    variable = txt "PUBLIC_URL";
    value = url;
  }

  unfoldable pub local_issues : Flags → Text → Option (List Issue)
  local_issues flags [] = some []
  local_issues flags (c ∷ url) = elim (is_loopback_url (c ∷ url)) [
    | none ↦ none
    | some true ↦ some []
    | some false ↦ some (local_warning flags (c ∷ url) ∷ [])
  ]

  unfoldable pub issues_in : Mode → Env → Flags → Option (List Issue)
  issues_in network env flags = some (network_issues env flags (public_url_of env))
  issues_in local env flags = local_issues flags (public_url_of env)

  unfoldable pub evaluate_startup_guard : Env → Flags → Option (List Issue)
  evaluate_startup_guard env flags = issues_in flags.mode env flags

  -- What is returned are the issues whose messages the application shows.
  unfoldable pub enforce_startup_guard : Env → Flags → Outcome Stop (List Issue)
  enforce_startup_guard env flags = conclude (evaluate_startup_guard env flags)

  by_mode :
      (m : Mode) (env : Env) (flags : Flags)
      → flags.mode ≡ m
      → enforce_startup_guard env flags ≡ conclude (issues_in m env flags)
  unfolding enforce_startup_guard evaluate_startup_guard
  by_mode m env flags h = ap (λ x. conclude (issues_in x env flags)) h

  network_case :
      (env : Env) (flags : Flags) (url : Text)
      → (conclude (some (network_issues env flags url)) ≡ returns [])
        ↔ ((is_https url ≡ true) × (flags.trust_proxy ≡ true))
  unfolding conclude network_issues fatal_of warnings_of guard
  network_case env flags url = elim (Bool-cases (is_https url)) [
    | inl u ↦ elim (Bool-cases flags.trust_proxy) [
      | inl p ↦ simp (u, p) ((λ _. (refl, refl)), (λ _. refl))
      | inr p ↦ simp (u, p) ((λ e. absurd (cc e)), (λ e. absurd (cc e.1)))
    ]
    | inr u ↦ elim (Bool-cases flags.trust_proxy) [
      | inl p ↦ simp (u, p) ((λ e. absurd (cc e)), (λ e. absurd (cc e.0)))
      | inr p ↦ simp (u, p) ((λ e. absurd (cc e)), (λ e. absurd (cc e.0)))
    ]
  ]

  -- In network mode, whatever the address, the start goes on, without a warning, exactly if `PUBLIC_URL` begins with
  -- `https://` and the proxy is trusted.
  pub enforce_startup_guard-network :
      (env : Env) (flags : Flags)
      → flags.mode ≡ network
      → (enforce_startup_guard env flags ≡ returns [])
        ↔ ((is_https (public_url_of env) ≡ true) × (flags.trust_proxy ≡ true))
  unfolding issues_in
  enforce_startup_guard-network env flags h =
      subst
        (λ (o : Outcome Stop (List Issue)).
          (o ≡ returns []) ↔ ((is_https (public_url_of env) ≡ true) × (flags.trust_proxy ≡ true)))
        (sym (by_mode network env flags h)) (network_case env flags (public_url_of env))

  -- The warning that local mode gives of an address with a host.
  abbrev pub warned : Flags → Text → Text → List Issue
  warned flags host url =
      if nonempty url && not (is_loopback_host (lower (strip host)))
      then local_warning flags url ∷ []
      else []

  local_case :
      (flags : Flags) (host url : Text)
      → hostname url ≡ some host
      → conclude (local_issues flags url) ≡ returns (warned flags host url)
  unfolding conclude local_issues local_warning is_loopback_url fatal_of warnings_of guard
  local_case flags host [] e = refl
  local_case flags host (c ∷ url) e = elim (Bool-cases (is_loopback_host (lower (strip host)))) [
    | inl b ↦ rw (loopback true b, b, conclude, local_issues) refl
    | inr b ↦ rw (loopback false b, b, conclude, local_issues) refl
  ]
    where
      loopback :
          (x : Bool)
          → is_loopback_host (lower (strip host)) ≡ x
          → is_loopback_url (c ∷ url) ≡ some x
      loopback x b = rw (e, is_loopback_url) (ap some b)

  -- In local mode with a `PUBLIC_URL` whose host can be read, the start goes on. It warns of the address exactly if
  -- one is set and its host is no loopback address.
  pub enforce_startup_guard-local :
      (env : Env) (flags : Flags) (host : Text)
      → flags.mode ≡ local
      → hostname (public_url_of env) ≡ some host
      → enforce_startup_guard env flags ≡ returns (warned flags host (public_url_of env))
  unfolding issues_in
  enforce_startup_guard-local env flags host h e =
      by_mode local env flags h ∙ local_case flags host (public_url_of env) e
