-- ===== src/Cli/Registry/Divergence.antt =====
-- When `check_divergence` reports nothing.
use job_squire.Base.{
  ℕ, Bool, true, false, ◌≡◌, ◌≢◌, ◌↔◌, refl, inl, inr, Option, none, some, List, [], ◌∷◌, ◌++◌,
  Text, ◌==◌, ==_iff, ==_refl, list_eq, nat_eq, option_eq, Bool-cases,
}
use job_squire.Cli.Registry.{
  Instance, ObservedState, Drift, app_port, mcp_port, derive_compose_project, container_drift,
  port_drift, data_drift, check_divergence,
}

-- What is observed agrees with what is expected, or nothing is observed.
abbrev pub Agrees : {A : Type 0} → A → Option A → Type 0
Agrees expected none = Unit
Agrees expected (some found) = found ≡ expected

-- A port that is observed is the port that is registered.
abbrev pub AgreesPort : Option ℕ → Option ℕ → Type 0
AgreesPort expected none = Unit
AgreesPort expected (some p) = some p ≡ expected

-- The container runs, and everything that is observed is as registered.
abbrev pub Matches : Instance → ObservedState → Type 0
Matches i o =
    (o.container_running ≡ true)
    × (Agrees (derive_compose_project i.name) o.container_name
        × (AgreesPort i.app_port o.app_port
            × (AgreesPort i.mcp_port o.mcp_port × (o.data_dir_exists ≢ some false))))

append_empty : {A : Type 0} (xs ys : List A) → (xs ++ ys ≡ []) ↔ ((xs ≡ []) × (ys ≡ []))
append_empty [] ys = ((λ h. (refl, h)), (λ h. h.1))
append_empty (x ∷ xs) ys = ((λ h. absurd (cc)), (λ h. absurd (cc h.0)))

container_drift_iff :
    (project : Text) (running : Bool) (name : Option Text)
    → (container_drift project running name ≡ []) ↔ ((running ≡ true) × Agrees project name)
unfolding container_drift
container_drift_iff project false name = ((λ h. absurd (cc h)), (λ h. absurd (cc h.0)))
container_drift_iff project true none = ((λ _. (refl, tt)), (λ _. refl))
container_drift_iff project true (some n) = elim (Bool-cases (n == project)) [
  | inl e ↦ rw e ((λ _. (refl, (==_iff n project).0 e)), (λ _. refl))
  | inr e ↦ rw e ((λ h. absurd (cc h)), (λ h. absurd (cc ((==_iff n project).1 h.1, e))))
]

port_drift_iff :
    (drift : Option ℕ → ℕ → Drift) (expected found : Option ℕ)
    → (port_drift drift expected found ≡ []) ↔ AgreesPort expected found
unfolding port_drift
port_drift_iff drift expected none = ((λ _. tt), (λ _. refl))
port_drift_iff drift expected (some p) = elim (Bool-cases (some p == expected)) [
  | inl e ↦ rw e ((λ _. (==_iff (some p) expected).0 e), (λ _. refl))
  | inr e ↦ rw e ((λ h. absurd (cc h)), (λ h. absurd (cc (h, e, ==_refl expected))))
]

data_drift_iff :
    (dir : Text) (found : Option Bool) → (data_drift dir found ≡ []) ↔ (found ≢ some false)
unfolding data_drift
data_drift_iff dir none = ((λ _ h. absurd (cc h)), (λ _. refl))
data_drift_iff dir (some true) = ((λ _ h. absurd (cc h)), (λ _. refl))
data_drift_iff dir (some false) = ((λ h. absurd (cc h)), (λ h. absurd (h refl)))

-- No drift is reported exactly if the container runs and each of its name, the two ports and the data
-- directory is as registered wherever it was observed.
check_divergence_iff :
    (i : Instance) (o : ObservedState) → (check_divergence i o ≡ []) ↔ Matches i o
unfolding check_divergence
check_divergence_iff i o =
    let project = derive_compose_project i.name in
    let containers = container_drift project o.container_running o.container_name in
    let apps = port_drift app_port i.app_port o.app_port in
    let mcps = port_drift mcp_port i.mcp_port o.mcp_port in
    let dirs = data_drift i.data_dir o.data_dir_exists in
    let last = append_empty (containers ++ apps ++ mcps) dirs in
    let middle = append_empty (containers ++ apps) mcps in
    let first = append_empty containers apps in
    let a = container_drift_iff project o.container_running o.container_name in
    let b = port_drift_iff app_port i.app_port o.app_port in
    let c = port_drift_iff mcp_port i.mcp_port o.mcp_port in
    let d = data_drift_iff i.data_dir o.data_dir_exists in
    (
      (λ h.
          let x = last.0 h in
          let y = middle.0 x.0 in
          let z = first.0 y.0 in ((a.0 z.0).0, ((a.0 z.0).1, (b.0 z.1, (c.0 y.1, d.0 x.1))))),
      (λ m.
          last.1
            (middle.1 (first.1 (a.1 (m.0, m.1.0), b.1 m.1.1.0), c.1 m.1.1.1.0), d.1 m.1.1.1.1)),
    )
