-- ===== src/Cli/Ports.antt =====
-- The host ports of a new instance: job_squire_cli/job_squire_cli/ops/ports.py. Whether a port can be bound is
-- a parameter; it is asked once for each port.
use job_squire.Base.{
  ℕ, zero, suc, ◌+◌, ◌≤◌, ◌<◌, Bool, true, false, not, ◌&&◌, ◌≡◌, ◌⊎◌, ==_iff, inl, inr, Option,
  none, some, List, [], ◌∷◌, contains, ◌==◌, nat_eq, if◌then◌else◌, arith, Bool-cases, Option-cases,
}
use job_squire.Cli.Registry.{Instance}

abbrev pub default_app_port : ℕ
default_app_port = 8080

abbrev pub default_mcp_port : ℕ
default_mcp_port = 9000

abbrev pub max_scan : ℕ
max_scan = 1000

-- The ports that some rows have.
unfoldable pub ports_of : (Instance → Option ℕ) → List Instance → List ℕ
ports_of port [] = []
ports_of port (i ∷ rows) = elim (port i) [
  | none ↦ ports_of port rows
  | some p ↦ p ∷ ports_of port rows
]

module _ (port_free : ℕ → Bool) where
  -- The loop of `_next_free`, with the number of rounds that are left. `none` is its `RuntimeError`.
  unfoldable pub scan : List ℕ → ℕ → ℕ → Option ℕ
  scan taken zero port = none
  scan taken (suc n) port =
      let rest = scan taken n (port + 1) in
      if not (contains taken port) && port_free port then some port else rest

  unfoldable pub next_free : List ℕ → ℕ → Option ℕ
  next_free taken start = scan taken max_scan start

  unfoldable pub allocate_port_pair : List Instance → Option (ℕ × ℕ)
  allocate_port_pair existing =
      elim (next_free (ports_of (λ i. i.app_port) existing) default_app_port) [
        | none ↦ none
        | some app ↦ elim (next_free (ports_of (λ i. i.mcp_port) existing) default_mcp_port) [
          | none ↦ none
          | some mcp ↦ some (app, mcp)
        ]
      ]

  -- The port is free and not taken.
  abbrev pub IsOpen : List ℕ → ℕ → Type 0
  IsOpen taken p = (not (contains taken p) && port_free p) ≡ true

  abbrev pub IsShut : List ℕ → ℕ → Type 0
  IsShut taken p = (not (contains taken p) && port_free p) ≡ false

  -- What the loop gives is the first open port of its range, or that there is none.
  abbrev pub IsFirst : List ℕ → ℕ → ℕ → Option ℕ → Type 0
  IsFirst taken n start none = (q : ℕ) → start ≤ q → q < start + n → IsShut taken q
  IsFirst taken n start (some p) =
      (start ≤ p)
      × ((p < start + n) × (IsOpen taken p × ((q : ℕ) → start ≤ q → q < p → IsShut taken q)))

  -- What an allocation gives, by its two scans.
  abbrev pub Allocated : List Instance → Option (ℕ × ℕ) → Type 0
  Allocated existing none =
      IsFirst (ports_of (λ i. i.app_port) existing) max_scan default_app_port none
      ⊎ IsFirst (ports_of (λ i. i.mcp_port) existing) max_scan default_mcp_port none
  Allocated existing (some (app, mcp)) =
      IsFirst (ports_of (λ i. i.app_port) existing) max_scan default_app_port (some app)
      × IsFirst (ports_of (λ i. i.mcp_port) existing) max_scan default_mcp_port (some mcp)

  scan-IsFirst : (taken : List ℕ) (n start : ℕ) → IsFirst taken n start (scan taken n start)
  unfolding scan
  scan-IsFirst taken zero start = λ q h k. absurd (omega (arith, h, k))
  scan-IsFirst taken (suc n) start =
      elim (Bool-cases (not (contains taken start) && port_free start)) [
        | inl e ↦
            rw (e, scan) (omega arith, (omega arith, (e, λ q h k. absurd (omega (arith, h, k)))))
        | inr e ↦
            rw (e, scan) (later (scan taken n (start + 1)) e (scan-IsFirst taken n (start + 1)))
      ]
    where
      here :
          (q : ℕ)
          → IsShut taken start
          → start ≤ q
          → (start + 1 ≤ q → IsShut taken q)
          → IsShut taken q
      here q e h k = elim (Bool-cases (q == start)) [
        | inl g ↦ rw ((==_iff q start).0 g) e
        | inr g ↦ k (ground (arith, h))
      ]

      later :
          (o : Option ℕ)
          → IsShut taken start
          → IsFirst taken n (start + 1) o
          → IsFirst taken (suc n) start o
      later none e f = λ q h k. here q e h (λ g. f q g (omega (arith, k)))
      later (some p) e f = (
        omega (arith, f.0),
        (omega (arith, f.1.0), (f.1.1.0, λ q h k. here q e h (λ g. f.1.1.1 q g k))),
      )

  next_free-IsFirst :
      (taken : List ℕ) (start : ℕ) → IsFirst taken max_scan start (next_free taken start)
  unfolding next_free
  next_free-IsFirst taken start = scan-IsFirst taken max_scan start

  -- Whatever rows are registered: if a pair of ports is given, then each is the first port of its thousand
  -- ports from 8080 and 9000 that can be bound and that no row has as its port of this kind. No pair is
  -- given only if one of the two ranges has no such port.
  pub allocate_port_pair-IsFirst :
      (existing : List Instance) → Allocated existing (allocate_port_pair existing)
  unfolding allocate_port_pair
  allocate_port_pair-IsFirst existing = elim (Option-cases (next_free apps default_app_port)) [
    | inl n ↦ rw (n, allocate_port_pair) (inl (rw n at (next_free-IsFirst apps default_app_port)))
    | inr (app, s) ↦ elim (Option-cases (next_free mcps default_mcp_port)) [
      | inl n ↦
          rw (s, n, allocate_port_pair) (inr (rw n at (next_free-IsFirst mcps default_mcp_port)))
      | inr (mcp, r) ↦
          rw (s, r, allocate_port_pair)
            (
              rw s at (next_free-IsFirst apps default_app_port),
              rw r at (next_free-IsFirst mcps default_mcp_port),
            )
    ]
  ]
    where
      apps : List ℕ
      apps = ports_of (λ i. i.app_port) existing

      mcps : List ℕ
      mcps = ports_of (λ i. i.mcp_port) existing
