-- ===== src/App/Oauth/Limits.antt =====
-- The rate limits of app/mcp_server.py: per address, the times of the events of the last ten minutes. Times are in
-- seconds, and a number of seconds has passed since `t` if `now` is at least that much later.
use job_squire.Base.{
  ℕ, ◌+◌, Bool, none, some, List, [], ◌∷◌, ◌++◌, Text, length, ltb, list_eq, nat_eq, if◌then◌else◌,
}
use job_squire.Base.Dict.{Dict, lookup, insert}

abbrev pub Times : Type 0
Times = Dict Text (List ℕ)

abbrev pub login_max_failures : ℕ
login_max_failures = 5

abbrev pub register_max_per_window : ℕ
register_max_per_window = 10

-- `_LOGIN_FAILURE_WINDOW` and `_REGISTER_WINDOW`
abbrev pub rate_window : ℕ
rate_window = 600

-- `d.get(ip, [])`
unfoldable pub times_of : Text → Times → List ℕ
times_of ip d = elim (lookup ip d) [ none ↦ [] | some ts ↦ ts ]

-- `[t for t in ts if now - t < window]`
unfoldable pub recent : ℕ → List ℕ → List ℕ
recent now [] = []
recent now (t ∷ ts) =
    let rest = recent now ts in if ltb now (t + rate_window) then t ∷ rest else rest

-- `_login_rate_ok` and `_register_rate_ok`: the old times are dropped, and the rest is counted.
unfoldable pub rate_ok : ℕ → ℕ → Text → Times → Bool × Times
rate_ok max now ip d = let ts = recent now (times_of ip d) in (ltb (length ts) max, insert ip ts d)

-- `_record_login_failure` and `_record_register_attempt`
unfoldable pub record_time : ℕ → Text → Times → Times
record_time now ip d = insert ip (times_of ip d ++ now ∷ []) d
