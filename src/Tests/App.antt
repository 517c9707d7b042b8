-- ===== src/Tests/App.antt =====
-- Items that repeat each other, tokens, environments, and a locked database.
use job_squire.Base.{
  ℕ, zero, suc, ◌+◌, ◌≤◌, Bool, true, false, ◌≡◌, ◌↔◌, inl, inr, refl, ap, sym, Option, none, some,
  List, [], ◌∷◌, ◌++◌, Text, txt, length, All, list_eq, nat_eq, bool_eq, option_eq, arith, ◌==◌,
  strip, lower, lstrip, rstrip, starts_with, Outcome, returns, raises,
}
use job_squire.App.Ingest.{
  Item, batch_key, norm, has_external, has_title, is_known, notes_of, http_url, job_of, skip, see,
  insert_job, ingest_one, ingest_all, ingest_jobs,
}
use job_squire.App.Ingest.Again.{never, ingest_jobs_again}
use job_squire.App.Ingest.Account.{HasSafeUrl, ingest_jobs_accounts}
use job_squire.App.Deploy.{
  Env, Flags, network, local, resolve_deploy_flags, enforce_startup_guard, is_https, public_url_of,
  enforce_startup_guard-network,
}
use job_squire.App.McpAuth.{verify_static_token, IsAccepted, verify_static_token_iff}
use job_squire.App.Retry.{
  Fault, operational, is_transient, is_transient_text, is_part, with_db_retry, Flaky, stop, once,
  with_db_retry_returns, with_db_retry_loses,
}

abbrev item : Item
item = record {
  title = txt " Clerk";
  company = txt "ACME";
  source = txt "board";
  external_id = txt "7";
  location = [];
  url = txt "javascript:x";
  salary = [];
  description = [];
  date_posted = [];
}

abbrev again : Item
again = record item { external_id = []; url = txt "HTTPS://a.b" }

abbrev items : List Item
items = item ∷ item ∷ again ∷ []

counts : ℕ × ℕ
unfolding ingest_jobs ingest_all ingest_one insert_job see skip job_of http_url notes_of is_known
    has_title has_external norm batch_key strip lstrip rstrip lower starts_with list_eq nat_eq
counts =
    let r = ingest_jobs lower never (txt "auto-search") (txt "Saved") items [] in
    (length r.1.0, r.1.1)

creates_one : counts ≡ (1, 2)
unfolding counts
creates_one = refl

ingest_jobs_again_example :
    let after = (ingest_jobs lower never (txt "auto-search") (txt "Saved") items []).0 in
    let second = ingest_jobs lower never (txt "auto-search") (txt "Saved") items after in
    (second.1.0 ≡ []) × (second.0 ≡ after)
unfolding strip lstrip rstrip
ingest_jobs_again_example =
    ingest_jobs_again lower (txt "auto-search") (txt "Saved") items [] (λ s a. refl)
      (
        inl refl,
        (
          inl refl,
          (
            inr (
              (omega arith, (omega arith, (omega arith, (omega arith, tt)))),
              (omega arith, (omega arith, (omega arith, (omega arith, (omega arith, tt))))),
            ),
            tt,
          ),
        ),
      )

ingest_jobs_accounts_example :
    let r = ingest_jobs lower (λ n. n == 0) (txt "auto-search") (txt "Saved") items [] in
    (length r.1.0 + r.1.1 ≡ 3) × ((length r.0 ≤ length r.1.0 + 0) × All HasSafeUrl r.1.0)
ingest_jobs_accounts_example =
    ingest_jobs_accounts lower (λ n. n == 0) (txt "auto-search") (txt "Saved") [] items

verify_static_token_iff_example :
    (verify_static_token (λ s. s) (txt "t") (txt "t") local false none 5 ≡ some true)
    ↔ IsAccepted (λ s. s) (txt "t") (txt "t") local false none 5
verify_static_token_iff_example =
    verify_static_token_iff (λ s. s) (txt "t") (txt "t") local false none 5

abbrev env : Env
env = (txt "DEPLOY_MODE", txt " Network") ∷ (txt "PUBLIC_URL", txt "https://a.b") ∷ []

flags : Flags
unfolding resolve_deploy_flags lower strip
flags = resolve_deploy_flags env

trusts_proxy : flags ≡ record { mode = network; trust_proxy = true; secure_cookie = true }
unfolding flags
trusts_proxy = refl

abbrev no_host : Text → Option Text
no_host url = some (txt "a.b")

abbrev no_ip : Text → Option Bool
no_ip host = none

enforce_startup_guard-network_example :
    (enforce_startup_guard no_host no_ip env flags ≡ returns [])
    ↔ ((is_https (public_url_of env) ≡ true) × (flags.trust_proxy ≡ true))
unfolding flags
enforce_startup_guard-network_example = enforce_startup_guard-network no_host no_ip env flags refl

abbrev at_home : Flags
at_home = record { mode = local; trust_proxy = false; secure_cookie = false }

-- Committed rows, pending rows, and how many commits the lock still refuses.
abbrev Session : Type 0
Session = List ℕ × (List ℕ × ℕ)

abbrev locked : Fault
locked = operational (txt "database is locked")

commit_once : Session → Outcome Fault Bool × Session
commit_once (rows, (new, zero)) = (returns true, (rows ++ new, ([], 0)))
commit_once (rows, (new, suc n)) = (raises locked, (rows, (new, n)))

abbrev undo : Session → Session
undo (rows, (new, n)) = (rows, ([], n))

locked-is_transient : is_transient locked ≡ true
unfolding is_transient is_transient_text is_part lower starts_with list_eq nat_eq
locked-is_transient = refl

abbrev busy : Session
busy = (1 ∷ [], (2 ∷ [], 1))

abbrev done : Session
done = (1 ∷ [], ([], 0))

one_failure : Flaky commit_once undo 1 busy done
unfolding commit_once
one_failure = once locked refl locked-is_transient stop

with_db_retry_returns_example : with_db_retry commit_once undo 2 busy ≡ (returns true, done)
unfolding commit_once
with_db_retry_returns_example =
    with_db_retry_returns commit_once undo 1 2 busy done done true one_failure (omega arith) refl

raises_keeps : (s t : Session) (e : Fault) → commit_once s ≡ (raises e, t) → t.0 ≡ s.0
unfolding commit_once
raises_keeps (rows, (new, zero)) t e h = absurd (cc)
raises_keeps (rows, (new, suc n)) t e h = ap (λ x. x.1.0) (sym h)

returns_adds : (s t : Session) (a : Bool) → commit_once s ≡ (returns a, t) → t.0 ≡ s.0 ++ s.1.0
unfolding commit_once
returns_adds (rows, (new, zero)) t a h = ap (λ x. x.1.0) (sym h)
returns_adds (rows, (new, suc n)) t a h = absurd (cc)

with_db_retry_loses_example :
    (with_db_retry commit_once undo 2 busy ≡ (returns true, done)) × (done.0 ≡ busy.0)
unfolding commit_once
with_db_retry_loses_example =
    with_db_retry_loses commit_once undo (λ s. s.0) (λ s. s.1.0) (λ s. refl) (λ s. refl)
      raises_keeps returns_adds 0 2 busy done done true one_failure (omega arith) refl
