-- ===== src/Ai/Fallback.antt =====
-- `call_with_fallback` of app/ai.py: the task's primary provider, its backup, the ranked chain, and
-- the legacy Anthropic key. The proofs stand in the modules below.
pub mod Steps
pub mod Egress
pub mod Distinct
pub mod Answers
pub mod Ranking
pub mod Progress
use job_squire.Base.{
  Bool, true, false, not, ◌&&◌, Option, none, some, List, [], ◌∷◌, Text, txt, strip, nonempty, leb,
  contains, Outcome, returns, raises, if◌then◌else◌, ◌==◌, nat_eq, bool_eq, option_eq,
}
use job_squire.Ai.Provider.{Provider, TaskConfig, AiConfig}
use job_squire.Ai.Privacy.{redaction_enabled}
use job_squire.Ai.Attempt.{
  Request, Reply, content, http_error, timeout, failure, Error, http, timed_out, other,
  context_capacity, no_providers, Services, Tables, Call, Chain, start, Attempt, text, skipped,
  raised, api_key_of, send, outbound_system, outbound_user, try_one,
}

-- A step of the lookup: a text with its provider's name, an exception, or on to the next step.
pub data Answer : Type 0 where
  answered : Text → Text → Answer
  failed : Error → Answer
  go_on : Answer

-- The next step is taken only if this one gave neither an answer nor an exception.
unfoldable pub or_next : Answer × Chain → (Chain → Answer × Chain) → Answer × Chain
or_next (answered t name, s) next = (answered t name, s)
or_next (failed e, s) next = (failed e, s)
or_next (go_on, s) next = next s

unfoldable pub answer_of : Provider → Attempt × Chain → Answer × Chain
answer_of p (text t, s) = (answered t p.provider, s)
answer_of p (skipped, s) = (go_on, s)
answer_of p (raised e, s) = (failed e, s)

-- `.filter_by(enabled=True).order_by(rank)`, rows of one rank in the order of the table.
unfoldable pub by_rank : Provider → List Provider → List Provider
by_rank p [] = p ∷ []
by_rank p (q ∷ qs) = if leb p.rank q.rank then p ∷ q ∷ qs else q ∷ by_rank p qs

unfoldable pub ranked_rows : List Provider → List Provider
unfolding by_rank
ranked_rows [] = []
ranked_rows (p ∷ ps) = let rest = ranked_rows ps in if p.enabled then by_rank p rest else rest

abbrev pub primary_of : Option TaskConfig → Option Provider
primary_of none = none
primary_of (some t) = t.provider

abbrev pub backup_of : Option TaskConfig → Option Provider
backup_of none = none
backup_of (some t) = t.backup_provider

-- `task_cfg is None or (task_cfg.use_ranked_chain_fallback is not False)`
unfoldable pub uses_chain : Option TaskConfig → Bool
unfolding option_eq bool_eq
uses_chain none = true
uses_chain (some t) = not (t.use_ranked_chain_fallback == some false)

module _ (V : Services) (T : Tables) (c : Call) where
  -- Steps 1 and 2 with the task's row, if it is there and enabled.
  unfoldable pub assigned_step : Option Provider → Chain → Answer × Chain
  assigned_step none s = (go_on, s)
  assigned_step (some p) s = if p.enabled then answer_of p (try_one V T c p s) else (go_on, s)

  -- Step 3: the loop over the ranked rows.
  unfoldable pub chain_step : List Provider → Chain → Answer × Chain
  chain_step [] s = (go_on, s)
  chain_step (p ∷ ps) s = elim (contains s.tried p.id) [
    | true ↦ chain_step ps s
    | false ↦ or_next (answer_of p (try_one V T c p s)) (chain_step ps)
  ]

  unfoldable pub ranked_step : Chain → Answer × Chain
  ranked_step s = if uses_chain T.task_config then chain_step (ranked_rows T.rows) s else (go_on, s)

  -- The legacy request: redacted whenever redaction is on.
  unfoldable pub legacy_request : AiConfig → Request
  legacy_request cfg =
      let redacted = redaction_enabled T.ai_config in
      record {
        row = none;
        base_url = none;
        api_key = api_key_of V cfg.api_key_enc;
        model = strip (if nonempty cfg.model then cfg.model else V.default_model);
        system = outbound_system V T c redacted;
        user = outbound_user V T c redacted;
      }

  -- `_call_anthropic_sdk` returns a text. Any exception is kept and the step goes on.
  unfoldable pub settle_legacy : Bool → Reply × Chain → Answer × Chain
  settle_legacy redacted (content none, s) = (go_on, record s { last_exc = some other })
  settle_legacy true (content (some t), s) = (answered (V.rehydrate t) (txt "anthropic-legacy"), s)
  settle_legacy false (content (some t), s) = (answered t (txt "anthropic-legacy"), s)
  settle_legacy redacted (http_error code, s) = (go_on, record s { last_exc = some (http code) })
  settle_legacy redacted (timeout, s) = (go_on, record s { last_exc = some timed_out })
  settle_legacy redacted (failure, s) = (go_on, record s { last_exc = some other })

  -- Step 4.
  unfoldable pub legacy_with : AiConfig → Chain → Answer × Chain
  legacy_with cfg s =
      let r = legacy_request cfg in
      if cfg.fallback_to_anthropic
        && nonempty cfg.api_key_enc
        && nonempty r.api_key
        && nonempty r.model
      then settle_legacy (redaction_enabled T.ai_config) (send V r s)
      else (go_on, s)

  unfoldable pub legacy_step : Option AiConfig → Chain → Answer × Chain
  legacy_step none s = (go_on, s)
  legacy_step (some cfg) s = legacy_with cfg s

  unfoldable pub run_steps : Answer × Chain
  run_steps = or_next (assigned_step (primary_of T.task_config) start) λ s1.
      or_next (assigned_step (backup_of T.task_config) s1)
        λ s2. or_next (ranked_step s2) (legacy_step T.ai_config)

  -- What is left when every step went on.
  unfoldable pub give_up : Chain → Error
  give_up s = elim s.last_exc [
    | some e ↦ e
    | none ↦ elim s.capacity_skips [ [] ↦ no_providers | _ ∷ _ ↦ context_capacity ]
  ]

  unfoldable pub finish : Answer × Chain → Outcome Error (Text × Text)
  finish (answered t name, s) = returns (t, name)
  finish (failed e, s) = raises e
  finish (go_on, s) = raises (give_up s)

  unfoldable pub call_with_fallback : Outcome Error (Text × Text)
  call_with_fallback = finish run_steps

  -- The requests that a call sends, in order.
  unfoldable pub requests : List Request
  requests = (run_steps).1.sent
