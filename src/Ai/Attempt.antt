-- ===== src/Ai/Attempt.antt =====
-- `_try_one` of `call_with_fallback` in app/ai.py: one provider is tried once. The proofs stand in the
-- module below.
pub mod Facts
use job_squire.Base.{
  ℕ, Bool, true, false, not, Option, none, some, List, [], ◌∷◌, ◌++◌, Text, txt, strip, nonempty,
  length, contains, ◌==◌, list_eq, nat_eq, if◌then◌else◌,
}
use job_squire.Base.Dict.{lookup}
use job_squire.Ai.Provider.{Provider, TaskConfig, AiConfig, provider_urls}
use job_squire.Ai.Context.{Fit, fits_in_context}
use job_squire.Ai.Privacy.{should_redact_for}

-- One HTTP request to a provider. `row` is `none` for the legacy key, `base_url` is `none` where the
-- Anthropic endpoint is called.
pub record Request : Type 0 where
  pub row : Option Provider
  pub base_url : Option Text
  pub api_key : Text
  pub model : Text
  pub system : Text
  pub user : Text

-- What comes back: the content, which may be null; an `HTTPError` with the status of its response,
-- if it has one; a `Timeout`; another exception.
pub data Reply : Type 0 where
  content : Option Text → Reply
  http_error : Option ℕ → Reply
  timeout : Reply
  failure : Reply

pub data Error : Type 0 where
  http : Option ℕ → Error
  timed_out : Error
  other : Error
  context_capacity : Error
  no_providers : Error

-- What the call takes from outside app/ai.py: the answers of the network by the number of the
-- request, the decryption of stored keys, the two text filters of app/privacy.py, and the constants
-- that come from the environment and the prompt texts.
pub record Services : Type 0 where
  pub post : ℕ → Request → Reply
  pub decrypt : Text → Text
  pub redact : Text → Text
  pub rehydrate : Text → Text
  pub default_model : Text
  pub untrusted_job_data_notice : Text

-- The rows that the call reads from the database. `rows` is the table of providers.
pub record Tables : Type 0 where
  pub ai_config : Option AiConfig
  pub task_config : Option TaskConfig
  pub rows : List Provider

-- The arguments, `task_name` replaced by its row in `Tables`.
pub record Call : Type 0 where
  pub system : Text
  pub user : Text
  pub max_tokens : ℕ
  pub is_triage : Bool

-- An entry of `capacity_skips`.
pub record Skip : Type 0 where
  pub row : Provider
  pub estimated : ℕ
  pub available : ℕ

-- The closure's variables, and the requests sent so far.
pub record Chain : Type 0 where
  pub last_exc : Option Error
  pub tried : List ℕ
  pub capacity_skips : List Skip
  pub sent : List Request

abbrev pub start : Chain
start = record { last_exc = none; tried = []; capacity_skips = []; sent = [] }

-- What `_try_one` gives: a text, `None`, or an exception.
pub data Attempt : Type 0 where
  text : Text → Attempt
  skipped : Attempt
  raised : Error → Attempt

-- `_FALLBACK_STATUS_CODES`
unfoldable pub is_fallback_status : ℕ → Bool
unfolding nat_eq
is_fallback_status code = contains (429 ∷ 503 ∷ 529 ∷ []) code

-- `set.add` and `set.discard`
unfoldable pub add : ℕ → List ℕ → List ℕ
add i ids = if contains ids i then ids else i ∷ ids

unfoldable pub discard : ℕ → List ℕ → List ℕ
discard i [] = []
discard i (j ∷ ids) = let rest = discard i ids in if i == j then rest else j ∷ rest

unfoldable pub is_capable : Bool → Provider → Bool
is_capable is_triage p = if is_triage then p.use_for_triage else p.use_for_analysis

-- The triage model if this is triage and one is set, else the analysis model.
unfoldable pub model_for : Bool → Provider → Text
unfolding strip
model_for is_triage p =
    let triage = if is_triage then strip p.triage_model else [] in
    if nonempty triage then triage else strip p.model

-- `(p.base_url or _PROVIDER_URLS.get(p.provider, "")).strip()`
unfoldable pub base_url_of : Provider → Text
unfolding strip lookup list_eq
base_url_of p =
    if nonempty p.base_url
    then strip p.base_url
    else elim (lookup p.provider provider_urls) [ none ↦ [] | some url ↦ strip url ]

module _ (V : Services) where
  unfoldable pub api_key_of : Text → Text
  unfolding strip
  api_key_of enc = if nonempty enc then strip (V.decrypt enc) else []

  -- The reply to a request, which is the next in order.
  unfoldable pub send : Request → Chain → Reply × Chain
  send r s = (V.post (length s.sent) r, record s { sent = s.sent ++ r ∷ [] })

  -- `rehydrate` turns `None` into the empty text.
  unfoldable pub settle_content : Bool → Option Text → Attempt
  settle_content true none = text []
  settle_content false none = skipped
  settle_content true (some t) = text (V.rehydrate t)
  settle_content false (some t) = text t

  -- The `try` around the request, and its handlers.
  unfoldable pub settle : Bool → Reply × Chain → Attempt × Chain
  unfolding settle_content is_fallback_status
  settle redacted (content c, s) = (settle_content redacted c, s)
  settle redacted (http_error none, s) = (raised (http none), s)
  settle redacted (http_error (some code), s) =
      if is_fallback_status code
      then (skipped, record s { last_exc = some (http (some code)) })
      else (raised (http (some code)), s)
  settle redacted (timeout, s) = (skipped, record s { last_exc = some timed_out })
  settle redacted (failure, s) = (raised other, s)

  module _ (T : Tables) (c : Call) where
    -- The texts that leave for a provider: `_outbound_for`.
    unfoldable pub outbound_system : Bool → Text
    outbound_system redacted =
        let system = c.system ++ V.untrusted_job_data_notice in
        if redacted then V.redact system else system

    unfoldable pub outbound_user : Bool → Text
    outbound_user redacted = if redacted then V.redact c.user else c.user

    unfoldable pub request_to : Provider → Option Text → Request
    request_to p base_url =
        let redacted = should_redact_for T.ai_config p in
        record {
          row = some p;
          base_url = base_url;
          api_key = api_key_of p.api_key_enc;
          model = model_for c.is_triage p;
          system = outbound_system redacted;
          user = outbound_user redacted;
        }

    -- The request and what becomes of its reply.
    unfoldable pub exchange : Provider → Option Text → Chain → Attempt × Chain
    exchange p base_url s =
        settle (should_redact_for T.ai_config p) (send (request_to p base_url) s)

    -- From `tried_ids.add(p.id)` on.
    unfoldable pub dispatch : Provider → Chain → Attempt × Chain
    dispatch p s =
        let s' : Chain = record s { tried = add p.id s.tried } in
        if p.provider == txt "anthropic"
        then exchange p none s'
        else if nonempty (base_url_of p)
        then exchange p (some (base_url_of p)) s'
        else (skipped, record s' { tried = discard p.id s'.tried })

    unfoldable pub fit_of : Provider → Fit
    fit_of p =
        let redacted = should_redact_for T.ai_config p in
        fits_in_context p.num_ctx (outbound_system redacted) (outbound_user redacted) c.max_tokens

    -- `_try_one`
    unfoldable pub try_one : Provider → Chain → Attempt × Chain
    try_one p s =
        if not (is_capable c.is_triage p)
        then (skipped, s)
        else if not (nonempty (model_for c.is_triage p))
        then (skipped, s)
        else let fit = fit_of p in
          if not fit.fits
          then (
            skipped,
            record s {
              capacity_skips =
                  s.capacity_skips
                  ++ record { row = p; estimated = fit.estimated; available = fit.available } ∷ [];
            },
          )
          else dispatch p s
