-- ===== src/Tests/Fallback.antt =====
-- Calls to AI providers: a rate limited cloud row, then a local row, with redaction on.
use job_squire.Base.{
  ℕ, zero, suc, ◌+◌, ◌*◌, ◌≤◌, true, ◌≡◌, refl, ap, ◌⊎◌, inl, inr, Option, none, some, List, [],
  ◌∷◌, ◌++◌, Text, txt, lower, strip, nonempty, Occurs, Outcome, returns, list_eq, nat_eq, bool_eq,
  option_eq, arith, length,
}
use mathlib.Core.Option.{none-ne-some}
use job_squire.Base.Dict.{lookup}
use job_squire.Ai.Provider.{Provider}
use job_squire.Ai.Context.{fits_in_context, fits_in_context_bound}
use job_squire.Ai.Privacy.{should_redact_for, redaction_enabled, redact_local, is_local_provider}
use job_squire.Ai.Attempt.{
  Request, Reply, content, http_error, timeout, failure, Services, Tables, Call, http,
  context_capacity, send, settle, settle_content, is_fallback_status, add, discard, is_capable,
  model_for, base_url_of, api_key_of, outbound_system, outbound_user, request_to, exchange,
  dispatch, fit_of, try_one,
}
use job_squire.Ai.Attempt.Facts.{IsReady}
use job_squire.Ai.Fallback.{
  primary_of, backup_of, or_next, answer_of, ranked_rows, assigned_step, chain_step, uses_chain,
  ranked_step, legacy_request, settle_legacy, legacy_with, legacy_step, run_steps, finish,
  call_with_fallback, requests, give_up,
}
use job_squire.Ai.Fallback.Egress.{requests_redacted, requests_qualify, requests_fit}
use job_squire.Ai.Fallback.Distinct.{Distinct, row_ids, requests-Distinct}
use job_squire.Ai.Fallback.Answers.{is_redacted, StandsFor, answer_is_last_reply}
use job_squire.Ai.Fallback.Progress.{IsTransient, IsWorking, call_with_fallback_succeeds}

abbrev groq : Provider
groq = record {
  id = 1;
  rank = 1;
  provider = txt "groq";
  api_key_enc = txt "k";
  base_url = [];
  model = txt "big";
  triage_model = txt "small";
  num_ctx = none;
  use_for_triage = true;
  use_for_analysis = true;
  enabled = true;
}

abbrev ollama : Provider
ollama = record {
  id = 2;
  rank = 2;
  provider = txt "ollama";
  api_key_enc = [];
  base_url = [];
  model = txt "llama";
  triage_model = [];
  num_ctx = some 4096;
  use_for_triage = true;
  use_for_analysis = true;
  enabled = true;
}

-- The first request is answered with status 429, the others with a text.
abbrev services : Services
services = record {
  post = λ n r. elim n [ zero ↦ http_error (some 429) | suc _ ↦ content (some (txt "fine")) ];
  decrypt = λ s. s;
  redact = λ s. txt "X";
  rehydrate = λ s. s ++ txt "!";
  default_model = txt "claude";
  untrusted_job_data_notice = txt " NOTICE";
}

abbrev tables : Tables
tables = record { ai_config = none; task_config = none; rows = ollama ∷ groq ∷ [] }

abbrev call : Call
call = record { system = txt "S"; user = txt "Ada"; max_tokens = 1024; is_triage = true }

-- All that a call computes with.
run : Outcome job_squire.Ai.Attempt.Error (Text × Text)
unfolding call_with_fallback run_steps finish give_up or_next answer_of ranked_rows assigned_step
    chain_step uses_chain ranked_step legacy_request settle_legacy legacy_with legacy_step send
    settle settle_content is_fallback_status add discard is_capable model_for base_url_of api_key_of
    outbound_system outbound_user request_to exchange dispatch fit_of try_one fits_in_context
    should_redact_for is_local_provider redaction_enabled redact_local lookup list_eq option_eq
    bool_eq strip lower
run = call_with_fallback services tables call

falls_back_to_local : run ≡ returns (txt "fine", txt "ollama")
unfolding run
falls_back_to_local = refl

asked : List ℕ
unfolding run requests
asked = row_ids (requests services tables call)

asks_in_rank_order : asked ≡ 1 ∷ 2 ∷ []
unfolding asked
asks_in_rank_order = refl

abbrev first : Request
first = request_to services tables call groq (some (txt "https://api.groq.com/openai/v1"))

abbrev second : Request
second = request_to services tables call ollama (some (txt "http://localhost:11434/v1"))

requests_redacted_example : (first.system ≡ txt "X") × (first.user ≡ txt "X")
unfolding run requests
requests_redacted_example = requests_redacted services tables call first (inl refl) (refl, inl refl)

requests_qualify_example :
    (groq.enabled ≡ true) × (is_capable true groq ≡ true) × (nonempty first.model ≡ true)
unfolding run requests
requests_qualify_example = requests_qualify services tables call first groq (inl refl) refl

requests_fit_example : length second.system + length second.user + 4 * (1024 + 256) ≤ 4 * 4096 + 6
unfolding run requests
requests_fit_example =
    requests_fit services tables call second ollama 4095 (inr (inl refl)) refl refl

requests-Distinct_example : Distinct (row_ids (requests services tables call))
requests-Distinct_example =
    requests-Distinct services tables call (λ p q e _. absurd (none-ne-some p e))

answer_is_last_reply_example :
    (before : List Request) × (last : Request) × (reply : Option Text) × (requests services tables
        call
      ≡ before ++ last ∷ [])
    × (last.system
        ≡ outbound_system services tables call (is_redacted services tables call last.row))
    × (last.user ≡ outbound_user services tables call (is_redacted services tables call last.row))
    × (services.post (length before) last ≡ content reply)
    × StandsFor services tables call (is_redacted services tables call last.row) (txt "fine") reply
unfolding run
answer_is_last_reply_example =
    answer_is_last_reply services tables call (txt "fine") (txt "ollama") refl

-- Services that answer every request.
abbrev steady : Services
steady = record services { post = λ n r. content (some (txt "fine")) }

steady-IsTransient : (n : ℕ) (r : Request) → IsTransient (steady.post n r)
steady-IsTransient n r = tt

ollama-IsReady : IsReady steady tables call ollama
unfolding run
ollama-IsReady = record { capable = refl; has_model = refl; fits = refl }

ollama_works : IsWorking steady tables call ollama
unfolding run
ollama_works = record {
  ready = ollama-IsReady;
  endpoint = inr refl;
  replies = λ n u. (txt "fine", refl);
}

ids_differ :
    (q : Provider)
    → (primary_of tables.task_config ≡ some q)
      ⊎ (backup_of tables.task_config ≡ some q)
      ⊎ Occurs q tables.rows
    → q.id ≡ 2
    → q ≡ ollama
ids_differ q (inl e) h = absurd (none-ne-some q e)
ids_differ q (inr (inl e)) h = absurd (none-ne-some q e)
ids_differ q (inr (inr (inl e))) h = e
ids_differ q (inr (inr (inr (inl e)))) h = absurd (omega (arith, ap (λ (p : Provider). p.id) e))
ids_differ q (inr (inr (inr (inr o)))) h = elim o [ ]

call_with_fallback_succeeds_example :
    (t : Text) × (name : Text) × (call_with_fallback steady tables call ≡ returns (t, name))
unfolding uses_chain
call_with_fallback_succeeds_example =
    call_with_fallback_succeeds steady tables call steady-IsTransient ollama ollama_works ids_differ
      (inl refl) refl refl

fits_in_context_bound_example : (4 + 4 + 4 * (1024 + 256) ≤ 4 * 2000 + 6) × (1024 + 256 + 2 ≤ 2000)
unfolding fits_in_context
fits_in_context_bound_example =
    fits_in_context_bound 2000 (txt "abcd") (txt "efgh") 1024 (omega arith) refl
