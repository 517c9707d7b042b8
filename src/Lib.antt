-- ===== src/Lib.antt =====
-- A model of job-squire: a self-hosted job search tracker (app/, a Flask application that asks AI
-- providers to score and analyse jobs) and its command line tool (job_squire_cli/), which installs and
-- drives instances of the application.
--
-- Parts and files.
--   Base        what the modules share: equality tests, lists over the native numbers, dicts in insertion
--               order, texts as lists of code points with the string methods of Python, and outcomes
--               (a returned value or a raised exception).
--   Ai          app/ai.py, with the decision of app/privacy.py and the rows of app/models.py.
--     Context     estimate_tokens and fits_in_context.
--     Privacy     is_local_provider and should_redact_for.
--     Provider    the rows AIProviderConfig, AITaskConfig and AIConfig, and the tables of URLs and tasks.
--     Attempt     the closure _try_one of call_with_fallback: tests of a row, redaction of the outbound
--                 texts, the request, and what becomes of the reply. The variables that the closure
--                 shares with its function are the record Chain, passed from step to step.
--     Fallback    call_with_fallback: assigned rows, the chain by rank, the legacy Anthropic key, and the
--                 final errors. Chain also records the requests that went out, newest first.
--     Chunks      _call_batched_with_capacity_shrink and _run_chunked_or_single, over any call; a call is
--                 numbered, so that two calls on one input may differ.
--     Triage      run_triage_batch with its closure _apply, and _retry_missing_triage_jobs. The variables
--                 that _apply writes are the record Pass; the table is a list of rows.
--     AutoTriage  run_auto_triage: batches of ten through Chunks. Every store of a score is in the record Auto.
--   App
--     Ingest      ingest_jobs of app/search.py, with its keys and its two lookups of duplicates.
--     Deploy      the flags and the start-up guard of app/deploy.py, over the environment as a dict.
--     McpAuth     verify_static_token of app/mcp_auth.py.
--     Retry       with_db_retry of app/db_utils.py, over any call on any session.
--     Oauth       the OAuth server of app/mcp_server.py: the handlers, the rate limits, the token store in memory and
--                 on disk (the record Server), asgi_app, and the revocations of app/settings.py on the same file. Whether
--                 that file can be written is a part of the state, which an event may change.
--     Vault       app/privacy.py: placeholders and the expression that finds them, the passes of a redaction, the
--                 vault, and rehydrate.
--     Search      _run_search_locked of app/search.py, with its cooldowns and daily limits. The variables of the
--                 loop are the record Loop; an exception in it is a state of Progress.
--   Cli         job_squire_cli/job_squire_cli/, ops/ and query/config.py.
--     Slug        sanitize_slug of registry.py, one function for each regular expression.
--     Registry    the operations of registry.py as functions of the file's content. An operation that
--                 raises leaves the file as it was.
--     Ports       ports.py.
--     QueryConfig query/config.py: which instance the query client talks to.
--     Dotenv      ops/dotenv.py: reading and setting one line of an env file.
--   Tests       runs on concrete data, and each theorem at one input.
--
-- How the parts interact. The MCP server takes the static key by McpAuth or a token by Oauth before it serves a
-- client. A run of Search ends with Ingest. Vault is what the parameters redact and rehydrate of Fallback stand for.
-- Triage and the other features call call_with_fallback, whose text they parse;
-- Triage takes the parsed reply as a parameter. call_with_fallback consults Privacy before each request and
-- Context before each request to a row with a context window. A new instance gets its name from Slug, its
-- ports from Ports by the rows of the registry, and is then added to the registry.
--
-- Parameters. The engine of regular expressions (a pattern splits a text into matches and what is between them), the
-- digests of HMAC and PKCE, the check of a password, random values, and the parsers of forms, JSON and URLs are
-- arguments too. HTTP, decryption, redaction and rehydration of texts, the AI replies, whether the commit
-- succeeds, whether the files of Search can be read and what their writes do, whether a flush meets a row of another writer, whether a port can be bound, the reading of URLs and
-- IP addresses, and the date are arguments of the definitions. HTTP is a function of
-- the number of the request, so a provider may answer two equal requests in different ways.
--
-- Bounds and fuel. The shrinking recursion on batches runs on fuel; its theorem on termination says that the
-- number of items plus one is enough. The chunks of five of the triage retries are counted down from the number of
-- jobs, which is at least the number of chunks. The batches of the automatic triage are counted
-- down from the number of jobs as well. The scan of ports has the bound of the source, 1000 rounds.
-- Numbers are natural numbers: ids of rows, token counts and ports are never negative here. The id and the score
-- of a reply are integers, or what int() raises on.
--
-- Not modelled: the detectors of app/privacy.py and its collection of known values, the prompts, the views, database
-- sessions and locks, the tools of the MCP server, the clients of the job boards, and the commands that drive container
-- runtimes. Rows of the registry have the declared fields. White space is that of ASCII, and so is
-- lower-casing, but for the keys of Ingest, where lower() of Python is an argument and that of SQLite is on ASCII.
pub mod Base
pub mod Ai
pub mod Cli
pub mod App
mod Tests
