-- ===== src/Lib.antt =====
-- The MisterPilot proxy: an HTTP service between a customer and the providers of language models.
-- It hides sensitive values in a request, chooses a model for it by the task's complexity, calls
-- the provider, and bills the call. Modelled here are who may call a model and with which key
-- (model_access.py, key_service.py), the choice of a model (router, context floors, sessions and
-- spend, provider health), the retries of a stream (llm_client.py), prices and charges
-- (cost_service.py), and the hiding of values (backend/pii).
--
-- How the parts interact: the scorer finds the request in a payload and rates it
-- (complexity_scorer.py), and an AI may check the rating within a band (complexity_verifier.py);
-- the floors of a conversation raise the score of its last request (auto_context.py); the router
-- turns the score into a tier and a list of candidates (auto_router.py); the health of each model
-- and our keys decide which candidate is served (provider_health.py, `_first_servable` of
-- model_access.py); the session keeps the route for the conversation's next turn and the spend of
-- the day (auto_session.py). Before a request leaves, the pipeline (pii/pipeline.py) finds what is
-- sensitive, the pseudonymizer gives each value a placeholder, and the store keeps both
-- directions.
--
-- Router.antt is backend/services/auto_router.py: Tier, effort_for, check_tiers (`_check_tiers`),
-- validate_score, init, tier_for_score, tier_index, boundary_distance, cap_index, candidates,
-- select_model. Its children: Covering says when a table covers the scale, Order is about sorting
-- and checking a table, Lookup about finding a tier, TierOrder and Candidates about the failover
-- order, Select about the decision.
--
-- Complexity.antt is backend/services/complexity_scorer.py. Its children: Patterns holds the
-- tables of regular expressions as the file writes them, Tables those by task type and scope;
-- Extract is `extract_user_prompt` with what it calls, Task detect_task_type, Reach detect_scope,
-- Signals the other detectors, Points compute_score, Confidence `_confidence`, Request
-- score_request. Members is a lemma on task types. Extract/Found, Task/Strength, Task/Tallies,
-- Task/Choice, Reach/Payload, Points/Bounds, Request/Total and Request/Payload are about them.
--
-- Verifier.antt is the policy of backend/services/complexity_verifier.py (reconcile,
-- skip_verification), its child Rules the injection rules, Reply the reading of an answer
-- (normalize_untrusted, parse_reply, parse_ai_verdict), Call the check (max_deviation,
-- detect_injection, `_verifier_input`, verify_score). Band, Reads and Guarded are about them.
--
-- Health.antt is backend/services/provider_health.py (is_available, record_success,
-- record_failure), with Breaker for its proofs. Ttl.antt is the class TTLStore of
-- backend/services/auto_session.py (get, put, clear), with Items, Store and Kept. Session.antt is
-- the rest of that file (session_key, get_session, save_route, record_spend, spent_today_usd),
-- with Route and Spend. Floors.antt is backend/services/auto_context.py (the three floors,
-- ContextFloors.apply, context_floors), with Apply and History.
--
-- Access.antt is the policy of backend/services/model_access.py (check_access is
-- `open_model_access` up to the keys, available_models, servable, first_servable), with Policy and
-- Failover for its proofs; its child Warm is `_lower_cap`, `_pinned` and `_cache_aware`, with
-- Upgrades; Preferences is auto_preferences with `_header`, with Capped; Scoring is `_auto_score`
-- with its cache, with Sound; Auto is the decision of `_open_auto`, with Decides; Open is the rest
-- of it and open_model_access, with Safe, Serves and ToolStep; and Next is next_auto_access, with
-- Moves. Keys.antt is backend/services/key_service.py, with Resolve. Llm.antt is part of
-- backend/llm/llm_client.py (MODELS, canonical_model, the errors, complete, stream_chat_raw,
-- output_tokens), with Retry. Anthropic.antt is part of backend/llm/anthropic_client.py: the texts
-- and the blocks of a message, Assistant `_assistant_blocks` and `_rebuild`, Messages
-- to_anthropic_messages, with Turns, Ending and Sent. Cost.antt has the prices of
-- backend/services/cost_service.py; its children Rate and Charge are `get_inr_rate` and
-- `_fire_charge` with their proofs, Warm is about the estimates.
--
-- Pii.antt has the entity types of backend/pii/patterns.py. Pii/Store.antt is InMemoryStore of
-- backend/pii/store.py; Pii/Pseudonymizer.antt is backend/pii/pseudonymizer.py, with Mappings for
-- its proofs; Pii/Pipeline.antt is the first pass of backend/pii/pipeline.py (_collect,
-- _resolve_overlaps, _apply), with Spans, Priority, Rewriting and Pass for its proofs;
-- Pii/Redact.antt is `redact` with its second pass, with Total. Pii/FileStore.antt and
-- Pii/DatabaseStore.antt are the other stores of backend/pii/store.py, the first with Saved.
-- Pii/Registry.antt is the table of backend/pii/patterns.py, and Pii/Metrics.antt is
-- backend/pii/metrics.py.
--
-- Prelude.antt passes on the names that all files share, and its children hold lists over native
-- numbers, results, texts and slices, decimal print, and integers. Dict.antt is Python's dict with
-- text keys, in insertion order. Json.antt is the value of a request body.
--
-- Conventions. State is passed explicitly, and an operation returns the state after it. A lock
-- makes a call one step, so calls are a sequence; a flush of the file store, which writes outside
-- its lock, is two. A request that waits for another service is one step too: what other requests
-- do in the meantime stands before or after it. Our keys that a model is served with are an
-- argument there, and so is what each configuration says. The clock is an argument, in whole
-- ticks, and so are hashes, regular expressions, the tables of Unicode, the reading of JSON, the
-- AI, and the scorer where the floors call it: the code relies on their results only as the
-- theorems' hypotheses say. Money is in whole units. An exception is a value of Result. The
-- scorer's fractions are exact: points in hundredths, tallies as the doubles that the code
-- multiplies. Doubles give the same whole score for every position in a task's range; a confidence
-- may differ where it falls halfway between two hundredths.
--
-- Bounds. A stream is tried as often as configured, at least once; a charge is posted four times
-- at most. The loop over numbered placeholders runs for as many rounds as the store has mappings
-- and one more: that many numbered placeholders cannot all be taken. The search for a double's
-- last digit doubles its unit as often as the count is large, and blocks are peeled four times, as
-- the code does. All other loops are over a list.
--
-- Not modelled: the regular expressions themselves, the store on Redis, the walk over a JSON value
-- in the pipeline, the Anthropic client's tools, replies and calls, the verifier's system prompt,
-- the HTTP route, configuration and logs. In the delivery of a charge, an exception that is no
-- `httpx.HTTPError` is left out, and so is a dead-letter file that cannot be written.
pub mod Prelude
pub mod Dict
pub mod Router
pub mod Health
pub mod Ttl
pub mod Json
pub mod Session
pub mod Complexity
pub mod Verifier
pub mod Floors
pub mod Pii
pub mod Keys
pub mod Cost
pub mod Llm
pub mod Access
pub mod Anthropic
mod Tests
