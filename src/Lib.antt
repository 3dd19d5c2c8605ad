-- ===== src/Lib.antt =====
-- A model of the demo agent of Navigator AI: the runtime that executes demo steps and plans in a
-- browser, the state and locking of the live session, and helpers of the core. Paths below are
-- those of the repository.
--
-- Prelude passes on the names of the libraries and adds Boolean tests, lists, Boolean equality
-- and texts as lists of code points.
--
-- Core.KeyPool is navigator/core/key_pool.py: `parse_key_list`, `is_rate_limit_error` and
-- `call_with_rotation`; the function that is called with a key is a parameter.
--
-- Runtime is navigator/agent_runtime:
--   Models: the enums and records of models.py. Identifiers and times are numbers or texts.
--   Watchdog: watchdog.py, one function per operation; the clock reading is an argument.
--   Lock: `with self._lock` over a lock that is not reentrant. A call returns or waits; waiting
--     for a lock that the thread holds itself never ends, and is the outcome `blocked`.
--   Realtime: realtime_state.py, the controller with its lock; `Reports` has calls of `transition`
--     at the same time, each in its three steps.
--   Delegate: task_delegate.py, the delegator with its lock and its event queue.
--   Recorded, Compiler: demo_compiler.py, which makes demo steps of the recorded steps of
--     automation/record.py; `Compiler.Refusal` runs them with the executor.
--   DemoGraph: demo_graph.py, which turns the playlist of a site graph into compiled flows. Whether
--     the class SiteGraph has the attribute `demo_script_spoken` is a parameter.
--   Interaction: interaction.py, how the visitor's input is resolved. The reply of
--     `wait_for_utterance`, the session context and `_extract_value` are parameters.
--   StepExecutor: execution/demo_step_executor.py. `Defs.Rounds` is one round of the retry loop,
--     `Defs` the loop and `execute_demo_step`, `Placeholder` the substitution of placeholders. The
--     browser is a record of functions: what `execute_action`, `wait_settled` and `verify_step`
--     answer is arbitrary, and so is the page after them. The loop takes the number of rounds
--     that are left, three at the start, as `while attempt <= _MAX_RETRIES` allows.
--   Cancellation: execution/cancellation.py and `WorldStateStore.update` of world_state/store.py.
--   Orchestrator: `_execute_task` and `_execute_plan` of orchestrator.py. The planner and the
--     browser are parameters, and every reading of the interrupt flag may differ from the last;
--     planning, acting, logging, reading and pushing the page, and speaking may raise, but emitting
--     an event does not. Other threads change nothing in the world state meanwhile.
--     `Requests` is `handle_utterance` and `interrupt`.
--   Progress, Backchannel: progress_feed.py and backchannel.py, the rate limits of what the live
--     agent is nudged to say; Pace has the notion of events that keep a distance.
--   Worker: `_request_task` and `_worker_loop` of orchestrator.py as a step relation: any number
--     of calling threads and worker threads, interleaved between their accesses to shared state.
--
-- Agent.Schedule is navigator/agent/playback_schedule.py: `build_schedule`, with the arrays indexed
-- by step as one list of steps; a dictionary is an association list. Agent.SemanticCache is
-- navigator/agent/semantic_cache.py, whose OrderedDict is a list with the oldest item first.
--
-- Auth is navigator/auth/session_tokens.py: RateLimit is `_check_rate_limit`, Tokens is
-- `create_token` and `consume_token`, as whole calls and as calls that run at the same time, each
-- SQL statement being one step on the table.
--
-- Auth.Accounts is navigator/auth/store.py: users, preferences and refresh tokens, the latter as
-- whole calls and as calls that take their SELECT and DELETE in turn.
--
-- App.Registry is navigator/app/registry.py: products, their keys, and the revisions of their site
-- graphs. The validator `parse_site_graph` is any function, but in `Registry.Graphs`, which takes
-- that of Knowledge.SiteGraph; agent settings are left out.
--
-- Knowledge.SiteGraph is navigator/knowledge/site_graph.py with the tool calls and postconditions
-- of navigator/core/schemas.py: the lookups, `_cross_check`, `_absolute_base` and
-- `parse_site_graph`. YAML and Pydantic's typing are one parameter, `read`; numbers that may be
-- negative in the code (scroll positions and the order of a playlist) are natural numbers.
--
-- Automation is navigator/automation/explore: Tickets is tickets.py, Guardrail is guardrail.py with
-- the judge as a parameter, Episode is episode.py (the attempts of a run and their counts),
-- History is history.py, which reads the episodes of past runs and uses Episode's grouping, and
-- Segment is segment.py, which cuts an exploration into flows.
--
-- The registry validates and loads site graphs; the demo graph compiles the flows of their
-- playlists. The compiler makes the steps that the executor runs; the executor calls the watchdog
-- and the interaction engine; the orchestrator calls the watchdog and the cancellation functions;
-- the worker runs the orchestrator's tasks.
--
-- Fuel: `Placeholder.substitute` takes the length of the text, and every call takes a character off
-- the text, so that more fuel gives the same result (`Placeholder.Laws`). `put_attempts` of the
-- registry makes six attempts at most, as the code does, of which the first succeeds
-- (`Runs.put_site_graph_lem`). All other recursion is structural.
--
-- Not modelled: language models, speech, the browser and databases, which the code only calls; the
-- payloads of events and timestamps; the web client; and, though they are pure, the routing of
-- utterances, call memory, barge-in detection and the generated side data of site graphs.
pub mod Prelude
pub mod Agent
pub mod App
pub mod Auth
pub mod Automation
pub mod Core
pub mod Runtime
pub mod Knowledge
