-- ===== src/Lib.antt =====
-- protoTrader: a verification library of the agent's own stores, guards and state machines.
--
-- The program is a server around a language-model agent. A chat turn runs the agent; goal mode then
-- judges the turn and may run further turns; workflows run subagents by a graph of steps; the inbox
-- takes posts from outside and a storm guard bounds how many of them wake the agent; the event bus
-- pushes what happens to the connected consoles; the rate limiter and the request guard stand in
-- front of tool calls and of the HTTP endpoints. Each of these parts is a module here, as are the
-- scheduler of later turns, the guards of outbound requests and callbacks, the stores of issues,
-- checkpoints, turns and skills, the Discord conversations and the middleware of the agent. But for
-- the tool-call gate, which owns a rate limiter, and the tool deferral, which reads what the search
-- tool has answered, none reads another's state: they meet in the server, which is not modelled but
-- for the goal loop.
--
-- Files and the code they are about:
--   Prelude     shared: text, dictionaries, lists on native numbers, sorting, decimals
--   Window      what a sliding-window limiter decides that forgets nothing: the specification of the
--               two limiters
--   Enforcement enforcement/rate_limiter.py: `RateLimiter` (`check`, `reset`)
--   Inbox       inbox/store.py: Store is `InboxStore` (`add`, `list`, `mark_delivered`,
--               `pending_count`), Storm is `StormGuard` (`allow`)
--   Events      events/bus.py: `EventBus` (`publish`, `subscribe`), with its bounded queues
--   Auth        a2a_auth.py: `configure`, `set_bearer_token` and the middleware's `dispatch`
--   Tags        regular expressions on tags that ignore case, for the markers in agent text
--   Goals       graph/goals/types.py and store.py; Goals.Markers and Goals.Controller are
--               controller.py (`parse_control`, `evaluate`); Goals.Budget has the loop of
--               server/chat.py that runs the next turn
--   Workflows   graph/workflows/engine.py: Workflows.Validate is `validate_recipe`, Workflows.Cycles is
--               `_has_cycle`, Workflows.Inputs is `resolve_inputs`, Workflows.Template is
--               `render_template`, Workflows.Engine is `execute_workflow`
--   Scheduler   scheduler/local.py: `LocalScheduler` (`add_job`, `cancel_job`, `list_jobs`, `_tick`,
--               `_recover_missed_fires`), and `is_cron` of scheduler/interface.py
--   Egress      egress.py: `set_allowed_hosts`, `_host_allowed`, `_blocked_ip`, `check_url`
--   Callbacks   security.py: `set_callback_allowlist`, `_resolve_ips`, `check_url`
--   Beads       beads/store.py: `BeadsStore` (`create`, `list`, `get`, `update`, `close`, `delete`)
--   Checkpoints graph/checkpoint_prune.py: `prune_checkpoints`, `find_aged_threads`, `delete_thread`,
--               `uuidv6_unix_seconds`
--   Discord     surfaces/discord: Discord.Conversation is `ConversationManager` of conversation.py,
--               Discord.Turns is `TurnLog` of turn_log.py
--   Knowledge   knowledge/hybrid_store.py: the circuit breaker of `HybridKnowledgeStore` (`_embed`)
--   Middleware  graph/middleware: Middleware.Gate is enforcement.py, in front of Enforcement;
--               Middleware.Deferral is tool_deferral.py, and Middleware.Search the tool of
--               tools/lg_tools.py whose results it reads
--   Telemetry   telemetry_store.py: `TelemetryStore` (`record`, `recent`, `prune`, `outliers`),
--               `_percentile`, `_median`
--   Skills      graph/skills/curator.py: `SkillCurator.run` over the rows of the index
--
-- How the model reads the code. State that the code keeps in attributes or in a table is a record
-- that an operation takes and gives back; a result that the code returns beside it stands in a pair.
-- Text is a list of code points, and case, blanks and character classes are those of ASCII. Times
-- are whole numbers of one unit (floating-point rounding is not modelled), read once per operation
-- and passed in. An SQLite table is the list of its rows in the order of their ids, and equal keys
-- of an ORDER BY keep that order; a write that the database refuses is not modelled, a lost write of
-- the goal store is (the argument `saved`). Each operation is one step, as it runs under its lock,
-- its connection or without a wait in the event loop. Of an operation that waits for something else
-- (a scheduler tick for each delivery, `GoalController.evaluate` for the verifier) only the runs are
-- modelled in which nothing else changes its state meanwhile. In particular `evaluate` writes back
-- the goal that it read before the verifier ran, so that a goal set or cleared in between is
-- overwritten.
--
-- Fuel. The goal loop has the code's own bound of `goal_max_iterations + 2` rounds. The workflow
-- loop has a round for each step that waits at the start, which is enough, since each round that
-- does not end in the `break` takes at least one of them off. Rendering a template takes at least
-- one character of the text per step. The cycle check has one level of calls more than there are
-- steps. Skills are put into at most as many clusters as there are skills.
--
-- Parameters: what runs a goal's verifier and a workflow's step, what a turn answers, and the JSON
-- decoder; for the scheduler croniter, the parser of ISO times and the delivery; for outbound
-- requests URL parsing, the classes of addresses, networks and DNS; for checkpoints the parser of
-- UUIDs; for tool calls the policy predicate and the tools; for skills the parser of ISO times,
-- rounding, the decayed confidence and the measure of similarity; for knowledge the embedding
-- function. A theorem holds for every such function, under the hypotheses that it names.
-- `hmac.compare_digest` is modelled by what Python's documentation says of it: it compares two
-- texts, and raises if either is not ASCII.
--
-- Not modelled: the agent graph and its prompts, the other tools, plugins, the Discord gateway,
-- full-text and vector search, the sums of the telemetry, the curator's reports, configuration
-- files, the server's routes, and everything that is only input and output.
pub mod Prelude
pub mod Window
pub mod Enforcement
pub mod Inbox
pub mod Events
pub mod Auth
pub mod Tags
pub mod Goals
pub mod Workflows
pub mod Scheduler
pub mod Egress
pub mod Beads
pub mod Callbacks
pub mod Checkpoints
pub mod Discord
pub mod Knowledge
pub mod Middleware
pub mod Skills
pub mod Telemetry
