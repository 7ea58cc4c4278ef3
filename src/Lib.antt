-- ===== src/Lib.antt =====
-- A model of the core of lottie-orchestrator, a governed runtime for LLM agents in Python, with
-- proofs of what its components promise. Files of the program are named below src/lottie.
--
-- Every run of an agent or skill goes through the kernel (runtime): a chain of middleware around
-- the real work, and an event bus for observers. The governance package mounts policy, budget and
-- capability gates on that chain and records each run in a ledger; llm routes the calls of a run
-- over providers; mesh leads several agents by a supervisor.
--
-- - Prelude (Tests, Lists, Sort, Texts, Walks) has the shared helpers; Exec has Python's
--   exceptions as values, and calls that mutate objects and may raise as functions from a state
--   to a result and a state.
--
-- - Runtime.Context is runtime/context.py (ExecutionContext), Runtime.Events is
--   runtime/events.py (EventBus.emit), Runtime.Pipeline and Runtime.Stream are
--   runtime/pipeline.py (Pipeline.execute and Pipeline.execute_stream). The state of one run is
--   the record Run; a middleware is a function of the rest of the chain. Runtime.Dispatch,
--   Runtime.Recording, Runtime.Lifecycle and Runtime.Streaming are about the events of a run.
--
-- - Governance.Policy, Governance.Capability and Governance.Cost are the gates of
--   governance/policy.py, capability.py and cost.py; Governance.Ledger is the SQLite database of
--   governance/audit.py as lists of rows with the exception that its next statement raises;
--   Governance.Modules are the chain members of governance/middleware.py, with DepthMiddleware
--   of core/middleware.py and governance/subscribers.py; Governance.Host is the state that they
--   share. Governance.Precedence, Governance.Admission and Governance.Scopes are about the
--   gates, the budget and the cost module.
--
-- - Core.Screens is security/middleware.py with VerifyMiddleware; Core.Chain is build_chain of
--   core/middleware.py, and mounted_modules of core/base_agent.py; Core.Limits is complete and
--   _summarize_span of core/base_agent.py with the limits of a run. Core.Observers is its
--   event_bus, set_audit, set_plugins and _write_block, Core.Progress its session and what a run
--   reports, Core.Assembly the sources of a prompt and _apply_deltas. Core.Positions,
--   Core.Resumed, Core.Prompt, Core.Enforcement, Core.Governed, Core.Plugins, Core.Keeping and
--   Core.Caps are about them.
--
-- - Llm.Routing is RoutedProvider of llm/routing.py; Llm.Fallback is about it.
--
-- - Mesh.Schema, Mesh.Router, Mesh.Local and Mesh.Plan are mesh/schema.py, router.py, local.py
--   and plan.py; Mesh.Roster and Mesh.Replay are about routing and replay.
--
-- - Serve.Auth is serve/auth.py, Serve.Gate is serve/stream_gate.py and Serve.Limiter is
--   serve/ratelimit.py; Serve.Pages is serve/pagination.py; Serve.Cuts, Serve.Lines,
--   Serve.Buckets and Serve.Paging are about them. Knowledge.Chunking is knowledge/chunking.py;
--   Knowledge.Cover is about it. Knowledge.Frontmatter is knowledge/frontmatter.py with
--   schema.py; Knowledge.Manifest is the queries of knowledge/manifest.py with
--   knowledge/index.py; Knowledge.Ingested is about frontmatter and has the text that
--   _write_draft of knowledge/ingest.py writes. Context.Compaction is context/compaction.py;
--   Context.Survivors is about it. Memory.Records and Memory.Client are memory/schema.py and
--   memory/mock.py; Memory.Isolation is about them.
--
-- - Files is a file system as paths with contents; Security is src/lottie/security with
--   serve/security.py: Security.Markers and Security.Injection are injection_scanner.py,
--   Security.Secrets is secret_detector.py, Security.Screens are the sanitizer, the output
--   check, the content gates and the gate of the transports, Security.Paths and Security.Writes
--   are write_gate.py with validator.py and code_scanner.py, whose writes and subprocesses may
--   raise. Security.Spans, Security.Redaction, Security.Clean, Security.Vetted and
--   Security.WriteGate are about them.
--
-- - Session.Store and Session.Module are session/schema.py, store.py and middleware.py;
--   Session.Confinement, Session.Refinement and Session.Screened are about the store.
--   Memory.Reflection, Memory.Recall, Memory.Gateway and Memory.Modules are
--   memory/reflection.py, recall.py, agent.py and middleware.py; Memory.Fence, Memory.Learned
--   and Memory.Unnoticed are about them. Context.Compiler is context/compiler.py;
--   Context.Pinned, Context.Compiled and Context.Kept are about it. Distill.Template is
--   distill/schema.py and template.py, Distill.Store and Distill.Review are distill/store.py;
--   Distill.Replaced, Distill.Slots and Distill.Promoted are about them. Core.Secured puts the
--   gate and the modules of these packages on the chain of an agent.
--
-- Costs and amounts are whole micro-dollars and times are milliseconds, where the program has
-- floats. Names are native strings; a text that the code walks is the list of its code points,
-- with ASCII case and white space. Loops are structural recursion; that of LocalEngine.run is on
-- the rounds that are left, which are max_steps at the start, as in the code; that of
-- chunk_document is on fuel, one unit for each character, which is enough since each round starts
-- at least one character further. The rate limiter counts sixty-thousandths of a request, so that
-- a rate per minute refills a whole number each millisecond.
--
-- Regular expressions of the scanners, the secret detector, the checkers of generated code, JSON
-- and YAML are parameters; the patterns of session ids, skill names, slots and the fence of
-- recalled notes are written out. The screens run as skills, whose capability check needs the
-- gate of the agent in whose window they are called; one value of it stands for all calls of a
-- theorem.
--
-- Not modelled: the command line, scaffolding, project discovery, plugins, the HTTP and MCP
-- transports, and the vector stores, which are glue or calls of libraries; the providers, the
-- hash, the clock, uuid4, the work of an agent and the supervisor's model are parameters.
pub mod Prelude
pub mod Exec
pub mod Runtime
pub mod Governance
pub mod Core
pub mod Llm
pub mod Mesh
pub mod Memory
pub mod Context
pub mod Knowledge
pub mod Serve
pub mod Session
pub mod Security
pub mod Distill
pub mod Files
