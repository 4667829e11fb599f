-- ===== src/Lib.antt =====
-- CrustCore, the verifier kernel for coding agents: the synchronous reducer that decides which
-- effects an agent may have, with the budgets and the policy that it consults.
--
-- The program. Adapters turn the outside world into events. `Kernel::step`
-- (crates/crustcore-kernel/src/kernel.rs) takes one event, writes to its arenas of tasks, jobs and
-- approvals, and returns actions for the adapters to carry out. It asks the policy
-- (crates/crustcore-policy/src/decision.rs) to classify each side effect, and folds what an event
-- consumed into the budget of its task (crates/crustcore-types/src/budget.rs). Apart from it, the
-- flow engine (crates/crustcore-flow/src/engine.rs) schedules a graph of model, tool, review and
-- verification nodes over drivers that it is handed, with a budget, a gate before each tool, and a
-- state that approvals reach only from outside. File tools take only paths that the resolver of
-- crates/crustcore-path/src/lib.rs has confined to a worktree. What happened is kept in a log of
-- frames chained by SHA-256 (crates/crustcore-eventlog/src/lib.rs), and each tool result in a receipt
-- under a secret key (crates/crustcore-receipts/src), which names its frame. A session
-- (crates/crustcore-session/src) is a view of the log; a run is resumed only when the log and the
-- receipts verify. The daemon (crates/crustcore-daemon/src) routes a task to executors, decides
-- whether a verified result may be integrated, and takes webhooks that are signed and new.
--
-- The files.
--   Prelude and its children: tests on numbers, predicates on lists, text, arenas of
--     keyed records.
--   Types/Word, Types/Status, Types/Budget: the vocabulary of crates/crustcore-types.
--   Policy: `PolicySnapshot::classify` and `authorize_reversible`.
--   Kernel/Event, Kernel/State, Kernel/Tables: event.rs, action.rs and state.rs of the kernel.
--   Kernel/Jobs: `apply_job`, `is_runnable_job` and `drain_ready` of kernel.rs.
--   Kernel/Approvals: `classify_request` and `resolve_approval` of kernel.rs.
--   Kernel/Step: `process` and `step` of kernel.rs, and `run`, the fold of `step` over events.
--   Kernel/Tasks, Kernel/Pending, Kernel/Authority, Kernel/Counters, Kernel/Sequence and
--     Kernel/Resume: proofs.
--   Policy/Caps: the approval tokens of crates/crustcore-policy/src/caps.rs.
--   Flow/Budget, Flow/State, Flow/Graph: budget.rs, graph.rs and predicate.rs of the flow crate.
--   Flow/Drivers: drivers.rs and outcome.rs, and the charges and the tool gate of engine.rs.
--   Flow/Engine: `run_from`, `run_parallel`, `run_subgraph` and `run` of engine.rs.
--   Flow/Closed: what validation establishes. Flow/Contract: one induction over runs, which
--     Flow/Totals, Flow/Outputs and Flow/Authority apply.
--   Path: `normalize_relative`, `confine_read` and `confine_write` of the path crate, with the proofs
--     in Path/Lexical and Path/Confined.
--   Types/Hash: `sha256`, `hmac_sha256`, `ct_eq` and `hex32_decode` of crates/crustcore-types.
--   Eventlog/Codes, Eventlog/Parser, Eventlog/Frame: the bytes of a frame, `encode_frame_prefix` and
--     `decode_at`. Eventlog/Log: `append`, `walk`, `verify`, `verify_to_head`, `iter`, `inspect`.
--     Eventlog/Codec, Eventlog/Appends, Eventlog/Local, Eventlog/Sound, Eventlog/Verified,
--     Eventlog/Iterated and Eventlog/Binding: proofs.
--   Receipts/Chain, Receipts/Join, Receipts/Record: lib.rs and join.rs of the receipts crate, with
--     the proofs in Receipts/Minted, Receipts/Verified, Receipts/Joined, Receipts/RoundTrip and
--     Receipts/Safe.
--   Session/View, Session/Resume, Session/Lease, Session/Snapshot: view.rs, resume.rs, lease.rs and
--     snapshot.rs of the session crate, with the proofs in Session/Resumed, Session/Leased,
--     Session/Selected and Session/Visible.
--   Daemon/Task, Daemon/Router, Daemon/Review, Daemon/TaskLoop: router.rs, the integration gate of
--     supervisor.rs, reviewer.rs and task_loop.rs of the daemon, with the proofs in Daemon/Routed,
--     Daemon/Gated and Daemon/Integrated. Daemon/Agents: the budgets and the
--     scheduler of supervisor.rs. Daemon/Webhook: the verifier of webhook.rs, with the proofs in
--     Daemon/Replay, Daemon/Remembered and Daemon/Inbound.
--   Tests: runs at concrete events, and the theorems at concrete inputs.
--
-- The reading of the source. The kernel is a record, and a method returns the new record; the
-- actions that a method pushes are returned as a list. An index that `position` found for an id is
-- represented by the id: `modify` writes at the first record with the key. An early `return` is a
-- branch. u32, u64 and u128 values are natural numbers, with saturation written out. The loops of
-- the kernel are over lists or a constant. The loop of `run_from` runs on fuel, one more than the
-- step limit of the budget: each turn, nested ones included, charges a step first. The drivers of a
-- flow are functions on a world that the run threads through, and the redactor is a function on
-- text. Text that the program compares or measures is a list of bytes.
-- A log and a digest are lists of bytes. An offset into them is represented by the bytes from it on,
-- and the walk of a log runs on one unit of fuel for each byte, which is enough as each frame takes
-- some. The SHA-256 schedule and rounds are over lists of words.
--
-- Not modelled: the processes, files and networks around the kernel, and the other crates. The
-- drivers, the redactor and the verifier of a flow are parameters, and so is the file system of the
-- resolver, and the redactor of a snapshot. Of the log, storing it in a file and printing it are left
-- out, and the `debug_assert` of `append`; of the receipts, the file of the key; of the sessions,
-- compaction, and the serde forms; of the daemon, its runtime, the parsing of HTTP and the scores, which
-- are floating point numbers. The redactor of a webhook is a parameter.
mod Prelude
pub mod Types
pub mod Path
pub mod Policy
pub mod Eventlog
pub mod Receipts
pub mod Session
pub mod Daemon
pub mod Flow
pub mod Kernel
