-- ===== src/Lib.antt =====
-- The budget ledger, the model protocol and the session log of jingwei, an agent runtime written in
-- Rust: what a task may consume and how its ledger passes through stored images, what a model is
-- asked and answers, how one coordinator extends the log of a session, and how a log is assessed.
--
-- The program. A host makes one ledger for a task (`TaskBudget`), with limits for seven resources
-- and for active time. A run leases it (`BudgetRun`); the runtimes of models and tools hold scopes
-- of the run (`BudgetScope`), reserve before each piece of work (`BudgetReservation`) and settle
-- what it used. A stop of the task or of the run ends admission, but never settlement. Between runs
-- the ledger is sealed into an image, which a store admits after the one before it, and is restored
-- from there. Hosts raise limits by audited grants, and recover interrupted runs by audited records.
-- Models are called with a `GenerationRequest`; the deltas of their streams are collected within
-- limits and checked against the request. What happens in a turn is a sequence of `SessionEvent`s,
-- which the session's coordinator appends to its log: it grants one turn at a time, gives each event
-- its place, commits it to a store and tells the turn at its settlement what it has written. Reports
-- of the ledger and records of model calls are kinds of events. Before a task goes on, its history is
-- loaded and assessed: which steps are settled, and which calls have no recorded result. What a task has
-- come to is kept as snapshots, each admitted after the one before it.
--
-- Which file models which part. Paths are from the repository's root.
--   Base, Base/Tests, Lists, Word, Text, Result, Sets
--     Boolean tests, lists, u64 and Duration arithmetic, String, Result and sets. No code of the
--     program.
--   Budget/Amounts, Budget/Vocabulary: crates/core/core/src/budget.rs
--     `BudgetAmounts::{get,set}`, `BudgetLimits::tightened_by`, and the types of requests, usage,
--     stops and reports under their names without the word Budget.
--   Budget/Audit: the records of checkpoint.rs, grant.rs and recovery.rs in crates/core/budget/src.
--   Budget/Ledger: crates/core/budget/src/lib.rs
--     `State` is the record behind the mutex and `Inner` what never changes. Ledger/Clock has
--     `Inner::tick`, the checks of `State` and the test of `StateGuard`; Ledger/Runs `TaskBudget`
--     and `BudgetRun`; Ledger/Scope `BudgetScope`; Ledger/Requests `fits`, `validate_request` and
--     the map of pending requests; Ledger/Reserve `BudgetScope::reserve`; Ledger/Settlement
--     `settlement`; Ledger/Reservations `BudgetReservation`. Ledger/Calls has one constructor for
--     each call that a host, a runtime or a handle's `Drop` makes.
--   Budget/Checkpoint: crates/core/budget/src/{checkpoint,grant,recovery}.rs
--     Checkpoint/Validate has `BudgetCheckpoint::validate`; Checkpoint/Grants the checks of grants
--     and `boundary_report`; Checkpoint/Transfer the recovery audit, `execution_claim`,
--     `seal_checkpoint` and `restore_checkpoint`; Checkpoint/Transition `validate_transition`;
--     Checkpoint/Host `grant_budget`, with the store's answers as parameters.
--   Budget/Equality: the derived `==` of these types.
--   Budget/Invariant: what holds of a ledger between two calls, and that each operation keeps it.
--   Budget/Guarantees, Budget/Checkpoint/{Chain,Resume,Freezing}: the guarantees to hosts and to stores.
--   Core/Json: what is used of serde_json, a parameter of all that carries its values.
--   Core/Model, Core/Request, Core/Response, Core/Accumulator: crates/core/core/src/model.rs
--     The types; `validate_shape` and `preflight`; `validate_shape_for` and `into_message`;
--     `GenerationAccumulator`. Request/Groups says what a well-formed conversation is,
--     Response/Continues how an answer goes on with it, Accumulator/{Bounds,Contents} what a stream
--     leaves.
--   Core/Event: crates/core/core/src/{event,decision,tool_operation}.rs and the task-run report.
--   Session/Vocabulary, Session/Log: crates/session/session/src/lib.rs
--     Drafts, admissions, summaries and errors; `validate_physical_log`.
--   Session/Coordinator: crates/session/runtime/src/coordinator.rs
--     Coordinator/Turn has `settle`, `mark_terminal` and the pieces of `append`; Coordinator/Append
--     `append` and `reconcile_indeterminate`; Coordinator/Commands `run_coordinator`, `admit`,
--     `grant_pending` and `reject_pending`, with `serve` for one round of the loop. Effects says what
--     an append does; Steps and Preserved carry what every step keeps to every sequence of commands,
--     for Invariant and Orderly, which keep the log in order, and for Summary; Waiters, Silent and
--     Liveness count requests for turns and their answers, and Queue says when some wait.
--   Task/Vocabulary, Task/History: crates/task/state/src/{lib,history}.rs
--     History/Scanning has `assess_task_history`, one function for each group of checks of its loop,
--     and `finish`; Task/History its locals and what it returns. Laws compares it with the check of
--     physical logs; Operations, Counting and Unresolved count its calls and their results, Seen and
--     Once the requests under one id.
--   Task/Snapshot: crates/task/state/src/lib.rs
--     `TaskSnapshot`; Snapshot/Validate has `validate`, with the limit of nodes as fuel for its walk,
--     Snapshot/Successor `validate_successor`; Snapshot/Chain says how far a store can get by it.
--
-- How the code is read. Every method of the ledger locks the mutex for its whole body, so a method is
-- a function of the state, and an interleaving of threads is a sequence of calls. Its result is `ok`,
-- `err` or `panicked`, and an early return keeps the writes made before it. Each sample of the clock is
-- an argument, any number at all, so that a clock may also run backwards. `Drop` of a handle is a call
-- of its own, except where a method takes the reservation by value: there it runs at the end, at a
-- second clock sample. Handles are values: a history may use one twice, or one that was never
-- issued, which is more than Rust allows, and what holds of all histories holds of Rust's. The
-- coordinator is one task that serves its mailbox in order: a command is a function of the state and
-- of what it reads from outside (the stopping flag, channels that are closed, the answers of the store,
-- fresh ids), its replies are a list, and a lease or a channel is a number, again with no limit on
-- its use.
--
-- Bounds. A u64 is a natural number below 2 ^ 64: checked sums are partial, and `+` and `-` wrap as
-- in a release build. A Duration is its nanoseconds: the sum of active times is exact, since it
-- stays within a limit that is a Duration, a checked or saturating sum stops at the type's maximum,
-- and a difference below zero panics. A String is its list of code points. Loops run over lists,
-- by structural recursion; the walk over payloads gives up at its limit of nodes, as the code does.
--
-- Not modelled. A poisoned mutex; the list of wakers behind `BudgetScope::stopped`, of which the
-- wake-up test and the check that it guards are here; serde; ids that are made at random, which are
-- arguments; `recover_budget_candidate` and `inspect_budget_recovery`, which drive a store and a
-- session log; crates/core/budget/src/execution.rs, whose history check is a parameter of
-- `grant_budget`; the registry of coordinators and the client side of their mailboxes; the stores,
-- which are file IO; the capture of snapshots of tasks; and the crates above: agents, contexts, providers,
-- plugins and tools.
pub mod Base
pub mod Budget
pub mod Core
pub mod Session
pub mod Task
