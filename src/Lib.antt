-- ===== src/Lib.antt =====
-- harness-core: a verification library for the decision logic of the Go kernel.
--
-- The kernel runs sessions. A session (pkg/harness/session) moves through phases and is worked on by
-- one worker at a time, which holds a lease on it. Its plan (pkg/harness/plan) is a sequence of
-- revisions, each a list of steps; the runtime (pkg/harness/runtime) chooses the next step, runs it,
-- verifies it, and decides from budgets, strategies and aggregates what follows. Approvals
-- (pkg/harness/approval) hold a step until a person has answered; a blocked runtime
-- (pkg/harness/execution) holds a session until something outside has happened. Each run of a step
-- leaves attempts, actions, verifications, artifacts and handles of running programs in the execution
-- stores. A task (pkg/harness/task) is the outer record that a session serves.
--
-- Files and the code that they model:
--   Base               shared names; integers with 64-bit wrap, Go's order on strings and what the
--                      kernel uses of strings and strconv, maps, sorting,
--                      results with the program's sentinel errors; Base/Act: calls that change a world
--                      and may fail
--   Metadata           map[string]any and its typed readers
--   Session/State      pkg/harness/session/state.go, recovery.go, the lease tests of store.go
--   Session/Store      pkg/harness/session/store.go: Create, Get, Update, List, ClaimNext, RenewLease,
--                      ReleaseLease
--   Session/...        Order, Claim, Lease, Handover, Update, History: what the store guarantees
--   Plan/Spec, Store   pkg/harness/plan/spec.go and store.go; Plan/Revisions: its revisions
--   Permission         pkg/harness/permission: decisions (policy.go); Permission/Evaluator: the default
--                      policy and rules; Permission/Rules: which rule decides
--   Tool               pkg/harness/tool: the registry and its versions; below it Versions and Latest
--   Capability         pkg/harness/capability: Types, the resolver, requirements and frozen views;
--                      Snapshots: the store; Matching: when a request is supported
--   Execution/...      Aggregate, Tally, Counts: AggregateResultsFromSteps of
--                      pkg/harness/execution/aggregate.go
--   Execution/...      Items, Attempts, Actions, Verifications, Artifacts, Handles, Listing: the types
--                      of pkg/harness/execution/types.go and the stores of stores.go
--   Execution/Blocked  blocked_runtime.go and blocked_runtime_store.go of pkg/harness/execution
--   Approval           pkg/harness/approval/store.go
--   Task               pkg/harness/task, updateTaskForTerminalInStore of runtime/runner.go
--   Runtime/Transition DecideNextTransition and ApplyTransition of runtime/loop.go
--   Runtime/Advance    the loop of RunStep (runtime/runner.go) that advances to the execute phase
--   Runtime/Budgets    runtime/budgets.go; Runtime/Retry: its limits
--   Runtime/Planning   the revision budget, and createPlanWithAudit of runtime/lifecycle.go
--   Runtime/SessionUpdate  runtime/session_update.go and requireSessionLease of recovery.go
--   Runtime/PlanOutcome    runtime/plan_outcome.go
--   Runtime/Driver     the choice of the next step in runtime/session_driver.go
--   Runtime/PlanIdentity   runtime/plan_identity.go and the write of a step (runtime/runner.go)
--   Runtime/SessionNotes   the session's plan reference (runtime/plan_identity.go) and blocked runtime
--                      (runtime/blocked_runtime_state.go)
--   Runtime/Coordination   runtime/coordination.go
--   Runtime/Recovery   runtime/recovery.go: lease checks and the interruption mark
--   Runtime/ErrorTaxonomy  runtime/error_taxonomy.go
--   Runtime/Handles    runtime/runtime_handles.go; below it Final, Reconcile: what its calls guarantee
--   Runtime/Rollback   the rollback of a session, and joined errors (runtime/rollback.go)
--   Runtime/Blocked    runtime/blocked_runtime_lifecycle.go over arbitrary stores; below it Requests
--                      (its checks and records), Memory (the in-memory stores), Calls, Machine (an abstract
--                      machine of waiting sessions), Refinement, Guarantees and Release
--   Runtime/ApprovalFlow   RespondApproval of runtime/approval_flow.go with the rollbacks of
--                      rollback.go, over arbitrary stores; below it Answers (its checks and records), Memory, Once
--                      and Restored
--   Tests              concrete sessions, plans and steps
--
-- How the code is read:
--   Go's int and int64 are integers whose sums wrap at 64 bits. Strings are native strings,
--   compared by code points, which for UTF-8 is the order by bytes. A string type with constants
--   is a data type with a constructor for each constant and `unknown` for any other text. A map
--   is an association list, in one order in which Go may range over it; a nil map and an empty
--   one are the same. The clock's readings and the identifiers that uuid draws are arguments. A
--   store's method holds the store's mutex, so it is one step; the only method that does not is
--   Create of the plan store, which reads the latest revision before it locks: its read and its
--   write are given apart, and together. `sort.Slice` is a stable insertion sort; where its
--   order matters, the comparison tells any two records of a store apart. It does not for
--   artifacts and handles that were created at the same time: those come in the order of the
--   map. Versions of tools may compare in a circle; what `sort.Slice` makes of them depends on
--   its algorithm, but a sequence in which no element is less than the one before it is left as
--   it is by both. A registry of tools is never nil. A record is a value, so changes to a map or
--   slice that two records share are not seen. A float64 in metadata is given by the integer
--   that it truncates to; a map inside of metadata is `opaque`, a value that no code here reads.
--   Writes under a lease (Runtime/SessionUpdate) run against an arbitrary store whose world any
--   other worker may change between two calls. The calls of Runtime/Blocked and
--   Runtime/ApprovalFlow are actions over records of store operations (BlockedRuntimeStore,
--   SessionStore, ApprovalStores), which the in-memory stores fill. A call that draws a new
--   identifier takes it as an argument; where it matters that it is new, a theorem says so. A
--   call of Runtime/Handles takes its readings of the clock one by one (Readings). fmt.Sprint on
--   a value of a step's arguments (Permission/Evaluator) is a parameter, and so are a fallback
--   policy and a tool's handler, which the embedding program supplies. The errors of
--   capabilities and of tool calls are data types of their own. The loop of Runtime/Advance runs
--   on fuel; four units are enough from every state. The loop of Runtime/SessionUpdate makes
--   max_session_update_attempts rounds, as the code does.
--
-- Not modelled: the running of a step with its audit events and records (the rest of runner.go), the
-- resumption of an approved step and the reuse of approvals, the abort of a session, interactive
-- control, the read projections, the frozen views of plans, programs and the fan-out scheduler.
-- Transactions over the stores (the persistence runner) are not modelled: the operations that may run
-- in one are modelled on their other path. Database repositories, adapters, modules and commands are
-- input and output around the kernel.
pub mod Base
pub mod Metadata
pub mod Session
pub mod Plan
pub mod Permission
pub mod Execution
pub mod Runtime
pub mod Approval
pub mod Task
pub mod Tool
pub mod Capability
mod Tests
