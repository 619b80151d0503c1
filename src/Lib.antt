-- ===== src/Lib.antt =====
-- Control Center: the orchestration core, network changes, access control, login protection, the
-- lifecycle of nodes and the market's install order.
--
-- The program plans changes of managed nodes, has them approved, and runs them as jobs that workers
-- lease. A change (internal/orchestration/change) is created with the decision of a policy
-- (internal/orchestration/policy) and with an immutable revision (internal/orchestration/config);
-- approvals and transitions move it. Before a job is admitted a preflight
-- (internal/orchestration/executionguard) decides whether the change is eligible. The job
-- repository (internal/orchestration/job) admits jobs by idempotency key, leases them to workers,
-- takes what the workers report, cancels and retries them; timelines record what became of a job,
-- and a manual retry makes a new job of one that failed for good. A network change
-- (internal/networkpolicy) has a machine of its own, with an apply window, probes and a rollback.
-- Who may call what is decided by role-based access control (internal/identity/rbac). Modules of
-- the market (internal/market) are installed in an order that their dependencies allow. A node
-- (internal/nodelifecycle) is taken out of service in steps that need evidence. Failed logins are
-- counted by account and by source, and too many block (internal/identity/auth).
--
-- Files and code
--
-- - Prelude and below: tests, results, Go's maps, times and durations, sorting, and the parameters
--   that stand for Go's standard library.
-- - Orchestration/Events: internal/orchestration/events/events.go, what an action reports.
-- - Orchestration/Job/Model: job.go. Orchestration/Job/Steps: what each operation of memory.go does
--   to one job. Orchestration/Job/Memory: memory.go and cancel_version.go, `MemoryRepository`.
--   Orchestration/Job/TimelineEntries: timeline.go. Orchestration/Job/Timeline: timeline_memory.go
--   and timeline_transition.go. Orchestration/Job/RetryRequest: manual_retry.go.
--   Orchestration/Job/ManualRetry: manual_retry_memory.go and manual_retry_lookup_memory.go. All
--   are in internal/orchestration/job. Orchestration/Job/Lifecycle states the lifecycle of a job
--   without the code, Consistent the invariant of a repository and the moves between repositories;
--   Refines is about the operations as moves, History about sequences of calls, and
--   ManualRetry/Once about sequences of calls of both repositories. The other modules below Job
--   are named for what they are about.
-- - Orchestration/Policy: internal/orchestration/policy/policy.go; Permissions below it is about its
--   search in the permissions of an approval.
-- - Orchestration/Config: internal/orchestration/config/revision.go.
-- - Orchestration/Change: internal/orchestration/change/change.go.
-- - Orchestration/ExecutionGuard: internal/orchestration/executionguard/preflight.go.
-- - NetworkPolicy/Forwarding: internal/networkpolicy/policy.go. NetworkPolicy/ChangePlan, with
--   Builder and Build below it: internal/networkpolicy/change_plan.go; Safe below it says what a
--   plan is worth.
-- - NetworkPolicy/ChangeEvents and NetworkPolicy/ChangeMachine:
--   internal/networkpolicy/change_machine.go, with the identifiers of change_plan.go. A machine is
--   made only for a plan that `build_change_plan` makes again from its parts. Graph below it states
--   the states and edges without the code.
-- - Identity/Rbac: internal/identity/rbac/rbac.go, who is allowed what, without the tables of
--   built-in roles and permissions.
-- - Identity/Login: internal/identity/auth/login_protection.go. Bound, Causes and Guessing below it
--   are about sequences of its calls.
-- - Nodes/Metadata: internal/corecontracts/metadata.go. Nodes/Lifecycle:
--   internal/nodelifecycle/lifecycle.go; History below it is about the sequence of the objects that
--   are stored for a node, each a checked successor of the one before.
-- - Market/Dependencies: internal/market/dependencies.go. Install, Cycles and Termination below it
--   say what an order, an error and the bound on the search are worth.
-- - Scenarios: the theorems at concrete inputs.
--
-- How the code is modelled
--
-- A call takes the state of its repository or machine and returns its result beside the state that
-- it leaves (`Exec`); a mutex makes a call one step, so concurrent calls are sequences of steps in
-- any order. A pointer that may be nil is an option. `clone` copies a job and is the identity here.
-- A map is an association list; `Claim` and `List` sort what they read of a map, so that its order
-- plays no part; where the code ranges over a map unsorted, the order of the list stands for Go's.
-- Errors are data; the text of an error is kept where it is fixed, without the values that the code
-- adds to it. A Go string type is a data type with one more constructor for the other values, or,
-- for zones and evidence checks, the text itself.
--
-- Times are nanoseconds since Go's zero time. Subtracting a duration stops at the zero time.
-- Durations are int64 with their wrap-around, which the doubling of the retry delay needs; versions
-- are uint64 and wrap. Counts of attempts are natural numbers without a bound. The text of the
-- standard library's functions is not read: JSON validity, SHA-256, trimming and formatting of
-- numbers are parameters (`Library`, `EventLibrary`, `PlanLibrary`, `LoginLibrary`, `TextLibrary`),
-- about which the theorems assume nothing, but for the two on lockouts: they take the keys of
-- accounts and of sources, which are hashes of different texts, to be different. `sort.Slice` is
-- insertion sort; on keys without ties every sort gives the same order.
--
-- The search for an install order runs on fuel, one more than the number of modules, a bound on its
-- depth, which it never uses up. No other definition runs on fuel: every other loop of the code is
-- over a list, or counts rounds.
--
-- Not modelled: the PostgreSQL repositories (internal/persistence), whose state changes are SQL;
-- HTTP handlers, the user interface and command-line wiring; `canonicalContent` of revisions, which
-- is a parameter, since it is what the JSON decoder and encoder make of a text; and the subsystems
-- beside the orchestration core (agents, capacity, recovery, sessions, inventory, the other code of
-- the market and the others).
mod Prelude
pub mod Orchestration
pub mod NetworkPolicy
pub mod Identity
pub mod Market
pub mod Nodes
mod Scenarios
