-- ===== src/Lib.antt =====
-- A model of the harness of Blue Lagoon, an assistant whose worker proposes actions and whose harness
-- decides, asks for approval, executes and recovers. The program's core logic is the crate `harness`;
-- `contracts` holds the data that the harness and the worker exchange.
--
-- The parts, and the files that model them:
--   Base: names that every module shares, Boolean tests, lists, texts as lists of code points, `i64`
--     as integers over the native numbers with their decimal text, fallible results, and actions on
--     a store.
--   Contracts: crates/contracts/src/lib.rs. `Action` has governed actions, scopes and approvals,
--     `Ingress` normalized ingress and budgets, `Proposal` canonical proposals and identity deltas,
--     `Wake` wake signals. Structs are records and enums are data types, with the source's names.
--   Config: crates/harness/src/config.rs. `Validate` has `RuntimeConfig::validate` and the
--     `validate` of every section, `Valid` what is asked of the settings, and `Guarantees` joins them.
--   Policy: crates/harness/src/policy.rs. `Boundaries` has the free-text identity boundaries, `Wake`
--     the decision on wake signals; `Budget`, `Telegram` and `Risk` prove things of the rest.
--   Ingress: crates/harness/src/ingress.rs, with the data of an update from
--     crates/harness/src/telegram.rs. `Update` has the data, `Parts` what is taken from the content of
--     a message; `Authority` joins the ingress with the policy.
--   Approval: crates/harness/src/approval.rs. `Records` and `Checks` have the data and the
--     validators, `Store` the table of requests with `create_approval_request`
--     (`create_counted`, for any count), `resolve_approval_request` and the UPDATE that both resolution and expiry make; below it,
--     `Rows` and `Invariant` have the table's invariant, `Expiry` has
--     `expire_due_approval_requests`, and `History` is the life of the table as a step relation.
--   Recovery: crates/harness/src/recovery.rs. `Decision` has the recovery decision, `Checkpoint` the
--     tables of checkpoints and diagnostics with the trigger that writes both, `Lease` the table of
--     worker leases with their supervision, and `ActionState` the evidence that an interrupted
--     governed action left.
--   Foreground: crates/harness/src/foreground.rs. `Bindings` has the table of conversation bindings
--     with the reconciliation of an ingress with it, `Pending` the decision between one answer and a
--     backlog.
--   Scheduled: crates/harness/src/scheduled_foreground.rs, the table of scheduled tasks: `Upsert`,
--     `Claim` of the next due task, and `Outcome` of a run.
--   Background: crates/harness/src/background.rs, of which `Jobs` has the table of jobs with the
--     lease of a due one, and crates/harness/src/background_planning.rs in `Planning`.
--   GovernedActions: crates/harness/src/governed_actions.rs. `Shape` and `Scope` have the validation
--     of a proposal, `Labels` the stored labels, `Fingerprint` the canonical form of an action,
--     `Records` and `Store` the table of executions with every statement that writes it, and `Plan`
--     `plan_governed_action` with the check that an execution repeats.
--   Proposal and Memory: crates/harness/src/proposal.rs and crates/harness/src/memory.rs, the
--     validation of canonical proposals and the plan of a merge of memory proposals; `Merge` has the
--     transaction, with the statements of crates/harness/src/continuity.rs that it uses.
--   Telegram: `Render` and `Prompt` are the outbound texts and approval prompts of
--     crates/harness/src/telegram.rs, `Callback` the parsing of an answer to a prompt in
--     crates/harness/src/foreground_orchestration.rs.
--   Migration and Schema: crates/harness/src/migration.rs and crates/harness/src/schema.rs, of which
--     the validation of the applied history (the digest is an argument) and of the schema version.
--   Tests: concrete inputs, and the theorems applied to them.
--
-- How the parts interact: an update of Telegram passes the ingress and then the policy; a proposal
-- is classed by the policy, and from the configured tier on it waits for an approval request; an
-- expired request, a worker lease that ran out and an interrupted action go to recovery, whose
-- decision closes a checkpoint. Planning an action joins the validation of its shape and scope, the
-- policy and the table of executions; a prompt's buttons come back through the ingress and are parsed
-- into the decision that resolves the approval request. A scheduled task that is claimed stages an
-- ingress for the conversation binding it names.
--
-- How state is modelled: a table of the database is a list of rows, a statement is a function on it,
-- and a transaction is one step: an error inside it leaves the table as it was. Primary keys, UNIQUE
-- constraints, unique indexes and CHECK constraints are tests of the statements that could break
-- them; foreign keys are left out, but for the one from ingress events to conversation bindings and
-- those of memory artifacts. `SKIP LOCKED` skips rows that a transaction still at work holds, of
-- which there are none between two steps, so it is left out. What the program reads on the pool,
-- before a transaction, may be stale when the transaction runs, and is an argument of its own: the
-- number of pending approval requests that a creation goes by, the rows that an expiry works off,
-- and the artifacts that the merge of a memory proposal compares with. The database's `NOW()` and the ids that `Uuid::now_v7` draws are
-- arguments. Concurrency is in the step relations: every operation is a step, in any order, a creation
-- may go by an old count, and an expiry may work on a row that was read before other steps. JSON payloads, trace spans and the
-- texts of errors are left out; errors are constructors named after what they refuse. Ids and
-- instants are natural numbers, and instants of leases count nanoseconds. Loops are recursion on the
-- list they walk, so no fuel is needed anywhere but for the digits of a number, whose fuel is the
-- number itself plus one, and for the rendering of a text, whose fuel is its length plus one: every
-- turn of that loop takes a character or more. What a library computes is an argument: the digest of
-- a fingerprint, the scheme of a URL, the text of an id or an instant.
--
-- Not modelled: the loops of the foreground and background orchestration, the execution of governed
-- actions, identity, retrieval, the runs of background jobs, the application of migrations,
-- workspaces and fetched contents. Nor are HTTP clients, process handling, the command line and its printing.
pub mod Base
pub mod Contracts
pub mod Config
pub mod Policy
pub mod Approval
pub mod Recovery
pub mod Foreground
pub mod Scheduled
pub mod Background
pub mod GovernedActions
pub mod Proposal
pub mod Memory
pub mod Ingress
pub mod Migration
pub mod Schema
pub mod Telegram
pub mod Tests
