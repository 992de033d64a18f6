-- ===== src/Lib.antt =====
-- Triovexa: the core of an incident response service that proposes, judges, approves and executes
-- remediation actions, over the store in memory.
--
-- The parts, and how they interact:
-- internal/domain: Domain.antt and its children hold the types of the records.
-- internal/storage/memory.go: Storage.antt and its children. MemoryStore is a record of association
--   lists, one for each map of the Go struct; an operation takes the store and returns the new one, and
--   an answer of `none` is ErrNotFound. The mutex makes each operation one step, which is how the
--   services use them.
-- internal/incident/statemachine.go and the transition helpers of internal/incident/service.go,
--   internal/approval/service.go and internal/execution/service.go: StateMachine.antt, Transition.antt.
-- internal/execution/catalog.go, internal/topology/registry.go, internal/policy/evaluator.go:
--   Catalog.antt, Catalog/Default.antt, Topology.antt, Policy.antt. The evaluator is a function of the
--   action, the environment and the kill switch; its texts are kept as a format and its arguments.
-- internal/approval/service.go: Approval.antt. It asks the evaluator about the actions of an incident,
--   stores the judgements and records approvals and rejections.
-- internal/execution/service.go: Execution.antt and its children. ExecuteAction tests an action
--   (Execution.Run.authorize, over Execution/Checks.antt), claims it in the store (claim) and calls the
--   adapter (run, over Execution/Retry.antt). Execution/Recovery.antt is RecoverStartedExecutions.
-- internal/execution/rollback_service.go: Execution/Rollback.antt.
-- internal/alerting/grafana.go: Alerting.antt, from the webhook's payload to a normalized alert.
-- internal/incident/service.go: Intake.antt is acceptGrafanaWebhook, from a normalized alert on;
--   Triage.antt is the read-only triage, its run in the background and ProcessWorkflowJob; Ingest.antt
--   is IngestGrafanaWebhook and IngestGrafanaWebhookAsync, which join the two. The goroutine of the
--   background is a step of its own, begun from what the asynchronous webhook answers.
-- internal/verification/service.go: Verification.antt and its children. Verification/Checks.antt has the
--   baseline, the checks and the verdict, Verification/Observe.antt the wait for a stable recovery,
--   Verification/Evaluate.antt evaluate, Verification/Conclude.antt VerifyExecution.
--   Verification/Composed.antt gives this service to the execution service as its verifier.
-- internal/remediation/service.go: Remediation.antt, the generator of actions that needs no language model.
-- internal/auth/service.go: Accounts.antt and Accounts/Passwords.antt, over Storage/Accounts.antt.
-- internal/secretstore/cipher.go: Secrets.antt. internal/mode/manager.go: Mode.antt.
-- internal/readiness/checker.go: Readiness.antt.
--
-- World.antt holds the state that the services of one process share (the store, the kill switch, how
-- often the clock was read and ids were made, the calls of the adapter) and the monad in which they
-- run: an error comes back with what was written before it. World.Env is what a process takes from
-- outside: the clock, new ids, SHA-256, the decoder of metadata and the adapter, all of them parameters
-- of every operation that uses them. World/Within.antt relates the states before and after a step,
-- World/Ensures.antt says what holds when a step returns; both go rule by rule over the monad.
-- World/Quiet.antt is the relation of a step that only audits, World/Readings.antt what holds at a
-- reading of the clock that a step made. Transition/Still.antt and Transition/Once.antt relate the
-- incidents before and after: unchanged, or each moved by at most one transition of the table, which
-- Approval/Once.antt and Execution/Once.antt carry to the services; Transition/Moves.antt has the weaker
-- relation that the state after is reached by transitions from the one before.
--
-- How the code is written down: a time is a number of nanoseconds, and the zero time is 0; where the
-- code compares now.Sub(x) with a duration, the duration is added to x. A Go map is a list, iterated in
-- its order. A value that the code marshals to JSON is kept as the map before json.Marshal, and the
-- text of a wrapped error is left out of audit details. A clock reading that the store makes for
-- itself is one more reading of the caller's clock. Retries are counted down from the number that the
-- service is set to, which is the loop's own bound, so no fuel is made up there. The wait for a stable
-- recovery is bounded by the clock alone, so its loop takes fuel: each round reads the clock, and with
-- more fuel than the readings up to the deadline it returns (Verification/Stable.antt).
--
-- What a service asks outside (the collector of evidence, the retriever, the generators, the fetcher of
-- snapshots, whether the caller has given up) is a function of the question and of how often the clock
-- was read, so that two questions can have two answers. A float64 is its bit pattern and is ordered as
-- IEEE 754 says (Numbers.antt); an int made from one is that of amd64. Lower case and the folding of
-- names are exact on ASCII (Prelude/Text.antt), but user names are folded by a parameter. Random bytes
-- and ids share one counter.
--
-- Not modelled: the SQL store and the branches of the services that run only over a store without the
-- conditional operations, or with workflow jobs, since the store in memory has the first and not the
-- second; metrics and logs; the HTTP layer, the adapters and fetchers behind HTTP and the user interface,
-- which only carry data; the language models and the retrieval behind the triage; the worker that takes
-- jobs; the file that holds the credential key.
mod Prelude
mod Tests
pub mod Numbers
pub mod Domain
pub mod Failure
pub mod World
pub mod StateMachine
pub mod Storage
pub mod Catalog
pub mod Topology
pub mod Policy
pub mod Readiness
pub mod Transition
pub mod Approval
pub mod Alerting
pub mod Intake
pub mod Ingest
pub mod Execution
pub mod Accounts
pub mod Mode
pub mod Remediation
pub mod Secrets
pub mod Triage
pub mod Verification
