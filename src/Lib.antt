-- ===== src/Lib.antt =====
-- The recovery engine of RevenueRescueAI: a service that finds failed payments, decides under a
-- policy whether and how to recover them, and runs a bounded workflow that acts on the decision.
--
-- The parts and how they interact. `PolicyEngineService.evaluate` (backend/app/policy/service.py)
-- loads a case and a recommendation, runs five pure evaluators (backend/app/policy/evaluators),
-- aggregates their results to one decision, stores it, and moves the case. An approved decision is
-- what `WorkflowCreationService` (backend/app/workflows/creation_service.py) makes a workflow from.
-- `WorkflowExecutionService` (execution_service.py there) runs its steps one by one; before money is
-- asked for, `WorkflowRevalidationService` (revalidation_service.py) checks the case again. Moves of
-- a case go through `CaseTransitionService` (vertical_recovery.py). All state lies in the database.
-- Providers' events enter through `EventService` (services/event_service.py there), which records a
-- receipt and hands new events to `EventToCaseEngine`; that engine, `RecoveryCaseService` and
-- `RiskCaseService` open and close the cases.
--
-- The files.
--   Common and its children: Boolean tests and equality on native numbers, lists, Unicode texts and
--     results with an error; rules for arithmetic and case splits.
--   Enums and its children: backend/app/core/enums.py, one data type per enumeration.
--   Domain: the rows of backend/app/models/domain.py. Store: the tables and the queries of
--     backend/app/repositories. Store/Laws: what a query gives after a row is written back.
--   Policy/Config, Policy/Models: config.py and models.py of backend/app/policy.
--   Policy/Consent, Eligibility, RetryLimit, Strategy, Escalation: one evaluator each; a child module
--     is about what a passed check means.
--   Policy/Safety: the guard of the vertical workflow, safety.py of backend/app/policy.
--   Policy/Inputs, Aggregate, Service: the service, as its inputs, its aggregation and its writes; the
--     children of Service are about approvals, repeated requests, and the writes of an evaluation.
--   Workflow/Transition: `CaseTransitionService`, with the life of a case as a relation in Lifecycle,
--     lists of its calls in Runs, and the numbers of its two logs in Numbering.
--   Workflow/Revalidation, Creation, Tables, Execution, Execution/Run: the workflow services; the
--     children Guards, Bounded, Dispatch and Outcome hold their theorems, and Pending, Fewer and
--     Rounds those on the loop over the steps.
--   Workflow/Resolution, Reconciliation: `PaymentReconciliationService`; Proved is about what it needs
--     the gateway's word for.
--   Workflow/Vertical: `VerticalRecoveryWorkflow`, with Verdict, Branches, Outcome and Ends on how
--     its runs end, and Stopping on what an action other than a retry leads to. Agents: the boundary
--     between a provider that reasons and the program, backend/app/agents, and the tools of
--     backend/app/tools; Boundary is its theorem.
--   Verification: the webhook ledger and the attribution of backend/app/services/verification.py; a
--     lock makes each delivery one step, so a series of deliveries is a list.
--   Events/Canonical, Normalizer, Validator: an event as schemas/events.py has it, and its checks.
--     Events/Keys, Provision, Handlers, Engine: `EventToCaseEngine`, from the key of a case to
--     `process_event`. The children of Engine hold its theorems: Unique and Steps what one delivery
--     does to the unique columns, Once the deliveries as a relation between stores, with the commits of
--     other workers between and within them, Settled and Receipts what stays as it is.
--     Events/Recording: the table of receipts, and in Ledger its relation to the in-memory ledger of
--     Verification. Events/Ingestion: `EventService` after normalization.
--   Cases/Priority, Risk: the two scores of a case. Cases/Service, Listing: `RecoveryCaseService`.
--     Cases/Detection: `RevenueRiskDetector` and `RiskCaseService`.
--   Resilience: the policy and the executor of backend/app/resilience.
--   Examples: concrete rows, runs, and an instance of each theorem that has conditions.
--
-- How the state corresponds. A database session is the record `Store`, a list of rows per table; an
-- operation takes the store and gives the new one, or an error in place of an exception. An update
-- of a row that the session has loaded writes the row back. A query gives the first match, or the
-- matches in the order of the table; where the code orders by the time of grant, the validator sorts
-- again, stably. A UUID is a number. A datetime is the number of microseconds after datetime.min in
-- UTC, a naive one being read as UTC; a comparison of naive and aware datetimes, which Python
-- refuses, does not arise. Amounts are in minor units, which the schema keeps nonnegative.
-- Confidences are in ten-thousandths, the precision of their column. A text whose case or spaces the
-- code changes is a list of code points, with the case of ASCII letters. The clock, the values of
-- `uuid4`, the payment gateway, SHA-256 and the JSON reader are arguments.
--
-- Bounds. `execute_all_available_steps` makes at most two more rounds than the workflow has steps, as
-- the code does, and `run_steps` recurses on the rounds that are left. Each round takes up a pending
-- step, so the bound is enough. No other loop needs one.
--
-- Other workers commit between deliveries of events, and within one between the lookup of its case and
-- the insert. The database's order of rows that a query leaves open is an argument of the listing.
--
-- Not modelled: commits of other workers within an operation elsewhere; messages and details, which
-- are shown and not read back, and metadata but for the entries named where they stand; uniqueness
-- constraints other than those that the models name where they write; the HTTP routes, schemas,
-- mappers, authentication and settings; the readers of provider payloads and the redaction in the
-- normalizer; intelligence, which stands beside the parts above; the call of the language model; the
-- gateway adapters.
pub mod Common
pub mod Enums
pub mod Domain
pub mod Store
pub mod Policy
pub mod Workflow
pub mod Verification
pub mod Agents
pub mod Cases
pub mod Events
pub mod Resilience
pub mod Examples
