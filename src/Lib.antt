-- ===== src/Lib.antt =====
-- The runtime core of Circled Wiki, a file-backed knowledge base that agents work on under human
-- approval: its records, the operations on them, and what these operations guarantee. The Python
-- code is in src/circled_wiki/runtime/core of the repository.
--
-- The program keeps each kind of record as JSON files in one directory: a directory is an
-- association list from the stem of a file's name to what the file holds, in the order of the
-- names (Base/Files). A file that cannot be parsed is a value of its own, since the code tells it
-- apart. Each operation takes the directories and returns the new ones, or the error that it
-- raises (Base/Results). The clock and the fresh UUIDs are arguments, one per call.
--
-- Tasks: src/circled_wiki/runtime/core/workflow.py. A task executes the steps of a workflow, or of
--   a Runbook refresh. Tasks/Model has the records and vocabularies, Tasks/Store has read, update,
--   _write and _validate_id, Tasks/Steps has record_step, Tasks/Creation has create and
--   add_inputs, Tasks/Refresh has find_open_refresh and create_refresh, Tasks/Assessments has
--   record_refresh_decision, record_reference_assessment and confirm_revision, and Tasks/Outcome
--   has record_outcome, to which the result of capture_document is an argument and whose list
--   arguments Tasks/OutcomeLists checks; Tasks/Prepare has the entry points in front of the store,
--   prepare_task and prepare_runbook_refresh among them. Tasks/EvidenceId is the pattern of an
--   Evidence ID. Tasks/Soundness states what holds of each task in every store that the operations
--   reach (Soundness/Reachable, a step relation); Tasks/Completion, Tasks/Approvals, Tasks/Redo,
--   Tasks/Inputs and Tasks/Requests have the results about outcomes, approvals, steps recorded
--   again, missing inputs and refresh requests; Tasks/OpenRefresh has the lemmas on the open
--   Refresh Task of a store.
-- Notifications: src/circled_wiki/runtime/core/notification_store.py, the presentation records for
--   users. Notifications/Operations has record, list, acknowledge and require, and
--   Notifications/Resolution the dismissals, whose loop returns its directories beside an error,
--   since the files that it removed before stay removed. Notifications/Records,
--   Notifications/Answers and Notifications/Dismissals have the results.
-- Inbox: src/circled_wiki/runtime/core/inbox_review_queue.py, with the reasons and blocker
--   categories of src/circled_wiki/runtime/core/inbox_contracts.py in Inbox/Contracts. Inbox/Tasks
--   creates tasks and reads them, Inbox/Transitions changes one task, Inbox/Reviews has the
--   operations, Inbox/Listing the list and the removal of orphaned tasks, and Inbox/Context what a
--   new Evidence item is told, which asks Protection/Checks. Inbox/Steps has the step relation of
--   the operations and its invariant, whose lemmas are in Inbox/Histories and Inbox/Kept;
--   Inbox/Completion, Inbox/Provenance and Inbox/Requeued have the other results. Inbox/Registry
--   and Inbox/Loading read the registered contract from parsed YAML, and Inbox/Supported says what
--   was loaded. Inbox/Abstract is what a task promises without its histories and texts, and
--   Inbox/Refinement compares the two.
-- Governance: the outcome counts of a runbook and the support of claims in
--   src/circled_wiki/runtime/core/governance.py. Governance/Metrics counts the outcomes of each
--   revision over the documents and their parsed originals, and Governance/Bounds has the result.
--   Governance/Claims validates claims against the Evidence that they list, and
--   Governance/Supported has its result.
-- Observations: the migration of old issue records in
--   src/circled_wiki/runtime/core/observations.py. Observations/Migration moves the files and
--   moves them back, either of which the operating system may refuse for a file;
--   Observations/Moves has the lemmas on one move and Observations/Rollback the result.
-- Protection: src/circled_wiki/runtime/core/pii.py and
--   src/circled_wiki/runtime/core/data_protection_receipt.py, the receipts that let an Inbox item
--   become Evidence. Protection/Pii has the scan receipt and its check, Protection/Receipts the
--   receipt of the whole decision and Protection/Checks its check, over JSON values as they are
--   parsed, with an error of their own where the code raises on a value that has no hash. Whether
--   the timestamp parser reads a text is a parameter. Protection/Soundness has what the check
--   guarantees, Protection/Roundtrips and Protection/Receipted that what is built is accepted.
-- Questions: src/circled_wiki/runtime/core/open_questions.py, the questions to administrators and
--   the Slack outbox. Questions/Operations has record, list, resolve, queue and the withdrawal of
--   a delivery, Questions/Deliveries the claim of a delivery and the reconciliation of the outbox.
--   Questions/Claims, Questions/Queued and Questions/Finality have the results; Questions/Sweeps
--   has the lemmas on the reconciliation, and Finality has the step relation of the operations.
-- Curation: src/circled_wiki/runtime/core/curation_queue.py, the work that waits for the curation
--   agent. Curation/Items names the file of an Evidence id, Curation/Queue has enqueue, complete,
--   rollback and the blockers, Curation/Refresh the list and the reconciliation of the queue with
--   the Evidence, which returns its queue beside an error too, and Curation/Pending the results.
--   Curation/Contract is the validation of a model's output in
--   src/circled_wiki/runtime/core/curation_contract.py, with its result in Curation/Grounded.
-- Taxonomy: src/circled_wiki/runtime/core/taxonomy_proposals.py. Taxonomy/Proposals records a
--   proposal with its two notifications, whose module it calls, and requires the approval of a
--   reclassification; Taxonomy/Approvals has the result.
-- Base: Python's str.strip by code point (Strip), uuid.UUID (Uuid), str of a number (Decimal),
--   Path(name).name == name (Paths), JSON values (Json), and the lemmas on lists, directories and
--   results that the parts share.
--
-- Bounds: every loop is a recursion on the list that the code iterates over. There is fuel in
-- Uuid, where replace makes at most one round per character of its text, and in Decimal, where a
-- number has at most as many digits as it counts. uuid.UUID is read on hexadecimal digits only;
-- the signs, prefixes and underscores that int takes are refused.
--
-- Not modelled: failures of the file system other than a file that is missing or does not parse,
-- concurrent processes, the text of messages and documents, the ingest and curation pipelines over
-- Markdown documents, the regular expressions for personal data, and the adapters (command line,
-- MCP server, worker). Of record_outcome the text of the outcome document is left out, and the
-- sections of an artifact are taken as a list of texts.
pub mod Base
pub mod Protection
pub mod Inbox
pub mod Governance
pub mod Observations
pub mod Tasks
pub mod Notifications
pub mod Questions
pub mod Curation
pub mod Taxonomy
