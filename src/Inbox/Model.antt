-- ===== src/Inbox/Model.antt =====
-- The front matter of the task files of inbox_review_queue.py. The constant fields `type`,
-- `contract` and `subject` are left out; `current` is missing where it is no mapping.
use circled_wiki.Base.{String, Option, List, Value, File, Directory}
use circled_wiki.Protection.{PiiError}

pub record ReviewState : Type 0 where
  pub stage : String
  pub status : String
  pub actor : String
  pub next_action : String

-- The four fields that a resolution writes.
pub record Decision : Type 0 where
  pub decision : String
  pub decided_by : String
  pub decided_at : String
  pub receipt : String

-- The nine fields that an escalation writes.
pub record Escalation : Type 0 where
  pub question : String
  pub blocked_step : String
  pub missing_procedure : String
  pub safe_next_action : String
  pub facts : List String
  pub hypotheses : List String
  pub pii_scan : Value
  pub escalated_by : String
  pub escalated_at : String

pub record Requirement : Type 0 where
  pub reason_code : String
  pub requested_action : String
  pub status : String
  pub decision : Option Decision
  pub escalation : Option Escalation

pub record ReviewTransition : Type 0 where
  pub origin : Option ReviewState
  pub target : ReviewState
  pub outcome : String
  pub recorded_at : String

pub record ReviewStep : Type 0 where
  pub stage : String
  pub status : String
  pub outcome : String
  pub recorded_at : String
  pub reason : Option String

pub record ReviewTask : Type 0 where
  pub intake_id : String
  pub inbox_path : String
  pub requirements : List Requirement
  pub created_at : String
  pub updated_at : String
  pub current : Option ReviewState
  pub transitions : List ReviewTransition
  pub step_receipts : List ReviewStep
  -- Fields of older records, which some operations drop.
  pub source_checksum : Option String
  pub evidence_id : Option String
  pub resolved_at : Option String

abbrev pub ReviewQueue : Type 0
ReviewQueue = Directory (File ReviewTask)

pub data InboxError : Type 0 where
  -- The id holds no UUID, the Inbox path is outside the root, a task file does not parse.
  no_uuid : InboxError
  outside_root : InboxError
  unreadable_task : InboxError
  -- The scan receipt of a requirement.
  scan_not_mapping : InboxError
  scan_categories : InboxError
  scan_invalid : List PiiError → InboxError
  scan_unhashable : InboxError
  -- The reasons of `enqueue_inbox_review`.
  invalid_reason : InboxError
  invalid_stage : InboxError
  -- Guards of the other operations.
  empty_actor : InboxError
  empty_escalation : InboxError
  empty_facts : InboxError
  missing_task : InboxError
  not_required : InboxError
  already_resolved : InboxError
  unsupported_reason : InboxError
  missing_decision : InboxError
  candidate_unreadable : InboxError
  receipt_unhashable : InboxError
  unresolved_requirements : InboxError
  empty_transition : InboxError
