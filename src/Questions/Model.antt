-- ===== src/Questions/Model.antt =====
-- The records of src/circled_wiki/runtime/core/open_questions.py, and the two directories
-- `awaiting-input` and `outbox/slack`, with the files that the code's globs list. A record is filed
-- by the stem of its file's name.
use circled_wiki.Base.{String, Bool, true, false, Option, Directory, File}

-- QUESTION_STATUSES.
pub data QuestionStatus : Type 0 where
  open_now waiting_for_reply resolved cancelled : QuestionStatus

-- `payload["delivery"]`, the link to the outbox.
pub record Link : Type 0 where
  pub channel : String
  pub recipient : String
  pub delivery_id : String
  pub queued_at : String

pub record Resolution : Type 0 where
  pub answer : String
  pub actor : String
  pub resolved_at : String

pub record Question : Type 0 where
  pub question_id : String
  pub status : QuestionStatus
  pub asked_of : String
  pub question : String
  pub context : String
  pub created_at : String
  pub related_bundle : String
  pub related_evidence : String
  pub resolution : Option Resolution
  pub delivery : Option Link

-- The statuses of an outbox item that this module writes, and what a connector writes.
pub data DeliveryStatus : Type 0 where
  pending_connector_delivery ready_for_connector_delivery delivery_cancelled : DeliveryStatus
  written_by_connector : String → DeliveryStatus

pub record Delivery : Type 0 where
  pub delivery_id : String
  pub channel : String
  pub recipient : String
  pub question_id : String
  pub status : DeliveryStatus
  pub created_at : String
  pub message : String
  pub claimed_at : Option String
  pub cancelled_at : Option String
  pub cancellation_reason : Option String

pub record Runtime : Type 0 where
  pub questions : Directory (File Question)
  pub outbox : Directory (File Delivery)

-- The `ValueError`s.
pub data QuestionError : Type 0 where
  blank_argument invalid_question not_resolvable invalid_delivery_id : QuestionError
  invalid_outbox_item not_queueable unsafe_id not_claimable invalid_question_id : QuestionError

-- `status in {"open", "waiting_for_reply"}`.
unfoldable pub is_unanswered : QuestionStatus → Bool
is_unanswered open_now = true
is_unanswered waiting_for_reply = true
is_unanswered resolved = false
is_unanswered cancelled = false

unfoldable pub is_open : QuestionStatus → Bool
is_open open_now = true
is_open waiting_for_reply = false
is_open resolved = false
is_open cancelled = false

unfoldable pub is_waiting : QuestionStatus → Bool
is_waiting open_now = false
is_waiting waiting_for_reply = true
is_waiting resolved = false
is_waiting cancelled = false

-- `status in {"pending_connector_delivery", "ready_for_connector_delivery"}`.
unfoldable pub is_pending : DeliveryStatus → Bool
is_pending pending_connector_delivery = true
is_pending ready_for_connector_delivery = true
is_pending delivery_cancelled = false
is_pending (written_by_connector s) = false

unfoldable pub is_cancelled : DeliveryStatus → Bool
is_cancelled pending_connector_delivery = false
is_cancelled ready_for_connector_delivery = false
is_cancelled delivery_cancelled = true
is_cancelled (written_by_connector s) = false
