-- ===== src/Notifications/Model.antt =====
-- The records of src/circled_wiki/runtime/core/notification_store.py, and the two directories
-- `notifications/inbox` and `notifications/acknowledgements`. A record is filed by the stem of its
-- file's name. The inbox holds the files that `_notification_files` lists, `notification-*.json`;
-- the code writes no others there.
use circled_wiki.Base.{String, Bool, Option, Directory, File}

pub record Notification : Type 0 where
  -- `payload.get("notification_id")`: a text, or missing.
  pub notification_id : Option String
  pub event : String
  pub priority : String
  pub title : String
  pub summary : String
  pub next_action : String
  pub resource_ref : String
  pub approval_required : Bool
  pub dedupe_key : String
  pub created_at : String
  pub related_evidence_id : String
  pub related_bundle_id : String
  pub taxonomy_revision : String

pub record Acknowledgement : Type 0 where
  pub notification_id : String
  pub actor : String
  pub acknowledged_at : String

pub record Workspace : Type 0 where
  pub inbox : Directory (File Notification)
  pub acknowledgements : Directory (File Acknowledgement)

-- The arguments of `record_user_notification`.
pub record Request : Type 0 where
  pub event : String
  pub priority : String
  pub title : String
  pub summary : String
  pub next_action : String
  pub resource_ref : String
  pub approval_required : Bool
  pub dedupe_key : String
  pub related_evidence_id : String
  pub related_bundle_id : String
  pub taxonomy_revision : String

-- The `ValueError`s, and the `KeyError` of a record without an id.
pub data NotificationError : Type 0 where
  unsupported_event unsupported_priority blank_field invalid_record : NotificationError
  unsafe_id blank_actor not_stored wrong_notification not_acknowledged : NotificationError
  blank_reason missing_id : NotificationError
