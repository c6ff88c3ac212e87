-- ===== src/Notifications/Operations.antt =====
-- `record_user_notification`, `list_user_notifications`, `acknowledge_user_notification` and
-- `require_acknowledged_user_notification` of notification_store.py. The fresh UUID and the time are
-- arguments.
use Prim.Native.String.{◌++◌ as text_append}
use circled_wiki.Base.{
  String, ◌==◌, Bool, true, false, not, ◌||◌, Option, none, some, List, [], ◌∷◌, if◌then◌else◌,
  is_blank, strip, contains, is_file_name, Directory, File, parsed, unreadable, read, write, Result,
  ok, err, ◌>>=◌, ◌>>◌, raise_if, or_raise,
}
use circled_wiki.Notifications.Model.{
  Notification, Acknowledgement, Workspace, Request, NotificationError, unsupported_event,
  unsupported_priority, blank_field, invalid_record, unsafe_id, blank_actor, not_stored,
  wrong_notification, not_acknowledged,
}

abbrev pub events : List String
events =
    "bundle_created" ∷ "taxonomy_change_proposed" ∷ "reclassification_ready" ∷ "review_requested"
    ∷ []

abbrev pub priorities : List String
priorities = "action_required" ∷ "attention" ∷ "failed" ∷ []

-- `_validate_fields`.
unfoldable pub validate_fields : Request → Result NotificationError (Unit {0})
validate_fields r = do
  raise_if (not (contains r.event events)) unsupported_event
  raise_if (not (contains r.priority priorities)) unsupported_priority
  raise_if
      (is_blank r.title
        || is_blank r.summary
        || is_blank r.next_action
        || is_blank r.resource_ref
        || is_blank r.dedupe_key)
      blank_field

-- `_read_json`: a file that is missing or does not parse raises.
unfoldable pub read_json {ℓ} : {A : Type ℓ} → Option (File A) → Result NotificationError A
read_json none = err invalid_record
read_json (some unreadable) = err invalid_record
read_json (some (parsed a)) = ok a

-- The loop that looks for an open duplicate, in the order of the files.
unfoldable pub find_duplicate :
    String → Directory (File Notification) → Result NotificationError (Option Notification)
find_duplicate key [] = ok none
find_duplicate key ((k, unreadable) ∷ files) = err invalid_record
find_duplicate key ((k, parsed n) ∷ files) =
    let rest = find_duplicate key files in if n.dedupe_key == key then ok (some n) else rest

-- `f"notification-{uuid4()}"`.
unfoldable pub notification_name : String → String
notification_name uuid = text_append "notification-" uuid

unfoldable pub new_notification : Request → String → String → Notification
unfolding notification_name
new_notification r uuid now = record {
  notification_id = some (notification_name uuid);
  event = r.event;
  priority = r.priority;
  title = strip r.title;
  summary = strip r.summary;
  next_action = strip r.next_action;
  resource_ref = strip r.resource_ref;
  approval_required = r.approval_required;
  dedupe_key = strip r.dedupe_key;
  created_at = now;
  related_evidence_id = strip r.related_evidence_id;
  related_bundle_id = strip r.related_bundle_id;
  taxonomy_revision = strip r.taxonomy_revision;
}

unfoldable pub put_notification :
    Workspace → Request → String → String → Option Notification → Workspace × Notification × Bool
unfolding new_notification
put_notification w r uuid now (some n) = (w, n, true)
put_notification w r uuid now none =
    let n = new_notification r uuid now in
    (record w { inbox = write (notification_name uuid) (parsed n) w.inbox }, n, false)

-- The workspace, the notification, and the flag `reused`.
unfoldable pub record_user_notification :
    Workspace
    → Request
    → String
    → String
    → Result NotificationError (Workspace × Notification × Bool)
unfolding validate_fields find_duplicate put_notification
record_user_notification w r uuid now = do
  validate_fields r
  duplicate ← find_duplicate r.dedupe_key w.inbox
  ok (put_notification w r uuid now duplicate)

-- `_acknowledgement`: no file is no acknowledgement, and a file that does not parse raises.
unfoldable pub as_acknowledgement :
    Option (File Acknowledgement) → Result NotificationError (Option Acknowledgement)
as_acknowledgement none = ok none
as_acknowledgement (some (parsed a)) = ok (some a)
as_acknowledgement (some unreadable) = err invalid_record

unfoldable pub acknowledgement :
    Workspace → String → Result NotificationError (Option Acknowledgement)
unfolding as_acknowledgement
acknowledgement w id = as_acknowledgement (read id w.acknowledgements)

unfoldable pub is_listed : Bool → Option Acknowledgement → Bool
is_listed include none = true
is_listed include (some a) = include

-- One turn of the loop of `list_user_notifications`, in front of what the later turns list.
unfoldable pub list_one :
    Workspace
    → Bool
    → Notification
    → Option String
    → Result NotificationError (List (Notification × Option Acknowledgement))
    → Result NotificationError (List (Notification × Option Acknowledgement))
unfolding acknowledgement is_listed
list_one w include n none rest = rest
list_one w include n (some id) rest = do
  a ← acknowledgement w id
  later ← rest
  ok (if is_listed include a then (n, a) ∷ later else later)

unfoldable pub list_from :
    Workspace
    → Bool
    → Directory (File Notification)
    → Result NotificationError (List (Notification × Option Acknowledgement))
unfolding list_one
list_from w include [] = ok []
list_from w include ((k, unreadable) ∷ files) = err invalid_record
list_from w include ((k, parsed n) ∷ files) =
    list_one w include n n.notification_id (list_from w include files)

unfoldable pub list_user_notifications :
    Workspace → Bool → Result NotificationError (List (Notification × Option Acknowledgement))
unfolding list_from
list_user_notifications w include = list_from w include w.inbox

-- `not notification_id.strip() or Path(notification_id).name != notification_id`.
unfoldable pub check_id : String → Result NotificationError (Unit {0})
check_id id = raise_if (is_blank id || not (is_file_name id)) unsafe_id

unfoldable pub has_id : Option String → String → Bool
has_id none id = false
has_id (some k) id = k == id

unfoldable pub put_acknowledgement :
    Workspace
    → String
    → String
    → String
    → Option Acknowledgement
    → Workspace × Acknowledgement × Bool
put_acknowledgement w id actor now (some a) = (w, a, true)
put_acknowledgement w id actor now none =
    let a : Acknowledgement = record {
      notification_id = id;
      actor = strip actor;
      acknowledged_at = now;
    } in
    (record w { acknowledgements = write id (parsed a) w.acknowledgements }, a, false)

unfoldable pub acknowledge_user_notification :
    Workspace
    → String
    → String
    → String
    → Result NotificationError (Workspace × Acknowledgement × Bool)
unfolding check_id read_json has_id acknowledgement put_acknowledgement
acknowledge_user_notification w id actor now = do
  check_id id
  raise_if (is_blank actor) blank_actor
  n ← read_json (read id w.inbox)
  raise_if (not (has_id n.notification_id id)) not_stored
  existing ← acknowledgement w id
  ok (put_acknowledgement w id actor now existing)

unfoldable pub require_acknowledged_user_notification :
    Workspace → String → String → Result NotificationError Notification
unfolding check_id read_json has_id acknowledgement
require_acknowledged_user_notification w id event = do
  raise_if (not (contains event events)) unsupported_event
  check_id id
  n ← read_json (read id w.inbox)
  raise_if (not (has_id n.notification_id id) || not (n.event == event)) wrong_notification
  a ← acknowledgement w id
  found ← or_raise a not_acknowledged
  ok n
