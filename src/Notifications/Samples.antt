-- ===== src/Notifications/Samples.antt =====
-- Tests of the notification inbox, and its properties at concrete inputs.
use circled_wiki.Base.{
  String, ◌==◌, ◌≡◌, ◌≢◌, ◌↔◌, refl, ap, Bool-cases, inl, inr, arith, eq_iff, Bool, true, false,
  Option, none, some, List, [], ◌∷◌, is_blank, strip, contains, parsed, read, write, remove, Result,
  ok, err, is_file_name, if◌then◌else◌, Everywhere,
}
use circled_wiki.Notifications.Model.{
  Notification, Acknowledgement, Workspace, Request, NotificationError,
}
use circled_wiki.Notifications.Operations.{
  notification_name, events, validate_fields, record_user_notification,
  acknowledge_user_notification, require_acknowledged_user_notification, list_user_notifications,
}
use circled_wiki.Notifications.Resolution.{
  dismiss_user_notification, dismiss_notifications_for_resource,
}
use circled_wiki.Notifications.Records.{
  IsAdded, record_user_notification_reuses, spaced_key_is_not_reused,
}
use circled_wiki.Notifications.Answers.{acknowledged_once, open_notifications}
use circled_wiki.Notifications.Dismissals.{Filed, dismissed_is_gone, dismissed_resource}

abbrev no_files : Workspace
no_files = record { inbox = []; acknowledgements = [] }

abbrev request : Request
request = record {
  event = "bundle_created";
  priority = "attention";
  title = " Bundle ready ";
  summary = "A bundle was created";
  next_action = "Open it";
  resource_ref = "bundle/1";
  approval_required = false;
  dedupe_key = "bundle:1";
  related_evidence_id = "";
  related_bundle_id = "";
  taxonomy_revision = "";
}

abbrev spaced : Request
spaced = record request { dedupe_key = "bundle:1 " }

abbrev Recorded : Type 0
Recorded = Result NotificationError (Workspace × Notification × Bool)

abbrev empty_notification : Notification
empty_notification = record {
  notification_id = none;
  event = "";
  priority = "";
  title = "";
  summary = "";
  next_action = "";
  resource_ref = "";
  approval_required = false;
  dedupe_key = "";
  created_at = "";
  related_evidence_id = "";
  related_bundle_id = "";
  taxonomy_revision = "";
}

abbrev workspace_of : Recorded → Workspace
workspace_of (ok (w, n, b)) = w
workspace_of (err e) = no_files

abbrev notification_of : Recorded → Notification
notification_of (ok (w, n, b)) = n
notification_of (err e) = empty_notification

abbrev recorded : Recorded
recorded = record_user_notification no_files request "1" "t0"

abbrev one : Workspace
one = workspace_of recorded

abbrev id_one : String
id_one = "notification-1"

recorded_ok : recorded ≡ ok (one, notification_of recorded, false)
unfolding record_user_notification is_blank contains write strip
recorded_ok = refl

request_valid : validate_fields request ≡ ok tt
unfolding validate_fields is_blank contains
request_valid = refl

record_user_notification_reuses_example :
    record_user_notification one request "2" "t1" ≡ ok (one, notification_of recorded, true)
unfolding strip
record_user_notification_reuses_example =
    record_user_notification_reuses no_files one request request "1" "2" "t0" "t1"
      (notification_of recorded) false refl recorded_ok refl request_valid

abbrev again : Recorded
again = record_user_notification one spaced "2" "t1"

again_ok : again ≡ ok (workspace_of again, notification_of again, false)
unfolding record_user_notification is_blank contains write strip
again_ok = refl

-- The request with a space behind the key of the stored notification adds a second one.
spaced_key_is_not_reused_example :
    (false ≡ false)
    × ((notification_of again).dedupe_key ≡ strip spaced.dedupe_key)
    × IsAdded one (workspace_of again) (notification_name "2") (notification_of again)
    × Everywhere
        (λ (n : Notification). strip n.dedupe_key ≡ n.dedupe_key)
        (workspace_of again).inbox
unfolding record_user_notification is_blank contains write strip read
spaced_key_is_not_reused_example =
    spaced_key_is_not_reused one (workspace_of again) spaced "2" "t1" (notification_of again) false
      (refl, tt) (λ e. cc (ap (λ k. k == "bundle:1 ") e)) refl again_ok

abbrev Acknowledged : Type 0
Acknowledged = Result NotificationError (Workspace × Acknowledgement × Bool)

abbrev acknowledged : Acknowledged
acknowledged = acknowledge_user_notification one id_one "ann " "t2"

abbrev left_by : Acknowledged → Workspace
left_by (ok (w, a, b)) = w
left_by (err e) = no_files

abbrev given : Acknowledged → Acknowledgement
given (ok (w, a, b)) = a
given (err e) = record { notification_id = ""; actor = ""; acknowledged_at = "" }

acknowledged_ok : acknowledged ≡ ok (left_by acknowledged, given acknowledged, false)
unfolding record_user_notification acknowledge_user_notification is_blank contains write read strip
    is_file_name
acknowledged_ok = refl

acknowledged_once_example :
    (n : Notification) × (read id_one one.inbox ≡ some (parsed n))
    × (acknowledge_user_notification (left_by acknowledged) id_one "bob" "t3"
        ≡ ok (left_by acknowledged, given acknowledged, true))
    × (contains n.event events ≡ true
        → require_acknowledged_user_notification (left_by acknowledged) id_one n.event ≡ ok n)
unfolding is_blank
acknowledged_once_example =
    acknowledged_once one (left_by acknowledged) id_one "ann " "t2" "bob" "t3" (given acknowledged)
      false acknowledged_ok refl

abbrev listing : List (Notification × Option Acknowledgement)
listing = (notification_of recorded, some (given acknowledged)) ∷ []

listing_ok : list_user_notifications (left_by acknowledged) true ≡ ok listing
unfolding record_user_notification acknowledge_user_notification list_user_notifications is_blank
    contains write read strip is_file_name
listing_ok = refl

open_notifications_example : list_user_notifications (left_by acknowledged) false ≡ ok []
open_notifications_example = open_notifications (left_by acknowledged) listing listing_ok

dismissed_ok :
    dismiss_user_notification one id_one " done " ≡ ok (no_files, notification_of recorded, "done")
unfolding record_user_notification dismiss_user_notification is_blank contains write read remove
    strip is_file_name
dismissed_ok = refl

dismissed_is_gone_example :
    (read id_one one.inbox ≡ some (parsed (notification_of recorded)))
    × ((j : String)
        → (read j no_files.inbox ≡ (if id_one == j then none else read j one.inbox))
          × (read j no_files.acknowledgements
              ≡ (if id_one == j then none else read j one.acknowledgements)))
    × ((event : String) (x : Notification)
        → require_acknowledged_user_notification no_files id_one event ≢ ok x)
dismissed_is_gone_example =
    dismissed_is_gone one no_files id_one " done " "done" (notification_of recorded) dismissed_ok

one-Filed : Filed one.inbox
unfolding record_user_notification is_blank contains write read strip
one-Filed k n e = elim (Bool-cases (id_one == k)) [
  | inl same ↦
      let stored : parsed (notification_of recorded) ≡ parsed n = cc (rw same at e) in
      let named : id_one ≡ k = ground (arith, eq_iff id_one k, same) in cc (stored, named)
  | inr other ↦ absurd (cc (rw other at e))
]

cleared_ok :
    dismiss_notifications_for_resource one "bundle/1" "done"
    ≡ (no_files, ok ((notification_of recorded, "done") ∷ []))
unfolding record_user_notification dismiss_notifications_for_resource is_blank contains write read
    remove strip is_file_name
cleared_ok = refl

dismissed_resource_example :
    (read id_one no_files.inbox ≡ some (parsed (notification_of recorded))) ↔ (
      (read id_one one.inbox ≡ some (parsed (notification_of recorded)))
      × ((notification_of recorded).resource_ref ≢ "bundle/1"))
dismissed_resource_example =
    dismissed_resource one no_files "bundle/1" "done" ((notification_of recorded, "done") ∷ [])
      one-Filed cleared_ok id_one (notification_of recorded)
