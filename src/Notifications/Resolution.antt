-- ===== src/Notifications/Resolution.antt =====
-- `dismiss_user_notification`, `dismiss_notifications_for_resource` and their two archive aliases of
-- notification_store.py. The loop over a resource's records unlinks files as it goes, so it returns
-- its workspace beside an error too.
use circled_wiki.Base.{
  file_names, String, ◌==◌, ◌||◌, List, [], ◌∷◌, if◌then◌else◌, is_blank, strip, read, remove,
  Result, ok, err, ◌>>=◌, ◌>>◌, raise_if, or_raise,
}
use circled_wiki.Notifications.Model.{
  Notification, Workspace, NotificationError, blank_reason, missing_id,
}
use circled_wiki.Notifications.Operations.{check_id, read_json}

unfoldable pub remove_records : Workspace → String → Workspace
remove_records w id = record {
  inbox = remove id w.inbox;
  acknowledgements = remove id w.acknowledgements;
}

-- The workspace, the notification that was removed, and the reason.
unfoldable pub dismiss_user_notification :
    Workspace → String → String → Result NotificationError (Workspace × Notification × String)
unfolding check_id read_json remove_records
dismiss_user_notification w id reason = do
  check_id id
  raise_if (is_blank reason) blank_reason
  n ← read_json (read id w.inbox)
  ok (remove_records w id, n, strip reason)

abbrev pub Dismissed : Type 0
Dismissed = Workspace × Result NotificationError (List (Notification × String))

-- What a dismissal adds to the list, with the rest of the loop in the workspace it leaves.
unfoldable pub also_dismissed :
    Workspace
    → Result NotificationError (Workspace × Notification × String)
    → (Workspace → Dismissed)
    → Dismissed
also_dismissed w (err e) rest = (w, err e)
also_dismissed w (ok (w', n, why)) rest =
    let (w'', later) = rest w' in (w'', later >>= λ ds. ok ((n, why) ∷ ds))

-- `str(payload["notification_id"])`.
unfoldable pub id_of : Notification → Result NotificationError String
id_of n = or_raise n.notification_id missing_id

-- One turn of the loop, on what was read from the file.
unfoldable pub dismiss_read :
    Workspace
    → String
    → String
    → Result NotificationError Notification
    → (Workspace → Dismissed)
    → Dismissed
unfolding dismiss_user_notification also_dismissed id_of
dismiss_read w ref reason (err e) rest = (w, err e)
dismiss_read w ref reason (ok n) rest =
    if n.resource_ref == ref
    then also_dismissed w (id_of n >>= λ id. dismiss_user_notification w id reason) rest
    else rest w

-- The loop over the files that were listed; each is read in the workspace of its turn.
unfoldable pub dismiss_files : List String → String → String → Workspace → Dismissed
unfolding read_json dismiss_read
dismiss_files [] ref reason w = (w, ok [])
dismiss_files (k ∷ ks) ref reason w =
    dismiss_read w ref reason (read_json (read k w.inbox)) (dismiss_files ks ref reason)

unfoldable pub dismiss_notifications_for_resource : Workspace → String → String → Dismissed
unfolding dismiss_files file_names
dismiss_notifications_for_resource w ref reason =
    if is_blank ref || is_blank reason
    then (w, err blank_reason)
    else dismiss_files (file_names w.inbox) ref reason w

-- The two aliases that remain for older callers.
unfoldable pub archive_user_notification :
    Workspace → String → String → Result NotificationError (Workspace × Notification × String)
unfolding dismiss_user_notification
archive_user_notification w id reason = dismiss_user_notification w id reason

unfoldable pub archive_notifications_for_resource : Workspace → String → String → Dismissed
unfolding dismiss_notifications_for_resource
archive_notifications_for_resource w ref reason = dismiss_notifications_for_resource w ref reason
