-- ===== src/Inbox/Tasks.antt =====
-- The tasks of inbox_review_queue.py: creation, the requirements and what is read from them.
-- Whether `datetime.fromisoformat` reads a text is a parameter.
use circled_wiki.Base.{
  String, Bool, true, false, not, ◌&&◌, Option, none, some, List, [], ◌∷◌, ◌++◌, ◌==◌, Value, null,
  object, at_key, parsed, File, unreadable, read, write, is_blank, strip, canonical_uuid, all, any,
  non_empty, if◌then◌else◌, Result, ok, err, raise_if, or_raise, ◌>>◌, ◌>>=◌,
}
use circled_wiki.Curation.Items.{after_last}
use circled_wiki.Protection.{pii_scan_receipt_errors, probe, is_category_list}
use circled_wiki.Inbox.Model.{
  ReviewState, Requirement, ReviewTask, ReviewQueue, InboxError, no_uuid, outside_root,
  unreadable_task, scan_not_mapping, scan_categories, scan_invalid, scan_unhashable, invalid_reason,
  invalid_stage,
}
use circled_wiki.Inbox.Contracts.{Reason, supported, is_user_only}

unfoldable pub item_path : String → Result InboxError String
unfolding after_last
item_path intake_id = or_raise (canonical_uuid (after_last b'/' intake_id)) no_uuid

-- `parse_markdown` of the file of a task, if it is there.
unfoldable pub parse_task : Option (File ReviewTask) → Result InboxError (Option ReviewTask)
parse_task none = ok none
parse_task (some unreadable) = err unreadable_task
parse_task (some (parsed t)) = ok (some t)

unfoldable pub add_transition : ReviewTask → ReviewState → String → String → ReviewTask
add_transition t state outcome now = record t {
  current = some state;
  transitions =
      t.transitions
      ++ record { origin = t.current; target = state; outcome = outcome; recorded_at = now } ∷ [];
}

-- A blank reason is left out.
unfoldable pub reason_field : Option String → Option String
reason_field none = none
reason_field (some reason) = if is_blank reason then none else some (strip reason)

unfoldable pub add_step :
    ReviewTask → String → String → String → Option String → String → ReviewTask
unfolding reason_field
add_step t stage status outcome reason now = record t {
  step_receipts =
      t.step_receipts
      ++ record {
        stage = stage;
        status = status;
        outcome = outcome;
        recorded_at = now;
        reason = reason_field reason;
      }
        ∷ [];
}

-- The current state changes: one transition and one step receipt.
unfoldable pub move : ReviewTask → ReviewState → String → String → ReviewTask
unfolding add_transition add_step
move t state outcome now =
    add_step (add_transition (record t { updated_at = now }) state outcome now) state.stage
      state.status outcome none now

abbrev pub captured : ReviewState
captured = record {
  stage = "pending";
  status = "pending";
  actor = "inbox-inspection-agent";
  next_action = "accept_ready_inbox";
}

unfoldable pub new_review : String → String → String → ReviewTask
unfolding move
new_review intake_id inbox_path now =
    let blank : ReviewTask = record {
      intake_id = intake_id;
      inbox_path = inbox_path;
      requirements = [];
      created_at = now;
      updated_at = now;
      current = none;
      transitions = [];
      step_receipts = [];
      source_checksum = none;
      evidence_id = none;
      resolved_at = none;
    } in
    move blank captured "captured" now

-- The relative Inbox path is missing where the file is outside the knowledge root.
unfoldable pub ensure_inbox_task :
    ReviewQueue → String → Option String → String → Result InboxError (ReviewQueue × String × Bool)
unfolding item_path new_review read write
ensure_inbox_task queue intake_id inbox now = do
  name ← item_path intake_id
  path ← or_raise inbox outside_root
  ok (elim (read name queue) [
    | none ↦ (write name (parsed (new_review intake_id path now)) queue, name, false)
    | some f ↦ (queue, name, true)
  ])

unfoldable pub has_reason : String → Requirement → Bool
has_reason reason r = r.reason_code == reason

unfoldable pub new_requirement : String → Reason → Requirement
new_requirement reason policy = record {
  reason_code = reason;
  requested_action = policy.requested_action;
  status = if is_user_only reason then "awaiting_user" else "pending";
  decision = none;
  escalation = none;
}

-- A reason is listed once.
unfoldable pub with_requirement : String → Reason → List Requirement → List Requirement
unfolding has_reason new_requirement
with_requirement reason policy rs =
    if any (has_reason reason) rs then rs else rs ++ new_requirement reason policy ∷ []

unfoldable pub requested : String → Reason → ReviewState
requested reason policy = record {
  stage = policy.current_stage;
  status = if is_user_only reason then "awaiting_user" else "pending";
  actor = if is_user_only reason then "user" else "inbox-inspection-agent";
  next_action = policy.requested_action;
}

unfoldable pub enqueued : ReviewTask → String → String → String → Reason → String → ReviewTask
unfolding with_requirement requested move
enqueued t intake_id path reason policy now =
    move
      (record t {
        source_checksum = none;
        intake_id = intake_id;
        inbox_path = path;
        requirements = with_requirement reason policy t.requirements;
      })
      (requested reason policy) reason now

unfoldable pub enqueue_inbox_review :
    ReviewQueue
    → String
    → Option String
    → String
    → String
    → String
    → Result InboxError (ReviewQueue × String × String)
unfolding ensure_inbox_task parse_task enqueued
enqueue_inbox_review queue intake_id inbox stage reason now = do
  policy ← or_raise (supported reason) invalid_reason
  raise_if (not (stage == policy.current_stage)) invalid_stage
  (made, name, _) ← ensure_inbox_task queue intake_id inbox now
  path ← or_raise inbox outside_root
  found ← parse_task (read name made)
  t ← or_raise found unreadable_task
  ok (
    write name (parsed (enqueued t intake_id path reason policy now)) made,
    name,
    (requested reason policy).status,
  )

-- `pii_scan` of a requirement, if it has one.
unfoldable pub scan_of : Requirement → Value
scan_of r = elim r.escalation [ none ↦ null | some e ↦ e.pii_scan ]

unfoldable pub has_status : String → Option ReviewState → Bool
has_status status none = false
has_status status (some c) = c.status == status

unfoldable pub blocks : Option ReviewTask → Bool
unfolding has_status
blocks none = false
blocks (some t) = has_status "awaiting_user" t.current

unfoldable pub is_settled : Requirement → Bool
is_settled r = r.status == "resolved"

unfoldable pub all_settled : Option ReviewTask → Bool
unfolding is_settled
all_settled none = false
all_settled (some t) = non_empty t.requirements && all is_settled t.requirements

module _ (is_iso : String → Bool) where
  unfoldable pub check_scan : Value → Result InboxError (Unit {0})
  check_scan null = ok tt
  check_scan (object scan) = do
    raise_if (not (is_category_list (at_key "categories" scan))) scan_categories
    elim (pii_scan_receipt_errors is_iso (probe (at_key "source_checksum" scan) scan)) [
      | err e ↦ err scan_unhashable
      | ok [] ↦ ok tt
      | ok (x ∷ xs) ↦ err (scan_invalid (x ∷ xs))
    ]
  check_scan v = err scan_not_mapping

  unfoldable pub check_scans : List Requirement → Result InboxError (Unit {0})
  unfolding scan_of check_scan
  check_scans [] = ok tt
  check_scans (r ∷ rs) = check_scan (scan_of r) >> check_scans rs

  unfoldable pub checked_review :
      String → Option ReviewTask → Result InboxError (String × Option ReviewTask)
  unfolding check_scans
  checked_review name none = ok (name, none)
  checked_review name (some t) = check_scans t.requirements >> ok (name, some t)

  -- The task and the name of its file.
  unfoldable pub get_inbox_review :
      ReviewQueue → String → Result InboxError (String × Option ReviewTask)
  unfolding item_path parse_task checked_review
  get_inbox_review queue intake_id = do
    name ← item_path intake_id
    found ← parse_task (read name queue)
    checked_review name found

  unfoldable pub has_blocking_inbox_review : ReviewQueue → String → Result InboxError Bool
  unfolding get_inbox_review blocks
  has_blocking_inbox_review queue intake_id =
      get_inbox_review queue intake_id >>= λ found. ok (blocks found.1)

  unfoldable pub inbox_review_is_resolved : ReviewQueue → String → Result InboxError Bool
  unfolding get_inbox_review all_settled
  inbox_review_is_resolved queue intake_id =
      get_inbox_review queue intake_id >>= λ found. ok (all_settled found.1)
