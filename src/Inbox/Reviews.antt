-- ===== src/Inbox/Reviews.antt =====
-- The operations on review tasks in inbox_review_queue.py. Whether `datetime.fromisoformat` reads a
-- text is a parameter; an operation returns the queue with its answer.
use circled_wiki.Base.{
  String, Bool, true, false, not, ◌&&◌, ◌||◌, Option, none, some, map, parsed, read, write, remove,
  is_blank, strip, any, find, if◌then◌else◌, Result, ok, raise_if, or_raise, ◌>>◌, ◌>>=◌,
}
use circled_wiki.Inbox.Model.{
  ReviewState, Requirement, Decision, ReviewTask, ReviewQueue, InboxError, empty_actor,
  empty_escalation, empty_facts, missing_task, not_required, already_resolved, unsupported_reason,
  unresolved_requirements, empty_transition,
}
use circled_wiki.Inbox.Contracts.{supported}
use circled_wiki.Inbox.Tasks.{
  item_path, parse_task, move, has_reason, is_settled, get_inbox_review, inbox_review_is_resolved,
}
use circled_wiki.Inbox.Transitions.{
  Escalated, escalated, settle, settled, resolution_status, status_or, expires, expired, retried,
  stripped_state,
}

pub record Answer : Type 0 where
  pub status : String
  pub reused : Bool

unfoldable pub answered : String → Bool → Answer
answered status reused = record { status = status; reused = reused }

-- The queue is as it was.
unfoldable pub unchanged : ReviewQueue → String → ReviewQueue × Answer
unfolding answered
unchanged queue status = (queue, answered status true)

-- What each operation does with the task that it read, if there is one.
unfoldable pub resolve_task :
    ReviewQueue
    → String
    → Option ReviewTask
    → String
    → Decision
    → String
    → Result InboxError (ReviewQueue × Answer)
unfolding settled status_or unchanged answered
resolve_task queue name none reason d now = ok (unchanged queue "no_review")
resolve_task queue name (some t) reason d now =
    if any (has_reason reason) t.requirements
    then (do
      policy ← or_raise (supported reason) unsupported_reason
      ok (
        write name (parsed (settled t reason d policy now)) queue,
        answered (resolution_status (map (settle reason d) t.requirements)) false,
      ))
    else ok (unchanged queue (status_or "unknown" t.current))

unfoldable pub expires_now : Requirement → Bool
unfolding expires is_settled
expires_now r = expires r && is_settled r

unfoldable pub reopen_task :
    ReviewQueue
    → String
    → Option ReviewTask
    → String
    → String
    → Result InboxError (ReviewQueue × Answer)
unfolding expired unchanged status_or answered expires_now
reopen_task queue name none actor now = ok (unchanged queue "no_review")
reopen_task queue name (some t) actor now =
    if any expires_now t.requirements
    then ok (write name (parsed (expired t actor now)) queue, answered "pending" false)
    else ok (unchanged queue (status_or "pending" t.current))

unfoldable pub complete_task :
    ReviewQueue
    → String
    → Option ReviewTask
    → Result InboxError Bool
    → Result InboxError (ReviewQueue × Bool)
complete_task queue name none is_resolved = ok (queue, false)
complete_task queue name (some t) is_resolved = do
  resolved ← is_resolved
  raise_if (not resolved) unresolved_requirements
  ok (remove name queue, true)

unfoldable pub suspend_task : ReviewQueue → String → Option ReviewTask → ReviewQueue × Bool
suspend_task queue name none = (queue, false)
suspend_task queue name (some t) = (remove name queue, true)

unfoldable pub advance_task :
    ReviewQueue
    → String
    → Option ReviewTask
    → ReviewState
    → String
    → String
    → Result InboxError (ReviewQueue × Bool)
unfolding move stripped_state
advance_task queue name none next outcome now = ok (queue, false)
advance_task queue name (some t) next outcome now = do
  raise_if
      (is_blank next.stage
        || is_blank next.status
        || is_blank next.actor
        || is_blank next.next_action
        || is_blank outcome)
      empty_transition
  ok (write name (parsed (move t (stripped_state next) (strip outcome) now)) queue, true)

unfoldable pub retry_task :
    ReviewQueue → String → Option ReviewTask → String → String → ReviewQueue × Bool
unfolding retried
retry_task queue name none reason now = (queue, false)
retry_task queue name (some t) reason now = (write name (parsed (retried t reason now)) queue, true)

module _ (is_iso : String → Bool) where
  unfoldable pub escalate_inbox_sensitivity_review :
      ReviewQueue → String → Escalated → String → Result InboxError (ReviewQueue × Answer)
  unfolding escalated answered
  escalate_inbox_sensitivity_review queue intake_id e now = do
    raise_if
        (is_blank e.actor
          || is_blank e.question
          || is_blank e.missing_procedure
          || is_blank e.safe_next_action)
        empty_escalation
    raise_if (any is_blank e.facts || any is_blank e.hypotheses) empty_facts
    (name, found) ← get_inbox_review is_iso queue intake_id
    t ← or_raise found missing_task
    r ← or_raise (find (has_reason "sensitivity_review_required") t.requirements) not_required
    raise_if (is_settled r) already_resolved
    ok (write name (parsed (escalated e now t)) queue, answered "awaiting_user" false)

  unfoldable pub resolve_inbox_review_requirement :
      ReviewQueue → String → String → Decision → String → Result InboxError (ReviewQueue × Answer)
  unfolding resolve_task
  resolve_inbox_review_requirement queue intake_id reason d now = do
    (name, found) ← get_inbox_review is_iso queue intake_id
    resolve_task queue name found reason (record d { decided_at = now }) now

  unfoldable pub reopen_inbox_data_protection_review :
      ReviewQueue → String → String → String → Result InboxError (ReviewQueue × Answer)
  unfolding reopen_task
  reopen_inbox_data_protection_review queue intake_id actor now = do
    (name, found) ← get_inbox_review is_iso queue intake_id
    reopen_task queue name found actor now

  -- The task is deleted only when every requirement is resolved.
  unfoldable pub complete_inbox_review :
      ReviewQueue → String → Result InboxError (ReviewQueue × Bool)
  unfolding complete_task
  complete_inbox_review queue intake_id = do
    (name, found) ← get_inbox_review is_iso queue intake_id
    complete_task queue name found (inbox_review_is_resolved is_iso queue intake_id)

  unfoldable pub suspend_inbox_review :
      ReviewQueue → String → String → Result InboxError (ReviewQueue × Bool)
  unfolding suspend_task
  suspend_inbox_review queue intake_id actor = do
    raise_if (is_blank actor) empty_actor
    (name, found) ← get_inbox_review is_iso queue intake_id
    ok (suspend_task queue name found)

  unfoldable pub advance_inbox_task :
      ReviewQueue → String → ReviewState → String → String → Result InboxError (ReviewQueue × Bool)
  unfolding advance_task
  advance_inbox_task queue intake_id next outcome now = do
    (name, found) ← get_inbox_review is_iso queue intake_id
    advance_task queue name found next outcome now

unfoldable pub reopen_inbox_review_after_ingest_failure :
    ReviewQueue → String → String → String → Result InboxError (ReviewQueue × Bool)
unfolding retry_task
reopen_inbox_review_after_ingest_failure queue intake_id reason now = do
  name ← item_path intake_id
  found ← parse_task (read name queue)
  ok (retry_task queue name found reason now)
