-- ===== src/Inbox/Requeued.antt =====
-- A reason that is enqueued again in inbox_review_queue.py once it was resolved.
use circled_wiki.Base.{contains, String, Bool, true, ◌≡◌, refl, some, any, parsed, write, ok}
use circled_wiki.Inbox.Model.{ReviewTask, ReviewQueue}
use circled_wiki.Inbox.Contracts.{supported, reason_at, is_user_only}
use circled_wiki.Inbox.Tasks.{
  parse_task, ensure_inbox_task, enqueue_inbox_review, enqueued, with_requirement, requested,
  has_reason, inbox_review_is_resolved, has_blocking_inbox_review, all_settled, check_scans,
}
use circled_wiki.Inbox.Reads.{IsFound, get_inbox_review-write}

module _ (is_iso : String → Bool) (queue : ReviewQueue) (id name : String) (t : ReviewTask) where
  -- When a scan that needs the user is enqueued again for a task whose requirements are all resolved
  -- and list it, the task waits for the user, and yet its requirements still count as resolved.
  pub requeued_stays_resolved :
      (path now : String)
      → IsFound is_iso queue id name t
      → all_settled (some t) ≡ true
      → any (has_reason "pii_needs_review") t.requirements ≡ true
      → (after : ReviewQueue) × (enqueue_inbox_review queue id
            (some path)
            "data_protection"
            "pii_needs_review"
            now
          ≡ ok (after, name, "awaiting_user"))
        × (has_blocking_inbox_review is_iso after id ≡ ok true)
        × (inbox_review_is_resolved is_iso after id ≡ ok true)
  unfolding contains is_user_only all_settled enqueue_inbox_review supported ensure_inbox_task
      parse_task enqueued with_requirement requested has_blocking_inbox_review
      inbox_review_is_resolved
  requeued_stays_resolved path now (at, there, scans) settled listed =
      let again = enqueued t id path "pii_needs_review" (reason_at "data_protection") now in
      let scans_again : check_scans is_iso again.requirements ≡ ok tt = rw listed scans in
      let got = get_inbox_review-write is_iso queue id name again at scans_again in
      (
        write name (parsed again) queue,
        rw (at, there) (rw there refl),
        rw got refl,
        rw got (rw (listed, with_requirement) (rw settled refl)),
      )
