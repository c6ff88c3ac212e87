-- ===== src/Inbox/Listing.antt =====
-- What inbox_review_queue.py lists, and the removal of orphaned tasks. Whether
-- `datetime.fromisoformat` reads a text is a parameter.
use circled_wiki.Base.{
  String, Bool, not, ◌&&◌, none, some, List, [], ◌∷◌, File, parsed, unreadable, read, remove,
  file_names, is_blank, if◌then◌else◌, Result, ok, err, ◌>>=◌, ◌++◌,
}
use circled_wiki.Inbox.Model.{
  ReviewTask, ReviewQueue, InboxError, unreadable_task, empty_actor, scan_unhashable,
}
use circled_wiki.Inbox.Tasks.{check_scans, has_status}

pub data QueueItem : Type 0 where
  -- A file that does not parse.
  invalid_file : String → QueueItem
  -- A task with an invalid scan receipt, and why.
  invalid_receipt : String → ReviewTask → InboxError → QueueItem
  -- A task that waits for the user.
  waiting : String → ReviewTask → QueueItem

module _ (is_iso : String → Bool) where
  -- A scan result without a hash raises through the handler of the list.
  unfoldable pub queue_item : String → File ReviewTask → Result InboxError (List QueueItem)
  queue_item name unreadable = ok (invalid_file name ∷ [])
  queue_item name (parsed t) = elim (check_scans is_iso t.requirements) [
    | err scan_unhashable ↦ err scan_unhashable
    | err e ↦ ok (invalid_receipt name t e ∷ [])
    | ok u ↦ ok (if has_status "awaiting_user" t.current then waiting name t ∷ [] else [])
  ]

  unfoldable pub list_inbox_review_queue : ReviewQueue → Result InboxError (List QueueItem)
  unfolding queue_item
  list_inbox_review_queue [] = ok []
  list_inbox_review_queue ((name, f) ∷ queue) = do
    items ← queue_item name f
    rest ← list_inbox_review_queue queue
    ok (items ++ rest)

-- Whether a path stays inside the knowledge root, and whether a file is there.
module _ (is_inside is_file : String → Bool) where
  unfoldable pub is_orphaned : ReviewTask → Bool
  is_orphaned t =
      not (is_blank t.inbox_path) && is_inside t.inbox_path && not (is_file t.inbox_path)

  -- The loop stops at a file that does not parse; what was removed before stays removed.
  unfoldable pub remove_orphans :
      List String → ReviewQueue → List String → ReviewQueue × Result InboxError (List String)
  unfolding is_orphaned read remove
  remove_orphans [] queue removed = (queue, ok removed)
  remove_orphans (name ∷ names) queue removed = elim (read name queue) [
    | none ↦ remove_orphans names queue removed
    | some unreadable ↦ (queue, err unreadable_task)
    | some (parsed t) ↦
        if is_orphaned t
        then remove_orphans names (remove name queue) (removed ++ t.intake_id ∷ [])
        else remove_orphans names queue removed
  ]

  unfoldable pub reconcile_orphaned_inbox_reviews :
      ReviewQueue → String → ReviewQueue × Result InboxError (List String)
  unfolding remove_orphans
  reconcile_orphaned_inbox_reviews queue actor =
      if is_blank actor
      then (queue, err empty_actor)
      else remove_orphans (file_names queue) queue []
