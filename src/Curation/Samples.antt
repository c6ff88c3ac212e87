-- ===== src/Curation/Samples.antt =====
-- Tests of the curation queue, and its properties at concrete inputs.
use circled_wiki.Base.{
  String, ◌==◌, ◌≡◌, refl, Bool, true, false, none, some, [], ◌∷◌, is_some, is_empty, if◌then◌else◌,
  parsed, unreadable, read, write, remove, Result, ok, err, canonical_uuid,
}
use circled_wiki.Curation.Model.{no_blocker, QueueTask, Queue, CurationError, invalid_frontmatter}
use circled_wiki.Curation.Items.{item_name, stem, before_last, after_last, sample_id}
use circled_wiki.Curation.Queue.{
  contract, queued_now, enqueue_curation_work, complete_curation_work, is_queued, is_text,
}
use circled_wiki.Curation.Refresh.{refresh_item, refresh_expected, valid_task_record}
use circled_wiki.Curation.Pending.{
  IsPending, IsUnreceipted, enqueue_waits, completed_leaves_queue, unreadable_stops_refresh,
  repair_never_ends,
}

abbrev item : String
item = "123e4567-e89b-12d3-a456-426614174000"

abbrev path : String
path = "evidence/note/a.md"

item_ok : item_name sample_id ≡ ok item
unfolding item_name stem before_last after_last canonical_uuid is_empty
item_ok = refl

abbrev Enqueued : Type 0
Enqueued = Result CurationError (Queue × String)

abbrev queue_of : Enqueued → Queue
queue_of (ok (q, name)) = q
queue_of (err e) = []

abbrev enqueued : Enqueued
enqueued = enqueue_curation_work [] sample_id path "t0"

enqueued_ok : enqueued ≡ ok (queue_of enqueued, item)
unfolding enqueue_curation_work item_name stem before_last after_last canonical_uuid is_empty write
    read
enqueued_ok = refl

enqueue_waits_example :
    (item_name sample_id ≡ ok item)
    × (t : QueueTask) × IsPending t sample_id path
    × ((j : String)
        → read j (queue_of enqueued) ≡ (if item == j then some (parsed t) else read j []))
enqueue_waits_example = enqueue_waits [] (queue_of enqueued) sample_id path "t0" item enqueued_ok

completed_ok : complete_curation_work (queue_of enqueued) sample_id ≡ ok ([], true)
unfolding enqueue_curation_work complete_curation_work item_name stem before_last after_last
    canonical_uuid is_empty write read remove
completed_ok = refl

completed_leaves_queue_example :
    (target : String) × (item_name sample_id ≡ ok target)
    × (true ≡ is_some (read target (queue_of enqueued)))
    × ((j : String) → read j [] ≡ (if target == j then none else read j (queue_of enqueued)))
    × ((q'' : Queue) (again : Bool)
        → complete_curation_work [] sample_id ≡ ok (q'', again)
        → again ≡ false)
completed_leaves_queue_example =
    completed_leaves_queue (queue_of enqueued) [] sample_id true completed_ok

abbrev broken : Queue
broken = (item, unreadable) ∷ []

broken-read : read item broken ≡ some unreadable
unfolding read
broken-read = refl

unreadable_stops_refresh_example :
    refresh_expected ((sample_id, path) ∷ []) "t1" broken (ok (item ∷ []))
    ≡ (broken, err invalid_frontmatter)
unreadable_stops_refresh_example =
    unreadable_stops_refresh broken sample_id path "t1" item [] (item ∷ []) item_ok broken-read

abbrev unreceipted : QueueTask
unreceipted = record {
  kind = some "contract_task";
  contract = some contract;
  evidence_id = some sample_id;
  evidence_path = some path;
  current = some queued_now;
  recheck_required = false;
  last_blocker = no_blocker;
  step_receipts = none;
  transitions = some [];
}

abbrev older : Queue
older = (item, parsed unreceipted) ∷ []

older-read : read item older ≡ some (parsed unreceipted)
unfolding read
older-read = refl

unreceipted_ok : IsUnreceipted unreceipted sample_id path
unfolding is_queued is_text
unreceipted_ok = ((refl, refl, refl), refl)

repair_never_ends_example :
    (q' : Queue) × (t' : QueueTask) × (refresh_item older sample_id path item "t1" (read item older)
      ≡ ok (q', record { created = 0; repaired = 1 }))
    × (read item q' ≡ some (parsed t'))
    × (valid_task_record t' ≡ false)
    × IsUnreceipted t' sample_id path
repair_never_ends_example =
    repair_never_ends older sample_id path "t1" item unreceipted item_ok older-read unreceipted_ok
