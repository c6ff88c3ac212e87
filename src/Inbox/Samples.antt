-- ===== src/Inbox/Samples.antt =====
-- Tests of the Inbox review tasks, and their properties at concrete inputs.
use circled_wiki.Inbox.Contracts.{reason_at, supported, is_user_only}
use circled_wiki.Base.{
  ◌∷◌, List, contains, canonical_uuid, String, Bool, true, false, ◌≡◌, refl, some, Option, parsed,
  read, [], File, Everywhere, Result, ok, err,
}
use circled_wiki.Inbox.Model.{Decision, ReviewQueue, ReviewTask, InboxError}
use circled_wiki.Inbox.Tasks.{
  new_review, get_inbox_review, item_path, all_settled, check_scans, has_blocking_inbox_review,
  inbox_review_is_resolved, has_reason, enqueue_inbox_review,
}
use circled_wiki.Inbox.Requeued.{requeued_stays_resolved}
use circled_wiki.Inbox.Reviews.{
  Answer, resolve_inbox_review_requirement, reopen_inbox_data_protection_review,
}
use circled_wiki.Inbox.Abstract.{
  TaskStep, expire_decisions, require, settle_reason, run, replay, board_of, is_completable,
}
use circled_wiki.Inbox.Refinement.{board_of-run}
use circled_wiki.Inbox.Histories.{IsSound}
use circled_wiki.Inbox.Completion.{Completes, resolve-Completes}
use circled_wiki.Inbox.Steps.{Change, Changes, Changes-IsSound}

abbrev any_time : String → Bool
any_time s = true

abbrev intake : String
intake = "inbox/123e4567-e89b-12d3-a456-426614174000"

abbrev name : String
name = "123e4567-e89b-12d3-a456-426614174000"

abbrev queue_in : Result InboxError (ReviewQueue × String × String) → ReviewQueue
queue_in (ok x) = x.0
queue_in (err e) = []

abbrev after_answer : Result InboxError (ReviewQueue × Answer) → ReviewQueue
after_answer (ok x) = x.0
after_answer (err e) = []

abbrev task_in : Option (File ReviewTask) → ReviewTask
task_in (some (parsed t)) = t
task_in f = new_review "" "" ""

abbrev listed : ReviewQueue
listed =
    queue_in
      (enqueue_inbox_review [] intake (some "inbox/a.md") "data_protection" "pii_needs_review" "t0")

listed_ok :
    enqueue_inbox_review [] intake (some "inbox/a.md") "data_protection" "pii_needs_review" "t0"
    ≡ ok (listed, name, "awaiting_user")
unfolding enqueue_inbox_review supported contains canonical_uuid is_user_only
listed_ok = refl

abbrev ruling : Decision
ruling = record {
  decision = "masked";
  decided_by = "ann";
  decided_at = "";
  receipt = "runtime://r";
}

abbrev resolved : ReviewQueue
resolved =
    after_answer
      (resolve_inbox_review_requirement any_time listed intake "pii_needs_review" ruling "t1")

resolved_ok :
    resolve_inbox_review_requirement any_time listed intake "pii_needs_review" ruling "t1"
    ≡ ok (resolved, record { status = "reprocessing"; reused = false })
unfolding resolve_inbox_review_requirement enqueue_inbox_review get_inbox_review canonical_uuid
    supported contains
resolved_ok = refl

-- The UUID of the Inbox item is asked for, and its decision taken.
Changes-IsSound_example : Everywhere IsSound resolved
Changes-IsSound_example = Changes-IsSound any_time any_time any_time resolved (
    Changes.then_change
      (Changes.then_change Changes.stay (
        Change.required intake (some "inbox/a.md") "data_protection" "pii_needs_review" "t0" name
          "awaiting_user" listed_ok))
      (Change.decided intake "pii_needs_review" ruling "t1"
        (record { status = "reprocessing"; reused = false }) resolved_ok))

resolve-Completes_example :
    Completes any_time listed intake resolved (record { status = "reprocessing"; reused = false })
resolve-Completes_example =
    resolve-Completes any_time listed intake "pii_needs_review" ruling "t1" resolved
      (record { status = "reprocessing"; reused = false }) resolved_ok refl

abbrev expired_again : ReviewQueue
expired_again =
    after_answer (reopen_inbox_data_protection_review any_time resolved intake "agent" "t2")

abbrev resolved_task : ReviewTask
resolved_task = task_in (read name resolved)

requeued_stays_resolved_example :
    (after : ReviewQueue) × (enqueue_inbox_review resolved intake
        (some "inbox/a.md")
        "data_protection"
        "pii_needs_review"
        "t2"
      ≡ ok (after, name, "awaiting_user"))
    × (has_blocking_inbox_review any_time after intake ≡ ok true)
    × (inbox_review_is_resolved any_time after intake ≡ ok true)
unfolding resolve_inbox_review_requirement enqueue_inbox_review get_inbox_review canonical_uuid
    supported contains all_settled check_scans has_reason item_path read
requeued_stays_resolved_example =
    requeued_stays_resolved any_time resolved intake name resolved_task "inbox/a.md" "t2"
      (refl, refl, refl) refl refl

-- The candidate changes once the decision is taken, and the scan is asked for again.
abbrev steps : List TaskStep
steps =
    expire_decisions "agent" "t3"
    ∷ require intake "inbox/a.md" "data_protection_required" (reason_at "data_protection") "t4"
    ∷ settle_reason "pii_needs_review" ruling (reason_at "data_protection") "t5"
    ∷ []

board_of-run_example :
    (board_of (run steps resolved_task) ≡ replay steps (board_of resolved_task))
    × (all_settled (some (run steps resolved_task))
        ≡ is_completable (replay steps (board_of resolved_task)))
board_of-run_example = board_of-run steps resolved_task
