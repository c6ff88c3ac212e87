-- ===== src/Inbox/Steps.antt =====
-- The operations of inbox_review_queue.py as steps on the queue, and what every reachable queue
-- holds.
use circled_wiki.Base.{
  String, Bool, ◌||◌, ◌≡◌, inl, inr, Option, List, [], ◌∷◌, ◌++◌, any, find, parsed, unreadable,
  read, remove, file_names, Everywhere, Everywhere-write, Everywhere-remove, is_blank, Bool-cases,
  Option-cases, ok, >>=-eq-ok, raise_if->>-eq-ok, or_raise->>=-eq-ok, subst-ok,
}
use circled_wiki.Inbox.Model.{
  ReviewState, Decision, ReviewQueue, empty_actor, empty_escalation, empty_facts, missing_task,
  not_required, already_resolved,
}
use circled_wiki.Inbox.Tasks.{
  item_path, parse_task, ensure_inbox_task, enqueue_inbox_review, get_inbox_review,
  inbox_review_is_resolved, has_reason, is_settled,
}
use circled_wiki.Inbox.Transitions.{Escalated, escalated}
use circled_wiki.Inbox.Reviews.{
  Answer, escalate_inbox_sensitivity_review, resolve_inbox_review_requirement,
  reopen_inbox_data_protection_review, complete_inbox_review, suspend_inbox_review,
  advance_inbox_task, reopen_inbox_review_after_ingest_failure,
}
use circled_wiki.Inbox.Listing.{is_orphaned, remove_orphans, reconcile_orphaned_inbox_reviews}
use circled_wiki.Inbox.Reads.{parse_task_inverse}
use circled_wiki.Inbox.Kept.{
  AreSound, ensured_kept, required_kept, read-IsSound, found-IsSound, resolve_task_kept,
  reopen_task_kept, complete_task_kept, suspend_task_kept, advance_task_kept, retry_task_kept,
}
use circled_wiki.Inbox.Histories.{IsSound, escalated-IsSound}

module _ (is_iso is_inside is_file : String → Bool) where
  -- One operation that changes the queue.
  pub data Change (queue : ReviewQueue) : ReviewQueue → Type 0 where
    ensured :
        (id : String) (inbox : Option String) (now : String) {after : ReviewQueue} (name : String)
        (reused : Bool)
        → ensure_inbox_task queue id inbox now ≡ ok (after, name, reused)
        → Change queue after
    required :
        (id : String) (inbox : Option String) (stage reason now : String) {after : ReviewQueue}
        (name status : String)
        → enqueue_inbox_review queue id inbox stage reason now ≡ ok (after, name, status)
        → Change queue after
    raised :
        (id : String) (e : Escalated) (now : String) {after : ReviewQueue} (a : Answer)
        → escalate_inbox_sensitivity_review is_iso queue id e now ≡ ok (after, a)
        → Change queue after
    decided :
        (id reason : String) (d : Decision) (now : String) {after : ReviewQueue} (a : Answer)
        → resolve_inbox_review_requirement is_iso queue id reason d now ≡ ok (after, a)
        → Change queue after
    reopened :
        (id actor now : String) {after : ReviewQueue} (a : Answer)
        → reopen_inbox_data_protection_review is_iso queue id actor now ≡ ok (after, a)
        → Change queue after
    completed :
        (id : String) {after : ReviewQueue} (b : Bool)
        → complete_inbox_review is_iso queue id ≡ ok (after, b)
        → Change queue after
    suspended :
        (id actor : String) {after : ReviewQueue} (b : Bool)
        → suspend_inbox_review is_iso queue id actor ≡ ok (after, b)
        → Change queue after
    advanced :
        (id : String) (next : ReviewState) (outcome now : String) {after : ReviewQueue} (b : Bool)
        → advance_inbox_task is_iso queue id next outcome now ≡ ok (after, b)
        → Change queue after
    retried_ingest :
        (id reason now : String) {after : ReviewQueue} (b : Bool)
        → reopen_inbox_review_after_ingest_failure queue id reason now ≡ ok (after, b)
        → Change queue after
    cleaned :
        (actor : String)
        → Change queue (reconcile_orphaned_inbox_reviews is_inside is_file queue actor).0

  pub data Changes (queue : ReviewQueue) : ReviewQueue → Type 0 where
    stay : Changes queue queue
    then_change :
        {middle after : ReviewQueue}
        → Changes queue middle
        → Change middle after
        → Changes queue after

  orphans_kept :
      (names : List String) (queue : ReviewQueue) (removed : List String)
      → AreSound queue
      → AreSound (remove_orphans is_inside is_file names queue removed).0
  unfolding remove_orphans
  orphans_kept [] queue removed h = h
  orphans_kept (name ∷ names) queue removed h = elim (Option-cases (read name queue)) [
    | inl gone ↦ rw (gone, remove_orphans) (orphans_kept names queue removed h)
    | inr (unreadable, there) ↦ rw (there, remove_orphans) h
    | inr (parsed t, there) ↦ elim (Bool-cases (is_orphaned is_inside is_file t)) [
      | inl orphan ↦
          rw (there, orphan, remove_orphans)
            (orphans_kept names (remove name queue) (removed ++ t.intake_id ∷ [])
              (Everywhere-remove IsSound name queue h))
      | inr owned ↦ rw (there, owned, remove_orphans) (orphans_kept names queue removed h)
    ]
  ]

  change_kept : (queue after : ReviewQueue) → AreSound queue → Change queue after → AreSound after
  unfolding escalate_inbox_sensitivity_review resolve_inbox_review_requirement
      reopen_inbox_data_protection_review complete_inbox_review suspend_inbox_review
      advance_inbox_task reopen_inbox_review_after_ingest_failure reconcile_orphaned_inbox_reviews
  change_kept queue after h (ensured id inbox now name reused e) =
      ensured_kept queue id inbox now (after, name, reused) h e
  change_kept queue after h (required id inbox stage reason now name status e) =
      required_kept queue id inbox stage reason now (after, name, status) h e
  change_kept queue after h (raised id e now a done) =
      let (_, e1) =
        raise_if->>-eq-ok
          (is_blank e.actor
            || is_blank e.question
            || is_blank e.missing_procedure
            || is_blank e.safe_next_action)
          empty_escalation _ done in
      let (_, e2) =
        raise_if->>-eq-ok (any is_blank e.facts || any is_blank e.hypotheses) empty_facts _ e1 in
      let ((name, found), got, e3) = >>=-eq-ok (get_inbox_review is_iso queue id) _ e2 in
      let (t, there, e4) = or_raise->>=-eq-ok found missing_task _ e3 in
      let (r, _, e5) =
        or_raise->>=-eq-ok (find (has_reason "sensitivity_review_required") t.requirements)
          not_required _ e4 in
      let (_, e6) = raise_if->>-eq-ok (is_settled r) already_resolved _ e5 in
      subst-ok (λ (y : ReviewQueue × Answer). AreSound y.0) e6
        (Everywhere-write IsSound name (parsed (escalated e now t)) queue h
          (escalated-IsSound e now t (found-IsSound is_iso queue id name found h got t there)))
  change_kept queue after h (decided id reason d now a e) =
      let ((name, found), got, e1) = >>=-eq-ok (get_inbox_review is_iso queue id) _ e in
      resolve_task_kept queue name h found reason (record d { decided_at = now }) now (after, a)
        (found-IsSound is_iso queue id name found h got) e1
  change_kept queue after h (reopened id actor now a e) =
      let ((name, found), got, e1) = >>=-eq-ok (get_inbox_review is_iso queue id) _ e in
      reopen_task_kept queue name h found actor now (after, a)
        (found-IsSound is_iso queue id name found h got) e1
  change_kept queue after h (completed id b e) =
      let ((name, found), got, e1) = >>=-eq-ok (get_inbox_review is_iso queue id) _ e in
      complete_task_kept queue name h found (inbox_review_is_resolved is_iso queue id) (after, b) e1
  change_kept queue after h (suspended id actor b e) =
      let (_, e1) = raise_if->>-eq-ok (is_blank actor) empty_actor _ e in
      let ((name, found), got, e2) = >>=-eq-ok (get_inbox_review is_iso queue id) _ e1 in
      subst-ok (λ (y : ReviewQueue × Bool). AreSound y.0) e2 (suspend_task_kept queue name h found)
  change_kept queue after h (advanced id next outcome now b e) =
      let ((name, found), got, e1) = >>=-eq-ok (get_inbox_review is_iso queue id) _ e in
      advance_task_kept queue name h found next outcome now (after, b)
        (found-IsSound is_iso queue id name found h got) e1
  change_kept queue after h (retried_ingest id reason now b e) =
      let (name, path, e1) = >>=-eq-ok (item_path id) _ e in
      let (found, there, e2) = >>=-eq-ok (parse_task (read name queue)) _ e1 in
      subst-ok (λ (y : ReviewQueue × Bool). AreSound y.0) e2
        (retry_task_kept queue name h found reason now (λ t is_there.
          read-IsSound queue name t h
            (parse_task_inverse (read name queue) t (cc (there, is_there)))))
  change_kept queue _ h (cleaned actor) = elim (Bool-cases (is_blank actor)) [
    | inl blank ↦ rw blank h
    | inr named ↦ rw named (orphans_kept (file_names queue) queue [] h)
  ]

  -- In every queue that the operations reach from an empty one, each task's transitions form one
  -- history from its creation to its current state, and its requirements name supported reasons,
  -- each of them once.
  pub Changes-IsSound : (queue : ReviewQueue) → Changes [] queue → Everywhere IsSound queue
  Changes-IsSound queue stay = tt
  Changes-IsSound queue (then_change {middle} {after} before change) =
      change_kept middle queue (Changes-IsSound middle before) change
