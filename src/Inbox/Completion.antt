-- ===== src/Inbox/Completion.antt =====
-- When the operations of inbox_review_queue.py complete a task.
use circled_wiki.Base.{
  String, Bool, true, false, ◌≡◌, refl, ◌⊎◌, inl, inr, Option, none, some, List, [], ◌∷◌, map, all,
  any, non_empty, null, parsed, write, remove, ◌==◌, Bool-cases, if◌then◌else◌, ok, err, >>=-eq-ok,
  or_raise->>=-eq-ok, subst-ok,
}
use circled_wiki.Inbox.Model.{
  Requirement, Decision, ReviewTask, ReviewQueue, unresolved_requirements, unsupported_reason,
}
use circled_wiki.Inbox.Contracts.{supported}
use circled_wiki.Inbox.Tasks.{
  item_path, scan_of, check_scans, get_inbox_review, inbox_review_is_resolved, is_settled,
  all_settled, has_reason,
}
use circled_wiki.Inbox.Transitions.{settle, settled, resolution_status, status_or}
use circled_wiki.Inbox.Reviews.{
  Answer, answered, unchanged, resolve_task, resolve_inbox_review_requirement,
  complete_inbox_review, complete_task,
}
use circled_wiki.Inbox.Reads.{get_inbox_review-IsFound, get_inbox_review-write, check_scans-map}

settle-scan_of :
    (reason : String) (d : Decision) (r : Requirement)
    → (scan_of (settle reason d r) ≡ scan_of r) ⊎ (scan_of (settle reason d r) ≡ null)
unfolding settle scan_of
settle-scan_of reason d r = elim (Bool-cases (has_reason reason r)) [
  | inl hit ↦ inl (rw hit refl)
  | inr miss ↦ inl (rw miss refl)
]

any-map-non_empty :
    (p : Requirement → Bool) (f : Requirement → Requirement) (rs : List Requirement)
    → any p rs ≡ true
    → non_empty (map f rs) ≡ true
any-map-non_empty p f [] e = absurd (cc)
any-map-non_empty p f (r ∷ rs) e = refl

all-settle : (rs : List Requirement) → (resolution_status rs == "reprocessing") ≡ all is_settled rs
unfolding resolution_status
all-settle rs = elim (Bool-cases (all is_settled rs)) [ inl y ↦ rw y refl | inr n ↦ rw n refl ]

module _ (is_iso : String → Bool) (queue : ReviewQueue) (intake_id : String) where
  is_resolved_written :
      (name : String) (t : ReviewTask)
      → item_path intake_id ≡ ok name
      → check_scans is_iso t.requirements ≡ ok tt
      → inbox_review_is_resolved is_iso (write name (parsed t) queue) intake_id
        ≡ ok (all_settled (some t))
  unfolding inbox_review_is_resolved
  is_resolved_written name t path scans =
      rw (get_inbox_review-write is_iso queue intake_id name t path scans) refl

  -- The task that a completion finds is the one that the check of the requirements reads.
  complete_written :
      (name : String) (t : ReviewTask) (settled_now : Bool)
      → item_path intake_id ≡ ok name
      → check_scans is_iso t.requirements ≡ ok tt
      → all_settled (some t) ≡ settled_now
      → complete_inbox_review is_iso (write name (parsed t) queue) intake_id ≡ (
          if settled_now
          then ok (remove name (write name (parsed t) queue), true)
          else err unresolved_requirements)
  unfolding complete_inbox_review complete_task
  complete_written name t settled_now path scans e =
      rw
        (
          get_inbox_review-write is_iso queue intake_id name t path scans,
          is_resolved_written name t path scans,
          e,
        )
        (elim (Bool-cases settled_now) [ inl y ↦ rw y refl | inr n ↦ rw n refl ])

  abbrev pub Completes : ReviewQueue → Answer → Type 0
  Completes after a =
      (name : String) × (item_path intake_id ≡ ok name)
      × (complete_inbox_review is_iso after intake_id ≡ (
          if a.status == "reprocessing"
          then ok (remove name after, true)
          else err unresolved_requirements))

  resolve_found :
      (name : String) (found : Option ReviewTask) (reason : String) (d : Decision) (now : String)
      (after : ReviewQueue) (a : Answer)
      → get_inbox_review is_iso queue intake_id ≡ ok (name, found)
      → resolve_task queue name found reason d now ≡ ok (after, a)
      → a.reused ≡ false
      → Completes after a
  unfolding resolve_task unchanged answered all_settled
  resolve_found name none reason d now after a got e fresh =
      let reused : a.reused ≡ true =
        subst-ok (λ (x : ReviewQueue × Answer). x.1.reused ≡ true) e refl in
      absurd (cc (reused, fresh))
  resolve_found name (some t) reason d now after a got e fresh =
      let (path, there, scans) = get_inbox_review-IsFound is_iso queue intake_id name t got in
      elim (Bool-cases (any (has_reason reason) t.requirements)) [
        | inl hit ↦
            let (policy, known, e1) =
              or_raise->>=-eq-ok (supported reason) unsupported_reason _ (rw hit at e) in
            let rs = map (settle reason d) t.requirements in
            let some_left = any-map-non_empty _ (settle reason d) t.requirements hit in
            let done : all_settled (some (settled t reason d policy now))
                ≡ (resolution_status rs == "reprocessing") =
              rw (some_left, all-settle rs) refl in
            subst-ok (λ (x : ReviewQueue × Answer). Completes x.0 x.1) e1
              (
                name,
                path,
                complete_written name (settled t reason d policy now)
                    (resolution_status rs == "reprocessing") path
                    (check_scans-map is_iso (settle reason d) (settle-scan_of reason d)
                      t.requirements scans)
                    done,
              )
        | inr miss ↦
            let e1 : ok (unchanged queue (status_or "unknown" t.current)) ≡ ok (after, a) =
              rw miss at e in
            let reused : a.reused ≡ true =
              subst-ok (λ (x : ReviewQueue × Answer). x.1.reused ≡ true) e1 refl in
            absurd (cc (reused, fresh))
      ]

  -- A decision on a requirement that the task lists answers whether the task can be completed: with
  -- the answered "reprocessing" the completion removes the task, and with any other it is refused.
  pub resolve-Completes :
      (reason : String) (d : Decision) (now : String) (after : ReviewQueue) (a : Answer)
      → resolve_inbox_review_requirement is_iso queue intake_id reason d now ≡ ok (after, a)
      → a.reused ≡ false
      → Completes after a
  unfolding resolve_inbox_review_requirement
  resolve-Completes reason d now after a e fresh =
      let ((name, found), got, e1) = >>=-eq-ok (get_inbox_review is_iso queue intake_id) _ e in
      resolve_found name found reason (record d { decided_at = now }) now after a got e1 fresh
